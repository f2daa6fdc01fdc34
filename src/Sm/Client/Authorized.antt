-- ===== src/Sm/Client/Authorized.antt =====
-- The basic authorization of the requests of a client that NewClient has built.
use service_broker_proxy.Prelude.{String, ◌≡◌, some, false, ◌==◌, arith}
use service_broker_proxy.Exec.{Result, ok}
use service_broker_proxy.Sm.Options
use service_broker_proxy.Sm.Options.{Settings, get_certificates}
use service_broker_proxy.Sm.Transport.{Http, round_trip}
use service_broker_proxy.Sm.Client.{SmClient, new_client}
use service_broker_proxy.Reconcile.Urls.{is_char}

valid_user :
    (c : Settings)
    → Options.validate c ≡ ok tt
    → ((c.user == "") ≡ false) × ((c.password == "") ≡ false)
unfolding Options.validate
valid_user c h = ground arith

new_client-basic_auth :
    (x : String → String → Result (Unit {0})) (c : Settings) (client : SmClient)
    → new_client x c ≡ ok client
    → (Options.validate c ≡ ok tt)
      × (client.basic_auth ≡ record { username = c.user; password = c.password })
unfolding new_client
new_client-basic_auth x c client h = ground arith

-- No character of the text is a colon.
abbrev pub HasNoColon : String → Type 0
HasNoColon String.[] = Unit
HasNoColon (String.◌∷◌ c rest) = (is_char b':' c ≡ false) × HasNoColon rest

-- BasicAuth reads what SetBasicAuth put into the request, if the user name has no colon.
abbrev pub ReadsBack : Http → Type 0
ReadsBack h =
    (request : h.Request) (username password : String)
    → HasNoColon username
    → h.basic_auth (h.set_basic_auth request username password) ≡ some (username, password)

-- If BasicAuth reads back what SetBasicAuth wrote for user names without a colon, and the user of
-- the settings has none: from every request that goes through the basic authorization of a client
-- that NewClient returned, BasicAuth reads the user and the password of the settings, whatever
-- authorization the request had before.
pub new_client-authorizes :
    (h : Http) (x : String → String → Result (Unit {0})) (c : Settings) (client : SmClient)
    (request : h.Request)
    → ReadsBack h
    → HasNoColon c.user
    → new_client x c ≡ ok client
    → h.basic_auth (round_trip h client.basic_auth request) ≡ some (c.user, c.password)
unfolding round_trip
new_client-authorizes h x c client request reads no_colon e =
    let (v, b) = new_client-basic_auth x c client e in
    let (u, p) = valid_user c v in rw (b, u, p) (reads request c.user c.password no_colon)
