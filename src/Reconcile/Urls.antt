-- ===== src/Reconcile/Urls.antt =====
-- The texts of reconcile_brokers.go: the broker id in a URL and the key of a broker.
pub mod Ids
use Prim.Native.Char.{Char, code}
use Prim.Native.String
use service_broker_proxy.Prelude.{ℕ, String, ◌<>◌, Bool, ◌&&◌, leb, ◌==◌, if◌then◌else◌}
use service_broker_proxy.Types.{ServiceBroker}

abbrev pub is_char : ℕ → Char → Bool
is_char n c = leb n (code c) && leb (code c) n

-- The part behind the last slash, or the whole text; `best` is what follows the last slash so far.
pub after_last_slash : String → String → String
after_last_slash best String.[] = best
after_last_slash best (String.◌∷◌ c rest) =
    after_last_slash (if is_char b'/' c then rest else best) rest

-- brokerIDFromURL
unfoldable pub broker_id_from_url : String → String
unfolding after_last_slash
broker_id_from_url url = after_last_slash url url

-- strings.TrimRight(s, "/")
unfoldable pub trim_right_slashes : String → String
trim_right_slashes String.[] = ""
trim_right_slashes (String.◌∷◌ c rest) =
    let trimmed = trim_right_slashes rest in
    if is_char b'/' c && trimmed == "" then "" else String.◌∷◌ c trimmed

-- getBrokerKey
unfoldable pub get_broker_key : ServiceBroker → String
unfolding trim_right_slashes
get_broker_key b = "name:" <> (b.name <> ("|url:" <> trim_right_slashes b.broker_url))
