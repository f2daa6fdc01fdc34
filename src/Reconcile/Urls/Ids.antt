-- ===== src/Reconcile/Urls/Ids.antt =====
-- brokerIDFromURL, on the URLs of proxies.
use text.Mathlib.TextLemmas.{nil-append, cons-append}
use service_broker_proxy.Prelude.{String, ◌<>◌, ◌≡◌, refl, false}
use service_broker_proxy.Reconcile.Urls.{is_char, after_last_slash, broker_id_from_url}

-- No character of the text is a slash.
abbrev pub HasNoSlash : String → Type 0
HasNoSlash String.[] = Unit
HasNoSlash (String.◌∷◌ c rest) = (is_char b'/' c ≡ false) × HasNoSlash rest

after_last_slash_of_HasNoSlash :
    (best id : String) → HasNoSlash id → after_last_slash best id ≡ best
unfolding after_last_slash
after_last_slash_of_HasNoSlash best String.[] h = refl
after_last_slash_of_HasNoSlash best (String.◌∷◌ c rest) (no_slash, h) =
    rw no_slash (after_last_slash_of_HasNoSlash best rest h)

after_last_slash-slash : (best id : String) → HasNoSlash id → after_last_slash best ("/" <> id) ≡ id
unfolding after_last_slash
after_last_slash-slash best id h =
    rw cons-append (rw nil-append (after_last_slash_of_HasNoSlash id id h))

after_last_slash-append :
    (prefix best id : String) → HasNoSlash id → after_last_slash best (prefix <> ("/" <> id)) ≡ id
unfolding after_last_slash
after_last_slash-append String.[] best id h = rw nil-append (after_last_slash-slash best id h)
after_last_slash-append (String.◌∷◌ c rest) best id h =
    rw cons-append (after_last_slash-append rest _ id h)

-- The id that is read from `prefix/id` is `id`, for every prefix and every id without a slash.
pub broker_id_from_url-append :
    (prefix id : String) → HasNoSlash id → broker_id_from_url (prefix <> ("/" <> id)) ≡ id
unfolding broker_id_from_url
broker_id_from_url-append prefix id h = after_last_slash-append prefix _ id h
