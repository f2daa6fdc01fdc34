-- ===== src/Sm/Client.antt =====
-- client.go of pkg/sm: the requests that it sends, and what it makes of the responses. The routes of
-- the Service Manager's web package are parameters.
pub mod Calls
pub mod Conflict
pub mod Authorized
use service_broker_proxy.Prelude.{
  ℕ, String, ◌<>◌, Bool, false, Option, none, some, List, [], ◌∷◌, leb, if◌then◌else◌,
}
use service_broker_proxy.Prelude.Int.{ℤ, is_positive}
use service_broker_proxy.Prelude.Dict.{Dict, insert}
use service_broker_proxy.Types.{
  Error, conflicting_credentials, credentials_not_found, failed, Credential,
}
use service_broker_proxy.Exec.{Result, ok, err}
use service_broker_proxy.Sm.Options
use service_broker_proxy.Sm.Transport.{BasicAuthTransport, SslTransport}
use service_broker_proxy.Sm.Options.{Settings, get_certificates}

-- ServiceManagerClient, with what NewClient puts into its HTTP client.
pub record SmClient : Type 0 where
  pub url : String
  pub visibilities_page_size : ℤ
  pub request_timeout : ℤ
  pub basic_auth : BasicAuthTransport
  -- none if the configuration brings a transport of its own
  pub ssl : Option SslTransport

-- NewClient
unfoldable pub new_client : (String → String → Result (Unit {0})) → Settings → Result SmClient
new_client x509_key_pair c = elim (Options.validate c) [
  | err e ↦ err e
  | ok u ↦ elim (get_certificates x509_key_pair c) [
    | err e ↦ err e
    | ok has_certificate ↦ ok (record {
      url = c.url;
      visibilities_page_size = c.visibilities_page_size;
      request_timeout = c.request_timeout;
      basic_auth = record { username = c.user; password = c.password };
      ssl =
          if c.has_transport
          then none
          else some (record {
            skip_ssl_validation = c.skip_ssl_validation;
            has_certificate = has_certificate;
            rt = none;
          });
    })
  ]
]

-- strings.Join
unfoldable pub join : String → List String → String
join separator [] = ""
join separator (x ∷ []) = x
join separator (x ∷ (y ∷ ys)) = x <> (separator <> join separator (y ∷ ys))

abbrev pub ready_true_field_query : String
ready_true_field_query = "ready eq true"

-- The parameters of GetVisibilities; `none` is the nil slice.
unfoldable pub visibilities_field_query : Option (List String) → String
visibilities_field_query none = ready_true_field_query
visibilities_field_query (some ids) =
    "ready eq true and service_plan_id in " <> ("('" <> (join "','" ids <> "')"))

-- `itoa` is strconv.Itoa.
unfoldable pub visibilities_params : (ℤ → String) → SmClient → Option (List String) → Dict String
visibilities_params itoa c ids =
    let params : Dict String = ("fieldQuery", visibilities_field_query ids) ∷ [] in
    if is_positive c.visibilities_page_size
    then insert "max_items" (itoa c.visibilities_page_size) params
    else params

-- The URL of PutCredentials.
unfoldable pub put_credentials_url : SmClient → String → Bool → String
put_credentials_url c route force =
    if force then (c.url <> route) <> "?force=true" else c.url <> route

-- The URL of ActivateCredentials.
unfoldable pub activate_credentials_url : SmClient → String → String → String
activate_credentials_url c route id = c.url <> (route <> ("/" <> (id <> "/activate")))

-- What the HTTP client gives: no response, or a status with the body read as `A`.
pub data Response {ℓ} (A : Type ℓ) : Type ℓ where
  no_response : Error → Response A
  response : ℕ → Result A → Response A

abbrev pub has_status : ℕ → ℕ → Bool
has_status expected status = if leb expected status then leb status expected else false

-- PutCredentials
unfoldable pub put_credentials_result : Response Credential → Result Credential
put_credentials_result (no_response e) = err (failed "error registering credentials")
put_credentials_result (response status body) =
    if has_status 200 status
    then body
    else if has_status 409 status
    then err conflicting_credentials
    else err (failed "unexpected response status code received upon credentials registration")

-- ActivateCredentials; the body is not read.
unfoldable pub activate_credentials_result {ℓ} : {A : Type ℓ} → Response A → Result (Unit {0})
activate_credentials_result (no_response e) = err (failed "error registering credentials")
activate_credentials_result (response status body) =
    if has_status 200 status
    then ok tt
    else if has_status 404 status
    then err credentials_not_found
    else err (failed "unexpected response status code received upon credentials activation")
