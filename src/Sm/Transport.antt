-- ===== src/Sm/Transport.antt =====
-- transport.go of pkg/sm
use service_broker_proxy.Prelude.{String, Bool, ◌&&◌, not, Option, none, some, ◌==◌, if◌then◌else◌}

-- The requests of net/http: Request.SetBasicAuth and Request.BasicAuth.
pub record Http : Type 1 where
  pub Request : Type 0
  pub set_basic_auth : Request → String → String → Request
  pub basic_auth : Request → Option (String × String)

-- The round trippers that an SSLTransport may delegate to: http.DefaultTransport, another
-- *http.Transport, or one of another type.
pub data RoundTripper : Type 0 where
  default_transport own_transport other_round_tripper : RoundTripper

-- What SSLTransport.RoundTrip puts into a tls.Config.
pub record TlsConfig : Type 0 where
  pub insecure_skip_verify : Bool
  pub has_certificate : Bool

-- The TLSClientConfig of the two *http.Transport, which others may share.
pub record Transports : Type 0 where
  pub default_config : Option TlsConfig
  pub own_config : Option TlsConfig

-- SSLTransport
pub record SslTransport : Type 0 where
  pub skip_ssl_validation : Bool
  pub has_certificate : Bool
  pub rt : Option RoundTripper

-- The type assertion of SSLTransport.RoundTrip, and the assignment under it.
unfoldable pub set_tls_config : RoundTripper → TlsConfig → Transports → Transports
set_tls_config default_transport config s = record s { default_config = some config }
set_tls_config own_transport config s = record s { own_config = some config }
set_tls_config other_round_tripper config s = s

unfoldable pub rt_or_default : Option RoundTripper → RoundTripper
rt_or_default none = default_transport
rt_or_default (some rt) = rt

-- SSLTransport.RoundTrip up to the call of the round tripper that it delegates to: this one, the
-- changed transport, and the changed configurations.
unfoldable pub ssl_round_trip : SslTransport → Transports → RoundTripper × SslTransport × Transports
ssl_round_trip b s =
    let rt = rt_or_default b.rt in
    (
      rt,
      record b { rt = some rt },
      set_tls_config rt
          (record {
            insecure_skip_verify = b.skip_ssl_validation;
            has_certificate = b.has_certificate;
          })
          s,
    )

-- BasicAuthTransport, without its round tripper.
pub record BasicAuthTransport : Type 0 where
  pub username : String
  pub password : String

-- BasicAuthTransport.RoundTrip: the request that its round tripper gets.
unfoldable pub round_trip : (h : Http) → BasicAuthTransport → h.Request → h.Request
round_trip h b request =
    if not (b.username == "") && not (b.password == "")
    then h.set_basic_auth request b.username b.password
    else request
