-- ===== src/Sm/Client/Calls.antt =====
-- The methods of ServiceManagerClient, with what they use of libraries as a parameter.
use service_broker_proxy.Prelude.{String, ◌<>◌, Bool, Option, List, [], ◌∷◌}
use service_broker_proxy.Prelude.Int.{ℤ}
use service_broker_proxy.Prelude.Dict.{Dict}
use service_broker_proxy.Types.{
  failed, Credential, SmBroker, SmVisibility, ServicePlan, ServiceOffering,
}
use service_broker_proxy.Exec.{Result, ok, err, and_then}
use service_broker_proxy.Sm.Client.{
  SmClient, Response, ready_true_field_query, visibilities_params, put_credentials_url,
  put_credentials_result, activate_credentials_url, activate_credentials_result,
}

-- A request with its method, PUT in all cases, left out.
pub record HttpRequest : Type 0 where
  pub url : String
  pub body : String
  pub content_type : String

-- The routes of the web package.
pub record Routes : Type 0 where
  pub service_brokers : String
  pub visibilities : String
  pub service_plans : String
  pub service_offerings : String
  pub broker_platform_credentials : String

pub record Library : Type 0 where
  -- json.Marshal of credentials
  pub marshal : Credential → Result String
  -- the error of http.NewRequest for a URL
  pub new_request : String → Result (Unit {0})
  -- http.Client.Do, with the body read by util.BodyToObject
  pub send : HttpRequest → Response Credential
  -- url.Parse, then the parameters added to the query, and the URL as a text
  pub url_with_query : String → Dict String → Result String
  -- util.ListAll at the types of the elements
  pub list_brokers : String → Result (List SmBroker)
  pub list_visibilities : String → Result (List SmVisibility)
  pub list_plans : String → Result (List ServicePlan)
  pub list_offerings : String → Result (List ServiceOffering)
  -- strconv.Itoa
  pub itoa : ℤ → String

-- errors.Wrap
unfoldable pub wrap {ℓ} : {A : Type ℓ} → String → Result A → Result A
wrap message (ok a) = ok a
wrap message (err e) = err (failed message)

module _ (l : Library) (routes : Routes) (c : SmClient) where
  -- getURL
  abbrev pub get_url : String → String
  get_url route = c.url <> route

  -- listAll
  unfoldable pub list_all {ℓ} :
      {A : Type ℓ} → (String → Result (List A)) → String → Dict String → Result (List A)
  list_all list sm_url params = and_then (l.url_with_query sm_url params) list

  abbrev pub ready_params : Dict String
  ready_params = ("fieldQuery", ready_true_field_query) ∷ []

  -- GetBrokers
  unfoldable pub get_brokers : Result (List SmBroker)
  get_brokers =
      wrap "error getting brokers from Service Manager"
        (list_all l.list_brokers (get_url routes.service_brokers) ready_params)

  -- GetVisibilities
  unfoldable pub get_visibilities : Option (List String) → Result (List SmVisibility)
  get_visibilities ids = wrap "error getting visibilities from Service Manager" (
      list_all l.list_visibilities (get_url routes.visibilities) (visibilities_params l.itoa c ids))

  -- GetPlans
  unfoldable pub get_plans : Result (List ServicePlan)
  get_plans =
      wrap "error getting service plans from Service Manager"
        (list_all l.list_plans (get_url routes.service_plans) ready_params)

  -- GetServiceOfferings
  unfoldable pub get_service_offerings : Result (List ServiceOffering)
  get_service_offerings =
      wrap "error getting service offerings from Service Manager"
        (list_all l.list_offerings (get_url routes.service_offerings) ready_params)

  -- The request that PutCredentials sends, if it gets so far.
  abbrev pub put_request : Bool → String → HttpRequest
  put_request force body = record {
    url = put_credentials_url c routes.broker_platform_credentials force;
    body = body;
    content_type = "application/json";
  }

  -- PutCredentials
  unfoldable pub put_credentials : Credential → Bool → Result Credential
  put_credentials credentials force = and_then (l.marshal credentials) (λ body.
      and_then (l.new_request (put_credentials_url c routes.broker_platform_credentials force))
        (λ _. put_credentials_result (l.send (put_request force body))))

  abbrev pub activate_request : String → HttpRequest
  activate_request id = record {
    url = activate_credentials_url c routes.broker_platform_credentials id;
    body = "{}";
    content_type = "application/json";
  }

  -- ActivateCredentials
  unfoldable pub activate_credentials : String → Result (Unit {0})
  activate_credentials id =
      and_then (l.new_request (activate_credentials_url c routes.broker_platform_credentials id))
        (λ _. activate_credentials_result (l.send (activate_request id)))
