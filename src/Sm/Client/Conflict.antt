-- ===== src/Sm/Client/Conflict.antt =====
-- PutCredentials and the error that its callers tell apart.
use service_broker_proxy.Prelude.{String, ◌≡◌, ◌≢◌, ◌↔◌, refl, Bool, subst, arith}
use service_broker_proxy.Types.{conflicting_credentials, Credential}
use service_broker_proxy.Exec.{Result, ok, err, and_then}
use service_broker_proxy.Sm.Client.{
  SmClient, Response, no_response, response, put_credentials_url, put_credentials_result,
}
use service_broker_proxy.Sm.Client.Calls.{
  HttpRequest, Library, Routes, put_request, put_credentials,
}

-- The result is not the error of a conflict.
abbrev pub NoConflict {ℓ} : {A : Type ℓ} → Result A → Type 0
NoConflict (ok a) = Unit
NoConflict (err e) = e ≢ conflicting_credentials

abbrev pub BodyNoConflict {ℓ} : {A : Type ℓ} → Response A → Type 0
BodyNoConflict (no_response e) = Unit
BodyNoConflict (response status body) = NoConflict body

-- The response has the status of a conflict.
abbrev pub IsConflict {ℓ} : {A : Type ℓ} → Response A → Type 0
IsConflict (no_response e) = ⊥
IsConflict (response status body) = status ≡ 409

put_credentials_result-IsConflict :
    (r : Response Credential)
    → BodyNoConflict r
    → put_credentials_result r ≡ err conflicting_credentials ↔ IsConflict r
unfolding put_credentials_result
put_credentials_result-IsConflict (no_response e) b = (λ h. ground arith, λ h. elim h [ ])
put_credentials_result-IsConflict (response status (ok c)) b =
    (λ h. ground arith, λ h. ground arith)
put_credentials_result-IsConflict (response status (err e)) b =
    (λ h. ground (arith), λ h. ground arith)

and_then-conflict {ℓ κ} :
    {A : Type ℓ} {B : Type κ} (r : Result A) (f : A → Result B) (P : A → Type 0)
    → NoConflict r
    → ((a : A) → f a ≡ err conflicting_credentials ↔ P a)
    → and_then r f ≡ err conflicting_credentials ↔ ((a : A) × (r ≡ ok a) × P a)
and_then-conflict (ok a) f P n h =
    (λ e. (a, refl, (h a).0 e), λ (b, e, p). let q : b ≡ a = cc in (h a).1 (subst P q p))
and_then-conflict (err e) f P n h = (λ x. elim (n (cc)) [ ], λ (b, x, p). ground arith)

module _ (l : Library) (routes : Routes) (c : SmClient) (credentials : Credential)
    (force : Bool) where
  -- If the libraries have no error of a conflict of their own, then PutCredentials returns that error
  -- if and only if its request was sent and answered with the status 409.
  pub put_credentials-IsConflict :
      NoConflict (l.marshal credentials)
      → NoConflict (l.new_request (put_credentials_url c routes.broker_platform_credentials force))
      → ((request : HttpRequest) → BodyNoConflict (l.send request))
      → put_credentials l routes c credentials force ≡ err conflicting_credentials ↔ (
          (body : String) × (l.marshal credentials ≡ ok body)
          × ((u : Unit {0}) × (l.new_request
                  (put_credentials_url c routes.broker_platform_credentials force)
                ≡ ok u)
              × IsConflict (l.send (put_request l routes c force body))))
  unfolding put_credentials
  put_credentials-IsConflict m n b = and_then-conflict _ _ _ m (λ body.
      and_then-conflict _ _ _ n
        (λ u. put_credentials_result-IsConflict _ (b (put_request l routes c force body))))
