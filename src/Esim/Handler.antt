-- ===== src/Esim/Handler.antt =====
-- svc-aerial-esim/internal/handler: the endpoints. A request is the claims that the middleware left
-- in its context, if any, and its decoded body (none when the JSON is invalid), the `id` of its
-- path or its `region`.
pub mod Isolation
use aerial_ran_platform.Base.{String, ◌||◌, Option, none, some, List, if◌then◌else◌}
use aerial_ran_platform.Go.Errors.{Err, errors_is}
use aerial_ran_platform.Go.Postgres.{World}
use aerial_ran_platform.Respond.{Response, json, error, written, text, error_text, db_error, reply}
use aerial_ran_platform.Jwt.{Claims}
use aerial_ran_platform.Esim.Model.{
  Sentinel, same, package_not_found, esim_not_found, provider_error, bad_input, Package, Esim,
  OrderRequest, Data,
}
use aerial_ran_platform.Esim.Service
use aerial_ran_platform.Esim.Service.{Service, Op}

unfoldable pub write_service_err : {A : Type 0} → Err Sentinel → Response Sentinel A
write_service_err e =
    if errors_is same e esim_not_found || errors_is same e package_not_found
    then error 404 "not_found" (error_text e)
    else if errors_is same e bad_input
    then error 400 "bad_request" (error_text e)
    else if errors_is same e provider_error
    then error 502 "provider_error" (error_text e)
    else db_error e

abbrev pub Endpoint : Type 0 → Type 0 → Type 0
Endpoint V A = World (Data V) → Response Sentinel A × World (Data V)

module _ {V : Type 0} where
  -- `claims, ok := jwt.FromContext(r.Context())`
  abbrev pub with_claims : {A : Type 0} → Option Claims → (Claims → Endpoint V A) → Endpoint V A
  with_claims none f w = (error 401 "unauthorized" (text "no token"), w)
  with_claims (some c) f w = f c w

  abbrev pub with_body : {A B : Type 0} → Option B → (B → Endpoint V A) → Endpoint V A
  with_body none f w = (error 400 "bad_request" (text "invalid json"), w)
  with_body (some b) f w = f b w

  module _ (svc : Service V) where
    unfoldable pub refresh_catalog : String → Endpoint V (List Package)
    refresh_catalog region = reply (Service.refresh_catalog svc region) (json 200) write_service_err

    unfoldable pub list_packages : String → Endpoint V (List Package)
    list_packages region = reply (Service.list_packages svc region) (json 200) write_service_err

    unfoldable pub order : Option Claims → Option OrderRequest → Endpoint V Esim
    order ctx req = with_claims ctx λ claims.
        with_body req
          λ body. reply (Service.order svc claims.org_id body) (json 201) write_service_err

    unfoldable pub list : Option Claims → Endpoint V (List Esim)
    list ctx =
        with_claims ctx
          λ claims. reply (Service.list_by_org svc claims.org_id) (json 200) write_service_err

    unfoldable pub get : Option Claims → String → Endpoint V Esim
    get ctx id =
        with_claims ctx
          λ claims. reply (Service.get svc claims.org_id id) (json 200) write_service_err

    unfoldable pub refresh_usage : Option Claims → String → Endpoint V Esim
    refresh_usage ctx id =
        with_claims ctx
          λ claims. reply (Service.refresh_usage svc claims.org_id id) (json 200) write_service_err

    -- `w.WriteHeader(http.StatusNoContent)` when the operation succeeds.
    abbrev pub acknowledge : Op V (Unit {0}) → Endpoint V (Unit {0})
    acknowledge m = reply m (λ _. written) write_service_err

    unfoldable pub activate : Option Claims → String → Endpoint V (Unit {0})
    activate ctx id =
        with_claims ctx λ claims. acknowledge (Service.mark_activated svc claims.org_id id)

    unfoldable pub cancel : Option Claims → String → Endpoint V (Unit {0})
    cancel ctx id = with_claims ctx λ claims. acknowledge (Service.cancel svc claims.org_id id)
