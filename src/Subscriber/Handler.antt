-- ===== src/Subscriber/Handler.antt =====
-- svc-aerial-subscriber/internal/handler: the endpoints. A request is the claims that the
-- middleware left in its context, if any, and its decoded body (none when the JSON is invalid) or
-- the `id` of its path.
pub mod Isolation
use aerial_ran_platform.Base.{ℕ, String, Bool, Option, none, some, List, if◌then◌else◌}
use aerial_ran_platform.Go.Errors.{Err, errors_is}
use aerial_ran_platform.Go.Postgres.{World}
use aerial_ran_platform.Respond.{Response, json, error, written, text, error_text, db_error, reply}
use aerial_ran_platform.Jwt.{Claims}
use aerial_ran_platform.Subscriber.Model.{
  Sentinel, same, sim_not_found, sim_exists, bad_input, provisioning, deprovisioning, Sim,
  CreateSimRequest, Data,
}
use aerial_ran_platform.Subscriber.Service
use aerial_ran_platform.Subscriber.Service.{Service, Op}

abbrev pub Endpoint : Type 0 → Type 0
Endpoint A = World Data → Response Sentinel A × World Data

unfoldable pub write_service_err : {A : Type 0} → Err Sentinel → Response Sentinel A
write_service_err e =
    if errors_is same e sim_not_found
    then error 404 "not_found" (error_text e)
    else if errors_is same e sim_exists
    then error 409 "conflict" (error_text e)
    else if errors_is same e bad_input
    then error 400 "bad_request" (error_text e)
    else if errors_is same e provisioning
    then error 502 "provisioning_failed" (error_text e)
    else if errors_is same e deprovisioning
    then error 502 "deprovisioning_failed" (error_text e)
    else db_error e

-- `claims, ok := jwt.FromContext(r.Context())`
abbrev pub with_claims : {A : Type 0} → Option Claims → (Claims → Endpoint A) → Endpoint A
with_claims none f w = (error 401 "unauthorized" (text "no token"), w)
with_claims (some c) f w = f c w

abbrev pub with_body : {A B : Type 0} → Option B → (B → Endpoint A) → Endpoint A
with_body none f w = (error 400 "bad_request" (text "invalid json"), w)
with_body (some b) f w = f b w

module _ (svc : Service) where
  unfoldable pub create : Option Claims → Option CreateSimRequest → Endpoint Sim
  create ctx req = with_claims ctx λ claims.
      with_body req
        λ body. reply (Service.create_sim svc claims.org_id body) (json 201) write_service_err

  unfoldable pub list : Option Claims → Endpoint (List Sim)
  list ctx =
      with_claims ctx λ claims. reply (Service.list svc claims.org_id) (json 200) write_service_err

  unfoldable pub get : Option Claims → String → Endpoint Sim
  get ctx id =
      with_claims ctx
        λ claims. reply (Service.get svc claims.org_id id) (json 200) write_service_err

  -- `w.WriteHeader(http.StatusNoContent)` when the operation succeeds.
  abbrev pub acknowledge : Op (Unit {0}) → Endpoint (Unit {0})
  acknowledge m = reply m (λ _. written) write_service_err

  unfoldable pub suspend : Option Claims → String → Endpoint (Unit {0})
  suspend ctx id = with_claims ctx λ claims. acknowledge (Service.suspend svc claims.org_id id)

  unfoldable pub resume : Option Claims → String → Endpoint (Unit {0})
  resume ctx id = with_claims ctx λ claims. acknowledge (Service.resume svc claims.org_id id)

  unfoldable pub terminate : Option Claims → String → Endpoint (Unit {0})
  terminate ctx id = with_claims ctx λ claims. acknowledge (Service.terminate svc claims.org_id id)
