-- ===== src/Provision/Handler.antt =====
-- svc-aerial-provision/internal/provision/provision.go: the endpoints. The claims are those of the
-- middleware, which mounts every path of this service behind a token.
use aerial_ran_platform.Base.{String, Option, none, some, List, str_eq, if◌then◌else◌}
use aerial_ran_platform.Go.Errors.{Err, errors_is}
use aerial_ran_platform.Go.Postgres.{Postgres, World}
use aerial_ran_platform.Respond.{Response, json, error, written, text, error_text, db_error, reply}
use aerial_ran_platform.Jwt.{Claims}
use aerial_ran_platform.Provision.Model.{
  Sentinel, same, plan_not_found, sub_not_found, sub_exists, Plan, Subscription, CreateSubRequest,
  Data,
}
use aerial_ran_platform.Provision.Service.{
  create_subscription, list_plans as plans_of, get_plan as plan_of, list_by_org, cancel,
}

abbrev pub Endpoint : Type 0 → Type 0
Endpoint A = World Data → Response Sentinel A × World Data

abbrev pub plan_err : {A : Type 0} → Err Sentinel → Response Sentinel A
plan_err e =
    if errors_is same e plan_not_found
    then error 404 "not_found" (text "plan not found")
    else db_error e

abbrev pub create_err : {A : Type 0} → Err Sentinel → Response Sentinel A
create_err e =
    if errors_is same e plan_not_found
    then error 404 "not_found" (text "plan not found")
    else if errors_is same e sub_exists
    then error 409 "conflict" (error_text e)
    else db_error e

abbrev pub cancel_err : {A : Type 0} → Err Sentinel → Response Sentinel A
cancel_err e =
    if errors_is same e sub_not_found then error 404 "not_found" (error_text e) else db_error e

-- The user of the request is by default the caller.
abbrev pub for_caller : Claims → CreateSubRequest → CreateSubRequest
for_caller claims req = record req {
  user_id = if str_eq req.user_id "" then claims.user_id else req.user_id;
}

module _ (server : Postgres) where
  unfoldable pub list_plans : Endpoint (List Plan)
  list_plans = reply (plans_of server) (json 200) db_error

  unfoldable pub get_plan : String → Endpoint Plan
  get_plan id = reply (plan_of server id) (json 200) plan_err

  abbrev pub create_with : Claims → Option CreateSubRequest → Endpoint Subscription
  create_with claims none w = (error 400 "bad_request" (text "invalid json"), w)
  create_with claims (some req) w =
      reply (create_subscription server claims.org_id (for_caller claims req)) (json 201) create_err
        w

  unfoldable pub create_sub : Option Claims → Option CreateSubRequest → Endpoint Subscription
  create_sub none body w = (error 401 "unauthorized" (text "no token"), w)
  create_sub (some claims) body w = create_with claims body w

  unfoldable pub list_subs : Claims → Endpoint (List Subscription)
  list_subs claims = reply (list_by_org server claims.org_id) (json 200) db_error

  unfoldable pub cancel_sub : Option Claims → String → Endpoint (Unit {0})
  cancel_sub none id w = (error 401 "unauthorized" (text "no token"), w)
  cancel_sub (some claims) id w = reply (cancel server claims.org_id id) (λ _. written) cancel_err w
