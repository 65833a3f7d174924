-- ===== src/Iam/Handler.antt =====
-- svc-aerial-iam/internal/handler: the endpoints. A body is none when its JSON is invalid; the
-- claims are those that the middleware left.
use aerial_ran_platform.Base.{String, ◌||◌, Option, none, some, if◌then◌else◌}
use aerial_ran_platform.Go.Errors.{Err, errors_is}
use aerial_ran_platform.Go.Postgres.{World}
use aerial_ran_platform.Respond.{Response, json, error, written, text, error_text, db_error, reply}
use aerial_ran_platform.Jwt.{Claims}
use aerial_ran_platform.Iam.Model.{
  Sentinel, same, user_not_found, org_not_found, token_not_found, user_exists, bad_credentials,
  token_revoked, token_expired, token_reuse, invalid_argument, reuse_revoke_failed, User,
  SignupRequest, LoginRequest, TokenPair, Data,
}
use aerial_ran_platform.Iam.Service
use aerial_ran_platform.Iam.Service.{Service}

abbrev pub Endpoint : Type 0 → Type 0
Endpoint A = World Data → Response Sentinel A × World Data

unfoldable pub write_service_err : {A : Type 0} → Err Sentinel → Response Sentinel A
write_service_err e =
    if errors_is same e user_not_found
      || errors_is same e org_not_found
      || errors_is same e token_not_found
    then error 404 "not_found" (error_text e)
    else if errors_is same e user_exists
    then error 409 "conflict" (error_text e)
    else if errors_is same e bad_credentials
        || errors_is same e token_revoked
        || errors_is same e token_expired
        || errors_is same e token_reuse
    then error 401 "unauthorized" (error_text e)
    else if errors_is same e invalid_argument
    then error 400 "bad_request" (error_text e)
    else if errors_is same e reuse_revoke_failed
    then error 500 "reuse_revoke_failed" (error_text e)
    else db_error e

abbrev pub with_body : {A B : Type 0} → Option B → (B → Endpoint A) → Endpoint A
with_body none f w = (error 400 "bad_request" (text "invalid json"), w)
with_body (some b) f w = f b w

abbrev pub with_claims : {A : Type 0} → Option Claims → (Claims → Endpoint A) → Endpoint A
with_claims none f w = (error 401 "unauthorized" (text "no token"), w)
with_claims (some c) f w = f c w

module _ (svc : Service) where
  unfoldable pub signup : Option SignupRequest → Endpoint User
  signup body = with_body body λ req. reply (Service.signup svc req) (json 201) write_service_err

  unfoldable pub login : Option LoginRequest → Endpoint TokenPair
  login body = with_body body λ req. reply (Service.login svc req) (json 200) write_service_err

  -- The body's `refresh_token`, and the header `X-Device-ID`.
  unfoldable pub refresh : Option String → String → Endpoint TokenPair
  refresh body device =
      with_body body λ raw. reply (Service.refresh svc raw device) (json 200) write_service_err

  unfoldable pub logout : Option String → Endpoint (Unit {0})
  logout body =
      with_body body λ raw. reply (Service.logout svc raw) (λ _. written) write_service_err

  unfoldable pub me : Option Claims → Endpoint User
  me ctx =
      with_claims ctx λ claims. reply (Service.me svc claims.user_id) (json 200) write_service_err
