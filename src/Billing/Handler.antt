-- ===== src/Billing/Handler.antt =====
-- svc-aerial-billing/internal/billing/billing.go: the endpoints.
use aerial_ran_platform.Base.{String, Option, none, some, List, str_eq, if◌then◌else◌}
use aerial_ran_platform.Go.Postgres.{World}
use aerial_ran_platform.Respond.{Response, json, error, text, db_error, reply}
use aerial_ran_platform.Jwt.{Claims}
use aerial_ran_platform.Billing.Model.{Sentinel, UsageEvent, Rollup, Data}
use aerial_ran_platform.Billing.Service
use aerial_ran_platform.Billing.Service.{Service, my_month, org_month}

abbrev pub Endpoint : Type 0 → Type 0
Endpoint A = World Data → Response Sentinel A × World Data

abbrev pub or_caller : Option String → String → Option String
or_caller none caller = some caller
or_caller (some user) caller = some user

-- The organisation and the user of the event are by default the caller's.
abbrev pub for_caller : Claims → UsageEvent → UsageEvent
for_caller claims e = record e {
  org_id = if str_eq e.org_id "" then claims.org_id else e.org_id;
  user_id = or_caller e.user_id claims.user_id;
}

module _ (svc : Service) where
  abbrev pub ingest_with : Claims → Option UsageEvent → Endpoint String
  ingest_with claims none w = (error 400 "bad_request" (text "invalid json"), w)
  ingest_with claims (some e) w =
      reply (Service.ingest svc (for_caller claims e)) (λ _. json 202 "accepted") db_error w

  unfoldable pub ingest : Option Claims → Option UsageEvent → Endpoint String
  ingest none body w = (error 401 "unauthorized" (text "no token"), w)
  ingest (some claims) body w = ingest_with claims body w

  unfoldable pub me : Claims → Endpoint Rollup
  me claims = reply (my_month svc claims.org_id claims.user_id) (json 200) db_error

  unfoldable pub org : Claims → Endpoint (List Rollup)
  org claims = reply (org_month svc claims.org_id) (json 200) db_error
