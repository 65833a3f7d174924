-- ===== src/Provision/Tests.antt =====
-- The theorems on svc-aerial-provision at concrete inputs: one live subscription of "11".
use aerial_ran_platform.Base.{ℕ, Option, none, some, List, [], ◌∷◌, ◌≡◌, refl}
use aerial_ran_platform.Base.Int.{pos}
use aerial_ran_platform.Go.Exec.{Leads}
use aerial_ran_platform.Go.Postgres.{World, Fault}
use aerial_ran_platform.Go.Postgres.Sample.{sample}
use aerial_ran_platform.Provision.Model.{PlanRow, SubscriptionRow, CreateSubRequest, Data}
use aerial_ran_platform.Provision.Service.{cancel}
use aerial_ran_platform.Provision.Service.Cancellation.{IsCancelled, cancel_lem}
use aerial_ran_platform.Provision.Service.Subscriptions.{
  HasOneLive, Request, subscribing, cancelling, serve_all, serve_all-HasOneLive,
}

abbrev no_faults : ℕ → Option Fault
no_faults n = none

abbrev basic : PlanRow
basic = record {
  id = "aerial-basic";
  name = "Aerial Basic";
  monthly_cents = pos 500;
  data_cap_mb = some (pos 2048);
  description = none;
  created_at = 1;
}

abbrev subscription : SubscriptionRow
subscription = record {
  id = 7;
  org_id = 1;
  user_id = 4;
  plan_id = "aerial-basic";
  sim_id = none;
  esim_id = none;
  status = "active";
  started_at = 1;
  cancelled_at = none;
  created_at = 1;
  updated_at = 1;
}

abbrev start : World Data
start = record { tick = 0; db = record { plans = basic ∷ []; subscriptions = subscription ∷ [] } }

abbrev again : CreateSubRequest
again = record { user_id = "11111"; plan_id = "aerial-basic"; sim_id = none; esim_id = none }

cancel_example :
    Leads
      (λ _ w'. IsCancelled (sample no_faults) "11" "11111111" start.db w'.db)
      (λ e w'. w'.db ≡ start.db)
      (cancel (sample no_faults) "11" "11111111")
      start
cancel_example = cancel_lem (sample no_faults) "11" "11111111" start

abbrev requests : List Request
requests = subscribing "11" again ∷ cancelling "11" "11111111" ∷ subscribing "11" again ∷ []

serve_all-HasOneLive_example :
    HasOneLive (serve_all (sample no_faults) requests start).db.subscriptions
serve_all-HasOneLive_example = serve_all-HasOneLive (sample no_faults) requests start (refl, tt)
