-- ===== src/Provision/Service.antt =====
-- svc-aerial-provision/internal/provision/provision.go: the service's statements and operations.
pub mod Subscriptions
pub mod Cancellation
use mathlib.Core.Option
use aerial_ran_platform.Base.{
  ℕ, String, Bool, true, false, not, ◌&&◌, ◌||◌, Option, none, some, List, [], ◌∷◌, map, str_eq,
  ◌==◌, ltb, take, find, exists, select, update, sort_by, if◌then◌else◌,
}
use aerial_ran_platform.Base.Int.{ℤ, less}
use aerial_ran_platform.Go.Errors.{Err, pg, sentinel, as_pg, code_is}
use aerial_ran_platform.Go.Exec.{Result, ok, err, Exec, pure, fail, attempt, ◌>>=◌, ◌>>◌}
use aerial_ran_platform.Go.Postgres.{Postgres, World, call, cast, cast_null}
use aerial_ran_platform.Provision.Model.{
  Sentinel, plan_not_found, sub_not_found, sub_exists, PlanRow, Plan, SubscriptionRow, Subscription,
  CreateSubRequest, Data,
}

abbrev pub Op : Type 0 → Type 0
Op A = Exec (World Data) (Err Sentinel) A

abbrev pub Answer : Type 0 → Type 0
Answer A = Result (Err Sentinel) (A × Data)

abbrev pub ptr : Option String → String
ptr none = ""
ptr (some s) = s

abbrev pub scan_plan : PlanRow → Plan
scan_plan r = record {
  id = r.id;
  name = r.name;
  monthly_cents = r.monthly_cents;
  data_cap_mb = r.data_cap_mb;
  description = ptr r.description;
  created_at = r.created_at;
}

abbrev pub cheaper : PlanRow → PlanRow → Bool
cheaper a b = less a.monthly_cents b.monthly_cents

abbrev pub plan_id_is : String → PlanRow → Bool
plan_id_is id r = str_eq r.id id

-- `status <> 'cancelled'`
abbrev pub is_live : SubscriptionRow → Bool
is_live r = not (str_eq r.status "cancelled")

-- The unique keys: the identifier, and the partial index on live rows.
abbrev pub clashes : SubscriptionRow → SubscriptionRow → Bool
clashes new r =
    r.id == new.id
    || (is_live new && is_live r && r.user_id == new.user_id && str_eq r.plan_id new.plan_id)

abbrev pub in_org : ℕ → SubscriptionRow → Bool
in_org org r = r.org_id == org

abbrev pub created_later : SubscriptionRow → SubscriptionRow → Bool
created_later a b = ltb b.created_at a.created_at

-- `id=$1::uuid AND org_id=$2::uuid AND status<>'cancelled'`
abbrev pub cancellable : ℕ → ℕ → SubscriptionRow → Bool
cancellable u org r = r.id == u && r.org_id == org && is_live r

abbrev pub cancelled : ℕ → SubscriptionRow → SubscriptionRow
cancelled now r = record r { status = "cancelled"; cancelled_at = some now; updated_at = now }

module _ (server : Postgres) where
  abbrev pub scan : SubscriptionRow → Subscription
  scan r = record {
    id = server.show_uuid r.id;
    org_id = server.show_uuid r.org_id;
    user_id = server.show_uuid r.user_id;
    plan_id = r.plan_id;
    sim_id = Option.map server.show_uuid r.sim_id;
    esim_id = Option.map server.show_uuid r.esim_id;
    status = r.status;
    started_at = r.started_at;
    cancelled_at = r.cancelled_at;
    created_at = r.created_at;
    updated_at = r.updated_at;
  }

  unfoldable pub list_plans : Op (List Plan)
  list_plans = do
    rows ← call server.fault λ n t. ok (sort_by cheaper t.plans, t)
    pure (map scan_plan rows)

  abbrev pub plan_found : Option PlanRow → Op Plan
  plan_found none = fail (sentinel plan_not_found)
  plan_found (some r) = pure (scan_plan r)

  unfoldable pub get_plan : String → Op Plan
  get_plan id = do
    row ← call server.fault λ n t. ok (find (plan_id_is id) t.plans, t)
    plan_found row

  abbrev pub new_row : String → ℕ → ℕ → Option ℕ → Option ℕ → ℕ → SubscriptionRow
  new_row plan_id org user sim esim n = record {
    id = server.fresh n;
    org_id = org;
    user_id = user;
    plan_id = plan_id;
    sim_id = sim;
    esim_id = esim;
    status = "active";
    started_at = server.now n;
    cancelled_at = none;
    created_at = server.now n;
    updated_at = server.now n;
  }

  abbrev pub add_subscription : SubscriptionRow → Data → Answer SubscriptionRow
  add_subscription row t =
      if exists (clashes row) t.subscriptions
      then err (pg "23505")
      else if not (exists (plan_id_is row.plan_id) t.plans)
      then err (pg "23503")
      else ok (row, record t { subscriptions = row ∷ t.subscriptions })

  abbrev pub insert_subscription : String → CreateSubRequest → ℕ → Data → Answer SubscriptionRow
  insert_subscription org_id req n t = cast (server.parse_uuid org_id) λ org.
      cast (server.parse_uuid req.user_id) λ user. cast_null server (ptr req.sim_id) λ sim.
        cast_null server (ptr req.esim_id)
          λ esim. add_subscription (new_row req.plan_id org user sim esim n) t

  -- The request's struct, with what `RETURNING` gives.
  abbrev pub returned : String → CreateSubRequest → SubscriptionRow → Subscription
  returned org_id req r = record {
    id = server.show_uuid r.id;
    org_id = org_id;
    user_id = req.user_id;
    plan_id = req.plan_id;
    sim_id = req.sim_id;
    esim_id = req.esim_id;
    status = "active";
    started_at = r.started_at;
    cancelled_at = none;
    created_at = r.created_at;
    updated_at = r.updated_at;
  }

  abbrev pub subscribed :
      String → CreateSubRequest → Result (Err Sentinel) SubscriptionRow → Op Subscription
  subscribed org_id req (ok r) = pure (returned org_id req r)
  subscribed org_id req (err e) =
      fail (if code_is (as_pg e) "23505" then sentinel sub_exists else e)

  unfoldable pub create_subscription : String → CreateSubRequest → Op Subscription
  create_subscription org_id req = do
    plan ← get_plan req.plan_id
    r ← attempt (call server.fault (insert_subscription org_id req))
    subscribed org_id req r

  unfoldable pub list_by_org : String → Op (List Subscription)
  list_by_org org_id = do
    rows ← call server.fault λ n t.
        cast (server.parse_uuid org_id)
          λ org. ok (take 200 (sort_by created_later (select (in_org org) t.subscriptions)), t)
    pure (map scan rows)

  -- The result is whether a row was affected.
  abbrev pub set_cancelled : String → String → ℕ → Data → Answer Bool
  set_cancelled org_id id n t = cast (server.parse_uuid id) λ u.
      cast (server.parse_uuid org_id) λ org. ok (
        exists (cancellable u org) t.subscriptions,
        record t {
          subscriptions = update (cancellable u org) (cancelled (server.now n)) t.subscriptions;
        },
      )

  unfoldable pub cancel : String → String → Op (Unit {0})
  cancel org_id id = do
    affected ← call server.fault (set_cancelled org_id id)
    if affected then pure tt else fail (sentinel sub_not_found)
