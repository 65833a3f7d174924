-- ===== src/Billing/Service.antt =====
-- svc-aerial-billing/internal/billing/billing.go: the transaction that ingests an event, and the
-- rollups of the current month.
pub mod Ledger
pub mod Statements
pub mod Ingestion
use aerial_ran_platform.Base.{
  ℕ, suc, String, Bool, true, false, not, ◌&&◌, Option, none, some, List, [], ◌∷◌, map, str_eq,
  ◌==◌, find, exists, select, update, sort_by, if◌then◌else◌,
}
use aerial_ran_platform.Base.Int.{less}
use aerial_ran_platform.Go.Errors.{Err, pg, other}
use aerial_ran_platform.Go.Exec.{Result, ok, err, Exec, pure, gets, ◌>>=◌, ◌>>◌}
use aerial_ran_platform.Go.Postgres.{Postgres, Fault, of_fault, World, call, cast, cast_null}
use aerial_ran_platform.Billing.Model.{
  Sentinel, Amounts, nothing, plus, fit, Moment, UsageEvent, Rollup, EventRow, RollupRow, Data,
}

abbrev pub Op : Type 0 → Type 0
Op A = Exec (World Data) (Err Sentinel) A

abbrev pub Answer : Type 0 → Type 0
Answer A = Result (Err Sentinel) (A × Data)

abbrev pub ptr : Option String → String
ptr none = ""
ptr (some s) = s

abbrev pub zero_uuid : String
zero_uuid = "00000000-0000-0000-0000-000000000000"

-- The user of the rollup: events of no user are counted under the zero UUID.
abbrev pub rollup_user : String → String
rollup_user s = if str_eq s "" then zero_uuid else s

-- `PRIMARY KEY (org_id, user_id, month)`
abbrev pub has_key : ℕ → ℕ → ℕ → RollupRow → Bool
has_key org user month r = r.org_id == org && r.user_id == user && r.month == month

abbrev pub in_month : ℕ → ℕ → RollupRow → Bool
in_month org month r = r.org_id == org && r.month == month

abbrev pub dearer : RollupRow → RollupRow → Bool
dearer a b = less b.amounts.cents a.amounts.cents

abbrev pub raised : Amounts → ℕ → RollupRow → RollupRow
raised a now r = record r { amounts = plus r.amounts a; updated_at = now }

-- A value that its column cannot hold is refused by the driver when it is sent, and by the server
-- when it is computed.
abbrev pub when_fit :
    {A : Type 0} → Amounts → Err Sentinel → Result (Err Sentinel) A → Result (Err Sentinel) A
when_fit a e r = if fit a then r else err e

abbrev pub too_large : Err Sentinel
too_large = other "value out of range for int4"

-- `time.Date(t.Year(), t.Month(), 1, …)` of a time is a parameter, and so is `time.Now()`.
pub record Service : Type 0 where
  pub repo : Postgres
  pub month_of : Moment → ℕ
  pub clock : ℕ → Moment

module _ (svc : Service) where
  abbrev pub event_row : UsageEvent → ℕ → Option ℕ → Moment → ℕ → EventRow
  event_row e org user at n = record {
    org_id = org;
    user_id = user;
    source = e.source;
    resource_id = ptr e.resource_id;
    amounts = e.amounts;
    occurred_at = at.instant;
    created_at = svc.repo.now n;
  }

  abbrev pub insert_event : UsageEvent → Moment → ℕ → Data → Answer (Unit {0})
  insert_event e at n t = when_fit e.amounts too_large (
      cast (svc.repo.parse_uuid e.org_id) λ org.
        cast_null svc.repo (ptr e.user_id)
          λ user. ok (tt, record t { events = event_row e org user at n ∷ t.events }))

  -- `INSERT … ON CONFLICT (org_id, user_id, month) DO UPDATE`
  abbrev pub put_rollup : ℕ → ℕ → ℕ → Amounts → ℕ → Data → Option RollupRow → Answer (Unit {0})
  put_rollup org user month a n t none =
      let row : RollupRow = record {
        org_id = org;
        user_id = user;
        month = month;
        amounts = a;
        updated_at = svc.repo.now n;
      } in
      ok (tt, record t { rollups = row ∷ t.rollups })
  put_rollup org user month a n t (some r) = when_fit (plus r.amounts a) (pg "22003") (
      ok (
        tt,
        record t {
          rollups = update (has_key org user month) (raised a (svc.repo.now n)) t.rollups;
        },
      ))

  abbrev pub add_rollup : UsageEvent → ℕ → ℕ → Data → Answer (Unit {0})
  add_rollup e month n t = when_fit e.amounts too_large (
      cast (svc.repo.parse_uuid e.org_id) λ org.
        cast (svc.repo.parse_uuid (rollup_user (ptr e.user_id)))
          λ user. put_rollup org user month e.amounts n t (find (has_key org user month) t.rollups))

  abbrev pub committed :
      {A : Type 0} → Data → Option Fault → A → World Data → Result (Err Sentinel) A × World Data
  committed t none a w = (ok a, record { tick = suc w.tick; db = w.db })
  committed t (some f) a w = (err (of_fault f), record { tick = suc w.tick; db = t })

  -- `Commit` when the statements succeeded, `Rollback` to `t` when one failed.
  abbrev pub finish :
      {A : Type 0}
      → Data
      → Result (Err Sentinel) A × World Data
      → Result (Err Sentinel) A × World Data
  finish t (ok a, w) = committed t (svc.repo.fault w.tick) a w
  finish t (err e, w) = (err e, record { tick = suc w.tick; db = t })

  abbrev pub in_transaction : {A : Type 0} → Op A → Op A
  in_transaction m w = finish w.db (m w)

  abbrev pub or_now : Option Moment → Moment → Moment
  or_now none now = now
  or_now (some at) now = at

  abbrev pub statements : UsageEvent → Moment → Op (Unit {0})
  statements e at = do
    call svc.repo.fault (insert_event e at)
    call svc.repo.fault (add_rollup e (svc.month_of at))

  -- `Begin`, then the two statements.
  unfoldable pub ingest : UsageEvent → Op (Unit {0})
  ingest e = do
    now ← gets λ (w : World Data). svc.clock w.tick
    call svc.repo.fault λ n t. ok (tt {0}, t)
    in_transaction (statements e (or_now e.occurred_at now))

  abbrev pub my_rollup : String → String → ℕ → ℕ → Option RollupRow → Rollup
  my_rollup org_id user_id month now none = record {
    org_id = org_id;
    user_id = some user_id;
    month = month;
    amounts = nothing;
    updated_at = now;
  }
  my_rollup org_id user_id month now (some r) = record {
    org_id = org_id;
    user_id = some user_id;
    month = month;
    amounts = r.amounts;
    updated_at = r.updated_at;
  }

  unfoldable pub my_month : String → String → Op Rollup
  my_month org_id user_id = do
    start ← gets λ (w : World Data). svc.clock w.tick
    row ← call svc.repo.fault λ n t. cast (svc.repo.parse_uuid org_id) λ org.
        cast (svc.repo.parse_uuid user_id)
          λ user. ok (find (has_key org user (svc.month_of start)) t.rollups, t)
    now ← gets λ (w : World Data). svc.clock w.tick
    pure (my_rollup org_id user_id (svc.month_of start) now.instant row)

  abbrev pub scan : RollupRow → Rollup
  scan r = record {
    org_id = svc.repo.show_uuid r.org_id;
    user_id = some (svc.repo.show_uuid r.user_id);
    month = r.month;
    amounts = r.amounts;
    updated_at = r.updated_at;
  }

  unfoldable pub org_month : String → Op (List Rollup)
  org_month org_id = do
    start ← gets λ (w : World Data). svc.clock w.tick
    rows ← call svc.repo.fault λ n t.
        cast (svc.repo.parse_uuid org_id)
          λ org. ok (sort_by dearer (select (in_month org (svc.month_of start)) t.rollups), t)
    pure (map scan rows)
