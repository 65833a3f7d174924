-- ===== src/Billing/Service/Ingestion.antt =====
-- Ingesting keeps the rollups the sums of the events, whatever fails on the way.
use aerial_ran_platform.Base.{ℕ, String, Option, none, some, List, [], ◌∷◌, ◌≡◌, All}
use aerial_ran_platform.Go.Exec.{ok, ◌>>=◌}
use aerial_ran_platform.Go.Exec.Keeps.{pure-Keeps, gets-Keeps, bind-Keeps}
use aerial_ran_platform.Go.Postgres.{World, call}
use aerial_ran_platform.Go.Postgres.Keeps.{KeepsData, call-Keeps, cast-Stays}
use aerial_ran_platform.Billing.Model.{Moment, UsageEvent, Data}
use aerial_ran_platform.Billing.Service.{
  Service, zero_uuid, or_now, in_transaction, statements, ingest, my_month, org_month,
}
use aerial_ran_platform.Billing.Service.Ledger.{IsLedger}
use aerial_ran_platform.Billing.Service.Statements.{in_transaction-Keeps, statements-Leads}

-- What a client may ask for.
pub data Request : Type 0 where
  ingesting : UsageEvent → Request
  asking_mine : String → String → Request
  asking_all : String → Request

module _ (svc : Service) where
  unfoldable pub serve : Request → World Data → World Data
  serve (ingesting e) w = (ingest svc e w).1
  serve (asking_mine org_id user_id) w = (my_month svc org_id user_id w).1
  serve (asking_all org_id) w = (org_month svc org_id w).1

  unfoldable pub serve_all : List Request → World Data → World Data
  serve_all [] w = w
  serve_all (r ∷ rs) w = serve_all rs (serve r w)

  module _ (P : Moment → Type 0) where
    -- The time of an event that is sent with one.
    abbrev pub TimeIs : Option Moment → Type 0
    TimeIs none = Unit
    TimeIs (some at) = P at

    abbrev pub IsTimed : Request → Type 0
    IsTimed (ingesting e) = TimeIs e.occurred_at
    IsTimed _ = Unit

    abbrev Sound : Data → Type 0
    Sound t = IsLedger P svc.month_of t

    or_now-P : (o : Option Moment) (now : Moment) → TimeIs o → P now → P (or_now svc o now)
    or_now-P none now h k = k
    or_now-P (some at) now h k = h

  module _ (zero_reads : svc.repo.parse_uuid zero_uuid ≡ some 0) (P : Moment → Type 0)
      (ticks : (n : ℕ) → P (svc.clock n)) where
    ingest-Keeps : (e : UsageEvent) → TimeIs P e.occurred_at → KeepsData (Sound P) (ingest svc e)
    unfolding ingest ◌>>=◌
    ingest-Keeps e timed = record { at = λ w s. (begun (svc.clock w.tick) (ticks w.tick)).at w s }
      where
        begun :
            (now : Moment)
            → P now
            → KeepsData (Sound P) (
                call svc.repo.fault (λ n t. ok (tt {0}, t)) >>= λ _.
                in_transaction svc (statements svc e (or_now svc e.occurred_at now)))
        begun now p = bind-Keeps _ _ (call-Keeps (Sound P) svc.repo.fault _ λ n t s. s) λ _.
            in_transaction-Keeps svc P _ (
              statements-Leads svc P zero_reads e (or_now svc e.occurred_at now)
                (or_now-P P e.occurred_at now timed p))

    my_month-Keeps : (org_id user_id : String) → KeepsData (Sound P) (my_month svc org_id user_id)
    unfolding my_month
    my_month-Keeps org_id user_id = bind-Keeps _ _ (gets-Keeps _) λ start.
        bind-Keeps _ _
          (call-Keeps (Sound P) svc.repo.fault _ λ n t s.
            cast-Stays (Sound P) (svc.repo.parse_uuid org_id) _
              λ org. cast-Stays (Sound P) (svc.repo.parse_uuid user_id) _ λ user. s)
          λ row. bind-Keeps _ _ (gets-Keeps _) λ now. pure-Keeps _

    org_month-Keeps : (org_id : String) → KeepsData (Sound P) (org_month svc org_id)
    unfolding org_month
    org_month-Keeps org_id = bind-Keeps _ _ (gets-Keeps _) λ start.
        bind-Keeps _ _
          (call-Keeps (Sound P) svc.repo.fault _
            λ n t s. cast-Stays (Sound P) (svc.repo.parse_uuid org_id) _ λ org. s)
          λ rows. pure-Keeps _

    serve-IsLedger :
        (r : Request) (w : World Data) → IsTimed P r → Sound P w.db → Sound P (serve r w).db
    unfolding serve
    serve-IsLedger (ingesting e) w timed s = (ingest-Keeps e timed).at w s
    serve-IsLedger (asking_mine org_id user_id) w timed s = (my_month-Keeps org_id user_id).at w s
    serve-IsLedger (asking_all org_id) w timed s = (org_month-Keeps org_id).at w s

    -- When the zero UUID reads as zero, and `P` is a set of times (an instant with an offset from
    -- UTC) that has the clock's and those that the events are sent with, then from data of which
    -- this holds, through any requests, whatever statement, commit or range check fails: the events
    -- on record, whose rows do not keep the offset, are of times of `P`, such that the rollup of
    -- every organisation, user and month is the sum of the events whose time is in the month in its
    -- own offset, in all four columns, and where there is no rollup that sum is zero.
    pub serve_all-IsLedger :
        (rs : List Request) (w : World Data)
        → All (IsTimed P) rs
        → IsLedger P svc.month_of w.db
        → IsLedger P svc.month_of (serve_all rs w).db
    unfolding serve_all
    serve_all-IsLedger [] w timed s = s
    serve_all-IsLedger (r ∷ rs) w (timed, rest) s =
        serve_all-IsLedger rs (serve r w) rest (serve-IsLedger r w timed s)
