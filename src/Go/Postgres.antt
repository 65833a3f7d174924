-- ===== src/Go/Postgres.antt =====
-- The database as the services see it. PostgreSQL is not part of the repository: what a
-- statement can meet is a parameter, a record of the server's behaviour. The SQL texts are in the
-- repository: each is a function on the tables, run by `exec`.
pub mod Keeps
pub mod Outcomes
pub mod Sample
use aerial_ran_platform.Base.{str_eq, if◌then◌else◌, ℕ, suc, String, Option, none, some, ◌≡◌}
use aerial_ran_platform.Go.Errors.{Err, pg, deadline_exceeded, canceled, other}
use aerial_ran_platform.Go.Exec.{Result, ok, err, Exec}

-- Why a statement was not carried out: an error of the server with its SQLSTATE, the context's
-- end, or an error of the connection.
pub data Fault : Type 0 where
  server : String → Fault
  timed_out : Fault
  withdrawn : Fault
  connection : String → Fault

abbrev pub of_fault : {S : Type 0} → Fault → Err S
of_fault (server code) = pg code
of_fault timed_out = deadline_exceeded
of_fault withdrawn = canceled
of_fault (connection text) = other text

-- Statements are numbered by the world's `tick`. A UUID is its 128-bit number.
pub record Postgres : Type 0 where
  -- `text::uuid`, and `uuid::text`
  pub parse_uuid : String → Option ℕ
  pub show_uuid : ℕ → String
  -- `some f` when the statement of this number fails with no effect
  pub fault : ℕ → Option Fault
  -- `uuid_generate_v4()` and `now()` in the statement of this number
  pub fresh : ℕ → ℕ
  pub now : ℕ → ℕ

-- A UUID that is printed is read back.
abbrev pub ReadsBack : Postgres → Type 0
ReadsBack p = (u : ℕ) → p.parse_uuid (p.show_uuid u) ≡ some u

-- `tick` counts the calls that have left the process; `db` is the data behind them.
pub record World (T : Type 0) : Type 0 where
  pub tick : ℕ
  pub db : T

module _ {T S A : Type 0} where
  abbrev pub settle : Result (Err S) (A × T) → World T → Result (Err S) A × World T
  settle (ok (a, t)) w = (ok a, record { tick = suc w.tick; db = t })
  settle (err e) w = (err e, record { tick = suc w.tick; db = w.db })

  abbrev pub answer : Option Fault → Result (Err S) (A × T) → World T → Result (Err S) A × World T
  answer (some f) r w = (err (of_fault f), record { tick = suc w.tick; db = w.db })
  answer none r w = settle r w

  -- One call outside: the fault of its number, or the effect of the request on the data.
  unfoldable pub call :
      (ℕ → Option Fault) → (ℕ → T → Result (Err S) (A × T)) → Exec (World T) (Err S) A
  call fault request w = answer (fault w.tick) (request w.tick w.db) w

-- `$1::uuid` on a text that is no UUID is the server's error 22P02.
abbrev pub cast : {S A : Type 0} → Option ℕ → (ℕ → Result (Err S) A) → Result (Err S) A
cast none f = err (pg "22P02")
cast (some u) f = f u

-- `NULLIF($1, '')::uuid`
abbrev pub cast_null :
    {S A : Type 0} → Postgres → String → (Option ℕ → Result (Err S) A) → Result (Err S) A
cast_null p s f = if str_eq s "" then f none else cast (p.parse_uuid s) (λ u. f (some u))
