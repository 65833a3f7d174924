-- ===== src/Go/Errors.antt =====
-- Go's error values as the services build and inspect them: sentinels declared by
-- `errors.New`, `errors.Join` and the wrapping of `fmt.Errorf`, the driver's `*pgconn.PgError`,
-- and the errors of a context.
use aerial_ran_platform.Base.{String, Bool, true, false, ◌||◌, Option, none, some, str_eq}

-- `S` is the type of a service's sentinels.
pub data Err (S : Type 0) : Type 0 where
  sentinel : S → Err S
  join : Err S → Err S → Err S
  pg : String → Err S
  deadline_exceeded : Err S
  canceled : Err S
  other : String → Err S

-- `errors.Is` against a sentinel; `same` compares sentinels.
abbrev pub errors_is : {S : Type 0} → (S → S → Bool) → Err S → S → Bool
errors_is same (sentinel s) t = same s t
errors_is same (join a b) t = errors_is same a t || errors_is same b t
errors_is same _ t = false

abbrev pub is_deadline : {S : Type 0} → Err S → Bool
is_deadline deadline_exceeded = true
is_deadline (join a b) = is_deadline a || is_deadline b
is_deadline _ = false

abbrev pub is_canceled : {S : Type 0} → Err S → Bool
is_canceled canceled = true
is_canceled (join a b) = is_canceled a || is_canceled b
is_canceled _ = false

abbrev pub or_else : {A : Type 0} → Option A → Option A → Option A
or_else none o = o
or_else (some a) o = some a

-- `errors.As(err, &pgErr)`: the SQLSTATE of the first `*pgconn.PgError` in the tree.
abbrev pub as_pg : {S : Type 0} → Err S → Option String
as_pg (pg code) = some code
as_pg (join a b) = or_else (as_pg a) (as_pg b)
as_pg _ = none

abbrev pub code_is : Option String → String → Bool
code_is none code = false
code_is (some c) code = str_eq c code
