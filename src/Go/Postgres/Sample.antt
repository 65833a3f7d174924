-- ===== src/Go/Postgres/Sample.antt =====
-- A server for the tests: UUIDs printed in unary, identifiers and times from the statement's
-- number, and the faults that a test chooses.
use Prim.Native.String.{char_at}
use aerial_ran_platform.Base.{ℕ, zero, suc, String, Option, none, some, ◌≡◌, refl, ap, ◌+◌}
use aerial_ran_platform.Go.Postgres.{Postgres, Fault, ReadsBack}

abbrev marks : String → ℕ
marks String.[] = 0
marks (String.◌∷◌ c s) = suc (marks s)

abbrev pub parse_unary : String → Option ℕ
parse_unary String.[] = none
parse_unary (String.◌∷◌ c s) = some (marks s)

abbrev strokes : ℕ → String
strokes zero = ""
strokes (suc n) = String.◌∷◌ (char_at "1" 0) (strokes n)

abbrev pub show_unary : ℕ → String
show_unary n = String.◌∷◌ (char_at "1" 0) (strokes n)

marks-strokes : (n : ℕ) → marks (strokes n) ≡ n
marks-strokes zero = refl
marks-strokes (suc n) = ap suc (marks-strokes n)

abbrev pub sample : (ℕ → Option Fault) → Postgres
sample faults = record {
  parse_uuid = parse_unary;
  show_uuid = show_unary;
  fault = faults;
  fresh = λ n. 100 + n;
  now = λ n. 5000 + n;
}

pub sample-ReadsBack : (faults : ℕ → Option Fault) → ReadsBack (sample faults)
sample-ReadsBack faults u = ap some (marks-strokes u)
