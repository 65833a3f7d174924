-- ===== src/Go/Exec/Keeps.antt =====
-- Invariants of operations: one rule for each way to build an operation.
use aerial_ran_platform.Base.{Bool, true, false, if◌then◌else◌}
use aerial_ran_platform.Go.Exec.{
  Result, ok, err, Exec, pure, fail, resume_with, attempt, ◌>>=◌, fail_if, gets,
}

-- `m` leaves `P` true, whether it returns a value or an error.
pub record Keeps {W E A : Type 0} (P : W → Type 0) (m : Exec W E A) : Type 0 where
  pub at : (w : W) → P w → P (m w).1

module _ {W E A : Type 0} {P : W → Type 0} where
  pub pure-Keeps : (a : A) → Keeps P (pure {E = E} a)
  unfolding pure
  pure-Keeps a = record { at = λ w h. h }

  pub fail-Keeps : (e : E) → Keeps P (fail {A = A} e)
  unfolding fail
  fail-Keeps e = record { at = λ w h. h }

  pub gets-Keeps : (f : W → A) → Keeps P (gets {E = E} f)
  unfolding gets
  gets-Keeps f = record { at = λ w h. h }

  pub attempt-Keeps : (m : Exec W E A) → Keeps P m → Keeps P (attempt m)
  unfolding attempt
  attempt-Keeps m k = record { at = k.at }

  pub if-Keeps :
      (b : Bool) (m n : Exec W E A) → Keeps P m → Keeps P n → Keeps P (if b then m else n)
  if-Keeps true m n km kn = km
  if-Keeps false m n km kn = kn

module _ {W E : Type 0} {P : W → Type 0} where
  pub fail_if-Keeps : (c : Bool) (e : E) → Keeps P (fail_if c e)
  unfolding fail_if
  fail_if-Keeps c e = record { at = λ w h. h }

module _ {W E A B : Type 0} {P : W → Type 0} where
  resume_with-keeps :
      (r : Result E A) (f : A → Exec W E B) (w : W)
      → ((a : A) → Keeps P (f a))
      → P w
      → P (resume_with r f w).1
  resume_with-keeps (ok a) f w kf h = (kf a).at w h
  resume_with-keeps (err e) f w kf h = h

  pub bind-Keeps :
      (m : Exec W E A) (f : A → Exec W E B)
      → Keeps P m
      → ((a : A) → Keeps P (f a))
      → Keeps P (m >>= f)
  unfolding ◌>>=◌
  bind-Keeps m f km kf = record {
    at = λ w h. let (r, w') = m w in resume_with-keeps r f w' kf (km.at w h);
  }

pub ruleset keeps_rules =
    (pure-Keeps, fail-Keeps, gets-Keeps, attempt-Keeps, if-Keeps, fail_if-Keeps, bind-Keeps)
