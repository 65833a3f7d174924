-- ===== src/Go/Postgres/Keeps.antt =====
-- Invariants of the data behind the calls: a call keeps what its request keeps.
use aerial_ran_platform.Base.{ℕ, String, Option, none, some, inl, inr, Bool-cases, str_eq}
use aerial_ran_platform.Go.Errors.{Err}
use aerial_ran_platform.Go.Exec.{Result, ok, err, Exec}
use aerial_ran_platform.Go.Exec.Keeps.{Keeps}
use aerial_ran_platform.Go.Postgres.{Postgres, Fault, World, settle, answer, call, cast, cast_null}

-- A request that is carried out leaves `P` true of the data.
abbrev pub Stays : {T S A : Type 0} → (T → Type 0) → Result (Err S) (A × T) → Type 0
Stays P (ok (a, t)) = P t
Stays P (err e) = Unit

-- The operation keeps `P` true of the data.
abbrev pub KeepsData : {T S A : Type 0} → (T → Type 0) → Exec (World T) (Err S) A → Type 0
KeepsData P m = Keeps (λ w. P w.db) m

module _ {T S A : Type 0} (P : T → Type 0) where
  settle-keeps :
      (r : Result (Err S) (A × T)) (w : World T) → Stays P r → P w.db → P (settle r w).1.db
  settle-keeps (ok (a, t)) w s h = s
  settle-keeps (err e) w s h = h

  answer-keeps :
      (o : Option Fault) (r : Result (Err S) (A × T)) (w : World T)
      → Stays P r
      → P w.db
      → P (answer o r w).1.db
  answer-keeps none r w s h = settle-keeps r w s h
  answer-keeps (some f) r w s h = h

  pub call-Keeps :
      (fault : ℕ → Option Fault) (request : ℕ → T → Result (Err S) (A × T))
      → ((n : ℕ) (t : T) → P t → Stays P (request n t))
      → KeepsData P (call fault request)
  unfolding call
  call-Keeps fault request k = record {
    at = λ w h. answer-keeps (fault w.tick) (request w.tick w.db) w (k w.tick w.db h) h;
  }

  -- A cast that fails changes nothing.
  pub cast-Stays :
      (o : Option ℕ) (k : ℕ → Result (Err S) (A × T))
      → ((u : ℕ) → Stays P (k u))
      → Stays P (cast o k)
  cast-Stays none k s = tt
  cast-Stays (some u) k s = s u

  pub cast_null-Stays :
      (p : Postgres) (x : String) (k : Option ℕ → Result (Err S) (A × T))
      → ((o : Option ℕ) → Stays P (k o))
      → Stays P (cast_null p x k)
  cast_null-Stays p x k s = elim (Bool-cases (str_eq x "")) [
    | inl e ↦ rw e (s none)
    | inr e ↦ rw e (cast-Stays (p.parse_uuid x) (λ u. k (some u)) (λ u. s (some u)))
  ]
