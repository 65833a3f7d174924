-- ===== src/Go/Postgres/Outcomes.antt =====
-- Where a call leads: to a fault, which leaves the data alone, or to what the request does.
use aerial_ran_platform.Base.{
  Bool, false, ℕ, suc, String, Option, none, some, ◌≡◌, refl, Bool-cases, inl, inr, str_eq,
}
use aerial_ran_platform.Go.Errors.{Err, pg, errors_is}
use aerial_ran_platform.Go.Exec.{Result, ok, err, Outcome, Leads}
use aerial_ran_platform.Go.Postgres.{
  Fault, server, timed_out, withdrawn, connection, World, settle, answer, call, of_fault, Postgres,
  cast, cast_null,
}

-- The world after a call that leaves the data alone.
abbrev pub after : {T : Type 0} → World T → T → World T
after w t = record { tick = suc w.tick; db = t }

-- What a request that meets no fault must do.
abbrev pub Settled :
    {T S A : Type 0}
    → (A → World T → Type 0)
    → (Err S → World T → Type 0)
    → World T
    → Result (Err S) (A × T)
    → Type 0
Settled Good Bad w (ok (a, t)) = Good a (after w t)
Settled Good Bad w (err e) = Bad e (after w w.db)

-- A fault is none of a service's sentinels.
pub fault_is_no_sentinel :
    {S : Type 0} (same : S → S → Bool) (e : Fault) (t : S) → errors_is same (of_fault e) t ≡ false
fault_is_no_sentinel same (server code) t = refl
fault_is_no_sentinel same timed_out t = refl
fault_is_no_sentinel same withdrawn t = refl
fault_is_no_sentinel same (connection text) t = refl

module _ {T S A : Type 0} (Good : A → World T → Type 0) (Bad : Err S → World T → Type 0) where
  settle-Outcome :
      (r : Result (Err S) (A × T)) (w : World T)
      → Settled Good Bad w r
      → Outcome Good Bad (settle r w)
  settle-Outcome (ok (a, t)) w h = h
  settle-Outcome (err e) w h = h

  answer-Outcome :
      (o : Option Fault) (r : Result (Err S) (A × T)) (w : World T)
      → ((f : Fault) → Bad (of_fault f) (after w w.db))
      → Settled Good Bad w r
      → Outcome Good Bad (answer o r w)
  answer-Outcome none r w b h = settle-Outcome r w h
  answer-Outcome (some f) r w b h = b f

module _ {T S A : Type 0} {Good : A → World T → Type 0} {Bad : Err S → World T → Type 0} where
  pub call-Leads :
      (fault : ℕ → Option Fault) (request : ℕ → T → Result (Err S) (A × T)) {w : World T}
      → ((f : Fault) → Bad (of_fault f) (after w w.db))
      → Settled Good Bad w (request w.tick w.db)
      → Leads Good Bad (call fault request) w
  unfolding call
  call-Leads fault request {w} b h = record {
    at = answer-Outcome Good Bad (fault w.tick) (request w.tick w.db) w b h;
  }

module _ {T S A : Type 0} (Good : A → World T → Type 0) (Bad : Err S → World T → Type 0) where
  pub cast-Settled :
      (w : World T) (o : Option ℕ) (k : ℕ → Result (Err S) (A × T))
      → Bad (pg "22P02") (after w w.db)
      → ((u : ℕ) → o ≡ some u → Settled Good Bad w (k u))
      → Settled Good Bad w (cast o k)
  cast-Settled w none k b g = b
  cast-Settled w (some u) k b g = g u refl

  pub cast_null-Settled :
      (w : World T) (p : Postgres) (s : String) (k : Option ℕ → Result (Err S) (A × T))
      → Bad (pg "22P02") (after w w.db)
      → ((o : Option ℕ) → Settled Good Bad w (k o))
      → Settled Good Bad w (cast_null p s k)
  cast_null-Settled w p s k b g = elim (Bool-cases (str_eq s "")) [
    | inl e ↦ rw e (g none)
    | inr e ↦ rw e (cast-Settled w (p.parse_uuid s) (λ u. k (some u)) b (λ u _. g (some u)))
  ]

module _ {T S A : Type 0} {Good : A → World T → Type 0} {Bad : Err S → World T → Type 0} where
  -- A statement with a cast: a fault, a text that is no UUID, or that of `u`.
  pub call-cast-Leads :
      (fault : ℕ → Option Fault) (o : Option ℕ) (k : ℕ → ℕ → T → Result (Err S) (A × T))
      {w : World T}
      → ((f : Fault) → Bad (of_fault f) (after w w.db))
      → Bad (pg "22P02") (after w w.db)
      → ((u : ℕ) → o ≡ some u → Settled Good Bad w (k u w.tick w.db))
      → Leads Good Bad (call fault λ n t. cast o (λ u. k u n t)) w
  call-cast-Leads fault o k {w} f b g =
      call-Leads fault _ f (cast-Settled Good Bad w o (λ u. k u w.tick w.db) b g)

  -- A statement with a cast of one text and of another that may be empty.
  pub call-cast_null-Leads :
      (fault : ℕ → Option Fault) (p : Postgres) (o : Option ℕ) (s : String)
      (k : ℕ → Option ℕ → ℕ → T → Result (Err S) (A × T)) {w : World T}
      → ((f : Fault) → Bad (of_fault f) (after w w.db))
      → Bad (pg "22P02") (after w w.db)
      → ((u : ℕ) (v : Option ℕ) → o ≡ some u → Settled Good Bad w (k u v w.tick w.db))
      → Leads Good Bad (call fault λ n t. cast o (λ u. cast_null p s (λ v. k u v n t))) w
  call-cast_null-Leads fault p o s k {w} f b g = call-Leads fault _ f (
      cast-Settled Good Bad w o _ b
        (λ u e. cast_null-Settled Good Bad w p s (λ v. k u v w.tick w.db) b (λ v. g u v e)))
