-- ===== src/Go/Exec/Outcomes.antt =====
-- Rules for where an operation leads, one for each way to build it.
use aerial_ran_platform.Base.{Bool, true, false, if◌then◌else◌, ◌≡◌, refl}
use aerial_ran_platform.Go.Exec.{
  Result, ok, err, Exec, pure, fail, gets, fail_if, resume_with, attempt, ◌>>=◌, Outcome, Leads,
}

weaken-Outcome :
    {W E A : Type 0} {Good Good' : A → W → Type 0} {Bad Bad' : E → W → Type 0} (x : Result E A × W)
    → ((a : A) (w : W) → Good a w → Good' a w)
    → ((e : E) (w : W) → Bad e w → Bad' e w)
    → Outcome Good Bad x
    → Outcome Good' Bad' x
weaken-Outcome (ok a, w) g b h = g a w h
weaken-Outcome (err e, w) g b h = b e w h

module _ {W E A : Type 0} {Good Good' : A → W → Type 0} {Bad Bad' : E → W → Type 0} where
  pub weaken :
      {m : Exec W E A} {w : W}
      → Leads Good Bad m w
      → ((a : A) (w : W) → Good a w → Good' a w)
      → ((e : E) (w : W) → Bad e w → Bad' e w)
      → Leads Good' Bad' m w
  weaken {m} {w} h g b = record { at = weaken-Outcome (m w) g b h.at }

module _ {W E A : Type 0} {Good : A → W → Type 0} {Bad : E → W → Type 0} where
  pub pure-Leads : (a : A) {w : W} → Good a w → Leads Good Bad (pure a) w
  unfolding pure
  pure-Leads a h = record { at = h }

  pub fail-Leads : (e : E) {w : W} → Bad e w → Leads Good Bad (fail e) w
  unfolding fail
  fail-Leads e h = record { at = h }

  pub gets-Leads : (f : W → A) {w : W} → Good (f w) w → Leads Good Bad (gets f) w
  unfolding gets
  gets-Leads f h = record { at = h }

  pub if-Leads :
      (b : Bool) {m n : Exec W E A} {w : W}
      → (b ≡ true → Leads Good Bad m w)
      → (b ≡ false → Leads Good Bad n w)
      → Leads Good Bad (if b then m else n) w
  if-Leads true km kn = km refl
  if-Leads false km kn = kn refl

pub fail_if-Leads :
    {W E : Type 0} {Bad : E → W → Type 0} (c : Bool) (e : E) {w : W}
    → (c ≡ true → Bad e w)
    → Leads (λ _ w'. (c ≡ false) × (w' ≡ w)) Bad (fail_if c e) w
unfolding fail_if
fail_if-Leads true e k = record { at = k refl }
fail_if-Leads false e k = record { at = (refl, refl) }

module _ {W E A B : Type 0} {Good : B → W → Type 0} {Bad Bad' : E → W → Type 0}
    {Good' : A → W → Type 0} where
  resume_with-Outcome :
      (x : Result E A × W) (f : A → Exec W E B)
      → Outcome Good' Bad' x
      → ((a : A) (w' : W) → Good' a w' → Leads Good Bad (f a) w')
      → ((e : E) (w' : W) → Bad' e w' → Bad e w')
      → Outcome Good Bad (resume_with x.0 f x.1)
  resume_with-Outcome (ok a, w) f h g b = (g a w h).at
  resume_with-Outcome (err e, w) f h g b = b e w h

  -- A sequence, from what is known of its first part.
  pub bind-Leads :
      {m : Exec W E A} {f : A → Exec W E B} {w : W}
      → Leads Good' Bad' m w
      → ((a : A) (w' : W) → Good' a w' → Leads Good Bad (f a) w')
      → ((e : E) (w' : W) → Bad' e w' → Bad e w')
      → Leads Good Bad (m >>= f) w
  unfolding ◌>>=◌
  bind-Leads {m} {f} {w} h g b = record { at = resume_with-Outcome (m w) f h.at g b }

  attempt-Outcome :
      (x : Result E A × W) (f : Result E A → Exec W E B)
      → Outcome Good' Bad' x
      → ((a : A) (w' : W) → Good' a w' → Leads Good Bad (f (ok a)) w')
      → ((e : E) (w' : W) → Bad' e w' → Leads Good Bad (f (err e)) w')
      → Outcome Good Bad (f x.0 x.1)
  attempt-Outcome (ok a, w) f h g b = (g a w h).at
  attempt-Outcome (err e, w) f h g b = (b e w h).at

  -- An outcome taken as a value: both ways go on.
  pub attempt-Leads :
      {m : Exec W E A} (f : Result E A → Exec W E B) {w : W}
      → Leads Good' Bad' m w
      → ((a : A) (w' : W) → Good' a w' → Leads Good Bad (f (ok a)) w')
      → ((e : E) (w' : W) → Bad' e w' → Leads Good Bad (f (err e)) w')
      → Leads Good Bad (attempt m >>= f) w
  unfolding ◌>>=◌
  attempt-Leads {m} f {w} h g b = record { at = attempt-Outcome (m w) f h.at g b }
