-- ===== src/Go/Exec.antt =====
-- Operations that act on a world and may return an error. What was written before an error stays
-- written, so the world comes back beside the error too.
pub mod Keeps
pub mod Outcomes
use aerial_ran_platform.Base.{Bool, if◌then◌else◌}

pub data Result (E A : Type 0) : Type 0 where
  ok : A → Result E A
  err : E → Result E A

abbrev pub Exec : Type 0 → Type 0 → Type 0 → Type 0
Exec W E A = W → Result E A × W

module _ {W E A : Type 0} where
  unfoldable pub pure : A → Exec W E A
  pure a w = (ok a, w)

  -- `return nil, e`
  unfoldable pub fail : E → Exec W E A
  fail e w = (err e, w)

  unfoldable pub gets : (W → A) → Exec W E A
  gets f w = (ok (f w), w)

  -- The call's outcome as a value: `v, err := m`, with the error inspected by what follows.
  unfoldable pub attempt : Exec W E A → Exec W E (Result E A)
  attempt m w = let (r, w') = m w in (ok r, w')

  -- Go on with what a call returned.
  abbrev pub resume_with : {B : Type 0} → Result E A → (A → Exec W E B) → Exec W E B
  resume_with (ok a) f w = f a w
  resume_with (err e) f w = (err e, w)

-- `if c { return nil, e }`
unfoldable pub fail_if : {W E : Type 0} → Bool → E → Exec W E (Unit {0})
fail_if c e w = (if c then err e else ok tt, w)

infixl 5 ◌>>=◌ ◌>>◌
-- `v, err := m; if err != nil { return nil, err }`; to open this is to open the others too.
unfoldable pub ◌>>=◌ : {W E A B : Type 0} → Exec W E A → (A → Exec W E B) → Exec W E B
unfolding pure fail gets attempt fail_if
◌>>=◌ m f w = let (r, w') = m w in resume_with r f w'

abbrev pub ◌>>◌ : {W E A B : Type 0} → Exec W E A → Exec W E B → Exec W E B
m >> k = m >>= λ _. k

-- What holds of an outcome: `Good` of a returned value and its world, `Bad` of an error and its.
abbrev pub Outcome :
    {W E A : Type 0} → (A → W → Type 0) → (E → W → Type 0) → Result E A × W → Type 0
Outcome Good Bad (ok a, w) = Good a w
Outcome Good Bad (err e, w) = Bad e w

-- `m` run at `w` leads to `Good` where it returns a value, and to `Bad` where it returns an error.
pub record Leads {W E A : Type 0} (Good : A → W → Type 0) (Bad : E → W → Type 0) (m : Exec W E A)
    (w : W) : Type 0 where
  pub at : Outcome Good Bad (m w)
