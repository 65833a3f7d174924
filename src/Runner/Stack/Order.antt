-- ===== src/Runner/Stack/Order.antt =====
-- The loop of `chain` against nested application.
use aerial_ran_platform.Base.{ℕ, zero, suc, List, [], ◌∷◌, ◌≡◌, refl, ap, ◌∙◌, length}
use aerial_ran_platform.Runner.Stack.{wrap, apply, get_elem?, chain}

module _ {H : Type 0} where
  -- The first middleware outermost.
  abbrev pub nested : List (H → H) → H → H
  nested [] h = h
  nested (m ∷ ms) h = m (nested ms h)

  wrap-cons :
      (m : H → H) (ms : List (H → H)) (k : ℕ) (h : H) → wrap (m ∷ ms) (suc k) h ≡ m (wrap ms k h)
  wrap-cons m ms zero h = refl
  wrap-cons m ms (suc k) h = wrap-cons m ms k (apply (get_elem? ms k) h)

  -- The loop, which goes from the last middleware to the first, wraps the handler in all of them,
  -- the first one outermost.
  pub chain-nested : (ms : List (H → H)) (h : H) → chain ms h ≡ nested ms h
  unfolding chain
  chain-nested [] h = refl
  chain-nested (m ∷ ms) h = wrap-cons m ms (length ms) h ∙ ap m (chain-nested ms h)
