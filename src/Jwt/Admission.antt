-- ===== src/Jwt/Admission.antt =====
-- Whom the middleware of lib-aerial-go/jwt lets through.
use Prim.Native.String
use Prim.Native.String.append
use aerial_ran_platform.Base.{
  String, false, List, Option, some, exists, str_eq, ◌≡◌, ◌⊎◌, inl, inr, Option-cases, arith,
}
use aerial_ran_platform.Respond.{Response}
use aerial_ran_platform.Jwt.{Claims, cut_prefix, refused, judged, middleware}

-- Only what stands behind the prefix is cut off.
cut_prefix-append : (p t : String) → cut_prefix p (String.◌++◌ p t) ≡ some t
cut_prefix-append String.[] t = rw (append.nil t)
cut_prefix-append (String.◌∷◌ c p) t =
    rw (append.cons c p t) (ground (arith, cut_prefix-append p t))

abbrev pub Handler : Type 0 → Type 0 → Type 0 → Type 0
Handler W S A = Option Claims → W → Response S A × W

module _ {W S A : Type 0} (verify : String → Option Claims) where
  -- The request was passed on with the claims of a token that `Verify` accepts, or it was answered
  -- 401 and changed nothing.
  abbrev pub IsGuarded : String → Handler W S A → W → Response S A × W → Type 0
  IsGuarded header next w x =
      ((token : String) × (claims : Claims) × (cut_prefix "Bearer " header ≡ some token)
        × (verify token ≡ some claims)
        × (x ≡ next (some claims) w))
      ⊎ ((msg : String) × (x ≡ (refused msg, w)))

  -- Outside the skipped paths the handler behind the middleware runs only with the claims of a
  -- bearer token that `Verify` accepts, and else the answer is 401 and nothing is changed; a
  -- request with a bearer token is judged by `Verify` alone.
  pub middleware_lem :
      (skip : List String) (path header token : String) (next : Handler W S A) (w : W)
      → exists (str_eq path) skip ≡ false
      → IsGuarded header next w (middleware verify skip path header next w)
        × (middleware verify skip path (String.◌++◌ "Bearer " token) next w
            ≡ judged (verify token) next w)
  unfolding middleware
  middleware_lem skip path header token next w guarded = (guard, bearer)
    where
      guard : IsGuarded header next w (middleware verify skip path header next w)
      guard = elim (Option-cases (cut_prefix "Bearer " header)) [
        | inl e ↦ inr ("missing bearer token", rw (guarded, e))
        | inr (t, e) ↦ elim (Option-cases (verify t)) [
          | inl v ↦ inr ("invalid token", rw (guarded, e, v))
          | inr (claims, v) ↦ inl (t, claims, e, v, rw (guarded, e, v))
        ]
      ]

      bearer :
          middleware verify skip path (String.◌++◌ "Bearer " token) next w
          ≡ judged (verify token) next w
      bearer = elim (Option-cases (verify token)) [
        | inl v ↦ rw (guarded, cut_prefix-append "Bearer " token, v)
        | inr (claims, v) ↦ rw (guarded, cut_prefix-append "Bearer " token, v)
      ]
