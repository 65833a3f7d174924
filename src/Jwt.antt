-- ===== src/Jwt.antt =====
-- lib-aerial-go/jwt: the claims of an access token and the middleware that admits requests. The
-- signature check is the JWT package's: `Verify` is a parameter from the token to its claims.
pub mod Admission
mod Tests
use Prim.Native.Char.{code}
use Prim.Native.String
use aerial_ran_platform.Base.{
  ℕ, String, Bool, List, Option, none, some, exists, str_eq, if◌then◌else◌, ◌==◌,
}
use aerial_ran_platform.Respond.{Response, error, text}

pub record Claims : Type 0 where
  pub user_id : String
  pub org_id : String
  pub email : String
  pub role : String
  pub device_id : String
  pub scopes : List String

-- What is left behind the prefix: `strings.HasPrefix` and `strings.TrimPrefix`.
abbrev pub cut_prefix : String → String → Option String
cut_prefix String.[] s = some s
cut_prefix (String.◌∷◌ c p) String.[] = none
cut_prefix (String.◌∷◌ c p) (String.◌∷◌ d s) =
    let rest = cut_prefix p s in if code c == code d then rest else none

abbrev pub refused : {S A : Type 0} → String → Response S A
refused msg = error 401 "unauthorized" (text msg)

-- What `Verify` says of a bearer token: its claims are put into the context, or it is refused.
abbrev pub judged :
    {W S A : Type 0} → Option Claims → (Option Claims → W → Response S A × W) → W → Response S A × W
judged none next w = (refused "invalid token", w)
judged (some claims) next w = next (some claims) w

module _ {W S A : Type 0} (verify : String → Option Claims) where
  abbrev pub admit : Option String → (Option Claims → W → Response S A × W) → W → Response S A × W
  admit none next w = (refused "missing bearer token", w)
  admit (some token) next w = judged (verify token) next w

  -- `Middleware(skip...)` at a request for `path` with the header `Authorization`; `next` finds
  -- the claims in its context, or none.
  unfoldable pub middleware :
      List String → String → String → (Option Claims → W → Response S A × W) → W → Response S A × W
  middleware skip path header next w =
      if exists (str_eq path) skip then next none w else admit (cut_prefix "Bearer " header) next w
