-- ===== src/Entry.antt =====
-- What the entry points of svc-aerial-iam, svc-aerial-subscriber and svc-aerial-esim share, which
-- have their own cmd/server/main.go and internal/config/config.go in place of lib-aerial-go/runner:
-- the check of the secret, and the middlewares around the service's handlers.
pub mod Iam
pub mod Subscriber
pub mod Esim
pub mod Admission
mod Tests
use Prim.Native.Char.{code}
use Prim.Native.String
use aerial_ran_platform.Base.{ℕ, ◌+◌, String, Option, List, [], ◌∷◌, ltb, str_eq, if◌then◌else◌}
use aerial_ran_platform.Go.Exec.{Result, ok, err}
use aerial_ran_platform.Jwt.{Claims}
use aerial_ran_platform.Runner.Writer.{Action, set_header, Handler}
use aerial_ran_platform.Runner.Middleware.{
  Server, Middleware, inside, is_allowed, preflight, cors_rest, recover, metrics, httplog, auth,
}
use aerial_ran_platform.Runner.Stack.{chain}

-- The bytes of a character in UTF-8, and `len` of a string.
abbrev pub width : ℕ → ℕ
width c = if ltb c 0x80 then 1 else if ltb c 0x800 then 2 else if ltb c 0x10000 then 3 else 4

abbrev pub byte_len : String → ℕ
byte_len String.[] = 0
byte_len (String.◌∷◌ c s) = width (code c) + byte_len s

abbrev pub checked : {A : Type 0} → String → A → Result String A
checked secret cfg =
    if ltb (byte_len secret) 16 then err "JWT_SECRET must be at least 16 chars" else ok cfg

-- `Verify` of an issuer with a secret, the issuer's name and an audience.
abbrev pub Verifier : Type 0
Verifier = String → String → String → String → Option Claims

-- The headers for an allowed origin; the services differ in the methods.
abbrev pub allow : String → String → List Action
allow methods origin =
    set_header "Access-Control-Allow-Origin" origin
    ∷ set_header "Access-Control-Allow-Credentials" "true"
    ∷ set_header "Access-Control-Allow-Methods" methods
    ∷ set_header "Access-Control-Allow-Headers" "Authorization, Content-Type, X-Device-ID"
    ∷ set_header "Access-Control-Max-Age" "600"
    ∷ []

abbrev pub headers_for : String → String → String → List Action
headers_for methods origins_csv origin =
    if is_allowed origins_csv origin then allow methods origin else []

module _ {W : Type 0} where
  unfoldable pub cors_mw : String → String → Middleware W
  cors_mw methods origins_csv next r w =
      let rest = next r w in
      cors_rest (headers_for methods origins_csv r.origin)
        (if str_eq r.method "OPTIONS" then (preflight, w) else rest)

  -- The five middlewares around the handlers, without a limit on the body.
  unfoldable pub handler_stack :
      String
      → Middleware W
      → (String → Option Claims)
      → List String
      → Handler W
      → Handler (Server W)
  handler_stack service cors verify open_paths mux =
      chain (recover ∷ metrics service ∷ cors ∷ httplog ∷ auth verify open_paths ∷ []) (inside mux)
