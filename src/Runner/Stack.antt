-- ===== src/Runner/Stack.antt =====
-- lib-aerial-go/runner: the order of the middlewares, and the default of an environment variable.
pub mod Order
pub mod Admission
pub mod Accounting
pub mod Counting
use aerial_ran_platform.Base.{
  ℕ, zero, suc, ◌*◌, String, Bool, Option, none, some, List, [], ◌∷◌, str_eq, length, if◌then◌else◌,
}
use aerial_ran_platform.Jwt.{Claims}
use aerial_ran_platform.Runner.Writer.{Handler}
use aerial_ran_platform.Runner.Middleware.{
  Server, Middleware, inside, recover, metrics, cors, httplog, auth, body_limit,
}

module _ {H : Type 0} where
  -- `mws[i]`
  abbrev pub get_elem? : List (H → H) → ℕ → Option (H → H)
  get_elem? [] i = none
  get_elem? (m ∷ ms) zero = some m
  get_elem? (m ∷ ms) (suc i) = get_elem? ms i

  abbrev pub apply : Option (H → H) → H → H
  apply none h = h
  apply (some m) h = m h

  -- `for i := len(mws) - 1; i >= 0; i--`, with `i` turns left.
  abbrev pub wrap : List (H → H) → ℕ → H → H
  wrap mws zero h = h
  wrap mws (suc i) h = wrap mws i (apply (get_elem? mws i) h)

  unfoldable pub chain : List (H → H) → H → H
  chain mws h = wrap mws (length mws) h

-- The fields of `Opts` that the stack uses, and `Verify` of its issuer.
pub record Opts : Type 0 where
  pub service_name : String
  pub cors_origins : String
  pub verify : String → Option Claims

-- `DefaultMaxBodyBytes`
abbrev pub default_max_body_bytes : ℕ
default_max_body_bytes = 4 * 1048576

abbrev pub open_paths : List String
open_paths = "/metrics" ∷ "/v1/health" ∷ "/v1/ready" ∷ []

module _ {W : Type 0} where
  abbrev pub middlewares : Opts → List (Middleware W)
  middlewares opts =
      recover
      ∷ metrics opts.service_name
      ∷ cors opts.cors_origins
      ∷ httplog
      ∷ auth opts.verify open_paths
      ∷ body_limit default_max_body_bytes
      ∷ []

  unfoldable pub stack : Opts → Handler W → Handler (Server W)
  stack opts mux = chain (middlewares opts) (inside mux)

-- `EnvOr`
unfoldable pub env_or : (String → String) → String → String → String
env_or getenv k def = if str_eq (getenv k) "" then def else getenv k
