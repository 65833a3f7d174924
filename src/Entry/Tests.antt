-- ===== src/Entry/Tests.antt =====
-- Entry points at concrete environments.
use aerial_ran_platform.Base.{
  ℕ, suc, ◌≤◌, String, false, none, [], ◌∷◌, ◌≡◌, refl, inr, str_eq, if◌then◌else◌,
}
use aerial_ran_platform.Base.Int.{ℤ, pos}
use aerial_ran_platform.Go.Exec.{Result, ok, err}
use aerial_ran_platform.Runner.Writer.{write_header, Request, Handler}
use aerial_ran_platform.Runner.Middleware.{Server}
use aerial_ran_platform.Runner.Stack.{env_or}
use aerial_ran_platform.Entry.{byte_len, Verifier}
use aerial_ran_platform.Entry.Iam
use aerial_ran_platform.Entry.Admission.{
  iam, load, secret, stack, TurnedAway, loaded_service_turns_away,
}

-- An environment with one variable.
abbrev only : String → String → String → String
only name value k = if str_eq k name then value else ""

abbrev seconds : String → Result String ℤ
seconds s = if str_eq s "soon" then err "invalid duration" else ok (pos 900)

short_secret_refused :
    Iam.load (only "JWT_SECRET" "123456789012345") seconds
    ≡ err "JWT_SECRET must be at least 16 chars"
unfolding Iam.load env_or
short_secret_refused = refl

bad_duration_refused :
    Iam.load (only "JWT_REFRESH_TTL" "soon") seconds ≡ err "JWT_REFRESH_TTL: invalid duration"
unfolding Iam.load env_or
bad_duration_refused = refl

abbrev cfg : Iam.Config
cfg = Iam.config_of (λ k. "") (pos 900) (pos 900)

loaded : load iam (λ k. "") seconds ≡ ok cfg
unfolding Iam.load env_or
loaded = refl

-- No token verifies.
abbrev closed : Verifier
closed key issuer audience token = none

abbrev handler : Handler ℕ
handler r n = (record { actions = write_header 200 ∷ []; panicked = false }, suc n)

abbrev request : Request
request = record {
  method = "GET";
  path = "/v1/auth/me";
  origin = "http://localhost:3000";
  authorization = "Bearer x";
  has_body = false;
  body_limit = none;
  claims = none;
}

abbrev idle : Server ℕ
idle = record { in_flight = 0; counted = []; logged = []; panics = 0; app = 0 }

loaded_service_turns_away_example :
    (16 ≤ byte_len (secret iam cfg))
    × TurnedAway 401 idle (stack closed iam cfg handler request idle)
loaded_service_turns_away_example =
    loaded_service_turns_away handler request idle closed iam (λ k. "") seconds cfg loaded refl refl
      (inr ("x", refl, refl))
