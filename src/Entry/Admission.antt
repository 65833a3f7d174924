-- ===== src/Entry/Admission.antt =====
-- What a service that has loaded its configuration promises of its secret and of its requests.
use aerial_ran_platform.Base.{
  ℕ, ◌≤◌, String, false, Option, none, some, List, ◌++◌, ◌≡◌, ◌⊎◌, inl, inr, refl, arith, exists,
  str_eq, ltb, Bool-cases,
}
use mathlib.Core.Path.{subst}
use aerial_ran_platform.Base.Int.{ℤ}
use aerial_ran_platform.Go.Exec.{Result, ok, err}
use aerial_ran_platform.Jwt.{Claims, cut_prefix}
use aerial_ran_platform.Jwt
use aerial_ran_platform.Runner.Writer.{Action, Trace, Request, Handler, sent_status}
use aerial_ran_platform.Runner.Middleware.{Server, is_allowed, recover, metrics, httplog, auth}
use aerial_ran_platform.Runner.Stack.{chain, env_or}
use aerial_ran_platform.Entry.{byte_len, checked, Verifier, headers_for, cors_mw, handler_stack}
use aerial_ran_platform.Entry.Iam
use aerial_ran_platform.Entry.Subscriber
use aerial_ran_platform.Entry.Esim

-- The services, their configurations and what they do with them.
pub data Name : Type 0 where
  iam : Name
  subscriber : Name
  esim : Name

abbrev pub Config : Name → Type 0
Config iam = Iam.Config
Config subscriber = Subscriber.Config
Config esim = Esim.Config

abbrev pub load :
    (s : Name) → (String → String) → (String → Result String ℤ) → Result String (Config s)
load iam getenv parse_duration = Iam.load getenv parse_duration
load subscriber getenv parse_duration = Subscriber.load getenv
load esim getenv parse_duration = Esim.load getenv

abbrev pub secret : (s : Name) → Config s → String
secret iam cfg = cfg.jwt_secret
secret subscriber cfg = cfg.jwt_secret
secret esim cfg = cfg.jwt_secret

abbrev pub verifier : Verifier → (s : Name) → Config s → String → Option Claims
verifier verify iam cfg = verify cfg.jwt_secret cfg.jwt_issuer cfg.jwt_audience
verifier verify subscriber cfg = verify cfg.jwt_secret cfg.jwt_issuer cfg.jwt_audience
verifier verify esim cfg = verify cfg.jwt_secret cfg.jwt_issuer cfg.jwt_audience

abbrev pub open_paths : Name → List String
open_paths iam = Iam.open_paths
open_paths subscriber = Subscriber.open_paths
open_paths esim = Esim.open_paths

abbrev pub stack : {W : Type 0} → Verifier → (s : Name) → Config s → Handler W → Handler (Server W)
stack verify iam cfg mux = Iam.stack verify cfg mux
stack verify subscriber cfg mux = Subscriber.stack verify cfg mux
stack verify esim cfg mux = Esim.stack verify cfg mux

abbrev AllOk : {A : Type 0} → (A → Type 0) → Result String A → Type 0
AllOk P (ok a) = P a
AllOk P (err e) = Unit

checked-AllOk :
    {A : Type 0} (key : A → String) (cfg : A)
    → AllOk (λ c. 16 ≤ byte_len (key c)) (checked (key cfg) cfg)
checked-AllOk key cfg = elim (Bool-cases (ltb (byte_len (key cfg)) 16)) [
  | inl t ↦ rw t tt
  | inr f ↦ rw f (ground arith)
]

with_ttl-AllOk :
    {A : Type 0} (P : A → Type 0) (name : String) (r : Result String ℤ) (next : ℤ → Result String A)
    → ((d : ℤ) → AllOk P (next d))
    → AllOk P (Iam.with_ttl name r next)
with_ttl-AllOk P name (ok d) next h = h d
with_ttl-AllOk P name (err e) next h = tt

load-AllOk :
    (s : Name) (getenv : String → String) (parse_duration : String → Result String ℤ)
    → AllOk (λ c. 16 ≤ byte_len (secret s c)) (load s getenv parse_duration)
unfolding Iam.load Subscriber.load Esim.load
load-AllOk iam getenv parse_duration =
    with_ttl-AllOk Long "JWT_ACCESS_TTL" (parse_duration (env_or getenv "JWT_ACCESS_TTL" "15m"))
      (Iam.load_refresh getenv parse_duration)
      λ access.
        with_ttl-AllOk Long "JWT_REFRESH_TTL"
          (parse_duration (env_or getenv "JWT_REFRESH_TTL" "720h")) (Iam.finished getenv access)
          λ refresh. checked-AllOk (secret iam) (Iam.config_of getenv access refresh)
  where
    Long : Iam.Config → Type 0
    Long c = 16 ≤ byte_len c.jwt_secret
load-AllOk subscriber getenv parse_duration =
    checked-AllOk (secret subscriber) (Subscriber.config_of getenv)
load-AllOk esim getenv parse_duration = checked-AllOk (secret esim) (Esim.config_of getenv)

sent_status-headers :
    (methods csv origin : String) (xs : List Action)
    → sent_status (headers_for methods csv origin ++ xs) ≡ sent_status xs
sent_status-headers methods csv origin xs = elim (Bool-cases (is_allowed csv origin)) [
  | inl e ↦ rw e refl
  | inr e ↦ rw e refl
]

-- The client gets this status, and the service's handlers were not called.
pub record TurnedAway {W : Type 0} (status : ℕ) (w : Server W) (x : Trace × Server W) : Type 0 where
  pub app : x.1.app ≡ w.app
  pub calm : x.0.panicked ≡ false
  pub status_is : sent_status x.0.actions ≡ status

-- The request has no bearer token, or one that does not verify.
abbrev pub NoClaims : (String → Option Claims) → Request → Type 0
NoClaims verify r =
    (cut_prefix "Bearer " r.authorization ≡ none)
    ⊎ ((token : String) × (cut_prefix "Bearer " r.authorization ≡ some token)
        × (verify token ≡ none))

module _ {W : Type 0} (mux : Handler W) (r : Request) (w : Server W) where
  handler_stack-TurnedAway :
      (service methods csv : String) (verify : String → Option Claims) (paths : List String)
      → str_eq r.method "OPTIONS" ≡ false
      → exists (str_eq r.path) paths ≡ false
      → NoClaims verify r
      → TurnedAway 401 w (handler_stack service (cors_mw methods csv) verify paths mux r w)
  unfolding handler_stack chain recover metrics cors_mw httplog auth Jwt.middleware
  handler_stack-TurnedAway service methods csv verify paths o p (inl e) = record {
    app = rw (o, p, e) refl;
    calm = rw (o, p, e) refl;
    status_is = rw (o, p, e) (sent_status-headers methods csv r.origin _);
  }
  handler_stack-TurnedAway service methods csv verify paths o p (inr (token, e, v)) = record {
    app = rw (o, p, e, v) refl;
    calm = rw (o, p, e, v) refl;
    status_is = rw (o, p, e, v) (sent_status-headers methods csv r.origin _);
  }

  stack-TurnedAway :
      (verify : Verifier) (s : Name) (cfg : Config s)
      → str_eq r.method "OPTIONS" ≡ false
      → exists (str_eq r.path) (open_paths s) ≡ false
      → NoClaims (verifier verify s cfg) r
      → TurnedAway 401 w (stack verify s cfg mux r w)
  unfolding Iam.stack Subscriber.stack Esim.stack Iam.cors Subscriber.cors Esim.cors
  stack-TurnedAway verify iam cfg o p n = handler_stack-TurnedAway _ _ _ _ _ o p n
  stack-TurnedAway verify subscriber cfg o p n = handler_stack-TurnedAway _ _ _ _ _ o p n
  stack-TurnedAway verify esim cfg o p n = handler_stack-TurnedAway _ _ _ _ _ o p n

  -- A service with an entry point of its own (IAM, subscriber, eSIM) that has loaded its
  -- configuration has a secret of at least 16 bytes, and answers 401, without calling its handlers,
  -- a request for a path that is not one of its open paths, which is no preflight and has no token
  -- that verifies under that configuration.
  pub loaded_service_turns_away :
      (verify : Verifier) (s : Name) (getenv : String → String)
      (parse_duration : String → Result String ℤ) (cfg : Config s)
      → load s getenv parse_duration ≡ ok cfg
      → str_eq r.method "OPTIONS" ≡ false
      → exists (str_eq r.path) (open_paths s) ≡ false
      → NoClaims (verifier verify s cfg) r
      → (16 ≤ byte_len (secret s cfg)) × TurnedAway 401 w (stack verify s cfg mux r w)
  loaded_service_turns_away verify s getenv parse_duration cfg loaded o p n = (
    subst (AllOk (λ c. 16 ≤ byte_len (secret s c))) loaded (load-AllOk s getenv parse_duration),
    stack-TurnedAway verify s cfg o p n,
  )
