-- ===== src/Runner/Middleware.antt =====
-- lib-aerial-go: the middlewares of recover, metrics, runner, httplog and jwt.
use aerial_ran_platform.Base.{
  ℕ, suc, ◌+◌, ◌-◌, String, Bool, false, Option, some, List, [], ◌∷◌, ◌++◌, str_eq, exists,
  trim_space, split_commas, if◌then◌else◌,
}
use Prim.Native.String.{len}
use aerial_ran_platform.Respond.{
  Response, Body, Message, text, error_text, payload, problem, no_content,
}
use aerial_ran_platform.Jwt.{Claims}
use aerial_ran_platform.Jwt
use aerial_ran_platform.Runner.Writer.{
  Action, set_header, write_header, Trace, Request, Handler, recorded_status, recorded_bytes,
  http_error, behind,
}

-- A value of the counter `http_requests_total`, and a line of the log.
pub record Counted : Type 0 where
  pub service : String
  pub method : String
  pub path : String
  pub status : ℕ

pub record Logged : Type 0 where
  pub method : String
  pub path : String
  pub status : ℕ
  pub bytes : ℕ

-- What the middlewares keep, newest first, beside what the handlers behind them change.
pub record Server (W : Type 0) : Type 0 where
  pub in_flight : ℕ
  pub counted : List Counted
  pub logged : List Logged
  pub panics : ℕ
  pub app : W

abbrev pub Middleware : Type 0 → Type 0
Middleware W = Handler (Server W) → Handler (Server W)

module _ {W : Type 0} where
  -- A handler that knows of nothing but the application.
  abbrev pub inside : Handler W → Handler (Server W)
  inside h r w = let (t, a) = h r w.app in (t, record w { app = a })

  abbrev pub rescued : Trace × Server W → Trace × Server W
  rescued (t, w) =
      if t.panicked
      then (
        record { actions = t.actions ++ http_error 500 20; panicked = false },
        record w { panics = suc w.panics },
      )
      else (t, w)

  -- recover: a panic is logged and answered.
  unfoldable pub recover : Middleware W
  recover next r w = rescued (next r w)

  -- The gauge goes down in any case; the counter counts unless there is a panic.
  abbrev pub tallied : String → Request → Trace × Server W → Trace × Server W
  tallied service r (t, w) = (
    t,
    record w {
      in_flight = w.in_flight - 1;
      counted =
          if t.panicked
          then w.counted
          else (record {
            service = service;
            method = r.method;
            path = r.path;
            status = recorded_status 0 t.actions;
          })
            ∷ w.counted;
    },
  )

  unfoldable pub metrics : String → Middleware W
  metrics service next r w = tallied service r (next r (record w { in_flight = suc w.in_flight }))

  abbrev pub noted : Request → Trace × Server W → Trace × Server W
  noted r (t, w) = (
    t,
    record w {
      logged =
          if t.panicked
          then w.logged
          else (record {
            method = r.method;
            path = r.path;
            status = recorded_status 0 t.actions;
            bytes = recorded_bytes t.actions;
          })
            ∷ w.logged;
    },
  )

  unfoldable pub httplog : Middleware W
  httplog next r w = noted r (next r w)

-- The origins of the comma-separated list.
abbrev pub listed : List String → List String
listed [] = []
listed (o ∷ os) =
    let rest = listed os in if str_eq (trim_space o) "" then rest else trim_space o ∷ rest

unfoldable pub is_allowed : String → String → Bool
is_allowed origins_csv origin = exists (str_eq origin) (listed (split_commas origins_csv))

abbrev pub cors_headers : String → List Action
cors_headers origin =
    set_header "Access-Control-Allow-Origin" origin
    ∷ set_header "Access-Control-Allow-Credentials" "true"
    ∷ set_header "Access-Control-Allow-Methods" "GET, POST, PUT, DELETE, OPTIONS"
    ∷ set_header "Access-Control-Allow-Headers" "Authorization, Content-Type, X-Device-ID"
    ∷ set_header "Access-Control-Max-Age" "600"
    ∷ []

abbrev pub headers_for : String → String → List Action
headers_for origins_csv origin = if is_allowed origins_csv origin then cors_headers origin else []

abbrev pub preflight : Trace
preflight = record { actions = write_header 204 ∷ []; panicked = false }

-- What the JWT middleware hands to the next handler comes back as a trace.
abbrev pub passed : {S : Type 0} → Trace → Response S Trace
passed t = record { status = 200; body = payload t }

-- The bytes of a message of the middleware, which is ASCII.
abbrev pub message_len : {S : Type 0} → Message S → ℕ
message_len (text m) = len m
message_len (error_text e) = 0

-- `http.Error` with `{"code":"unauthorized","message":"…"}`, 36 bytes and the message.
abbrev pub traced_body : {S : Type 0} → ℕ → Body S Trace → Trace
traced_body status (payload t) = t
traced_body status (problem code msg) = record {
  actions = http_error status (36 + message_len msg);
  panicked = false;
}
traced_body status no_content = record { actions = write_header status ∷ []; panicked = false }

abbrev pub traced : {S : Type 0} → Response S Trace → Trace
traced r = traced_body r.status r.body

module _ {W : Type 0} where
  abbrev pub cors_rest : List Action → Trace × Server W → Trace × Server W
  cors_rest headers (t, w) = (behind headers t, w)

  unfoldable pub cors : String → Middleware W
  cors origins_csv next r w =
      let rest = next r w in
      cors_rest (headers_for origins_csv r.origin)
        (if str_eq r.method "OPTIONS" then (preflight, w) else rest)

  abbrev pub handed :
      Handler (Server W) → Request → Option Claims → Server W → Response (Unit {0}) Trace × Server W
  handed next r claims w = let (t, w') = next (record r { claims = claims }) w in (passed t, w')

  abbrev pub auth_answer : Response (Unit {0}) Trace × Server W → Trace × Server W
  auth_answer (a, w) = (traced a, w)

  unfoldable pub auth : (String → Option Claims) → List String → Middleware W
  auth verify skip next r w =
      auth_answer (Jwt.middleware verify skip r.path r.authorization (handed next r) w)

  unfoldable pub body_limit : ℕ → Middleware W
  body_limit max next r w = next (if r.has_body then record r { body_limit = some max } else r) w
