-- ===== src/Runner/Stack/Counting.antt =====
-- The status that is counted against the one that the client gets.
use aerial_ran_platform.Base.{
  ℕ, suc, String, false, Option, none, some, List, [], ◌∷◌, ◌++◌, ◌≡◌, refl, exists, str_eq,
  Bool-cases, Option-cases, inl, inr, arith,
}
use aerial_ran_platform.Jwt.{Claims, cut_prefix}
use aerial_ran_platform.Jwt
use aerial_ran_platform.Runner.Writer.{Trace, Request, Handler, sent_status, http_error}
use aerial_ran_platform.Runner.Writer.Status.{IsAnswer, recorded_is_sent}
use aerial_ran_platform.Runner.Middleware.{
  Server, Counted, inside, headers_for, is_allowed, recover, metrics, tallied, rescued, cors,
  httplog, auth, body_limit,
}
use aerial_ran_platform.Runner.Stack.{Opts, chain, stack, open_paths, default_max_body_bytes}

-- An answer that was given without a panic.
pub record Answered (t : Trace) : Type 0 where
  pub calm : t.panicked ≡ false
  pub one : IsAnswer t.actions

-- A handler that gives one answer to every request, and does not panic.
pub record Answers {W : Type 0} (h : Handler W) : Type 0 where
  pub answered : (r : Request) (w : W) → Answered (h r w).0

abbrev pub latest : List Counted → Option Counted
latest [] = none
latest (c ∷ cs) = some c

refused-IsAnswer : (n : ℕ) → IsAnswer (http_error 401 n)
refused-IsAnswer n = (refl, (λ e. ground arith), tt)

headers-Answer :
    (csv origin : String) (t : Trace)
    → Answered t
    → Answered (record t { actions = headers_for csv origin ++ t.actions })
headers-Answer csv origin t a = elim (Bool-cases (is_allowed csv origin)) [
  | inl e ↦ rw e (record { calm = a.calm; one = a.one })
  | inr e ↦ rw e (record { calm = a.calm; one = a.one })
]

module _ {W : Type 0} where
  body_limit-Answers : (n : ℕ) {h : Handler (Server W)} → Answers h → Answers (body_limit n h)
  unfolding body_limit
  body_limit-Answers n a = record { answered = λ r w. a.answered _ w }

  inside-Answers : {h : Handler W} → Answers h → Answers (inside h)
  inside-Answers a = record { answered = λ r w. a.answered r w.app }

  auth-Answers :
      (verify : String → Option Claims) (skip : List String) {h : Handler (Server W)}
      → Answers h
      → Answers (auth verify skip h)
  unfolding auth Jwt.middleware
  auth-Answers verify skip a = record {
    answered = λ r w. elim (Bool-cases (exists (str_eq r.path) skip)) [
      | inl e ↦ rw e (a.answered _ w)
      | inr e ↦ elim (Option-cases (cut_prefix "Bearer " r.authorization)) [
        | inl n ↦ rw (e, n) (record { calm = refl; one = refused-IsAnswer 56 })
        | inr (token, s) ↦ elim (Option-cases (verify token)) [
          | inl n ↦ rw (e, s, n) (record { calm = refl; one = refused-IsAnswer 49 })
          | inr (claims, v) ↦ rw (e, s, v) (a.answered _ w)
        ]
      ]
    ];
  }

  httplog-Answers : {h : Handler (Server W)} → Answers h → Answers (httplog h)
  unfolding httplog
  httplog-Answers a = record { answered = a.answered }

  cors-Answers : (csv : String) {h : Handler (Server W)} → Answers h → Answers (cors csv h)
  unfolding cors
  cors-Answers csv {h} a = record {
    answered = λ r w. elim (Bool-cases (str_eq r.method "OPTIONS")) [
      | inl e ↦ rw e (
          headers-Answer csv r.origin _
            (record { calm = refl; one = (refl, (λ z. ground arith), tt) }))
      | inr e ↦ rw e (headers-Answer csv r.origin _ (a.answered r w))
    ];
  }

  -- The counter and the client, for a request that is answered.
  counted :
      (service : String) (r : Request) (x : Trace × Server W)
      → Answered x.0
      → latest (rescued (tallied service r x)).1.counted
        ≡ some (record {
          service = service;
          method = r.method;
          path = r.path;
          status = sent_status (rescued (tallied service r x)).0.actions;
        })
  counted service r (t, w) a = rw (a.calm, recorded_is_sent t.actions a.one) refl

  -- When the service's handlers give one answer to every request and do not panic, the counter of
  -- requests counts each request, whatever the middlewares make of it, under the status that the
  -- client gets.
  pub counted_as_sent :
      (opts : Opts) (mux : Handler W) (r : Request) (w : Server W)
      → Answers mux
      → latest (stack opts mux r w).1.counted
        ≡ some (record {
          service = opts.service_name;
          method = r.method;
          path = r.path;
          status = sent_status (stack opts mux r w).0.actions;
        })
  unfolding stack chain recover metrics
  counted_as_sent opts mux r w a = counted opts.service_name r _ (
      (cors-Answers opts.cors_origins (
          httplog-Answers (
            auth-Answers opts.verify open_paths
              (body_limit-Answers default_max_body_bytes (inside-Answers a))))).answered
        r (record w { in_flight = suc w.in_flight }))
