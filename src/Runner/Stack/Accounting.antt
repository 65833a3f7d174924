-- ===== src/Runner/Stack/Accounting.antt =====
-- What the stack counts, whatever the service's handlers do.
use aerial_ran_platform.Base.{
  ℕ, suc, ◌-◌, String, false, Option, List, ◌≡◌, refl, ap, ◌∙◌, exists, str_eq, Bool-cases,
  Option-cases, inl, inr, arith,
}
use aerial_ran_platform.Jwt.{Claims, cut_prefix}
use aerial_ran_platform.Jwt
use aerial_ran_platform.Runner.Writer.{Trace, Request, Handler}
use aerial_ran_platform.Runner.Middleware.{
  Server, inside, recover, rescued, metrics, cors, httplog, auth, body_limit,
}
use aerial_ran_platform.Runner.Stack.{Opts, chain, stack, open_paths, default_max_body_bytes}

module _ {W : Type 0} where
  -- A handler leaves the gauge as it found it.
  pub record Balanced (h : Handler (Server W)) : Type 0 where
    pub level : (r : Request) (w : Server W) → (h r w).1.in_flight ≡ w.in_flight

  inside-Balanced : (h : Handler W) → Balanced (inside h)
  inside-Balanced h = record { level = λ r w. refl }

  body_limit-Balanced : (n : ℕ) {h : Handler (Server W)} → Balanced h → Balanced (body_limit n h)
  unfolding body_limit
  body_limit-Balanced n b = record { level = λ r w. b.level _ w }

  auth-Balanced :
      (verify : String → Option Claims) (skip : List String) {h : Handler (Server W)}
      → Balanced h
      → Balanced (auth verify skip h)
  unfolding auth Jwt.middleware
  auth-Balanced verify skip b = record {
    level = λ r w. elim (Bool-cases (exists (str_eq r.path) skip)) [
      | inl e ↦ rw e (b.level _ w)
      | inr e ↦ elim (Option-cases (cut_prefix "Bearer " r.authorization)) [
        | inl n ↦ rw (e, n) refl
        | inr (token, s) ↦ elim (Option-cases (verify token)) [
          | inl n ↦ rw (e, s, n) refl
          | inr (claims, v) ↦ rw (e, s, v) (b.level _ w)
        ]
      ]
    ];
  }

  httplog-Balanced : {h : Handler (Server W)} → Balanced h → Balanced (httplog h)
  unfolding httplog
  httplog-Balanced b = record { level = b.level }

  cors-Balanced : (csv : String) {h : Handler (Server W)} → Balanced h → Balanced (cors csv h)
  unfolding cors
  cors-Balanced csv b = record {
    level = λ r w. elim (Bool-cases (str_eq r.method "OPTIONS")) [
      | inl e ↦ rw e refl
      | inr e ↦ rw e (b.level r w)
    ];
  }

  metrics-Balanced :
      (name : String) {h : Handler (Server W)} → Balanced h → Balanced (metrics name h)
  unfolding metrics
  metrics-Balanced name b = record {
    level = λ r w. ap (λ (n : ℕ). n - 1) (b.level r _) ∙ back w.in_flight;
  }
    where
      back : (n : ℕ) → suc n - 1 ≡ n
      back n = omega arith

  recover-Balanced : {h : Handler (Server W)} → Balanced h → Balanced (recover h)
  unfolding recover
  recover-Balanced {h} b = record { level = λ r w. rescued-level (h r w) ∙ b.level r w }
    where
      rescued-level : (x : Trace × Server W) → (rescued x).1.in_flight ≡ x.1.in_flight
      rescued-level (t, w) = elim (Bool-cases t.panicked) [ inl e ↦ rw e refl | inr e ↦ rw e refl ]

  -- Whatever a request is and however its handler ends, by an answer or a panic, the gauge of the
  -- requests in flight goes back to where it was.
  pub stack-Balanced : (opts : Opts) (mux : Handler W) → Balanced (stack opts mux)
  unfolding stack chain
  stack-Balanced opts mux = recover-Balanced (
      metrics-Balanced opts.service_name (
        cors-Balanced opts.cors_origins (
          httplog-Balanced (
            auth-Balanced opts.verify open_paths
              (body_limit-Balanced default_max_body_bytes (inside-Balanced mux))))))

rescued-calm : {W : Type 0} (x : Trace × Server W) → (rescued x).0.panicked ≡ false
rescued-calm (t, w) = elim (Bool-cases t.panicked) [ inl e ↦ rw e refl | inr e ↦ rw e refl ]

-- However the service's handlers end, no panic leaves the stack.
pub no_panic_escapes :
    {W : Type 0} (opts : Opts) (mux : Handler W) (r : Request) (w : Server W)
    → (stack opts mux r w).0.panicked ≡ false
unfolding stack chain recover
no_panic_escapes opts mux r w = rescued-calm (
    metrics opts.service_name
      (cors opts.cors_origins
        (httplog (auth opts.verify open_paths (body_limit default_max_body_bytes (inside mux)))))
      r w)
