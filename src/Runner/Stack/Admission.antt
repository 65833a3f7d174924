-- ===== src/Runner/Stack/Admission.antt =====
-- Which requests the stack lets through to the service's own handlers, and with what.
use aerial_ran_platform.Base.{
  ℕ, suc, String, true, false, Option, none, some, List, [], ◌∷◌, ◌++◌, ◌≡◌, ◌∙◌, ◌⊎◌, inl, inr,
  refl, exists, str_eq, Bool-cases, if◌then◌else◌,
}
use aerial_ran_platform.Jwt.{Claims, cut_prefix}
use aerial_ran_platform.Jwt
use aerial_ran_platform.Runner.Writer.{
  Action, set_header, write_header, write, Trace, Request, Handler, sent_status, http_error,
  is_informational,
}
use aerial_ran_platform.Runner.Middleware.{
  Server, headers_for, is_allowed, inside, recover, rescued, metrics, cors, httplog, auth,
  body_limit,
}
use aerial_ran_platform.Runner.Stack.{Opts, chain, stack, open_paths, default_max_body_bytes}

sent_status-headers :
    (csv origin : String) (xs : List Action)
    → sent_status (headers_for csv origin ++ xs) ≡ sent_status xs
sent_status-headers csv origin xs = elim (Bool-cases (is_allowed csv origin)) [
  | inl e ↦ rw e refl
  | inr e ↦ rw e refl
]

-- The status of an answer that ends in a panic: the one that was sent before, and else 500.
abbrev pub after_panic : List Action → ℕ
after_panic [] = 500
after_panic (set_header k v ∷ xs) = after_panic xs
after_panic (write_header c ∷ xs) =
    let rest = after_panic xs in if is_informational c then rest else c
after_panic (write n ∷ xs) = 200

sent_status-panic : (xs : List Action) → sent_status (xs ++ http_error 500 20) ≡ after_panic xs
sent_status-panic [] = refl
sent_status-panic (set_header k v ∷ xs) = sent_status-panic xs
sent_status-panic (write_header c ∷ xs) = rw (sent_status-panic xs) refl
sent_status-panic (write n ∷ xs) = refl

sent_status-rescue :
    (csv origin : String) (xs : List Action)
    → sent_status ((headers_for csv origin ++ xs) ++ http_error 500 20) ≡ after_panic xs
sent_status-rescue csv origin xs = elim (Bool-cases (is_allowed csv origin)) [
  | inl e ↦ rw e (sent_status-panic xs)
  | inr e ↦ rw e (sent_status-panic xs)
]

rescued-app : {W : Type 0} (x : Trace × Server W) → (rescued x).1.app ≡ x.1.app
rescued-app (t, w) = elim (Bool-cases t.panicked) [ inl e ↦ rw e refl | inr e ↦ rw e refl ]

module _ {W : Type 0} (opts : Opts) (mux : Handler W) (r : Request) (w : Server W) where
  -- The client gets this status, and the service's handlers were not called.
  pub record TurnedAway (status : ℕ) : Type 0 where
    pub app : (stack opts mux r w).1.app ≡ w.app
    pub calm : (stack opts mux r w).0.panicked ≡ false
    pub status_is : sent_status (stack opts mux r w).0.actions ≡ status

  -- A preflight request is answered 204 before anyone asks for a token or writes a line of log.
  pub preflight_is_answered :
      str_eq r.method "OPTIONS" ≡ true → TurnedAway 204 × ((stack opts mux r w).1.logged ≡ w.logged)
  unfolding stack chain recover metrics cors httplog auth body_limit
  preflight_is_answered o = (
    record {
      app = rw o refl;
      calm = rw o refl;
      status_is = rw o (sent_status-headers opts.cors_origins r.origin _);
    },
    rw o refl,
  )

  -- The request has no bearer token, or one that does not verify.
  abbrev pub NoClaims : Type 0
  NoClaims =
      (cut_prefix "Bearer " r.authorization ≡ none)
      ⊎ ((token : String) × (cut_prefix "Bearer " r.authorization ≡ some token)
          × (opts.verify token ≡ none))

  -- A request for a path that is not open, which is no preflight and has no token that verifies,
  -- is answered 401, and the service's handlers are not called.
  pub unauthorized-TurnedAway :
      str_eq r.method "OPTIONS" ≡ false
      → exists (str_eq r.path) open_paths ≡ false
      → NoClaims
      → TurnedAway 401
  unfolding stack chain recover metrics cors httplog auth body_limit Jwt.middleware
  unauthorized-TurnedAway o p (inl e) = record {
    app = rw (o, p, e) refl;
    calm = rw (o, p, e) refl;
    status_is = rw (o, p, e) (sent_status-headers opts.cors_origins r.origin _);
  }
  unauthorized-TurnedAway o p (inr (token, e, v)) = record {
    app = rw (o, p, e, v) refl;
    calm = rw (o, p, e, v) refl;
    status_is = rw (o, p, e, v) (sent_status-headers opts.cors_origins r.origin _);
  }

  -- The request as the service's handlers see it.
  abbrev pub seen : Option Claims → Request
  seen claims =
      if r.has_body
      then record r { claims = claims; body_limit = some default_max_body_bytes }
      else record r { claims = claims }

  -- All of the stack but the outermost middleware.
  abbrev protected : Trace × Server W
  protected =
      metrics opts.service_name
        (cors opts.cors_origins
          (httplog (auth opts.verify open_paths (body_limit default_max_body_bytes (inside mux)))))
        r w

  -- A request that is no preflight and has a token that verifies reaches the service's handlers
  -- with the claims of its token and with its body limited to 4 MiB, and what they change is what
  -- the request changes.
  pub admitted_reaches_handlers :
      (token : String) (claims : Claims)
      → str_eq r.method "OPTIONS" ≡ false
      → exists (str_eq r.path) open_paths ≡ false
      → cut_prefix "Bearer " r.authorization ≡ some token
      → opts.verify token ≡ some claims
      → (stack opts mux r w).1.app ≡ (mux (seen (some claims)) w.app).1
  unfolding stack chain recover metrics cors httplog auth body_limit Jwt.middleware
  admitted_reaches_handlers token claims o p e v =
      ◌∙◌ {b = protected.1.app} (rescued-app protected) (rw (o, p, e, v) refl)

  -- The request comes to the service's handlers, with these claims: its path is open, or it has a
  -- token that verifies.
  pub data Reaches : Option Claims → Type 0 where
    by_path : exists (str_eq r.path) open_paths ≡ true → Reaches none
    by_token :
        (token : String) (claims : Claims)
        → exists (str_eq r.path) open_paths ≡ false
        → cut_prefix "Bearer " r.authorization ≡ some token
        → opts.verify token ≡ some claims
        → Reaches (some claims)

  -- Whatever the service's handlers have done before they panic, on any request that comes to them
  -- and is no preflight: the client gets the status that they had sent, or 500 when they had sent
  -- none, the panic is logged, and neither the counter of requests nor the log of requests has
  -- anything of the request.
  pub panic_is_not_counted :
      (claims : Option Claims) (xs : List Action)
      → str_eq r.method "OPTIONS" ≡ false
      → Reaches claims
      → (mux (seen claims) w.app).0 ≡ record { actions = xs; panicked = true }
      → (sent_status (stack opts mux r w).0.actions ≡ after_panic xs)
        × ((stack opts mux r w).1.panics ≡ suc w.panics)
        × ((stack opts mux r w).1.counted ≡ w.counted)
        × ((stack opts mux r w).1.logged ≡ w.logged)
  unfolding stack chain recover metrics cors httplog auth body_limit Jwt.middleware
  panic_is_not_counted claims xs o (by_path p) broken = (
    rw (o, p, broken) (sent_status-rescue opts.cors_origins r.origin xs),
    rw (o, p, broken) refl,
    rw (o, p, broken) refl,
    rw (o, p, broken) refl,
  )
  panic_is_not_counted claims xs o (by_token token user p e v) broken = (
    rw (o, p, e, v, broken) (sent_status-rescue opts.cors_origins r.origin xs),
    rw (o, p, e, v, broken) refl,
    rw (o, p, e, v, broken) refl,
    rw (o, p, e, v, broken) refl,
  )
