-- ===== src/Runner/Tests.antt =====
-- The middlewares of lib-aerial-go at concrete inputs.
use aerial_ran_platform.Base.{
  ℕ, suc, ◌+◌, String, true, false, none, some, [], ◌∷◌, ◌≡◌, refl, inr, arith, str_eq,
  if◌then◌else◌,
}
use aerial_ran_platform.Jwt.{Claims}
use aerial_ran_platform.Runner.Writer.{write_header, write, Request, Handler, sent_status}
use aerial_ran_platform.Runner.Middleware.{Server}
use aerial_ran_platform.Runner.Stack.{Opts, chain, stack, env_or}
use aerial_ran_platform.Runner.Stack.Order.{nested, chain-nested}
use aerial_ran_platform.Runner.Stack.Admission.{
  TurnedAway, unauthorized-TurnedAway, by_token, panic_is_not_counted,
}
use aerial_ran_platform.Runner.Stack.Counting.{Answers, latest, counted_as_sent}

abbrev user : Claims
user = record {
  user_id = "1";
  org_id = "11";
  email = "a@b";
  role = "user";
  device_id = "";
  scopes = [];
}

abbrev opts : Opts
opts = record {
  service_name = "svc";
  cors_origins = "http://a, http://b";
  verify = λ token. if str_eq token "t" then some user else none;
}

-- A handler that counts its calls and answers 201.
abbrev creating : Handler ℕ
creating r n = (record { actions = write_header 201 ∷ write 10 ∷ []; panicked = false }, suc n)

creating-Answers : Answers creating
creating-Answers = record {
  answered = λ r n. record { calm = refl; one = (refl, (λ e. ground arith), tt) };
}

abbrev broken : Handler ℕ
broken r n = (record { actions = write_header 201 ∷ []; panicked = true }, suc n)

abbrev request : String → Request
request authorization = record {
  method = "POST";
  path = "/v1/sims";
  origin = "http://b";
  authorization = authorization;
  has_body = true;
  body_limit = none;
  claims = none;
}

abbrev idle : Server ℕ
idle = record { in_flight = 0; counted = []; logged = []; panics = 0; app = 0 }

chain-nested_example :
    chain ((λ n. n + 1) ∷ (λ n. n + n) ∷ []) 3 ≡ nested ((λ n. n + 1) ∷ (λ n. n + n) ∷ []) 3
chain-nested_example = chain-nested ((λ n. n + 1) ∷ (λ n. n + n) ∷ []) 3

unauthorized-TurnedAway_example : TurnedAway opts creating (request "Bearer x") idle 401
unauthorized-TurnedAway_example =
    unauthorized-TurnedAway opts creating (request "Bearer x") idle refl refl
      (inr ("x", refl, refl))

panic_is_not_counted_example :
    (sent_status (stack opts broken (request "Bearer t") idle).0.actions ≡ 201)
    × ((stack opts broken (request "Bearer t") idle).1.panics ≡ 1)
    × ((stack opts broken (request "Bearer t") idle).1.counted ≡ [])
    × ((stack opts broken (request "Bearer t") idle).1.logged ≡ [])
panic_is_not_counted_example =
    panic_is_not_counted opts broken (request "Bearer t") idle (some user) (write_header 201 ∷ [])
      refl (by_token "t" user refl refl refl) refl

counted_as_sent_example :
    latest (stack opts creating (request "Bearer t") idle).1.counted
    ≡ some (record {
      service = "svc";
      method = "POST";
      path = "/v1/sims";
      status = sent_status (stack opts creating (request "Bearer t") idle).0.actions;
    })
counted_as_sent_example = counted_as_sent opts creating (request "Bearer t") idle creating-Answers

env_or_default : env_or (λ k. "") "PORT" "8087" ≡ "8087"
unfolding env_or
env_or_default = refl
