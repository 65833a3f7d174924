-- ===== src/Jwt/Tests.antt =====
-- The middleware at a request with a good token.
use Prim.Native.String
use aerial_ran_platform.Base.{
  ℕ, suc, String, Option, none, some, [], ◌∷◌, ◌≡◌, refl, if◌then◌else◌, str_eq,
}
use aerial_ran_platform.Respond.{Response, json}
use aerial_ran_platform.Jwt.{Claims, judged, middleware}
use aerial_ran_platform.Jwt.Admission.{IsGuarded, middleware_lem}

abbrev user : Claims
user = record {
  user_id = "1";
  org_id = "11";
  email = "a@b";
  role = "user";
  device_id = "";
  scopes = [];
}

abbrev verify : String → Option Claims
verify token = if str_eq token "t" then some user else none

-- The handler counts the requests that reach it.
abbrev next : Option Claims → ℕ → Response Unit ℕ × ℕ
next none n = (json 200 0, suc n)
next (some claims) n = (json 200 1, suc n)

middleware_example :
    IsGuarded verify "Bearer t" next 0
      (middleware verify ("/v1/health" ∷ []) "/v1/me" "Bearer t" next 0)
    × (middleware verify ("/v1/health" ∷ []) "/v1/me" (String.◌++◌ "Bearer " "t") next 0
        ≡ judged (verify "t") next 0)
middleware_example = middleware_lem verify ("/v1/health" ∷ []) "/v1/me" "Bearer t" "t" next 0 refl
