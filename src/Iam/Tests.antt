-- ===== src/Iam/Tests.antt =====
-- The theorems on svc-aerial-iam at concrete inputs: one user with a live and a revoked token.
use aerial_ran_platform.Base.{
  ℕ, String, true, Option, none, some, List, [], ◌∷◌, ◌≡◌, refl, inr, str_eq, trim_space, ◌+◌,
}
use aerial_ran_platform.Go.Errors.{sentinel}
use aerial_ran_platform.Go.Exec.{Leads, ok, err}
use aerial_ran_platform.Go.Postgres.{World, Fault}
use aerial_ran_platform.Go.Postgres.Outcomes.{after}
use aerial_ran_platform.Go.Postgres.Sample.{sample, sample-ReadsBack}
use aerial_ran_platform.Iam.Model.{
  bad_credentials, UserRow, TokenRow, Data, LoginRequest, SignupRequest,
}
use aerial_ran_platform.Iam.Service.{Service, login, refresh, signup}
use aerial_ran_platform.Iam.Service.Signup.{IsSignedUp, SameUsers, signup_lem}
use aerial_ran_platform.Iam.Service.Login.{refused_alike}
use aerial_ran_platform.Iam.Service.Spent.{
  Request, logging_in, refreshing, logging_out, asking_me, serve_all,
}
use aerial_ran_platform.Iam.Service.Rotation.{refresh_lem, replay_lem, used_once}
use aerial_ran_platform.Iam.Service.Tokens.{IsRotated, OnlyRevokes, IsDenied}

abbrev no_faults : ℕ → Option Fault
no_faults n = none

abbrev service : Service
service = record {
  repo = sample no_faults;
  clock = λ n. 50 + n;
  refresh_ttl = 100;
  sign = λ n c. ok ("access", 60);
  is_address = λ s. true;
  to_lower = λ s. s;
  hash_password = λ n s. ok s;
  check_password = str_eq;
  new_uuid = λ n. "111";
  random_token = λ n. "fresh";
  hash_token = λ s. s;
}

abbrev user_row : UserRow
user_row = record {
  id = 4;
  org_id = 1;
  email = "a@b.c";
  display_name = "a";
  password_hash = "secret-a";
  role = "user";
  is_active = true;
  created_at = 1;
  updated_at = 1;
}

abbrev token_row : ℕ → String → Option ℕ → TokenRow
token_row id h revoked_at = record {
  id = id;
  user_id = 4;
  device_id = none;
  family_id = 6;
  token_hash = h;
  expires_at = 90;
  revoked_at = revoked_at;
  created_at = 1;
}

abbrev start : World Data
start = record {
  tick = 0;
  db = record {
    organizations = record { id = 1; name = "o"; slug = "o"; created_at = 1 } ∷ [];
    users = user_row ∷ [];
    devices = [];
    refresh_tokens = token_row 7 "live" none ∷ token_row 8 "old" (some 3) ∷ [];
  };
}

abbrev wrong : LoginRequest
wrong = record { email = "a@b.c"; password = "guess"; device_fingerprint = ""; device_name = "" }

abbrev requests : List Request
requests = refreshing "fresh" "" ∷ logging_in wrong ∷ logging_out "live" ∷ asking_me "11111" ∷ []

refresh_example :
    Leads
      (IsRotated service "live" start.db.refresh_tokens)
      (OnlyRevokes start.db.refresh_tokens)
      (refresh service "live" "")
      start
refresh_example = refresh_lem service "live" "" start (sample-ReadsBack no_faults)

replay_example :
    Leads (λ _ _. ⊥) (IsDenied 6 start.db.refresh_tokens) (refresh service "old" "") start
replay_example =
    replay_lem service "old" "" (token_row 8 "old" (some 3)) start (sample-ReadsBack no_faults) refl
      refl

used_once_example :
    Leads
      (λ _ w'.
        Leads
          (λ _ _. ⊥)
          (λ _ _. Unit {0})
          (refresh service "live" "f")
          (serve_all service requests w'))
      (λ _ _. Unit {0})
      (refresh service "live" "")
      start
used_once_example = used_once service "live" "" "f" requests start (sample-ReadsBack no_faults)

refused_alike_example :
    login service wrong start ≡ (err (sentinel bad_credentials), after start start.db)
unfolding trim_space
refused_alike_example = refused_alike service wrong start refl (inr refl)

-- The organisation "o" has a user already.
abbrev joining : SignupRequest
joining = record {
  email = "new@b.c";
  password = "long enough";
  display_name = "";
  org_name = "";
  org_slug = "o";
}

signup_example :
    Leads
      (IsSignedUp service joining start.db.users)
      (λ e w'. SameUsers start.db.users w')
      (signup service joining)
      start
signup_example = signup_lem service joining start
