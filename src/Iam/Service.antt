-- ===== src/Iam/Service.antt =====
-- svc-aerial-iam/internal/service: signing up, logging in, and the rotation of refresh tokens.
pub mod Spent
pub mod Login
pub mod Signup
pub mod Tokens
pub mod Exchange
pub mod Rotation
use Prim.Native.String
use Prim.Native.String.{len}
use aerial_ran_platform.Base.{
  ℕ, String, Bool, true, false, not, Option, none, some, List, [], str_eq, ltb, trim_space,
  if◌then◌else◌, ◌+◌,
}
use aerial_ran_platform.Go.Errors.{Err, sentinel, join, other, errors_is}
use aerial_ran_platform.Go.Exec.{Result, ok, err, pure, fail, fail_if, gets, attempt, ◌>>=◌, ◌>>◌}
use aerial_ran_platform.Go.Postgres.{Postgres, World}
use aerial_ran_platform.Jwt.{Claims}
use aerial_ran_platform.Iam.Model.{
  Sentinel, same, user_exists, org_not_found, user_not_found, bad_credentials, token_reuse,
  reuse_revoke_failed, invalid_argument, Organization, User, Device, RefreshToken, SignupRequest,
  LoginRequest, TokenPair, Data, Loaded, loaded, absent, broken, Looked, valid, revoked, expired,
  token_expired,
}
use aerial_ran_platform.Iam.Slug.{slugify}
use aerial_ran_platform.Iam.Repository.{
  Op, checked, create_org, get_org_by_slug, create_user, get_user_by_email, get_user_by_id,
}
use aerial_ran_platform.Iam.Repository.Sessions.{
  upsert_device, store_refresh_token, find_refresh_token, revoke_family, revoke_token,
}

-- The service's fields, with what lies outside: the database, the clock, `Sign` (a token with its
-- expiry, or its error), the address parser, `strings.ToLower`, bcrypt, `uuid.NewString`, the
-- text of 32 random bytes, and the hexadecimal SHA-256.
pub record Service : Type 0 where
  pub repo : Postgres
  pub clock : ℕ → ℕ
  pub refresh_ttl : ℕ
  pub sign : ℕ → Claims → Result String (String × ℕ)
  pub is_address : String → Bool
  pub to_lower : String → String
  pub hash_password : ℕ → String → Result String String
  pub check_password : String → String → Bool
  pub new_uuid : ℕ → String
  pub random_token : ℕ → String
  pub hash_token : String → String

abbrev pub or_text : String → String → String
or_text s t = if str_eq s "" then t else s

abbrev pub bad_argument : String → Err Sentinel
bad_argument why = join (sentinel invalid_argument) (other why)

module _ (svc : Service) where
  -- What a library call returned at this point of time.
  abbrev pub outside : {A : Type 0} → Result String A → Op A
  outside (ok a) = pure a
  outside (err e) = fail (other e)

  abbrev pub tick_of : World Data → ℕ
  tick_of w = w.tick

  abbrev pub user_claims : User → String → Claims
  user_claims u device_id = record {
    user_id = u.id;
    org_id = u.org_id;
    email = u.email;
    role = u.role;
    device_id = device_id;
    scopes = [];
  }

  abbrev pub new_token : User → String → String → String → ℕ → RefreshToken
  new_token u device_id family_id raw now = record {
    user_id = u.id;
    device_id = device_id;
    family_id = family_id;
    token_hash = svc.hash_token raw;
    expires_at = now + svc.refresh_ttl;
    revoked_at = none;
  }

  unfoldable pub issue_tokens : User → String → String → Op TokenPair
  issue_tokens u device_id family_id = do
    n ← gets tick_of
    access ← outside (svc.sign n (user_claims u device_id))
    let raw = svc.random_token n
    let token = new_token u device_id family_id raw (svc.clock n)
    store_refresh_token svc.repo svc.clock token
    pure (record {
      access_token = access.0;
      access_expires_at = access.1;
      refresh_token = raw;
      refresh_expires_at = token.expires_at;
      user = u;
    })

  -- `if existing, _ := …; existing != nil`: the error is not looked at.
  abbrev pub exists_already : Loaded User → Bool
  exists_already (loaded u) = true
  exists_already (absent e) = false
  exists_already (broken e) = true

  abbrev pub org_or_new : String → String → Result (Err Sentinel) Organization → Op Organization
  org_or_new name slug (ok org) = pure org
  org_or_new name slug (err e) =
      if errors_is same e org_not_found then create_org svc.repo name slug else fail e

  abbrev pub new_user : SignupRequest → String → String → String → User
  new_user req email org_id hash = record {
    id = "";
    org_id = org_id;
    email = email;
    display_name = req.display_name;
    role = "superadmin";
    is_active = false;
    password_hash = hash;
    created_at = 0;
    updated_at = 0;
  }

  abbrev pub email_of : String → String
  email_of s = svc.to_lower (trim_space s)

  abbrev pub org_name_of : SignupRequest → String
  org_name_of req = or_text (trim_space req.org_name) (email_of req.email)

  abbrev pub org_slug_of : SignupRequest → String
  org_slug_of req = or_text (trim_space req.org_slug) (slugify svc.to_lower (org_name_of req))

  unfoldable pub signup : SignupRequest → Op User
  signup req = do
    fail_if (not (svc.is_address (email_of req.email))) (bad_argument "bad email")
    fail_if (ltb (len req.password) 8) (bad_argument "password too short")
    existing ← get_user_by_email svc.repo (email_of req.email)
    fail_if (exists_already existing) (sentinel user_exists)
    found ← attempt (get_org_by_slug svc.repo (org_slug_of req))
    org ← org_or_new (org_name_of req) (org_slug_of req) found
    n ← gets tick_of
    hash ← outside (svc.hash_password n req.password)
    create_user svc.repo (new_user req (email_of req.email) org.id hash)

  abbrev pub known_user : Loaded User → Op User
  known_user (loaded u) = pure u
  known_user (absent e) =
      fail (if errors_is same e user_not_found then sentinel bad_credentials else e)
  known_user (broken e) =
      fail (if errors_is same e user_not_found then sentinel bad_credentials else e)

  -- The device of a fingerprint, or the one given.
  abbrev pub device_for : User → String → String → String → Op String
  device_for u fingerprint name device_id =
      if str_eq fingerprint ""
      then pure device_id
      else do d ← upsert_device svc.repo svc.clock u.id fingerprint name; pure d.id

  unfoldable pub login : LoginRequest → Op TokenPair
  login req = do
    found ← get_user_by_email svc.repo (email_of req.email)
    u ← known_user found
    fail_if (not u.is_active) (sentinel bad_credentials)
    fail_if (not (svc.check_password u.password_hash req.password)) (sentinel bad_credentials)
    device_id ← device_for u req.device_fingerprint req.device_name ""
    n ← gets tick_of
    issue_tokens u device_id (svc.new_uuid n)

  abbrev pub reuse_response : Result (Err Sentinel) (Unit {0}) → Op TokenPair
  reuse_response (ok _) = fail (sentinel token_reuse)
  reuse_response (err e) = fail (join (sentinel reuse_revoke_failed) e)

  -- What follows once the presented token has been looked up.
  abbrev pub rotate : String → String → Looked → Op TokenPair
  rotate h fingerprint (revoked rt) =
      attempt (revoke_family svc.repo svc.clock rt.family_id) >>= reuse_response
  rotate h fingerprint (expired rt) = fail (sentinel token_expired)
  rotate h fingerprint (valid rt) = do
    revoke_token svc.repo svc.clock h
    found ← get_user_by_id svc.repo rt.user_id
    u ← checked found
    device_id ← device_for u fingerprint "" rt.device_id
    issue_tokens u device_id rt.family_id

  unfoldable pub refresh : String → String → Op TokenPair
  refresh raw fingerprint = do
    found ← find_refresh_token svc.repo svc.clock (svc.hash_token raw)
    rotate (svc.hash_token raw) fingerprint found

  unfoldable pub logout : String → Op (Unit {0})
  logout raw = revoke_token svc.repo svc.clock (svc.hash_token raw)

  unfoldable pub me : String → Op User
  me user_id = do found ← get_user_by_id svc.repo user_id; checked found
