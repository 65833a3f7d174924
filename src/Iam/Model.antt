-- ===== src/Iam/Model.antt =====
-- svc-aerial-iam/internal/model and the tables of the migration. Times are numbers.
use aerial_ran_platform.Base.{ℕ, String, Bool, true, false, Option, List}
use aerial_ran_platform.Go.Errors.{Err}

pub data Sentinel : Type 0 where
  user_not_found user_exists org_not_found bad_credentials token_not_found : Sentinel
  token_revoked token_expired token_reuse reuse_revoke_failed invalid_argument : Sentinel

abbrev pub same : Sentinel → Sentinel → Bool
same user_not_found user_not_found = true
same user_exists user_exists = true
same org_not_found org_not_found = true
same bad_credentials bad_credentials = true
same token_not_found token_not_found = true
same token_revoked token_revoked = true
same token_expired token_expired = true
same token_reuse token_reuse = true
same reuse_revoke_failed reuse_revoke_failed = true
same invalid_argument invalid_argument = true
same _ _ = false

-- The column `modules` is left out: no statement reads it.
pub record OrgRow : Type 0 where
  pub id : ℕ
  pub name : String
  pub slug : String
  pub created_at : ℕ

pub record UserRow : Type 0 where
  pub id : ℕ
  pub org_id : ℕ
  pub email : String
  pub display_name : String
  pub password_hash : String
  pub role : String
  pub is_active : Bool
  pub created_at : ℕ
  pub updated_at : ℕ

pub record DeviceRow : Type 0 where
  pub id : ℕ
  pub user_id : ℕ
  pub device_name : String
  pub fingerprint : String
  pub last_seen : ℕ
  pub created_at : ℕ

pub record TokenRow : Type 0 where
  pub id : ℕ
  pub user_id : ℕ
  pub device_id : Option ℕ
  pub family_id : ℕ
  pub token_hash : String
  pub expires_at : ℕ
  pub revoked_at : Option ℕ
  pub created_at : ℕ

pub record Data : Type 0 where
  pub organizations : List OrgRow
  pub users : List UserRow
  pub devices : List DeviceRow
  pub refresh_tokens : List TokenRow

-- The structs, with identifiers as texts.
pub record Organization : Type 0 where
  pub id : String
  pub name : String
  pub slug : String
  pub modules : List String
  pub created_at : ℕ

pub record User : Type 0 where
  pub id : String
  pub org_id : String
  pub email : String
  pub display_name : String
  pub role : String
  pub is_active : Bool
  pub password_hash : String
  pub created_at : ℕ
  pub updated_at : ℕ

pub record Device : Type 0 where
  pub id : String
  pub user_id : String
  pub device_name : String
  pub fingerprint : String
  pub last_seen : ℕ
  pub created_at : ℕ

-- Without the identifier and the time of creation, which nothing reads.
pub record RefreshToken : Type 0 where
  pub user_id : String
  pub device_id : String
  pub family_id : String
  pub token_hash : String
  pub expires_at : ℕ
  pub revoked_at : Option ℕ

pub record SignupRequest : Type 0 where
  pub email : String
  pub password : String
  pub display_name : String
  pub org_name : String
  pub org_slug : String

pub record LoginRequest : Type 0 where
  pub email : String
  pub password : String
  pub device_fingerprint : String
  pub device_name : String

pub record TokenPair : Type 0 where
  pub access_token : String
  pub access_expires_at : ℕ
  pub refresh_token : String
  pub refresh_expires_at : ℕ
  pub user : User

-- What a method returns that gives a pointer beside an error: a value, a nil pointer with an
-- error, or a pointer to an empty value with an error.
pub data Loaded (A : Type 0) : Type 0 where
  loaded : A → Loaded A
  absent : Err Sentinel → Loaded A
  broken : Err Sentinel → Loaded A

-- What `FindRefreshToken` returns when it has found the row: the token, alone or with
-- `ErrTokenRevoked` or `ErrTokenExpired`.
pub data Looked : Type 0 where
  valid revoked expired : RefreshToken → Looked
