-- ===== src/Iam/Repository.antt =====
-- svc-aerial-iam/internal/repository: the SQL statements on the tables of accounts and tokens, and
-- the methods that run them.
pub mod Sessions
pub mod Spent
pub mod Outcomes
pub mod Storing
use aerial_ran_platform.Base.{
  ℕ, String, Bool, true, false, not, ◌&&◌, ◌||◌, Option, none, some, List, [], ◌∷◌, str_eq, ◌==◌,
  ltb, is_some, find, exists, update, if◌then◌else◌,
}
use aerial_ran_platform.Go.Errors.{Err, pg, sentinel}
use aerial_ran_platform.Go.Exec.{Result, ok, err, Exec, pure, fail, attempt, gets, ◌>>=◌, ◌>>◌}
use aerial_ran_platform.Go.Postgres.{Postgres, World, call, cast, cast_null}
use aerial_ran_platform.Iam.Model.{
  Sentinel, user_not_found, org_not_found, token_not_found, OrgRow, UserRow, DeviceRow, TokenRow,
  Data, Organization, User, Device, RefreshToken, Loaded, loaded, absent, broken, Looked, valid,
  revoked, expired,
}

abbrev pub Op : Type 0 → Type 0
Op A = Exec (World Data) (Err Sentinel) A

abbrev pub Answer : Type 0 → Type 0
Answer A = Result (Err Sentinel) (A × Data)

abbrev pub has_slug : String → OrgRow → Bool
has_slug slug r = str_eq r.slug slug

abbrev pub org_id_is : ℕ → OrgRow → Bool
org_id_is u r = r.id == u

abbrev pub org_clashes : ℕ → String → OrgRow → Bool
org_clashes u slug r = r.id == u || str_eq r.slug slug

abbrev pub has_email : String → UserRow → Bool
has_email email r = str_eq r.email email

abbrev pub user_id_is : ℕ → UserRow → Bool
user_id_is u r = r.id == u

abbrev pub user_clashes : ℕ → String → UserRow → Bool
user_clashes u email r = r.id == u || str_eq r.email email

abbrev pub device_of : ℕ → String → DeviceRow → Bool
device_of u fingerprint r = r.user_id == u && str_eq r.fingerprint fingerprint

abbrev pub device_id_is : ℕ → DeviceRow → Bool
device_id_is u r = r.id == u

abbrev pub has_hash : String → TokenRow → Bool
has_hash h r = str_eq r.token_hash h

abbrev pub token_clashes : ℕ → String → TokenRow → Bool
token_clashes u h r = r.id == u || str_eq r.token_hash h

-- `token_hash = $1 AND revoked_at IS NULL`
abbrev pub live_hash : String → TokenRow → Bool
live_hash h r = str_eq r.token_hash h && not (is_some r.revoked_at)

-- `family_id = $1::uuid AND revoked_at IS NULL`
abbrev pub live_family : ℕ → TokenRow → Bool
live_family f r = r.family_id == f && not (is_some r.revoked_at)

abbrev pub revoke_at : ℕ → TokenRow → TokenRow
revoke_at now r = record r { revoked_at = some now }

-- A foreign key that may be NULL.
abbrev pub device_listed : Option ℕ → List DeviceRow → Bool
device_listed none ds = true
device_listed (some u) ds = exists (device_id_is u) ds

abbrev pub show_null : (ℕ → String) → Option ℕ → String
show_null show none = ""
show_null show (some u) = show u

-- A pointer beside an error, for a caller that checks the error.
abbrev pub checked : {A : Type 0} → Loaded A → Op A
checked (loaded a) = pure a
checked (absent e) = fail e
checked (broken e) = fail e

module _ (server : Postgres) where
  abbrev pub to_org : OrgRow → Organization
  to_org r = record {
    id = server.show_uuid r.id;
    name = r.name;
    slug = r.slug;
    modules = [];
    created_at = r.created_at;
  }

  abbrev pub to_user : UserRow → User
  to_user r = record {
    id = server.show_uuid r.id;
    org_id = server.show_uuid r.org_id;
    email = r.email;
    display_name = r.display_name;
    role = r.role;
    is_active = r.is_active;
    password_hash = r.password_hash;
    created_at = r.created_at;
    updated_at = r.updated_at;
  }

  abbrev pub to_device : DeviceRow → Device
  to_device r = record {
    id = server.show_uuid r.id;
    user_id = server.show_uuid r.user_id;
    device_name = r.device_name;
    fingerprint = r.fingerprint;
    last_seen = r.last_seen;
    created_at = r.created_at;
  }

  abbrev pub to_token : TokenRow → RefreshToken
  to_token r = record {
    user_id = server.show_uuid r.user_id;
    device_id = show_null server.show_uuid r.device_id;
    family_id = server.show_uuid r.family_id;
    token_hash = r.token_hash;
    expires_at = r.expires_at;
    revoked_at = r.revoked_at;
  }

  abbrev pub insert_org : String → String → ℕ → Data → Answer OrgRow
  insert_org name slug n t =
      let row : OrgRow = record {
        id = server.fresh n;
        name = name;
        slug = slug;
        created_at = server.now n;
      } in
      if exists (org_clashes row.id slug) t.organizations
      then err (pg "23505")
      else ok (row, record t { organizations = row ∷ t.organizations })

  unfoldable pub create_org : String → String → Op Organization
  create_org name slug = do row ← call server.fault (insert_org name slug); pure (to_org row)

  abbrev pub org_found : Option OrgRow → Op Organization
  org_found none = fail (sentinel org_not_found)
  org_found (some r) = pure (to_org r)

  unfoldable pub get_org_by_slug : String → Op Organization
  get_org_by_slug slug = do
    row ← call server.fault λ n t. ok (find (has_slug slug) t.organizations, t)
    org_found row

  -- `org_id` must be that of an organisation; `id` and `email` are unique.
  abbrev pub add_user : UserRow → Data → Answer UserRow
  add_user row t =
      if exists (user_clashes row.id row.email) t.users
      then err (pg "23505")
      else if not (exists (org_id_is row.org_id) t.organizations)
      then err (pg "23503")
      else ok (row, record t { users = row ∷ t.users })

  abbrev pub user_row : User → ℕ → ℕ → UserRow
  user_row u org n = record {
    id = server.fresh n;
    org_id = org;
    email = u.email;
    display_name = u.display_name;
    password_hash = u.password_hash;
    role = u.role;
    is_active = true;
    created_at = server.now n;
    updated_at = server.now n;
  }

  unfoldable pub create_user : User → Op User
  create_user u = do
    row ←
        call server.fault
          λ n t. cast (server.parse_uuid u.org_id) λ org. add_user (user_row u org n) t
    pure (record u {
      id = server.show_uuid row.id;
      created_at = row.created_at;
      updated_at = row.updated_at;
      is_active = true;
    })

  abbrev pub found_user : Result (Err Sentinel) (Option UserRow) → Op (Loaded User)
  found_user (ok (some r)) = pure (loaded (to_user r))
  found_user (ok none) = pure (absent (sentinel user_not_found))
  found_user (err e) = pure (broken e)

  unfoldable pub get_user_by_email : String → Op (Loaded User)
  get_user_by_email email = do
    r ← attempt (call server.fault λ n t. ok (find (has_email email) t.users, t))
    found_user r

  unfoldable pub get_user_by_id : String → Op (Loaded User)
  get_user_by_id id = do
    r ← attempt (
        call server.fault
          λ n t. cast (server.parse_uuid id) λ u. ok (find (user_id_is u) t.users, t))
    found_user r
