-- ===== src/Iam/Repository/Sessions.antt =====
-- svc-aerial-iam/internal/repository: devices and refresh tokens. `clock` is the process's clock,
-- read after so many calls; the server has its own.
use aerial_ran_platform.Base.{
  ℕ, String, not, Option, none, some, ◌∷◌, ltb, is_some, find, exists, update, if◌then◌else◌,
}
use aerial_ran_platform.Go.Errors.{pg, sentinel}
use aerial_ran_platform.Go.Exec.{ok, err, pure, fail, gets, ◌>>=◌}
use aerial_ran_platform.Go.Postgres.{Postgres, World, call, cast, cast_null}
use aerial_ran_platform.Iam.Model.{
  token_not_found, DeviceRow, TokenRow, Data, Device, RefreshToken, Looked, valid, revoked, expired,
}
use aerial_ran_platform.Iam.Repository.{
  Op, Answer, user_id_is, device_of, device_id_is, device_listed, has_hash, token_clashes,
  live_hash, live_family, revoke_at, to_device, to_token,
}

abbrev pub seen_at : ℕ → DeviceRow → DeviceRow
seen_at now r = record r { last_seen = now }

abbrev pub looked : RefreshToken → ℕ → Looked
looked t now =
    if is_some t.revoked_at then revoked t else if ltb t.expires_at now then expired t else valid t

module _ (server : Postgres) (clock : ℕ → ℕ) where
  -- `ON CONFLICT (user_id, fingerprint) DO UPDATE SET last_seen`
  abbrev pub put_device : ℕ → String → String → ℕ → ℕ → Data → Option DeviceRow → Answer DeviceRow
  put_device u fingerprint name now n t (some r) = ok (
    seen_at now r,
    record t { devices = update (device_of u fingerprint) (seen_at now) t.devices },
  )
  put_device u fingerprint name now n t none =
      let row : DeviceRow = record {
        id = server.fresh n;
        user_id = u;
        device_name = name;
        fingerprint = fingerprint;
        last_seen = now;
        created_at = server.now n;
      } in
      if not (exists (user_id_is u) t.users)
      then err (pg "23503")
      else if exists (device_id_is row.id) t.devices
      then err (pg "23505")
      else ok (row, record t { devices = row ∷ t.devices })

  unfoldable pub upsert_device : String → String → String → Op Device
  upsert_device user_id fingerprint name = do
    now ← gets λ (w : World Data). clock w.tick
    row ← call server.fault λ n t.
        cast (server.parse_uuid user_id)
          λ u. put_device u fingerprint name now n t (find (device_of u fingerprint) t.devices)
    pure (to_device server row)

  abbrev pub token_row : RefreshToken → ℕ → Option ℕ → ℕ → ℕ → TokenRow
  token_row t user device family n = record {
    id = server.fresh n;
    user_id = user;
    device_id = device;
    family_id = family;
    token_hash = t.token_hash;
    expires_at = t.expires_at;
    revoked_at = none;
    created_at = server.now n;
  }

  -- The foreign keys, then the unique ones.
  abbrev pub add_token : TokenRow → Data → Answer (Unit {0})
  add_token row t =
      if exists (token_clashes row.id row.token_hash) t.refresh_tokens
      then err (pg "23505")
      else if not (exists (user_id_is row.user_id) t.users)
      then err (pg "23503")
      else if not (device_listed row.device_id t.devices)
      then err (pg "23503")
      else ok (tt, record t { refresh_tokens = row ∷ t.refresh_tokens })

  unfoldable pub store_refresh_token : RefreshToken → Op (Unit {0})
  store_refresh_token token = call server.fault λ n t.
      cast (server.parse_uuid token.user_id) λ user. cast_null server token.device_id λ device.
        cast (server.parse_uuid token.family_id)
          λ family. add_token (token_row token user device family n) t

  abbrev pub look : Option TokenRow → ℕ → Op Looked
  look none now = fail (sentinel token_not_found)
  look (some r) now = pure (looked (to_token server r) now)

  unfoldable pub find_refresh_token : String → Op Looked
  find_refresh_token token_hash = do
    row ← call server.fault λ n t. ok (find (has_hash token_hash) t.refresh_tokens, t)
    now ← gets λ (w : World Data). clock w.tick
    look row now

  unfoldable pub revoke_family : String → Op (Unit {0})
  revoke_family family_id = call server.fault λ n t. cast (server.parse_uuid family_id) λ f. ok (
    tt,
    record t {
      refresh_tokens = update (live_family f) (revoke_at (server.now n)) t.refresh_tokens;
    },
  )

  -- No row to revoke is no error.
  unfoldable pub revoke_token : String → Op (Unit {0})
  revoke_token token_hash = call server.fault λ n t. ok (
    tt,
    record t {
      refresh_tokens = update (live_hash token_hash) (revoke_at (server.now n)) t.refresh_tokens;
    },
  )
