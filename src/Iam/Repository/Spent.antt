-- ===== src/Iam/Repository/Spent.antt =====
-- A refresh token that is revoked stays revoked, whatever the repository is asked.
use aerial_ran_platform.Base.{
  ℕ, String, Bool, true, false, not, Option, none, some, List, [], ◌∷◌, ◌≡◌, refl, ap, ◌∙◌, inl,
  inr, str_eq_refl, is_some, find, exists, update, if◌then◌else◌, arith, eq_iff, Bool-cases,
}
use mathlib.Core.Option.{some-injective}
use aerial_ran_platform.Go.Errors.{Err}
use aerial_ran_platform.Go.Exec.{Result, ok, err}
use aerial_ran_platform.Go.Exec.Keeps.{
  pure-Keeps, fail-Keeps, gets-Keeps, bind-Keeps, attempt-Keeps,
}
use aerial_ran_platform.Go.Postgres.{Postgres}
use aerial_ran_platform.Go.Postgres.Keeps.{
  Stays, KeepsData, call-Keeps, cast-Stays, cast_null-Stays,
}
use aerial_ran_platform.Iam.Model.{
  Sentinel, OrgRow, UserRow, DeviceRow, TokenRow, Data, User, RefreshToken,
}
use aerial_ran_platform.Iam.Repository.{
  has_hash, token_clashes, live_hash, live_family, revoke_at, create_org, get_org_by_slug,
  create_user, get_user_by_email, get_user_by_id, org_clashes, user_clashes, device_id_is,
  org_id_is, Answer, add_user, user_row, org_found, found_user, user_id_is, device_listed,
  device_of,
}
use aerial_ran_platform.Iam.Repository.Sessions.{
  upsert_device, put_device, store_refresh_token, add_token, token_row, find_refresh_token, look,
  revoke_family, revoke_token,
}

-- The token is on record and revoked.
abbrev pub IsSpent : String → List TokenRow → Type 0
IsSpent h ts = (r : TokenRow) × (find (has_hash h) ts ≡ some r) × (is_some r.revoked_at ≡ true)

abbrev pub Spent : String → Data → Type 0
Spent h t = IsSpent h t.refresh_tokens

-- Revoking rows leaves a revoked one revoked.
pub update-IsSpent :
    (h : String) (q : TokenRow → Bool) (now : ℕ) (ts : List TokenRow)
    → IsSpent h ts
    → IsSpent h (update q (revoke_at now) ts)
update-IsSpent h q now [] (r, f, s) = cc
update-IsSpent h q now (t ∷ ts) (r, f, s) = elim (Bool-cases (has_hash h t)) [
  | inl e ↦
      let same : t ≡ r = some-injective _ _ (ground arith) in
      elim (Bool-cases (q t)) [
        | inl c ↦ (revoke_at now t, rw (c, e) refl, refl)
        | inr c ↦ (t, rw (c, e) refl, ap (λ (x : TokenRow). is_some x.revoked_at) same ∙ s)
      ]
  | inr e ↦
      let rest : find (has_hash h) ts ≡ some r = ground arith in
      let (r', f', s') = update-IsSpent h q now ts (r, rest, s) in (r', ground arith, s')
]

-- A new row has a hash that no row had.
pub add-IsSpent :
    (h : String) (row : TokenRow) (ts : List TokenRow)
    → exists (token_clashes row.id row.token_hash) ts ≡ false
    → IsSpent h ts
    → IsSpent h (row ∷ ts)
add-IsSpent h row ts fresh (r, f, s) = (r, rw (unlike ts fresh f) f, s)
  where
    unlike :
        (ts : List TokenRow)
        → exists (token_clashes row.id row.token_hash) ts ≡ false
        → find (has_hash h) ts ≡ some r
        → has_hash h row ≡ false
    unlike [] e f = cc
    unlike (t ∷ ts) e f =
        ground (arith, eq_iff t.token_hash h, eq_iff row.token_hash h, str_eq_refl h, unlike ts)

module _ (h : String) (server : Postgres) (clock : ℕ → ℕ) where
  -- A statement that a constraint refuses changes nothing.
  unless-Stays :
      {A : Type 0} (b : Bool) (e : Err Sentinel) (y : Answer A)
      → (b ≡ false → Stays (Spent h) y)
      → Stays (Spent h) (if b then err e else y)
  unless-Stays true e y u = tt
  unless-Stays false e y u = u refl

  add_token-Stays :
      (row : TokenRow) (d : Data) → Spent h d → Stays (Spent h) (add_token server clock row d)
  add_token-Stays row d s =
      unless-Stays (exists (token_clashes row.id row.token_hash) d.refresh_tokens) _ _ λ fresh.
        elim (Bool-cases (not (exists (user_id_is row.user_id) d.users))) [
          | inl e ↦ rw e tt
          | inr e ↦ rw e elim (Bool-cases (not (device_listed row.device_id d.devices))) [
            | inl e' ↦ rw e' tt
            | inr e' ↦ rw e' (add-IsSpent h row d.refresh_tokens fresh s)
          ]
        ]

  pub store-KeepsSpent :
      (t : RefreshToken) → KeepsData (Spent h) (store_refresh_token server clock t)
  unfolding store_refresh_token
  store-KeepsSpent t = call-Keeps (Spent h) server.fault _ λ n d s.
      cast-Stays (Spent h) (server.parse_uuid t.user_id) _ λ user.
        cast_null-Stays (Spent h) server t.device_id _ λ device.
          cast-Stays (Spent h) (server.parse_uuid t.family_id) _
            λ family. add_token-Stays (token_row server clock t user device family n) d s

  pub revoke_family-KeepsSpent :
      (family_id : String) → KeepsData (Spent h) (revoke_family server clock family_id)
  unfolding revoke_family
  revoke_family-KeepsSpent family_id = call-Keeps (Spent h) server.fault _ λ n d s.
      cast-Stays (Spent h) (server.parse_uuid family_id) _
        λ f. update-IsSpent h (live_family f) (server.now n) d.refresh_tokens s

  pub revoke_token-KeepsSpent :
      (token_hash : String) → KeepsData (Spent h) (revoke_token server clock token_hash)
  unfolding revoke_token
  revoke_token-KeepsSpent token_hash =
      call-Keeps (Spent h) server.fault _
        λ n d s. update-IsSpent h (live_hash token_hash) (server.now n) d.refresh_tokens s

  look-Keeps : (o : Option TokenRow) (now : ℕ) → KeepsData (Spent h) (look server clock o now)
  look-Keeps none now = fail-Keeps _
  look-Keeps (some r) now = pure-Keeps _

  pub find_refresh_token-KeepsSpent :
      (token_hash : String) → KeepsData (Spent h) (find_refresh_token server clock token_hash)
  unfolding find_refresh_token
  find_refresh_token-KeepsSpent token_hash =
      bind-Keeps _ _ (call-Keeps (Spent h) server.fault _ λ n d s. s)
        λ row. bind-Keeps _ _ (gets-Keeps _) λ now. look-Keeps row now

  put_device-Stays :
      (u : ℕ) (fingerprint name : String) (now n : ℕ) (d : Data) (o : Option DeviceRow)
      → Spent h d
      → Stays (Spent h) (put_device server clock u fingerprint name now n d o)
  put_device-Stays u fingerprint name now n d (some r) s = s
  put_device-Stays u fingerprint name now n d none s =
      elim (Bool-cases (not (exists (user_id_is u) d.users))) [
        | inl e ↦ rw e tt
        | inr e ↦ rw e (elim (Bool-cases (exists (device_id_is (server.fresh n)) d.devices)) [
          | inl c ↦ rw c tt
          | inr c ↦ rw c s
        ])
      ]

  pub upsert_device-KeepsSpent :
      (user_id fingerprint name : String)
      → KeepsData (Spent h) (upsert_device server clock user_id fingerprint name)
  unfolding upsert_device
  upsert_device-KeepsSpent user_id fingerprint name = bind-Keeps _ _ (gets-Keeps _) λ now.
      bind-Keeps _ _
        (call-Keeps (Spent h) server.fault _ λ n d s.
          cast-Stays (Spent h) (server.parse_uuid user_id) _ λ u.
            put_device-Stays u fingerprint name now n d (find (device_of u fingerprint) d.devices)
              s)
        λ row. pure-Keeps _

  pub create_org-KeepsSpent :
      (name slug : String) → KeepsData (Spent h) (create_org server name slug)
  unfolding create_org
  create_org-KeepsSpent name slug =
      bind-Keeps _ _
        (call-Keeps (Spent h) server.fault _ λ n d s.
          elim (Bool-cases (exists (org_clashes (server.fresh n) slug) d.organizations)) [
            | inl c ↦ rw c tt
            | inr c ↦ rw c s
          ])
        λ row. pure-Keeps _

  org_found-Keeps : (o : Option OrgRow) → KeepsData (Spent h) (org_found server o)
  org_found-Keeps none = fail-Keeps _
  org_found-Keeps (some r) = pure-Keeps _

  pub get_org_by_slug-KeepsSpent :
      (slug : String) → KeepsData (Spent h) (get_org_by_slug server slug)
  unfolding get_org_by_slug
  get_org_by_slug-KeepsSpent slug =
      bind-Keeps _ _ (call-Keeps (Spent h) server.fault _ λ n d s. s) org_found-Keeps

  add_user-Stays : (row : UserRow) (d : Data) → Spent h d → Stays (Spent h) (add_user server row d)
  add_user-Stays row d s = elim (Bool-cases (exists (user_clashes row.id row.email) d.users)) [
    | inl c ↦ rw c tt
    | inr c ↦ rw c (elim (Bool-cases (not (exists (org_id_is row.org_id) d.organizations))) [
      | inl e ↦ rw e tt
      | inr e ↦ rw e s
    ])
  ]

  pub create_user-KeepsSpent : (u : User) → KeepsData (Spent h) (create_user server u)
  unfolding create_user
  create_user-KeepsSpent u =
      bind-Keeps _ _
        (call-Keeps (Spent h) server.fault _ λ n d s.
          cast-Stays (Spent h) (server.parse_uuid u.org_id) _
            λ org. add_user-Stays (user_row server u org n) d s)
        λ row. pure-Keeps _

  found_user-Keeps :
      (r : Result (Err Sentinel) (Option UserRow)) → KeepsData (Spent h) (found_user server r)
  found_user-Keeps (ok none) = pure-Keeps _
  found_user-Keeps (ok (some r)) = pure-Keeps _
  found_user-Keeps (err e) = pure-Keeps _

  pub get_user_by_email-KeepsSpent :
      (email : String) → KeepsData (Spent h) (get_user_by_email server email)
  unfolding get_user_by_email
  get_user_by_email-KeepsSpent email =
      bind-Keeps _ _ (attempt-Keeps _ (call-Keeps (Spent h) server.fault _ λ n d s. s))
        found_user-Keeps

  pub get_user_by_id-KeepsSpent : (id : String) → KeepsData (Spent h) (get_user_by_id server id)
  unfolding get_user_by_id
  get_user_by_id-KeepsSpent id =
      bind-Keeps _ _
        (attempt-Keeps _ (
          call-Keeps (Spent h) server.fault _
            λ n d s. cast-Stays (Spent h) (server.parse_uuid id) _ λ u. s))
        found_user-Keeps
