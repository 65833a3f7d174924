-- ===== src/Iam/Repository/Storing.antt =====
-- What storing a refresh token does.
use aerial_ran_platform.Base.{
  ℕ, false, not, Option, none, some, List, ◌∷◌, ◌≡◌, refl, sym, ap, ◌∙◌, exists, Bool-cases, inl,
  inr,
}
use aerial_ran_platform.Go.Errors.{Err}
use aerial_ran_platform.Go.Exec.{Result, Leads}
use aerial_ran_platform.Go.Postgres.{Postgres, World, cast}
use aerial_ran_platform.Go.Postgres.Outcomes.{
  Settled, call-cast-Leads, cast-Settled, cast_null-Settled,
}
use aerial_ran_platform.Iam.Model.{Sentinel, TokenRow, Data, RefreshToken}
use aerial_ran_platform.Iam.Repository.{Answer, token_clashes, user_id_is, device_listed}
use aerial_ran_platform.Iam.Repository.Sessions.{store_refresh_token, add_token, token_row}
use aerial_ran_platform.Iam.Repository.Outcomes.{SameTokens}

-- The new row is the token's.
pub record IsStored (server : Postgres) (token : RefreshToken) (ts : List TokenRow) (w : World Data)
    : Type 0 where
  pub row : TokenRow
  pub tokens : w.db.refresh_tokens ≡ row ∷ ts
  pub fresh : exists (token_clashes row.id row.token_hash) ts ≡ false
  pub user : server.parse_uuid token.user_id ≡ some row.user_id
  pub family : server.parse_uuid token.family_id ≡ some row.family_id
  pub hash : row.token_hash ≡ token.token_hash
  pub live : row.revoked_at ≡ none

module _ (server : Postgres) (clock : ℕ → ℕ) where
  -- Storing a token.
  abbrev Stores :
      RefreshToken → List TokenRow → World Data → Result (Err Sentinel) (Unit {0} × Data) → Type 0
  Stores token ts w r = Settled (λ _ w'. IsStored server token ts w') (λ e w'. SameTokens ts w') w r

  add_token-Settled :
      (token : RefreshToken) (user : ℕ) (device : Option ℕ) (family n : ℕ) (ts : List TokenRow)
      (w : World Data)
      → SameTokens ts w
      → server.parse_uuid token.user_id ≡ some user
      → server.parse_uuid token.family_id ≡ some family
      → Stores token ts w
          (add_token server clock (token_row server clock token user device family n) w.db)
  add_token-Settled token user device family n ts w same p q =
      elim (Bool-cases
        (exists (token_clashes (server.fresh n) token.token_hash) w.db.refresh_tokens)) [
          | inl d ↦ rw d same
          | inr d ↦ rw d elim (Bool-cases (not (exists (user_id_is user) w.db.users))) [
            | inl e ↦ rw e same
            | inr e ↦ rw e elim (Bool-cases (not (device_listed device w.db.devices))) [
              | inl c ↦ rw c same
              | inr c ↦ rw c (record {
                row = token_row server clock token user device family n;
                tokens =
                    ap
                      (λ (x : List TokenRow). token_row server clock token user device family n ∷ x)
                      same;
                fresh =
                    ap (exists (token_clashes (server.fresh n) token.token_hash)) (sym same) ∙ d;
                user = p;
                family = q;
                hash = refl;
                live = refl;
              })
            ]
          ]
        ]

  pub store-Leads :
      (token : RefreshToken) (ts : List TokenRow) (w : World Data)
      → SameTokens ts w
      → Leads
          (λ _ w'. IsStored server token ts w')
          (λ e w'. SameTokens ts w')
          (store_refresh_token server clock token)
          w
  unfolding store_refresh_token
  store-Leads token ts w same =
      call-cast-Leads server.fault (server.parse_uuid token.user_id) _ (λ f. same) same
        λ user p.
          let Good : Unit {0} → World Data → Type 0 = λ _ w'. IsStored server token ts w' in
          let Bad : Err Sentinel → World Data → Type 0 = λ e w'. SameTokens ts w' in
          let add : Option ℕ → ℕ → Answer (Unit {0}) = λ device family.
            add_token server clock (token_row server clock token user device family w.tick) w.db in
          cast_null-Settled Good Bad w server token.device_id
            (λ device. cast (server.parse_uuid token.family_id) (add device)) same
            λ device.
              cast-Settled Good Bad w (server.parse_uuid token.family_id) (add device) same
                λ family q. add_token-Settled token user device family w.tick ts w same p q
