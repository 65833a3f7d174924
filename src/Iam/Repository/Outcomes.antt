-- ===== src/Iam/Repository/Outcomes.antt =====
-- What each statement on devices and refresh tokens does to the refresh tokens.
use aerial_ran_platform.Base.{
  ℕ, String, false, not, Option, none, some, List, [], ◌∷◌, ◌≡◌, refl, ap, find, exists, update,
  Bool-cases, inl, inr, arith,
}
use aerial_ran_platform.Go.Errors.{Err, errors_is}
use aerial_ran_platform.Go.Exec.{ok, Leads}
use aerial_ran_platform.Go.Exec.Outcomes.{
  pure-Leads, fail-Leads, bind-Leads, attempt-Leads, gets-Leads,
}
use aerial_ran_platform.Go.Postgres.{Postgres, World}
use aerial_ran_platform.Go.Postgres.Outcomes.{
  fault_is_no_sentinel, Settled, call-Leads, call-cast-Leads,
}
use aerial_ran_platform.Iam.Model.{
  Sentinel, same as is_same, token_reuse, UserRow, DeviceRow, TokenRow, Data, User, Loaded, loaded,
  absent, broken, Looked,
}
use aerial_ran_platform.Iam.Repository.{
  has_hash, live_hash, live_family, revoke_at, user_id_is, device_of, device_id_is, to_token,
  checked, get_user_by_id, found_user,
}
use aerial_ran_platform.Iam.Repository.Sessions.{
  upsert_device, put_device, find_refresh_token, look, looked, revoke_family, revoke_token,
}

abbrev pub SameTokens : List TokenRow → World Data → Type 0
SameTokens ts w = w.db.refresh_tokens ≡ ts

-- The token that was looked up, as its row stands.
pub record IsLookedUp (server : Postgres) (h : String) (ts : List TokenRow) (l : Looked)
    : Type 0 where
  pub row : TokenRow
  pub now : ℕ
  pub found : find (has_hash h) ts ≡ some row
  pub looked_is : l ≡ looked (to_token server row) now

module _ (server : Postgres) (clock : ℕ → ℕ) where
  -- The data are as they were, and the error is not the one of a reuse.
  abbrev pub NotFound : Data → Err Sentinel → World Data → Type 0
  NotFound t e w = (w.db ≡ t) × (errors_is is_same e token_reuse ≡ false)

  look-Leads :
      (h : String) (o : Option TokenRow) (now : ℕ) (t : Data) (w : World Data)
      → find (has_hash h) t.refresh_tokens ≡ o
      → w.db ≡ t
      → Leads
          (λ l w'. IsLookedUp server h t.refresh_tokens l × (w'.db ≡ t))
          (NotFound t)
          (look server clock o now)
          w
  look-Leads h none now t w f same = fail-Leads _ (same, refl)
  look-Leads h (some r) now t w f same =
      pure-Leads _ (record { row = r; now = now; found = f; looked_is = refl }, same)

  pub find_refresh_token-Leads :
      (h : String) (w : World Data)
      → Leads
          (λ l w'. IsLookedUp server h w.db.refresh_tokens l × (w'.db ≡ w.db))
          (NotFound w.db)
          (find_refresh_token server clock h)
          w
  unfolding find_refresh_token
  find_refresh_token-Leads h w =
      bind-Leads {Bad' = NotFound w.db}
        {Good' = λ o w'. (find (has_hash h) w.db.refresh_tokens ≡ o) × (w'.db ≡ w.db)}
        (call-Leads server.fault _ (λ f. (refl, fault_is_no_sentinel is_same f token_reuse))
          (refl, refl))
        (λ o w' (f, same).
          bind-Leads {Bad' = NotFound w.db} {Good' = λ n v. v.db ≡ w.db} (gets-Leads _ same)
            (λ now w'' same'. look-Leads h o now w.db w'' f same') (λ e v s. s))
        (λ e v s. s)

  pub revoke_token-Leads :
      (h : String) (w : World Data)
      → Leads
          (λ _ w'.
            (now : ℕ) × SameTokens (update (live_hash h) (revoke_at now) w.db.refresh_tokens) w')
          (λ e w'. SameTokens w.db.refresh_tokens w')
          (revoke_token server clock h)
          w
  unfolding revoke_token
  revoke_token-Leads h w = call-Leads server.fault _ (λ f. refl) (server.now w.tick, refl)

  pub revoke_family-Leads :
      (family_id : String) (w : World Data)
      → Leads
          (λ _ w'.
            (k : ℕ) × (now : ℕ) × (server.parse_uuid family_id ≡ some k)
            × SameTokens (update (live_family k) (revoke_at now) w.db.refresh_tokens) w')
          (λ e w'.
            SameTokens w.db.refresh_tokens w' × ((s : Sentinel) → errors_is is_same e s ≡ false))
          (revoke_family server clock family_id)
          w
  unfolding revoke_family
  revoke_family-Leads family_id w =
      call-cast-Leads server.fault (server.parse_uuid family_id) _
        (λ f. (refl, fault_is_no_sentinel is_same f)) (refl, λ s. refl)
        (λ u p. (u, server.now w.tick, p, refl))

  -- A user that is read is that of the identifier.
  found_key : (u : ℕ) (r : UserRow) (rs : List UserRow) → find (user_id_is u) rs ≡ some r → r.id ≡ u
  found_key u r [] f = cc
  found_key u r (x ∷ rs) f = ground (arith, found_key u r rs)

  -- What a user that was read has in common with the identifier.
  abbrev pub Reads : String → User → Type 0
  Reads id u = (k : ℕ) × (server.parse_uuid id ≡ some k) × (u.id ≡ server.show_uuid k)

  -- The same of a pointer that may be nil or stand beside an error.
  abbrev pub Known : String → Loaded User → Type 0
  Known id (loaded u) = Reads id u
  Known id (absent e) = Unit
  Known id (broken e) = Unit

  known :
      (id : String) (k : ℕ) (o : Option UserRow) (rs : List UserRow) (ts : List TokenRow)
      (w : World Data)
      → server.parse_uuid id ≡ some k
      → find (user_id_is k) rs ≡ o
      → SameTokens ts w
      → Leads
          (λ l w'. Known id l × SameTokens ts w')
          (λ e w'. SameTokens ts w')
          (found_user server (ok o))
          w
  known id k none rs ts w p f same = pure-Leads _ (tt, same)
  known id k (some r) rs ts w p f same =
      pure-Leads _ ((k, p, ap server.show_uuid (found_key k r rs f)), same)

  pub get_user_by_id-Leads :
      (id : String) (ts : List TokenRow) (w : World Data)
      → SameTokens ts w
      → Leads
          (λ l w'. Known id l × SameTokens ts w')
          (λ e w'. SameTokens ts w')
          (get_user_by_id server id)
          w
  unfolding get_user_by_id
  get_user_by_id-Leads id ts w same =
      attempt-Leads (found_user server)
        (call-cast-Leads
          {Good = λ o w'.
            (k : ℕ) × (server.parse_uuid id ≡ some k)
            × (find (user_id_is k) w.db.users ≡ o)
            × SameTokens ts w'}
          {Bad = λ e w'. SameTokens ts w'} server.fault (server.parse_uuid id) _ (λ f. same) same
          (λ u p. (u, p, refl, same)))
        (λ o w' (k, p, f, s). known id k o w.db.users ts w' p f s) (λ e w' s. pure-Leads _ (tt, s))

  pub checked-Leads :
      (id : String) (l : Loaded User) (ts : List TokenRow) (w : World Data)
      → Known id l
      → SameTokens ts w
      → Leads (λ u w'. Reads id u × SameTokens ts w') (λ e w'. SameTokens ts w') (checked l) w
  checked-Leads id (loaded u) ts w k same = pure-Leads _ (k, same)
  checked-Leads id (absent e) ts w k same = fail-Leads _ same
  checked-Leads id (broken e) ts w k same = fail-Leads _ same

  -- A device leaves the refresh tokens alone.
  put_device-Settled :
      (u : ℕ) (fingerprint name : String) (now n : ℕ) (ts : List TokenRow) (w : World Data)
      (o : Option DeviceRow)
      → SameTokens ts w
      → Settled
          (λ _ w'. SameTokens ts w')
          (λ e w'. SameTokens ts w')
          w
          (put_device server clock u fingerprint name now n w.db o)
  put_device-Settled u fingerprint name now n ts w (some r) same = same
  put_device-Settled u fingerprint name now n ts w none same =
      elim (Bool-cases (not (exists (user_id_is u) w.db.users))) [
        | inl e ↦ rw e same
        | inr e ↦ rw e elim (Bool-cases (exists (device_id_is (server.fresh n)) w.db.devices)) [
          | inl c ↦ rw c same
          | inr c ↦ rw c same
        ]
      ]

  pub upsert_device-Leads :
      (user_id fingerprint name : String) (ts : List TokenRow) (w : World Data)
      → SameTokens ts w
      → Leads
          (λ _ w'. SameTokens ts w')
          (λ e w'. SameTokens ts w')
          (upsert_device server clock user_id fingerprint name)
          w
  unfolding upsert_device
  upsert_device-Leads user_id fingerprint name ts w same =
      bind-Leads {Bad' = λ e v. SameTokens ts v} {Good' = λ _ v. SameTokens ts v}
        (gets-Leads _ same)
        (λ now w' s.
          bind-Leads {Bad' = λ e v. SameTokens ts v} {Good' = λ _ v. SameTokens ts v}
            (call-cast-Leads server.fault (server.parse_uuid user_id) _ (λ f. s) s
              (λ u p.
                put_device-Settled u fingerprint name now w'.tick ts w'
                  (find (device_of u fingerprint) w'.db.devices) s))
            (λ row w'' s'. pure-Leads _ s') (λ e v s'. s'))
        (λ e v s. s)
