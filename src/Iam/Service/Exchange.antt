-- ===== src/Iam/Service/Exchange.antt =====
-- The steps of `Refresh`: issuing tokens, exchanging one, answering a replay.
use aerial_ran_platform.Base.{
  ℕ, String, false, some, List, ◌≡◌, refl, sym, ap, ◌∙◌, inl, inr, is_some, ltb, find, update,
  str_eq,
}
use mathlib.Core.Option.{some-injective}
use mathlib.Core.Path.{subst}
use aerial_ran_platform.Go.Exec.{Result, ok, err, Leads}
use aerial_ran_platform.Go.Exec.Outcomes.{
  weaken, pure-Leads, fail-Leads, bind-Leads, attempt-Leads, if-Leads, gets-Leads,
}
use aerial_ran_platform.Go.Postgres.{World, ReadsBack}
use aerial_ran_platform.Iam.Model.{
  token_reuse, TokenRow, Data, User, RefreshToken, TokenPair, valid, revoked,
}
use aerial_ran_platform.Iam.Repository.{has_hash, live_hash, live_family, revoke_at, to_token}
use aerial_ran_platform.Iam.Repository.Spent.{IsSpent, add-IsSpent}
use aerial_ran_platform.Iam.Repository.Outcomes.{
  SameTokens, Reads, revoke_token-Leads, revoke_family-Leads, get_user_by_id-Leads, checked-Leads,
  upsert_device-Leads,
}
use aerial_ran_platform.Iam.Repository.Storing.{IsStored, store-Leads}
use aerial_ran_platform.Iam.Service.{
  Service, issue_tokens, outside, device_for, rotate, reuse_response, new_token,
}
use aerial_ran_platform.Iam.Service.Tokens.{
  IsRotated, OnlyRevokes, IsRevokedFamily, IsDenied, update-IsRevokedFamily, revoke-IsSpent,
}

module _ (svc : Service) where
  outside-Leads :
      {A : Type 0} (r : Result String A) (ts : List TokenRow) (w : World Data)
      → SameTokens ts w
      → Leads (λ _ w'. SameTokens ts w') (λ e w'. SameTokens ts w') (outside svc r) w
  outside-Leads (ok a) ts w same = pure-Leads _ same
  outside-Leads (err e) ts w same = fail-Leads _ same

  -- A pair of tokens, with the row of its refresh token.
  pub issue_tokens-Leads :
      (u : User) (device_id family_id : String) (ts : List TokenRow) (w : World Data)
      → SameTokens ts w
      → Leads
          (λ pair w'.
            (token : RefreshToken) × (token.user_id ≡ u.id)
            × (token.family_id ≡ family_id)
            × (token.token_hash ≡ svc.hash_token pair.refresh_token)
            × (pair.user ≡ u)
            × IsStored svc.repo token ts w')
          (λ e w'. SameTokens ts w')
          (issue_tokens svc u device_id family_id)
          w
  unfolding issue_tokens
  issue_tokens-Leads u device_id family_id ts w same =
      bind-Leads {Bad' = λ e v. SameTokens ts v} {Good' = λ _ v. SameTokens ts v}
        (gets-Leads _ same)
        (λ n w' s.
          bind-Leads (outside-Leads (svc.sign n _) ts w' s)
            (λ access w'' s'.
              let token : RefreshToken =
                new_token svc u device_id family_id (svc.random_token n) (svc.clock n) in
              bind-Leads (store-Leads svc.repo svc.clock token ts w'' s')
                (λ _ v stored. pure-Leads _ (token, refl, refl, refl, refl, stored)) (λ e v k. k))
            (λ e v k. k))
        (λ e v k. k)

  pub device_for-Leads :
      (u : User) (fingerprint name device_id : String) (ts : List TokenRow) (w : World Data)
      → SameTokens ts w
      → Leads
          (λ _ w'. SameTokens ts w')
          (λ e w'. SameTokens ts w')
          (device_for svc u fingerprint name device_id)
          w
  device_for-Leads u fingerprint name device_id ts w same =
      if-Leads (str_eq fingerprint "") (λ _. pure-Leads _ same)
        (λ _.
          bind-Leads (upsert_device-Leads svc.repo svc.clock u.id fingerprint name ts w same)
            (λ d w' s. pure-Leads _ s) (λ e w' s. s))

  module _ (reads_back : ReadsBack svc.repo) (raw : String) (ts : List TokenRow) where
    -- From the stored row to the whole exchange.
    rotated :
        (old : TokenRow) (clock now : ℕ) (u : User) (pair : TokenPair) (token : RefreshToken)
        (w : World Data)
        → find (has_hash (svc.hash_token raw)) ts ≡ some old
        → (is_some old.revoked_at ≡ false) × (ltb old.expires_at clock ≡ false)
        → Reads svc.repo svc.clock (svc.repo.show_uuid old.user_id) u
        → token.user_id ≡ u.id
        → token.family_id ≡ svc.repo.show_uuid old.family_id
        → token.token_hash ≡ svc.hash_token pair.refresh_token
        → IsStored svc.repo token (update (live_hash (svc.hash_token raw)) (revoke_at now) ts) w
        → IsRotated svc raw ts pair w
    rotated old clock now u pair token w found (was_live, in_time) (k, parsed, named) user family
          hash stored =
        let key : k ≡ old.user_id = some-injective _ _ (sym parsed ∙ reads_back old.user_id) in
        record {
          old = old;
          row = stored.row;
          now = now;
          clock = clock;
          found = found;
          was_live = was_live;
          in_time = in_time;
          tokens = stored.tokens;
          same_user =
              some-injective _ _
                (sym stored.user ∙ ap svc.repo.parse_uuid (user ∙ named) ∙ reads_back k)
              ∙ key;
          same_family =
              some-injective _ _
                (sym stored.family ∙ ap svc.repo.parse_uuid family ∙ reads_back old.family_id);
          hash = stored.hash ∙ hash;
          live = stored.live;
          spent = subst (IsSpent (svc.hash_token raw)) (sym stored.tokens) (
              add-IsSpent (svc.hash_token raw) stored.row _ stored.fresh
                (revoke-IsSpent (svc.hash_token raw) now ts old found));
        }

    -- A live token is exchanged.
    pub exchange-Leads :
        (fingerprint : String) (old : TokenRow) (clock : ℕ) (w : World Data)
        → SameTokens ts w
        → find (has_hash (svc.hash_token raw)) ts ≡ some old
        → (is_some old.revoked_at ≡ false) × (ltb old.expires_at clock ≡ false)
        → Leads
            (IsRotated svc raw ts)
            (OnlyRevokes ts)
            (rotate svc (svc.hash_token raw) fingerprint (valid (to_token svc.repo old)))
            w
    exchange-Leads fingerprint old clock w same found live =
        let h : String = svc.hash_token raw in
        let id : String = svc.repo.show_uuid old.user_id in
        bind-Leads (revoke_token-Leads svc.repo svc.clock h w)
          (λ _ w1 (now, s1).
            let ts1 : List TokenRow = update (live_hash h) (revoke_at now) ts in
            let s1' : SameTokens ts1 w1 = s1 ∙ ap (update (live_hash h) (revoke_at now)) same in
            bind-Leads (get_user_by_id-Leads svc.repo svc.clock id ts1 w1 s1')
              (λ l w2 (k, s2).
                bind-Leads (checked-Leads svc.repo svc.clock id l ts1 w2 k s2)
                  (λ u w3 (reads, s3).
                    bind-Leads (device_for-Leads u fingerprint "" _ ts1 w3 s3)
                      (λ device_id w4 s4.
                        weaken (issue_tokens-Leads u device_id _ ts1 w4 s4)
                          (λ pair w5 (token, user, family, hash, _, stored).
                            rotated old clock now u pair token w5 found live reads user family hash
                              stored)
                          (λ e v s. inr (_, now, s)))
                      (λ e v s. inr (_, now, s)))
                  (λ e v s. inr (_, now, s)))
              (λ e v s. inr (_, now, s)))
          (λ e v s. inl (s ∙ same))

    -- A replayed token revokes its family, or nothing when that fails.
    pub replay-Leads :
        (fingerprint : String) (old : TokenRow) (w : World Data)
        → SameTokens ts w
        → Leads
            (λ _ _. ⊥)
            (IsDenied old.family_id ts)
            (rotate svc (svc.hash_token raw) fingerprint (revoked (to_token svc.repo old)))
            w
    replay-Leads fingerprint old w same =
        attempt-Leads (reuse_response svc)
          (revoke_family-Leads svc.repo svc.clock (svc.repo.show_uuid old.family_id) w)
          (λ _ w' (k, now, p, s).
            let key : k ≡ old.family_id = some-injective _ _ (sym p ∙ reads_back old.family_id) in
            fail-Leads _ (
              inr (
                refl,
                subst (IsRevokedFamily old.family_id)
                    (sym (
                      s
                      ∙ ap (λ (f : ℕ). update (live_family f) (revoke_at now) w.db.refresh_tokens)
                          key))
                    (update-IsRevokedFamily old.family_id now w.db.refresh_tokens),
              )))
          (λ e w' (s, foreign). fail-Leads _ (inl (s ∙ same, foreign token_reuse)))
