-- ===== src/Iam/Service/Tokens.antt =====
-- Refresh tokens before and after an exchange or a replay.
use aerial_ran_platform.Base.{
  ℕ, String, Bool, true, false, none, some, List, [], ◌∷◌, ◌≡◌, refl, ◌∙◌, ◌⊎◌, inl, inr, is_some,
  ltb, find, update, Bool-cases, arith, All,
}
use aerial_ran_platform.Go.Errors.{Err, sentinel, errors_is}
use aerial_ran_platform.Go.Postgres.{World}
use aerial_ran_platform.Iam.Model.{
  Sentinel, same as is_same, token_reuse, TokenRow, Data, RefreshToken, TokenPair, valid, revoked,
  expired,
}
use aerial_ran_platform.Iam.Repository.{has_hash, live_hash, live_family, revoke_at}
use aerial_ran_platform.Iam.Repository.Sessions.{looked}
use aerial_ran_platform.Iam.Repository.Spent.{IsSpent, Spent}
use aerial_ran_platform.Iam.Repository.Outcomes.{SameTokens}
use aerial_ran_platform.Iam.Service.{Service}

-- From `ts` the token was exchanged: it was live and unexpired at some reading of the clock, it is
-- revoked now, and one new live token of the same user and family stands for the returned text.
pub record IsRotated (svc : Service) (raw : String) (ts : List TokenRow) (pair : TokenPair)
    (w : World Data) : Type 0 where
  pub old : TokenRow
  pub row : TokenRow
  pub now : ℕ
  pub clock : ℕ
  pub found : find (has_hash (svc.hash_token raw)) ts ≡ some old
  pub was_live : is_some old.revoked_at ≡ false
  pub in_time : ltb old.expires_at clock ≡ false
  pub tokens :
      w.db.refresh_tokens ≡ row ∷ update (live_hash (svc.hash_token raw)) (revoke_at now) ts
  pub same_user : row.user_id ≡ old.user_id
  pub same_family : row.family_id ≡ old.family_id
  pub hash : row.token_hash ≡ svc.hash_token pair.refresh_token
  pub live : row.revoked_at ≡ none
  pub spent : Spent (svc.hash_token raw) w.db

-- No token was added, and none that was revoked is live again.
abbrev pub OnlyRevokes : List TokenRow → Err Sentinel → World Data → Type 0
OnlyRevokes ts e w =
    SameTokens ts w
    ⊎ ((q : TokenRow → Bool) × (now : ℕ) × SameTokens (update q (revoke_at now) ts) w)

-- No token of the family is live.
abbrev pub IsRevokedFamily : ℕ → List TokenRow → Type 0
IsRevokedFamily f ts = All (λ r. live_family f r ≡ false) ts

-- A reuse is reported as handled only with the whole family revoked; any other error is no claim
-- of that, and changed no token.
abbrev pub IsDenied : ℕ → List TokenRow → Err Sentinel → World Data → Type 0
IsDenied family ts e w =
    (SameTokens ts w × (errors_is is_same e token_reuse ≡ false))
    ⊎ ((e ≡ sentinel token_reuse) × IsRevokedFamily family w.db.refresh_tokens)

pub update-IsRevokedFamily :
    (f now : ℕ) (ts : List TokenRow) → IsRevokedFamily f (update (live_family f) (revoke_at now) ts)
update-IsRevokedFamily f now [] = tt
update-IsRevokedFamily f now (t ∷ ts) = elim (Bool-cases (live_family f t)) [
  | inl e ↦ (rw e (ground arith), update-IsRevokedFamily f now ts)
  | inr e ↦ (rw e e, update-IsRevokedFamily f now ts)
]

pub revoke-IsSpent :
    (h : String) (now : ℕ) (ts : List TokenRow) (r : TokenRow)
    → find (has_hash h) ts ≡ some r
    → IsSpent h (update (live_hash h) (revoke_at now) ts)
revoke-IsSpent h now [] r f = cc
revoke-IsSpent h now (t ∷ ts) r f = elim (Bool-cases (has_hash h t)) [
  | inl e ↦ elim (Bool-cases (is_some t.revoked_at)) [
    | inl c ↦ (t, rw (e, c, e) refl, c)
    | inr c ↦ (revoke_at now t, rw (e, c, e) refl, refl)
  ]
  | inr e ↦
      let rest : find (has_hash h) ts ≡ some r = ground arith in
      let (r', f', s') = revoke-IsSpent h now ts r rest in (r', ground arith, s')
]

pub looked_revoked :
    (t : RefreshToken) (now : ℕ) → is_some t.revoked_at ≡ true → looked t now ≡ revoked t
looked_revoked t now c = rw c refl

pub looked_valid :
    (t : RefreshToken) (now : ℕ) (rt : RefreshToken)
    → valid rt ≡ looked t now
    → (rt ≡ t) × (is_some t.revoked_at ≡ false) × (ltb t.expires_at now ≡ false)
looked_valid t now rt e = elim (Bool-cases (is_some t.revoked_at)) [
  | inl c ↦ let clash : valid rt ≡ revoked t = e ∙ rw c refl in cc
  | inr c ↦ elim (Bool-cases (ltb t.expires_at now)) [
    | inl d ↦ let clash : valid rt ≡ expired t = e ∙ rw (c, d) refl in cc
    | inr d ↦ let same : valid rt ≡ valid t = e ∙ rw (c, d) refl in (cc, c, d)
  ]
]
