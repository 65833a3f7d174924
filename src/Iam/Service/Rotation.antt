-- ===== src/Iam/Service/Rotation.antt =====
-- What `Refresh` does to the refresh tokens: rotation, and the answer to a replay.
use aerial_ran_platform.Base.{
  String, true, some, List, ◌≡◌, sym, ap, ◌∙◌, inl, inr, is_some, find, update,
}
use mathlib.Core.Option.{some-injective}
use mathlib.Core.Path.{subst}
use aerial_ran_platform.Go.Exec.{Leads}
use aerial_ran_platform.Go.Exec.Outcomes.{weaken, fail-Leads, bind-Leads, attempt-Leads}
use aerial_ran_platform.Go.Postgres.{World, ReadsBack}
use aerial_ran_platform.Iam.Model.{TokenRow, Data, RefreshToken, Looked, valid, revoked, expired}
use aerial_ran_platform.Iam.Repository.{has_hash, live_family, revoke_at, to_token}
use aerial_ran_platform.Iam.Repository.Sessions.{looked}
use aerial_ran_platform.Iam.Repository.Outcomes.{
  SameTokens, IsLookedUp, find_refresh_token-Leads, revoke_family-Leads,
}
use aerial_ran_platform.Iam.Service.Spent.{Request, serve_all, serve_all-Spent}
use aerial_ran_platform.Iam.Service.{Service, rotate, refresh, reuse_response}
use aerial_ran_platform.Iam.Service.Tokens.{
  IsRotated, OnlyRevokes, IsDenied, looked_revoked, looked_valid,
}
use aerial_ran_platform.Iam.Service.Exchange.{exchange-Leads, replay-Leads}

module _ (svc : Service) where
  -- When UUIDs read back, a successful `Refresh` has exchanged the presented token: it was live
  -- and unexpired, it is revoked now, and the one new token, live and under the hash of the
  -- returned text, belongs to the same user and the same family. After an error no token was added
  -- and no revoked one is live again.
  pub refresh_lem :
      (raw fingerprint : String) (w : World Data)
      → ReadsBack svc.repo
      → Leads
          (IsRotated svc raw w.db.refresh_tokens)
          (OnlyRevokes w.db.refresh_tokens)
          (refresh svc raw fingerprint)
          w
  unfolding refresh
  refresh_lem raw fingerprint w reads_back =
      bind-Leads (find_refresh_token-Leads svc.repo svc.clock (svc.hash_token raw) w)
        (λ l w' (is, s). go l w' is (ap (λ (d : Data). d.refresh_tokens) s))
        (λ e w' s. inl (ap (λ (d : Data). d.refresh_tokens) s.0))
    where
      go :
          (l : Looked) (w' : World Data)
          → IsLookedUp svc.repo (svc.hash_token raw) w.db.refresh_tokens l
          → SameTokens w.db.refresh_tokens w'
          → Leads
              (IsRotated svc raw w.db.refresh_tokens)
              (OnlyRevokes w.db.refresh_tokens)
              (rotate svc (svc.hash_token raw) fingerprint l)
              w'
      go (valid rt) w' is s =
          let (rt_is, was_live, in_time) =
            looked_valid (to_token svc.repo is.row) is.now rt is.looked_is in
          subst
            (λ (x : RefreshToken).
              Leads (IsRotated svc raw w.db.refresh_tokens) (OnlyRevokes w.db.refresh_tokens)
                (rotate svc (svc.hash_token raw) fingerprint (valid x)) w')
            (sym rt_is)
            (exchange-Leads svc reads_back raw w.db.refresh_tokens fingerprint is.row is.now w' s
              is.found (was_live, in_time))
      go (revoked rt) w' is s =
          attempt-Leads (reuse_response svc)
            (revoke_family-Leads svc.repo svc.clock rt.family_id w')
            (λ _ w'' (k, now, p, s').
              fail-Leads _
                (inr (live_family k, now, s' ∙ ap (update (live_family k) (revoke_at now)) s)))
            (λ e w'' (s', foreign). fail-Leads _ (inl (s' ∙ s)))
      go (expired rt) w' is s = fail-Leads _ (inl s)

  -- When UUIDs read back, a refresh token that is on record and revoked is never exchanged:
  -- `Refresh` returns an error, and that is `ErrTokenReuse` only when no token of its family is
  -- live any more; with another error no token has changed.
  pub replay_lem :
      (raw fingerprint : String) (old : TokenRow) (w : World Data)
      → ReadsBack svc.repo
      → find (has_hash (svc.hash_token raw)) w.db.refresh_tokens ≡ some old
      → is_some old.revoked_at ≡ true
      → Leads
          (λ _ _. ⊥)
          (IsDenied old.family_id w.db.refresh_tokens)
          (refresh svc raw fingerprint)
          w
  unfolding refresh
  replay_lem raw fingerprint old w reads_back found spent =
      bind-Leads
        (weaken (find_refresh_token-Leads svc.repo svc.clock (svc.hash_token raw) w) (λ l w' h. h)
          (λ e w' s. inl (ap (λ (d : Data). d.refresh_tokens) s.0, s.1)))
        (λ l w' (is, s).
          let row_is : is.row ≡ old = some-injective _ _ (sym is.found ∙ found) in
          subst
            (λ (x : Looked).
              Leads (λ _ _. ⊥) (IsDenied old.family_id w.db.refresh_tokens)
                (rotate svc (svc.hash_token raw) fingerprint x) w')
            (sym (
              is.looked_is
              ∙ ap (λ (r : TokenRow). looked (to_token svc.repo r) is.now) row_is
              ∙ looked_revoked (to_token svc.repo old) is.now spent))
            (replay-Leads svc reads_back raw w.db.refresh_tokens fingerprint old w'
              (ap (λ (d : Data). d.refresh_tokens) s)))
        (λ e w' h. h)

  -- A refresh token works once: when UUIDs read back and `Refresh` has succeeded with it, then
  -- after any requests of any clients, whatever of them fails, `Refresh` with the same token
  -- returns no tokens.
  pub used_once :
      (raw fingerprint fingerprint' : String) (rs : List Request) (w : World Data)
      → ReadsBack svc.repo
      → Leads
          (λ _ w'.
            Leads (λ _ _. ⊥) (λ _ _. Unit) (refresh svc raw fingerprint') (serve_all svc rs w'))
          (λ _ _. Unit)
          (refresh svc raw fingerprint)
          w
  used_once raw fingerprint fingerprint' rs w reads_back =
      weaken (refresh_lem raw fingerprint w reads_back)
        (λ pair w' rotated.
          let (r, found, spent) = serve_all-Spent svc (svc.hash_token raw) rs w' rotated.spent in
          weaken (replay_lem raw fingerprint' r (serve_all svc rs w') reads_back found spent)
            (λ _ _ none_returned. none_returned) (λ _ _ _. tt))
        (λ _ _ _. tt)
