-- ===== src/Esim/Service/Dating.antt =====
-- An eSIM that is active carries the time of its activation.
use aerial_ran_platform.Base.{
  ℕ, String, none, List, [], ◌∷◌, ◌≡◌, ◌≢◌, inl, inr, update, sym, ◌∙◌, arith, Bool-cases,
  Option-cases, ◌==◌, All, eq_iff,
}
use mathlib.Core.Path.{subst}
use aerial_ran_platform.Go.Postgres.{Postgres}
use aerial_ran_platform.Esim.Model.{EsimRow}
use aerial_ran_platform.Esim.Repository.{has_id, status_set}
use aerial_ran_platform.Esim.Service.Lifecycle.{Step, idle, ordered, metered, activated, cancelled}

-- A status of the life cycle; an active eSIM has an activation time.
pub record IsDated (r : EsimRow) : Type 0 where
  pub dated : r.status ≡ "active" → r.activated_at ≢ none

status_set-IsDated : (status : String) (now : ℕ) (r : EsimRow) → IsDated (status_set status now r)
status_set-IsDated status now r = record {
  dated = λ active. elim (Option-cases r.activated_at) [
    | inl e ↦ rw (e, active) (λ h. ground arith)
    | inr (a, e) ↦ rw e (λ h. ground arith)
  ];
}

pub changed-IsDated :
    (k : ℕ) (f : EsimRow → EsimRow) (t : List EsimRow)
    → ((r : EsimRow) → IsDated r → IsDated (f r))
    → All IsDated t
    → All IsDated (update (has_id k) f t)
changed-IsDated k f [] keep h = tt
changed-IsDated k f (r ∷ rs) keep (h, hs) = elim (Bool-cases (r.id == k)) [
  | inl e ↦ rw e (keep r h, changed-IsDated k f rs keep hs)
  | inr e ↦ rw e (h, changed-IsDated k f rs keep hs)
]

-- Every step keeps every active eSIM dated.
pub step-IsDated :
    (server : Postgres) (org_id : String) (t t' : List EsimRow)
    → Step server org_id t t'
    → All IsDated t
    → All IsDated t'
step-IsDated server org_id t t' (idle e) h = subst (All IsDated) (sym e) h
step-IsDated server org_id t t' (ordered row free org first undated unused e) h =
    subst (All IsDated) (sym e)
      (record { dated = λ active. absurd (not_active (sym first ∙ active)) }, h)
  where
    not_active : ◌≢◌ {A = String} "ordered" "active"
    not_active p = ground (arith, eq_iff "ordered" "active")
step-IsDated server org_id t t' (metered row key usage now at_key mine e) h =
    subst (All IsDated) (sym e) (changed-IsDated key _ t (λ r d. record { dated = d.dated }) h)
step-IsDated server org_id t t' (activated row key now at_key mine e) h =
    subst (All IsDated) (sym e)
      (changed-IsDated key _ t (λ r _. status_set-IsDated "active" now r) h)
step-IsDated server org_id t t' (cancelled row key now at_key mine e) h =
    subst (All IsDated) (sym e)
      (changed-IsDated key _ t (λ r _. status_set-IsDated "cancelled" now r) h)
