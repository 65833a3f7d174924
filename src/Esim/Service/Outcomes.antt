-- ===== src/Esim/Service/Outcomes.antt =====
-- Where the parts of the eSIM operations lead: the check of the owner, and the provider's calls.
use aerial_ran_platform.Base.{String, Option, none, some, List, ◌≡◌, refl, eq_iff, str_eq, ap}
use aerial_ran_platform.Go.Errors.{Err}
use aerial_ran_platform.Go.Exec.{Result, ok, err, Exec, Leads, Outcome}
use aerial_ran_platform.Go.Exec.Outcomes.{
  weaken, pure-Leads, fail-Leads, bind-Leads, if-Leads, attempt-Leads,
}
use aerial_ran_platform.Go.Postgres.{World}
use aerial_ran_platform.Esim.Model.{Sentinel, Esim, EsimRow, Data}
use aerial_ran_platform.Esim.Repository.Outcomes.{Finds, Unchanged, SameEsims, get_esim-Leads}
use aerial_ran_platform.Esim.Service.{Service, kept, ask, joined, consult, owned_by_org, withdraw}

module _ {V : Type 0} where
  -- `w'` is `w` but for what the provider keeps, which is `v`.
  abbrev pub Moved : World (Data V) → V → World (Data V) → Type 0
  Moved w v w' = w'.db ≡ record w.db { vendor = v }

  kept-Outcome :
      {A : Type 0} (w : World (Data V)) (x : Result (Err Sentinel) A × V)
      → Outcome
          (λ a w'. (x.0 ≡ ok a) × Moved w x.1 w')
          (λ e w'. (x.0 ≡ err e) × Moved w x.1 w')
          (kept w x)
  kept-Outcome w (ok a, v) = (refl, refl)
  kept-Outcome w (err e, v) = (refl, refl)

  pub ask-Leads :
      {A : Type 0} (m : Exec V (Err Sentinel) A) (w : World (Data V))
      → Leads
          (λ a w'. ((m w.db.vendor).0 ≡ ok a) × Moved w (m w.db.vendor).1 w')
          (λ e w'. ((m w.db.vendor).0 ≡ err e) × Moved w (m w.db.vendor).1 w')
          (ask m)
          w
  unfolding ask
  ask-Leads m w = record { at = kept-Outcome w (m w.db.vendor) }

  pub consult-Leads :
      {A : Type 0} (m : Exec V (Err Sentinel) A) (w : World (Data V))
      → Leads
          (λ a w'. ((m w.db.vendor).0 ≡ ok a) × Moved w (m w.db.vendor).1 w')
          (λ e w'. Moved w (m w.db.vendor).1 w')
          (consult m)
          w
  unfolding consult
  consult-Leads m w =
      attempt-Leads joined (ask-Leads m w) (λ a w' h. pure-Leads _ h) (λ e w' h. fail-Leads _ h.1)

  -- A call of the provider leaves the eSIMs alone.
  pub consult-SameEsims :
      {A : Type 0} (m : Exec V (Err Sentinel) A) (w : World (Data V))
      → Leads (λ a w'. SameEsims w.db w') (λ e w'. SameEsims w.db w') (consult m) w
  consult-SameEsims m w =
      weaken (consult-Leads m w) (λ a w' h. ap (λ (d : Data V). d.esims) h.1)
        (λ e w' h. ap (λ (d : Data V). d.esims) h)

  module _ (svc : Service V) where
    -- `e` is the eSIM of `id`, and its organisation is the caller's.
    pub record Owns (org_id id : String) (rows : List EsimRow) (e : Esim) : Type 0 where
      pub finds : Finds svc.repo id rows e
      pub open finds use *
      pub mine : e.org_id ≡ org_id

    pub owned_by_org-Leads :
        (org_id id : String) (w : World (Data V))
        → Leads
            (λ e w'. Owns org_id id w.db.esims e × (w'.db ≡ w.db))
            (Unchanged w.db)
            (owned_by_org svc org_id id)
            w
    unfolding owned_by_org
    owned_by_org-Leads org_id id w =
        bind-Leads (get_esim-Leads svc.repo id w)
          (λ e w' (finds, same).
            if-Leads (str_eq e.org_id org_id)
              (λ t. pure-Leads _ (record { finds = finds; mine = (eq_iff _ _).0 t }, same))
              (λ f. fail-Leads _ same))
          (λ e w' same. same)

    -- Whatever the provider says to a cancellation, the operation goes on.
    pub withdraw-Leads :
        (ref : Option String) (w : World (Data V))
        → Leads (λ _ w'. SameEsims w.db w') (λ e w'. ⊥) (withdraw svc ref) w
    withdraw-Leads none w = pure-Leads _ refl
    withdraw-Leads (some ref) w =
        attempt-Leads _ (ask-Leads (svc.prov.cancel ref) w)
          (λ a w' (_, m). pure-Leads _ (ap (λ (d : Data V). d.esims) m))
          (λ e w' (_, m). pure-Leads _ (ap (λ (d : Data V). d.esims) m))
