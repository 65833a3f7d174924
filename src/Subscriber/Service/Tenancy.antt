-- ===== src/Subscriber/Service/Tenancy.antt =====
-- The operations by id change no row of another organisation.
use aerial_ran_platform.Base.{ℕ, String, Option, some, ◌≡◌, refl, sym, ap, ◌∙◌, ◌≢◌, find}
use mathlib.Core.Option.{some-injective}
use native.Mathlib.Decide.{ℕ_discrete}
use aerial_ran_platform.Go.Exec.{Leads, ◌>>=◌, ◌>>◌}
use aerial_ran_platform.Go.Exec.Outcomes.{weaken, bind-Leads}
use aerial_ran_platform.Go.Postgres.{Fault, World}
use aerial_ran_platform.Subscriber.Model.{Sim, SimRow, Data}
use aerial_ran_platform.Subscriber.Core.{upsert}
use aerial_ran_platform.Subscriber.Core.Documents.{upsert-Leads, delete-Leads}
use aerial_ran_platform.Subscriber.Repository.{update_status, has_id, with_status}
use aerial_ran_platform.Subscriber.Repository.Outcomes.{SetsStatus, update_status-Leads}
use aerial_ran_platform.Subscriber.Consistency.{find-update_ne}
use aerial_ran_platform.Subscriber.Service.{
  Service, owned_by_org, with_core, deprovision, suspend, terminate, resume, subscriber_of, Op,
}
use aerial_ran_platform.Subscriber.Service.Outcomes.{
  Owns, owned_by_org-Leads, wrap-Leads, with_core-Leads,
}

-- Every row of an organisation other than `org_id` stands in `t'` as it stands in `t`.
abbrev pub KeepsOthers : Service → String → Data → Data → Type 0
KeepsOthers svc org_id t t' =
    (k : ℕ) (r : SimRow)
    → find (has_id k) t.sims ≡ some r
    → svc.repo.show_uuid r.org_id ≢ org_id
    → find (has_id k) t'.sims ≡ some r

module _ (svc : Service) (org_id id : String) where
  abbrev SameRows : Data → World Data → Type 0
  SameRows t w = w.db.sims ≡ t.sims

  same_rows : (t : Data) (w : World Data) → SameRows t w → KeepsOthers svc org_id t w.db
  same_rows t w same k r found other = ap (find (has_id k)) same ∙ found

  others_kept :
      (status : String) (t : Data) (sim : Sim) (w : World Data) (t' : Data)
      → Owns svc org_id id t.sims sim
      → SameRows t w
      → SetsStatus svc.repo id status w.db t'
      → KeepsOthers svc org_id t t'
  others_kept status t sim w t' owns same s k r found other = elim (ℕ_discrete s.key k) [
    | yes e ↦ absurd (other (mine e))
    | no ne ↦
        ap (find (has_id k)) s.sims
        ∙ find-update_ne s.key k (with_status status s.now) w.db.sims (λ x. refl) ne
        ∙ ap (find (has_id k)) same
        ∙ found
  ]
    where
      mine : s.key ≡ k → svc.repo.show_uuid r.org_id ≡ org_id
      mine e =
          let keys : owns.finds.key ≡ k =
            some-injective _ _ (sym owns.finds.parsed ∙ s.parsed) ∙ e in
          let rows : owns.finds.row ≡ r =
            some-injective _ _
              (sym owns.finds.found ∙ ap (λ (n : ℕ). find (has_id n) t.sims) keys ∙ found) in
          ap (λ (x : SimRow). svc.repo.show_uuid x.org_id) (sym rows)
          ∙ ap (λ (x : Sim). x.org_id) (sym owns.finds.scanned)
          ∙ owns.mine

  -- Any change of the core between the check of the owner and the change of the status.
  by_id-KeepsOthers :
      (status : String) (w : World Data) (part : Sim → (ℕ → Option Fault) → Op (Unit {0}))
      → ((t : Data) (sim : Sim) (core : ℕ → Option Fault) (w : World Data)
          → SameRows t w
          → Leads (λ _ w'. SameRows t w') (λ e w'. SameRows t w') (part sim core) w)
      → Leads
          (λ _ w'. KeepsOthers svc org_id w.db w'.db)
          (λ e w'. KeepsOthers svc org_id w.db w'.db)
          (do
            sim ← owned_by_org svc org_id id
            with_core svc svc.open5gs (part sim)
            update_status svc.repo id status)
          w
  by_id-KeepsOthers status w part step =
      bind-Leads (owned_by_org-Leads svc org_id id w)
        (λ sim w' (owns, same).
          let same' : SameRows w.db w' = ap (λ (d : Data). d.sims) same in
          bind-Leads
            (with_core-Leads svc (λ _. SameRows w.db) (part sim) w' svc.open5gs same'
              (λ core. step w.db sim core w' same'))
            (λ _ w'' same''.
              weaken (update_status-Leads svc.repo id status w'')
                (λ _ u s. others_kept status w.db sim w'' u.db owns same'' s)
                (λ e u k. same_rows w.db u (ap (λ (d : Data). d.sims) k ∙ same'')))
            (λ e u k. same_rows w.db u k))
        (λ e u k. same_rows w.db u (ap (λ (d : Data). d.sims) k))

  -- Whatever `Suspend`, `Resume` or `Terminate` returns, and whatever fails on the way, the rows
  -- of organisations other than the caller's stand as they stood.
  pub other_tenants_untouched :
      (w : World Data)
      → Leads
          (λ _ w'. KeepsOthers svc org_id w.db w'.db)
          (λ e w'. KeepsOthers svc org_id w.db w'.db)
          (suspend svc org_id id)
          w
        × Leads
            (λ _ w'. KeepsOthers svc org_id w.db w'.db)
            (λ e w'. KeepsOthers svc org_id w.db w'.db)
            (resume svc org_id id)
            w
        × Leads
            (λ _ w'. KeepsOthers svc org_id w.db w'.db)
            (λ e w'. KeepsOthers svc org_id w.db w'.db)
            (terminate svc org_id id)
            w
  unfolding suspend resume terminate
  other_tenants_untouched w = (
    by_id-KeepsOthers "suspended" w (deprovision svc) removing,
    by_id-KeepsOthers "active" w (λ sim core. upsert core (subscriber_of sim)) adding,
    by_id-KeepsOthers "terminated" w (deprovision svc) removing,
  )
    where
      removing :
          (t : Data) (sim : Sim) (core : ℕ → Option Fault) (v : World Data)
          → SameRows t v
          → Leads (λ _ w'. SameRows t w') (λ e w'. SameRows t w') (deprovision svc sim core) v
      removing t sim core v same = wrap-Leads svc _ (
          weaken (delete-Leads core sim.imsi v) (λ _ u e. ap (λ (d : Data). d.sims) e ∙ same)
            (λ e u k. ap (λ (d : Data). d.sims) k ∙ same))

      adding :
          (t : Data) (sim : Sim) (core : ℕ → Option Fault) (v : World Data)
          → SameRows t v
          → Leads
              (λ _ w'. SameRows t w')
              (λ e w'. SameRows t w')
              (upsert core (subscriber_of sim))
              v
      adding t sim core v same =
          weaken (upsert-Leads core (subscriber_of sim) v)
            (λ _ u e. ap (λ (d : Data). d.sims) e ∙ same)
            (λ e u k. ap (λ (d : Data). d.sims) k ∙ same)
