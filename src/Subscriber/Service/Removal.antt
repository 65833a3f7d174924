-- ===== src/Subscriber/Service/Removal.antt =====
-- Suspending and terminating a SIM take it out of the 5G core before its status changes.
use aerial_ran_platform.Base.{
  ℕ, String, false, Option, none, some, ◌≡◌, refl, sym, ap, ◌∙◌, ◌≢◌, update, exists, delete_first,
}
use mathlib.Core.Option.{some-injective}
use aerial_ran_platform.Go.Errors.{Err}
use aerial_ran_platform.Go.Exec.{Leads, ◌>>=◌, ◌>>◌}
use aerial_ran_platform.Go.Exec.Outcomes.{weaken, bind-Leads}
use aerial_ran_platform.Go.Postgres.{Fault, World}
use aerial_ran_platform.Subscriber.Model.{Sentinel, Sim, Data}
use aerial_ran_platform.Subscriber.Core.{has_imsi}
use aerial_ran_platform.Subscriber.Core.Documents.{delete-Leads, delete_first_removes}
use aerial_ran_platform.Subscriber.Repository.{update_status, has_id, with_status}
use aerial_ran_platform.Subscriber.Repository.Outcomes.{update_status-Leads}
use aerial_ran_platform.Subscriber.Consistency.{IsConsistent}
use aerial_ran_platform.Subscriber.Service.{
  Service, owned_by_org, with_core, deprovision, suspend, terminate,
}
use aerial_ran_platform.Subscriber.Service.Outcomes.{
  Owns, owned_by_org-Leads, wrap-Leads, with_core-Leads,
}

-- From `t` to `t'` the SIM of `id`, which is the caller's, got the status, and with a core
-- configured no document of the core has its IMSI any more.
pub record IsCutOff (svc : Service) (org_id id status : String) (t t' : Data) : Type 0 where
  pub sim : Sim
  pub owned : Owns svc org_id id t.sims sim
  pub now : ℕ
  pub sims : t'.sims ≡ update (has_id owned.finds.key) (with_status status now) t.sims
  pub detached : svc.open5gs ≢ none → exists (has_imsi sim.imsi) t'.subscribers ≡ false

-- The rows are as they were.
abbrev pub KeepsRows : Data → Err Sentinel → World Data → Type 0
KeepsRows t e w = w.db.sims ≡ t.sims

module _ (svc : Service) (org_id id : String) where
  -- Once the core has been asked, with success, to forget the SIM.
  abbrev Detached : Data → Sim → Option (ℕ → Option Fault) → World Data → Type 0
  Detached t sim o w =
      (w.db.sims ≡ t.sims) × (o ≢ none → exists (has_imsi sim.imsi) w.db.subscribers ≡ false)

  detached :
      (t t' : Data) (sim : Sim) (core : ℕ → Option Fault) (w : World Data)
      → IsConsistent t
      → t' ≡ t
      → w.db ≡ record t' { subscribers = delete_first (has_imsi sim.imsi) t'.subscribers }
      → Detached t sim (some core) w
  detached t t' sim core w c same e =
      let gone : (d : Data) → Data =
        λ d. record d { subscribers = delete_first (has_imsi sim.imsi) d.subscribers } in
      let whole : w.db ≡ gone t = e ∙ ap gone same in
      (
        ap (λ (d : Data). d.sims) whole,
        λ _.
            ap (λ (d : Data). exists (has_imsi sim.imsi) d.subscribers) whole
            ∙ delete_first_removes sim.imsi t.subscribers c.documents,
      )

  deprovision-Leads :
      (t : Data) (sim : Sim) (w : World Data) (core : ℕ → Option Fault)
      → IsConsistent t
      → w.db ≡ t
      → Leads (λ _ w'. Detached t sim (some core) w') (KeepsRows t) (deprovision svc sim core) w
  deprovision-Leads t sim w core c same = wrap-Leads svc _ (
      weaken (delete-Leads core sim.imsi w) (λ _ w' e. detached t w.db sim core w' c same e)
        (λ e w' u. ap (λ (d : Data). d.sims) (u ∙ same)))

  -- The status is written when the SIM is out of the core.
  close-Leads :
      (status : String) (t : Data) (sim : Sim) (w : World Data)
      → Owns svc org_id id t.sims sim
      → Detached t sim svc.open5gs w
      → Leads
          (λ _ w'. IsCutOff svc org_id id status t w'.db)
          (KeepsRows t)
          (update_status svc.repo id status)
          w
  close-Leads status t sim w owns (rows, gone) =
      weaken (update_status-Leads svc.repo id status w)
        (λ _ w' s. record {
          sim = sim;
          owned = owns;
          now = s.now;
          sims =
              s.sims
              ∙ ap (λ (k : ℕ). update (has_id k) (with_status status s.now) w.db.sims)
                  (some-injective _ _ (sym s.parsed ∙ owns.finds.parsed))
              ∙ ap (update (has_id owns.finds.key) (with_status status s.now)) rows;
          detached = λ some_core. ap (exists (has_imsi sim.imsi)) s.subscribers ∙ gone some_core;
        })
        (λ e w' u. ap (λ (d : Data). d.sims) u ∙ rows)

  removal-Leads :
      (status : String) (w : World Data)
      → IsConsistent w.db
      → Leads
          (λ _ w'. IsCutOff svc org_id id status w.db w'.db)
          (KeepsRows w.db)
          (do
            sim ← owned_by_org svc org_id id
            with_core svc svc.open5gs (deprovision svc sim)
            update_status svc.repo id status)
          w
  removal-Leads status w c =
      bind-Leads (owned_by_org-Leads svc org_id id w)
        (λ sim w' (owns, same).
          bind-Leads
            (with_core-Leads svc (Detached w.db sim) (deprovision svc sim) w' svc.open5gs
              (ap (λ (d : Data). d.sims) same, λ no_core. absurd (no_core refl))
              (λ core. deprovision-Leads w.db sim w' core c same))
            (λ _ w'' h. close-Leads status w.db sim w'' owns h) (λ e w'' u. u))
        (λ e w' same. ap (λ (d : Data). d.sims) same)

  -- From consistent data, a successful `Suspend` or `Terminate` has found the caller's own SIM,
  -- changed its row alone, to "suspended" or "terminated", and, with a core configured, left no
  -- document with its IMSI in the core; after an error every row is as it was.
  pub removal_outcome :
      (w : World Data)
      → IsConsistent w.db
      → Leads
          (λ _ w'. IsCutOff svc org_id id "suspended" w.db w'.db)
          (KeepsRows w.db)
          (suspend svc org_id id)
          w
        × Leads
            (λ _ w'. IsCutOff svc org_id id "terminated" w.db w'.db)
            (KeepsRows w.db)
            (terminate svc org_id id)
            w
  unfolding suspend terminate
  removal_outcome w c = (removal-Leads "suspended" w c, removal-Leads "terminated" w c)
