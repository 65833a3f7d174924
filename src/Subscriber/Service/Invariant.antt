-- ===== src/Subscriber/Service/Invariant.antt =====
-- The table of SIMs and the core's collection stay consistent through any requests and faults.
use aerial_ran_platform.Base.{
  ℕ, String, Option, ◌≡◌, refl, sym, ap, ◌∙◌, update, exists, delete_first,
}
use mathlib.Core.Path.{subst}
use aerial_ran_platform.Go.Exec.{Leads, ◌>>=◌, ◌>>◌}
use aerial_ran_platform.Go.Exec.Outcomes.{weaken, bind-Leads}
use aerial_ran_platform.Go.Postgres.{Fault, World}
use aerial_ran_platform.Subscriber.Model.{Sim, SimRow, Data, Document}
use aerial_ran_platform.Subscriber.Core.{has_imsi, document, upsert, put_document}
use aerial_ran_platform.Subscriber.Core.Documents.{
  upsert-Leads, delete-Leads, put_document-All, put_document-HasDistinctImsis, delete_first-All,
  delete_first-HasDistinctImsis,
}
use aerial_ran_platform.Subscriber.Repository.{has_id, update_status}
use aerial_ran_platform.Subscriber.Repository.Outcomes.{SetsStatus, update_status-Leads}
use aerial_ran_platform.Subscriber.Consistency.{
  IsConsistent, IsOnRecord, has_row_imsi, update-HasDistinctRows, All-update, find-IsOnRecord,
}
use aerial_ran_platform.Subscriber.Service.{
  Service, Op, owned_by_org, with_core, deprovision, subscriber_of,
}
use aerial_ran_platform.Subscriber.Service.Outcomes.{
  Owns, owned_by_org-Leads, with_core-Leads, wrap-Leads,
}

-- A world whose data are consistent.
abbrev pub Sound : World Data → Type 0
Sound w = IsConsistent w.db

-- Both ways lead to consistent data.
abbrev pub StaysSound : {A : Type 0} → Op A → World Data → Type 0
StaysSound m w = Leads (λ _ w'. Sound w') (λ e w'. Sound w') m w

put-IsConsistent :
    (d : Document) (t : Data)
    → IsConsistent t
    → IsOnRecord t.sims d
    → IsConsistent (record t { subscribers = put_document d t.subscribers })
put-IsConsistent d t c k = record {
  rows = c.rows;
  documents = put_document-HasDistinctImsis d t.subscribers c.documents;
  known = put_document-All (IsOnRecord t.sims) d t.subscribers k c.known;
}

delete-IsConsistent :
    (x : String) (t : Data)
    → IsConsistent t
    → IsConsistent (record t { subscribers = delete_first (has_imsi x) t.subscribers })
delete-IsConsistent x t c = record {
  rows = c.rows;
  documents = delete_first-HasDistinctImsis x t.subscribers c.documents;
  known = delete_first-All (IsOnRecord t.sims) x t.subscribers c.known;
}

pub update-IsConsistent :
    (k : ℕ) (f : SimRow → SimRow) (t : Data)
    → ((r : SimRow) → ((f r).id ≡ r.id) × ((f r).imsi ≡ r.imsi))
    → IsConsistent t
    → IsConsistent (record t { sims = update (has_id k) f t.sims })
update-IsConsistent k f t same c = record {
  rows = update-HasDistinctRows (has_id k) f t.sims same c.rows;
  documents = c.documents;
  known = All-update t.subscribers (has_id k) f t.sims (λ r. (same r).1) c.known;
}

module _ (svc : Service) where
  sets-IsConsistent :
      (id status : String) (t t' : Data)
      → IsConsistent t
      → SetsStatus svc.repo id status t t'
      → IsConsistent t'
  sets-IsConsistent id status t t' c s =
      subst IsConsistent (λ i. record { sims = sym s.sims i; subscribers = sym s.subscribers i })
        (update-IsConsistent s.key _ t (λ r. (refl, refl)) c)

  pub keeps : (w : World Data) (t : Data) → IsConsistent t → w.db ≡ t → Sound w
  keeps w t c same = subst IsConsistent (sym same) c

  status-StaysSound :
      (id status : String) (w : World Data)
      → Sound w
      → StaysSound (update_status svc.repo id status) w
  status-StaysSound id status w c =
      weaken (update_status-Leads svc.repo id status w)
        (λ _ w' s. sets-IsConsistent id status w.db w'.db c s) (λ e w' same. keeps w' w.db c same)

  -- A SIM that the caller owns is on record.
  owned-IsOnRecord :
      (org_id id : String) (t t' : Data) (sim : Sim)
      → Owns svc org_id id t.sims sim
      → t' ≡ t
      → IsOnRecord t'.sims (document (subscriber_of sim))
  owned-IsOnRecord org_id id t t' sim o same =
      ap (λ (d : Data). exists (has_row_imsi sim.imsi) d.sims) same
      ∙ ap (λ (s : Sim). exists (has_row_imsi s.imsi) t.sims) o.finds.scanned
      ∙ find-IsOnRecord o.finds.key t.sims o.finds.found

  pub by_id-StaysSound :
      (org_id id status : String) (part : Sim → (ℕ → Option Fault) → Op (Unit {0})) (w : World Data)
      → Sound w
      → ((sim : Sim) (core : ℕ → Option Fault) (w' : World Data)
          → Sound w'
          → IsOnRecord w'.db.sims (document (subscriber_of sim))
          → StaysSound (part sim core) w')
      → StaysSound
          (do
            sim ← owned_by_org svc org_id id
            with_core svc svc.open5gs (part sim)
            update_status svc.repo id status)
          w
  by_id-StaysSound org_id id status part w c step =
      bind-Leads (owned_by_org-Leads svc org_id id w)
        (λ sim w' (o, same).
          let c' : Sound w' = keeps w' w.db c same in
          bind-Leads
            (with_core-Leads svc (λ _. Sound) (part sim) w' svc.open5gs c'
              (λ core. step sim core w' c' (owned-IsOnRecord org_id id w.db w'.db sim o same)))
            (λ _ w'' c''. status-StaysSound id status w'' c'') (λ e w'' c''. c''))
        (λ e w' same. keeps w' w.db c same)

  pub upsert-StaysSound :
      (sim : Sim) (core : ℕ → Option Fault) (w : World Data)
      → Sound w
      → IsOnRecord w.db.sims (document (subscriber_of sim))
      → StaysSound (upsert core (subscriber_of sim)) w
  upsert-StaysSound sim core w c k =
      weaken (upsert-Leads core (subscriber_of sim) w)
        (λ _ w' e. subst IsConsistent (sym e) (put-IsConsistent _ w.db c k))
        (λ e w' same. keeps w' w.db c same)

  pub deprovision-StaysSound :
      (sim : Sim) (core : ℕ → Option Fault) (w : World Data)
      → Sound w
      → StaysSound (deprovision svc sim core) w
  deprovision-StaysSound sim core w c = wrap-Leads svc _ (
      weaken (delete-Leads core sim.imsi w)
        (λ _ w' e. subst IsConsistent (sym e) (delete-IsConsistent sim.imsi w.db c))
        (λ e w' same. keeps w' w.db c same))
