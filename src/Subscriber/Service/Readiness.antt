-- ===== src/Subscriber/Service/Readiness.antt =====
-- A new SIM from its insertion to the last read of `Create`.
use aerial_ran_platform.Base.{
  ℕ, String, false, Option, none, some, List, [], ◌∷◌, ◌≡◌, refl, sym, ap, ◌∙◌, ◌≢◌, ◌⊎◌, find,
  update, exists, arith,
}
use mathlib.Core.Option.{some-injective}
use aerial_ran_platform.Go.Errors.{Err}
use aerial_ran_platform.Go.Postgres.{Fault, World, ReadsBack}
use aerial_ran_platform.Subscriber.Model.{Sentinel, Sim, SimRow, Data, Document}
use aerial_ran_platform.Subscriber.Core.{has_imsi, document, put_document}
use aerial_ran_platform.Subscriber.Core.Documents.{find-put_document}
use aerial_ran_platform.Subscriber.Repository.{has_id, clashes, scan, provisioned}
use aerial_ran_platform.Subscriber.Repository.Outcomes.{update_none, Adds, Marks}
use aerial_ran_platform.Subscriber.Service.{Service, subscriber_of}

module _ (svc : Service) where
  -- The core has the SIM's keys under its IMSI, and the row says when that was done.
  abbrev pub InCore : SimRow → Data → Type 0
  InCore row t =
      (d : Document) × (find (has_imsi row.imsi) t.subscribers ≡ some d)
      × (d.k ≡ row.ki)
      × (d.opc ≡ row.opc)
      × (row.provisioned_at ≢ none)

  -- `t'` is `t` with one new row, active, of the organisation, whose identifier and IMSI were free.
  pub record IsAdded (org_id : String) (t t' : Data) : Type 0 where
    pub row : SimRow
    pub sims : t'.sims ≡ row ∷ t.sims
    pub free : exists (clashes row.id row.imsi) t.sims ≡ false
    pub org : svc.repo.parse_uuid org_id ≡ some row.org_id
    pub active : row.status ≡ "active"

  -- The new row is what is returned, and with a core configured it is provisioned.
  pub record IsCreated (org_id : String) (t : Data) (sim : Sim) (t' : Data) : Type 0 where
    pub added : IsAdded org_id t t'
    pub open added use *
    pub returned_is : sim ≡ scan svc.repo added.row
    pub attached : svc.open5gs ≢ none → InCore added.row t'

  -- Every row of `t` is left as it was; at most one row was added.
  abbrev pub Rest : String → Data → Err Sentinel → World Data → Type 0
  Rest org_id t e w = (w.db.sims ≡ t.sims) ⊎ IsAdded org_id t w.db

  -- Between the insertion and the last read: the new row stands first, and a core that is
  -- configured has it.
  pub record IsReady (org_id : String) (t : Data) (made : Sim) (o : Option (ℕ → Option Fault))
      (t' : Data) : Type 0 where
    pub added : IsAdded org_id t t'
    pub named : made.id ≡ svc.repo.show_uuid added.row.id
    pub same_imsi : made.imsi ≡ added.row.imsi
    pub same_ki : made.ki ≡ added.row.ki
    pub same_opc : made.opc ≡ added.row.opc
    pub attached : o ≢ none → InCore added.row t'

  clash_id :
      (u : ℕ) (imsi : String) (rs : List SimRow)
      → exists (clashes u imsi) rs ≡ false
      → exists (has_id u) rs ≡ false
  clash_id u imsi [] h = refl
  clash_id u imsi (r ∷ rs) h = ground (arith, clash_id u imsi rs)

  mark_new :
      (row : SimRow) (rs : List SimRow) (now : ℕ)
      → exists (clashes row.id row.imsi) rs ≡ false
      → update (has_id row.id) (provisioned now) (row ∷ rs) ≡ provisioned now row ∷ rs
  mark_new row rs now free =
      ground (arith, update_none row.id (provisioned now) rs, clash_id row.id row.imsi rs free)

  module _ (reads_back : ReadsBack svc.repo) (org_id : String) (t : Data) where
    pub added-IsReady :
        (s made : Sim) (t0 t' : Data)
        → Adds svc.repo s made t0 t'
        → t0 ≡ t
        → s.org_id ≡ org_id
        → s.status ≡ "active"
        → IsReady org_id t made none t'
    added-IsReady s made t0 t' a same org active = record {
      added = record {
        row = a.row;
        sims = ap (λ (d : Data). d.sims) a.data_is ∙ ap (λ (d : Data). a.row ∷ d.sims) same;
        free = ap (λ (d : Data). exists (clashes a.row.id a.row.imsi) d.sims) (sym same) ∙ a.fresh;
        org = ap svc.repo.parse_uuid (sym org) ∙ a.org;
        active = a.status ∙ active;
      };
      named = ap (λ (m : Sim). m.id) a.made_is;
      same_imsi = ap (λ (m : Sim). m.imsi) a.made_is ∙ sym a.imsi;
      same_ki = ap (λ (m : Sim). m.ki) a.made_is ∙ sym a.keys.0;
      same_opc = ap (λ (m : Sim). m.opc) a.made_is ∙ sym a.keys.1;
      attached = λ no_core. absurd (no_core refl);
    }

    -- The document was written and the row is now marked.
    pub marked-IsReady :
        (made : Sim) (core : ℕ → Option Fault) (t1 t2 t3 : Data)
        → IsReady org_id t made none t1
        → t2
          ≡ record t1 { subscribers = put_document (document (subscriber_of made)) t1.subscribers }
        → Marks svc.repo made.id t2 t3
        → IsReady org_id t made (some core) t3
    marked-IsReady made core t1 t2 t3 r put m =
        let row : SimRow = r.added.row in
        let same_id : m.key ≡ row.id =
          some-injective _ _ (sym m.parsed ∙ ap svc.repo.parse_uuid r.named ∙ reads_back row.id) in
        let mark : List SimRow → List SimRow = update (has_id m.key) (provisioned m.now) in
        record {
          added = record {
            row = provisioned m.now row;
            sims =
                ap (λ (d : Data). d.sims) m.data_is
                ∙ ap (λ (d : Data). mark d.sims) put
                ∙ ap mark r.added.sims
                ∙ ap (λ (k : ℕ). update (has_id k) (provisioned m.now) (row ∷ t.sims)) same_id
                ∙ mark_new row t.sims m.now r.added.free;
            free = r.added.free;
            org = r.added.org;
            active = r.added.active;
          };
          named = r.named;
          same_imsi = r.same_imsi;
          same_ki = r.same_ki;
          same_opc = r.same_opc;
          attached = λ _. (
            document (subscriber_of made),
            ap (λ (d : Data). find (has_imsi row.imsi) d.subscribers) (m.data_is)
                ∙ ap (λ (d : Data). find (has_imsi row.imsi) d.subscribers) put
                ∙ ap
                    (λ (x : String).
                      find (has_imsi x)
                        (put_document (document (subscriber_of made)) t1.subscribers))
                    (sym r.same_imsi)
                ∙ find-put_document (document (subscriber_of made)) t1.subscribers,
            r.same_ki,
            r.same_opc,
            λ (e : some m.now ≡ none). cc,
          );
        }

    unfoldable pub ready_sims :
        (made : Sim) (o : Option (ℕ → Option Fault)) (t1 t2 : Data)
        → IsReady org_id t made o t1
        → t2.sims ≡ t1.sims
        → IsAdded org_id t t2
    ready_sims made o t1 t2 r same = record {
      row = r.added.row;
      sims = same ∙ r.added.sims;
      free = r.added.free;
      org = r.added.org;
      active = r.added.active;
    }
