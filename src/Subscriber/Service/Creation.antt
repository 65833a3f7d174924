-- ===== src/Subscriber/Service/Creation.antt =====
-- Creating a SIM: what a success and a failure leave behind.
use aerial_ran_platform.Base.{
  ℕ, String, Option, none, some, ◌∷◌, ◌≡◌, refl, sym, ap, ◌∙◌, inl, inr, find, trim_space, arith,
}
use mathlib.Core.Option.{some-injective}
use mathlib.Core.Path.{subst}
use aerial_ran_platform.Go.Errors.{Err}
use aerial_ran_platform.Go.Exec.{Leads, ◌>>=◌, ◌>>◌}
use aerial_ran_platform.Go.Exec.Outcomes.{weaken, bind-Leads, fail_if-Leads}
use aerial_ran_platform.Go.Postgres.{Fault, World, ReadsBack}
use aerial_ran_platform.Subscriber.Model.{Sentinel, Sim, SimRow, Data, CreateSimRequest}
use aerial_ran_platform.Subscriber.Core.Documents.{upsert-Leads}
use aerial_ran_platform.Subscriber.Repository.{has_id, scan, create, get_by_id}
use aerial_ran_platform.Subscriber.Repository.Outcomes.{
  Unchanged, create-Leads, get_by_id-Leads, mark_provisioned-Leads,
}
use aerial_ran_platform.Subscriber.Service.{
  Service, with_core, create_sim, provision, subscriber_of, new_sim,
}
use aerial_ran_platform.Subscriber.Service.Draws.{choose_imsi-Leads, rand_hex-Leads}
use aerial_ran_platform.Subscriber.Service.Outcomes.{with_core-Leads, wrap-Leads}
use aerial_ran_platform.Subscriber.Service.Readiness.{
  InCore, IsCreated, Rest, IsReady, added-IsReady, marked-IsReady, ready_sims,
}

module _ (svc : Service) where
  module _ (reads_back : ReadsBack svc.repo) (org_id : String) (t : Data) where
    provision-Leads :
        (made : Sim) (w : World Data) (core : ℕ → Option Fault)
        → IsReady svc org_id t made none w.db
        → Leads
            (λ _ w'. IsReady svc org_id t made (some core) w'.db)
            (Rest svc org_id t)
            (provision svc made core)
            w
    provision-Leads made w core r =
        bind-Leads (wrap-Leads svc _ (upsert-Leads core (subscriber_of made) w))
          (λ _ w' put.
            weaken (mark_provisioned-Leads svc.repo made.id w')
              (λ _ w'' m.
                marked-IsReady svc reads_back org_id t made core w.db w'.db w''.db r put m)
              (λ e w'' same. inr (
                ready_sims svc reads_back org_id t made none w.db w''.db r
                  (ap (λ (d : Data). d.sims) same ∙ ap (λ (d : Data). d.sims) put))))
          (λ e w' same. inr (
            ready_sims svc reads_back org_id t made none w.db w'.db r
              (ap (λ (d : Data). d.sims) same)))

    -- The last read finds the new row.
    finish-Leads :
        (made : Sim) (w : World Data)
        → IsReady svc org_id t made svc.open5gs w.db
        → Leads
            (λ sim w'. IsCreated svc org_id t sim w'.db)
            (Rest svc org_id t)
            (get_by_id svc.repo made.id)
            w
    unfolding ready_sims
    finish-Leads made w r =
        weaken (get_by_id-Leads svc.repo made.id w)
          (λ sim w' (f, same).
            let row : SimRow = r.added.row in
            let same_id : f.key ≡ row.id =
              some-injective _ _
                (sym f.parsed ∙ ap svc.repo.parse_uuid r.named ∙ reads_back row.id) in
            let here : find (has_id row.id) (row ∷ t.sims) ≡ some row = ground arith in
            let same_row : f.row ≡ row = some-injective _ _ (
              sym f.found
              ∙ ap (λ (k : ℕ). find (has_id k) w.db.sims) same_id
              ∙ ap (find (has_id row.id)) r.added.sims
              ∙ here) in
            record {
              added =
                  ready_sims svc reads_back org_id t made svc.open5gs w.db w'.db r
                    (ap (λ (d : Data). d.sims) same);
              returned_is = f.scanned ∙ ap (scan svc.repo) same_row;
              attached = λ some_core. subst (InCore svc row) (sym same) (r.attached some_core);
            })
          (λ e w' same. inr (
            ready_sims svc reads_back org_id t made svc.open5gs w.db w'.db r
              (ap (λ (d : Data). d.sims) same)))

    insert-Leads :
        (req : CreateSimRequest) (imsi ki opc : String) (w : World Data)
        → w.db ≡ t
        → Leads
            (λ sim w'. IsCreated svc org_id t sim w'.db)
            (Rest svc org_id t)
            (do
              made ← create svc.repo (new_sim svc org_id req imsi ki opc)
              with_core svc svc.open5gs (provision svc made)
              get_by_id svc.repo made.id)
            w
    insert-Leads req imsi ki opc w same =
        bind-Leads (create-Leads svc.repo (new_sim svc org_id req imsi ki opc) w)
          (λ made w' a.
            let ready : IsReady svc org_id t made none w'.db =
              added-IsReady svc reads_back org_id t _ made w.db w'.db a same refl refl in
            bind-Leads
              (with_core-Leads svc (λ o u. IsReady svc org_id t made o u.db) (provision svc made) w'
                svc.open5gs ready (λ core. provision-Leads made w' core ready))
              (λ _ w'' r. finish-Leads made w'' r) (λ e u r. r))
          (λ e w' u. inl (ap (λ (d : Data). d.sims) (u ∙ same)))

  -- When UUIDs read back, a successful `Create` has added one active row for the caller's
  -- organisation with an identifier and an IMSI that no row had, returns that row, and with a core
  -- configured the core has its keys under its IMSI and the row is marked as provisioned; after an
  -- error every row is as it was and at most that one row was added.
  pub create_sim_lem :
      (org_id : String) (req : CreateSimRequest) (w : World Data)
      → ReadsBack svc.repo
      → Leads
          (λ sim w'. IsCreated svc org_id w.db sim w'.db)
          (Rest svc org_id w.db)
          (create_sim svc org_id req)
          w
  unfolding create_sim
  create_sim_lem org_id req w reads_back =
      let rows : (e : Err Sentinel) (u : World Data) → u.db ≡ w.db → Rest svc org_id w.db e u =
        λ e u same. inl (ap (λ (d : Data). d.sims) same) in
      bind-Leads {Bad' = Unchanged w.db} (fail_if-Leads _ _ (λ _. refl))
        (λ _ w0 (_, same0).
          let same0' : w0.db ≡ w.db = ap (λ (v : World Data). v.db) same0 in
          bind-Leads (choose_imsi-Leads svc (trim_space req.imsi) w0)
            (λ imsi w1 same1.
              bind-Leads (rand_hex-Leads svc 16 w1)
                (λ ki w2 same2.
                  bind-Leads (rand_hex-Leads svc 16 w2)
                    (λ opc w3 same3.
                      insert-Leads reads_back org_id w.db req imsi ki opc w3
                        (same3 ∙ same2 ∙ same1 ∙ same0'))
                    (λ e u same3. rows e u (same3 ∙ same2 ∙ same1 ∙ same0')))
                (λ e u same2. rows e u (same2 ∙ same1 ∙ same0')))
            (λ e u same1. rows e u (same1 ∙ same0')))
        (λ e u same. rows e u same)
