-- ===== src/Subscriber/Service/Requests.antt =====
-- Any sequence of requests to the SIM service, from any tenants, with any faults.
use aerial_ran_platform.Base.{
  String, true, Option, List, [], ◌∷◌, ◌≡◌, refl, sym, exists, trim_space, ℕ, arith, str_eq_refl,
}
use mathlib.Core.Path.{subst}
use aerial_ran_platform.Go.Errors.{Err}
use aerial_ran_platform.Go.Exec.{Outcome, ◌>>=◌, ◌>>◌, Result, ok, err}
use aerial_ran_platform.Go.Exec.Outcomes.{weaken, bind-Leads, pure-Leads, fail_if-Leads}
use aerial_ran_platform.Go.Postgres.{World, Fault}
use aerial_ran_platform.Go.Postgres.Outcomes.{call-cast-Leads}
use aerial_ran_platform.Subscriber.Model.{Sentinel, Sim, Data, CreateSimRequest}
use aerial_ran_platform.Subscriber.Core.{document}
use aerial_ran_platform.Subscriber.Repository.{create, get_by_id, list_by_org, provisioned}
use aerial_ran_platform.Subscriber.Repository.Outcomes.{
  Adds, Unchanged, create-Leads, get_by_id-Leads, mark_provisioned-Leads,
}
use aerial_ran_platform.Subscriber.Consistency.{IsConsistent, IsOnRecord, All-add, has_row_imsi}
use aerial_ran_platform.Subscriber.Service.{
  Service, with_core, provision, subscriber_of, new_sim, create_sim, get, list, suspend, resume,
  terminate,
}
use aerial_ran_platform.Subscriber.Service.Draws.{choose_imsi-Leads, rand_hex-Leads}
use aerial_ran_platform.Subscriber.Service.Outcomes.{
  owned_by_org-Leads, with_core-Leads, wrap-Leads,
}
use aerial_ran_platform.Subscriber.Service.Invariant.{
  Sound, StaysSound, keeps, upsert-StaysSound, deprovision-StaysSound, by_id-StaysSound,
  update-IsConsistent,
}

-- What a tenant may ask for.
pub data Request : Type 0 where
  creating : String → CreateSimRequest → Request
  getting suspending resuming terminating : String → String → Request
  listing : String → Request

module _ (svc : Service) where
  unfoldable pub serve : Request → World Data → World Data
  serve (creating org_id req) w = (create_sim svc org_id req w).1
  serve (getting org_id id) w = (get svc org_id id w).1
  serve (suspending org_id id) w = (suspend svc org_id id w).1
  serve (resuming org_id id) w = (resume svc org_id id w).1
  serve (terminating org_id id) w = (terminate svc org_id id w).1
  serve (listing org_id) w = (list svc org_id w).1

  unfoldable pub serve_all : List Request → World Data → World Data
  serve_all [] w = w
  serve_all (r ∷ rs) w = serve_all rs (serve r w)

  -- The new row is on record, and stays so.
  added-IsConsistent :
      (s made : Sim) (t t' : Data)
      → IsConsistent t
      → Adds svc.repo s made t t'
      → IsConsistent t' × IsOnRecord t'.sims (document (subscriber_of made))
  added-IsConsistent s made t t' c a = (
    subst IsConsistent (sym a.data_is) (record {
      rows = (a.fresh, c.rows);
      documents = c.documents;
      known = All-add a.row t.sims t.subscribers c.known;
    }),
    subst (λ (d : Data). IsOnRecord d.sims (document (subscriber_of made))) (sym a.data_is)
        (subst (λ (m : Sim). exists (has_row_imsi m.imsi) (a.row ∷ t.sims) ≡ true) (sym a.made_is)
          (subst (λ (x : String). exists (has_row_imsi x) (a.row ∷ t.sims) ≡ true) a.imsi
            (ground (arith, str_eq_refl a.row.imsi)))),
  )

  provision-StaysSound :
      (made : Sim) (core : ℕ → Option Fault) (w : World Data)
      → Sound w
      → IsOnRecord w.db.sims (document (subscriber_of made))
      → StaysSound (provision svc made core) w
  provision-StaysSound made core w c k =
      bind-Leads (wrap-Leads svc _ (upsert-StaysSound svc made core w c k))
        (λ _ w' c'.
          weaken (mark_provisioned-Leads svc.repo made.id w')
            (λ _ w'' m.
              subst IsConsistent (sym m.data_is)
                (update-IsConsistent m.key (provisioned m.now) w'.db (λ r. (refl, refl)) c'))
            (λ e w'' same. keeps svc w'' w'.db c' same))
        (λ e w' c'. c')

  read-StaysSound : (id : String) (w : World Data) → Sound w → StaysSound (get_by_id svc.repo id) w
  read-StaysSound id w c =
      weaken (get_by_id-Leads svc.repo id w) (λ _ w' h. keeps svc w' w.db c h.1)
        (λ e w' same. keeps svc w' w.db c same)

  insert-StaysSound :
      (org_id : String) (req : CreateSimRequest) (imsi ki opc : String) (w : World Data)
      → Sound w
      → StaysSound
          (do
            made ← create svc.repo (new_sim svc org_id req imsi ki opc)
            with_core svc svc.open5gs (provision svc made)
            get_by_id svc.repo made.id)
          w
  insert-StaysSound org_id req imsi ki opc w c =
      bind-Leads (create-Leads svc.repo (new_sim svc org_id req imsi ki opc) w)
        (λ made w' a.
          let (c', k) = added-IsConsistent _ made w.db w'.db c a in
          bind-Leads
            (with_core-Leads svc (λ _. Sound) (provision svc made) w' svc.open5gs c'
              (λ core. provision-StaysSound made core w' c' k))
            (λ _ w'' c''. read-StaysSound made.id w'' c'') (λ e u c''. c''))
        (λ e w' same. keeps svc w' w.db c same)

  create_sim-StaysSound :
      (org_id : String) (req : CreateSimRequest) (w : World Data)
      → Sound w
      → StaysSound (create_sim svc org_id req) w
  unfolding create_sim
  create_sim-StaysSound org_id req w c =
      bind-Leads {Bad' = Unchanged w.db} (fail_if-Leads _ _ (λ _. refl))
        (λ _ w0 (_, same0).
          let c0 : Sound w0 = subst Sound (sym same0) c in
          bind-Leads (choose_imsi-Leads svc (trim_space req.imsi) w0)
            (λ imsi w1 same1.
              let c1 : Sound w1 = keeps svc w1 w0.db c0 same1 in
              bind-Leads (rand_hex-Leads svc 16 w1)
                (λ ki w2 same2.
                  let c2 : Sound w2 = keeps svc w2 w1.db c1 same2 in
                  bind-Leads (rand_hex-Leads svc 16 w2)
                    (λ opc w3 same3.
                      insert-StaysSound org_id req imsi ki opc w3 (keeps svc w3 w2.db c2 same3))
                    (λ e u same3. keeps svc u w2.db c2 same3))
                (λ e u same2. keeps svc u w1.db c1 same2))
            (λ e u same1. keeps svc u w0.db c0 same1))
        (λ e u same. keeps svc u w.db c same)

  owned-StaysSound :
      (org_id id : String) (w : World Data) → Sound w → StaysSound (get svc org_id id) w
  unfolding get
  owned-StaysSound org_id id w c =
      weaken (owned_by_org-Leads svc org_id id w) (λ _ w' h. keeps svc w' w.db c h.1)
        (λ e w' same. keeps svc w' w.db c same)

  list-StaysSound : (org_id : String) (w : World Data) → Sound w → StaysSound (list svc org_id) w
  unfolding list list_by_org
  list-StaysSound org_id w c =
      bind-Leads {Good' = λ _. Sound}
        (call-cast-Leads svc.repo.fault (svc.repo.parse_uuid org_id) _ (λ f. c) c (λ u e. c))
        (λ rows w' c'. pure-Leads _ c') (λ e w' c'. c')

  reached :
      {A : Type 0} (x : Result (Err Sentinel) A × World Data)
      → Outcome (λ _ w'. Sound w') (λ e w'. Sound w') x
      → Sound x.1
  reached (ok a, w) h = h
  reached (err e, w) h = h

  serve-IsConsistent : (r : Request) (w : World Data) → Sound w → Sound (serve r w)
  unfolding serve suspend resume terminate
  serve-IsConsistent (creating org_id req) w c = reached _ (create_sim-StaysSound org_id req w c).at
  serve-IsConsistent (getting org_id id) w c = reached _ (owned-StaysSound org_id id w c).at
  serve-IsConsistent (suspending org_id id) w c =
      reached _
        (by_id-StaysSound svc org_id id "suspended" _ w c
          (λ sim core w' c' k. deprovision-StaysSound svc sim core w' c')).at
  serve-IsConsistent (resuming org_id id) w c =
      reached _
        (by_id-StaysSound svc org_id id "active" _ w c
          (λ sim core w' c' k. upsert-StaysSound svc sim core w' c' k)).at
  serve-IsConsistent (terminating org_id id) w c =
      reached _
        (by_id-StaysSound svc org_id id "terminated" _ w c
          (λ sim core w' c' k. deprovision-StaysSound svc sim core w' c')).at
  serve-IsConsistent (listing org_id) w c = reached _ (list-StaysSound org_id w c).at

  -- From data of which this holds, through any requests, whatever of them fails: no two SIMs share
  -- an identifier or an IMSI, no two documents of the core share an IMSI, and every document is
  -- that of a SIM on record.
  pub serve_all-IsConsistent :
      (rs : List Request) (w : World Data) → IsConsistent w.db → IsConsistent (serve_all rs w).db
  unfolding serve_all
  serve_all-IsConsistent [] w c = c
  serve_all-IsConsistent (r ∷ rs) w c =
      serve_all-IsConsistent rs (serve r w) (serve-IsConsistent r w c)
