-- ===== src/Subscriber/Service/Numbering.antt =====
-- Numbering by the count of the rows, when the next number was already taken by a request that
-- named its IMSI.
use aerial_ran_platform.Base.{
  ℕ, suc, String, true, false, List, [], ◌∷◌, ◌≡◌, refl, sym, ap, ◌∙◌, arith, All, exists, length,
  select, trim_space,
}
use mathlib.Core.Path.{subst}
use aerial_ran_platform.Go.Errors.{Err}
use aerial_ran_platform.Go.Exec.{Result, ok, err, Outcome, Leads}
use aerial_ran_platform.Go.Exec.Outcomes.{weaken, bind-Leads, pure-Leads, fail_if-Leads}
use aerial_ran_platform.Go.Postgres.{World}
use aerial_ran_platform.Go.Postgres.Outcomes.{call-Leads}
use aerial_ran_platform.Subscriber.Model.{Sentinel, Sim, SimRow, Data, CreateSimRequest}
use aerial_ran_platform.Subscriber.Repository.{next_msin, count_sims, in_plmn, clashes}
use aerial_ran_platform.Subscriber.Repository.Outcomes.{Adds, Unchanged, create-Leads}
use aerial_ran_platform.Subscriber.Consistency.{has_row_imsi}
use aerial_ran_platform.Subscriber.Service.{Service, create_sim, choose_imsi, numbered, new_sim}
use aerial_ran_platform.Subscriber.Service.Draws.{rand_hex-Leads}

clash_of_imsi :
    (u : ℕ) (x : String) (rs : List SimRow)
    → exists (has_row_imsi x) rs ≡ true
    → exists (clashes u x) rs ≡ true
clash_of_imsi u x [] h = cc
clash_of_imsi u x (r ∷ rs) h = ground (arith, clash_of_imsi u x rs)

-- A request of an organisation.
pub record Attempt : Type 0 where
  pub org_id : String
  pub request : CreateSimRequest

abbrev pub IsRefused : Result (Err Sentinel) Sim → Type 0
IsRefused (ok made) = ⊥
IsRefused (err e) = Unit

module _ (svc : Service) where
  -- The IMSI that the count proposes.
  abbrev pub proposed : Data → String
  proposed t = numbered svc (suc (length (select (in_plmn svc.plmn_mcc svc.plmn_mnc) t.sims)))

  -- A SIM has it already.
  abbrev pub IsStuck : Data → Type 0
  IsStuck t = exists (has_row_imsi (proposed t)) t.sims ≡ true

  -- Requests one after the other, and what they are answered.
  abbrev pub attempts : List Attempt → World Data → List (Result (Err Sentinel) Sim) × World Data
  attempts [] w = ([], w)
  attempts (a ∷ rest) w =
      let (r, w') = create_sim svc a.org_id a.request w in
      let (rs, w'') = attempts rest w' in (r ∷ rs, w'')

  choose-Leads :
      (w : World Data)
      → Leads (λ x w'. (x ≡ proposed w.db) × (w'.db ≡ w.db)) (Unchanged w.db) (choose_imsi svc "") w
  unfolding choose_imsi next_msin
  choose-Leads w =
      bind-Leads {Bad' = Unchanged w.db}
        {Good' = λ n w'.
          (n ≡ suc (length (select (in_plmn svc.plmn_mcc svc.plmn_mnc) w.db.sims)))
          × (w'.db ≡ w.db)}
        (bind-Leads {Bad' = Unchanged w.db}
          {Good' = λ n w'.
            (n ≡ length (select (in_plmn svc.plmn_mcc svc.plmn_mnc) w.db.sims)) × (w'.db ≡ w.db)}
          (call-Leads svc.repo.fault (count_sims svc.plmn_mcc svc.plmn_mnc) (λ f. refl)
            (refl, refl))
          (λ n w' (e, same). pure-Leads _ (ap (λ (k : ℕ). suc k) e, same)) (λ e w' same. same))
        (λ n w' (e, same). pure-Leads _ (ap (numbered svc) e, same)) (λ e w' same. same)

  -- No row can be added under the proposed IMSI.
  no_row :
      {A : Type 0} (s made : Sim) (t t' : Data)
      → IsStuck t
      → s.imsi ≡ proposed t
      → Adds svc.repo s made t t'
      → A
  no_row s made t t' stuck named a =
      let taken : exists (clashes a.row.id a.row.imsi) t.sims ≡ true =
        subst (λ (x : String). exists (clashes a.row.id x) t.sims ≡ true) (sym (a.imsi ∙ named))
          (clash_of_imsi a.row.id (proposed t) t.sims stuck) in
      let free : exists (clashes a.row.id a.row.imsi) t.sims ≡ false = a.fresh in cc

  create_sim-Leads :
      (org_id : String) (req : CreateSimRequest) (w : World Data)
      → IsStuck w.db
      → trim_space req.imsi ≡ ""
      → Leads (λ _ _. ⊥) (Unchanged w.db) (create_sim svc org_id req) w
  unfolding create_sim
  create_sim-Leads org_id req w stuck blank = rw blank (
      bind-Leads {Bad' = Unchanged w.db} {Good' = λ _ w'. w'.db ≡ w.db}
        (weaken (fail_if-Leads {Bad = Unchanged w.db} _ _ (λ _. refl))
          (λ _ w' (_, same). ap (λ (x : World Data). x.db) same) (λ e w' same. same))
        (λ _ w0 same0.
          bind-Leads (choose-Leads w0)
            (λ imsi w1 (named, same1).
              bind-Leads (rand_hex-Leads svc 16 w1)
                (λ ki w2 same2.
                  bind-Leads (rand_hex-Leads svc 16 w2)
                    (λ opc w3 same3.
                      let same : w3.db ≡ w.db = same3 ∙ same2 ∙ same1 ∙ same0 in
                      bind-Leads (create-Leads svc.repo (new_sim svc org_id req imsi ki opc) w3)
                        (λ made w4 a.
                          no_row _ made w3.db w4.db (subst IsStuck (sym same) stuck)
                            (named ∙ ap proposed (same0 ∙ sym same)) a)
                        (λ e w4 kept. kept ∙ same))
                    (λ e w3 kept. kept ∙ same2 ∙ same1 ∙ same0))
                (λ e w2 kept. kept ∙ same1 ∙ same0))
            (λ e w1 kept. kept ∙ same0))
        (λ e w0 kept. kept))

  refused :
      (t : Data) (x : Result (Err Sentinel) Sim × World Data)
      → Outcome (λ _ _. ⊥) (Unchanged t) x
      → IsRefused x.0 × (x.1.db ≡ t)
  refused t (ok made, w) h = absurd h
  refused t (err e, w) h = (tt, h)

  -- When a SIM already has the IMSI that the count of the rows proposes, then any requests without
  -- an IMSI, of any organisations and with any faults, are all refused and leave the data as they
  -- were.
  pub numbering_stays_stuck :
      (rest : List Attempt) (w : World Data)
      → IsStuck w.db
      → All (λ a. trim_space a.request.imsi ≡ "") rest
      → All IsRefused (attempts rest w).0 × ((attempts rest w).1.db ≡ w.db)
  numbering_stays_stuck [] w stuck h = (tt, refl)
  numbering_stays_stuck (a ∷ rest) w stuck (blank, blanks) =
      let w' : World Data = (create_sim svc a.org_id a.request w).1 in
      let (now, same) = refused w.db _ (create_sim-Leads a.org_id a.request w stuck blank).at in
      let (later, kept) = numbering_stays_stuck rest w' (subst IsStuck (sym same) stuck) blanks in
      ((now, later), kept ∙ same)
