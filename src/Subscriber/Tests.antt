-- ===== src/Subscriber/Tests.antt =====
-- The theorems on svc-aerial-subscriber at concrete inputs: two tenants, a SIM of each.
use aerial_ran_platform.Base.{
  All, ℕ, String, Option, none, some, List, [], ◌∷◌, ◌≡◌, refl, inr, pad_decimal, trim_space,
}
use aerial_ran_platform.Base.Int.{pos}
use aerial_ran_platform.Go.Exec.{Leads}
use aerial_ran_platform.Go.Postgres.{World, Fault, timed_out}
use aerial_ran_platform.Go.Postgres.Sample.{sample, sample-ReadsBack}
use aerial_ran_platform.Jwt.{Claims}
use aerial_ran_platform.Subscriber.Model.{SimRow, Data, CreateSimRequest}
use aerial_ran_platform.Subscriber.Consistency.{IsConsistent}
use aerial_ran_platform.Subscriber.Service.{
  Service, create_sim, suspend, resume, terminate, no_fault,
}
use aerial_ran_platform.Subscriber.Service.Removal.{IsCutOff, KeepsRows, removal_outcome}
use aerial_ran_platform.Subscriber.Service.Tenancy.{KeepsOthers, other_tenants_untouched}
use aerial_ran_platform.Subscriber.Service.Readiness.{IsCreated, Rest}
use aerial_ran_platform.Subscriber.Service.Creation.{create_sim_lem}
use aerial_ran_platform.Subscriber.Service.Requests.{
  Request, creating, suspending, resuming, terminating, listing, serve_all, serve_all-IsConsistent,
}
use aerial_ran_platform.Subscriber.Service.Numbering.{
  Attempt, IsStuck, IsRefused, attempts, numbering_stays_stuck,
}
use aerial_ran_platform.Subscriber.Handler
use aerial_ran_platform.Subscriber.Handler.Isolation.{
  Refused, NotRemoved, foreign_is_not_found, core_failure_is_reported,
}

abbrev service : Option (ℕ → Option Fault) → Service
service core = record {
  repo = sample no_fault;
  open5gs = core;
  plmn_mcc = "001";
  plmn_mnc = "01";
  random = λ n k. some (171 ∷ 5 ∷ []);
}

abbrev sim_row : ℕ → ℕ → String → SimRow
sim_row id org_id imsi = record {
  id = id;
  org_id = org_id;
  owner_user_id = none;
  imsi = imsi;
  msisdn = none;
  plmn_mcc = "001";
  plmn_mnc = "01";
  ki = "AA";
  opc = "BB";
  amf = "8000";
  apn = "internet";
  sst = pos 1;
  sd = none;
  status = "active";
  provisioned_at = none;
  created_at = 1;
  updated_at = 1;
}

-- The SIM of organisation "11" has the IMSI that the count proposes next.
abbrev two_sims : Data
two_sims = record {
  sims = sim_row 7 1 "001010000000003" ∷ sim_row 8 2 "001010000000001" ∷ [];
  subscribers = [];
}

abbrev start : World Data
start = record { tick = 0; db = two_sims }

abbrev empty : World Data
empty = record { tick = 0; db = record { sims = []; subscribers = [] } }

abbrev any_sim : CreateSimRequest
any_sim = record { owner_user_id = none; imsi = ""; msisdn = none; apn = ""; sst = pos 0 }

abbrev tenant : Claims
tenant = record {
  user_id = "1";
  org_id = "11";
  email = "a@b";
  role = "user";
  device_id = "";
  scopes = [];
}

two_sims-IsConsistent : IsConsistent two_sims
two_sims-IsConsistent = record { rows = (refl, (refl, tt)); documents = tt; known = tt }

removal_outcome_example :
    Leads
      (λ _ w'. IsCutOff (service (some no_fault)) "11" "11111111" "suspended" two_sims w'.db)
      (KeepsRows two_sims)
      (suspend (service (some no_fault)) "11" "11111111")
      start
    × Leads
        (λ _ w'. IsCutOff (service (some no_fault)) "11" "11111111" "terminated" two_sims w'.db)
        (KeepsRows two_sims)
        (terminate (service (some no_fault)) "11" "11111111")
        start
removal_outcome_example =
    removal_outcome (service (some no_fault)) "11" "11111111" start two_sims-IsConsistent

abbrev Kept : World Data → Type 0
Kept w' = KeepsOthers (service (some no_fault)) "11" two_sims w'.db

other_tenants_untouched_example :
    Leads (λ _. Kept) (λ e. Kept) (suspend (service (some no_fault)) "11" "11111111") start
    × Leads (λ _. Kept) (λ e. Kept) (resume (service (some no_fault)) "11" "11111111") start
    × Leads (λ _. Kept) (λ e. Kept) (terminate (service (some no_fault)) "11" "11111111") start
other_tenants_untouched_example =
    other_tenants_untouched (service (some no_fault)) "11" "11111111" start

create_sim_example :
    Leads
      (λ sim w'. IsCreated (service (some no_fault)) "11" empty.db sim w'.db)
      (Rest (service (some no_fault)) "11" empty.db)
      (create_sim (service (some no_fault)) "11" any_sim)
      empty
create_sim_example =
    create_sim_lem (service (some no_fault)) "11" any_sim empty (sample-ReadsBack no_fault)

abbrev requests : List Request
requests =
    creating "11" any_sim
    ∷ suspending "11" "11111111"
    ∷ resuming "11" "11111111"
    ∷ terminating "111" "111111111"
    ∷ listing "11"
    ∷ []

serve_all-IsConsistent_example :
    IsConsistent (serve_all (service (some no_fault)) requests start).db
serve_all-IsConsistent_example =
    serve_all-IsConsistent (service (some no_fault)) requests start two_sims-IsConsistent

abbrev twice : List Attempt
twice =
    (record { org_id = "11"; request = any_sim })
    ∷ (record { org_id = "111"; request = any_sim })
    ∷ []

taken : IsStuck (service none) two_sims
unfolding pad_decimal
taken = refl

blanks : All (λ a. trim_space a.request.imsi ≡ "") twice
unfolding trim_space
blanks = (refl, (refl, tt))

numbering_stays_stuck_example :
    All IsRefused (attempts (service none) twice start).0
    × ((attempts (service none) twice start).1.db ≡ two_sims)
numbering_stays_stuck_example = numbering_stays_stuck (service none) twice start taken blanks

foreign_is_not_found_example :
    Refused (service none) start (Handler.get (service none) (some tenant) "111111111" start)
    × Refused (service none) start (Handler.suspend (service none) (some tenant) "111111111" start)
    × Refused (service none) start (Handler.resume (service none) (some tenant) "111111111" start)
    × Refused
        (service none)
        start
        (Handler.terminate (service none) (some tenant) "111111111" start)
foreign_is_not_found_example =
    foreign_is_not_found (service none) tenant "111111111" 8 start refl refl
      (inr (sim_row 8 2 "001010000000001", refl, λ e. cc))

abbrev broken_core : ℕ → Option Fault
broken_core n = some timed_out

core_failure_is_reported_example :
    NotRemoved
      (service (some broken_core))
      timed_out
      start
      (Handler.suspend (service (some broken_core)) (some tenant) "11111111" start)
    × NotRemoved
        (service (some broken_core))
        timed_out
        start
        (Handler.terminate (service (some broken_core)) (some tenant) "11111111" start)
core_failure_is_reported_example =
    core_failure_is_reported (service (some broken_core)) tenant "11111111" 7
      (sim_row 7 1 "001010000000003") broken_core timed_out start refl refl refl refl refl refl
