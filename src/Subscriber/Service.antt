-- ===== src/Subscriber/Service.antt =====
-- svc-aerial-subscriber/internal/service: the life cycle of a SIM over the repository and the 5G
-- core.
pub mod Outcomes
pub mod Removal
pub mod Invariant
pub mod Requests
pub mod Numbering
pub mod Draws
pub mod Readiness
pub mod Creation
pub mod Tenancy
use Prim.Native.String
use Prim.Native.String.{len}
use aerial_ran_platform.Base.{
  ℕ, String, Bool, ◌||◌, Option, none, some, List, str_eq, ltb, trim_space, decimal, pad_decimal,
  upper_hex, if◌then◌else◌,
}
use aerial_ran_platform.Base.Int.{ℤ, pos, is_zero}
use aerial_ran_platform.Go.Errors.{Err, sentinel, join, other}
use aerial_ran_platform.Go.Exec.{Result, ok, err, Exec, pure, fail, fail_if, attempt, ◌>>=◌, ◌>>◌}
use aerial_ran_platform.Go.Postgres.{Postgres, Fault, World, call}
use aerial_ran_platform.Subscriber.Model.{
  Sentinel, sim_not_found, bad_input, provisioning, deprovisioning, Sim, CreateSimRequest,
  Subscriber, Data,
}
use aerial_ran_platform.Subscriber.Core.{or_default, upsert, delete}
use aerial_ran_platform.Subscriber.Repository.{
  next_msin, create, get_by_id, list_by_org, mark_provisioned, update_status,
}

-- The service's fields, with what lies outside: the database, the 5G core's faults (none when no
-- core is configured), and `rand.Read` for a number of bytes.
pub record Service : Type 0 where
  pub repo : Postgres
  pub open5gs : Option (ℕ → Option Fault)
  pub plmn_mcc : String
  pub plmn_mnc : String
  pub random : ℕ → ℕ → Option (List ℕ)

abbrev pub Op : Type 0 → Type 0
Op A = Exec (World Data) (Err Sentinel) A

abbrev pub subscriber_of : Sim → Subscriber
subscriber_of s = record {
  imsi = s.imsi;
  apn = s.apn;
  ki = s.ki;
  opc = s.opc;
  amf = s.amf;
  sst = s.sst;
  sd = "";
}

abbrev pub bad_length : String → Err Sentinel
bad_length imsi = other (String.◌++◌ "imsi must be 14-15 digits, got " (decimal (len imsi)))

abbrev pub no_fault : ℕ → Option Fault
no_fault n = none

-- The bytes that were read as hexadecimal digits, or the error of the reader.
abbrev pub drawn : Option (List ℕ) → Data → Result (Err Sentinel) (String × Data)
drawn none t = err (other "rand.Read")
drawn (some bytes) t = ok (upper_hex bytes, t)

module _ (svc : Service) where
  abbrev pub read_random : ℕ → ℕ → Data → Result (Err Sentinel) (String × Data)
  read_random k n t = drawn (svc.random n k) t

  unfoldable pub rand_hex : ℕ → Op String
  rand_hex k = call no_fault (read_random k)

  abbrev pub numbered : ℕ → String
  numbered n = String.◌++◌ svc.plmn_mcc (String.◌++◌ svc.plmn_mnc (pad_decimal 10 n))

  -- The IMSI of the request, or the next one.
  unfoldable pub choose_imsi : String → Op String
  choose_imsi imsi =
      if str_eq imsi ""
      then (do n ← next_msin svc.repo svc.plmn_mcc svc.plmn_mnc; pure (numbered n))
      else do
        fail_if (ltb (len imsi) 14 || ltb 15 (len imsi))
            (join (sentinel bad_input) (bad_length imsi))
        pure imsi

  abbrev pub new_sim : String → CreateSimRequest → String → String → String → Sim
  new_sim org_id req imsi ki opc = record {
    id = "";
    org_id = org_id;
    owner_user_id = req.owner_user_id;
    imsi = imsi;
    msisdn = req.msisdn;
    plmn_mcc = svc.plmn_mcc;
    plmn_mnc = svc.plmn_mnc;
    ki = ki;
    opc = opc;
    amf = "8000";
    apn = or_default req.apn "internet";
    sst = if is_zero req.sst then pos 1 else req.sst;
    sd = none;
    status = "active";
    provisioned_at = none;
    created_at = 0;
    updated_at = 0;
  }

  -- A failure of `m` is wrapped: `errors.Join(why, err)`.
  abbrev pub joined : {A : Type 0} → Sentinel → Result (Err Sentinel) A → Op A
  joined why (ok a) = pure a
  joined why (err e) = fail (join (sentinel why) e)

  abbrev pub wrap : {A : Type 0} → Sentinel → Op A → Op A
  wrap why m = attempt m >>= joined why

  -- `if s.open5gs != nil { … }`
  abbrev pub with_core :
      Option (ℕ → Option Fault) → ((ℕ → Option Fault) → Op (Unit {0})) → Op (Unit {0})
  with_core none f = pure tt
  with_core (some core) f = f core

  abbrev pub provision : Sim → (ℕ → Option Fault) → Op (Unit {0})
  provision made core = do
    wrap provisioning (upsert core (subscriber_of made))
    mark_provisioned svc.repo made.id

  unfoldable pub create_sim : String → CreateSimRequest → Op Sim
  create_sim org_id req = do
    fail_if (str_eq (trim_space org_id) "") (join (sentinel bad_input) (other "org_id required"))
    imsi ← choose_imsi (trim_space req.imsi)
    ki ← rand_hex 16
    opc ← rand_hex 16
    made ← create svc.repo (new_sim org_id req imsi ki opc)
    with_core svc.open5gs (provision made)
    get_by_id svc.repo made.id

  unfoldable pub owned_by_org : String → String → Op Sim
  owned_by_org org_id id = do
    sim ← get_by_id svc.repo id
    if str_eq sim.org_id org_id then pure sim else fail (sentinel sim_not_found)

  unfoldable pub get : String → String → Op Sim
  get org_id id = owned_by_org org_id id

  unfoldable pub list : String → Op (List Sim)
  list org_id = list_by_org svc.repo org_id

  abbrev pub deprovision : Sim → (ℕ → Option Fault) → Op (Unit {0})
  deprovision sim core = wrap deprovisioning (delete core sim.imsi)

  unfoldable pub suspend : String → String → Op (Unit {0})
  suspend org_id id = do
    sim ← owned_by_org org_id id
    with_core svc.open5gs (deprovision sim)
    update_status svc.repo id "suspended"

  unfoldable pub resume : String → String → Op (Unit {0})
  resume org_id id = do
    sim ← owned_by_org org_id id
    with_core svc.open5gs λ core. upsert core (subscriber_of sim)
    update_status svc.repo id "active"

  unfoldable pub terminate : String → String → Op (Unit {0})
  terminate org_id id = do
    sim ← owned_by_org org_id id
    with_core svc.open5gs (deprovision sim)
    update_status svc.repo id "terminated"
