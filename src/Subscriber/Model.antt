-- ===== src/Subscriber/Model.antt =====
-- svc-aerial-subscriber/internal/model and the tables behind the service: `subscriber.sims` of the
-- migration, and the collection `subscribers` of the 5G core.
use aerial_ran_platform.Base.{ℕ, String, Bool, true, false, Option, List}
use aerial_ran_platform.Base.Int.{ℤ}

pub data Sentinel : Type 0 where
  sim_not_found sim_exists bad_input provisioning deprovisioning : Sentinel

abbrev pub same : Sentinel → Sentinel → Bool
same sim_not_found sim_not_found = true
same sim_exists sim_exists = true
same bad_input bad_input = true
same provisioning provisioning = true
same deprovisioning deprovisioning = true
same _ _ = false

-- `model.SIM`, with identifiers as texts.
pub record Sim : Type 0 where
  pub id : String
  pub org_id : String
  pub owner_user_id : Option String
  pub imsi : String
  pub msisdn : Option String
  pub plmn_mcc : String
  pub plmn_mnc : String
  pub ki : String
  pub opc : String
  pub amf : String
  pub apn : String
  pub sst : ℤ
  pub sd : Option String
  pub status : String
  pub provisioned_at : Option ℕ
  pub created_at : ℕ
  pub updated_at : ℕ

pub record CreateSimRequest : Type 0 where
  pub owner_user_id : Option String
  pub imsi : String
  pub msisdn : Option String
  pub apn : String
  pub sst : ℤ

-- A row of `subscriber.sims`.
pub record SimRow : Type 0 where
  pub id : ℕ
  pub org_id : ℕ
  pub owner_user_id : Option ℕ
  pub imsi : String
  pub msisdn : Option String
  pub plmn_mcc : String
  pub plmn_mnc : String
  pub ki : String
  pub opc : String
  pub amf : String
  pub apn : String
  pub sst : ℤ
  pub sd : Option String
  pub status : String
  pub provisioned_at : Option ℕ
  pub created_at : ℕ
  pub updated_at : ℕ

-- What `open5gs.Subscriber` carries.
pub record Subscriber : Type 0 where
  pub imsi : String
  pub apn : String
  pub ki : String
  pub opc : String
  pub amf : String
  pub sst : ℤ
  pub sd : String

-- A document of `subscribers`, with the fields that differ between subscribers and those that a
-- session's setup reads; the other keys that `Upsert` writes are constants.
pub record Document : Type 0 where
  pub imsi : String
  pub k : String
  pub opc : String
  pub amf : String
  pub slice_sst : ℤ
  pub slice_sd : Option String
  pub session_name : String
  pub session_type : ℕ
  pub qos_index : ℕ
  pub access_restriction_data : ℕ
  pub network_access_mode : ℕ
  pub subscriber_status : ℕ

pub record Data : Type 0 where
  pub sims : List SimRow
  pub subscribers : List Document
