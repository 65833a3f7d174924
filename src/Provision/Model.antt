-- ===== src/Provision/Model.antt =====
-- svc-aerial-provision/internal/provision/provision.go: the types, and the tables of the
-- migrations.
use aerial_ran_platform.Base.{ℕ, String, Bool, true, false, Option, List}
use aerial_ran_platform.Base.Int.{ℤ}

pub data Sentinel : Type 0 where
  plan_not_found sub_not_found sub_exists : Sentinel

abbrev pub same : Sentinel → Sentinel → Bool
same plan_not_found plan_not_found = true
same sub_not_found sub_not_found = true
same sub_exists sub_exists = true
same _ _ = false

-- A row of `provision.plans`.
pub record PlanRow : Type 0 where
  pub id : String
  pub name : String
  pub monthly_cents : ℤ
  pub data_cap_mb : Option ℤ
  pub description : Option String
  pub created_at : ℕ

pub record Plan : Type 0 where
  pub id : String
  pub name : String
  pub monthly_cents : ℤ
  pub data_cap_mb : Option ℤ
  pub description : String
  pub created_at : ℕ

-- A row of `provision.subscriptions`.
pub record SubscriptionRow : Type 0 where
  pub id : ℕ
  pub org_id : ℕ
  pub user_id : ℕ
  pub plan_id : String
  pub sim_id : Option ℕ
  pub esim_id : Option ℕ
  pub status : String
  pub started_at : ℕ
  pub cancelled_at : Option ℕ
  pub created_at : ℕ
  pub updated_at : ℕ

pub record Subscription : Type 0 where
  pub id : String
  pub org_id : String
  pub user_id : String
  pub plan_id : String
  pub sim_id : Option String
  pub esim_id : Option String
  pub status : String
  pub started_at : ℕ
  pub cancelled_at : Option ℕ
  pub created_at : ℕ
  pub updated_at : ℕ

pub record CreateSubRequest : Type 0 where
  pub user_id : String
  pub plan_id : String
  pub sim_id : Option String
  pub esim_id : Option String

pub record Data : Type 0 where
  pub plans : List PlanRow
  pub subscriptions : List SubscriptionRow
