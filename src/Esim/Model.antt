-- ===== src/Esim/Model.antt =====
-- svc-aerial-esim/internal/model and the tables of the migration: `esim.packages` and `esim.esims`.
use aerial_ran_platform.Base.{ℕ, String, Bool, true, false, Option, List}
use aerial_ran_platform.Base.Int.{ℤ}

pub data Sentinel : Type 0 where
  package_not_found esim_not_found provider_error bad_input : Sentinel

abbrev pub same : Sentinel → Sentinel → Bool
same package_not_found package_not_found = true
same esim_not_found esim_not_found = true
same provider_error provider_error = true
same bad_input bad_input = true
same _ _ = false

pub record Package : Type 0 where
  pub id : String
  pub provider : String
  pub label : String
  pub region : String
  pub data_mb : ℤ
  pub validity_days : ℤ
  pub price_usd_cents : ℤ
  pub fetched_at : ℕ

-- `model.ESIM`, with identifiers as texts.
pub record Esim : Type 0 where
  pub id : String
  pub org_id : String
  pub owner_user_id : Option String
  pub provider : String
  pub provider_ref : Option String
  pub iccid : Option String
  pub package_id : Option String
  pub package_label : Option String
  pub data_mb : Option ℤ
  pub validity_days : Option ℤ
  pub lpa_string : Option String
  pub qr_png_base64 : Option String
  pub install_url : Option String
  pub status : String
  pub activated_at : Option ℕ
  pub expires_at : Option ℕ
  pub last_usage_mb : ℤ
  pub created_at : ℕ
  pub updated_at : ℕ

pub record OrderRequest : Type 0 where
  pub owner_user_id : Option String
  pub package_id : String

-- A row of `esim.packages`.
pub record PackageRow : Type 0 where
  pub id : String
  pub provider : String
  pub label : String
  pub region : Option String
  pub data_mb : ℤ
  pub validity_days : ℤ
  pub price_usd_cents : ℤ
  pub fetched_at : ℕ

-- A row of `esim.esims`.
pub record EsimRow : Type 0 where
  pub id : ℕ
  pub org_id : ℕ
  pub owner_user_id : Option ℕ
  pub provider : String
  pub provider_ref : Option String
  pub iccid : Option String
  pub package_id : Option String
  pub package_label : Option String
  pub data_mb : Option ℤ
  pub validity_days : Option ℤ
  pub lpa_string : Option String
  pub qr_png_base64 : Option String
  pub install_url : Option String
  pub status : String
  pub activated_at : Option ℕ
  pub expires_at : Option ℕ
  pub last_usage_mb : ℤ
  pub created_at : ℕ
  pub updated_at : ℕ

-- The tables, and beside them what the provider keeps.
pub record Data (V : Type 0) : Type 0 where
  pub packages : List PackageRow
  pub esims : List EsimRow
  pub vendor : V
