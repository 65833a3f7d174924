-- ===== src/Esim/Provider.antt =====
-- svc-aerial-esim/internal/provider/provider.go: the contract of a provider. `V` is what the
-- provider keeps; a call may change it, whether it succeeds or fails.
pub mod Mock
pub mod Airalo
pub mod Allowance
use aerial_ran_platform.Base.{ℕ, String, Option, List}
use aerial_ran_platform.Base.Int.{ℤ}
use aerial_ran_platform.Go.Errors.{Err}
use aerial_ran_platform.Go.Exec.{Exec}

-- Without `Raw`, which no code reads.
pub record PackageOffering : Type 0 where
  pub id : String
  pub label : String
  pub region : String
  pub data_mb : ℤ
  pub validity_days : ℤ
  pub price_usd_cents : ℤ

-- Without `QRPNGBase64`, which no adapter sets and no code reads.
pub record OrderResult : Type 0 where
  pub provider_ref : String
  pub iccid : String
  pub lpa_string : String
  pub install_url : String
  pub expires_at : Option ℕ

-- `S` is the type of the service's sentinels.
pub record Provider (S V : Type 0) : Type 0 where
  pub name : String
  pub catalog : String → Exec V (Err S) (List PackageOffering)
  pub order : String → String → Exec V (Err S) OrderResult
  pub usage_mb : String → Exec V (Err S) ℤ
  pub cancel : String → Exec V (Err S) (Unit {0})
