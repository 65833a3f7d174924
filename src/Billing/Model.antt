-- ===== src/Billing/Model.antt =====
-- svc-aerial-billing/internal/billing/billing.go: the types, and the tables of the migration. The
-- billing service declares no sentinel errors. A month is a number.
use aerial_ran_platform.Base.{ℕ, String, Bool, ◌&&◌, Option, List}
use aerial_ran_platform.Base.Int.{ℤ, pos, ◌+ℤ◌, in_int4}

pub data Sentinel : Type 0 where

-- What is counted, in an event and in a rollup.
pub record Amounts : Type 0 where
  pub data_mb : ℤ
  pub minutes : ℤ
  pub sms_count : ℤ
  pub cents : ℤ

abbrev pub nothing : Amounts
nothing = record { data_mb = pos 0; minutes = pos 0; sms_count = pos 0; cents = pos 0 }

abbrev pub plus : Amounts → Amounts → Amounts
plus a b = record {
  data_mb = a.data_mb +ℤ b.data_mb;
  minutes = a.minutes +ℤ b.minutes;
  sms_count = a.sms_count +ℤ b.sms_count;
  cents = a.cents +ℤ b.cents;
}

abbrev pub fit : Amounts → Bool
fit a = in_int4 a.data_mb && in_int4 a.minutes && in_int4 a.sms_count && in_int4 a.cents

-- A `time.Time`: an instant, and the offset from UTC in which its year and month are read.
pub record Moment : Type 0 where
  pub instant : ℕ
  pub offset : ℤ

-- The time is none where Go has the zero time.
pub record UsageEvent : Type 0 where
  pub org_id : String
  pub user_id : Option String
  pub source : String
  pub resource_id : Option String
  pub amounts : Amounts
  pub occurred_at : Option Moment

pub record Rollup : Type 0 where
  pub org_id : String
  pub user_id : Option String
  pub month : ℕ
  pub amounts : Amounts
  pub updated_at : ℕ

-- A row of `billing.usage_events`, without its serial number. A TIMESTAMPTZ keeps the instant and
-- not the offset.
pub record EventRow : Type 0 where
  pub org_id : ℕ
  pub user_id : Option ℕ
  pub source : String
  pub resource_id : String
  pub amounts : Amounts
  pub occurred_at : ℕ
  pub created_at : ℕ

-- A row of `billing.usage_rollups`.
pub record RollupRow : Type 0 where
  pub org_id : ℕ
  pub user_id : ℕ
  pub month : ℕ
  pub amounts : Amounts
  pub updated_at : ℕ

pub record Data : Type 0 where
  pub events : List EventRow
  pub rollups : List RollupRow
