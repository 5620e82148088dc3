-- ===== src/Records/UsageRow.antt =====
-- `ProviderUsageMonth`: its unique key, and the columns that are not part of it.
use nektron_moments.Base.{ℕ, String, Option}
use nektron_moments.Clock.{DateTime, Month}
use nektron_moments.Records.Enums.{UnitType, Circuit}

pub record UsageKey : Type 0 where
  pub user_id : ℕ
  pub provider : String
  pub usage_month : Month
  pub unit_type : UnitType

pub record Usage : Type 0 where
  pub processed_units : ℕ
  pub reserved_units : ℕ
  pub hard_limit_units : ℕ
  pub circuit_state : Circuit
  pub circuit_opened_at : Option DateTime
  pub circuit_failure_code : Option String
  pub created_at : DateTime
  pub updated_at : DateTime
