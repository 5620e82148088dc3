-- ===== src/Settings.antt =====
-- The scene-description settings of `Phase1DomainService.__init__`. The amounts are millionths of a
-- dollar; `__init__` refuses settings that are not finite or are negative.
use nektron_moments.Base.{ℕ, String}

pub record Settings : Type 0 where
  pub model : String
  pub detail : String
  pub service_tier : String
  pub max_words : ℕ
  pub monthly_call_limit : ℕ
  pub monthly_usd_limit : ℕ
  pub reserved_usd : ℕ
  pub input_rate : ℕ
  pub cached_input_rate : ℕ
  pub output_rate : ℕ

-- `DESCRIPTION_PROVIDER`
abbrev pub description_provider : String
description_provider = "OpenAI"

-- `Decimal("1")` in millionths
abbrev pub one_unit : ℕ
one_unit = 1000000
