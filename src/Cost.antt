-- ===== src/Cost.antt =====
-- The billing arithmetic of services/enrichment/openai_scene.py: sanitizing a provider's token
-- counts, the charge for one scene description, and the largest charge that one request can have.
pub mod Bounds
use nektron_moments.Base.{
  ℕ, ◌+◌, ◌-◌, ◌*◌, ◌/◌, ◌≤◌, max, Bool, true, false, not, ◌&&◌, ◌||◌, Option, none, some, ltb, leb,
  if◌then◌else◌, is_some, or_else,
}
use nektron_moments.Numbers.{ℤ, pos, negsuc, Decimal, finite, not_finite}
use nektron_moments.Records.{TokenUsage}

-- A value under a key of the untrusted payload: an `int` that is no `bool`, or anything else.
pub data Candidate : Type 0 where
  integer : ℤ → Candidate
  other : Candidate

-- The keys that are read; `input_details` is `none` unless `input_tokens_details` is a mapping.
pub record RawUsage : Type 0 where
  pub input_tokens : Candidate
  pub output_tokens : Candidate
  pub total_tokens : Candidate
  pub input_details : Option Candidate
  pub cached_input_tokens : Candidate
  pub output_details : Option Candidate
  pub reasoning_output_tokens : Candidate

abbrev pub max_safe_usage_tokens : ℕ
max_safe_usage_tokens = 10000000

-- 2048 image tokens and 512 prompt tokens
abbrev pub max_billable_input_tokens : ℕ
max_billable_input_tokens = 2560

abbrev pub max_output_tokens : ℕ
max_output_tokens = 100

abbrev pub million : ℕ
million = 1000000

-- The local function `add`.
unfoldable pub add : Candidate → Option ℕ
add (integer (pos n)) = if leb n max_safe_usage_tokens then some n else none
add (integer (negsuc n)) = none
add other = none

-- The safe fields, before `safe or None`.
unfoldable pub safe_fields : RawUsage → TokenUsage
unfolding add
safe_fields v = record {
  input_tokens = add v.input_tokens;
  output_tokens = add v.output_tokens;
  total_tokens = add v.total_tokens;
  cached_input_tokens = add (or_else v.input_details v.cached_input_tokens);
  reasoning_output_tokens = add (or_else v.output_details v.reasoning_output_tokens);
}

abbrev has_field : TokenUsage → Bool
has_field u =
    is_some u.input_tokens
    || (is_some u.output_tokens
        || (is_some u.total_tokens
            || (is_some u.cached_input_tokens || is_some u.reasoning_output_tokens)))

-- `sanitize_scene_description_usage`; `none` is a payload that is no mapping.
unfoldable pub sanitize : Option RawUsage → Option TokenUsage
unfolding safe_fields
sanitize none = none
sanitize (some v) = if has_field (safe_fields v) then some (safe_fields v) else none

-- `quantize(USD_QUANTUM, rounding=ROUND_CEILING)` of a count of 10^-12 dollars
unfoldable pub ceil_million : ℕ → ℕ
ceil_million n = (n + (million - 1)) / million

-- The outcome of `scene_description_cost_usd`: its ValueError, None, or the charge in millionths.
pub data Calculation : Type 0 where
  raises : Calculation
  unavailable : Calculation
  charge : ℕ → TokenUsage → Calculation

-- `not rate.is_finite() or rate < 0` fails: the rate, in millionths of a dollar per million tokens.
unfoldable pub rate_value : Decimal → Option ℕ
rate_value (finite (pos n)) = some n
rate_value (finite (negsuc n)) = none
rate_value not_finite = none

abbrev pub token_cost : ℕ → ℕ → ℕ → ℕ → ℕ → ℕ → ℕ
token_cost input cached output rin rcached rout =
    (input - cached) * rin + cached * rcached + output * rout

price : ℕ → ℕ → ℕ → TokenUsage → Option ℕ → Option ℕ → Option ℕ → Calculation
unfolding ceil_million
price input cached output u (some ri) (some rc) (some ro) =
    charge (ceil_million (token_cost input cached output ri rc ro)) u
price input cached output u _ _ _ = raises

-- The condition of the `return None`: a count is out of its bounds.
unfoldable passes_limits : ℕ → ℕ → ℕ → Bool
passes_limits input cached output =
    ltb input cached || (ltb max_billable_input_tokens input || ltb max_output_tokens output)

cost_of : TokenUsage → Option ℕ → Option ℕ → Decimal → Decimal → Decimal → Calculation
unfolding price rate_value passes_limits
cost_of u (some input) (some output) rin rcached rout =
    let cached = or_else u.cached_input_tokens 0 in
    if passes_limits input cached output
    then unavailable
    else price input cached output u (rate_value rin) (rate_value rcached) (rate_value rout)
cost_of u _ _ rin rcached rout = unavailable

-- `scene_description_cost_usd`
unfoldable pub scene_description_cost : Option RawUsage → Decimal → Decimal → Decimal → Calculation
unfolding cost_of sanitize
scene_description_cost usage rin rcached rout = elim (sanitize usage) [
  | none ↦ unavailable
  | some u ↦ cost_of u u.input_tokens u.output_tokens rin rcached rout
]

bounded : TokenUsage → Option ℕ → Option ℕ → Bool
bounded u (some input) (some output) =
    let cached = or_else u.cached_input_tokens 0 in
    (leb cached input && leb input max_billable_input_tokens) && leb output max_output_tokens
bounded u _ _ = true

-- `scene_description_usage_within_bounds`
unfoldable pub usage_within_bounds : Option RawUsage → Bool
unfolding bounded sanitize
usage_within_bounds usage = elim (sanitize usage) [
  | none ↦ true
  | some u ↦ bounded u u.input_tokens u.output_tokens
]

-- `scene_description_maximum_cost_usd`, at rates that the caller has found finite and non-negative.
unfoldable pub maximum_cost : ℕ → ℕ → ℕ → ℕ
unfolding ceil_million
maximum_cost rin rcached rout =
    ceil_million (max_billable_input_tokens * max rin rcached + max_output_tokens * rout)
