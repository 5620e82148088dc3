-- ===== src/Cost/Bounds.antt =====
-- No charge passes the bound by which the service sizes its reservations.
use nektron_moments.Base.{
  ℕ, ◌+◌, ◌-◌, ◌*◌, ◌≤◌, max, ◌≡◌, ◌&&◌, refl, true, false, Option, none, some, leb, or_else, arith,
  Option-cases, inl, inr, leb→le, subst, Bool-cases,
}
use native.Mathlib.Nat.{mul-le-mul_left, mul-le-mul_right, le-max_left, le-max_right}
use nektron_moments.Numbers.{pos, negsuc, Decimal, finite}
use nektron_moments.Records.{TokenUsage}
use nektron_moments.Cost.{
  RawUsage, Candidate, integer, other, add, safe_fields, sanitize, ceil_million, Calculation,
  raises, unavailable, charge, token_cost, cost_of, scene_description_cost, bounded,
  usage_within_bounds, maximum_cost, max_safe_usage_tokens, max_billable_input_tokens,
  max_output_tokens, passes_limits,
}

ceil_million_mono : (a b : ℕ) → a ≤ b → ceil_million a ≤ ceil_million b
unfolding ceil_million
ceil_million_mono a b h = omega arith

split_cost : (input cached r : ℕ) → cached ≤ input → (input - cached) * r + cached * r ≡ input * r
split_cost input cached r h = grind arith

token_cost_le :
    (input cached output ri rc ro : ℕ)
    → cached ≤ input
    → input ≤ max_billable_input_tokens
    → output ≤ max_output_tokens
    → token_cost input cached output ri rc ro
      ≤ max_billable_input_tokens * max ri rc + max_output_tokens * ro
token_cost_le input cached output ri rc ro h i o =
    let m : ℕ = max ri rc in
    let fresh : (input - cached) * ri ≤ (input - cached) * m =
      mul-le-mul_left (input - cached) (le-max_left ri rc) in
    let old : cached * rc ≤ cached * m = mul-le-mul_left cached (le-max_right ri rc) in
    let bound : input * m ≤ max_billable_input_tokens * m = mul-le-mul_right m i in
    let out : output * ro ≤ max_output_tokens * ro = mul-le-mul_right ro o in
    omega (arith, split_cost input cached m h)

price_le :
    (u : TokenUsage) (input output ri rc ro : ℕ)
    → passes_limits input (or_else u.cached_input_tokens 0) output ≡ false
    → ceil_million (token_cost input (or_else u.cached_input_tokens 0) output ri rc ro)
      ≤ maximum_cost ri rc ro
unfolding maximum_cost passes_limits
price_le u input output ri rc ro h =
    let cached = or_else u.cached_input_tokens 0 in
    let fits : (cached ≤ input) × (input ≤ 2560) × (output ≤ 100) = ground arith in
    ceil_million_mono _ _ (token_cost_le input cached output ri rc ro fits.0 fits.1 fits.2)

-- What a calculation says of the amount that it charges, if it charges one.
abbrev ChargesAtMost : ℕ → Calculation → Type 0
ChargesAtMost m raises = Unit
ChargesAtMost m unavailable = Unit
ChargesAtMost m (charge c u) = c ≤ m

cost_of-ChargesAtMost :
    (u : TokenUsage) (i o : Option ℕ) (ri rc ro : ℕ)
    → ChargesAtMost
        (maximum_cost ri rc ro)
        (cost_of u i o (finite (pos ri)) (finite (pos rc)) (finite (pos ro)))
unfolding cost_of
cost_of-ChargesAtMost u none o ri rc ro = tt
cost_of-ChargesAtMost u (some i) none ri rc ro = tt
cost_of-ChargesAtMost u (some i) (some o) ri rc ro =
    elim (Bool-cases (passes_limits i (or_else u.cached_input_tokens 0) o)) [
      | inl large ↦ rw large tt
      | inr fits ↦ rw fits (price_le u i o ri rc ro fits)
    ]

cost-ChargesAtMost :
    (usage : Option RawUsage) (ri rc ro : ℕ)
    → ChargesAtMost
        (maximum_cost ri rc ro)
        (scene_description_cost usage (finite (pos ri)) (finite (pos rc)) (finite (pos ro)))
unfolding scene_description_cost
cost-ChargesAtMost usage ri rc ro = elim (Option-cases (sanitize usage)) [
  | inl nothing ↦ rw (nothing, scene_description_cost) tt
  | inr (u, safe) ↦
      rw (safe, scene_description_cost)
        (cost_of-ChargesAtMost u u.input_tokens u.output_tokens ri rc ro)
]

-- At finite, non-negative rates, whatever token counts a provider reports, a charge that is computed
-- from them is at most the maximum request cost that the service computes from the same rates.
pub cost-le-maximum :
    (usage : Option RawUsage) (ri rc ro c : ℕ) (u : TokenUsage)
    → scene_description_cost usage (finite (pos ri)) (finite (pos rc)) (finite (pos ro))
      ≡ charge c u
    → c ≤ maximum_cost ri rc ro
cost-le-maximum usage ri rc ro c u e =
    subst (ChargesAtMost (maximum_cost ri rc ro)) e (cost-ChargesAtMost usage ri rc ro)

-- A count that is kept is one that the payload held, and at most `MAX_SAFE_USAGE_TOKENS`.
abbrev pub Kept : Candidate → Option ℕ → Type 0
Kept v none = Unit
Kept v (some n) = (v ≡ integer (pos n)) × (n ≤ max_safe_usage_tokens)

add-Kept : (v : Candidate) → Kept v (add v)
unfolding add
add-Kept (integer (pos n)) = elim (Bool-cases (leb n max_safe_usage_tokens)) [
  | inl small ↦ rw small (refl, leb→le _ _ small)
  | inr large ↦ rw large tt
]
add-Kept (integer (negsuc n)) = tt
add-Kept other = tt

-- The sanitized counters hold nothing but counts of the payload, each under its own key, from 0 to
-- `MAX_SAFE_USAGE_TOKENS`; nested details take the place of the flat keys.
pub safe_fields-Kept :
    (v : RawUsage)
    → Kept v.input_tokens (safe_fields v).input_tokens
      × Kept v.output_tokens (safe_fields v).output_tokens
      × Kept v.total_tokens (safe_fields v).total_tokens
      × Kept (or_else v.input_details v.cached_input_tokens) (safe_fields v).cached_input_tokens
      × Kept
          (or_else v.output_details v.reasoning_output_tokens)
          (safe_fields v).reasoning_output_tokens
unfolding safe_fields
safe_fields-Kept v = (
  add-Kept v.input_tokens,
  add-Kept v.output_tokens,
  add-Kept v.total_tokens,
  add-Kept (or_else v.input_details v.cached_input_tokens),
  add-Kept (or_else v.output_details v.reasoning_output_tokens),
)

unbounded_passes :
    (input cached output : ℕ)
    → ((leb cached input && leb input max_billable_input_tokens) && leb output max_output_tokens)
      ≡ false
    → passes_limits input cached output ≡ true
unfolding passes_limits
unbounded_passes input cached output h = ground (arith, h)

cost_of_unbounded :
    (u : TokenUsage) (i o : Option ℕ) (rin rcached rout : Decimal)
    → bounded u i o ≡ false
    → cost_of u i o rin rcached rout ≡ unavailable
unfolding bounded cost_of passes_limits
cost_of_unbounded u none o rin rcached rout h = refl
cost_of_unbounded u (some i) none rin rcached rout h = refl
cost_of_unbounded u (some i) (some o) rin rcached rout h =
    rw (unbounded_passes i (or_else u.cached_input_tokens 0) o h) refl

-- Usage that the worker's result check refuses is never billed by its counts, at any rates.
pub cost_out_of_bounds :
    (usage : Option RawUsage) (rin rcached rout : Decimal)
    → usage_within_bounds usage ≡ false
    → scene_description_cost usage rin rcached rout ≡ unavailable
unfolding usage_within_bounds scene_description_cost
cost_out_of_bounds usage rin rcached rout h = elim (Option-cases (sanitize usage)) [
  | inl nothing ↦ rw (nothing, scene_description_cost) refl
  | inr (u, safe) ↦
      rw (safe, scene_description_cost)
        (cost_of_unbounded u u.input_tokens u.output_tokens rin rcached rout
          (rw (safe, usage_within_bounds) at h))
]
