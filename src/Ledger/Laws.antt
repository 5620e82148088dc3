-- ===== src/Ledger/Laws.antt =====
-- Reading the table after each kind of write.
use nektron_moments.Base.{
  ℕ, ◌≡◌, ◌⊎◌, none, refl, some, [], ◌∷◌, true, arith, if◌then◌else◌, str_eq_iff, Bool-cases,
  Option-cases, inl, inr,
}
use mathlib.Core.Option
use nektron_moments.Clock.{DateTime}
use nektron_moments.Records.{UsageKey, Usage, UnitType, same_unit}
use nektron_moments.Ledger.{Ledger, same_key, get, put, touch, new_usage, get_or_create}

same_unit→eq : (a b : UnitType) → same_unit a b ≡ true → a ≡ b
same_unit→eq UnitType.request UnitType.request h = refl
same_unit→eq UnitType.usd UnitType.usd h = refl
same_unit→eq UnitType.request UnitType.usd h = cc
same_unit→eq UnitType.usd UnitType.request h = cc

same_unit_refl : (a : UnitType) → same_unit a a ≡ true
same_unit_refl UnitType.request = refl
same_unit_refl UnitType.usd = refl

pub same_key→eq : (a b : UsageKey) → same_key a b ≡ true → a ≡ b
unfolding same_key
same_key→eq a b h =
    ground (arith, str_eq_iff a.provider b.provider, same_unit→eq a.unit_type b.unit_type)

pub same_key_refl : (a : UsageKey) → same_key a a ≡ true
unfolding same_key
same_key_refl a = ground (arith, str_eq_iff a.provider a.provider, same_unit_refl a.unit_type)

pub same_key_sym : (a b : UsageKey) → same_key a b ≡ same_key b a
same_key_sym a b = elim (Bool-cases (same_key a b)) [
  | inl e ↦ ground (arith, same_key→eq a b, same_key_refl a)
  | inr e ↦ elim (Bool-cases (same_key b a)) [
    | inl f ↦ ground (arith, same_key→eq b a, same_key_refl a)
    | inr f ↦ cc
  ]
]

pub get-put :
    (j k : UsageKey) (u : Usage) (l : Ledger)
    → get j (put k u l) ≡ (if same_key j k then some u else get j l)
unfolding get put
get-put j k u [] = refl
get-put j k u ((i, v) ∷ l) = ground (
  arith,
  get-put j k u l,
  same_key→eq k i,
  same_key→eq j i,
  same_key→eq j k,
  same_key_refl j,
  same_key_refl k,
)

pub get-touch :
    (j k : UsageKey) (f : Usage → Usage) (l : Ledger)
    → get j (touch k f l) ≡ (if same_key j k then Option.map f (get j l) else get j l)
unfolding touch
get-touch j k f l = elim (Bool-cases (same_key j k)) [
  | inl e ↦ elim (Option-cases (get k l)) [
    | inl missing ↦ ground (arith, same_key→eq j k)
    | inr (u, found) ↦ ground (arith, same_key→eq j k, get-put j k (f u) l)
  ]
  | inr e ↦ elim (Option-cases (get k l)) [
    | inl missing ↦ ground arith
    | inr (u, found) ↦ ground (arith, get-put j k (f u) l)
  ]
]

pub get-get_or_create :
    (j k : UsageKey) (limit : ℕ) (now : DateTime) (l : Ledger)
    → get j (get_or_create k limit now l).1
      ≡ (if same_key j k then some (get_or_create k limit now l).0 else get j l)
unfolding get_or_create
get-get_or_create j k limit now l = elim (Option-cases (get k l)) [
  | inl missing ↦ ground (arith, get-put j k (new_usage limit now) l)
  | inr (u, found) ↦ ground (arith, same_key→eq j k)
]

pub new_or_found :
    (k : UsageKey) (limit : ℕ) (now : DateTime) (l : Ledger)
    → ((get k l ≡ none) × ((get_or_create k limit now l).0 ≡ new_usage limit now))
      ⊎ ((u : Usage) × (get k l ≡ some u) × ((get_or_create k limit now l).0 ≡ u))
unfolding get_or_create
new_or_found k limit now l = elim (Option-cases (get k l)) [
  | inl missing ↦ inl (missing, rw (missing, get_or_create))
  | inr (u, found) ↦ inr (u, found, rw (found, get_or_create))
]

pub new_usage_empty :
    (limit : ℕ) (now : DateTime)
    → ((new_usage limit now).reserved_units ≡ 0) × ((new_usage limit now).processed_units ≡ 0)
unfolding new_usage
new_usage_empty limit now = (refl, refl)
