-- ===== src/Ledger.antt =====
-- The table `ProviderUsageMonth` behind `ProviderUsageRepository`
-- (services/domain/repositories.py): rows under their unique key.
pub mod Laws
use nektron_moments.Base.{
  Option, none, some, List, [], ◌∷◌, if◌then◌else◌, ℕ, Bool, ◌&&◌, ◌==◌, str_eq,
}
use nektron_moments.Clock.{DateTime}
use nektron_moments.Records.{UsageKey, Usage, Circuit, same_unit}

abbrev pub Ledger : Type 0
Ledger = List (UsageKey × Usage)

-- The four equations in the `where` of `ProviderUsageRepository.get`.
unfoldable pub same_key : UsageKey → UsageKey → Bool
same_key a b =
    (a.user_id == b.user_id)
    && (str_eq a.provider b.provider
        && ((a.usage_month == b.usage_month) && same_unit a.unit_type b.unit_type))

-- `ProviderUsageRepository.get`
unfoldable pub get : UsageKey → Ledger → Option Usage
get k [] = none
get k ((j, u) ∷ l) = if same_key k j then some u else get k l

-- A row written back under its key, or added.
unfoldable pub put : UsageKey → Usage → Ledger → Ledger
put k u [] = (k, u) ∷ []
put k u ((j, v) ∷ l) = if same_key k j then (j, u) ∷ l else (j, v) ∷ put k u l

-- Attributes assigned on a row that `get` returned; nothing happens where there is none.
unfoldable pub touch : UsageKey → (Usage → Usage) → Ledger → Ledger
touch k f l = elim (get k l) [ none ↦ l | some u ↦ put k (f u) l ]

-- The row that `get_or_create` adds.
unfoldable pub new_usage : ℕ → DateTime → Usage
new_usage limit now = record {
  processed_units = 0;
  reserved_units = 0;
  hard_limit_units = limit;
  circuit_state = Circuit.closed;
  circuit_opened_at = none;
  circuit_failure_code = none;
  created_at = now;
  updated_at = now;
}

-- `ProviderUsageRepository.get_or_create`: the row, and the table that holds it.
unfoldable pub get_or_create : UsageKey → ℕ → DateTime → Ledger → Usage × Ledger
unfolding new_usage
get_or_create k limit now l = elim (get k l) [
  | none ↦ (new_usage limit now, put k (new_usage limit now) l)
  | some u ↦ (u, l)
]
