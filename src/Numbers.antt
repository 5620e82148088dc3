-- ===== src/Numbers.antt =====
-- Python numbers as the services use them. A `Decimal` is a finite count of millionths (the columns
-- are `Numeric(20, 6)` and the code quantizes to `USD_QUANTUM`) or one that is not finite.
use nektron_moments.Base.{ℕ, suc, ◌+◌, Bool, leb, ◌==◌, ◌&&◌}

-- `negsuc n` is -(n + 1).
pub data ℤ : Type 0 where
  pos : ℕ → ℤ
  negsuc : ℕ → ℤ

abbrev pub pos_part : ℤ → ℕ
pos_part (pos n) = n
pos_part (negsuc n) = 0

abbrev pub neg_part : ℤ → ℕ
neg_part (pos n) = 0
neg_part (negsuc n) = suc n

abbrev pub leb_ℤ : ℤ → ℤ → Bool
leb_ℤ a b = leb (pos_part a + neg_part b) (pos_part b + neg_part a)

abbrev pub eq_ℤ : ℤ → ℤ → Bool
eq_ℤ a b = (pos_part a == pos_part b) && (neg_part a == neg_part b)

pub data Decimal : Type 0 where
  finite : ℤ → Decimal
  not_finite : Decimal

-- What a key of a JSON object holds for a reader that parses it: nothing, a value that the parser
-- refuses, or a parsed value.
pub data Field {ℓ} (A : Type ℓ) : Type ℓ where
  absent : Field A
  malformed : Field A
  present : A → Field A
