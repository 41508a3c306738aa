-- ===== src/Store/Amount.antt =====
-- Amounts that are float64 in Go, and what a NUMERIC(12, 2) column keeps of them.
use go_react_fihos.Common.{Bool, false, ◌&&◌, if◌then◌else◌}
use go_react_fihos.Common.Int.{ℤ, pos, ◌+ℤ◌, ltb_ℤ, leb_ℤ}

-- Where an amount lies between two whole cents: below their middle, at it, or above it.
pub data Part : Type 0 where
  below half above : Part

-- An amount of whole cents, or one between `c` cents and the next. The driver sends the decimal
-- numeral of a float64. The addition of float64 rounds: the last part of `between` is what is
-- stored of the sum with a balance. A sum of whole cents that the column holds is stored exactly.
pub data Amount : Type 0 where
  cents : ℤ → Amount
  between : ℤ → Part → (ℤ → ℤ) → Amount

-- NUMERIC rounds to the nearest cent, and away from zero at the middle.
abbrev pub rounded : ℤ → Part → ℤ
rounded c below = c
rounded c half = if ltb_ℤ c (pos 0) then c else c +ℤ pos 1
rounded c above = c +ℤ pos 1

-- The amount in a column.
abbrev pub stored : Amount → ℤ
stored (cents c) = c
stored (between c p f) = rounded c p

-- balance + $1, which PostgreSQL adds exactly, in a column.
abbrev pub added : ℤ → Amount → ℤ
added balance (cents c) = balance +ℤ c
added balance (between c p f) = rounded (balance +ℤ c) p

-- balance + delta in Go, in a column.
abbrev pub summed : ℤ → Amount → ℤ
summed balance (cents c) = balance +ℤ c
summed balance (between c p f) = f balance

-- balance + delta < 0: the sign of a sum of float64 is exact.
abbrev pub overdraws : ℤ → Amount → Bool
overdraws balance (cents c) = ltb_ℤ (balance +ℤ c) (pos 0)
overdraws balance (between c p f) = ltb_ℤ (balance +ℤ c) (pos 0)

-- amount <= 0
abbrev pub not_positive : Amount → Bool
not_positive (cents c) = leb_ℤ c (pos 0)
not_positive (between c p f) = ltb_ℤ c (pos 0)

-- delta == 0
abbrev pub is_nil : Amount → Bool
is_nil (cents c) = leb_ℤ c (pos 0) && leb_ℤ (pos 0) c
is_nil (between c p f) = false
