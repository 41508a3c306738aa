-- ===== src/Common/Text/Decimal.antt =====
-- Decimal numerals: printing against parsing.
use Prim.Native.Nat.{ℕ, zero, suc, ◌+◌, ◌-◌, ◌*◌, ◌/◌, ◌%◌, ◌<◌}
use mathlib.Core.Path.{◌≡◌, refl}
use mathlib.Core.Bool.{true}
use mathlib.Core.Logic.{inl, inr}
use mathlib.Core.Option.{Option, none, some}
use mathlib.Core.List.{[], ◌∷◌, ◌++◌}
use native.Mathlib.Omega.{arith}
use go_react_fihos.Common.Tests.{ltb, Bool-cases}
use go_react_fihos.Common.Lists.{All, All-append}
use go_react_fihos.Common.Text.{Text, is_digit, format_rounds, format_int, parse_digits}

abbrev continue : Option ℕ → Text → Option ℕ
continue none s = none
continue (some acc) s = parse_digits acc s

parse_digits-append :
    (acc : ℕ) (s t : Text) → parse_digits acc (s ++ t) ≡ continue (parse_digits acc s) t
unfolding parse_digits
parse_digits-append acc [] t = refl
parse_digits-append acc (c ∷ s) t = elim (Bool-cases (is_digit c)) [
  | inl d ↦ rw d (parse_digits-append (acc * 10 + (c - b'0')) s t)
  | inr d ↦ rw d
]

parse_digits-format_rounds : (f n : ℕ) → n < f → parse_digits 0 (format_rounds f n) ≡ some n
unfolding format_rounds parse_digits
parse_digits-format_rounds zero n h = elim h [ ]
parse_digits-format_rounds (suc f) n h = elim (Bool-cases (ltb n 10)) [
  | inl small ↦ rw small (ground arith)
  | inr big ↦ rw big (
      rw (parse_digits-append 0 (format_rounds f (n / 10)) ((b'0' + n % 10) ∷ []))
        (rw (parse_digits-format_rounds f (n / 10) (ground arith)) (ground arith)))
]

-- Printing then reading gives the number back.
pub parse_digits-format_int : (n : ℕ) → parse_digits 0 (format_int n) ≡ some n
unfolding format_int
parse_digits-format_int n = parse_digits-format_rounds (suc n) n (omega arith)

All-digits : (f n : ℕ) → All (λ c. is_digit c ≡ true) (format_rounds f n)
unfolding format_rounds
All-digits zero n = tt
All-digits (suc f) n = elim (Bool-cases (ltb n 10)) [
  | inl small ↦ rw small (ground arith, tt)
  | inr big ↦ rw big (
      All-append (λ c. is_digit c ≡ true) (format_rounds f (n / 10)) _ (All-digits f (n / 10))
        (ground arith, tt))
]

pub format_int-digits : (n : ℕ) → All (λ c. is_digit c ≡ true) (format_int n)
unfolding format_int
format_int-digits n = All-digits (suc n) n
