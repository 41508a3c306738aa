-- ===== src/Common/Text.antt =====
-- Texts as lists of bytes, their comparison, and decimal numerals (`strconv.FormatInt`,
-- `strconv.ParseInt`).
pub mod Decimal
use Prim.Native.Char.{code}
use Prim.Native.String.{String}
use Prim.Native.Nat.{ℕ, zero, suc, ◌+◌, ◌-◌, ◌*◌, ◌/◌, ◌%◌}
use mathlib.Core.Path.{◌≡◌, refl}
use mathlib.Core.Logic.{◌↔◌}
use mathlib.Core.Bool.{Bool, true, false, ◌&&◌}
use mathlib.Core.Option.{Option, none, some}
use mathlib.Core.List.{List, [], ◌∷◌, ◌++◌}
use native.Mathlib.Omega.{arith}
use go_react_fihos.Common.Tests.{◌==◌, leb, ltb, if◌then◌else◌}

abbrev pub Text : Type 0
Text = List ℕ

-- The bytes of an ASCII text.
abbrev pub codes : String → Text
codes String.[] = []
codes (String.◌∷◌ c s) = code c ∷ codes s

abbrev pub text_eq : Text → Text → Bool
text_eq [] [] = true
text_eq (a ∷ r) (b ∷ bs) = a == b && text_eq r bs
text_eq _ _ = false

pub text_eq_iff : (s t : Text) → (text_eq s t ≡ true) ↔ (s ≡ t)
text_eq_iff [] [] = ground arith
text_eq_iff (a ∷ r) (b ∷ bs) = ground (arith, text_eq_iff r bs)
text_eq_iff [] (b ∷ bs) = ground arith
text_eq_iff (a ∷ r) [] = ground arith

-- What the maps with texts as keys rely on.
pub same_text : (j k : Text) → ((text_eq j k ≡ true) → j ≡ k) × (text_eq k k ≡ true)
same_text j k = ((text_eq_iff j k).0, (text_eq_iff k k).1 refl)

-- `strings.ToLower` on ASCII; other bytes stay.
abbrev pub lower : ℕ → ℕ
lower c = if leb b'A' c && leb c b'Z' then c + 32 else c

abbrev pub to_lower : Text → Text
to_lower [] = []
to_lower (c ∷ s) = lower c ∷ to_lower s

-- `strconv.FormatInt(n, 10)` of a number that is not negative; n rounds are more than enough.
unfoldable pub format_rounds : ℕ → ℕ → Text
format_rounds zero n = []
format_rounds (suc f) n =
    let rest = format_rounds f (n / 10) in
    if ltb n 10 then (b'0' + n) ∷ [] else rest ++ (b'0' + n % 10) ∷ []

unfoldable pub format_int : ℕ → Text
unfolding format_rounds
format_int n = format_rounds (suc n) n

abbrev pub is_digit : ℕ → Bool
is_digit c = leb b'0' c && leb c b'9'

unfoldable pub parse_digits : ℕ → Text → Option ℕ
parse_digits acc [] = some acc
parse_digits acc (c ∷ s) =
    let rest = parse_digits (acc * 10 + (c - b'0')) s in if is_digit c then rest else none
