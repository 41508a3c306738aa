-- ===== src/Service/VoucherCode.antt =====
-- backend/internal/service/voucher.go: voucher codes "XXXX-XXXX". A text is a list of code points.
-- The random numbers (crypto/rand) are an argument; where they end, the source has failed.
pub mod Normal
pub mod Batch
use go_react_fihos.Common.{
  ℕ, zero, suc, ◌+◌, ◌-◌, ◌==◌, ◌&&◌, ◌||◌, Bool, true, false, not, Option, none, some, List, [],
  ◌∷◌, ◌++◌, if◌then◌else◌, leb, length, get_elem?, take, drop, any, all,
}
use go_react_fihos.Common.Text.{Text, codes, text_eq}

pub data CodeError : Type 0 where
  invalid_code random_source : CodeError

pub data Outcome (A : Type 0) : Type 0 where
  ok : A → Outcome A
  err : CodeError → Outcome A

infixl 5 ◌>>=◌
abbrev pub ◌>>=◌ : {A B : Type 0} → Outcome A → (A → Outcome B) → Outcome B
ok a >>= f = f a
err e >>= f = err e

abbrev pub alphabet : Text
alphabet = codes "234567ABCDEFGHJKLMNPQRSTUVWXYZ"

unfoldable pub in_alphabet : ℕ → Bool
in_alphabet c = any (λ a. a == c) alphabet

-- b.WriteByte(alphabet[n]): an index out of range is a panic, which rand.Int excludes.
abbrev pub draw_char : Option ℕ → Outcome ℕ
draw_char none = err random_source
draw_char (some c) = ok c

-- n characters from the random numbers, with those that are left.
unfoldable pub draw_chars : ℕ → List ℕ → Outcome (Text × List ℕ)
draw_chars zero ns = ok ([], ns)
draw_chars (suc k) [] = err random_source
draw_chars (suc k) (n ∷ ns) = do
  c ← draw_char (get_elem? alphabet n)
  (s, rest) ← draw_chars k ns
  ok (c ∷ s, rest)

-- s[:4] + "-" + s[4:]
abbrev pub dashed : Text → Text
dashed s = take 4 s ++ b'-' ∷ drop 4 s

unfoldable pub generate_code : List ℕ → Outcome (Text × List ℕ)
unfolding draw_chars
generate_code ns = do (s, rest) ← draw_chars 8 ns; ok (dashed s, rest)

-- strings.NewReplacer("-", "", " ", "")
abbrev pub strip : Text → Text
strip [] = []
strip (c ∷ s) = if c == b'-' || c == b' ' then strip s else c ∷ strip s

-- unicode.ToUpper as far as it gives ASCII: beside a-z only U+0131 (I) and U+017F (S).
abbrev pub upper_rune : ℕ → ℕ
upper_rune c =
    if leb b'a' c && leb c b'z'
    then c - 32
    else if c == 0x131
    then b'I'
    else if c == 0x17f
    then b'S'
    else c

abbrev pub to_upper : Text → Text
to_upper [] = []
to_upper (c ∷ s) = upper_rune c ∷ to_upper s

-- `len` counts bytes and this counts code points: where they differ, some code point is not in
-- the alphabet, and both tests end in ErrInvalidCode.
unfoldable pub normalize_code : Text → Outcome Text
normalize_code raw =
    let s = to_upper (strip raw) in
    if not (length s == 8)
    then err invalid_code
    else if all in_alphabet s
    then ok s
    else err invalid_code

unfoldable pub display_code : Text → Text
display_code code = if length code == 8 then dashed code else code

abbrev pub seen : Text → List Text → Bool
seen code codes = any (text_eq code) codes

-- The loop of GenerateBatchCodes over the results of GenerateCode: `out` holds the codes so far
-- and is the map `seen` too.
unfoldable pub batch_loop : ℕ → List Text → List (Outcome Text) → Outcome (List Text)
batch_loop count out [] = if leb count (length out) then ok out else err random_source
batch_loop count out (r ∷ rs) = if leb count (length out) then ok out else elim r [
  | ok code ↦ batch_loop count (if seen code out then out else out ++ code ∷ []) rs
  | err e ↦ err e
]
