-- ===== src/Service/VoucherCode/Normal.antt =====
-- backend/internal/service/voucher.go: NormalizeCode against GenerateCode and DisplayCode.
use go_react_fihos.Common.{
  ℕ, zero, suc, ◌==◌, ◌≡◌, refl, ap, sym, ◌∙◌, true, false, some, List, [], ◌∷◌, ◌++◌, arith,
  length, take, drop, take-append-drop, any, all, get_elem?, Option-cases, inl, inr,
}
use go_react_fihos.Common.Text.{Text}
use go_react_fihos.Service.VoucherCode.{
  Outcome, ok, err, ◌>>=◌, alphabet, in_alphabet, dashed, draw_chars, generate_code, strip,
  to_upper, upper_rune, normalize_code, display_code,
}

-- Eight characters of the alphabet.
abbrev pub IsCode : Text → Type 0
IsCode s = (length s ≡ 8) × (all in_alphabet s ≡ true)

-- A character of the alphabet is kept by both passes.
kept_char :
    (c : ℕ)
    → in_alphabet c ≡ true
    → (upper_rune c ≡ c) × ((c == b'-') ≡ false) × ((c == b' ') ≡ false)
unfolding in_alphabet
kept_char c h = ground arith

kept : (s : Text) → all in_alphabet s ≡ true → to_upper (strip s) ≡ s
kept [] h = refl
kept (c ∷ s) h =
    let head : in_alphabet c ≡ true = ground arith in
    let tail = kept s (ground arith) in
    let (up, dash, space) = kept_char c head in rw dash (rw space (rw up (ap (λ r. c ∷ r) tail)))

strip-append : (s t : Text) → strip (s ++ t) ≡ strip s ++ strip t
strip-append [] t = refl
strip-append (c ∷ s) t = ground (arith, strip-append s t)

-- Where a code is accepted it is eight characters of the alphabet, and is accepted as it is.
pub normalize_code-IsCode :
    (raw s : Text) → normalize_code raw ≡ ok s → IsCode s × (normalize_code s ≡ ok s)
unfolding normalize_code
normalize_code-IsCode raw s h = ground (arith, kept s)

strip-dashed : (s : Text) → strip (dashed s) ≡ strip s
strip-dashed s =
    strip-append (take 4 s) (b'-' ∷ drop 4 s)
    ∙ sym (strip-append (take 4 s) (drop 4 s))
    ∙ ap strip (take-append-drop 4 s)

normalize_code-dashed : (s : Text) → IsCode s → normalize_code (dashed s) ≡ ok s
unfolding normalize_code
normalize_code-dashed s (long, good) = rw (strip-dashed s) (rw (kept s good) (rw long (rw good)))

-- What is printed on a voucher is normalised to the code that it shows.
pub normalize_code-display_code : (s : Text) → IsCode s → normalize_code (display_code s) ≡ ok s
unfolding display_code
normalize_code-display_code s h = rw h.0 (normalize_code-dashed s h)

any-get_elem? : (xs : List ℕ) (n c : ℕ) → get_elem? xs n ≡ some c → any (λ a. a == c) xs ≡ true
any-get_elem? [] n c e = cc
any-get_elem? (x ∷ xs) zero c e = ground arith
any-get_elem? (x ∷ xs) (suc n) c e = ground (arith, any-get_elem? xs n c)

in_alphabet-get_elem? : (n c : ℕ) → get_elem? alphabet n ≡ some c → in_alphabet c ≡ true
unfolding in_alphabet
in_alphabet-get_elem? n c e = any-get_elem? alphabet n c e

abbrev Drawn : ℕ → Outcome (Text × List ℕ) → Type 0
Drawn k (err e) = Unit
Drawn k (ok (s, rest)) = (length s ≡ k) × (all in_alphabet s ≡ true)

Drawn-cons :
    (k c : ℕ) (r : Outcome (Text × List ℕ))
    → in_alphabet c ≡ true
    → Drawn k r
    → Drawn (suc k) (r >>= λ (s, rest). ok (c ∷ s, rest))
Drawn-cons k c (err e) h d = tt
Drawn-cons k c (ok (s, rest)) h (long, good) = (ap suc long, rw h good)

draw_chars-Drawn : (k : ℕ) (ns : List ℕ) → Drawn k (draw_chars k ns)
unfolding draw_chars
draw_chars-Drawn zero ns = (refl, refl)
draw_chars-Drawn (suc k) [] = tt
draw_chars-Drawn (suc k) (n ∷ ns) = elim (Option-cases (get_elem? alphabet n)) [
  | inl outside ↦ rw outside tt
  | inr (c, e) ↦
      rw e (Drawn-cons k c (draw_chars k ns) (in_alphabet-get_elem? n c e) (draw_chars-Drawn k ns))
]

-- A code with its dash that normalises to the code.
abbrev pub Printed : Outcome (Text × List ℕ) → Type 0
Printed (err e) = Unit
Printed (ok (code, rest)) = (s : Text) × (code ≡ dashed s) × IsCode s × (normalize_code code ≡ ok s)

Printed-dashed :
    (r : Outcome (Text × List ℕ)) → Drawn 8 r → Printed (r >>= λ (s, rest). ok (dashed s, rest))
Printed-dashed (err e) d = tt
Printed-dashed (ok (s, rest)) d = (s, refl, d, normalize_code-dashed s d)

-- Every code that is generated has eight characters of the alphabet round a dash, and a customer who
-- types it in is looked up by those eight.
pub generate_code-Printed : (ns : List ℕ) → Printed (generate_code ns)
unfolding generate_code
generate_code-Printed ns = Printed-dashed (draw_chars 8 ns) (draw_chars-Drawn 8 ns)
