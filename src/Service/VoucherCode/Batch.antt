-- ===== src/Service/VoucherCode/Batch.antt =====
-- backend/internal/service/voucher.go: the loop of GenerateBatchCodes.
use mathlib.Core.List.{append_assoc}
use go_react_fihos.Common.{
  ℕ, zero, suc, ◌+◌, ◌<◌, ◌≤◌, ◌≡◌, refl, ap, sym, ◌||◌, false, List, [], ◌∷◌, ◌++◌, arith, length,
  length-append, take, map, leb, Bool-cases, inl, inr,
}
use go_react_fihos.Common.Text.{Text, text_eq, text_eq_iff}
use go_react_fihos.Service.VoucherCode.{Outcome, ok, err, seen, batch_loop}

abbrev pub IsDistinct : List Text → Type 0
IsDistinct [] = Unit
IsDistinct (c ∷ cs) = (seen c cs ≡ false) × IsDistinct cs

text_eq_comm : (s t : Text) → text_eq s t ≡ text_eq t s
text_eq_comm s t = ground (arith, text_eq_iff s t, text_eq_iff t s)

seen-append : (c : Text) (xs ys : List Text) → seen c (xs ++ ys) ≡ (seen c xs || seen c ys)
seen-append c [] ys = refl
seen-append c (x ∷ xs) ys = ground (arith, seen-append c xs ys)

IsDistinct-append :
    (xs : List Text) (c : Text) → IsDistinct xs → seen c xs ≡ false → IsDistinct (xs ++ c ∷ [])
IsDistinct-append [] c h n = (refl, tt)
IsDistinct-append (x ∷ xs) c (new, h) n = (
  ground (arith, seen-append x xs (c ∷ []), text_eq_comm x c),
  IsDistinct-append xs c h (ground arith),
)

-- What the loop returns, from any codes so far.
abbrev Grown : ℕ → List Text → Type 0
Grown count codes = (length codes ≡ count) × IsDistinct codes

loop-Grown :
    (count : ℕ) (out : List Text) (rs : List (Outcome Text)) (codes : List Text)
    → length out ≤ count
    → IsDistinct out
    → batch_loop count out rs ≡ ok codes
    → Grown count codes
unfolding batch_loop
loop-Grown count out [] codes h d e = ground arith
loop-Grown count out (ok c ∷ rs) codes h d e = elim (Bool-cases (leb count (length out))) [
  | inl full ↦ ground arith
  | inr more ↦ elim (Bool-cases (seen c out)) [
    | inl old ↦ loop-Grown count out rs codes h d (rw (more, old) at e)
    | inr new ↦
        loop-Grown count (out ++ c ∷ []) rs codes
          (omega (
            arith,
            length-append {0} out (c ∷ []),
            (let lt : length out < count = ground arith in lt),
          ))
          (IsDistinct-append out c d new) (rw (more, new) at e)
  ]
]
loop-Grown count out (err x ∷ rs) codes h d e = ground arith

-- A batch that is returned has as many codes as asked for, no two of them alike.
pub batch_loop-Grown :
    (count : ℕ) (rs : List (Outcome Text)) (codes : List Text)
    → batch_loop count [] rs ≡ ok codes
    → (length codes ≡ count) × IsDistinct codes
batch_loop-Grown count rs codes = loop-Grown count [] rs codes (omega arith) tt

take-append : {A : Type 0} (n : ℕ) (xs ys : List A) → length xs ≡ n → take n (xs ++ ys) ≡ xs
take-append zero [] ys e = refl
take-append zero (x ∷ xs) ys e = cc
take-append (suc n) [] ys e = cc
take-append (suc n) (x ∷ xs) ys e = ap (λ r. x ∷ r) (take-append n xs ys (omega arith))

IsDistinct-new :
    (out : List Text) (c : Text) (cs : List Text) → IsDistinct (out ++ c ∷ cs) → seen c out ≡ false
IsDistinct-new [] c cs d = refl
IsDistinct-new (x ∷ out) c cs d =
    ground (arith, IsDistinct-new out c cs d.1, seen-append x out (c ∷ cs), text_eq_comm x c)

loop_returns :
    (count : ℕ) (out cs : List Text)
    → length out ≤ count
    → count ≤ length out + length cs
    → IsDistinct (out ++ cs)
    → batch_loop count out (map ok cs) ≡ ok (take count (out ++ cs))
unfolding batch_loop
loop_returns count out [] h k d = ground (arith, take-append count out [])
loop_returns count out (c ∷ cs) h k d = elim (Bool-cases (leb count (length out))) [
  | inl full ↦ rw full (ap ok (sym (take-append count out (c ∷ cs) (ground arith))))
  | inr more ↦ rw more (
      rw (IsDistinct-new out c cs d) (
        rw
          (loop_returns count (out ++ c ∷ []) cs
            (omega (arith, length-append {0} out (c ∷ []), room more))
            (omega (arith, length-append {0} out (c ∷ []))) (rw append_assoc d))
          (ap (λ r. ok (take count r)) (append_assoc out (c ∷ []) cs))))
]
  where
    room : leb count (length out) ≡ false → length out < count
    room more = ground arith

-- If GenerateCode returns enough codes, no two alike, the batch is the first of them.
pub batch_loop_returns :
    (count : ℕ) (cs : List Text)
    → count ≤ length cs
    → IsDistinct cs
    → batch_loop count [] (map ok cs) ≡ ok (take count cs)
batch_loop_returns count cs h d = loop_returns count [] cs (omega arith) (omega arith) d
