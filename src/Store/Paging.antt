-- ===== src/Store/Paging.antt =====
-- backend/internal/store/store.go: ids and pages from the parameters of a request.
use go_react_fihos.Common.{
  ℕ, ◌-◌, ◌*◌, ◌%◌, ◌^◌, ◌≤◌, ◌≡◌, Option, none, some, arith, if◌then◌else◌, ltb,
}
use go_react_fihos.Common.Int.{ℤ, pos, negsuc}
use go_react_fihos.Common.Text.{Text}
use go_react_fihos.Service.Creds.{parse_int}

-- The error is `none`. A text with a minus sign is no number here: the code refuses it too.
abbrev pub positive_id : Option ℕ → Option ℕ
positive_id none = none
positive_id (some id) = if ltb 0 id then some id else none

unfoldable pub parse_id : Text → Option ℕ
parse_id s = positive_id (parse_int s)

-- What is no number, or below 1, becomes the default.
abbrev pub at_least_one : ℕ → Option ℕ → ℕ
at_least_one default none = default
at_least_one default (some n) = if ltb n 1 then default else n

abbrev pub at_most_100 : ℕ → ℕ
at_most_100 s = if ltb 100 s then 100 else s

unfoldable pub page_size : Text → Text → ℕ × ℕ
page_size page size =
    (at_least_one 1 (parse_int page), at_most_100 (at_least_one 20 (parse_int size)))

-- (page - 1) * size in a signed integer of 64 bits
unfoldable pub offset : ℕ → ℕ → ℤ
offset page size =
    let n = (page - 1) * size % 2 ^ 64 in if ltb n (2 ^ 63) then pos n else negsuc (2 ^ 64 - 1 - n)

times_le : (n a b : ℕ) → a ≤ b → n * a ≤ n * b
times_le n a b h = grind arith

pub offset_fits :
    (page size : ℕ) → page ≤ 2 ^ 56 → size ≤ 100 → offset page size ≡ pos ((page - 1) * size)
unfolding offset
offset_fits page size h k = let bound = times_le (page - 1) size 100 k in ground (arith, bound, h)

-- Whatever the request asks for, the page is 1 or more, the size from 1 to 100; and up to page
-- 2^56 the offset is the number of rows on the pages before, without overflow.
pub page_size-bounds :
    (page size : Text)
    → let (p, s) = page_size page size in
      (1 ≤ p) × (1 ≤ s) × (s ≤ 100) × (p ≤ 2 ^ 56 → offset p s ≡ pos ((p - 1) * s))
unfolding page_size
page_size-bounds page size =
    let p : ℕ = at_least_one 1 (parse_int page) in
    let s : ℕ = at_most_100 (at_least_one 20 (parse_int size)) in
    let most : s ≤ 100 = ground arith in
    (ground arith, ground arith, most, λ h. offset_fits p s h most)
