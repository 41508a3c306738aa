-- ===== src/Store/Sql.antt =====
-- What the statements of the store compute on a table, which is a list of rows in the order of
-- their ids.
use mathlib.Core.Path.{subst, sym}
use go_react_fihos.Common.{
  ◌≤◌, ℕ, ◌+◌, inl, inr, Bool-cases, ◌≡◌, refl, ap, Bool, true, false, Option, none, some, List, [],
  ◌∷◌, ◌++◌, arith, if◌then◌else◌, All,
}

pub some-inj : {A : Type 0} {x y : A} → some x ≡ some y → x ≡ y
some-inj e = cc

module _ {A : Type 0} where
  -- SELECT ... WHERE p, scanned by QueryRow: the first row.
  abbrev pub select_row : (A → Bool) → List A → Option A
  select_row p [] = none
  select_row p (x ∷ xs) = if p x then some x else select_row p xs

  -- UPDATE ... SET f WHERE p
  abbrev pub update_where : (A → Bool) → (A → A) → List A → List A
  update_where p f [] = []
  update_where p f (x ∷ xs) = (if p x then f x else x) ∷ update_where p f xs

  -- RowsAffected of a statement WHERE p, or SELECT count(*)
  abbrev pub count_where : (A → Bool) → List A → ℕ
  count_where p [] = 0
  count_where p (x ∷ xs) = (if p x then 1 else 0) + count_where p xs

  abbrev pub select_rows : (A → Bool) → List A → List A
  select_rows p [] = []
  select_rows p (x ∷ xs) = if p x then x ∷ select_rows p xs else select_rows p xs

  -- DELETE ... WHERE p
  abbrev pub delete_where : (A → Bool) → List A → List A
  delete_where p [] = []
  delete_where p (x ∷ xs) = if p x then delete_where p xs else x ∷ delete_where p xs

  pub All-update_imp :
      (P Q : A → Type 0) (p : A → Bool) (f : A → A) (xs : List A)
      → ((x : A) → P x → Q (if p x then f x else x))
      → All P xs
      → All Q (update_where p f xs)
  All-update_imp P Q p f [] h a = tt
  All-update_imp P Q p f (x ∷ xs) h a = (h x a.0, All-update_imp P Q p f xs h a.1)

  -- The row that a key selects, after an update by the same key that keeps the key.
  pub select-update_self :
      (p : A → Bool) (f : A → A) (xs : List A) (x : A)
      → ((y : A) → p (f y) ≡ p y)
      → select_row p xs ≡ some x
      → select_row p (update_where p f xs) ≡ some (f x)
  select-update_self p f [] x k e = ground arith
  select-update_self p f (y ∷ xs) x k e = elim (Bool-cases (p y)) [
    | inl t ↦ rw t (rw (k y) (rw t (ap (λ z. some (f z)) (some-inj (rw t at e)))))
    | inr t ↦ rw t (rw t (select-update_self p f xs x k (rw t at e)))
  ]

  -- The row that a key selects, after any update that keeps the key.
  pub select-update :
      (p q : A → Bool) (f : A → A) (xs : List A) (x : A)
      → ((y : A) → q (if p y then f y else y) ≡ q y)
      → select_row q xs ≡ some x
      → select_row q (update_where p f xs) ≡ some (if p x then f x else x)
  select-update p q f [] x k e = cc
  select-update p q f (y ∷ xs) x k e = elim (Bool-cases (q y)) [
    | inl t ↦ rw (k y) (rw t (ap (λ z. some (if p z then f z else z)) (some-inj (rw t at e))))
    | inr t ↦ rw (k y) (rw t (select-update p q f xs x k (rw t at e)))
  ]

  -- An update by another key leaves the selected row alone.
  pub select-update_other :
      (p q : A → Bool) (f : A → A) (xs : List A)
      → ((y : A) → p y ≡ true → q y ≡ false)
      → ((y : A) → p y ≡ true → q (f y) ≡ false)
      → select_row q (update_where p f xs) ≡ select_row q xs
  select-update_other p q f [] h k = refl
  select-update_other p q f (y ∷ xs) h k =
      ground (arith, h y, k y, select-update_other p q f xs h k)

  -- An update that keeps a key finds no row that was not there.
  pub select-update_missing :
      (p : A → Bool) (f : A → A) (xs : List A)
      → ((y : A) → p (f y) ≡ p y)
      → select_row p xs ≡ none
      → select_row p (update_where p f xs) ≡ none
  select-update_missing p f [] k e = refl
  select-update_missing p f (y ∷ xs) k e = elim (Bool-cases (p y)) [
    | inl t ↦ (let taken = rw t at e in cc)
    | inr t ↦ rw t (rw t (select-update_missing p f xs k (rw t at e)))
  ]

  pub select-update_none :
      (p q : A → Bool) (f : A → A) (xs : List A)
      → ((y : A) → q (if p y then f y else y) ≡ false)
      → select_row q (update_where p f xs) ≡ none
  select-update_none p q f [] h = refl
  select-update_none p q f (y ∷ xs) h = rw (h y) (select-update_none p q f xs h)

  pub select_row-satisfies :
      (p : A → Bool) (xs : List A) (x : A) → select_row p xs ≡ some x → p x ≡ true
  select_row-satisfies p [] x e = ground arith
  select_row-satisfies p (y ∷ xs) x e = elim (Bool-cases (p y)) [
    | inl t ↦ subst (λ z. p z ≡ true) (some-inj (rw t at e)) t
    | inr t ↦ select_row-satisfies p xs x (rw t at e)
  ]

  pub count-pos :
      (p q : A → Bool) (xs : List A) (x : A)
      → select_row q xs ≡ some x
      → p x ≡ true
      → 1 ≤ count_where p xs
  count-pos p q [] x e h = cc
  count-pos p q (y ∷ xs) x e h = elim (Bool-cases (q y)) [
    | inl t ↦ rw (subst (λ z. p z ≡ true) (sym (some-inj (rw t at e))) h) (omega arith)
    | inr t ↦ omega (arith, count-pos p q xs x (rw t at e) h)
  ]

  pub All-select_row :
      (P : A → Type 0) (p : A → Bool) (xs : List A) (x : A)
      → All P xs
      → select_row p xs ≡ some x
      → P x
  All-select_row P p [] x a e = cc
  All-select_row P p (y ∷ xs) x a e = elim (Bool-cases (p y)) [
    | inl t ↦ subst P (some-inj (rw t at e)) a.0
    | inr t ↦ All-select_row P p xs x a.1 (rw t at e)
  ]

  -- An update that keeps a test does not change how many rows pass it.
  pub count-update :
      (q p : A → Bool) (f : A → A) (xs : List A)
      → ((x : A) → q (if p x then f x else x) ≡ q x)
      → count_where q (update_where p f xs) ≡ count_where q xs
  count-update q p f [] k = refl
  count-update q p f (x ∷ xs) k = rw (k x) (omega (arith, count-update q p f xs k))

  abbrev pub sum_where : (A → Bool) → (A → ℕ) → List A → ℕ
  sum_where p get [] = 0
  sum_where p get (x ∷ xs) = (if p x then get x else 0) + sum_where p get xs

  -- An update adds what it adds to each row that it affects.
  pub sum-update_other :
      (q p : A → Bool) (get : A → ℕ) (f : A → A) (xs : List A)
      → ((x : A) → q (if p x then f x else x) ≡ q x)
      → ((x : A) → q x ≡ true → get x ≤ get (if p x then f x else x))
      → sum_where q get xs ≤ sum_where q get (update_where p f xs)
  sum-update_other q p get f [] k m = omega arith
  sum-update_other q p get f (x ∷ xs) k m =
      ground (arith, k x, m x, sum-update_other q p get f xs k m)

  sum_where-none :
      (p : A → Bool) (get : A → ℕ) (xs : List A) → count_where p xs ≡ 0 → sum_where p get xs ≡ 0
  sum_where-none p get [] h = refl
  sum_where-none p get (x ∷ xs) h = ground (arith, sum_where-none p get xs)

  -- One row at most passes the test, and is set to a value.
  pub sum-update_le :
      (p : A → Bool) (get : A → ℕ) (f : A → A) (v : ℕ) (xs : List A)
      → ((x : A) → p (if p x then f x else x) ≡ p x)
      → ((x : A) → get (f x) ≡ v)
      → count_where p xs ≤ 1
      → sum_where p get (update_where p f xs) ≤ v
  sum-update_le p get f v [] k e h = omega arith
  sum-update_le p get f v (x ∷ xs) k e h = ground (
    arith,
    k x,
    e x,
    sum-update_le p get f v xs k e,
    sum_where-none p get (update_where p f xs),
    count-update p p f xs k,
  )

  pub select-sum :
      (p q : A → Bool) (get : A → ℕ) (xs : List A) (x : A)
      → select_row q xs ≡ some x
      → ((y : A) → q y ≡ true → p y ≡ true)
      → get x ≤ sum_where p get xs
  select-sum p q get [] x e k = cc
  select-sum p q get (y ∷ xs) x e k = elim (Bool-cases (q y)) [
    | inl t ↦
        rw (k y t)
          (subst (λ z. get z ≤ get y + sum_where p get xs) (some-inj (rw t at e)) (omega arith))
    | inr t ↦ omega (arith, select-sum p q get xs x (rw t at e) k)
  ]

  pub sum-update_apart :
      (q p : A → Bool) (get : A → ℕ) (f : A → A) (xs : List A)
      → ((x : A) → p x ≡ true → (q x ≡ false) × (q (f x) ≡ false))
      → sum_where q get (update_where p f xs) ≡ sum_where q get xs
  sum-update_apart q p get f [] k = refl
  sum-update_apart q p get f (x ∷ xs) k = ground (arith, k x, sum-update_apart q p get f xs k)

  -- What a test selects is not changed by writes to rows that do not pass it.
  pub select_rows-update :
      (q p : A → Bool) (f : A → A) (xs : List A)
      → ((x : A) → p x ≡ true → (q x ≡ false) × (q (f x) ≡ false))
      → select_rows q (update_where p f xs) ≡ select_rows q xs
  select_rows-update q p f [] k = refl
  select_rows-update q p f (x ∷ xs) k = ground (arith, k x, select_rows-update q p f xs k)

  pub select_rows-delete :
      (q p : A → Bool) (xs : List A)
      → ((x : A) → p x ≡ true → q x ≡ false)
      → select_rows q (delete_where p xs) ≡ select_rows q xs
  select_rows-delete q p [] k = refl
  select_rows-delete q p (x ∷ xs) k = ground (arith, k x, select_rows-delete q p xs k)

  pub select_rows-append :
      (q : A → Bool) (x : A) (xs : List A)
      → q x ≡ false
      → select_rows q (xs ++ x ∷ []) ≡ select_rows q xs
  select_rows-append q x [] h = ground arith
  select_rows-append q x (y ∷ xs) h = ground (arith, select_rows-append q x xs h)

  pub All-select_rows :
      (P : A → Type 0) (p : A → Bool) (xs : List A) → All P xs → All P (select_rows p xs)
  All-select_rows P p [] h = tt
  All-select_rows P p (x ∷ xs) h = elim (Bool-cases (p x)) [
    | inl t ↦ rw t (h.0, All-select_rows P p xs h.1)
    | inr t ↦ rw t (All-select_rows P p xs h.1)
  ]
