-- ===== src/Mikrotik/RedisSimulator/Agree.antt =====
-- When the routers in Redis (backend/internal/mikrotik/redis_simulator.go) and those in memory
-- (simulator.go) are the same, but for their names.
use mathlib.Core.Path.{sym, ◌∙◌}
use go_react_fihos.Common.{
  ℕ, ◌==◌, ◌≡◌, ◌≢◌, ◌++◌, refl, ap, true, false, Option, none, some, [], ◌∷◌, arith, if◌then◌else◌,
  Bool-cases, inl, inr, ◌⊎◌,
}
use go_react_fihos.Common.Text.{Text, codes, text_eq, text_eq_iff, format_int, parse_digits}
use go_react_fihos.Common.Text.Decimal.{parse_digits-format_int}
use go_react_fihos.Common.Dict.{lookup, insert, erase, lookup-insert, lookup-erase}
use go_react_fihos.Store.Db.{Result, ok, err, unknown_router}
use go_react_fihos.Store.Sql.{some-inj}
use go_react_fihos.Mikrotik.Router.{SimRouter}
use go_react_fihos.Mikrotik.Simulator.{Routers, router, put}
use go_react_fihos.Mikrotik.RedisSimulator.{Json, Redis, key_for, decode}

text_key : (s t : Text) → ((text_eq s t ≡ true) → s ≡ t) × (text_eq t t ≡ true)
text_key s t = ground (arith, text_eq_iff s t, text_eq_iff t t)

number_key : (j k : ℕ) → ((j == k ≡ true) → j ≡ k) × ((k == k) ≡ true)
number_key j k = ground arith

format_int-inj : (j k : ℕ) → format_int j ≡ format_int k → j ≡ k
format_int-inj j k e =
    some-inj (sym (parse_digits-format_int j) ∙ ap (parse_digits 0) e ∙ parse_digits-format_int k)

append-inj : (s t u : Text) → s ++ t ≡ s ++ u → t ≡ u
append-inj [] t u e = e
append-inj (c ∷ s) t u e = append-inj s t u (cc)

key_for-inj : (j k : ℕ) → key_for j ≡ key_for k → j ≡ k
unfolding key_for
key_for-inj j k e =
    format_int-inj j k (append-inj (codes "fihos:sim:router:") (format_int j) (format_int k) e)

key_for-same : (j k : ℕ) → text_eq (key_for j) (key_for k) ≡ (j == k)
key_for-same j k = ground (arith, text_eq_iff (key_for j) (key_for k), key_for-inj j k)

-- A router but for its name.
abbrev pub nameless : SimRouter → SimRouter
nameless r = record r { name = [] }

abbrev pub held : Option SimRouter → Result SimRouter
held none = err unknown_router
held (some r) = ok (nameless r)

abbrev pub stored : Result SimRouter → Result SimRouter
stored (err e) = err e
stored (ok r) = ok (nameless r)

abbrev pub document : {Doc : Type 0} → Json Doc → ℕ → Redis Doc → Result SimRouter
document json id s = decode json (lookup text_eq (key_for id) s)

pub record Agree {Doc : Type 0} (json : Json Doc) (rs : Routers) (s : Redis Doc) : Type 0 where
  pub same : (id : ℕ) → held (router id rs) ≡ stored (document json id s)
  pub ids : (id : ℕ) (r : SimRouter) → document json id s ≡ ok r → r.id ≡ id

-- What both sides hold under an id.
abbrev pub Views : {Doc : Type 0} → Json Doc → ℕ → Routers → Redis Doc → Type 0
Views json id rs s =
    ((router id rs ≡ none) × (document json id s ≡ err unknown_router))
    ⊎ ((r : SimRouter) × (r' : SimRouter) × (router id rs ≡ some r)
        × (document json id s ≡ ok r')
        × (nameless r ≡ nameless r')
        × (r'.id ≡ id))

module _ {Doc : Type 0} (json : Json Doc) (rs : Routers) (s : Redis Doc) (h : Agree json rs s) where
  cases_of :
      (id : ℕ) (o : Option SimRouter) (d : Result SimRouter)
      → router id rs ≡ o
      → document json id s ≡ d
      → held o ≡ stored d
      → Views json id rs s
  cases_of id none (err e) eo ed same = inl (eo, (ground (arith, ed)))
  cases_of id none (ok r') eo ed same = absurd (ground arith)
  cases_of id (some r) (err e) eo ed same = absurd (ground arith)
  cases_of id (some r) (ok r') eo ed same = inr (r, r', eo, ed, cc, h.ids id r' ed)

  pub sides : (id : ℕ) → Views json id rs s
  sides id = cases_of id (router id rs) (document json id s) refl refl (h.same id)

  module _ (law : (r : SimRouter) → json.unmarshal (json.marshal r) ≡ some r) where
    put_document :
        (j : ℕ) (r' : SimRouter)
        → document json j (insert text_eq (key_for r'.id) (json.marshal r') s)
          ≡ (if j == r'.id then ok r' else document json j s)
    put_document j r' =
        rw (lookup-insert text_eq text_key (key_for r'.id) (key_for j) (json.marshal r') s) (
          rw (key_for-same j r'.id) (elim (Bool-cases (j == r'.id)) [
            | inl t ↦ rw t (rw (law r', decode) refl)
            | inr t ↦ rw t refl
          ]))

    put_hit :
        (j : ℕ) (r' : SimRouter)
        → (j == r'.id) ≡ true
        → document json j (insert text_eq (key_for r'.id) (json.marshal r') s) ≡ ok r'
    put_hit j r' t = put_document j r' ∙ ap (λ b. if b then ok r' else document json j s) t

    put_miss :
        (j : ℕ) (r' : SimRouter)
        → (j == r'.id) ≡ false
        → document json j (insert text_eq (key_for r'.id) (json.marshal r') s) ≡ document json j s
    put_miss j r' t = put_document j r' ∙ ap (λ b. if b then ok r' else document json j s) t

    ok-inj : (q r' : SimRouter) → ok r' ≡ ok q → r' ≡ q
    ok-inj q r' e = cc

    pub put-Agree :
        (id : ℕ) (r r' : SimRouter)
        → nameless r ≡ nameless r'
        → r'.id ≡ id
        → Agree json (put id r rs) (insert text_eq (key_for r'.id) (json.marshal r') s)
    put-Agree id r r' alike own = record {
      same = λ j. elim (Bool-cases (j == id)) [
        | inl t ↦
            ap held (
              lookup-insert ◌==◌ number_key id j r rs
              ∙ ap (λ b. if b then some r else router j rs) t)
            ∙ ap ok alike
            ∙ sym (ap stored (put_hit j r' (ap (λ i. j == i) own ∙ t)))
        | inr t ↦
            ap held (
              lookup-insert ◌==◌ number_key id j r rs
              ∙ ap (λ b. if b then some r else router j rs) t)
            ∙ h.same j
            ∙ sym (ap stored (put_miss j r' (ap (λ i. j == i) own ∙ t)))
      ];
      ids = λ j q e. elim (Bool-cases (j == id)) [
        | inl t ↦
            ap (λ (x : SimRouter). x.id)
              (sym (ok-inj q r' (sym (put_hit j r' (ap (λ i. j == i) own ∙ t)) ∙ e)))
            ∙ own
            ∙ sym ((number_key j id).0 t)
        | inr t ↦ h.ids j q (sym (put_miss j r' (ap (λ i. j == i) own ∙ t)) ∙ e)
      ];
    }

  erase_hit :
      (j id : ℕ)
      → (j == id) ≡ true
      → document json j (erase text_eq (key_for id) s) ≡ err unknown_router
  erase_hit j id t = ap (decode json) (
      lookup-erase text_eq text_key (key_for id) (key_for j) s
      ∙ ap (λ b. if b then none else lookup text_eq (key_for j) s) (key_for-same j id ∙ t))

  erase_miss :
      (j id : ℕ)
      → (j == id) ≡ false
      → document json j (erase text_eq (key_for id) s) ≡ document json j s
  erase_miss j id t = ap (decode json) (
      lookup-erase text_eq text_key (key_for id) (key_for j) s
      ∙ ap (λ b. if b then none else lookup text_eq (key_for j) s) (key_for-same j id ∙ t))

  pub erase-Agree : (id : ℕ) → Agree json (erase ◌==◌ id rs) (erase text_eq (key_for id) s)
  erase-Agree id = record {
    same = λ j.
        let left = lookup-erase ◌==◌ number_key id j rs in
        elim (Bool-cases (j == id)) [
          | inl t ↦
              ap held (left ∙ ap (λ b. if b then none else router j rs) t)
              ∙ sym (ap stored (erase_hit j id t))
          | inr t ↦
              ap held (left ∙ ap (λ b. if b then none else router j rs) t)
              ∙ h.same j
              ∙ sym (ap stored (erase_miss j id t))
        ];
    ids = λ j q e. elim (Bool-cases (j == id)) [
      | inl t ↦ absurd (no_router q (sym (erase_hit j id t) ∙ e))
      | inr t ↦ h.ids j q (sym (erase_miss j id t) ∙ e)
    ];
  }
    where
      no_router : (q : SimRouter) → err unknown_router ≢ ok q
      no_router q e = ground arith
