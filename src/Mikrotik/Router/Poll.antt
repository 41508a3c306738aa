-- ===== src/Mikrotik/Router/Poll.antt =====
-- What a poll does to the sessions of a simulated router (backend/internal/mikrotik).
use go_react_fihos.Common.{
  ℕ, ◌≤◌, ◌≡◌, refl, true, none, some, List, [], ◌∷◌, arith, length, Option-cases, inl, inr,
}
use go_react_fihos.Common.Text.{Text, text_eq, text_eq_iff}
use go_react_fihos.Common.Dict.{lookup, insert, erase}
use go_react_fihos.Mikrotik.Router.{Floats, SimSession, Draw, grow, maybe_drop, poll}

text_key : (s t : Text) → ((text_eq s t ≡ true) → s ≡ t) × (text_eq t t ≡ true)
text_key s t = ground (arith, text_eq_iff s t, text_eq_iff t t)

abbrev pub Sessions : Type 0
Sessions = List (Text × SimSession)

module _ (fl : Floats) (rate interval : ℕ) where
  -- One round of the loop, for a session that is there.
  abbrev round : Text → Draw → SimSession → Sessions → Sessions
  round name d s ss = maybe_drop d.drops name (insert text_eq name (grow fl rate interval d s) ss)

  poll_there :
      (name : Text) (d : Draw) (names : List (Text × Draw)) (s : SimSession) (ss : Sessions)
      → lookup text_eq name ss ≡ some s
      → (poll fl rate interval ((name, d) ∷ names) ss).1
        ≡ (poll fl rate interval names (round name d s ss)).1
  unfolding poll
  poll_there name d names s ss e = rw (e, poll) refl

  poll_gone :
      (name : Text) (d : Draw) (names : List (Text × Draw)) (ss : Sessions)
      → lookup text_eq name ss ≡ none
      → (poll fl rate interval ((name, d) ∷ names) ss).1 ≡ (poll fl rate interval names ss).1
  unfolding poll
  poll_gone name d names ss e = rw (e, poll) refl

  length-erase_twice :
      (k : Text) (ss : Sessions)
      → length (erase text_eq k (erase text_eq k ss)) ≡ length (erase text_eq k ss)
  length-erase_twice k [] = refl
  length-erase_twice k ((j, s) ∷ ss) = ground (arith, length-erase_twice k ss)

  round-nonempty :
      (name : Text) (d : Draw) (s : SimSession) (ss : Sessions) → 1 ≤ length (round name d s ss)
  round-nonempty name d s ss = ground (arith, text_key name name, length-erase_twice name ss)

  -- A poll never drops the last session.
  pub poll-nonempty :
      (names : List (Text × Draw)) (ss : Sessions)
      → 1 ≤ length ss
      → 1 ≤ length (poll fl rate interval names ss).1
  unfolding poll
  poll-nonempty [] ss h = h
  poll-nonempty ((name, d) ∷ names) ss h = elim (Option-cases (lookup text_eq name ss)) [
    | inl gone ↦ rw (poll_gone name d names ss gone) (poll-nonempty names ss h)
    | inr (s, e) ↦
        rw (poll_there name d names s ss e)
          (poll-nonempty names (round name d s ss) (round-nonempty name d s ss))
  ]
