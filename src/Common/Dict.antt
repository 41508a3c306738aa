-- ===== src/Common/Dict.antt =====
-- Maps as association lists: a later entry of a key is shadowed by an earlier one, and a key that
-- is deleted is deleted everywhere.
use mathlib.Core.Path.{◌≡◌}
use mathlib.Core.Bool.{Bool, true}
use mathlib.Core.Option.{Option, none, some}
use mathlib.Core.List.{List, [], ◌∷◌}
use native.Mathlib.Omega.{arith}
use go_react_fihos.Common.Tests.{if◌then◌else◌}

module _ {K V : Type 0} (same : K → K → Bool) where
  abbrev pub lookup : K → List (K × V) → Option V
  lookup k [] = none
  lookup k ((j, v) ∷ d) = if same k j then some v else lookup k d

  abbrev pub erase : K → List (K × V) → List (K × V)
  erase k [] = []
  erase k ((j, v) ∷ d) = if same k j then erase k d else (j, v) ∷ erase k d

  abbrev pub insert : K → V → List (K × V) → List (K × V)
  insert k v d = (k, v) ∷ erase k d

  module _ (same_iff : (j k : K) → ((same j k ≡ true) → j ≡ k) × (same k k ≡ true)) where
    pub lookup-erase :
        (k j : K) (d : List (K × V))
        → lookup j (erase k d) ≡ (if same j k then none else lookup j d)
    lookup-erase k j [] = ground arith
    lookup-erase k j ((i, v) ∷ d) =
        ground (arith, same_iff j i, same_iff k i, same_iff j k, same_iff k j, lookup-erase k j d)

    pub lookup-insert :
        (k j : K) (v : V) (d : List (K × V))
        → lookup j (insert k v d) ≡ (if same j k then some v else lookup j d)
    lookup-insert k j v d = ground (arith, lookup-erase k j d)
