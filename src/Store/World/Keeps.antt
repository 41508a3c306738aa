-- ===== src/Store/World/Keeps.antt =====
-- Predicates of the database along the callers of backend/internal/store.
use go_react_fihos.Common.{List, [], ◌∷◌}
use go_react_fihos.Store.Db.{Result, ok, err, Error, Faults, Call, ignore}
use go_react_fihos.Store.Db.Keeps.{Keeps}
use go_react_fihos.Store.Schema.{Database}
use go_react_fihos.Store.World.{World, on_db, on_outside, cases, for_each}

module _ {S : Type 0} (P : World S → Type 0) where
  chosen-Keeps :
      {A B : Type 0} (h : Error → Call (World S) B) (k : A → Call (World S) B)
      → ((e : Error) → Keeps P (h e))
      → ((a : A) → Keeps P (k a))
      → (r : Result A) (fs : Faults) (w : World S) → P w
      → P (elim r as (λ x. Result B × Faults × World S) [ ok a ↦ k a fs w | err e ↦ h e fs w ]).2
  chosen-Keeps h k eh ek (ok a) fs w p = ek a fs w p
  chosen-Keeps h k eh ek (err e) fs w p = eh e fs w p

  pub cases-Keeps :
      {A B : Type 0} (m : Call (World S) A) (h : Error → Call (World S) B)
      (k : A → Call (World S) B)
      → Keeps P m
      → ((e : Error) → Keeps P (h e))
      → ((a : A) → Keeps P (k a))
      → Keeps P (cases m h k)
  cases-Keeps m h k em eh ek fs w p =
      let (r, fs', w') = m fs w in chosen-Keeps h k eh ek r fs' w' (em fs w p)

  pub for_each-Keeps :
      {A : Type 0} (f : A → Call (World S) Unit) (as_list : List A)
      → ((a : A) → Keeps P (f a))
      → Keeps P (for_each f as_list)
  for_each-Keeps f [] k fs w p = p
  for_each-Keeps f (a ∷ rest) k fs w p =
      let (r, fs', w') = f a fs w in for_each-Keeps f rest k fs' w' (k a fs w p)

-- A call on the database keeps what it keeps there, and one on what is outside keeps all of it.
module _ {S : Type 0} (P : Database → Type 0) where
  abbrev pub OfDb : World S → Type 0
  OfDb w = P w.db

  pub on_db-Keeps : {A : Type 0} (m : Call Database A) → Keeps P m → Keeps OfDb (on_db {S = S} m)
  on_db-Keeps m k fs w p = k fs w.db p

  pub ignored-Keeps :
      {A : Type 0} (m : Call Database A) → Keeps P m → Keeps OfDb (ignore (on_db {S = S} m))
  ignored-Keeps m k fs w p = k fs w.db p

  pub on_outside-Keeps : {A : Type 0} (m : Call S A) → Keeps OfDb (on_outside m)
  on_outside-Keeps m fs w p = p
