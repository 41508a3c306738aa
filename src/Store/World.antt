-- ===== src/Store/World.antt =====
-- The database beside what else a program of backend changes: devices, or keys in Redis. The callers of
-- the store that look at an error and go on.
pub mod Keeps
use go_react_fihos.Common.{List, [], ◌∷◌}
use go_react_fihos.Store.Db.{Result, ok, err, Error, Faults, Call, pure}
use go_react_fihos.Store.Schema.{Database}

pub record World (S : Type 0) : Type 0 where
  pub db : Database
  pub outside : S

module _ {S A : Type 0} where
  abbrev pub on_db : Call Database A → Call (World S) A
  on_db m fs w = let (r, fs', db') = m fs w.db in (r, fs', record w { db = db' })

  abbrev pub on_outside : Call S A → Call (World S) A
  on_outside m fs w = let (r, fs', s) = m fs w.outside in (r, fs', record w { outside = s })

  -- if r, err := ...; err != nil { ... } else { ... }
  abbrev pub cases :
      {B : Type 0}
      → Call (World S) A
      → (Error → Call (World S) B)
      → (A → Call (World S) B)
      → Call (World S) B
  cases m h k fs w = let (r, fs', w') = m fs w in elim r [ ok a ↦ k a fs' w' | err e ↦ h e fs' w' ]

  -- The body of a loop does not fail: it logs.
  abbrev pub for_each : (A → Call (World S) Unit) → List A → Call (World S) Unit
  for_each f [] fs w = (ok tt, fs, w)
  for_each f (a ∷ rest) fs w = let (r, fs', w') = f a fs w in for_each f rest fs' w'

abbrev pub skip : {S : Type 0} → Error → Call (World S) Unit
skip e = pure tt
