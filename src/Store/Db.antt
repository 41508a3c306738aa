-- ===== src/Store/Db.antt =====
-- The errors of backend/internal/store and its callers, and a call against the database: every
-- statement may fail in the driver, and what was written stays written unless a transaction
-- rolls it back.
pub mod Keeps
use go_react_fihos.Common.{Bool, true, false, Option, none, some, List, [], ◌∷◌, if◌then◌else◌}

-- `not_found`, `conflict` and `insufficient` are the sentinels of the package; `driver` is any
-- failure of a statement or of a commit; `unique_violation` is what a unique index raises
-- (code 23505). A fault stands for everything else that may fail, also a value that a column refuses.
pub data Error : Type 0 where
  not_found conflict insufficient : Error
  amount_not_positive amount_zero : Error
  driver unique_violation : Error
  unknown_router router_offline no_hotspot : Error
  sandbox_not_configured random_source : Error

pub data Result (A : Type 0) : Type 0 where
  ok : A → Result A
  err : Error → Result A

abbrev pub IsErr : {A : Type 0} → Result A → Type 0
IsErr (ok a) = ⊥
IsErr (err e) = Unit

abbrev pub IsOk : {A : Type 0} → Result A → Type 0
IsOk (ok a) = Unit
IsOk (err e) = ⊥

-- One entry for each coming statement: `true` makes it fail. No entry is no failure.
abbrev pub Faults : Type 0
Faults = List Bool

unfoldable pub fails : Faults → Bool
fails [] = false
fails (b ∷ rest) = b

unfoldable pub later : Faults → Faults
later [] = []
later (b ∷ rest) = rest

-- A call on a state of type `S`.
abbrev pub Call : Type 0 → Type 0 → Type 0
Call S A = Faults → S → Result A × Faults × S

module _ {S A : Type 0} where
  abbrev pub pure : A → Call S A
  pure a fs s = (ok a, fs, s)

  abbrev pub raise : Error → Call S A
  raise e fs s = (err e, fs, s)

  abbrev pub or_raise : Option A → Error → Call S A
  or_raise none e fs s = (err e, fs, s)
  or_raise (some a) e fs s = (ok a, fs, s)

  -- A statement that reads.
  abbrev pub query : (S → A) → Call S A
  query f fs s = (if fails fs then err driver else ok (f s), later fs, s)

  -- A statement that writes and returns something: RETURNING, or the rows affected.
  abbrev pub exec_returning : (S → A × S) → Call S A
  exec_returning f fs s =
      (if fails fs then err driver else ok (f s).0, later fs, if fails fs then s else (f s).1)

  -- A statement that a constraint of the schema may refuse.
  abbrev pub constrained : (S → Bool) → Error → (S → A × S) → Call S A
  constrained refused e f fs s = (
    if fails fs then err driver else if refused s then err e else ok (f s).0,
    later fs,
    if fails fs then s else if refused s then s else (f s).1,
  )

  -- What a failed call wrote is undone.
  abbrev pub rollback_on_error : Call S A → Call S A
  rollback_on_error m fs s =
      let (r, fs', s') = m fs s in elim r [ ok a ↦ (ok a, fs', s') | err e ↦ (err e, fs', s) ]

  abbrev pub branch : Bool → Call S A → Call S A → Call S A
  branch true m n fs s = m fs s
  branch false m n fs s = n fs s

module _ {S : Type 0} where
  abbrev pub raise_if : Bool → Error → Call S Unit
  raise_if c e fs s = (if c then err e else ok tt, fs, s)

  -- A statement that writes.
  abbrev pub exec : (S → S) → Call S Unit
  exec f fs s = (if fails fs then err driver else ok tt, later fs, if fails fs then s else f s)

  -- `Begin` and `Commit`
  abbrev pub roundtrip : Call S Unit
  roundtrip fs s = (if fails fs then err driver else ok tt, later fs, s)

infixl 5 ◌>>=◌ ◌>>◌
abbrev pub ◌>>=◌ : {S A B : Type 0} → Call S A → (A → Call S B) → Call S B
◌>>=◌ m f fs s =
    let (r, fs', s') = m fs s in elim r [ ok a ↦ f a fs' s' | err e ↦ (err e, fs', s') ]

abbrev pub ◌>>◌ : {S B : Type 0} → Call S Unit → Call S B → Call S B
m >> k = m >>= λ _. k

-- `_ = f(...)`: the error is dropped, what was written stays.
abbrev pub ignore : {S A : Type 0} → Call S A → Call S Unit
ignore m fs s = let (r, fs', s') = m fs s in (ok tt, fs', s')

-- Begin, the body, Commit; the deferred Rollback undoes the body after any error.
abbrev pub transaction : {S A : Type 0} → Call S A → Call S A
transaction body = roundtrip >> rollback_on_error (do a ← body; roundtrip; pure a)
