-- ===== src/Store/Db/Keeps.antt =====
-- Predicates of the state along the calls of backend/internal/store: what a call keeps is put
-- together from what its parts keep.
use go_react_fihos.Store.Db.{
  Result, ok, err, Faults, Call, pure, roundtrip, rollback_on_error, transaction, ◌>>=◌, ◌>>◌,
}

module _ {S : Type 0} (P : S → Type 0) where
  abbrev pub Keeps : {A : Type 0} → Call S A → Type 0
  Keeps m = (fs : Faults) (s : S) → P s → P (m fs s).2

  pure-Keeps : {A : Type 0} (a : A) → Keeps (pure a)
  pure-Keeps a fs s h = h

  after-Keeps :
      {A B : Type 0} (f : A → Call S B)
      → ((a : A) → Keeps (f a))
      → (r : Result A) (fs : Faults) (s : S) → P s
      → P (elim r as (λ x. Result B × Faults × S) [ ok a ↦ f a fs s | err e ↦ (err e, fs, s) ]).2
  after-Keeps f k (ok a) fs s h = k a fs s h
  after-Keeps f k (err e) fs s h = h

  pub bind-Keeps :
      {A B : Type 0} (m : Call S A) (f : A → Call S B)
      → Keeps m
      → ((a : A) → Keeps (f a))
      → Keeps (m >>= f)
  bind-Keeps m f k l fs s h = let (r, fs', s') = m fs s in after-Keeps f l r fs' s' (k fs s h)

  rollback-Keeps :
      {A : Type 0} (r : Result A) (fs fs' : Faults) (s s' : S)
      → P s
      → P s'
      → P
          (elim r as (λ x. Result A × Faults × S) [
            | ok a ↦ (ok a, fs', s')
            | err e ↦ (err e, fs', s)
          ]).2
  rollback-Keeps (ok a) fs fs' s s' h h' = h'
  rollback-Keeps (err e) fs fs' s s' h h' = h

  rollback_on_error-Keeps : {A : Type 0} (m : Call S A) → Keeps m → Keeps (rollback_on_error m)
  rollback_on_error-Keeps m k fs s h =
      let (r, fs', s') = m fs s in rollback-Keeps r fs fs' s s' h (k fs s h)

  roundtrip-Keeps : Keeps roundtrip
  roundtrip-Keeps fs s h = h

  pub transaction-Keeps : {A : Type 0} (m : Call S A) → Keeps m → Keeps (transaction m)
  transaction-Keeps {A} m k =
      let body : Call S A = (do a ← m; roundtrip; pure a) in
      bind-Keeps roundtrip (λ _. rollback_on_error body) roundtrip-Keeps
        (λ _. rollback_on_error-Keeps body (
          bind-Keeps m (λ a. roundtrip >> pure a) k
            (λ a. bind-Keeps roundtrip (λ _. pure a) roundtrip-Keeps (λ _. pure-Keeps a))))
