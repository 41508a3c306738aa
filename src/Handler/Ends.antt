-- ===== src/Handler/Ends.antt =====
-- What a handler of backend/internal/handler ends with, from what its parts do.
use go_react_fihos.Common.{ℕ, Bool, true, false}
use go_react_fihos.Common.Text.{Text}
use go_react_fihos.Store.Db.{Result, ok, err, Error, Faults, Call}
use go_react_fihos.Store.Db.Keeps.{Keeps}
use go_react_fihos.Handler.{Reply, refused, Handle, fail, stop_if, on}

-- A handler that is run in a state with P ends with an answer and a state of which Q holds. What
-- the calls before return is known to be in R.
module _ {S : Type 0} (P : S → Type 0) {B : Type 0} (Q : Reply B → S → Type 0) where
  abbrev pub Ends : Handle S B → Type 0
  Ends k = (fs : Faults) (s : S) → P s → let (r, fs', s') = k fs s in Q r s'

  abbrev pub Returned : {A : Type 0} → (A → Type 0) → Result A → Type 0
  Returned R (ok a) = R a
  Returned R (err e) = Unit

  pub anything-Returned : {A : Type 0} (r : Result A) → Returned (λ a. Unit) r
  anything-Returned (ok a) = tt
  anything-Returned (err e) = tt

  result-Ends :
      {A : Type 0} (R : A → Type 0) (h : Error → Reply B) (k : A → Handle S B)
      → ((e : Error) (s : S) → P s → Q (h e) s)
      → ((a : A) → R a → Ends (k a))
      → (r : Result A) (fs : Faults) (s : S) → Returned R r
      → P s
      → let (q, fs', s') : Reply B × Faults × S = elim r [
        | ok a ↦ k a fs s
        | err e ↦ (h e, fs, s)
      ] in
        Q q s'
  result-Ends R h k eh ek (ok a) fs s ret p = ek a ret fs s p
  result-Ends R h k eh ek (err e) fs s ret p = eh e s p

  pub on-Ends :
      {A : Type 0} (R : A → Type 0) (m : Call S A) (h : Error → Reply B) (k : A → Handle S B)
      → Keeps P m
      → ((fs : Faults) (s : S) → P s → Returned R (m fs s).0)
      → ((e : Error) (s : S) → P s → Q (h e) s)
      → ((a : A) → R a → Ends (k a))
      → Ends (on m h k)
  on-Ends R m h k em ret eh ek fs s p =
      let (r, fs', s') = m fs s in result-Ends R h k eh ek r fs' s' (ret fs s p) (em fs s p)

  pub stop-Ends :
      (c : Bool) (r : Reply B) (k : Handle S B)
      → ((s : S) → P s → Q r s)
      → Ends k
      → Ends (stop_if c r k)
  stop-Ends true r k er ek fs s p = er s p
  stop-Ends false r k er ek fs s p = ek fs s p

  -- A call of which only that it keeps P is known.
  pub plain-Ends :
      {A : Type 0} (m : Call S A) (h : Error → Reply B) (k : A → Handle S B)
      → Keeps P m
      → ((e : Error) (s : S) → P s → Q (h e) s)
      → ((a : A) → Ends (k a))
      → Ends (on m h k)
  plain-Ends m h k em eh ek =
      on-Ends (λ a. Unit) m h k em (λ fs s p. anything-Returned (m fs s).0) eh (λ a _. ek a)

-- Every error is refused.
pub fail-Refused :
    {A : Type 0} (Q : Reply A → Type 0)
    → ((status : ℕ) (code : Text) → Q (refused status code))
    → (e : Error) → Q (fail e)
unfolding fail
fail-Refused Q h Error.not_found = h _ _
fail-Refused Q h Error.conflict = h _ _
fail-Refused Q h Error.insufficient = h _ _
fail-Refused Q h Error.amount_not_positive = h _ _
fail-Refused Q h Error.amount_zero = h _ _
fail-Refused Q h Error.driver = h _ _
fail-Refused Q h Error.unique_violation = h _ _
fail-Refused Q h Error.unknown_router = h _ _
fail-Refused Q h Error.router_offline = h _ _
fail-Refused Q h Error.no_hotspot = h _ _
fail-Refused Q h Error.sandbox_not_configured = h _ _
fail-Refused Q h Error.random_source = h _ _
