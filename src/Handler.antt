-- ===== src/Handler.antt =====
-- backend/internal/handler: what the handlers share (handlers.go), and their answers.
pub mod Ends
pub mod Auth
pub mod Customers
pub mod Hotspots
pub mod Infra
pub mod Portal
pub mod Sessions
mod Tests
use go_react_fihos.Common.{
  ℕ, Bool, true, false, not, Option, none, some, List, [], ◌∷◌, if◌then◌else◌,
}
use go_react_fihos.Common.Text.{Text, codes}
use go_react_fihos.Store.Db.{Result, ok, err, Error, Faults, Call}
use go_react_fihos.Store.Paging.{parse_id}
use go_react_fihos.Auth.Middleware.{nonzero}

-- A status of HTTP with what is answered, or with the code of an error.
pub data Reply (A : Type 0) : Type 0 where
  replied : ℕ → A → Reply A
  refused : ℕ → Text → Reply A

abbrev pub Handle : Type 0 → Type 0 → Type 0
Handle S A = Faults → S → Reply A × Faults × S

module _ {A : Type 0} where
  abbrev pub validation_failed : Reply A
  validation_failed = refused 422 (codes "validation_failed")

  abbrev pub unauthorized : Reply A
  unauthorized = refused 401 (codes "unauthorized")

  abbrev pub forbidden : Reply A
  forbidden = refused 403 (codes "forbidden")

  abbrev pub tenant_suspended : Reply A
  tenant_suspended = refused 403 (codes "tenant_suspended")

  abbrev pub internal : Error → Reply A
  internal e = refused 500 (codes "internal_error")

  -- The answer to an error of the store or of a device.
  unfoldable pub fail : Error → Reply A
  fail Error.not_found = refused 404 (codes "not_found")
  fail Error.conflict = refused 409 (codes "conflict")
  fail Error.insufficient = refused 409 (codes "insufficient_balance")
  fail Error.router_offline = refused 503 (codes "router_offline")
  fail Error.unknown_router = refused 404 (codes "not_found")
  fail Error.unique_violation = refused 409 (codes "conflict")
  fail e = internal e

module _ {S B : Type 0} where
  abbrev pub reply : Reply B → Handle S B
  reply r fs s = (r, fs, s)

  -- if c { response...; return }
  abbrev pub stop_if : Bool → Reply B → Handle S B → Handle S B
  stop_if true r k fs s = (r, fs, s)
  stop_if false r k fs s = k fs s

  -- The call's error is answered, or the handler goes on with its result.
  abbrev pub on : {A : Type 0} → Call S A → (Error → Reply B) → (A → Handle S B) → Handle S B
  on m h k fs s = let (r, fs', s') = m fs s in elim r [ ok a ↦ k a fs' s' | err e ↦ (h e, fs', s') ]

  -- The error is dropped.
  abbrev pub after : {A : Type 0} → Call S A → Handle S B → Handle S B
  after m k fs s = let (r, fs', s') = m fs s in k fs' s'

abbrev pub id_or_zero : Option ℕ → ℕ
id_or_zero none = 0
id_or_zero (some id) = id

-- The tenant of the token, or else that of the header; 0 is none.
unfoldable pub tenant : Option ℕ → Text → ℕ
tenant claimed header = if nonzero claimed then id_or_zero claimed else id_or_zero (parse_id header)
