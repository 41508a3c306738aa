-- ===== src/Auth/Middleware.antt =====
-- backend/internal/middleware/auth.go: the guards that a request passes, and what they leave in its
-- context.
use go_react_fihos.Common.{
  ℕ, ◌==◌, ◌&&◌, Bool, false, not, Option, none, some, List, if◌then◌else◌, leb, ltb, length, take,
  drop, any,
}
use go_react_fihos.Common.Text.{Text, codes, text_eq}
use go_react_fihos.Service.Creds.{parse_int}
use go_react_fihos.Auth.Service.{Checked, ok, err, Claims, is_role_authorized}

pub record Context : Type 0 where
  pub user_id : ℕ
  pub tenant_id : Option ℕ
  pub role : Text
  pub is_admin : Bool

-- The handler goes on with a context, or the request is answered.
pub data Guarded : Type 0 where
  next : Context → Guarded
  unauthorized forbidden : Guarded

abbrev pub context_of : Claims → Context
context_of claims = record {
  user_id = claims.user_id;
  tenant_id = claims.tenant_id;
  role = claims.role;
  is_admin = text_eq claims.role (codes "admin");
}

abbrev pub authorize : Checked Claims → Guarded
authorize (err e) = unauthorized
authorize (ok claims) =
    if is_role_authorized claims.role then next (context_of claims) else forbidden

abbrev pub has_bearer : Text → Bool
has_bearer header = leb 8 (length header) && text_eq (take 7 header) (codes "Bearer ")

unfoldable pub auth : (Text → Checked Claims) → Text → Guarded
auth verify header = if has_bearer header then authorize (verify (drop 7 header)) else unauthorized

unfoldable pub roles : List Text → Context → Guarded
roles allowed c = if any (λ r. text_eq r c.role) allowed then next c else forbidden

-- TenantID: a tenant that is not 0
abbrev pub nonzero : Option ℕ → Bool
nonzero none = false
nonzero (some t) = not (t == 0)

-- strconv.ParseInt of the header, if it is positive; a dash makes it negative or no number.
abbrev pub positive : Option ℕ → Option ℕ
positive none = none
positive (some id) = if ltb 0 id then some id else none

abbrev pub overlay : Option ℕ → Context → Guarded
overlay none c = forbidden
overlay (some id) c = next (record c { tenant_id = some id })

unfoldable pub require_tenant : Text → Context → Guarded
require_tenant header c =
    if nonzero c.tenant_id then next c else overlay (positive (parse_int header)) c

abbrev pub guarded : Guarded → (Context → Guarded) → Guarded
guarded (next c) f = f c
guarded unauthorized f = unauthorized
guarded forbidden f = forbidden
