-- ===== src/Handler/Auth.antt =====
-- backend/internal/handler/auth.go: the handlers of login, refresh, logout and passwords, and AuthDB of
-- backend/internal/middleware/db.go. The state is the database and the keys in Redis; the body of a
-- request has been parsed. bcrypt and the JWT library are parameters. The audit log is left out.
pub mod Refreshed
use go_react_fihos.Common.{
  ℕ, ◌+◌, ◌==◌, ◌&&◌, ◌||◌, Bool, true, false, not, Option, none, some, List, [], ◌∷◌, ◌++◌,
  if◌then◌else◌, leb, ltb, length,
}
use go_react_fihos.Common.Text.{Text, codes, text_eq, to_lower}
use go_react_fihos.Store.Db.{Result, ok, err, Error, not_found, driver, Faults, Call, pure, ignore}
use go_react_fihos.Store.World.{World, on_db, on_outside}
use go_react_fihos.Store.Schema.{Database}
use go_react_fihos.Store.Accounts.{User, Tenant, TenantStatus}
use go_react_fihos.Store.Users.{user_by_email, user_by_id, touch_login, set_password}
use go_react_fihos.Store.Tenants.{tenant_by_id}
use go_react_fihos.Auth.Service.{
  Jwt, Service, UserAccess, TokenPair, Checked, AuthError, issue, Claims, RefreshInfo,
  verify_refresh,
}
use go_react_fihos.Auth.Refresh.{
  Keys, refresh_key, store_refresh, rotate_refresh, revoke_user_refresh_tokens, delete_keys,
}
use go_react_fihos.Handler.{
  Reply, replied, refused, Handle, validation_failed, forbidden, tenant_suspended, internal, fail,
  reply, stop_if, on, after, unauthorized,
}

-- bcrypt: `none` where it refuses to hash (a password longer than 72 bytes).
pub record Bcrypt : Type 0 where
  pub check_password : Text → Text → Bool
  pub hash_password : Text → Option Text

abbrev pub is_space : ℕ → Bool
is_space c = c == 32 || (leb 9 c && leb c 13)

abbrev pub trim_left : Text → Text
trim_left [] = []
trim_left (c ∷ s) = if is_space c then trim_left s else c ∷ s

abbrev pub reverse_onto : Text → Text → Text
reverse_onto [] acc = acc
reverse_onto (c ∷ s) acc = reverse_onto s (c ∷ acc)

-- strings.TrimSpace on ASCII
abbrev pub trim_space : Text → Text
trim_space s = reverse_onto (trim_left (reverse_onto (trim_left s) [])) []

abbrev pub is_suspended : Tenant → Bool
is_suspended t = elim t.status [ TenantStatus.suspended ↦ true | _ ↦ false ]

abbrev pub access_of : User → UserAccess
access_of u = record {
  id = u.id;
  email = u.email;
  full_name = u.full_name;
  role = u.role;
  tenant_id = u.tenant_id;
}

abbrev pub State : Type 0
State = World Keys

-- What the process knows: the libraries, the secret and lifetimes, the clock, and two random ids.
pub record Env : Type 0 where
  pub bcrypt : Bcrypt
  pub jwt : Jwt
  pub service : Service
  pub now : ℕ
  pub access_jti : Text
  pub refresh_jti : Text

abbrev pub issued : {A : Type 0} → Checked A → Result A
issued (Checked.ok p) = ok p
issued (Checked.err e) = err driver

abbrev pub issue_for : Env → User → Call State (TokenPair × Text)
issue_for env u fs w =
    (issued (issue env.jwt env.service env.now env.access_jti env.refresh_jti (access_of u)), fs, w)

-- The tenant of a user is read; a user without one goes on.
abbrev pub with_tenant :
    {B : Type 0} → (Error → Handle State B) → Option ℕ → Handle State B → Handle State B
with_tenant h none k fs w = k fs w
with_tenant h (some t) k fs w =
    let (r, fs', w') = on_db (tenant_by_id t) fs w in
    elim r [ ok tn ↦ stop_if (is_suspended tn) tenant_suspended k fs' w' | err e ↦ h e fs' w' ]

abbrev pub invalid_credentials : {A : Type 0} → Reply A
invalid_credentials = refused 401 (codes "invalid_credentials")

abbrev pub invalid_grant : {A : Type 0} → Reply A
invalid_grant = refused 401 (codes "invalid_grant")

-- The new refresh token is active before the pair is answered.
unfoldable pub log_in : Env → User → Handle State TokenPair
log_in env u = on (issue_for env u) internal (λ p.
    on (on_outside (store_refresh env.now env.service.refresh_ttl u.id p.1)) internal
      (λ _. after (on_db (touch_login u.id)) (reply (replied 200 p.0))))

unfoldable pub post_login : Env → Text → Text → Handle State TokenPair
post_login env email password =
    let address = to_lower (trim_space email) in
    stop_if (text_eq address [] || text_eq password []) validation_failed (
      on (on_db (user_by_email address)) (λ e. invalid_credentials)
        (λ u.
          stop_if (not (env.bcrypt.check_password u.password_hash password)) invalid_credentials (
            stop_if (not u.is_active) forbidden
              (with_tenant (λ e. reply (internal e)) u.tenant_id (log_in env u)))))

abbrev pub refresh_error : Error → Reply TokenPair
refresh_error Error.not_found = invalid_grant
refresh_error e = internal e

-- What follows the script: a token that was not active ends the sessions of its user.
abbrev pub rotated_or_revoked : User → TokenPair → Bool → Handle State TokenPair
rotated_or_revoked u pair true = reply (replied 200 pair)
rotated_or_revoked u pair false =
    after (on_outside (revoke_user_refresh_tokens u.id)) (reply invalid_grant)

unfoldable pub rotate : Env → User → Text → Handle State TokenPair
rotate env u jti = on (issue_for env u) internal (λ p.
    on
      (on_outside (
        rotate_refresh env.now env.service.refresh_ttl (refresh_key u.id jti)
          (refresh_key u.id p.1)))
      internal (rotated_or_revoked u p.0))

-- An error of the read of the tenant is dropped.
unfoldable pub refresh : Env → RefreshInfo → Handle State TokenPair
refresh env info = on (on_db (user_by_id info.claims.user_id)) refresh_error (λ u.
    stop_if (not u.is_active) invalid_grant
      (with_tenant (λ e. rotate env u info.jti) u.tenant_id (rotate env u info.jti)))

unfoldable pub post_refresh : Env → Text → Handle State TokenPair
post_refresh env token fs w = elim (verify_refresh env.jwt env.service env.now token) [
  | Checked.ok info ↦ refresh env info fs w
  | Checked.err e ↦ (invalid_grant, fs, w)
]

-- The token is none if the body has none; an error of Redis is dropped.
unfoldable pub post_logout : Env → ℕ → Option Text → Handle State Unit
post_logout env user_id none fs w = (replied 204 tt, fs, w)
post_logout env user_id (some token) fs w =
    elim (verify_refresh env.jwt env.service env.now token) [
      | Checked.ok info ↦
          let forget = delete_keys (refresh_key user_id info.jti ∷ []) in
          stop_if (not (info.claims.user_id == user_id)) (replied 204 tt)
            (after (on_outside forget) (reply (replied 204 tt))) fs w
      | Checked.err e ↦ (replied 204 tt, fs, w)
    ]

-- The hash is stored, and the sessions of the user end.
abbrev pub replace_password : Option Text → ℕ → Handle State Unit
replace_password none user_id = reply (internal driver)
replace_password (some hash) user_id =
    on (on_db (set_password user_id hash)) internal
      (λ _. after (on_outside (revoke_user_refresh_tokens user_id)) (reply (replied 204 tt)))

unfoldable pub post_change_password : Env → ℕ → Text → Text → Handle State Unit
post_change_password env user_id current new = on (on_db (user_by_id user_id)) fail (λ u.
    stop_if (not (env.bcrypt.check_password u.password_hash current)) validation_failed
      (replace_password (env.bcrypt.hash_password new) user_id))

-- Another tenant's user is out of reach; a caller of no tenant (0) reaches every user.
abbrev pub out_of_reach : ℕ → Option ℕ → Bool
out_of_reach caller none = false
out_of_reach caller (some t) = not (caller == 0) && not (caller == t)

unfoldable pub post_reset_password : Env → ℕ → ℕ → Text → Handle State Unit
post_reset_password env caller user_id new = stop_if (ltb (length new) 8) validation_failed (
    on (on_db (user_by_id user_id)) fail (λ target.
      stop_if (out_of_reach caller target.tenant_id) forbidden
        (replace_password (env.bcrypt.hash_password new) user_id)))

abbrev pub tenant_or_none : Result Tenant → Option Tenant
tenant_or_none (ok t) = some t
tenant_or_none (err e) = none

abbrev pub me_with : User → Option ℕ → Handle State (User × Option Tenant)
me_with u none fs w = (replied 200 (u, none), fs, w)
me_with u (some t) fs w =
    let (r, fs', w') = on_db (tenant_by_id t) fs w in (replied 200 (u, tenant_or_none r), fs', w')

unfoldable pub get_me : ℕ → Handle State (User × Option Tenant)
get_me user_id = on (on_db (user_by_id user_id)) fail (λ u. me_with u u.tenant_id)

abbrev pub auth_error : Error → Reply User
auth_error Error.not_found = unauthorized
auth_error e = forbidden

-- The user and the tenant of a request are read again: it is answered, or goes on with the user.
unfoldable pub auth_db : ℕ → Option ℕ → Handle State User
auth_db user_id tenant_id = on (on_db (user_by_id user_id)) auth_error (λ u.
    stop_if (not u.is_active) forbidden
      (with_tenant (λ e. reply unauthorized) tenant_id (reply (replied 200 u))))
