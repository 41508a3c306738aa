-- ===== src/Auth/Refresh.antt =====
-- The refresh tokens of backend/internal/handler/auth.go: the keys that are active in Redis, and
-- the handlers that change them. Emails are trimmed and lowered as ASCII; bcrypt is a parameter. The
-- audit log is left out.
pub mod Rotation
use go_react_fihos.Common.{
  ℕ, ◌+◌, ◌==◌, ◌&&◌, ◌||◌, Bool, true, false, not, Option, none, some, List, [], ◌∷◌, ◌++◌,
  if◌then◌else◌, leb, ltb, length, take, map,
}
use go_react_fihos.Common.Text.{Text, codes, text_eq, format_int, to_lower}
use go_react_fihos.Common.Dict.{lookup, insert, erase}
use go_react_fihos.Store.Db.{
  Result, ok, err, Error, not_found, driver, Faults, fails, later, Call, pure, query, exec,
  exec_returning, ignore, ◌>>=◌, ◌>>◌,
}
use go_react_fihos.Store.Schema.{Database}
use go_react_fihos.Store.Accounts.{User, Tenant, TenantStatus}
use go_react_fihos.Store.Users.{user_by_email, user_by_id, touch_login, set_password}
use go_react_fihos.Store.Tenants.{tenant_by_id}
use go_react_fihos.Auth.Service.{
  Jwt, Service, UserAccess, TokenPair, Checked, issue, RefreshInfo, verify_refresh,
}
use go_react_fihos.Store.World.{World, on_db, on_outside, cases}

-- The keys with the times at which they expire.
abbrev pub Keys : Type 0
Keys = List (Text × ℕ)

abbrev pub user_prefix : ℕ → Text
user_prefix user_id = codes "refresh:" ++ format_int user_id ++ codes ":"

unfoldable pub refresh_key : ℕ → Text → Text
refresh_key user_id jti = user_prefix user_id ++ jti

abbrev pub alive : ℕ → Option ℕ → Bool
alive now none = false
alive now (some expires_at) = ltb now expires_at

unfoldable pub is_active_key : ℕ → Text → Keys → Bool
is_active_key now k s = alive now (lookup text_eq k s)

unfoldable pub store_refresh : ℕ → ℕ → ℕ → Text → Call Keys Unit
store_refresh now ttl user_id jti =
    exec (λ s. insert text_eq (refresh_key user_id jti) (now + ttl) s)

-- The script, which Redis runs without interruption.
unfoldable pub rotate_refresh : ℕ → ℕ → Text → Text → Call Keys Bool
unfolding is_active_key
rotate_refresh now ttl old_key new_key = exec_returning (λ s. (
  is_active_key now old_key s,
  if is_active_key now old_key s
      then insert text_eq new_key (now + ttl) (erase text_eq old_key s)
      else s,
))

abbrev pub starts_with : Text → Text → Bool
starts_with [] s = true
starts_with (p ∷ ps) [] = false
starts_with (p ∷ ps) (c ∷ s) = p == c && starts_with ps s

abbrev pub keys_of : Text → Keys → List Text
keys_of prefix [] = []
keys_of prefix ((k, at) ∷ s) =
    if starts_with prefix k then k ∷ keys_of prefix s else keys_of prefix s

-- A command that fails leaves its key.
abbrev pub delete_keys : List Text → Call Keys Unit
delete_keys [] = pure tt
delete_keys (k ∷ ks) = ignore (exec (λ s. erase text_eq k s)) >> delete_keys ks

-- SCAN with the pattern "refresh:<id>:*", and DEL of each key.
unfoldable pub revoke_user_refresh_tokens : ℕ → Call Keys Unit
revoke_user_refresh_tokens user_id =
    ignore (query (λ s. keys_of (user_prefix user_id) s) >>= delete_keys)
