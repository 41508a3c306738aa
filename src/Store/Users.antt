-- ===== src/Store/Users.antt =====
-- backend/internal/store/users.go: the accounts of operators.
use go_react_fihos.Common.{
  ℕ, ◌+◌, ◌==◌, ◌&&◌, Bool, true, false, not, Option, some, none, List, [], ◌∷◌, ◌++◌, any,
}
use go_react_fihos.Common.Text.{Text, text_eq}
use go_react_fihos.Store.Db.{
  not_found, driver, unique_violation, Call, pure, or_raise, query, exec, constrained, ◌>>=◌,
}
use go_react_fihos.Store.Sql.{select_row, update_where, count_where, select_rows}
use go_react_fihos.Store.Schema.{Database}
use go_react_fihos.Store.Accounts.{User}
use go_react_fihos.Store.Paging.{offset}
use go_react_fihos.Store.Customers.{page_of}
use go_react_fihos.Store.Tenants.{newest_first}

unfoldable pub user_by_email : Text → Call Database User
user_by_email email = do
  u ← query (λ db. select_row (λ u. text_eq u.email email) db.users)
  or_raise u not_found

abbrev pub user_key : ℕ → User → Bool
user_key id u = u.id == id

unfoldable pub user_by_id : ℕ → Call Database User
user_by_id id = do u ← query (λ db. select_row (user_key id) db.users); or_raise u not_found

abbrev pub user_row : User → Text → Database → User
user_row u password_hash db = record u {
  id = db.next_id;
  password_hash = password_hash;
  last_login_at = none;
  created_at = db.now;
}

-- email ... NOT NULL UNIQUE, over all tenants
unfoldable pub create_user : User → Text → Call Database User
create_user u password_hash =
    constrained (λ db. any (λ v. text_eq v.email u.email) db.users) unique_violation
      (λ db. (
        user_row u password_hash db,
        record db {
          users = db.users ++ user_row u password_hash db ∷ [];
          next_id = db.next_id + 1;
        },
      ))

abbrev pub same_tenant : ℕ → Option ℕ → Bool
same_tenant t none = false
same_tenant t (some u) = u == t

-- ($1::bigint IS NULL) OR tenant_id = $1
abbrev pub in_tenant : Option ℕ → User → Bool
in_tenant none u = true
in_tenant (some t) u = same_tenant t u.tenant_id

-- COALESCE($3, is_active)
abbrev pub active_or : Option Bool → Bool → Bool
active_or none old = old
active_or (some b) old = b

abbrev pub set_user : Text → Text → Option Bool → Text → User → User
set_user full_name role is_active email u = record u {
  full_name = full_name;
  role = role;
  is_active = active_or is_active u.is_active;
  email = email;
}

abbrev pub email_of_other : ℕ → Text → User → Bool
email_of_other id email u = text_eq u.email email && not (user_key id u)

unfoldable pub update_user : ℕ → Option ℕ → Text → Text → Option Bool → Text → Call Database Unit
update_user id tenant_id full_name role is_active email =
    constrained
      (λ db.
        any (λ u. user_key id u && in_tenant tenant_id u) db.users
        && any (email_of_other id email) db.users)
      unique_violation
      (λ db. (
        tt,
        record db {
          users =
              update_where (λ u. user_key id u && in_tenant tenant_id u)
                (set_user full_name role is_active email) db.users;
        },
      ))

abbrev pub change_user : ℕ → (ℕ → User → User) → Call Database Unit
change_user id f = exec (λ db. record db { users = update_where (user_key id) (f db.now) db.users })

unfoldable pub set_password : ℕ → Text → Call Database Unit
set_password id password_hash = change_user id (λ now u. record u { password_hash = password_hash })

unfoldable pub touch_login : ℕ → Call Database Unit
touch_login id = change_user id (λ now u. record u { last_login_at = some now })

unfoldable pub list_users : Option ℕ → ℕ → ℕ → Call Database (List User × ℕ)
list_users tenant_id page size = do
  total ← query (λ db. count_where (in_tenant tenant_id) db.users)
  found ← query (λ db.
      page_of size (offset page size) (newest_first (select_rows (in_tenant tenant_id) db.users)))
  rows ← or_raise found driver
  pure (rows, total)
