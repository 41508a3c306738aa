-- ===== src/Store/Accounts.antt =====
-- The rows of backend/internal/store/tenants.go and users.go. A JSON value is its text.
use go_react_fihos.Common.{ℕ, Bool, Option}
use go_react_fihos.Common.Text.{Text}

pub data TenantStatus : Type 0 where
  active suspended closed : TenantStatus

pub record Tenant : Type 0 where
  pub id : ℕ
  pub name : Text
  pub slug : Text
  pub branding : Text
  pub status : TenantStatus
  pub created_at : ℕ
  pub updated_at : ℕ

pub record User : Type 0 where
  pub id : ℕ
  pub tenant_id : Option ℕ
  pub email : Text
  pub full_name : Text
  pub role : Text
  pub is_active : Bool
  pub password_hash : Text
  pub last_login_at : Option ℕ
  pub created_at : ℕ
