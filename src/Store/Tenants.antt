-- ===== src/Store/Tenants.antt =====
-- backend/internal/store/tenants.go: tenants and their settings.
use go_react_fihos.Common.{
  ℕ, ◌+◌, ◌==◌, Bool, true, false, Option, some, none, List, [], ◌∷◌, ◌++◌, if◌then◌else◌, any, map,
}
use go_react_fihos.Common.Text.{Text, codes, text_eq}
use go_react_fihos.Store.Amount.{Amount}
use go_react_fihos.Store.Db.{
  not_found, driver, unique_violation, Call, pure, or_raise, raise_if, query, exec, exec_returning,
  constrained, ◌>>=◌,
}
use go_react_fihos.Store.Sql.{select_row, update_where, count_where, select_rows}
use go_react_fihos.Store.Schema.{Database, Settings}
use go_react_fihos.Store.Accounts.{Tenant, TenantStatus, active}
use go_react_fihos.Store.Paging.{offset}
use go_react_fihos.Store.Customers.{page_of}

unfoldable pub tenant_by_id : ℕ → Call Database Tenant
tenant_by_id id = do t ← query (λ db. select_row (λ t. t.id == id) db.tenants); or_raise t not_found

unfoldable pub tenant_by_slug : Text → Call Database Tenant
tenant_by_slug slug = do
  t ← query (λ db. select_row (λ t. text_eq t.slug slug) db.tenants)
  or_raise t not_found

abbrev pub tenant_row : Text → Text → Text → Database → Tenant
tenant_row name slug branding db = record {
  id = db.next_id;
  name = name;
  slug = slug;
  branding = branding;
  status = active;
  created_at = db.now;
  updated_at = db.now;
}

-- slug ... NOT NULL UNIQUE
unfoldable pub create_tenant : Text → Text → Text → Call Database Tenant
create_tenant name slug branding =
    constrained (λ db. any (λ t. text_eq t.slug slug) db.tenants) unique_violation
      (λ db. (
        tenant_row name slug branding db,
        record db {
          tenants = db.tenants ++ tenant_row name slug branding db ∷ [];
          next_id = db.next_id + 1;
        },
      ))

-- COALESCE(NULLIF($1,''), name)
abbrev pub name_or : Text → Text → Text
name_or [] old = old
name_or (c ∷ s) old = c ∷ s

-- COALESCE($2, branding)
abbrev pub json_or : Option Text → Text → Text
json_or none old = old
json_or (some json) old = json

abbrev pub set_tenant : Text → Option Text → ℕ → Tenant → Tenant
set_tenant name branding now t = record t {
  name = name_or name t.name;
  branding = json_or branding t.branding;
  updated_at = now;
}

unfoldable pub update_tenant : ℕ → Text → Option Text → Call Database Unit
update_tenant id name branding = exec (λ db. record db {
  tenants = update_where (λ t. t.id == id) (set_tenant name branding db.now) db.tenants;
})

abbrev pub set_tenant_status : TenantStatus → ℕ → Tenant → Tenant
set_tenant_status status now t = record t { status = status; updated_at = now }

unfoldable pub update_tenant_status : ℕ → TenantStatus → Call Database Unit
update_tenant_status id status = do
  affected ← exec_returning (λ db. (
    count_where (λ t. t.id == id) db.tenants,
    record db {
      tenants = update_where (λ t. t.id == id) (set_tenant_status status db.now) db.tenants;
    },
  ))
  raise_if (affected == 0) not_found

-- ORDER BY id DESC
abbrev pub newest_first : {A : Type 0} → List A → List A
newest_first [] = []
newest_first (x ∷ xs) = newest_first xs ++ x ∷ []

-- `status` is the test ($1 = '') OR status = $1.
unfoldable pub list_tenants : (TenantStatus → Bool) → ℕ → ℕ → Call Database (List Tenant × ℕ)
list_tenants status page size = do
  total ← query (λ db. count_where (λ t. status t.status) db.tenants)
  found ← query (λ db.
      page_of size (offset page size)
        (newest_first (select_rows (λ t. status t.status) db.tenants)))
  rows ← or_raise found driver
  pure (rows, total)

pub record TenantSettings : Type 0 where
  pub portal_title : Text
  pub portal_message : Text
  pub monthly_fee : Option Amount

abbrev pub default_title : Text
default_title = codes "Free Wi-Fi"

-- A message that is NULL cannot be scanned into a string.
abbrev pub settings_of : Option Settings → Option TenantSettings
settings_of none =
    some (record { portal_title = default_title; portal_message = []; monthly_fee = none })
settings_of (some s) = elim s.portal_message [
  | none ↦ none
  | some message ↦ some (record {
    portal_title = s.portal_title;
    portal_message = message;
    monthly_fee = s.monthly_fee;
  })
]

abbrev pub settings_key : ℕ → Settings → Bool
settings_key tenant_id s = s.tenant_id == tenant_id

unfoldable pub read_settings : ℕ → Call Database TenantSettings
read_settings tenant_id = do
  s ← query (λ db. settings_of (select_row (settings_key tenant_id) db.settings))
  or_raise s driver

abbrev pub set_portal : Text → Text → Settings → Settings
set_portal title message s = record s { portal_title = title; portal_message = some message }

-- The title and the message are strings, never NULL, so COALESCE takes them.
unfoldable pub upsert_settings : ℕ → Text → Text → Call Database Unit
upsert_settings tenant_id title message = exec (λ db. record db {
  settings =
      if any (settings_key tenant_id) db.settings
      then update_where (settings_key tenant_id) (set_portal title message) db.settings
      else db.settings
        ++ record {
          tenant_id = tenant_id;
          monthly_fee = none;
          portal_title = title;
          portal_message = some message;
        }
          ∷ [];
})

abbrev pub is_active_tenant : Tenant → Bool
is_active_tenant t = elim t.status [ TenantStatus.active ↦ true | _ ↦ false ]

unfoldable pub active_tenant_ids : Call Database (List ℕ)
active_tenant_ids = query (λ db. map (λ t. t.id) (select_rows is_active_tenant db.tenants))
