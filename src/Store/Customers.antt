-- ===== src/Store/Customers.antt =====
-- backend/internal/store/customers.go: customers of a tenant, in the order of their ids.
pub mod Pages
use go_react_fihos.Common.{
  ℕ, zero, suc, ◌+◌, ◌==◌, ◌&&◌, ◌≤◌, ◌≡◌, refl, Bool, true, Option, none, some, List, [], ◌∷◌,
  ◌++◌, arith, length, take, drop, All, All-take, Bool-cases, inl, inr,
}
use go_react_fihos.Common.Int.{ℤ, pos, negsuc}
use go_react_fihos.Store.Db.{
  Result, ok, err, not_found, driver, Faults, Call, pure, or_raise, query, exec, exec_returning,
  ◌>>=◌,
}
use go_react_fihos.Store.Sql.{select_row, update_where, count_where, select_rows}
use go_react_fihos.Store.Schema.{Database, Customer, CustomerStatus}
use go_react_fihos.Store.Wallet.{customer_key}
use go_react_fihos.Store.Paging.{offset}

unfoldable pub customer_by_id : ℕ → ℕ → Call Database Customer
customer_by_id tenant_id id = do
  c ← query (λ db. select_row (customer_key tenant_id id) db.customers)
  or_raise c not_found

-- Of the argument the hotspot, name, phone, address and status are taken.
abbrev pub customer_row : ℕ → Customer → Database → Customer
customer_row tenant_id c db = record c {
  id = db.next_id;
  tenant_id = tenant_id;
  balance = pos 0;
  created_at = db.now;
  updated_at = db.now;
}

unfoldable pub create_customer : ℕ → Customer → Call Database Customer
create_customer tenant_id c = exec_returning (λ db. (
  customer_row tenant_id c db,
  record db {
    customers = db.customers ++ customer_row tenant_id c db ∷ [];
    next_id = db.next_id + 1;
  },
))

abbrev pub set_customer_status : CustomerStatus → ℕ → Customer → Customer
set_customer_status status now c = record c { status = status; updated_at = now }

-- No customer of that id is no error.
unfoldable pub patch_customer_status : ℕ → ℕ → CustomerStatus → Call Database Unit
patch_customer_status tenant_id id status = exec (λ db. record db {
  customers =
      update_where (customer_key tenant_id id) (set_customer_status status db.now) db.customers;
})

-- LIMIT and OFFSET: a negative offset is refused.
abbrev pub page_of : {A : Type 0} → ℕ → ℤ → List A → Option (List A)
page_of size (pos n) rows = some (take size (drop n rows))
page_of size (negsuc n) rows = none

-- `status` is the test ($2='' OR status=$2).
abbrev pub listed : ℕ → (CustomerStatus → Bool) → Customer → Bool
listed tenant_id status c = c.tenant_id == tenant_id && status c.status

unfoldable pub list_customers :
    ℕ → (CustomerStatus → Bool) → ℕ → ℕ → Call Database (List Customer × ℕ)
list_customers tenant_id status page size = do
  total ← query (λ db. count_where (listed tenant_id status) db.customers)
  found ←
      query
        (λ db. page_of size (offset page size) (select_rows (listed tenant_id status) db.customers))
  rows ← or_raise found driver
  pure (rows, total)
