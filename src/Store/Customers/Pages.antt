-- ===== src/Store/Customers/Pages.antt =====
-- The pages of `ListCustomers` of backend/internal/store/customers.go, one after the other.
use go_react_fihos.Common.{ℕ, zero, suc, ◌==◌, Bool, List, [], ◌++◌}
use go_react_fihos.Store.Db.{Result, ok, err}
use go_react_fihos.Store.Sql.{select_rows}
use go_react_fihos.Store.Schema.{Database, Customer, CustomerStatus}
use go_react_fihos.Store.Customers.{list_customers}

-- The customers of a tenant, and of those the ones of a status that is asked for.
abbrev pub of_tenant : ℕ → (CustomerStatus → Bool) → Database → List Customer
of_tenant tenant_id status db =
    select_rows (λ c. status c.status) (select_rows (λ c. c.tenant_id == tenant_id) db.customers)

abbrev pub rows_of : Result (List Customer × ℕ) → List Customer
rows_of (ok (rows, total)) = rows
rows_of (err e) = []

abbrev pub total_of : Result (List Customer × ℕ) → ℕ
total_of (ok (rows, total)) = total
total_of (err e) = 0

module _ (tenant_id : ℕ) (status : CustomerStatus → Bool) (size : ℕ) (db : Database) where
  -- The rows of the first `n` pages, where no statement fails.
  abbrev pub pages : ℕ → List Customer
  pages zero = []
  pages (suc n) = pages n ++ rows_of (list_customers tenant_id status (suc n) size [] db).0

  abbrev pub total_on : ℕ → ℕ
  total_on page = total_of (list_customers tenant_id status page size [] db).0
