-- ===== src/Store/Billing.antt =====
-- backend/internal/store/billing.go: the monthly fee, the billing windows of a month, and payment.
pub mod Monthly
pub mod Once
use go_react_fihos.Common.{
  ℕ, suc, ◌+◌, ◌==◌, ◌&&◌, Bool, true, false, not, Option, none, some, List, [], ◌∷◌, ◌++◌,
  if◌then◌else◌, length, any,
}
use go_react_fihos.Common.Int.{ℤ, pos, leb_ℤ}
use go_react_fihos.Store.Amount.{Amount, cents, stored, not_positive}
use go_react_fihos.Store.Db.{
  Result, ok, err, Error, not_found, Call, pure, or_raise, query, exec_returning, transaction,
  fails, later, ◌>>=◌, ◌>>◌,
}
use go_react_fihos.Store.Sql.{select_row, update_where, select_rows}
use go_react_fihos.Store.Schema.{
  Database, Customer, CustomerStatus, token, BillingWindow, WindowStatus, issued, paid, overdue,
  Settings,
}

-- What PostgreSQL computes of a time: date_trunc('month', t)::date and the last day of that month.
pub record Calendar : Type 0 where
  pub month_start : ℕ → ℕ
  pub month_end : ℕ → ℕ

abbrev pub default_monthly_fee : Amount
default_monthly_fee = cents (pos 15000000)

-- COALESCE(payment_config->>'monthly_fee', 0)
abbrev pub stored_fee : Settings → Amount
stored_fee r = elim r.monthly_fee [ none ↦ cents (pos 0) | some fee ↦ fee ]

-- No row, a failed statement and a fee that is not positive all give the default.
abbrev pub fee_or_default : Result (Option Settings) → Amount
fee_or_default (err e) = default_monthly_fee
fee_or_default (ok none) = default_monthly_fee
fee_or_default (ok (some r)) =
    if not_positive (stored_fee r) then default_monthly_fee else stored_fee r

unfoldable pub monthly_fee : ℕ → Call Database Amount
monthly_fee tenant_id fs db =
    let (r, fs', db') =
      query (λ s. select_row (λ row. row.tenant_id == tenant_id) s.settings) fs db in
    (ok (fee_or_default r), fs', db')

abbrev pub is_token : CustomerStatus → Bool
is_token CustomerStatus.token = true
is_token _ = false

-- bw.customer_id = c.id AND bw.period_start = the month
abbrev pub bills : ℕ → ℕ → BillingWindow → Bool
bills customer_id month bw = bw.customer_id == customer_id && bw.period_start == month

-- c.tenant_id = $3 AND c.status = 'token' AND NOT EXISTS (...)
abbrev pub is_due : ℕ → ℕ → List BillingWindow → Customer → Bool
is_due tenant_id month windows c =
    c.tenant_id == tenant_id && is_token c.status && not (any (bills c.id month) windows)

abbrev pub issue : ℕ → ℕ → ℤ → ℕ → ℕ → Customer → BillingWindow
issue month month_end fee id now c = record {
  id = id;
  tenant_id = c.tenant_id;
  customer_id = c.id;
  period_start = month;
  period_end = month_end;
  amount = fee;
  status = issued;
  issued_at = now;
  paid_at = none;
}

-- INSERT ... SELECT over the customers, the ids counted up.
unfoldable pub due_windows :
    (Customer → Bool) → (ℕ → Customer → BillingWindow) → ℕ → List Customer → List BillingWindow
due_windows due new id [] = []
due_windows due new id (c ∷ cs) =
    let rest = due_windows due new (if due c then suc id else id) cs in
    if due c then new id c ∷ rest else rest

unfoldable pub generate_monthly_windows : Calendar → ℕ → ℕ → Call Database ℕ
unfolding monthly_fee
generate_monthly_windows cal tenant_id now = do
  fee ← monthly_fee tenant_id
  exec_returning (λ db.
      let month = cal.month_start now in
      let created =
        due_windows (is_due tenant_id month db.billing_windows)
          (λ id c. issue month (cal.month_end now) (stored fee) id db.now c) db.next_id
          db.customers in
      (
        length created,
        record db {
          billing_windows = db.billing_windows ++ created;
          next_id = db.next_id + length created;
        },
      ))

-- WHERE bw.tenant_id=$1 AND bw.id=$2
abbrev pub window_key : ℕ → ℕ → BillingWindow → Bool
window_key tenant_id id w = w.tenant_id == tenant_id && w.id == id

abbrev pub mark_paid : ℕ → BillingWindow → BillingWindow
mark_paid now w = record w { status = paid; paid_at = some now }

-- UPDATE ... RETURNING: there is no test of the status.
unfoldable pub mark_window_paid_tx : ℕ → ℕ → Call Database BillingWindow
mark_window_paid_tx tenant_id id = do
  updated ← exec_returning (λ db. (
    select_row (window_key tenant_id id)
        (update_where (window_key tenant_id id) (mark_paid db.now) db.billing_windows),
    record db {
      billing_windows =
          update_where (window_key tenant_id id) (mark_paid db.now) db.billing_windows;
    },
  ))
  or_raise updated not_found

unfoldable pub mark_window_paid : ℕ → ℕ → Call Database BillingWindow
unfolding mark_window_paid_tx
mark_window_paid tenant_id id = transaction (mark_window_paid_tx tenant_id id)

-- b.status IN ('issued','overdue') AND b.paid_at IS NULL
abbrev pub is_pending : ℕ → BillingWindow → Bool
is_pending tenant_id w =
    w.tenant_id == tenant_id
    && elim w.status [ issued ↦ true | overdue ↦ true | _ ↦ false ]
    && elim w.paid_at [ none ↦ true | some t ↦ false ]

-- The join with `customers` always finds the owner (a foreign key); ORDER BY is not modelled.
unfoldable pub list_pending_windows : ℕ → Call Database (List BillingWindow)
list_pending_windows tenant_id = query (λ db. select_rows (is_pending tenant_id) db.billing_windows)
