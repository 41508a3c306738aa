-- ===== src/Store/Wallet/Outcome.antt =====
-- How a call of backend/internal/store/wallet.go ends, over all faults.
use go_react_fihos.Common.{ℕ, ◌+◌, ◌≡◌, ◌≢◌, false, none, some, [], ◌∷◌, arith}
use go_react_fihos.Common.Int.{ℤ, pos, ◌+ℤ◌, ◌-ℤ◌, ◌≤ℤ◌}
use go_react_fihos.Common.Text.{Text, codes}
use go_react_fihos.Store.Amount.{Amount, cents, stored, summed, overdraws}
use go_react_fihos.Store.Db.{IsErr, Result, ok, err, Faults}
use go_react_fihos.Store.Sql.{select_row, update_where}
use go_react_fihos.Store.Schema.{Database, TxType, bill_payment, BillingWindow}
use go_react_fihos.Store.Billing.{window_key, mark_paid}
use go_react_fihos.Store.Wallet.{
  customer_key, add_balance, new_transaction, adjust_balance, debit_wallet_for_bill,
  debit_wallet_for_bill_by_window, unpaid_key,
}

-- The database after `delta` is posted to a customer whose balance was `balance`.
abbrev pub posted : ℕ → ℕ → TxType → Amount → ℤ → Text → ℕ → Text → Database → Database
posted tenant_id customer_id type delta balance ref_type ref_id note db = record db {
  customers =
      update_where (customer_key tenant_id customer_id) (add_balance delta db.now) db.customers;
  wallet_transactions =
      new_transaction tenant_id customer_id type (stored delta) (summed balance delta) ref_type
        ref_id note db.next_id db.now
      ∷ db.wallet_transactions;
  next_id = db.next_id + 1;
}

abbrev pub balance_of : ℕ → ℕ → Database → ℤ
balance_of tenant_id customer_id db =
    elim (select_row (customer_key tenant_id customer_id) db.customers) [
      | none ↦ pos 0
      | some c ↦ c.balance
    ]

abbrev pub Posts :
    ℕ → ℕ → TxType → Amount → Text → ℕ → Text → Database → Result Unit → Database → Type 0
Posts tenant_id customer_id type delta ref_type ref_id note db (err e) db' = db' ≡ db
Posts tenant_id customer_id type delta ref_type ref_id note db (ok _) db' =
    (select_row (customer_key tenant_id customer_id) db.customers ≢ none)
    × (overdraws (balance_of tenant_id customer_id db) delta ≡ false)
    × (db'
        ≡ posted tenant_id customer_id type delta (balance_of tenant_id customer_id db) ref_type
            ref_id note db)

-- A correction that fails, at whatever statement, leaves the database as it was; one that
-- succeeds found its customer, whose balance with the amount was not below 0, and wrote what the
-- columns keep of the new balance and of one ledger row.
pub adjust_balance-Posts :
    (tenant_id customer_id : ℕ) (type : TxType) (delta : Amount) (ref_type : Text) (ref_id : ℕ)
    (note : Text) (fs : Faults) (db : Database)
    → let (r, _, db') =
        adjust_balance tenant_id customer_id type delta ref_type ref_id note fs db in
      Posts tenant_id customer_id type delta ref_type ref_id note db r db'
unfolding adjust_balance
adjust_balance-Posts tenant_id customer_id type delta ref_type ref_id note fs db = ground arith

-- A window that is marked paid, and a debit of `amount` posted for it.
abbrev pub settled : ℕ → ℕ → ℕ → ℤ → Database → Database
settled tenant_id customer_id window_id amount db =
    let delta = pos 0 -ℤ amount in
    record (posted tenant_id customer_id bill_payment (cents delta)
      (balance_of tenant_id customer_id db) (codes "billing_window") window_id [] db) {
        billing_windows =
            update_where (window_key tenant_id window_id) (mark_paid db.now) db.billing_windows;
      }

abbrev pub Settles : {A : Type 0} → ℕ → ℕ → ℕ → ℤ → Database → Result A → Database → Type 0
Settles tenant_id customer_id window_id amount db (err e) db' = db' ≡ db
Settles tenant_id customer_id window_id amount db (ok _) db' =
    (select_row (customer_key tenant_id customer_id) db.customers ≢ none)
    × (pos 0 ≤ℤ balance_of tenant_id customer_id db +ℤ (pos 0 -ℤ amount))
    × (db' ≡ settled tenant_id customer_id window_id amount db)

pub debit_wallet_for_bill-Settles :
    (tenant_id customer_id window_id : ℕ) (amount : ℤ) (fs : Faults) (db : Database)
    → let (r, _, db') =
        debit_wallet_for_bill tenant_id customer_id window_id (cents (pos 0 -ℤ amount)) fs db in
      Settles tenant_id customer_id window_id amount db r db'
unfolding debit_wallet_for_bill
debit_wallet_for_bill-Settles tenant_id customer_id window_id amount fs db = ground arith

pub debit_by_window-Settles :
    (tenant_id window_id : ℕ) (bill : BillingWindow) (fs : Faults) (db : Database)
    → select_row (unpaid_key tenant_id window_id) db.billing_windows ≡ some bill
    → let (r, _, db') = debit_wallet_for_bill_by_window tenant_id window_id fs db in
      Settles tenant_id bill.customer_id window_id bill.amount db r db'
unfolding debit_wallet_for_bill_by_window
debit_by_window-Settles tenant_id window_id bill fs db e = ground arith

pub debit_by_window_missing :
    (tenant_id window_id : ℕ) (fs : Faults) (db : Database)
    → select_row (unpaid_key tenant_id window_id) db.billing_windows ≡ none
    → let (r, _, db') = debit_wallet_for_bill_by_window tenant_id window_id fs db in
      IsErr r × (db' ≡ db)
unfolding debit_wallet_for_bill_by_window
debit_by_window_missing tenant_id window_id fs db e = ground arith
