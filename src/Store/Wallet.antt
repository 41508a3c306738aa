-- ===== src/Store/Wallet.antt =====
-- backend/internal/store/wallet.go: balances and the ledger of wallet transactions. The proofs are
-- in the modules below.
pub mod Outcome
pub mod Ledger
pub mod Bills
pub mod Covered
use go_react_fihos.Common.{
  ℕ, true, false, ◌+◌, ◌-◌, ◌<◌, ◌==◌, ◌&&◌, Bool, not, Option, none, some, List, [], ◌∷◌, ◌++◌,
  if◌then◌else◌, ltb, all,
}
use go_react_fihos.Common.Int.{ℤ, pos, ◌+ℤ◌, ◌-ℤ◌, ltb_ℤ, leb_ℤ}
use go_react_fihos.Common.Text.{Text, codes, text_eq}
use go_react_fihos.Store.Amount.{
  Amount, cents, stored, added, summed, overdraws, not_positive, is_nil,
}
use go_react_fihos.Store.Db.{
  Error, ok, err, not_found, insufficient, amount_not_positive, amount_zero, Call, pure, or_raise,
  raise_if, query, exec, transaction, ◌>>=◌, ◌>>◌,
}
use go_react_fihos.Store.Billing.{window_key, mark_window_paid_tx}
use go_react_fihos.Store.Sql.{select_row, update_where, select_rows}
use go_react_fihos.Store.Schema.{
  Database, Customer, BillingWindow, WindowStatus, WalletTransaction, TxType, topup, bill_payment,
  adjustment,
}

-- WHERE tenant_id=$1 AND id=$2
abbrev pub customer_key : ℕ → ℕ → Customer → Bool
customer_key tenant_id customer_id c = c.tenant_id == tenant_id && c.id == customer_id

pub customer_balance : ℕ → ℕ → Call Database ℤ
customer_balance tenant_id customer_id = do
  c ← query (λ db. select_row (customer_key tenant_id customer_id) db.customers)
  c' ← or_raise c not_found
  pure c'.balance

abbrev pub null_str : Text → Option Text
null_str v = if text_eq v [] then none else some v

abbrev pub null_i64 : ℕ → Option ℕ
null_i64 v = if v == 0 then none else some v

abbrev pub add_balance : Amount → ℕ → Customer → Customer
add_balance delta now c = record c { balance = added c.balance delta; updated_at = now }

-- The new balance is a float64, which the callers store: it is returned as it is stored.
unfoldable pub lock_and_apply : ℕ → ℕ → Amount → Call Database ℤ
lock_and_apply tenant_id customer_id delta = do
  c ← query (λ db. select_row (customer_key tenant_id customer_id) db.customers)
  c' ← or_raise c not_found
  raise_if (overdraws c'.balance delta) insufficient
  exec (λ db. record db {
    customers =
        update_where (customer_key tenant_id customer_id) (add_balance delta db.now) db.customers;
  })
  pure (summed c'.balance delta)

abbrev pub new_transaction : ℕ → ℕ → TxType → ℤ → ℤ → Text → ℕ → Text → ℕ → ℕ → WalletTransaction
new_transaction tenant_id customer_id type amount balance_after ref_type ref_id note id now =
    record {
      id = id;
      tenant_id = tenant_id;
      customer_id = customer_id;
      type = type;
      amount = amount;
      balance_after = balance_after;
      ref_type = null_str ref_type;
      ref_id = null_i64 ref_id;
      note = note;
      created_at = now;
    }

unfoldable pub insert_wallet_tx : ℕ → ℕ → TxType → Amount → ℤ → Text → ℕ → Text → Call Database Unit
insert_wallet_tx tenant_id customer_id type amount balance_after ref_type ref_id note = exec (λ db.
    record db {
      wallet_transactions =
          new_transaction tenant_id customer_id type (stored amount) balance_after ref_type ref_id
            note db.next_id db.now
          ∷ db.wallet_transactions;
      next_id = db.next_id + 1;
    })

-- lockAndApply and insertWalletTx in one transaction
unfoldable pub adjust_balance : ℕ → ℕ → TxType → Amount → Text → ℕ → Text → Call Database Unit
unfolding lock_and_apply insert_wallet_tx
adjust_balance tenant_id customer_id type delta ref_type ref_id note = transaction (do
  new_balance ← lock_and_apply tenant_id customer_id delta
  insert_wallet_tx tenant_id customer_id type delta new_balance ref_type ref_id note)

unfoldable pub credit_wallet : ℕ → ℕ → Amount → Text → ℕ → Text → Call Database Unit
unfolding adjust_balance
credit_wallet tenant_id customer_id amount ref_type ref_id note =
    raise_if (not_positive amount) amount_not_positive
    >> adjust_balance tenant_id customer_id topup amount ref_type ref_id note

unfoldable pub adjust_wallet : ℕ → ℕ → Amount → Text → Call Database Unit
unfolding adjust_balance
adjust_wallet tenant_id customer_id delta note =
    raise_if (is_nil delta) amount_zero
    >> adjust_balance tenant_id customer_id adjustment delta [] 0 note

-- The call names the customer and the amount, and `delta` is -amount; the window is not looked at
-- before it is marked.
unfoldable pub debit_wallet_for_bill : ℕ → ℕ → ℕ → Amount → Call Database BillingWindow
unfolding lock_and_apply insert_wallet_tx mark_window_paid_tx
debit_wallet_for_bill tenant_id customer_id window_id delta = transaction (do
  new_balance ← lock_and_apply tenant_id customer_id delta
  insert_wallet_tx tenant_id customer_id bill_payment delta new_balance (codes "billing_window")
      window_id []
  mark_window_paid_tx tenant_id window_id)

abbrev pub is_paid : WindowStatus → Bool
is_paid WindowStatus.paid = true
is_paid _ = false

-- WHERE tenant_id=$1 AND id=$2 AND status <> 'paid'
abbrev pub unpaid_key : ℕ → ℕ → BillingWindow → Bool
unpaid_key tenant_id window_id w = window_key tenant_id window_id w && not (is_paid w.status)

unfoldable pub debit_wallet_for_bill_by_window : ℕ → ℕ → Call Database (ℕ × BillingWindow)
unfolding lock_and_apply insert_wallet_tx mark_window_paid_tx
debit_wallet_for_bill_by_window tenant_id window_id = transaction (do
  found ← query (λ db. select_row (unpaid_key tenant_id window_id) db.billing_windows)
  bill ← or_raise found not_found
  new_balance ← lock_and_apply tenant_id bill.customer_id (cents (pos 0 -ℤ bill.amount))
  insert_wallet_tx tenant_id bill.customer_id bill_payment (cents (pos 0 -ℤ bill.amount))
      new_balance (codes "billing_window") window_id []
  w ← mark_window_paid_tx tenant_id window_id
  pure (bill.customer_id, w))
