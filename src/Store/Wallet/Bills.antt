-- ===== src/Store/Wallet/Bills.antt =====
-- Bill payments from the wallet (backend/internal/store/wallet.go): when they succeed, and what they
-- change.
use go_react_fihos.Common.{
  ℕ, ◌≡◌, ◌≢◌, refl, Bool, false, ◌==◌, ◌&&◌, none, some, [], arith, if◌then◌else◌, Option-cases,
  inl, inr,
}
use go_react_fihos.Common.Int.{pos, ◌+ℤ◌, ◌-ℤ◌, ◌≤ℤ◌, int_laws}
use go_react_fihos.Common.Text.{Text, codes}
use go_react_fihos.Store.Amount.{Amount, cents, added}
use go_react_fihos.Store.Db.{Result, ok, err, Faults, IsOk, IsErr}
use go_react_fihos.Store.Sql.{
  select_row, select-update_self, select-update_other, select-update_none,
}
use go_react_fihos.Store.Schema.{Database, TxType, bill_payment, BillingWindow}
use go_react_fihos.Store.Billing.{window_key, mark_paid}
use go_react_fihos.Store.Wallet.{
  customer_key, add_balance, debit_wallet_for_bill_by_window, unpaid_key,
}
use go_react_fihos.Store.Wallet.Outcome.{
  posted, balance_of, Settles, debit_by_window-Settles, debit_by_window_missing,
}

pub not_both : {A : Type 0} (r : Result A) → IsOk r → ¬ IsErr r
not_both (ok a) p q = q
not_both (err e) p q = p

abbrev pub same_customer : ℕ → ℕ → ℕ → ℕ → Bool
same_customer tenant_id customer_id t c = t == tenant_id && c == customer_id

-- A posted transaction changes the balance of its customer by its amount and no other balance.
pub balance_of-posted :
    (tenant_id customer_id : ℕ) (type : TxType) (delta : Amount) (ref_type : Text) (ref_id : ℕ)
    (note : Text) (db : Database) (t c : ℕ)
    → select_row (customer_key tenant_id customer_id) db.customers ≢ none
    → balance_of t c (
        posted tenant_id customer_id type delta
          (balance_of tenant_id customer_id db)
          ref_type
          ref_id
          note
          db)
      ≡ (if same_customer tenant_id customer_id t c
          then added (balance_of tenant_id customer_id db) delta
          else balance_of t c db)
balance_of-posted tenant_id customer_id type delta ref_type ref_id note db t c found =
    elim (Option-cases (select_row (customer_key tenant_id customer_id) db.customers)) [
      | inl missing ↦ absurd (found missing)
      | inr (x, e) ↦ ground (
        arith,
        select-update_self (customer_key tenant_id customer_id) (add_balance delta db.now)
            db.customers x (λ y. refl) e,
        select-update_other (customer_key tenant_id customer_id) (customer_key t c)
            (add_balance delta db.now) db.customers,
      )
    ]

module _ (tenant_id window_id : ℕ) (db : Database) where
  unpaid-marked :
      (w : BillingWindow)
      → unpaid_key tenant_id window_id
          (if window_key tenant_id window_id w then mark_paid db.now w else w)
        ≡ false
  unpaid-marked w = ground arith

  -- What a payment leaves: the balance went down by the amount, which it covered, no other
  -- balance changed, and the window can no longer be paid from the wallet.
  abbrev pub Paid : BillingWindow → Database → Type 0
  Paid bill db' =
      (bill.amount ≤ℤ balance_of tenant_id bill.customer_id db)
      × ((t c : ℕ)
          → balance_of t c db' ≡ (
              if same_customer tenant_id bill.customer_id t c
              then balance_of tenant_id bill.customer_id db +ℤ (pos 0 -ℤ bill.amount)
              else balance_of t c db))
      × ((fs : Faults)
          → let (r, _, db'') = debit_wallet_for_bill_by_window tenant_id window_id fs db' in
            IsErr r × (db'' ≡ db'))

  Settles-Paid :
      {A : Type 0} (bill : BillingWindow) (r : Result A) (db' : Database)
      → Settles tenant_id bill.customer_id window_id bill.amount db r db'
      → IsOk r
      → Paid bill db'
  Settles-Paid bill (err e) db' _ p = absurd p
  Settles-Paid bill (ok _) db' (found, covered, post) _ = rw post (
    omega (int_laws, covered),
    λ t c.
        balance_of-posted tenant_id bill.customer_id bill_payment (cents (pos 0 -ℤ bill.amount))
          (codes "billing_window") window_id [] db t c found,
    λ fs. debit_by_window_missing tenant_id window_id fs _ (
        select-update_none (window_key tenant_id window_id) (unpaid_key tenant_id window_id)
          (mark_paid db.now) db.billing_windows unpaid-marked),
  )

  -- A payment from the wallet that succeeds found the window unpaid, and leaves it such that
  -- another call is refused and changes nothing. The balance of its owner covered its amount and
  -- went down by it; no other balance changed.
  pub pay_bill_once :
      (fs : Faults)
      → IsOk (debit_wallet_for_bill_by_window tenant_id window_id fs db).0
      → (bill : BillingWindow) × (select_row (unpaid_key tenant_id window_id) db.billing_windows
          ≡ some bill)
        × Paid bill (debit_wallet_for_bill_by_window tenant_id window_id fs db).2
  pay_bill_once fs paid =
      elim (Option-cases (select_row (unpaid_key tenant_id window_id) db.billing_windows)) [
        | inl missing ↦
            absurd (not_both _ paid (debit_by_window_missing tenant_id window_id fs db missing).0)
        | inr (bill, e) ↦ (
          bill,
          e,
          Settles-Paid bill _ _ (debit_by_window-Settles tenant_id window_id bill fs db e) paid,
        )
      ]
