-- ===== src/Store/Wallet/Ledger.antt =====
-- Balances against the ledger of transactions (backend/internal/store/wallet.go).
use go_react_fihos.Common.{
  ℕ, ◌≡◌, refl, Bool, false, ◌==◌, ◌&&◌, some, List, [], ◌∷◌, arith, if◌then◌else◌, All,
  Option-cases, inl, inr,
}
use go_react_fihos.Common.Int.{ltb_ℤ, ℤ, pos, ◌+ℤ◌, ◌-ℤ◌, ◌≤ℤ◌}
use go_react_fihos.Common.Text.{Text, codes}
use go_react_fihos.Store.Amount.{cents}
use go_react_fihos.Store.Db.{Result, ok, err, Faults}
use go_react_fihos.Store.Sql.{select_row, All-update_imp, All-select_row, select_row-satisfies}
use go_react_fihos.Store.Schema.{
  Database, Customer, TxType, topup, bill_payment, adjustment, WalletTransaction,
}
use go_react_fihos.Store.Billing.{Calendar, mark_window_paid, generate_monthly_windows}
use go_react_fihos.Store.Wallet.{
  credit_wallet, adjust_wallet, debit_wallet_for_bill, debit_wallet_for_bill_by_window, unpaid_key,
  customer_key, add_balance, new_transaction,
}
use go_react_fihos.Store.Wallet.Outcome.{
  posted, balance_of, Posts, Settles, debit_by_window_missing, debit_by_window-Settles,
  debit_wallet_for_bill-Settles,
}

abbrev pub tx_key : ℕ → ℕ → WalletTransaction → Bool
tx_key tenant_id customer_id t = t.tenant_id == tenant_id && t.customer_id == customer_id

-- What the ledger says that a customer owns.
unfoldable pub ledger_sum : ℕ → ℕ → List WalletTransaction → ℤ
ledger_sum tenant_id customer_id [] = pos 0
ledger_sum tenant_id customer_id (t ∷ ts) =
    if tx_key tenant_id customer_id t
    then ledger_sum tenant_id customer_id ts +ℤ t.amount
    else ledger_sum tenant_id customer_id ts

-- Each row carries the balance that the ledger had after it.
abbrev pub IsRunning : List WalletTransaction → Type 0
IsRunning [] = Unit
IsRunning (t ∷ ts) =
    (t.balance_after ≡ ledger_sum t.tenant_id t.customer_id (t ∷ ts)) × IsRunning ts

abbrev pub Owns : List WalletTransaction → Customer → Type 0
Owns ts c = (pos 0 ≤ℤ c.balance) × (c.balance ≡ ledger_sum c.tenant_id c.id ts)

pub record IsConsistent (db : Database) : Type 0 where
  pub owned : All (Owns db.wallet_transactions) db.customers
  pub running : IsRunning db.wallet_transactions

not_negative : (b : ℤ) → ltb_ℤ b (pos 0) ≡ false → pos 0 ≤ℤ b
not_negative b e = ground arith

module _ (tenant_id customer_id : ℕ) (type : TxType) (delta : ℤ) (ref_type : Text) (ref_id : ℕ)
    (note : Text) where
  Owns-add_balance :
      (id now : ℕ) (balance : ℤ) (ts : List WalletTransaction)
      → pos 0 ≤ℤ balance +ℤ delta
      → balance ≡ ledger_sum tenant_id customer_id ts
      → (c : Customer) → Owns ts c
      → Owns
          (new_transaction tenant_id customer_id type delta
              (balance +ℤ delta)
              ref_type
              ref_id
              note
              id
              now
            ∷ ts)
          (if customer_key tenant_id customer_id c then add_balance (cents delta) now c else c)
  unfolding ledger_sum
  Owns-add_balance id now balance ts covered sum c h = ground arith

  posted-IsConsistent :
      (db : Database) (c : Customer)
      → select_row (customer_key tenant_id customer_id) db.customers ≡ some c
      → pos 0 ≤ℤ c.balance +ℤ delta
      → IsConsistent db
      → IsConsistent
          (posted tenant_id customer_id type (cents delta) c.balance ref_type ref_id note db)
  posted-IsConsistent db c e covered h = record {
    owned =
        All-update_imp (Owns db.wallet_transactions)
          (Owns
            (posted tenant_id customer_id type (cents delta) c.balance ref_type ref_id note
              db).wallet_transactions)
          (customer_key tenant_id customer_id) (add_balance (cents delta) db.now) db.customers
          (Owns-add_balance db.next_id db.now c.balance db.wallet_transactions covered owner)
          h.owned;
    running = (last, h.running);
  }
    where
      owner : c.balance ≡ ledger_sum tenant_id customer_id db.wallet_transactions
      owner = ground (
        arith,
        select_row-satisfies (customer_key tenant_id customer_id) db.customers c e,
        (All-select_row (Owns db.wallet_transactions) (customer_key tenant_id customer_id)
            db.customers c h.owned e),
      )

      last :
          (c.balance +ℤ delta)
          ≡ ledger_sum tenant_id customer_id (
              new_transaction tenant_id customer_id type delta
                (c.balance +ℤ delta)
                ref_type
                ref_id
                note
                db.next_id
                db.now
              ∷ db.wallet_transactions)
      last = unfold ledger_sum in ground (arith, owner)

  Posts-IsConsistent :
      (db db' : Database) (r : Result Unit)
      → Posts tenant_id customer_id type (cents delta) ref_type ref_id note db r db'
      → IsConsistent db
      → IsConsistent db'
  Posts-IsConsistent db db' (err e) same h = rw same h
  Posts-IsConsistent db db' (ok _) (found, covered, post) h =
      elim (Option-cases (select_row (customer_key tenant_id customer_id) db.customers)) [
        | inl missing ↦ absurd (found missing)
        | inr (c, e) ↦ rw post (
            rw (e, balance_of)
              (posted-IsConsistent db c e
                (not_negative (c.balance +ℤ delta) (rw (e, balance_of) at covered)) h))
      ]

Settles-IsConsistent :
    {A : Type 0} (tenant_id customer_id window_id : ℕ) (amount : ℤ) (db db' : Database)
    (r : Result A)
    → Settles tenant_id customer_id window_id amount db r db'
    → IsConsistent db
    → IsConsistent db'
Settles-IsConsistent tenant_id customer_id window_id amount db db' (err e) same h = rw same h
Settles-IsConsistent tenant_id customer_id window_id amount db db' (ok _) (found, covered, post) h =
    let k =
      Posts-IsConsistent tenant_id customer_id bill_payment (pos 0 -ℤ amount)
        (codes "billing_window") window_id [] db _ (ok tt) (found, ground (arith, covered), refl)
        h in
    rw post (record { owned = k.owned; running = k.running })

-- The calls of the package that write to these tables, under any faults. The amounts that are given
-- are of whole cents.
pub data Step (db : Database) : Database → Type 0 where
  credit :
      (tenant_id customer_id : ℕ) (amount : ℤ) (ref_type : Text) (ref_id : ℕ) (note : Text)
      (fs : Faults)
      → Step db (credit_wallet tenant_id customer_id (cents amount) ref_type ref_id note fs db).2
  adjust :
      (tenant_id customer_id : ℕ) (delta : ℤ) (note : Text) (fs : Faults)
      → Step db (adjust_wallet tenant_id customer_id (cents delta) note fs db).2
  pay :
      (tenant_id window_id : ℕ) (fs : Faults)
      → Step db (debit_wallet_for_bill_by_window tenant_id window_id fs db).2
  debit :
      (tenant_id customer_id window_id : ℕ) (amount : ℤ) (fs : Faults)
      → Step db
          (debit_wallet_for_bill tenant_id customer_id window_id (cents (pos 0 -ℤ amount)) fs db).2
  pay_manually :
      (tenant_id window_id : ℕ) (fs : Faults)
      → Step db (mark_window_paid tenant_id window_id fs db).2
  generate :
      (cal : Calendar) (tenant_id now : ℕ) (fs : Faults)
      → Step db (generate_monthly_windows cal tenant_id now fs db).2

pub data Reach (db : Database) : Database → Type 0 where
  here : Reach db db
  next : {db' db'' : Database} → Reach db db' → Step db' db'' → Reach db db''

credit_wallet-Posts :
    (tenant_id customer_id : ℕ) (amount : ℤ) (ref_type : Text) (ref_id : ℕ) (note : Text)
    (fs : Faults) (db : Database)
    → let (r, _, db') =
        credit_wallet tenant_id customer_id (cents amount) ref_type ref_id note fs db in
      Posts tenant_id customer_id topup (cents amount) ref_type ref_id note db r db'
unfolding credit_wallet
credit_wallet-Posts tenant_id customer_id amount ref_type ref_id note fs db = ground arith

adjust_wallet-Posts :
    (tenant_id customer_id : ℕ) (delta : ℤ) (note : Text) (fs : Faults) (db : Database)
    → let (r, _, db') = adjust_wallet tenant_id customer_id (cents delta) note fs db in
      Posts tenant_id customer_id adjustment (cents delta) [] 0 note db r db'
unfolding adjust_wallet
adjust_wallet-Posts tenant_id customer_id delta note fs db = ground arith

-- Billing windows are no part of the invariant.
module _ {db : Database} (h : IsConsistent db) where
  mark_window_paid-IsConsistent :
      (tenant_id window_id : ℕ) (fs : Faults)
      → IsConsistent (mark_window_paid tenant_id window_id fs db).2
  unfolding mark_window_paid
  mark_window_paid-IsConsistent tenant_id window_id fs = record {
    owned = ground arith;
    running = ground arith;
  }

  generate-IsConsistent :
      (cal : Calendar) (tenant_id now : ℕ) (fs : Faults)
      → IsConsistent (generate_monthly_windows cal tenant_id now fs db).2
  unfolding generate_monthly_windows
  generate-IsConsistent cal tenant_id now fs = record {
    owned = ground arith;
    running = ground arith;
  }

  pay-IsConsistent :
      (tenant_id window_id : ℕ) (fs : Faults)
      → IsConsistent (debit_wallet_for_bill_by_window tenant_id window_id fs db).2
  pay-IsConsistent tenant_id window_id fs =
      elim (Option-cases (select_row (unpaid_key tenant_id window_id) db.billing_windows)) [
        | inl missing ↦ rw (debit_by_window_missing tenant_id window_id fs db missing).1 h
        | inr (bill, e) ↦
            Settles-IsConsistent tenant_id bill.customer_id window_id bill.amount db _ _
              (debit_by_window-Settles tenant_id window_id bill fs db e) h
      ]

pub Step-IsConsistent : {db db' : Database} → Step db db' → IsConsistent db → IsConsistent db'
Step-IsConsistent {db} (credit t c a k i n fs) h =
    Posts-IsConsistent t c topup a k i n db _ _ (credit_wallet-Posts t c a k i n fs db) h
Step-IsConsistent {db} (adjust t c d n fs) h =
    Posts-IsConsistent t c adjustment d [] 0 n db _ _ (adjust_wallet-Posts t c d n fs db) h
Step-IsConsistent (pay t w fs) h = pay-IsConsistent h t w fs
Step-IsConsistent {db} (debit t c w a fs) h =
    Settles-IsConsistent t c w a db _ _ (debit_wallet_for_bill-Settles t c w a fs db) h
Step-IsConsistent (pay_manually t w fs) h = mark_window_paid-IsConsistent h t w fs
Step-IsConsistent (generate cal t now fs) h = generate-IsConsistent h cal t now fs

-- From a database whose balances are what the ledger adds up to, whatever calls are made with
-- amounts of whole cents, and whatever statements fail: no balance is negative, every balance is what the ledger adds up to,
-- and every ledger row carries the balance after it.
pub Reach-IsConsistent : {db db' : Database} → Reach db db' → IsConsistent db → IsConsistent db'
Reach-IsConsistent here h = h
Reach-IsConsistent (next r st) h = Step-IsConsistent st (Reach-IsConsistent r h)
