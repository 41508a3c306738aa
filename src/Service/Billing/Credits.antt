-- ===== src/Service/Billing/Credits.antt =====
-- Credits given and due against payments settled: what the statements of `Settle` in
-- backend/internal/service/billing.go, and other calls beside it, do to the count.
use go_react_fihos.Common.{
  ℕ, ◌+◌, ◌≤◌, ◌≡◌, refl, ◌==◌, ◌&&◌, Bool, false, Option, some, List, [], ◌∷◌, ◌++◌, arith,
  if◌then◌else◌,
}
use go_react_fihos.Common.Text.{Text, codes, text_eq}
use go_react_fihos.Store.Amount.{Amount}
use go_react_fihos.Store.Db.{Faults}
use go_react_fihos.Store.Sql.{update_where, count_where}
use go_react_fihos.Store.Schema.{Database, Payment, succeeded, WalletTransaction, EntityType}
use go_react_fihos.Store.Payments.{is_succeeded, open_key, set_status, create_payment}
use go_react_fihos.Store.Wallet.{adjust_wallet, debit_wallet_for_bill_by_window}
use go_react_fihos.Service.Billing.Webhooks.{Worker, begun, found, marked, returned, advance}

abbrev pub same_ref : Option Text → Option ℕ → ℕ → Bool
same_ref (some t) (some i) id = text_eq t (codes "payment") && i == id
same_ref _ _ id = false

-- Ledger rows that credit the payment `id`.
abbrev pub is_credit : ℕ → WalletTransaction → Bool
is_credit id t = same_ref t.ref_type t.ref_id id

abbrev pub credited : ℕ → Database → ℕ
credited id db = count_where (is_credit id) db.wallet_transactions

abbrev pub is_settled : ℕ → Payment → Bool
is_settled id p = p.id == id && is_succeeded p.status

-- Rows of the payment `id` whose status is 'succeeded'.
abbrev pub settled_rows : ℕ → Database → ℕ
settled_rows id db = count_where (is_settled id) db.payments

-- Workers that wrote the status and have the credit before them.
abbrev pub about_to_credit : ℕ → Worker → ℕ
about_to_credit id (marked p) = if p.id == id then 1 else 0
about_to_credit id _ = 0

abbrev pub crediting : ℕ → List Worker → ℕ
crediting id [] = 0
crediting id (w ∷ ws) = about_to_credit id w + crediting id ws

pub crediting-append :
    (id : ℕ) (xs ys : List Worker) → crediting id (xs ++ ys) ≡ crediting id xs + crediting id ys
crediting-append id [] ys = omega arith
crediting-append id (x ∷ xs) ys = omega (arith, crediting-append id xs ys)

-- Writing the status settles at least as many rows as it affects.
settled-mark :
    (k id now : ℕ) (ps : List Payment)
    → count_where (is_settled id) ps + (if k == id then count_where (open_key k) ps else 0)
      ≤ count_where (is_settled id) (update_where (open_key k) (set_status succeeded now) ps)
settled-mark k id now [] = ground arith
settled-mark k id now (p ∷ ps) = ground (arith, settled-mark k id now ps)

-- One step of a worker keeps the balance of credits, given and due, below the rows settled.
pub advance-bounded :
    (id : ℕ) (w : Worker) (fs : Faults) (db : Database) (others : ℕ)
    → credited id db + (about_to_credit id w + others) ≤ settled_rows id db
    → let (w', _, db') = advance w fs db in
      credited id db' + (about_to_credit id w' + others) ≤ settled_rows id db'
unfolding advance
advance-bounded id (begun ref) fs db others h = ground arith
advance-bounded id (found p) fs db others h =
    ground (arith, settled-mark p.id id db.now db.payments)
advance-bounded id (marked p) fs db others h = ground arith
advance-bounded id returned fs db others h = h

-- A payment that is created is not settled, and its id is new.
abbrev pub rows : ℕ → Database → ℕ
rows id db = count_where (λ p. p.id == id) db.payments

rows-update :
    (id k now : ℕ) (ps : List Payment)
    → count_where (λ p. p.id == id) (update_where (open_key k) (set_status succeeded now) ps)
      ≡ count_where (λ p. p.id == id) ps
rows-update id k now [] = refl
rows-update id k now (p ∷ ps) = ground (arith, rows-update id k now ps)

pub settled-le-rows :
    (id : ℕ) (ps : List Payment) → count_where (is_settled id) ps ≤ count_where (λ p. p.id == id) ps
settled-le-rows id [] = omega arith
settled-le-rows id (p ∷ ps) = ground (arith, settled-le-rows id ps)

-- Ids are unique, and those from `next_id` on are not given yet.
abbrev pub HasFreshIds : Database → Type 0
HasFreshIds db = ((id : ℕ) → rows id db ≤ 1) × ((id : ℕ) → db.next_id ≤ id → rows id db ≡ 0)

-- What a step may do to the payments and to the ledger of credits.
abbrev pub Grows : Database → Database → Type 0
Grows db db' =
    ((id : ℕ) → credited id db' ≡ credited id db)
    × ((id : ℕ) → settled_rows id db ≤ settled_rows id db')

pub advance-rows :
    (id : ℕ) (w : Worker) (fs : Faults) (db : Database)
    → (rows id (advance w fs db).2 ≡ rows id db) × (db.next_id ≤ (advance w fs db).2.next_id)
unfolding advance
advance-rows id (begun ref) fs db = ground arith
advance-rows id (found p) fs db = ground (arith, rows-update id p.id db.now db.payments)
advance-rows id (marked p) fs db = ground arith
advance-rows id returned fs db = ground arith

module _ (db : Database) where
  pub create_payment-Grows :
      (p : Payment) (t : Option EntityType) (fs : Faults) → Grows db (create_payment p t fs db).2
  unfolding create_payment
  create_payment-Grows p t fs = (λ id. ground arith, λ id. ground arith)

  pub create_payment-HasFreshIds :
      (p : Payment) (t : Option EntityType) (fs : Faults)
      → HasFreshIds db
      → HasFreshIds (create_payment p t fs db).2
  unfolding create_payment
  create_payment-HasFreshIds p t fs (unique, fresh) =
      (λ id. ground (arith, unique id, fresh id), λ id h. ground (arith, fresh id))

  pub adjust_wallet-Grows :
      (tenant_id customer_id : ℕ) (delta : Amount) (note : Text) (fs : Faults)
      → Grows db (adjust_wallet tenant_id customer_id delta note fs db).2
  unfolding adjust_wallet
  adjust_wallet-Grows t c d n fs = (λ id. ground arith, λ id. ground arith)

  pub adjust_wallet-rows :
      (tenant_id customer_id : ℕ) (delta : Amount) (note : Text) (fs : Faults) (id : ℕ)
      → let db' = (adjust_wallet tenant_id customer_id delta note fs db).2 in
        (rows id db' ≡ rows id db) × (db.next_id ≤ db'.next_id)
  unfolding adjust_wallet
  adjust_wallet-rows t c d n fs id = ground arith

  pub pay-Grows :
      (tenant_id window_id : ℕ) (fs : Faults)
      → Grows db (debit_wallet_for_bill_by_window tenant_id window_id fs db).2
  unfolding debit_wallet_for_bill_by_window
  pay-Grows t w fs = (λ id. ground arith, λ id. ground arith)

  pub pay-rows :
      (tenant_id window_id : ℕ) (fs : Faults) (id : ℕ)
      → let db' = (debit_wallet_for_bill_by_window tenant_id window_id fs db).2 in
        (rows id db' ≡ rows id db) × (db.next_id ≤ db'.next_id)
  unfolding debit_wallet_for_bill_by_window
  pay-rows t w fs id = ground arith
