-- ===== src/Service/Billing/Settle.antt =====
-- What `Settle` of backend/internal/service/billing.go does to settled payments and where a write
-- fails.
use mathlib.Core.Path.{subst}
use go_react_fihos.Common.{
  sym, ◌∙◌, ℕ, ◌≤◌, ◌≡◌, refl, true, false, some, [], ◌∷◌, arith, if◌then◌else◌,
}
use go_react_fihos.Common.Int.{pos, ◌≤ℤ◌}
use go_react_fihos.Common.Text.{Text}
use go_react_fihos.Store.Db.{
  ok, err, Faults, fails, later, driver, not_found, branch, pure, or_raise, ◌>>=◌,
}
use go_react_fihos.Store.Sql.{select_row, update_where, select-update, count_where, count-pos}
use go_react_fihos.Store.Schema.{Database, Payment, succeeded, pending, wallet_topup}
use go_react_fihos.Store.Payments.{ref_key, is_succeeded, open_key, set_status}
use go_react_fihos.Service.Billing.{settle, settle_open}

-- A settled payment is returned as it is, and nothing is written.
settle_settled :
    (ref : Text) (fs : Faults) (db : Database) (p : Payment)
    → select_row (ref_key ref) db.payments ≡ some p
    → p.status ≡ succeeded
    → (settle ref fs db).0 ≡ (if fails fs then err driver else ok p) × ((settle ref fs db).2 ≡ db)
unfolding settle
settle_settled ref fs db p e s = ground arith

ref_key-set_status :
    (ref : Text) (id now : ℕ) (p : Payment)
    → ref_key ref (if open_key id p then set_status succeeded now p else p) ≡ ref_key ref p
ref_key-set_status ref id now p = ground arith

-- `Settle` once its payment is read.
settle_found :
    (ref : Text) (fs : Faults) (db : Database) (p : Payment)
    → select_row (ref_key ref) db.payments ≡ some p
    → settle ref (false ∷ fs) db ≡ branch (is_succeeded p.status) (pure p) (settle_open p) fs db
unfolding settle fails later
settle_found ref fs db p e =
    subst
      (λ o.
        (or_raise o not_found >>= λ q. branch (is_succeeded q.status) (pure q) (settle_open q)) fs
          db
        ≡ branch (is_succeeded p.status) (pure p) (settle_open p) fs db)
      (sym e) refl

-- The database with an open payment marked.
abbrev pub marked_paid : Payment → Database → Database
marked_paid p db = record db {
  payments = update_where (open_key p.id) (set_status succeeded db.now) db.payments;
}

settle_open_fault :
    (db : Database) (p : Payment) (customer_id : ℕ)
    → 1 ≤ count_where (open_key p.id) db.payments
    → p.entity_type ≡ wallet_topup
    → p.customer_id ≡ some customer_id
    → pos 1 ≤ℤ p.net_amount
    → settle_open p (false ∷ true ∷ []) db ≡ (err driver, [], marked_paid p db)
unfolding settle_open fails later
settle_open_fault db p customer_id affected topup_of owner positive = ground arith

-- If the transaction that credits a top-up fails to begin, `Settle` returns an error with the
-- payment marked and no ledger row written; and no later call for it writes anything, so the credit
-- is never made.
pub lost_credit :
    (ref : Text) (db : Database) (p : Payment) (customer_id : ℕ)
    → select_row (ref_key ref) db.payments ≡ some p
    → p.status ≡ pending
    → p.entity_type ≡ wallet_topup
    → p.customer_id ≡ some customer_id
    → pos 1 ≤ℤ p.net_amount
    → let (r, _, db') = settle ref (false ∷ false ∷ true ∷ []) db in
      (r ≡ err driver)
      × (db'.wallet_transactions ≡ db.wallet_transactions)
      × ((fs : Faults) → (settle ref fs db').2 ≡ db')
unfolding settle fails later
lost_credit ref db p customer_id e unpaid topup_of owner positive =
    let affected = count-pos (open_key p.id) (ref_key ref) db.payments p e (ground arith) in
    let fault = settle_open_fault db p customer_id affected topup_of owner positive in
    let marked =
      select-update (open_key p.id) (ref_key ref) (set_status succeeded db.now) db.payments p
        (ref_key-set_status ref p.id db.now) e in
    let result : settle ref (false ∷ false ∷ true ∷ []) db ≡ (err driver, [], marked_paid p db) =
      settle_found ref (false ∷ true ∷ []) db p e ∙ rw unpaid fault in
    rw result (
      refl,
      refl,
      λ fs.
          (settle_settled ref fs (marked_paid p db) (set_status succeeded db.now p) (ground arith)
            refl).1,
    )
