-- ===== src/Service/Billing/Interleaving.antt =====
-- Webhooks that interleave in `Settle` (backend/internal/service/billing.go), beside other calls.
use go_react_fihos.Common.{ℕ, ◌+◌, ◌≤◌, ◌≡◌, Option, List, ◌∷◌, ◌++◌, ◌∙◌, arith}
use go_react_fihos.Common.Text.{Text}
use go_react_fihos.Store.Amount.{Amount}
use go_react_fihos.Store.Db.{Faults}
use go_react_fihos.Store.Schema.{Database, Payment, EntityType}
use go_react_fihos.Store.Payments.{create_payment}
use go_react_fihos.Store.Wallet.{adjust_wallet, debit_wallet_for_bill_by_window}
use go_react_fihos.Service.Billing.Webhooks.{Worker, begun, advance}
use go_react_fihos.Service.Billing.Credits.{
  credited, settled_rows, crediting, crediting-append, advance-bounded, settled-le-rows, rows,
  HasFreshIds, Grows, advance-rows, create_payment-Grows, create_payment-HasFreshIds,
  adjust_wallet-Grows, adjust_wallet-rows, pay-Grows, pay-rows,
}

pub record System : Type 0 where
  pub db : Database
  pub workers : List Worker

-- A webhook arrives, one worker makes its next statement, or another call runs.
pub data Step (s : System) : System → Type 0 where
  arrive : (ref : Text) → Step s (record s { workers = begun ref ∷ s.workers })
  move :
      (before after : List Worker) (w : Worker) (fs : Faults)
      → s.workers ≡ before ++ w ∷ after
      → Step s
          (record { db = (advance w fs s.db).2; workers = before ++ (advance w fs s.db).0 ∷ after })
  create :
      (p : Payment) (t : Option EntityType) (fs : Faults)
      → Step s (record s { db = (create_payment p t fs s.db).2 })
  adjust :
      (tenant_id customer_id : ℕ) (delta : Amount) (note : Text) (fs : Faults)
      → Step s (record s { db = (adjust_wallet tenant_id customer_id delta note fs s.db).2 })
  pay :
      (tenant_id window_id : ℕ) (fs : Faults)
      → Step s (record s { db = (debit_wallet_for_bill_by_window tenant_id window_id fs s.db).2 })

pub data Reach (s : System) : System → Type 0 where
  here : Reach s s
  next : {t u : System} → Reach s t → Step t u → Reach s u

-- Credits given and due never exceed the rows settled, and ids are unique.
pub record IsSafe (s : System) : Type 0 where
  pub bounded : (id : ℕ) → credited id s.db + crediting id s.workers ≤ settled_rows id s.db
  pub ids : HasFreshIds s.db

Grows-bounded :
    (s : System) (db' : Database)
    → Grows s.db db'
    → ((id : ℕ) → credited id s.db + crediting id s.workers ≤ settled_rows id s.db)
    → (id : ℕ) → credited id db' + crediting id s.workers ≤ settled_rows id db'
Grows-bounded s db' (same, more) h id = omega (arith, h id, same id, more id)

same_rows-HasFreshIds :
    (db db' : Database)
    → ((id : ℕ) → (rows id db' ≡ rows id db) × (db.next_id ≤ db'.next_id))
    → HasFreshIds db
    → HasFreshIds db'
same_rows-HasFreshIds db db' same (unique, fresh) = (
  λ id. omega (arith, (same id).0, unique id),
  λ id h. (same id).0 ∙ fresh id (omega (arith, (same id).1)),
)

move-bounded :
    (s : System) (before after : List Worker) (w : Worker) (fs : Faults)
    → s.workers ≡ before ++ w ∷ after
    → ((id : ℕ) → credited id s.db + crediting id s.workers ≤ settled_rows id s.db)
    → (id : ℕ)
    → credited id (advance w fs s.db).2 + crediting id (before ++ (advance w fs s.db).0 ∷ after)
      ≤ settled_rows id (advance w fs s.db).2
move-bounded s before after w fs e h id =
    let others = crediting id before + crediting id after in
    let before_step = rw (e, crediting-append id before (w ∷ after)) at (h id) in
    let step = advance-bounded id w fs s.db others (omega (arith, before_step)) in
    omega (arith, step, crediting-append id before ((advance w fs s.db).0 ∷ after))

Step-IsSafe : {s t : System} → Step s t → IsSafe s → IsSafe t
Step-IsSafe (arrive ref) h = record { bounded = λ id. omega (arith, h.bounded id); ids = h.ids }
Step-IsSafe {s} (move before after w fs e) h = record {
  bounded = move-bounded s before after w fs e h.bounded;
  ids = same_rows-HasFreshIds s.db (advance w fs s.db).2 (λ id. advance-rows id w fs s.db) h.ids;
}
Step-IsSafe {s} (create p t fs) h = record {
  bounded =
      Grows-bounded s (create_payment p t fs s.db).2 (create_payment-Grows s.db p t fs) h.bounded;
  ids = create_payment-HasFreshIds s.db p t fs h.ids;
}
Step-IsSafe {s} (adjust t c d n fs) h = record {
  bounded =
      Grows-bounded s (adjust_wallet t c d n fs s.db).2 (adjust_wallet-Grows s.db t c d n fs)
        h.bounded;
  ids =
      same_rows-HasFreshIds s.db (adjust_wallet t c d n fs s.db).2
        (adjust_wallet-rows s.db t c d n fs) h.ids;
}
Step-IsSafe {s} (pay t w fs) h = record {
  bounded =
      Grows-bounded s (debit_wallet_for_bill_by_window t w fs s.db).2 (pay-Grows s.db t w fs)
        h.bounded;
  ids =
      same_rows-HasFreshIds s.db (debit_wallet_for_bill_by_window t w fs s.db).2
        (pay-rows s.db t w fs) h.ids;
}

Reach-IsSafe : {s t : System} → Reach s t → IsSafe s → IsSafe t
Reach-IsSafe here h = h
Reach-IsSafe (next r st) h = Step-IsSafe st (Reach-IsSafe r h)

-- From a state in which credits given and due are covered by settled payments with unique ids,
-- whatever webhooks arrive, interleave and fail, beside other calls of the store: no payment is
-- credited twice, and one that is credited has the status 'succeeded'.
pub credited_once :
    {s t : System}
    → Reach s t
    → IsSafe s
    → (id : ℕ) → (credited id t.db ≤ 1) × (credited id t.db ≤ settled_rows id t.db)
credited_once {t} r h id =
    let safe = Reach-IsSafe r h in
    (
      omega (arith, safe.bounded id, safe.ids.0 id, settled-le-rows id t.db.payments),
      omega (arith, safe.bounded id),
    )
