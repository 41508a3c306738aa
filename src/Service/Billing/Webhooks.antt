-- ===== src/Service/Billing/Webhooks.antt =====
-- Webhooks that call `Settle` (backend/internal/service/billing.go) at the same time: each is a worker that
-- is stopped between its statements, and other calls of the store go on meanwhile.
use go_react_fihos.Common.{◌≡◌, arith, if◌then◌else◌}
use go_react_fihos.Common.Text.{Text}
use go_react_fihos.Store.Db.{Result, ok, err, Faults}
use go_react_fihos.Store.Schema.{Database, Payment, succeeded}
use go_react_fihos.Store.Payments.{is_succeeded, payment_by_ref_global, update_payment_status}
use go_react_fihos.Store.Wallet.{credit_wallet}
use go_react_fihos.Service.Billing.{settle, credits, credit_if}

-- Where a call of `Settle` stands: not begun, the open payment read, its status written, returned.
pub data Worker : Type 0 where
  begun : Text → Worker
  found : Payment → Worker
  marked : Payment → Worker
  returned : Worker

abbrev pub after_read : Result Payment → Worker
after_read (ok p) = if is_succeeded p.status then returned else found p
after_read (err e) = returned

abbrev pub after_mark : Payment → Result Unit → Worker
after_mark p (ok _) = marked p
after_mark p (err e) = returned

-- The next statement, or transaction, of a worker.
unfoldable pub advance : Worker → Faults → Database → Worker × Faults × Database
unfolding payment_by_ref_global update_payment_status credit_wallet
advance (begun ref) fs db =
    let (r, fs', db') = payment_by_ref_global ref fs db in (after_read r, fs', db')
advance (found p) fs db =
    let (r, fs', db') = update_payment_status p.id succeeded fs db in (after_mark p r, fs', db')
advance (marked p) fs db =
    let (r, fs', db') = credit_if p (credits p.entity_type p.customer_id) fs db in
    (returned, fs', db')
advance returned fs db = (returned, fs, db)

-- A worker that is not interrupted.
abbrev pub three_steps : Worker → Faults → Database → Worker × Faults × Database
three_steps w fs db =
    let (w1, fs1, db1) = advance w fs db in
    let (w2, fs2, db2) = advance w1 fs1 db1 in advance w2 fs2 db2

-- `Settle` writes what an uninterrupted worker writes, and a worker returns after three steps.
settle-three_steps :
    (ref : Text) (fs : Faults) (db : Database)
    → (three_steps (begun ref) fs db).0 ≡ returned
      × ((settle ref fs db).2 ≡ (three_steps (begun ref) fs db).2)
unfolding settle advance
settle-three_steps ref fs db = ground arith
