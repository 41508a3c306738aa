-- ===== src/Store/Sessions/Once.antt =====
-- Sequences of calls of backend/internal/store (sessions.go, vouchers.go), and the sessions that a
-- voucher opens along them.
use go_react_fihos.Common.{ℕ, ◌≤◌, Option, List, arith}
use go_react_fihos.Common.Text.{Text}
use go_react_fihos.Store.Db.{Faults}
use go_react_fihos.Store.Access.{Batch}
use go_react_fihos.Store.Schema.{Database}
use go_react_fihos.Store.Vouchers.{revoke_voucher, create_batch}
use go_react_fihos.Store.Sessions.{
  redeem_voucher, upsert_router_session, snapshot_session_usage, close_session,
}
use go_react_fihos.Store.Sessions.Spent.{
  opened, redeemed_rows, IsSpent, redeemed-le-rows, revoke_voucher-IsSpent, redeem_voucher-IsSpent,
  create_batch-IsSpent, SameUse-IsSpent, snapshot-SameUse, close-SameUse, upsert-IsSpent,
}

-- The calls that write vouchers or sessions, under any faults.
pub data Step (db : Database) : Database → Type 0 where
  create :
      (tenant_id : ℕ) (b : Batch) (codes : List Text) (fs : Faults)
      → Step db (create_batch tenant_id b codes fs db).2
  redeem_one :
      (tenant_id voucher_id hotspot_id : ℕ) (mac : Option Text) (session_user password : Text)
      (fs : Faults)
      → Step db (redeem_voucher tenant_id voucher_id hotspot_id mac session_user password fs db).2
  revoke_one : (tenant_id id : ℕ) (fs : Faults) → Step db (revoke_voucher tenant_id id fs db).2
  discover :
      (t h r p : ℕ) (u : Text) (mac ip : Option Text) (fs : Faults)
      → Step db (upsert_router_session t h r p u mac ip fs db).2
  snapshot :
      (session_id at rx tx : ℕ) (fs : Faults)
      → Step db (snapshot_session_usage session_id at rx tx fs db).2
  close_one :
      (session_id at rx tx : ℕ) (fs : Faults) → Step db (close_session session_id at rx tx fs db).2

pub data Reach (db : Database) : Database → Type 0 where
  here : Reach db db
  next : {db' db'' : Database} → Reach db db' → Step db' db'' → Reach db db''

pub Step-IsSpent : {db db' : Database} → Step db db' → IsSpent db → IsSpent db'
Step-IsSpent {db} (create t b codes fs) h = create_batch-IsSpent t b codes fs db h
Step-IsSpent {db} (redeem_one t v hid mac u p fs) h = redeem_voucher-IsSpent t v hid mac u p fs db h
Step-IsSpent {db} (revoke_one t id fs) h = revoke_voucher-IsSpent t id fs db h
Step-IsSpent {db} (discover t hid r p u mac ip fs) h = upsert-IsSpent t hid r p u mac ip fs db h
Step-IsSpent {db} (snapshot id at rx tx fs) h =
    SameUse-IsSpent db _ (snapshot-SameUse db fs id at rx tx) h
Step-IsSpent {db} (close_one id at rx tx fs) h =
    SameUse-IsSpent db _ (close-SameUse db fs id at rx tx) h

Reach-IsSpent : {db db' : Database} → Reach db db' → IsSpent db → IsSpent db'
Reach-IsSpent here h = h
Reach-IsSpent (next r st) h = Step-IsSpent st (Reach-IsSpent r h)

-- From a database in which every session opened by a voucher has its redeemed row and ids are
-- unique, whatever is created, redeemed, revoked, discovered, logged and closed and whatever fails:
-- a voucher has opened one session at most, and one that has is redeemed.
pub opened_once :
    {db db' : Database}
    → Reach db db'
    → IsSpent db
    → (id : ℕ) → (opened id db' ≤ 1) × (opened id db' ≤ redeemed_rows id db')
opened_once {db' = db'} r h id =
    let spent = Reach-IsSpent r h in
    (
      omega (arith, spent.bounded id, spent.unique id, redeemed-le-rows id db'.vouchers),
      spent.bounded id,
    )
