-- ===== src/Store/Sessions.antt =====
-- backend/internal/store/sessions.go: redemption of a voucher, sessions and their usage.
pub mod Spent
pub mod Once
pub mod Usage
pub mod Redeem
pub mod Active
mod Tests
use go_react_fihos.Common.{
  ℕ, ◌+◌, ◌-◌, ◌==◌, ◌&&◌, Bool, true, false, Option, none, some, List, [], ◌∷◌, if◌then◌else◌, leb,
  ltb, any,
}
use go_react_fihos.Common.Text.{Text, text_eq}
use go_react_fihos.Store.Db.{
  Error, not_found, conflict, driver, Call, pure, or_raise, raise_if, query, exec, exec_returning,
  branch, transaction, ◌>>=◌, ◌>>◌,
}
use go_react_fihos.Store.Sql.{select_row, update_where, count_where, select_rows}
use go_react_fihos.Store.Access.{
  Voucher, VoucherStatus, redeemed, Session, SessionState, active, closed, UsageLog,
}
use go_react_fihos.Store.Network.{Hotspot, RateWindow}
use go_react_fihos.Store.Schema.{Database}
use go_react_fihos.Store.Vouchers.{unused_key}

abbrev pub hotspot_key : ℕ → ℕ → Hotspot → Bool
hotspot_key tenant_id id h = h.tenant_id == tenant_id && h.id == id

abbrev pub redeem : ℕ → Voucher → Voucher
redeem now v = record v { status = redeemed; redeemed_at = some now }

-- effective_from <= now() AND effective_until > now()
abbrev pub in_force : ℕ → ℕ → ℕ → RateWindow → Bool
in_force tenant_id hotspot_id now rw =
    rw.tenant_id == tenant_id
    && rw.hotspot_id == hotspot_id
    && leb rw.effective_from now
    && ltb now rw.effective_until

-- ORDER BY effective_from DESC LIMIT 1: the first of the latest.
abbrev pub later_of : RateWindow → Option RateWindow → RateWindow
later_of rw none = rw
later_of rw (some other) = if ltb rw.effective_from other.effective_from then other else rw

abbrev pub latest : List RateWindow → Option RateWindow
latest [] = none
latest (rw ∷ rest) = some (later_of rw (latest rest))

abbrev pub window_id : Option RateWindow → Option ℕ
window_id none = none
window_id (some rw) = some rw.id

abbrev pub redeemed_session :
    ℕ → Hotspot → ℕ → Option Text → Text → Text → Option ℕ → ℕ → ℕ → Session
redeemed_session tenant_id h voucher_id mac session_user password rw id now = record {
  id = id;
  tenant_id = tenant_id;
  hotspot_id = h.id;
  router_id = h.router_id;
  voucher_id = some voucher_id;
  profile_id = some h.profile_id;
  state = active;
  username = session_user;
  password = some password;
  mac_address = mac;
  ip_address = none;
  started_at = now;
  last_seen_at = some now;
  end_time = none;
  bytes_rx = 0;
  bytes_tx = 0;
  rate_window_id = rw;
}

abbrev pub insert_session : (ℕ → ℕ → Session) → Call Database ℕ
insert_session new = exec_returning (λ db. (
  db.next_id,
  record db { sessions = new db.next_id db.now ∷ db.sessions; next_id = db.next_id + 1 },
))

-- The row that has just been written is read again; that it is there is not a case of the code.
abbrev pub read_session : ℕ → Call Database Session
read_session id = do s ← query (λ db. select_row (λ s. s.id == id) db.sessions); or_raise s driver

-- The voucher is named by its id.
unfoldable pub redeem_voucher : ℕ → ℕ → ℕ → Option Text → Text → Text → Call Database Session
redeem_voucher tenant_id voucher_id hotspot_id mac session_user password = transaction (do
  found ← query (λ db. select_row (hotspot_key tenant_id hotspot_id) db.hotspots)
  h ← or_raise found not_found
  affected ← exec_returning (λ db. (
    count_where (unused_key tenant_id voucher_id) db.vouchers,
    record db {
      vouchers = update_where (unused_key tenant_id voucher_id) (redeem db.now) db.vouchers;
    },
  ))
  raise_if (affected == 0) conflict
  rw ← query (λ db.
      window_id (latest (select_rows (in_force tenant_id hotspot_id db.now) db.rate_windows)))
  id ← insert_session (redeemed_session tenant_id h voucher_id mac session_user password rw)
  read_session id)

abbrev pub is_active : Session → Bool
is_active s = elim s.state [ SessionState.active ↦ true | _ ↦ false ]

unfoldable pub session_by_id : ℕ → ℕ → Call Database Session
session_by_id tenant_id id = do
  s ← query (λ db. select_row (λ s. s.tenant_id == tenant_id && s.id == id) db.sessions)
  or_raise s not_found

abbrev pub username_key : ℕ → ℕ → Text → Session → Bool
username_key tenant_id hotspot_id username s =
    s.tenant_id == tenant_id
    && s.hotspot_id == hotspot_id
    && text_eq s.username username
    && is_active s

pub active_session_by_username : ℕ → ℕ → Text → Call Database Session
active_session_by_username tenant_id hotspot_id username = do
  s ← query (λ db. select_row (username_key tenant_id hotspot_id username) db.sessions)
  or_raise s not_found

abbrev pub used_by : ℕ → Option ℕ → Bool
used_by voucher_id none = false
used_by voucher_id (some v) = v == voucher_id

pub active_session_by_voucher : ℕ → ℕ → Call Database Session
active_session_by_voucher tenant_id voucher_id = do
  s ← query (λ db.
      select_row (λ s. s.tenant_id == tenant_id && used_by voucher_id s.voucher_id && is_active s)
        db.sessions)
  or_raise s not_found

abbrev pub router_session : ℕ → ℕ → ℕ → ℕ → Text → Option Text → Option Text → ℕ → ℕ → Session
router_session tenant_id hotspot_id router_id profile_id username mac ip id now = record {
  id = id;
  tenant_id = tenant_id;
  hotspot_id = hotspot_id;
  router_id = router_id;
  voucher_id = none;
  profile_id = some profile_id;
  state = active;
  username = username;
  password = none;
  mac_address = mac;
  ip_address = ip;
  started_at = now;
  last_seen_at = some now;
  end_time = none;
  bytes_rx = 0;
  bytes_tx = 0;
  rate_window_id = none;
}

abbrev pub see : ℕ → Session → Session
see now s = record s { last_seen_at = some now }

-- The two ways of UpsertRouterSession, by the session that is found.
unfoldable pub touch_or_insert : (ℕ → ℕ → Session) → Option Session → Call Database Session
touch_or_insert new (some s) = do
  exec (λ db. record db { sessions = update_where (λ r. r.id == s.id) (see db.now) db.sessions })
  read_session s.id
touch_or_insert new none = do id ← insert_session new; read_session id

unfoldable pub upsert_router_session :
    ℕ → ℕ → ℕ → ℕ → Text → Option Text → Option Text → Call Database Session
unfolding touch_or_insert
upsert_router_session tenant_id hotspot_id router_id profile_id username mac ip = do
  found ← query (λ db. select_row (username_key tenant_id hotspot_id username) db.sessions)
  touch_or_insert (router_session tenant_id hotspot_id router_id profile_id username mac ip) found

-- WHERE id=$1 AND state='active'
abbrev pub active_key : ℕ → Session → Bool
active_key id s = s.id == id && is_active s

-- delta := new - old; if delta < 0 { delta = 0 }
abbrev pub delta : ℕ → ℕ → ℕ
delta bytes old = if ltb bytes old then 0 else bytes - old

abbrev pub log_key : ℕ → ℕ → UsageLog → Bool
log_key session_id started_at u = u.session_id == session_id && u.started_at == started_at

abbrev pub new_log : Session → ℕ → ℕ → ℕ → ℕ → ℕ → ℕ → UsageLog
new_log s started_at ended_at duration rx tx id = record {
  id = id;
  tenant_id = s.tenant_id;
  session_id = s.id;
  voucher_id = s.voucher_id;
  started_at = started_at;
  ended_at = ended_at;
  duration_sec = duration;
  bytes_rx = rx;
  bytes_tx = tx;
  rate_window_id = s.rate_window_id;
}

-- INSERT ... ON CONFLICT (session_id, started_at) DO UPDATE
unfoldable pub upsert_log : UsageLog → (UsageLog → UsageLog) → Database → Database
upsert_log new f db =
    let key = log_key new.session_id new.started_at in
    record db {
      usage_logs =
          if any key db.usage_logs then update_where key f db.usage_logs else new ∷ db.usage_logs;
      next_id = db.next_id + 1;
    }

abbrev pub add_snapshot : ℕ → ℕ → ℕ → UsageLog → UsageLog
add_snapshot now rx tx u = record u {
  bytes_rx = u.bytes_rx + rx;
  bytes_tx = u.bytes_tx + tx;
  ended_at = now;
}

abbrev pub set_counters : ℕ → ℕ → ℕ → Session → Session
set_counters rx tx at s = record s { bytes_rx = rx; bytes_tx = tx; last_seen_at = some at }

unfoldable pub snapshot_session_usage : ℕ → ℕ → ℕ → ℕ → Call Database Session
unfolding upsert_log
snapshot_session_usage session_id at bytes_rx bytes_tx = transaction (do
  found ← query (λ db. select_row (active_key session_id) db.sessions)
  sess ← or_raise found not_found
  exec (λ db.
      upsert_log
        (new_log sess at at 0 (delta bytes_rx sess.bytes_rx) (delta bytes_tx sess.bytes_tx)
          db.next_id)
        (add_snapshot db.now (delta bytes_rx sess.bytes_rx) (delta bytes_tx sess.bytes_tx)) db)
  exec (λ db. record db {
    sessions =
        update_where (λ s. s.id == session_id) (set_counters bytes_rx bytes_tx at) db.sessions;
  })
  pure (set_counters bytes_rx bytes_tx at sess))

abbrev pub add_final : ℕ → ℕ → ℕ → ℕ → UsageLog → UsageLog
add_final ended_at duration rx tx u = record u {
  ended_at = ended_at;
  duration_sec = duration;
  bytes_rx = u.bytes_rx + rx;
  bytes_tx = u.bytes_tx + tx;
}

-- if bytes < old { bytes = old }
abbrev pub at_least : ℕ → ℕ → ℕ
at_least bytes old = if ltb bytes old then old else bytes

abbrev pub close : ℕ → ℕ → ℕ → Session → Session
close ended_at rx tx s = record s {
  state = closed;
  end_time = some ended_at;
  bytes_rx = rx;
  bytes_tx = tx;
}

-- A negative duration is refused by CHECK (duration_sec >= 0); times are past the first minute.
unfoldable pub close_session : ℕ → ℕ → ℕ → ℕ → Call Database Session
unfolding upsert_log
close_session session_id ended_at bytes_rx bytes_tx = transaction (do
  found ← query (λ db. select_row (active_key session_id) db.sessions)
  sess ← or_raise found not_found
  raise_if (ltb ended_at sess.started_at) driver
  exec (λ db.
      upsert_log
        (new_log sess (ended_at - 60) ended_at (ended_at - sess.started_at)
          (delta bytes_rx sess.bytes_rx) (delta bytes_tx sess.bytes_tx) db.next_id)
        (add_final ended_at (ended_at - sess.started_at) (delta bytes_rx sess.bytes_rx)
          (delta bytes_tx sess.bytes_tx))
        db)
  exec (λ db. record db {
    sessions =
        update_where (λ s. s.id == session_id)
          (close ended_at (at_least bytes_rx sess.bytes_rx) (at_least bytes_tx sess.bytes_tx))
          db.sessions;
  })
  pure (close ended_at (at_least bytes_rx sess.bytes_rx) (at_least bytes_tx sess.bytes_tx) sess))
