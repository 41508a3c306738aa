-- ===== src/Store/Sessions/Usage.antt =====
-- Usage logs against the counters of sessions (backend/internal/store/sessions.go).
use go_react_fihos.Common.{
  ℕ, ◌+◌, ◌-◌, ◌==◌, ◌≤◌, ◌≡◌, refl, true, none, some, List, [], ◌∷◌, arith, if◌then◌else◌,
  Option-cases, inl, inr, any, Bool-cases,
}
use go_react_fihos.Store.Db.{Result, Faults, ok, err}
use go_react_fihos.Store.Sql.{
  select_row, select_row-satisfies, update_where, count_where, count-update, sum_where,
  sum-update_le, sum-update_other, sum-update_apart, select-sum,
}
use go_react_fihos.Store.Access.{Session, UsageLog}
use go_react_fihos.Store.Schema.{Database}
use go_react_fihos.Store.Sessions.{
  active_key, log_key, new_log, delta, upsert_log, set_counters, add_snapshot, add_final, close,
  at_least, snapshot_session_usage, close_session,
}

-- Bytes that the session `id` shows, and that its log rows add up to.
abbrev pub shown : (Session → ℕ) → ℕ → List Session → ℕ
shown seen id = sum_where (λ s. s.id == id) seen

abbrev pub logged : (UsageLog → ℕ) → ℕ → List UsageLog → ℕ
logged bytes id = sum_where (λ u. u.session_id == id) bytes

-- A row of the key exists, so the update adds to one row at least.
added :
    (bytes : UsageLog → ℕ) (k d id at : ℕ) (f : UsageLog → UsageLog) (us : List UsageLog)
    → ((u : UsageLog) → (f u).session_id ≡ u.session_id)
    → ((u : UsageLog) → bytes (f u) ≡ bytes u + d)
    → any (log_key id at) us ≡ true
    → logged bytes k us + (if k == id then d else 0)
      ≤ logged bytes k (update_where (log_key id at) f us)
added bytes k d id at f [] same more h = ground arith
added bytes k d id at f (u ∷ us) same more h = elim (Bool-cases (log_key id at u)) [
  | inl hit ↦ ground (
    arith,
    hit,
    same u,
    more u,
    sum-update_other (λ u. u.session_id == k) (log_key id at) bytes f us,
  )
  | inr miss ↦ ground (arith, miss, added bytes k d id at f us same more)
]

-- The row is added to the log of its session, as a new row or to one that is there.
upsert_log-logged :
    (bytes : UsageLog → ℕ) (k : ℕ) (new : UsageLog) (f : UsageLog → UsageLog) (db : Database)
    → ((u : UsageLog) → (f u).session_id ≡ u.session_id)
    → ((u : UsageLog) → bytes (f u) ≡ bytes u + bytes new)
    → logged bytes k db.usage_logs + (if k == new.session_id then bytes new else 0)
      ≤ logged bytes k (upsert_log new f db).usage_logs
unfolding upsert_log
upsert_log-logged bytes k new f db same more =
    elim (Bool-cases (any (log_key new.session_id new.started_at) db.usage_logs)) [
      | inl there ↦
          rw there (
            added bytes k (bytes new) new.session_id new.started_at f db.usage_logs same more there)
      | inr absent ↦ rw absent (ground arith)
    ]

self : (n : ℕ) → (n == n) ≡ true
self n = ground arith

-- The counters of a session that is read and written again: what it shows grows by the delta at most.
set-shown :
    (seen : Session → ℕ) (k id v : ℕ) (f : Session → Session) (s : Session) (ss : List Session)
    → ((r : Session) → (f r).id ≡ r.id)
    → ((r : Session) → seen (f r) ≡ v)
    → v ≤ seen s + delta v (seen s)
    → select_row (active_key id) ss ≡ some s
    → count_where (λ r. r.id == id) ss ≤ 1
    → shown seen k (update_where (λ r. r.id == id) f ss)
      ≤ shown seen k ss + (if k == id then delta v (seen s) else 0)
set-shown seen k id v f s ss same sets small e one = elim (Bool-cases (k == id)) [
  | inr other ↦ rw other (
      omega (
        arith,
        sum-update_apart (λ r. r.id == k) (λ r. r.id == id) seen f ss
            (λ r h. ground (arith, other, h, same r)),
      ))
  | inl this ↦
      let eq : k ≡ id = ground (arith, this) in
      rw eq (
        rw (self id) (
          omega (
            arith,
            small,
            sum-update_le (λ r. r.id == id) seen f v ss (λ r. ground (arith, same r)) sets one,
            select-sum (λ r. r.id == id) (active_key id) seen ss s e (λ r h. ground arith),
          )))
]

-- Every session shows at most what its log adds up to, and ids are unique.
pub record IsLogged (db : Database) : Type 0 where
  pub rx :
      (id : ℕ) → shown (λ s. s.bytes_rx) id db.sessions ≤ logged (λ u. u.bytes_rx) id db.usage_logs
  pub tx :
      (id : ℕ) → shown (λ s. s.bytes_tx) id db.sessions ≤ logged (λ u. u.bytes_tx) id db.usage_logs
  pub unique : (id : ℕ) → count_where (λ s. s.id == id) db.sessions ≤ 1

-- A session that is read, a log row added for it, and its counters written.
abbrev wrote : UsageLog → (UsageLog → UsageLog) → ℕ → (Session → Session) → Database → Database
wrote new g id f db =
    let db' = upsert_log new g db in
    record db' { sessions = update_where (λ s. s.id == id) f db'.sessions }

wrote-IsLogged :
    (new : UsageLog) (g : UsageLog → UsageLog) (id rx tx : ℕ) (f : Session → Session) (s : Session)
    (db : Database)
    → select_row (active_key id) db.sessions ≡ some s
    → new.session_id ≡ id
    → new.bytes_rx ≡ delta rx s.bytes_rx
    → new.bytes_tx ≡ delta tx s.bytes_tx
    → ((u : UsageLog)
        → ((g u).session_id ≡ u.session_id)
          × ((g u).bytes_rx ≡ u.bytes_rx + new.bytes_rx)
          × ((g u).bytes_tx ≡ u.bytes_tx + new.bytes_tx))
    → ((r : Session) → ((f r).id ≡ r.id) × ((f r).bytes_rx ≡ rx) × ((f r).bytes_tx ≡ tx))
    → IsLogged db
    → IsLogged (wrote new g id f db)
unfolding upsert_log
wrote-IsLogged new g id rx tx f s db e n nrx ntx gs fs h = record {
  rx = λ k. ground (
    arith,
    n,
    nrx,
    h.rx k,
    upsert_log-logged (λ u. u.bytes_rx) k new g db (λ u. (gs u).0) (λ u. (gs u).1),
    set-shown (λ s. s.bytes_rx) k id rx f s db.sessions (λ r. (fs r).0) (λ r. (fs r).1)
        (ground arith) e (h.unique id),
  );
  tx = λ k. ground (
    arith,
    n,
    ntx,
    h.tx k,
    upsert_log-logged (λ u. u.bytes_tx) k new g db (λ u. (gs u).0) (λ u. (gs u).2),
    set-shown (λ s. s.bytes_tx) k id tx f s db.sessions (λ r. (fs r).0) (λ r. (fs r).2)
        (ground arith) e (h.unique id),
  );
  unique = λ k.
      rw
        (count-update (λ s. s.id == k) (λ s. s.id == id) f db.sessions
          (λ r. ground (arith, (fs r).0)))
        (h.unique k);
}

-- How a call that saves counters ends: it fails and changes nothing, or everything is written.
abbrev pub Saves : Database → Database → Session → Result Session → Database → Type 0
Saves db done s (err e) db' = db' ≡ db
Saves db done s (ok s') db' = (s' ≡ s) × (db' ≡ done)

Saves-IsLogged :
    (db done db' : Database) (s : Session) (r : Result Session)
    → Saves db done s r db'
    → IsLogged db
    → IsLogged done
    → IsLogged db'
Saves-IsLogged db done db' s (err e) same h k = rw same h
Saves-IsLogged db done db' s (ok s') (_, same) h k = rw same k

-- The database after a snapshot, or a close, of the session `s`.
abbrev pub snapshotted : ℕ → ℕ → ℕ → ℕ → Session → Database → Database
snapshotted id at rx tx s db =
    wrote (new_log s at at 0 (delta rx s.bytes_rx) (delta tx s.bytes_tx) db.next_id)
      (add_snapshot db.now (delta rx s.bytes_rx) (delta tx s.bytes_tx)) id (set_counters rx tx at)
      db

abbrev pub final : ℕ → ℕ → ℕ → Session → Session → Session
final ended_at rx tx s = close ended_at (at_least rx s.bytes_rx) (at_least tx s.bytes_tx)

abbrev pub closed_off : ℕ → ℕ → ℕ → ℕ → Session → Database → Database
closed_off id ended_at rx tx s db =
    wrote
      (new_log s (ended_at - 60) ended_at (ended_at - s.started_at) (delta rx s.bytes_rx)
        (delta tx s.bytes_tx) db.next_id)
      (add_final ended_at (ended_at - s.started_at) (delta rx s.bytes_rx) (delta tx s.bytes_tx)) id
      (final ended_at rx tx s) db

module _ (id at rx tx : ℕ) (fs : Faults) (db : Database) where
  -- A snapshot of a session that is active fails and changes nothing, or writes the log row and
  -- the counters and returns the session as it was written.
  snapshot-Saves :
      (s : Session)
      → select_row (active_key id) db.sessions ≡ some s
      → let (r, _, db') = snapshot_session_usage id at rx tx fs db in
        Saves db (snapshotted id at rx tx s db) (set_counters rx tx at s) r db'
  unfolding snapshot_session_usage
  snapshot-Saves s e = ground (arith, e)

  -- Closing a session that is active fails and changes nothing, or writes the log row and the
  -- final counters and returns the session as it was written.
  pub close-Saves :
      (s : Session)
      → select_row (active_key id) db.sessions ≡ some s
      → let (r, _, db') = close_session id at rx tx fs db in
        Saves db (closed_off id at rx tx s db) (final at rx tx s s) r db'
  unfolding close_session
  close-Saves s e = ground (arith, e)

  snapshot_missing :
      select_row (active_key id) db.sessions ≡ none
      → (snapshot_session_usage id at rx tx fs db).2 ≡ db
  unfolding snapshot_session_usage
  snapshot_missing e = ground (arith, e)

  close_missing :
      select_row (active_key id) db.sessions ≡ none → (close_session id at rx tx fs db).2 ≡ db
  unfolding close_session
  close_missing e = ground (arith, e)

  -- If every session shows at most what its log adds up to, that holds after a snapshot of any
  -- counters, lower ones too, whichever statement fails.
  pub snapshot-IsLogged : IsLogged db → IsLogged (snapshot_session_usage id at rx tx fs db).2
  snapshot-IsLogged h = elim (Option-cases (select_row (active_key id) db.sessions)) [
    | inl missing ↦ rw (snapshot_missing missing) h
    | inr (s, e) ↦ Saves-IsLogged db (snapshotted id at rx tx s db) _ _ _ (snapshot-Saves s e) h (
        wrote-IsLogged _ _ id rx tx (set_counters rx tx at) s db e (active-id s e) refl refl
          (λ u. (refl, refl, refl)) (λ r. (refl, refl, refl)) h)
  ]
    where
      active-id : (s : Session) → select_row (active_key id) db.sessions ≡ some s → s.id ≡ id
      active-id s e = ground (arith, select_row-satisfies (active_key id) db.sessions s e)

  -- The same holds after a session is closed.
  pub close-IsLogged : IsLogged db → IsLogged (close_session id at rx tx fs db).2
  close-IsLogged h = elim (Option-cases (select_row (active_key id) db.sessions)) [
    | inl missing ↦ rw (close_missing missing) h
    | inr (s, e) ↦ Saves-IsLogged db (closed_off id at rx tx s db) _ _ _ (close-Saves s e) h (
        wrote-IsLogged _ _ id (at_least rx s.bytes_rx) (at_least tx s.bytes_tx) (final at rx tx s) s
          db e (active-id s e) (ground arith) (ground arith) (λ u. (refl, refl, refl))
          (λ r. (refl, refl, refl)) h)
  ]
    where
      active-id : (s : Session) → select_row (active_key id) db.sessions ≡ some s → s.id ≡ id
      active-id s e = ground (arith, select_row-satisfies (active_key id) db.sessions s e)
