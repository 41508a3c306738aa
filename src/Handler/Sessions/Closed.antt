-- ===== src/Handler/Sessions/Closed.antt =====
-- `CloseSession` of backend/internal/store/sessions.go for a session that a tenant has: the row that it
-- leaves, and the sessions of other tenants.
use go_react_fihos.Common.{
  true, ℕ, ◌==◌, ◌&&◌, ◌≤◌, ◌≡◌, ◌≢◌, refl, Bool, false, none, some, List, [], ◌∷◌, arith,
  Bool-cases, inl, inr,
}
use go_react_fihos.Store.Db.{Result, ok, err, Faults}
use go_react_fihos.Store.Sql.{
  select_row-satisfies, select-update, select_row, select_rows, update_where, count_where,
}
use go_react_fihos.Store.Schema.{Database}
use go_react_fihos.Store.Access.{Session}
use go_react_fihos.Store.Isolation.{foreign}
use go_react_fihos.Store.Sessions.{close_session, active_key, upsert_log, is_active}
use go_react_fihos.Store.Sessions.Usage.{Saves, closed_off, final, close-Saves}

abbrev pub session_key : ℕ → ℕ → Session → Bool
session_key tenant_id id s = s.tenant_id == tenant_id && s.id == id

-- The sessions of the other tenants.
abbrev pub others_sessions : ℕ → List Session → List Session
others_sessions tenant_id ss = select_rows (λ s. foreign tenant_id s.tenant_id) ss

module _ (tenant_id id : ℕ) (f : Session → Session) where
  -- No session has the id.
  update_absent :
      (ss : List Session)
      → count_where (λ s. s.id == id) ss ≡ 0
      → update_where (λ s. s.id == id) f ss ≡ ss
  update_absent [] h = refl
  update_absent (s ∷ ss) h = ground (arith, update_absent ss)

  select_absent :
      (ss : List Session)
      → count_where (λ s. s.id == id) ss ≡ 0
      → select_row (session_key tenant_id id) ss ≡ none
  select_absent [] h = refl
  select_absent (s ∷ ss) h = ground (arith, select_absent ss)

  update-others :
      (ss : List Session) (found : Session)
      → ((s : Session) → (f s).tenant_id ≡ s.tenant_id)
      → count_where (λ s. s.id == id) ss ≤ 1
      → select_row (session_key tenant_id id) ss ≡ some found
      → others_sessions tenant_id (update_where (λ s. s.id == id) f ss)
        ≡ others_sessions tenant_id ss
  update-others [] found k one e = refl
  update-others (s ∷ ss) found k one e = elim (Bool-cases (s.id == id)) [
    | inl t ↦ ground (arith, k s, update_absent ss, select_absent ss)
    | inr t ↦ ground (arith, k s, update-others ss found k)
  ]

-- The session that is found, where it is active, is the one that is closed.
select_active :
    (tenant_id id : ℕ) (ss : List Session) (found : Session)
    → count_where (λ s. s.id == id) ss ≤ 1
    → select_row (session_key tenant_id id) ss ≡ some found
    → is_active found ≡ true
    → select_row (active_key id) ss ≡ some found
select_active tenant_id id [] found one e live = ground arith
select_active tenant_id id (s ∷ ss) found one e live = elim (Bool-cases (s.id == id)) [
  | inl t ↦ ground (arith, select_absent tenant_id id (λ y. y) ss)
  | inr t ↦ ground (arith, select_active tenant_id id ss found)
]

-- What a call that closes the session `id` of the tenant leaves: its row is the session that is
-- returned, which is not active; the sessions of the other tenants are as before.
abbrev pub Closed : ℕ → ℕ → Database → Session → Database → Type 0
Closed tenant_id id db s db' =
    (s.tenant_id ≡ tenant_id)
    × (s.id ≡ id)
    × (is_active s ≡ false)
    × (select_row (session_key tenant_id id) db.sessions ≢ none)
    × (select_row (session_key tenant_id id) db'.sessions ≡ some s)
    × (others_sessions tenant_id db'.sessions ≡ others_sessions tenant_id db.sessions)

module _ (tenant_id id at rx tx : ℕ) (db : Database) where
  abbrev pub Closes : Result Session → Database → Type 0
  Closes (err e) db' = db' ≡ db
  Closes (ok s) db' = Closed tenant_id id db s db'

  -- The row of the session after it is written.
  written :
      (found : Session)
      → select_row (session_key tenant_id id) db.sessions ≡ some found
      → select_row
          (session_key tenant_id id)
          (update_where (λ y. y.id == id) (final at rx tx found) db.sessions)
        ≡ some (final at rx tx found found)
  written found e =
      let own = select_row-satisfies (session_key tenant_id id) db.sessions found e in
      let updated =
        select-update (λ y. y.id == id) (session_key tenant_id id) (final at rx tx found)
          db.sessions found (λ y. ground arith) e in
      let is_id : (found.id == id) ≡ true = ground (arith, own) in rw is_id at updated

  pub own_tenant :
      (found : Session)
      → select_row (session_key tenant_id id) db.sessions ≡ some found
      → (found.tenant_id ≡ tenant_id) × (found.id ≡ id)
  own_tenant found e =
      ground (arith, select_row-satisfies (session_key tenant_id id) db.sessions found e)

  Saves-Closes :
      (found : Session) (r : Result Session) (db' : Database)
      → count_where (λ s. s.id == id) db.sessions ≤ 1
      → select_row (session_key tenant_id id) db.sessions ≡ some found
      → Saves db (closed_off id at rx tx found db) (final at rx tx found found) r db'
      → Closes r db'
  unfolding upsert_log
  Saves-Closes found (err e) db' one e' same = same
  Saves-Closes found (ok s) db' one e' (row, done) =
      let (own, is_id) = own_tenant found e' in
      rw row (
        rw done (
          own,
          is_id,
          refl,
          (λ missing. cc),
          written found e',
          update-others tenant_id id (final at rx tx found) db.sessions found (λ y. refl) one e',
        ))

  pub close-Closes :
      (found : Session) (fs : Faults)
      → count_where (λ s. s.id == id) db.sessions ≤ 1
      → select_row (session_key tenant_id id) db.sessions ≡ some found
      → is_active found ≡ true
      → let (r, _, db') = close_session id at rx tx fs db in Closes r db'
  close-Closes found fs one e live = Saves-Closes found _ _ one e (
      close-Saves id at rx tx fs db found (select_active tenant_id id db.sessions found one e live))
