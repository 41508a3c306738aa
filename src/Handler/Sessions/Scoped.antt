-- ===== src/Handler/Sessions/Scoped.antt =====
-- `PostSessionDisconnect` of backend/internal/handler/sessions.go and the sessions of other tenants:
-- the session is closed by its id alone.
use mathlib.Core.Path.{subst, sym}
use go_react_fihos.Worker.{device_of}
use go_react_fihos.Common.{
  true, ap, ℕ, ◌==◌, ◌≤◌, ◌≡◌, refl, not, some, arith, Bool-cases, inl, inr,
}
use go_react_fihos.Store.Db.{Result, ok, err, Error, Faults}
use go_react_fihos.Store.Sql.{select_row, count_where}
use go_react_fihos.Store.World.{World, on_db}
use go_react_fihos.Store.Schema.{Database}
use go_react_fihos.Store.Access.{Session}
use go_react_fihos.Store.Network.{Router}
use go_react_fihos.Store.Sessions.{session_by_id, close_session, is_active}
use go_react_fihos.Store.Hotspots.{hotspot_by_id}
use go_react_fihos.Store.Routers.{router_by_id}
use go_react_fihos.Mikrotik.Transport.{Transport}
use go_react_fihos.Handler.{Reply, forbidden, refused, stop_if, on, fail, replied}
use go_react_fihos.Handler.Ends.{fail-Refused, Ends, Returned, on-Ends, plain-Ends, stop-Ends}
use go_react_fihos.Handler.Sessions.{disconnect_at, disconnect, post_session_disconnect}
use go_react_fihos.Handler.Sessions.Closed.{
  session_key, others_sessions, Closed, Closes, own_tenant, close-Closes,
}

-- A refusal changes nothing. An answer is the row of the session after the call.
abbrev pub Scoped : ℕ → ℕ → Database → Reply Session → Database → Type 0
Scoped tenant_id id db (refused status code) db' = db' ≡ db
Scoped tenant_id id db (replied status s) db' = Closed tenant_id id db s db'

module _ {S : Type 0} (mt : Transport S) (tenant_id id now : ℕ) (w : World S) where
  abbrev Q : Reply Session → World S → Type 0
  Q r w' = Scoped tenant_id id w.db r w'.db

  abbrev P : World S → Type 0
  P w' = w'.db ≡ w.db

  fail-Q : (e : Error) (w' : World S) → P w' → Q (fail e) w'
  fail-Q e w' p = fail-Refused (λ r. Q r w') (λ status code. p) e

  -- A close of the session by its id, which ran in a database like that of w.
  closed-Q :
      (at rx tx : ℕ) (r : Result Session) (fs : Faults) (w' : World S)
      → Closes tenant_id id at rx tx w.db r w'.db
      → let (q, fs', w'') : Reply Session × Faults × World S = elim r [
        | ok s ↦ (replied 200 s, fs, w')
        | err e ↦ (fail e, fs, w')
      ] in
        Q q w''
  closed-Q at rx tx (ok s) fs w' c = c
  closed-Q at rx tx (err e') fs w' c = fail-Q e' w' c

  disconnect_at-Ends :
      (found : Session) (router : Router)
      → count_where (λ s. s.id == id) w.db.sessions ≤ 1
      → select_row (session_key tenant_id id) w.db.sessions ≡ some found
      → is_active found ≡ true
      → Ends P Q (disconnect_at mt id now found router)
  unfolding disconnect_at
  disconnect_at-Ends found router one e live fs w' p =
      let (r, fs', out) = mt.disconnect (device_of router) found.username fs w'.outside in
      let rx = found.bytes_rx in
      let tx = found.bytes_tx in
      let (r', fs'', db') = close_session id now rx tx fs' w'.db in
      closed-Q now rx tx r' fs'' (record w' { db = db'; outside = out })
        (subst (λ d. Closes tenant_id id now rx tx d r' db') p
          (close-Closes tenant_id id now rx tx w'.db found fs' (rw p one) (rw p e) live))

  disconnect-Ends :
      (found : Session)
      → count_where (λ s. s.id == id) w.db.sessions ≤ 1
      → select_row (session_key tenant_id id) w.db.sessions ≡ some found
      → is_active found ≡ true
      → Ends P Q (disconnect mt tenant_id id now found)
  unfolding disconnect hotspot_by_id router_by_id
  disconnect-Ends found one e live =
      plain-Ends P Q (on_db (hotspot_by_id tenant_id found.hotspot_id)) fail
        (λ hs.
          on (on_db (router_by_id tenant_id hs.router_id)) fail (disconnect_at mt id now found))
        (λ fs s p. ground (arith, p)) fail-Q
        (λ hs.
          plain-Ends P Q (on_db (router_by_id tenant_id hs.router_id)) fail
            (disconnect_at mt id now found) (λ fs s p. ground (arith, p)) fail-Q
            (λ router. disconnect_at-Ends found router one e live))

  -- A session that is not active is answered as it is.
  found-Ends :
      (found : Session)
      → count_where (λ s. s.id == id) w.db.sessions ≤ 1
      → select_row (session_key tenant_id id) w.db.sessions ≡ some found
      → Ends P Q (
          stop_if
            (not (is_active found))
            (replied 200 found)
            (disconnect mt tenant_id id now found))
  found-Ends found one e fs w' p = elim (Bool-cases (is_active found)) [
    | inl t ↦ rw t (disconnect-Ends found one e t fs w' p)
    | inr t ↦
        let (own, is_id) = own_tenant tenant_id id now 0 0 w.db found e in
        rw t (
          own,
          is_id,
          t,
          (λ missing. cc),
          subst (λ d. select_row (session_key tenant_id id) d.sessions ≡ some found) (sym p) e,
          ap (λ d. others_sessions tenant_id d.sessions) p,
        )
  ]

  session_by_id-Returned :
      (fs : Faults) (w' : World S)
      → P w'
      → Returned P Q
          (λ s. select_row (session_key tenant_id id) w.db.sessions ≡ some s)
          (on_db (session_by_id tenant_id id) fs w').0
  unfolding session_by_id
  session_by_id-Returned fs w' p = rw p (ground arith)

  -- Where the id is a key, and whatever fails: a disconnect that is refused changes nothing in the
  -- database. One that is answered is of a session of the tenant with that id: the answer is the
  -- row that the session has afterwards, which is not active, and the sessions of the other
  -- tenants are as before.
  pub post_session_disconnect-Scoped :
      (fs : Faults)
      → count_where (λ s. s.id == id) w.db.sessions ≤ 1
      → let (r, _, w') = post_session_disconnect mt tenant_id id now fs w in
        Scoped tenant_id id w.db r w'.db
  unfolding post_session_disconnect session_by_id
  post_session_disconnect-Scoped fs one =
      stop-Ends P Q (tenant_id == 0) forbidden
        (on (on_db (session_by_id tenant_id id)) fail (λ sess.
          stop_if (not (is_active sess)) (replied 200 sess) (disconnect mt tenant_id id now sess)))
        (λ s p. p)
        (on-Ends P Q (λ s. select_row (session_key tenant_id id) w.db.sessions ≡ some s)
          (on_db (session_by_id tenant_id id)) fail
          (λ sess.
            stop_if (not (is_active sess)) (replied 200 sess) (disconnect mt tenant_id id now sess))
          (λ fs s p. ground (arith, p)) session_by_id-Returned fail-Q
          (λ found e. found-Ends found one e))
        fs w refl
