-- ===== src/Handler/Sessions.antt =====
-- backend/internal/handler/sessions.go: a session that is read or closed by its tenant. The audit log
-- is left out; the listings are not modelled.
pub mod Closed
pub mod Scoped
use go_react_fihos.Common.{ℕ, ◌==◌, not}
use go_react_fihos.Store.World.{World, on_db, on_outside}
use go_react_fihos.Store.Access.{Session}
use go_react_fihos.Store.Network.{Router}
use go_react_fihos.Store.Sessions.{session_by_id, close_session, is_active}
use go_react_fihos.Store.Hotspots.{hotspot_by_id}
use go_react_fihos.Store.Routers.{router_by_id}
use go_react_fihos.Mikrotik.Transport.{Transport}
use go_react_fihos.Worker.{device_of}
use go_react_fihos.Handler.{replied, Handle, forbidden, fail, reply, stop_if, on, after}

-- The id in the path is a number (`ParamID` answers otherwise).
unfoldable pub get_session : {S : Type 0} → ℕ → ℕ → Handle (World S) Session
get_session tenant_id id =
    stop_if (tenant_id == 0) forbidden
      (on (on_db (session_by_id tenant_id id)) fail (λ sess. reply (replied 200 sess)))

module _ {S : Type 0} (mt : Transport S) where
  -- The device is asked to drop the session, its error ignored; then the session is closed with the
  -- bytes that were last known.
  unfoldable pub disconnect_at : ℕ → ℕ → Session → Router → Handle (World S) Session
  disconnect_at id now sess router =
      after (on_outside (mt.disconnect (device_of router) sess.username)) (
        on (on_db (close_session id now sess.bytes_rx sess.bytes_tx)) fail
          (λ closed. reply (replied 200 closed)))

  unfoldable pub disconnect : ℕ → ℕ → ℕ → Session → Handle (World S) Session
  disconnect tenant_id id now sess =
      on (on_db (hotspot_by_id tenant_id sess.hotspot_id)) fail (λ hs.
        on (on_db (router_by_id tenant_id hs.router_id)) fail
          (λ router. disconnect_at id now sess router))

  unfoldable pub post_session_disconnect : ℕ → ℕ → ℕ → Handle (World S) Session
  post_session_disconnect tenant_id id now = stop_if (tenant_id == 0) forbidden (
      on (on_db (session_by_id tenant_id id)) fail (λ sess.
        stop_if (not (is_active sess)) (replied 200 sess) (disconnect tenant_id id now sess)))
