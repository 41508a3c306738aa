-- ===== src/Store/Sessions/Active.antt =====
-- backend/internal/store/sessions.go: the sessions that the worker reconciles.
use go_react_fihos.Common.{ℕ, ◌==◌, ◌&&◌, ◌||◌, Bool, List, [], ◌∷◌, if◌then◌else◌, leb, take}
use go_react_fihos.Store.Db.{Call, query}
use go_react_fihos.Store.Sql.{select_rows}
use go_react_fihos.Store.Access.{Session}
use go_react_fihos.Store.Schema.{Database}
use go_react_fihos.Store.Sessions.{is_active}

-- ORDER BY started_at
abbrev pub put_by_start : Session → List Session → List Session
put_by_start s [] = s ∷ []
put_by_start s (x ∷ xs) =
    if leb s.started_at x.started_at then s ∷ x ∷ xs else x ∷ put_by_start s xs

abbrev pub by_start : List Session → List Session
by_start [] = []
by_start (s ∷ ss) = put_by_start s (by_start ss)

-- state = 'active' AND ($1 = 0 OR hotspot_id = $1)
abbrev pub active_on : ℕ → Session → Bool
active_on hotspot_id s = is_active s && (hotspot_id == 0 || s.hotspot_id == hotspot_id)

unfoldable pub list_active_sessions : ℕ → ℕ → Call Database (List Session)
list_active_sessions limit hotspot_id =
    query (λ db. take limit (by_start (select_rows (active_on hotspot_id) db.sessions)))
