-- ===== src/Store/Isolation.antt =====
-- The writes of backend/internal/store/infra.go and insights.go that act for a tenant, and the rows
-- of the other tenants.
use go_react_fihos.Common.{ℕ, ◌==◌, ◌≡◌, refl, Bool, false, not, ◌&&◌, List, [], ◌∷◌, arith, ◌∙◌}
use go_react_fihos.Common.Text.{Text}
use go_react_fihos.Store.Db.{Faults, Call, ok, ignore}
use go_react_fihos.Store.Sql.{
  select_rows, select_rows-update, select_rows-delete, select_rows-append,
}
use go_react_fihos.Store.Schema.{Database}
use go_react_fihos.Store.Network.{Profile, Router, Hotspot, HotspotStatus, RateWindow}
use go_react_fihos.Store.Routers.{
  create_profile, update_profile, create_router, update_router, delete_router, profile_row,
  profile_key, set_profile, router_row, router_key, set_router, hotspot_of, serves,
}
use go_react_fihos.Store.Hotspots.{
  create_hotspot, update_hotspot, set_hotspot_status, enqueue_job, hotspot_row, set_hotspot,
}
use go_react_fihos.Store.RateWindows.{
  create_rate_window, delete_rate_window, rate_window_row, rate_window_key,
}
use go_react_fihos.Store.Sessions.{hotspot_key}

pub data Write : Type 0 where
  profile_created : Profile → Write
  profile_updated : ℕ → Profile → Write
  router_created : Router → Write
  router_updated : ℕ → Router → Write
  router_deleted : ℕ → Write
  hotspot_created : Hotspot → Write
  hotspot_updated : ℕ → Hotspot → Write
  hotspot_switched : ℕ → HotspotStatus → Write
  job_enqueued : ℕ → Text → Text → Write
  window_created : RateWindow → Write
  window_deleted : ℕ → Write

-- A handler passes its tenant on; a failed call is answered, and the next one runs.
abbrev pub run : ℕ → Write → Call Database Unit
run t (profile_created p) = ignore (create_profile t p)
run t (profile_updated id p) = ignore (update_profile t id p)
run t (router_created r) = ignore (create_router t r)
run t (router_updated id r) = ignore (update_router t id r)
run t (router_deleted id) = ignore (delete_router t id)
run t (hotspot_created h) = ignore (create_hotspot t h)
run t (hotspot_updated id h) = ignore (update_hotspot t id h)
run t (hotspot_switched id status) = ignore (set_hotspot_status t id status)
run t (job_enqueued id action payload) = ignore (enqueue_job t id action payload)
run t (window_created rw) = ignore (create_rate_window (record rw { tenant_id = t }))
run t (window_deleted id) = ignore (delete_rate_window t id)

abbrev pub run_all : ℕ → List Write → Call Database Unit
run_all t [] fs db = (ok tt, fs, db)
run_all t (w ∷ ws) fs db = let (r, fs', db') = run t w fs db in run_all t ws fs' db'

-- The rows of all tenants but one.
pub record Rows : Type 0 where
  pub profiles : List Profile
  pub routers : List Router
  pub hotspots : List Hotspot
  pub windows : List RateWindow

abbrev pub foreign : ℕ → ℕ → Bool
foreign t u = not (u == t)

unfoldable pub others : ℕ → Database → Rows
others t db = record {
  profiles = select_rows (λ p. foreign t p.tenant_id) db.hotspot_profiles;
  routers = select_rows (λ r. foreign t r.tenant_id) db.routers;
  hotspots = select_rows (λ h. foreign t h.tenant_id) db.hotspots;
  windows = select_rows (λ w. foreign t w.tenant_id) db.rate_windows;
}

foreign_own : (t : ℕ) → foreign t t ≡ false
foreign_own t = ground arith

module _ (t : ℕ) (fs : Faults) (db : Database) where
  run-isolated : (w : Write) → others t (run t w fs db).2 ≡ others t db
  unfolding others create_profile update_profile create_router update_router delete_router
      create_hotspot update_hotspot set_hotspot_status enqueue_job create_rate_window
      delete_rate_window
  run-isolated (profile_created p) = ground (
    arith,
    select_rows-append (λ p. foreign t p.tenant_id) (profile_row t p db) db.hotspot_profiles,
  )
  run-isolated (profile_updated id p) = ground (
    arith,
    select_rows-update (λ p. foreign t p.tenant_id) (profile_key t id) (set_profile p)
        db.hotspot_profiles (λ x h. (ground arith, ground arith)),
  )
  run-isolated (router_created r) =
      ground (arith, select_rows-append (λ p. foreign t p.tenant_id) (router_row t r db) db.routers)
  run-isolated (router_updated id r) = ground (
    arith,
    select_rows-update (λ p. foreign t p.tenant_id) (router_key t id) (set_router r) db.routers
        (λ x h. (ground arith, ground arith)),
  )
  run-isolated (router_deleted id) = ground (
    arith,
    select_rows-delete (λ p. foreign t p.tenant_id) (router_key t id) db.routers
        (λ x h. ground arith),
    select_rows-delete (λ p. foreign t p.tenant_id) (hotspot_of t id) db.hotspots
        (λ x h. ground arith),
    select_rows-delete (λ w. foreign t w.tenant_id)
        (λ w. w.tenant_id == t && serves t id db.hotspots w.hotspot_id) db.rate_windows
        (λ x h. ground arith),
  )
  run-isolated (hotspot_created h) = ground (
    arith,
    select_rows-append (λ p. foreign t p.tenant_id) (hotspot_row t h db) db.hotspots
        (foreign_own t),
  )
  run-isolated (hotspot_updated id h) = ground (
    arith,
    select_rows-update (λ p. foreign t p.tenant_id) (hotspot_key t id) (set_hotspot h) db.hotspots
        (λ x h. (ground arith, ground arith)),
  )
  run-isolated (hotspot_switched id status) = ground (
    arith,
    select_rows-update (λ p. foreign t p.tenant_id) (hotspot_key t id)
        (λ h. record h { status = status }) db.hotspots (λ x h. (ground arith, ground arith)),
  )
  run-isolated (job_enqueued id action payload) = ground arith
  run-isolated (window_created rw) = ground (
    arith,
    select_rows-append (λ p. foreign t p.tenant_id)
        (rate_window_row (record rw { tenant_id = t }) db) db.rate_windows,
  )
  run-isolated (window_deleted id) = ground (
    arith,
    select_rows-delete (λ w. foreign t w.tenant_id) (rate_window_key t id) db.rate_windows
        (λ x h. ground arith),
  )

-- Whatever a tenant writes, and whichever statements fail, the profiles, routers, hotspots and rate
-- windows of the other tenants stay as they are.
pub run_all-isolated :
    (t : ℕ) (ws : List Write) (fs : Faults) (db : Database)
    → others t (run_all t ws fs db).2 ≡ others t db
run_all-isolated t [] fs db = refl
run_all-isolated t (w ∷ ws) fs db =
    let (r, fs', db') = run t w fs db in run_all-isolated t ws fs' db' ∙ run-isolated t fs db w
