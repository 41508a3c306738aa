-- ===== src/Worker.antt =====
-- backend/cmd/worker/main.go: what the loops of the worker do in one pass, on the database and on
-- the devices. A pass that returns early returns the error that it logs.
pub mod Jobs
pub mod Tick
pub mod Billing
pub mod Grouping
mod Tests
use go_react_fihos.Common.{
  ℕ, ◌==◌, Bool, true, false, Option, some, none, List, [], ◌∷◌, if◌then◌else◌, map, ◌++◌,
}
use go_react_fihos.Common.Text.{Text, text_eq}
use go_react_fihos.Common.Dict.{lookup, insert}
use go_react_fihos.Store.Db.{
  Result, ok, err, Error, Faults, Call, pure, branch, ignore, ◌>>=◌, ◌>>◌,
}
use go_react_fihos.Store.World.{World, on_db, on_outside, cases, for_each, skip}
use go_react_fihos.Store.Schema.{Database}
use go_react_fihos.Store.Network.{Router, Profile, Hotspot, ConfigJob}
use go_react_fihos.Store.Routers.{
  routers_all, set_router_offline, set_router_online, set_router_last_sync, profile_by_id,
}
use go_react_fihos.Store.Hotspots.{
  pending_jobs, hotspot_by_id, fail_job, done_job, set_hotspot_configured,
}
use go_react_fihos.Store.RateWindows.{RateWindowJob, windows_to_start, list_expired_applied_windows}
use go_react_fihos.Store.Access.{Session}
use go_react_fihos.Store.Sessions.{snapshot_session_usage, close_session}
use go_react_fihos.Store.Sessions.Active.{list_active_sessions}
use go_react_fihos.Store.Tenants.{active_tenant_ids}
use go_react_fihos.Store.Billing.{Calendar, generate_monthly_windows}
use go_react_fihos.Mikrotik.Router.{SimSession, Draw}
use go_react_fihos.Mikrotik.Transport.{Device, HotspotConfig, Transport, SimState}

abbrev pub device_of : Router → Device
device_of r = record {
  id = r.id;
  name = r.name;
  ip_address = r.ip_address;
  api_port = r.api_port;
  username = r.username;
  password = r.password;
}

-- A later router of the same id would replace an earlier one; the ids are a primary key.
abbrev pub find_device : List Router → ℕ → Device
find_device [] id = record {
  id = id;
  name = [];
  ip_address = [];
  api_port = 0;
  username = [];
  password = [];
}
find_device (r ∷ rs) id = if r.id == id then device_of r else find_device rs id

abbrev pub config_of : Hotspot → Profile → HotspotConfig
config_of hs profile = record {
  name = hs.name;
  rx_rate = profile.rx_rate;
  tx_rate = profile.tx_rate;
  uptime_limit = profile.session_uptime_limit;
}

abbrev pub fail_with : {S : Type 0} → (Error → Text) → ConfigJob → Error → Call (World S) Unit
fail_with message j e = ignore (on_db (fail_job j.id (message e)))

abbrev pub finish : {S : Type 0} → ConfigJob → Hotspot → Call (World S) Unit
finish j hs =
    ignore (on_db (done_job j.id))
    >> ignore (on_db (set_hotspot_configured hs.id [] hs.applied_multiplier))

module _ {S : Type 0} (mt : Transport S) where
  -- What a probe found, in the row of the router.
  unfoldable pub record_probe : Router → Bool × ℕ → Call (World S) Unit
  record_probe r (online, at) =
      branch online
        (ignore (on_db (set_router_online r.id)) >> ignore (on_db (set_router_last_sync r.id at)))
        (ignore (on_db (set_router_offline r.id)))

  unfoldable pub probe_router : ℕ → Router → Call (World S) Unit
  probe_router now r =
      cases (on_outside (mt.probe now (device_of r)))
        (λ _. ignore (on_db (set_router_offline r.id))) (record_probe r)

  unfoldable pub probe_routers : Bool → ℕ → Call (World S) Unit
  probe_routers cancelled now =
      branch cancelled (pure tt)
        (do routers ← on_db routers_all; for_each (probe_router now) routers)

  unfoldable pub apply_profile :
      (Error → Text) → List Router → ConfigJob → Hotspot → Profile → Call (World S) Unit
  apply_profile message routers j hs profile =
      cases (on_outside (mt.apply_config (find_device routers hs.router_id) (config_of hs profile)))
        (fail_with message j) (λ _. finish j hs)

  abbrev pub configure_job :
      (Error → Text) → List Router → ConfigJob → Hotspot → Call (World S) Unit
  configure_job message routers j hs =
      cases (on_db (profile_by_id j.tenant_id hs.profile_id)) (fail_with message j)
        (apply_profile message routers j hs)

  -- The loop's body for one job; `message` is the text of an error.
  unfoldable pub run_job : (Error → Text) → List Router → ConfigJob → Call (World S) Unit
  run_job message routers j =
      cases (on_db (hotspot_by_id j.tenant_id j.hotspot_id)) skip (configure_job message routers j)

  -- A rate window starts, or a rate is reverted: the device first, then the row.
  unfoldable pub set_rate : List Router → RateWindowJob → ℕ → Call (World S) Unit
  set_rate routers w multiplier =
      cases
        (on_outside
          (mt.apply_rate_multiplier (find_device routers w.router_id) w.hotspot_name multiplier))
        skip (λ _. ignore (on_db (set_hotspot_configured w.hotspot_id [] multiplier)))

abbrev pub RouterSessions : Type 0
RouterSessions = ℕ × List Session

-- grouped[s.RouterID] = append(grouped[s.RouterID], s)
abbrev pub add_to_group : Session → List RouterSessions → List RouterSessions
add_to_group s [] = (s.router_id, s ∷ []) ∷ []
add_to_group s ((id, ss) ∷ groups) =
    if s.router_id == id then (id, ss ++ s ∷ []) ∷ groups else (id, ss) ∷ add_to_group s groups

unfoldable pub group : List RouterSessions → List Session → List RouterSessions
group groups [] = groups
group groups (s ∷ ss) = group (add_to_group s groups) ss

-- A map is iterated in any order: `order` is what comes of it.
unfoldable pub routers_with_active_sessions :
    {S : Type 0}
    → (List RouterSessions → List RouterSessions)
    → Call (World S) (List RouterSessions)
routers_with_active_sessions order =
    cases (on_db (list_active_sessions 500 0)) (λ _. pure []) (λ ss. pure (order (group [] ss)))

abbrev pub deref_str : Option Text → Text
deref_str none = []
deref_str (some s) = s

abbrev pub seed_of : Session → SimSession
seed_of s = record {
  username = s.username;
  mac = deref_str s.mac_address;
  ip = deref_str s.ip_address;
  bytes_rx = s.bytes_rx;
  bytes_tx = s.bytes_tx;
}

-- A later session of a user name replaces an earlier one.
abbrev pub by_user : List SimSession → List (Text × SimSession) → List (Text × SimSession)
by_user [] d = d
by_user (s ∷ ss) d = by_user ss (insert text_eq s.username s d)

-- The loop's body for one session, which the device lists or not. The bits of a counter are taken for
-- its number, which they are below 2 ^ 63.
unfoldable pub mirror : {S : Type 0} → ℕ → Session → Option SimSession → Call (World S) Unit
mirror now s (some live) =
    ignore (on_db (snapshot_session_usage s.id now live.bytes_rx live.bytes_tx))
mirror now s none = ignore (on_db (close_session s.id now s.bytes_rx s.bytes_tx))

module _ {S : Type 0} (mt : Transport S) where
  unfoldable pub reconcile_router :
      ℕ → ℕ → List (Text × Draw) → Device → List Session → Call (World S) Unit
  reconcile_router now interval draws d sessions = do
    on_outside (mt.seed_sessions d (map seed_of sessions))
    on_outside (mt.drop_sessions_except d (map (λ s. s.username) sessions))
    cases (on_outside (mt.list_sessions d interval draws)) skip (λ live.
        for_each (λ s. mirror now s (lookup text_eq s.username (by_user live []))) sessions)

  abbrev pub reconcile :
      (List RouterSessions → List RouterSessions)
      → (ℕ → List (Text × Draw))
      → ℕ
      → ℕ
      → List Router
      → Call (World S) Unit
  reconcile order draws now interval routers = do
    groups ← routers_with_active_sessions order
    for_each (λ g. reconcile_router now interval (draws g.0) (find_device routers g.0) g.1) groups

  abbrev pub set_rates : ℕ → List Router → Call (World S) Unit
  set_rates now routers = do
    windows ← on_db windows_to_start
    for_each (λ w. set_rate mt routers w w.multiplier) windows
    ends ← on_db (list_expired_applied_windows now)
    for_each (λ e. set_rate mt routers e 100) ends

  unfoldable pub scheduler_tick :
      (Error → Text)
      → (List RouterSessions → List RouterSessions)
      → (ℕ → List (Text × Draw))
      → Bool
      → ℕ
      → ℕ
      → Call (World S) Unit
  scheduler_tick message order draws cancelled now interval = branch cancelled (pure tt) (do
    routers ← on_db routers_all
    jobs ← on_db (pending_jobs 20)
    for_each (run_job mt message routers) jobs
    set_rates now routers
    reconcile order draws now interval routers)

-- The simulated devices learn the routers of the database, once.
unfoldable pub register_all_routers : {S : Type 0} → SimState S → ℕ → Call (World S) Unit
register_all_routers sim now =
    cases (on_db routers_all) skip
      (λ routers. for_each (λ r. on_outside (sim.register_router now r.id r.name)) routers)

unfoldable pub billing_tick : {S : Type 0} → Calendar → Bool → ℕ → Call (World S) Unit
billing_tick cal cancelled now = branch cancelled (pure tt) (do
  tenants ← on_db active_tenant_ids
  for_each (λ t. ignore (on_db (generate_monthly_windows cal t now))) tenants)

-- `rollup` is RollupDailies, an aggregate in SQL over thirty days; the anomaly engine, which is an
-- argument of the code too, is not called.
unfoldable pub analytics_tick :
    {S : Type 0} → (ℕ → ℕ → Call Database Unit) → Bool → Call (World S) Unit
analytics_tick rollup cancelled =
    branch cancelled (pure tt)
      (do tenants ← on_db active_tenant_ids; for_each (λ t. ignore (on_db (rollup t 30))) tenants)
