-- ===== src/Handler/Infra.antt =====
-- backend/internal/handler/infra.go: profiles, routers and hotspots of a tenant. The body of a request
-- has been parsed and the id in its path is a number. `sim` are the emulated devices and `mt` is
-- the data path. The audit log is left out.

use go_react_fihos.Common.{
  ℕ, ◌==◌, ◌||◌, Bool, true, false, Option, none, some, List, [], if◌then◌else◌,
}
use go_react_fihos.Common.Text.{Text, codes, text_eq}
use go_react_fihos.Store.World.{World, on_db, on_outside}
use go_react_fihos.Store.Network.{
  Profile, Router, Hotspot, HotspotStatus, unverified, online, configuring,
}
use go_react_fihos.Store.Routers.{
  create_profile, list_profiles, update_profile, create_router, router_by_id, update_router,
  delete_router, set_router_status, set_router_online, set_router_offline,
}
use go_react_fihos.Store.Hotspots.{hotspot_by_id, set_hotspot_status}
use go_react_fihos.Mikrotik.Transport.{SimState}
use go_react_fihos.Handler.{
  replied, Handle, validation_failed, forbidden, internal, fail, reply, stop_if, on, after,
}

pub record ProfileReq : Type 0 where
  pub name : Text
  pub rx_rate : ℕ
  pub tx_rate : ℕ
  pub session_uptime_limit : ℕ
  pub keepalive_timeout : ℕ

abbrev pub profile_of : ProfileReq → Option ℕ → Profile
profile_of req created_by = record {
  id = 0;
  tenant_id = 0;
  name = req.name;
  rx_rate = req.rx_rate;
  tx_rate = req.tx_rate;
  session_uptime_limit = req.session_uptime_limit;
  keepalive_timeout = req.keepalive_timeout;
  created_by = created_by;
  created_at = 0;
}

pub record RouterReq : Type 0 where
  pub name : Text
  pub ip_address : Text
  pub api_port : ℕ
  pub username : Text
  pub password : Text

-- The port is 8728 where none is asked for.
abbrev pub router_of : RouterReq → Router
router_of req = record {
  id = 0;
  tenant_id = 0;
  name = req.name;
  ip_address = req.ip_address;
  api_port = if req.api_port == 0 then 8728 else req.api_port;
  username = req.username;
  password = req.password;
  status = unverified;
  last_seen_at = none;
  last_sync_at = none;
  created_at = 0;
}

pub record HotspotReq : Type 0 where
  pub router_id : ℕ
  pub profile_id : ℕ
  pub name : Text
  pub ip_range : Text

abbrev pub some_if : Text → Option Text
some_if s = if text_eq s [] then none else some s

abbrev pub hotspot_of : HotspotReq → Hotspot
hotspot_of req = record {
  id = 0;
  tenant_id = 0;
  router_id = req.router_id;
  profile_id = req.profile_id;
  name = req.name;
  mikrotik_id = none;
  ip_range = some_if req.ip_range;
  status = configuring;
  last_config_at = none;
  applied_multiplier = 100;
  created_at = 0;
}

module _ {S : Type 0} where
  -- A limit below 0 is refused too; here the limit is not negative.
  unfoldable pub post_profile : ℕ → ℕ → ProfileReq → Handle (World S) Profile
  post_profile tenant_id user_id req = stop_if (tenant_id == 0) forbidden (
      stop_if (text_eq req.name []) validation_failed (
        on (on_db (create_profile tenant_id (profile_of req (some user_id)))) fail
          (λ p. reply (replied 201 p))))

  unfoldable pub get_profiles : ℕ → Handle (World S) (List Profile)
  get_profiles tenant_id =
      stop_if (tenant_id == 0) forbidden
        (on (on_db (list_profiles tenant_id)) internal (λ items. reply (replied 200 items)))

  unfoldable pub patch_profile : ℕ → ℕ → ProfileReq → Handle (World S) Unit
  patch_profile tenant_id id req = stop_if (tenant_id == 0) forbidden (
      stop_if (text_eq req.name []) validation_failed (
        on (on_db (update_profile tenant_id id (profile_of req none))) fail
          (λ _. reply (replied 204 tt))))

  unfoldable pub get_router : ℕ → ℕ → Handle (World S) Router
  get_router tenant_id id =
      stop_if (tenant_id == 0) forbidden
        (on (on_db (router_by_id tenant_id id)) fail (λ r. reply (replied 200 r)))

  unfoldable pub get_hotspot : ℕ → ℕ → Handle (World S) Hotspot
  get_hotspot tenant_id id =
      stop_if (tenant_id == 0) forbidden
        (on (on_db (hotspot_by_id tenant_id id)) fail (λ hs. reply (replied 200 hs)))

  -- The status "active" or "disabled" of the request.
  unfoldable pub patch_hotspot_status : ℕ → ℕ → Text → Handle (World S) Unit
  patch_hotspot_status tenant_id id status = stop_if (tenant_id == 0) forbidden (
      if text_eq status (codes "active")
      then on (on_db (set_hotspot_status tenant_id id HotspotStatus.active)) fail
          (λ _. reply (replied 204 tt))
      else if text_eq status (codes "disabled")
      then on (on_db (set_hotspot_status tenant_id id HotspotStatus.disabled)) fail
          (λ _. reply (replied 204 tt))
      else reply validation_failed)

module _ {S : Type 0} (sim : SimState S) where
  -- The answer is the row as it was made; its status is set afterwards.
  unfoldable pub post_router : ℕ → ℕ → RouterReq → Handle (World S) Router
  post_router tenant_id now req = stop_if (tenant_id == 0) forbidden (
      stop_if (text_eq req.name [] || text_eq req.ip_address [] || text_eq req.username [])
        validation_failed
        (on (on_db (create_router tenant_id (router_of req))) fail (λ r.
          after (on_outside (sim.register_router now r.id r.name))
            (after (on_db (set_router_status r.id online)) (reply (replied 201 r))))))

  unfoldable pub patch_router : ℕ → ℕ → ℕ → RouterReq → Handle (World S) Router
  patch_router tenant_id id now req = stop_if (tenant_id == 0) forbidden (
      on (on_db (update_router tenant_id id (router_of req))) fail
        (λ r. after (on_outside (sim.register_router now r.id r.name)) (reply (replied 200 r))))

  abbrev pub forget_router : Bool → ℕ → Handle (World S) Unit → Handle (World S) Unit
  forget_router true id k = after (on_outside (sim.unregister_router id)) k
  forget_router false id k = k

  unfoldable pub remove_router : ℕ → ℕ → Handle (World S) Unit
  remove_router tenant_id id = stop_if (tenant_id == 0) forbidden (
      on (on_db (delete_router tenant_id id)) fail
        (λ removed. forget_router removed id (reply (replied 204 tt))))

  -- `name` is the name that the simulator is told, from the id.
  abbrev pub set_connected : Bool → ℕ → ℕ → Text → Handle (World S) Bool → Handle (World S) Bool
  set_connected true id now name k =
      after (on_outside (sim.register_router now id name)) (after (on_db (set_router_online id)) k)
  set_connected false id now name k =
      after (on_outside (sim.reset id)) (after (on_db (set_router_offline id)) k)

  -- A body that does not parse is refused after the router was found.
  unfoldable pub post_router_simulate : ℕ → ℕ → ℕ → Text → Option Bool → Handle (World S) Bool
  post_router_simulate tenant_id id now name body = stop_if (tenant_id == 0) forbidden (
      on (on_db (router_by_id tenant_id id)) fail (λ _. elim body [
        | none ↦ reply validation_failed
        | some connected ↦ set_connected connected id now name (reply (replied 200 connected))
      ]))
