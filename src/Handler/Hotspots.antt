-- ===== src/Handler/Hotspots.antt =====
-- backend/internal/handler/infra.go: what is pushed to a device when a hotspot is made or changed, and
-- the probe of a router. The audit log is left out.
use go_react_fihos.Common.{ℕ, ◌==◌, ◌||◌, ltb, Bool, not, [], if◌then◌else◌}
use go_react_fihos.Common.Text.{Text, codes, text_eq}
use go_react_fihos.Store.Db.{Call, pure, ignore, branch, ◌>>◌}
use go_react_fihos.Store.World.{World, on_db, on_outside, cases, skip}
use go_react_fihos.Store.Network.{Profile, Router, Hotspot}
use go_react_fihos.Store.Routers.{
  router_by_id, set_router_online, set_router_offline, profile_by_id,
}
use go_react_fihos.Store.Hotspots.{
  create_hotspot, update_hotspot, set_hotspot_configured, enqueue_job,
}
use go_react_fihos.Mikrotik.Router.{Floats}
use go_react_fihos.Mikrotik.Transport.{Transport, HotspotConfig}
use go_react_fihos.Worker.{device_of}
use go_react_fihos.Handler.{
  replied, refused, Handle, validation_failed, forbidden, fail, reply, stop_if, on, after,
}
use go_react_fihos.Handler.Infra.{HotspotReq, hotspot_of}

-- A multiplier is in hundredths; one below 1 counts as 1.
abbrev pub at_least_100 : ℕ → ℕ
at_least_100 multiplier = if ltb multiplier 100 then 100 else multiplier

abbrev pub scaled_config : Floats → Hotspot → Profile → ℕ → HotspotConfig
scaled_config fl hs profile multiplier = record {
  name = hs.name;
  rx_rate = fl.scale profile.rx_rate multiplier;
  tx_rate = fl.scale profile.tx_rate multiplier;
  uptime_limit = profile.session_uptime_limit;
}

module _ {S : Type 0} (mt : Transport S) where
  -- The device's error is ignored, and the row is marked all the same.
  unfoldable pub configure_hotspot :
      Floats → Text → Hotspot → ℕ → Router → Profile → Call (World S) Unit
  configure_hotspot fl mk_id hs multiplier router profile =
      ignore
        (on_outside (mt.apply_config (device_of router) (scaled_config fl hs profile multiplier)))
      >> ignore (on_db (set_hotspot_configured hs.id mk_id multiplier))

  -- `mk_id` is the time of the clock as text; `now` is what a probe notes.
  unfoldable pub push_hotspot_config : Floats → Text → ℕ → ℕ → Hotspot → ℕ → Call (World S) Unit
  push_hotspot_config fl mk_id now tenant_id hs multiplier =
      cases (on_db (router_by_id tenant_id hs.router_id)) skip (λ router.
        cases (on_db (profile_by_id tenant_id hs.profile_id)) skip (λ profile.
          cases (on_outside (mt.probe now (device_of router))) skip (λ probed.
            branch (not probed.0) (pure tt)
              (configure_hotspot fl mk_id hs (at_least_100 multiplier) router profile))))

  -- `payload` is the JSON object with the name of the hotspot.
  unfoldable pub apply_later :
      (Text → Text) → Floats → Text → ℕ → ℕ → ℕ → ℕ → Hotspot → Handle (World S) Hotspot
  apply_later payload fl mk_id now tenant_id multiplier status hs =
      after (on_db (enqueue_job tenant_id hs.id (codes "apply") (payload hs.name))) (
        after (push_hotspot_config fl mk_id now tenant_id hs multiplier)
          (reply (replied status hs)))

  unfoldable pub post_hotspot :
      (Text → Text) → Floats → Text → ℕ → ℕ → HotspotReq → Handle (World S) Hotspot
  post_hotspot payload fl mk_id now tenant_id req = stop_if (tenant_id == 0) forbidden (
      stop_if (req.router_id == 0 || req.profile_id == 0 || text_eq req.name []) validation_failed (
        on (on_db (create_hotspot tenant_id (hotspot_of req))) fail
          (apply_later payload fl mk_id now tenant_id 100 201)))

  unfoldable pub patch_hotspot :
      (Text → Text) → Floats → Text → ℕ → ℕ → ℕ → HotspotReq → Handle (World S) Hotspot
  patch_hotspot payload fl mk_id now tenant_id id req = stop_if (tenant_id == 0) forbidden (
      on (on_db (update_hotspot tenant_id id (hotspot_of req))) fail
        (λ hs. apply_later payload fl mk_id now tenant_id hs.applied_multiplier 200 hs))

  -- The answer is the time that the device notes.
  abbrev pub answer_probe : ℕ → Bool × ℕ → Handle (World S) ℕ
  answer_probe id (alive, at) =
      if alive
      then after (on_db (set_router_online id)) (reply (replied 200 at))
      else after (on_db (set_router_offline id)) (reply (refused 503 (codes "router_offline")))

  unfoldable pub post_router_probe : ℕ → ℕ → ℕ → Handle (World S) ℕ
  post_router_probe tenant_id id now = stop_if (tenant_id == 0) forbidden (
      on (on_db (router_by_id tenant_id id)) fail
        (λ r. on (on_outside (mt.probe now (device_of r))) fail (answer_probe id)))
