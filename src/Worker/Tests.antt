-- ===== src/Worker/Tests.antt =====
-- Passes of backend/cmd/worker/main.go on a sample, and the theorems at concrete inputs.
use go_react_fihos.Common.{
  ℕ, ◌≡◌, refl, arith, false, List, [], ◌∷◌, ◌/◌, ◌*◌, All, any, if◌then◌else◌,
}
use go_react_fihos.Common.Text.{Text}
use go_react_fihos.Store.Db.{Error}
use go_react_fihos.Store.Sql.{select_rows}
use go_react_fihos.Store.Access.{Session}
use go_react_fihos.Store.Samples.{network, thirty_days, sample_session, sample_job}
use go_react_fihos.Mikrotik.Router.{Floats, Draw}
use go_react_fihos.Mikrotik.Simulator.{Routers}
use go_react_fihos.Mikrotik.Transport.{Transport, in_memory, sim_transport}
use go_react_fihos.Worker.{scheduler_tick, billing_tick, group}
use go_react_fihos.Store.World.{World}
use go_react_fihos.Worker.Jobs.{hotspots_of}
use go_react_fihos.Worker.Tick.{AreClosed, HaveHotspots, scheduler_tick-AreClosed}
use go_react_fihos.Worker.Billing.{IsCovered, billing_tick-IsCovered}
use go_react_fihos.Worker.Grouping.{sessions_of, groups_of, is_on, group_lem}

abbrev floats : Floats
floats = record {
  scale = λ rate multiplier. rate * multiplier / 100;
  gain_rx = λ rate interval random. rate * interval * 125;
  gain_tx = λ rate interval random. rate * interval * 35;
}

abbrev devices : Transport Routers
devices = sim_transport (in_memory floats)

abbrev world : World Routers
world = record { db = network; outside = [] }

abbrev no_text : Error → Text
no_text e = []

abbrev no_draws : ℕ → List (Text × Draw)
no_draws id = []

network-HaveHotspots : HaveHotspots network network.config_jobs
unfolding hotspots_of
network-HaveHotspots = (omega arith, tt)

-- The device is not registered, so the job fails.
scheduler_tick-AreClosed_example :
    AreClosed
      (scheduler_tick devices no_text (λ groups. groups) no_draws false 1000 30 [] world).2.db
      (sample_job ∷ [])
scheduler_tick-AreClosed_example =
    scheduler_tick-AreClosed devices no_text (λ groups. groups) no_draws 1000 30 world
      (λ d c s. refl) network-HaveHotspots

billing_tick-IsCovered_example :
    All (IsCovered 990 (billing_tick thirty_days false 1000 [] world).2.db) (1 ∷ [])
billing_tick-IsCovered_example = billing_tick-IsCovered thirty_days 1000 world

abbrev other_session : Session
other_session = record sample_session { id = 64; router_id = 65 }

group_lem_example :
    (sessions_of 6 (group [] (sample_session ∷ other_session ∷ []))
      ≡ select_rows (is_on 6) (sample_session ∷ other_session ∷ []))
    × (groups_of 6 (group [] (sample_session ∷ other_session ∷ []))
        ≡ (if any (is_on 6) (sample_session ∷ other_session ∷ []) then 1 else 0))
group_lem_example = group_lem 6 (sample_session ∷ other_session ∷ [])
