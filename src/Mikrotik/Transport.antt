-- ===== src/Mikrotik/Transport.antt =====
-- backend/internal/mikrotik/sim_state.go, client.go and sim_transport.go: the state of the emulated
-- devices, the data path to devices, and the one over the other. `S` is what the devices keep.
use go_react_fihos.Common.{ℕ, Bool, List, [], ◌∷◌, if◌then◌else◌}
use go_react_fihos.Common.Text.{Text, codes, text_eq}
use go_react_fihos.Store.Db.{Result, ok, Call, pure, ◌>>=◌, ◌>>◌}
use go_react_fihos.Mikrotik.Router.{Floats, SimSession, Draw}
use go_react_fihos.Mikrotik.Simulator
use go_react_fihos.Mikrotik.Simulator.{Routers}
use go_react_fihos.Mikrotik.RedisSimulator
use go_react_fihos.Mikrotik.RedisSimulator.{Redis, Json}

-- The first argument of `register_router` and of `probe` is what the clock shows; the last of
-- `list_sessions` is the order of its iteration with the random numbers.
pub record SimState (S : Type 0) : Type 0 where
  pub register_router : ℕ → ℕ → Text → Call S Unit
  pub unregister_router : ℕ → Call S Unit
  pub reset : ℕ → Call S Unit
  pub probe : ℕ → ℕ → Call S (Bool × ℕ)
  pub apply_hotspot_config : ℕ → Text → ℕ → ℕ → ℕ → Call S Unit
  pub apply_rate_multiplier : ℕ → Text → ℕ → Call S Unit
  pub seed_session : ℕ → SimSession → Call S Unit
  pub disconnect_session : ℕ → Text → Call S Unit
  pub list_sessions : ℕ → ℕ → List (Text × Draw) → Call S (List SimSession)

abbrev pub total : {S : Type 0} → (S → S) → Call S Unit
total f fs s = (ok tt, fs, f s)

abbrev pub answer : {S A : Type 0} → (S → Result A × S) → Call S A
answer f fs s = let (r, s') = f s in (r, fs, s')

-- var _ SimState = (*Simulator)(nil)
abbrev pub in_memory : Floats → SimState Routers
in_memory fl = record {
  register_router = λ now id name. total (Simulator.register_router now id name);
  unregister_router = λ id. total (Simulator.unregister_router id);
  reset = λ id. total (Simulator.reset id);
  probe = λ now id. answer (Simulator.probe now id);
  apply_hotspot_config =
      λ id name rx tx uptime. answer (Simulator.apply_hotspot_config fl id name rx tx uptime);
  apply_rate_multiplier =
      λ id name multiplier. answer (Simulator.apply_rate_multiplier fl id name multiplier);
  seed_session = λ id s. total (Simulator.seed_session id s);
  disconnect_session = λ id username. answer (Simulator.disconnect_session id username);
  list_sessions = λ id interval names. answer (Simulator.list_sessions fl id interval names);
}

abbrev pub in_redis : {Doc : Type 0} → Json Doc → Floats → SimState (Redis Doc)
in_redis json fl = record {
  register_router = RedisSimulator.register_router json;
  unregister_router = RedisSimulator.unregister_router json;
  reset = RedisSimulator.reset json;
  probe = RedisSimulator.probe json;
  apply_hotspot_config = RedisSimulator.apply_hotspot_config json fl;
  apply_rate_multiplier = RedisSimulator.apply_rate_multiplier json fl;
  seed_session = RedisSimulator.seed_session json;
  disconnect_session = RedisSimulator.disconnect_session json;
  list_sessions = RedisSimulator.list_sessions json fl;
}

pub record Device : Type 0 where
  pub id : ℕ
  pub name : Text
  pub ip_address : Text
  pub api_port : ℕ
  pub username : Text
  pub password : Text

pub record HotspotConfig : Type 0 where
  pub name : Text
  pub rx_rate : ℕ
  pub tx_rate : ℕ
  pub uptime_limit : ℕ

pub record Transport (S : Type 0) : Type 0 where
  pub register : ℕ → Device → Call S Unit
  pub unregister : ℕ → Call S Unit
  pub probe : ℕ → Device → Call S (Bool × ℕ)
  pub apply_config : Device → HotspotConfig → Call S Unit
  pub apply_rate_multiplier : Device → Text → ℕ → Call S Unit
  pub seed_sessions : Device → List SimSession → Call S Unit
  pub drop_sessions_except : Device → List Text → Call S Unit
  pub list_sessions : Device → ℕ → List (Text × Draw) → Call S (List SimSession)
  pub disconnect : Device → Text → Call S Unit

module _ {S : Type 0} (sim : SimState S) where
  abbrev pub seed_sessions : Device → List SimSession → Call S Unit
  seed_sessions d [] = pure tt
  seed_sessions d (s ∷ ss) = sim.seed_session d.id s >> seed_sessions d ss

  -- It keeps all sessions.
  abbrev pub sim_transport : Transport S
  sim_transport = record {
    register = λ now d. sim.register_router now d.id d.name;
    unregister = sim.unregister_router;
    probe = λ now d. sim.probe now d.id;
    apply_config = λ d c. sim.apply_hotspot_config d.id c.name c.rx_rate c.tx_rate c.uptime_limit;
    apply_rate_multiplier = λ d name multiplier. sim.apply_rate_multiplier d.id name multiplier;
    seed_sessions = seed_sessions;
    drop_sessions_except = λ d keep. pure tt;
    list_sessions = λ d interval names. sim.list_sessions d.id interval names;
    disconnect = λ d username. sim.disconnect_session d.id username;
  }

  abbrev pub mode_rest : Text
  mode_rest = codes "rest"

  -- New: every method of the client forwards to the transport that is chosen.
  abbrev pub new_client : Text → Transport S → Transport S
  new_client mode rest = if text_eq mode mode_rest then rest else sim_transport

-- The client's `Probe` drops the time.
abbrev pub probe_only : {S : Type 0} → Transport S → ℕ → Device → Call S Bool
probe_only mt now d = do p ← mt.probe now d; pure p.0
