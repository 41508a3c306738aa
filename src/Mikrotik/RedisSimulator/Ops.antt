-- ===== src/Mikrotik/RedisSimulator/Ops.antt =====
-- The operations that simulator.go and redis_simulator.go of backend/internal/mikrotik share, as data,
-- and sequences of them.
use go_react_fihos.Common.{ℕ, Bool, List, [], ◌∷◌}
use go_react_fihos.Common.Text.{Text}
use go_react_fihos.Store.Db.{Result, ok, err}
use go_react_fihos.Mikrotik.Router.{Floats, SimSession, Draw}
use go_react_fihos.Mikrotik.Simulator.{Routers, router, put, connect, found_or_new}
use go_react_fihos.Mikrotik.Simulator
use go_react_fihos.Mikrotik.RedisSimulator.{
  Json, Redis, key_for, decode, get_router, put_router, online_router, rename, sort_names,
}
use go_react_fihos.Mikrotik.RedisSimulator

-- The operations that both have, with what the clock and the random numbers are.
pub data Op : Type 0 where
  register : ℕ → ℕ → Text → Op
  unregister : ℕ → Op
  reset : ℕ → Op
  probe : ℕ → ℕ → Op
  configure_hotspot : ℕ → Text → ℕ → ℕ → ℕ → Op
  multiply : ℕ → Text → ℕ → Op
  seed_one : ℕ → SimSession → Op
  disconnect : ℕ → Text → Op
  list : ℕ → ℕ → List (Text × Draw) → Op

pub data Reply : Type 0 where
  done : Reply
  seen : Bool → ℕ → Reply
  listed : List SimSession → Reply

abbrev pub reply : {A : Type 0} → (A → Reply) → Result A → Result Reply
reply f (ok a) = ok (f a)
reply f (err e) = err e

-- Go may iterate over the map of the sessions in any order; here it is that of their names.
abbrev pub run_memory : Floats → Op → Routers → Result Reply × Routers
run_memory fl (register now id name) rs = (ok done, Simulator.register_router now id name rs)
run_memory fl (unregister id) rs = (ok done, Simulator.unregister_router id rs)
run_memory fl (reset id) rs = (ok done, Simulator.reset id rs)
run_memory fl (probe now id) rs =
    let (r, qs) = Simulator.probe now id rs in (reply (λ p. seen p.0 p.1) r, qs)
run_memory fl (configure_hotspot id name rx tx limit) rs =
    let (r, qs) = Simulator.apply_hotspot_config fl id name rx tx limit rs in
    (reply (λ _. done) r, qs)
run_memory fl (multiply id name m) rs =
    let (r, qs) = Simulator.apply_rate_multiplier fl id name m rs in (reply (λ _. done) r, qs)
run_memory fl (seed_one id s) rs = (ok done, Simulator.seed_session id s rs)
run_memory fl (disconnect id u) rs =
    let (r, qs) = Simulator.disconnect_session id u rs in (reply (λ _. done) r, qs)
run_memory fl (list id interval names) rs =
    let (r, qs) = Simulator.list_sessions fl id interval (sort_names names) rs in
    (reply (λ ss. listed ss) r, qs)

abbrev pub run_redis :
    {Doc : Type 0} → Json Doc → Floats → Op → Redis Doc → Result Reply × Redis Doc
run_redis json fl (register now id name) s =
    (ok done, (RedisSimulator.register_router json now id name [] s).2)
run_redis json fl (unregister id) s = (ok done, (RedisSimulator.unregister_router json id [] s).2)
run_redis json fl (reset id) s = (ok done, (RedisSimulator.reset json id [] s).2)
run_redis json fl (probe now id) s =
    let (r, _, t) = RedisSimulator.probe json now id [] s in (reply (λ p. seen p.0 p.1) r, t)
run_redis json fl (configure_hotspot id name rx tx limit) s =
    let (r, _, t) = RedisSimulator.apply_hotspot_config json fl id name rx tx limit [] s in
    (reply (λ _. done) r, t)
run_redis json fl (multiply id name m) s =
    let (r, _, t) = RedisSimulator.apply_rate_multiplier json fl id name m [] s in
    (reply (λ _. done) r, t)
run_redis json fl (seed_one id x) s = (ok done, (RedisSimulator.seed_session json id x [] s).2)
run_redis json fl (disconnect id u) s =
    let (r, _, t) = RedisSimulator.disconnect_session json id u [] s in (reply (λ _. done) r, t)
run_redis json fl (list id interval names) s =
    let (r, _, t) = RedisSimulator.list_sessions json fl id interval names [] s in
    (reply (λ ss. listed ss) r, t)

-- The replies to a sequence of operations.
abbrev pub memory_replies : Floats → List Op → Routers → List (Result Reply)
memory_replies fl [] rs = []
memory_replies fl (op ∷ ops) rs = let (r, qs) = run_memory fl op rs in r ∷ memory_replies fl ops qs

abbrev pub redis_replies :
    {Doc : Type 0} → Json Doc → Floats → List Op → Redis Doc → List (Result Reply)
redis_replies json fl [] s = []
redis_replies json fl (op ∷ ops) s =
    let (r, t) = run_redis json fl op s in r ∷ redis_replies json fl ops t
