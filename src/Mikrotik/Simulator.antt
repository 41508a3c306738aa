-- ===== src/Mikrotik/Simulator.antt =====
-- backend/internal/mikrotik/simulator.go: the routers in memory. `now` is what the clock shows, and
-- `names` the order of the iteration over the sessions with the random numbers drawn.
use go_react_fihos.Common.{ℕ, ◌==◌, Bool, true, false, Option, none, some, List, if◌then◌else◌}
use go_react_fihos.Common.Text.{Text, text_eq}
use go_react_fihos.Common.Dict.{lookup, insert, erase}
use go_react_fihos.Store.Db.{Result, ok, err, unknown_router, router_offline, no_hotspot}
use go_react_fihos.Mikrotik.Router.{
  Floats, SimSession, SimRouter, new_router, configure, boost, seed, drop_session, rate_for, Draw,
  poll,
}

abbrev pub Routers : Type 0
Routers = List (ℕ × SimRouter)

abbrev pub router : ℕ → Routers → Option SimRouter
router id rs = lookup ◌==◌ id rs

abbrev pub put : ℕ → SimRouter → Routers → Routers
put id r rs = insert ◌==◌ id r rs

abbrev pub found_or_new : ℕ → Text → Option SimRouter → SimRouter
found_or_new id name none = new_router id name
found_or_new id name (some r) = r

abbrev pub connect : ℕ → SimRouter → SimRouter
connect now r = record r { connected = true; last_seen = now }

unfoldable pub register_router : ℕ → ℕ → Text → Routers → Routers
register_router now id name rs = put id (connect now (found_or_new id name (router id rs))) rs

unfoldable pub unregister_router : ℕ → Routers → Routers
unregister_router id rs = erase ◌==◌ id rs

unfoldable pub reset : ℕ → Routers → Routers
reset id rs = elim (router id rs) [
  | none ↦ rs
  | some r ↦ put id (record r { connected = false }) rs
]

unfoldable pub probe : ℕ → ℕ → Routers → Result (Bool × ℕ) × Routers
probe now id rs = elim (router id rs) [
  | none ↦ (err unknown_router, rs)
  | some r ↦ (ok (r.connected, now), put id (record r { last_seen = now }) rs)
]

-- The two guards that most operations begin with.
abbrev pub when_online :
    {A : Type 0} → ℕ → Routers → (SimRouter → Result A × Routers) → Result A × Routers
when_online id rs f = elim (router id rs) [
  | none ↦ (err unknown_router, rs)
  | some r ↦ if r.connected then f r else (err router_offline, rs)
]

unfoldable pub apply_hotspot_config :
    Floats → ℕ → Text → ℕ → ℕ → ℕ → Routers → Result Unit × Routers
apply_hotspot_config fl id name rx tx uptime_limit rs =
    when_online id rs (λ r. (ok tt, put id (configure fl name rx tx uptime_limit r) rs))

unfoldable pub apply_rate_multiplier : Floats → ℕ → Text → ℕ → Routers → Result Unit × Routers
apply_rate_multiplier fl id name multiplier rs = when_online id rs (λ r.
    elim (lookup text_eq name r.hotspots) [
      | none ↦ (err no_hotspot, rs)
      | some h ↦ (ok tt, put id (boost fl name multiplier h r) rs)
    ])

unfoldable pub seed_session : ℕ → SimSession → Routers → Routers
seed_session id s rs = elim (router id rs) [
  | none ↦ rs
  | some r ↦ if r.connected then put id (seed s r) rs else rs
]

unfoldable pub remove_session : ℕ → Text → Routers → Routers
remove_session id username rs = elim (router id rs) [
  | none ↦ rs
  | some r ↦ put id (drop_session username r) rs
]

unfoldable pub disconnect_session : ℕ → Text → Routers → Result Unit × Routers
disconnect_session id username rs =
    when_online id rs (λ r. (ok tt, put id (drop_session username r) rs))

unfoldable pub list_sessions :
    Floats → ℕ → ℕ → List (Text × Draw) → Routers → Result (List SimSession) × Routers
list_sessions fl id interval names rs = when_online id rs (λ r.
    let (out, left) = poll fl (rate_for r) interval names r.sessions in
    (ok out, put id (record r { sessions = left }) rs))
