-- ===== src/Mikrotik/Tests.antt =====
-- Runs of backend/internal/mikrotik, and the theorems at concrete inputs.
use go_react_fihos.Common.{◌*◌, ◌/◌, ◌≤◌, ◌≡◌, refl, true, some, List, [], ◌∷◌, arith, length}
use go_react_fihos.Common.Text.{codes}
use go_react_fihos.Store.Db.{err, no_hotspot}
use go_react_fihos.Mikrotik.Router.{Floats, SimRouter, new_session, Draw, poll}
use go_react_fihos.Mikrotik.Router.Poll.{Sessions, poll-nonempty}
use go_react_fihos.Mikrotik.Router.Scaled.{
  AllScaled, here, next, registered, configured, boosted, Reach-AllScaled,
}
use go_react_fihos.Mikrotik.RedisSimulator.{Json}
use go_react_fihos.Mikrotik.RedisSimulator.Agree.{Agree}
use go_react_fihos.Mikrotik.RedisSimulator.Refines.{same_replies}
use go_react_fihos.Mikrotik.RedisSimulator.Ops.{
  Op, register, configure_hotspot, seed_one, list, disconnect, redis_replies, memory_replies,
}
use go_react_fihos.Mikrotik.Simulator.{register_router, apply_hotspot_config, apply_rate_multiplier}

-- Exact arithmetic, without jitter.
abbrev exact : Floats
exact = record {
  scale = λ rate multiplier. rate * multiplier / 100;
  gain_rx = λ rate interval jitter. rate * interval * 125;
  gain_tx = λ rate interval jitter. rate * interval * 35;
}

abbrev two_sessions : Sessions
two_sessions =
    (codes "5-ab", new_session (codes "5-ab") [] [] 100 10)
    ∷ (codes "5-cd", new_session (codes "5-cd") [] [] 0 0)
    ∷ []

abbrev both_drop : Draw
both_drop = record { jitter = 0; drops = true }

-- Both are drawn to be dropped, and the second stays because it is the last.
last_stays :
    length
      (poll exact 8 60 ((codes "5-ab", both_drop) ∷ (codes "5-cd", both_drop) ∷ []) two_sessions).1
    ≡ 1
unfolding poll
last_stays = refl

poll-nonempty_example :
    1
    ≤ length
        (poll exact 8 60
          ((codes "5-ab", both_drop) ∷ (codes "5-cd", both_drop) ∷ [])
          two_sessions).1
poll-nonempty_example =
    poll-nonempty exact 8 60 ((codes "5-ab", both_drop) ∷ (codes "5-cd", both_drop) ∷ [])
      two_sessions (omega arith)

-- A hotspot that is not configured cannot be boosted.
unconfigured :
    (apply_rate_multiplier exact 1 (codes "h") 150 (register_router 9 1 (codes "r") [])).0
    ≡ err no_hotspot
unfolding apply_rate_multiplier register_router
unconfigured = refl

Reach-AllScaled_example :
    AllScaled exact
      (apply_rate_multiplier exact 1
        (codes "h")
        150
        (apply_hotspot_config exact 1
          (codes "h")
          2000
          1000
          60
          (register_router 9 1 (codes "r") [])).1).1
Reach-AllScaled_example = Reach-AllScaled exact (
    next (next (next here (registered 9 1 (codes "r"))) (configured 1 (codes "h") 2000 1000 60))
      (boosted 1 (codes "h") 150))

-- A codec that keeps the router as it is.
abbrev kept : Json SimRouter
kept = record { marshal = λ r. r; unmarshal = λ r. some r }

abbrev calls : List Op
calls =
    register 9 1 (codes "r")
    ∷ configure_hotspot 1 (codes "h") 2000 1000 60
    ∷ seed_one 1 (new_session (codes "5-ab") [] [] 0 0)
    ∷ seed_one 1 (new_session (codes "5-Cd") [] [] 0 0)
    ∷ list 1 60 ((codes "5-ab", both_drop) ∷ (codes "5-Cd", both_drop) ∷ [])
    ∷ disconnect 2 (codes "5-ab")
    ∷ []

no_routers : Agree kept [] []
no_routers = record { same = λ id. refl; ids = λ id r e. ground arith }

same_replies_example : redis_replies kept exact calls [] ≡ memory_replies exact calls []
same_replies_example = same_replies kept (λ r. refl) exact calls [] [] no_routers
