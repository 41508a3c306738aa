-- ===== src/Mikrotik/RedisSimulator/Refines.antt =====
-- backend/internal/mikrotik/redis_simulator.go against simulator.go, operation by operation.
use mathlib.Core.Path.{sym, ◌∙◌}
use go_react_fihos.Common.{
  ℕ, ◌≡◌, refl, ap, false, none, some, List, [], ◌∷◌, arith, inl, inr, ◌⊎◌, Bool-cases,
}
use go_react_fihos.Common.Text.{Text, text_eq}
use go_react_fihos.Common.Dict.{lookup, insert}
use go_react_fihos.Store.Db.{Result, ok, err, unknown_router, fails, later}
use go_react_fihos.Service.Provider.{is_empty}
use go_react_fihos.Mikrotik.Router.{
  Floats, SimRouter, SimSession, Draw, configure, boost, seed, drop_session, poll, rate_for,
  new_router,
}
use go_react_fihos.Mikrotik.Simulator.{Routers, router, put, connect, found_or_new}
use go_react_fihos.Mikrotik.Simulator
use go_react_fihos.Mikrotik.RedisSimulator.{
  Json, Redis, key_for, decode, get_router, put_router, online_router, rename, sort_names,
}
use go_react_fihos.Mikrotik.RedisSimulator
use go_react_fihos.Mikrotik.RedisSimulator.Agree.{
  Agree, sides, nameless, document, put-Agree, erase-Agree,
}
use go_react_fihos.Mikrotik.RedisSimulator.Ops.{
  Op, register, unregister, reset, probe, configure_hotspot, multiply, seed_one, disconnect, list,
  Reply, run_memory, run_redis, memory_replies, redis_replies,
}

module _ {Doc : Type 0} (json : Json Doc)
    (law : (r : SimRouter) → json.unmarshal (json.marshal r) ≡ some r) (rs : Routers)
    (s : Redis Doc) (h : Agree json rs s) where
  carried :
      {ps qs : Routers} {t u : Redis Doc} → ps ≡ qs → t ≡ u → Agree json qs u → Agree json ps t
  carried e f k = rw e (rw f k)

  -- What two runs leave, where a router is there: nothing changes, or the same change is written.
  abbrev pub Both :
      ℕ
      → (SimRouter → SimRouter)
      → (SimRouter → SimRouter)
      → Result Reply × Routers
      → Result Reply × Redis Doc
      → SimRouter
      → SimRouter
      → Type 0
  Both id f g m t r r' =
      (t.0 ≡ m.0)
      × (((m.1 ≡ rs) × (t.1 ≡ s))
          ⊎ ((m.1 ≡ put id (f r) rs)
              × (t.1 ≡ insert text_eq (key_for (g r').id) (json.marshal (g r')) s)))

  abbrev pub Matches : Result Reply × Routers → Result Reply × Redis Doc → Type 0
  Matches m t = (t.0 ≡ m.0) × Agree json m.1 t.1

  matches :
      (id : ℕ) (f g : SimRouter → SimRouter) (m : Result Reply × Routers)
      (t : Result Reply × Redis Doc)
      → ((r : SimRouter) → (g r).id ≡ r.id)
      → ((r r' : SimRouter) → nameless r ≡ nameless r' → nameless (f r) ≡ nameless (g r'))
      → (router id rs ≡ none
          → document json id s ≡ err unknown_router
          → (t.0 ≡ m.0) × (m.1 ≡ rs) × (t.1 ≡ s))
      → ((r r' : SimRouter)
          → router id rs ≡ some r
          → document json id s ≡ ok r'
          → nameless r ≡ nameless r'
          → Both id f g m t r r')
      → Matches m t
  matches id f g m t same_id natural gone there = elim (sides json rs s h id) [
    | inl (a, b) ↦ let (e, p, q) = gone a b in (e, carried p q h)
    | inr (r, r', a, b, alike, own) ↦
        let both = there r r' a b alike in
        (
          both.0,
          elim (both.1) [
            | inl (p, q) ↦ carried p q h
            | inr (p, q) ↦
                carried p q (
                  put-Agree json rs s h law id (f r) (g r') (natural r r' alike) (same_id r' ∙ own))
          ],
        )
  ]

  reset-Matches :
      (fl : Floats) (id : ℕ)
      → Matches (run_memory fl (reset id) rs) (run_redis json fl (reset id) s)
  unfolding Simulator.reset RedisSimulator.reset get_router put_router fails later
  reset-Matches fl id =
      matches id (λ r. record r { connected = false }) (λ r. record r { connected = false }) _ _
        (λ r. refl) (λ r r' e. (ap {A = SimRouter} (λ r. record r { connected = false }) e))
        (λ a b. ground (arith, a, b)) (λ r r' a b e. (ground (arith, a, b)))

  probe-Matches :
      (fl : Floats) (now id : ℕ)
      → Matches (run_memory fl (probe now id) rs) (run_redis json fl (probe now id) s)
  unfolding Simulator.probe RedisSimulator.probe get_router put_router fails later
  probe-Matches fl now id =
      matches id (λ r. record r { last_seen = now }) (λ r. record r { last_seen = now }) _ _
        (λ r. refl) (λ r r' e. ap {A = SimRouter} (λ r. record r { last_seen = now }) e)
        (λ a b. (ground (arith, a, b)))
        (λ r r' a b e. (ground (arith, a, b, ap (λ (q : SimRouter). q.connected) e)))

  configure-Matches :
      (fl : Floats) (id : ℕ) (name : Text) (rx tx limit : ℕ)
      → Matches
          (run_memory fl (configure_hotspot id name rx tx limit) rs)
          (run_redis json fl (configure_hotspot id name rx tx limit) s)
  unfolding Simulator.apply_hotspot_config RedisSimulator.apply_hotspot_config online_router
      get_router put_router configure fails later
  configure-Matches fl id name rx tx limit =
      matches id (configure fl name rx tx limit) (configure fl name rx tx limit) _ _ (λ r. refl)
        (λ r r' e. ap {A = SimRouter} (configure fl name rx tx limit) e)
        (λ a b. ground (arith, a, b))
        (λ r r' a b e. (ground (arith, a, b, ap (λ (q : SimRouter). q.connected) e)))

  -- The multiplier of a hotspot that is configured already.
  abbrev multiplied : Floats → Text → ℕ → SimRouter → SimRouter
  multiplied fl name m r = record r {
    hotspots = elim (lookup text_eq name r.hotspots) [
      | none ↦ r.hotspots
      | some h ↦ (boost fl name m h r).hotspots
    ];
  }

  multiply-Matches :
      (fl : Floats) (id : ℕ) (name : Text) (m : ℕ)
      → Matches (run_memory fl (multiply id name m) rs) (run_redis json fl (multiply id name m) s)
  unfolding Simulator.apply_rate_multiplier RedisSimulator.apply_rate_multiplier online_router
      get_router put_router boost fails later
  multiply-Matches fl id name m =
      matches id (multiplied fl name m) (multiplied fl name m) _ _ (λ r. refl)
        (λ r r' e. ap {A = SimRouter} (multiplied fl name m) e) (λ a b. ground (arith, a, b))
        (λ r r' a b e.
          (ground (
            arith,
            a,
            b,
            ap (λ (q : SimRouter). q.connected) e,
            ap (λ (q : SimRouter). q.hotspots) e,
          )))

  seed-Matches :
      (fl : Floats) (id : ℕ) (x : SimSession)
      → Matches (run_memory fl (seed_one id x) rs) (run_redis json fl (seed_one id x) s)
  unfolding Simulator.seed_session RedisSimulator.seed_session online_router get_router put_router
      seed fails later
  seed-Matches fl id x =
      matches id (seed x) (seed x) _ _ (λ r. refl) (λ r r' e. ap {A = SimRouter} (seed x) e)
        (λ a b. ground (arith, a, b))
        (λ r r' a b e. (ground (arith, a, b, ap (λ (q : SimRouter). q.connected) e)))

  disconnect-Matches :
      (fl : Floats) (id : ℕ) (u : Text)
      → Matches (run_memory fl (disconnect id u) rs) (run_redis json fl (disconnect id u) s)
  unfolding Simulator.disconnect_session RedisSimulator.disconnect_session online_router get_router
      put_router drop_session fails later
  disconnect-Matches fl id u =
      matches id (drop_session u) (drop_session u) _ _ (λ r. refl)
        (λ r r' e. ap {A = SimRouter} (drop_session u) e) (λ a b. ground (arith, a, b))
        (λ r r' a b e. (ground (arith, a, b, ap (λ (q : SimRouter). q.connected) e)))

  abbrev polled : Floats → ℕ → List (Text × Draw) → SimRouter → SimRouter
  polled fl interval names r = record r {
    sessions = (poll fl (rate_for r) interval names r.sessions).1;
  }

  list-Matches :
      (fl : Floats) (id interval : ℕ) (names : List (Text × Draw))
      → Matches
          (run_memory fl (list id interval names) rs)
          (run_redis json fl (list id interval names) s)
  unfolding Simulator.list_sessions RedisSimulator.list_sessions online_router get_router put_router
      fails later
  list-Matches fl id interval names =
      matches id (polled fl interval (sort_names names)) (polled fl interval (sort_names names)) _ _
        (λ r. refl) (λ r r' e. ap {A = SimRouter} (polled fl interval (sort_names names)) e)
        (λ a b. ground (arith, a, b))
        (λ r r' a b e.
          (ground (
            arith,
            a,
            b,
            ap (λ (q : SimRouter). q.connected) e,
            ap {A = SimRouter}
                (λ q. (poll fl (rate_for q) interval (sort_names names) q.sessions).0) e,
          )))

  nameless-rename : (name : Text) (r : SimRouter) → nameless (rename json name r) ≡ nameless r
  nameless-rename name r = elim (Bool-cases (is_empty name)) [
    | inl t ↦ (ground (arith, t))
    | inr t ↦ (ground (arith, t))
  ]

  id-rename : (name : Text) (r : SimRouter) → (rename json name r).id ≡ r.id
  id-rename name r = ground arith

  register-Matches :
      (fl : Floats) (now id : ℕ) (name : Text)
      → Matches
          (run_memory fl (register now id name) rs)
          (run_redis json fl (register now id name) s)
  unfolding Simulator.register_router RedisSimulator.register_router get_router put_router fails
      later
  register-Matches fl now id name = (
    refl,
    elim (sides json rs s h id) [
      | inl (a, b) ↦
          let r = connect now (new_router id name) in
          carried (ground (arith, a)) (ground (arith, b)) (
            put-Agree json rs s h law id r (rename json name r) (sym (nameless-rename name r))
              (id-rename name r))
      | inr (r, r', a, b, alike, own) ↦ carried (ground (arith, a)) (ground (arith, b)) (
          put-Agree json rs s h law id (connect now r) (rename json name (connect now r'))
            (ap {A = SimRouter} (connect now) alike ∙ sym (nameless-rename name (connect now r')))
            (id-rename name (connect now r') ∙ own))
    ],
  )

  unregister-Matches :
      (fl : Floats) (id : ℕ)
      → Matches (run_memory fl (unregister id) rs) (run_redis json fl (unregister id) s)
  unfolding Simulator.unregister_router RedisSimulator.unregister_router fails later
  unregister-Matches fl id = (refl, erase-Agree json rs s h id)

  op-Matches : (fl : Floats) (op : Op) → Matches (run_memory fl op rs) (run_redis json fl op s)
  op-Matches fl (register now id name) = register-Matches fl now id name
  op-Matches fl (unregister id) = unregister-Matches fl id
  op-Matches fl (reset id) = reset-Matches fl id
  op-Matches fl (probe now id) = probe-Matches fl now id
  op-Matches fl (configure_hotspot id name rx tx limit) = configure-Matches fl id name rx tx limit
  op-Matches fl (multiply id name m) = multiply-Matches fl id name m
  op-Matches fl (seed_one id x) = seed-Matches fl id x
  op-Matches fl (disconnect id u) = disconnect-Matches fl id u
  op-Matches fl (list id interval names) = list-Matches fl id interval names

-- If JSON gives back the routers that it was made from, and Redis answers every command, any
-- sequence of operations gets the same replies from the two simulators, from states that hold the
-- same routers up to their names.
pub same_replies :
    {Doc : Type 0} (json : Json Doc)
    → ((r : SimRouter) → json.unmarshal (json.marshal r) ≡ some r)
    → (fl : Floats) (ops : List Op) (rs : Routers) (s : Redis Doc) → Agree json rs s
    → redis_replies json fl ops s ≡ memory_replies fl ops rs
same_replies json law fl [] rs s h = refl
same_replies json law fl (op ∷ ops) rs s h =
    let (e, k) = op-Matches json law rs s h fl op in
    ap {A = Result Reply} (λ r. r ∷ redis_replies json fl ops (run_redis json fl op s).1) e
    ∙ ap {A = List (Result Reply)} (λ rest. (run_memory fl op rs).0 ∷ rest)
        (same_replies json law fl ops (run_memory fl op rs).1 (run_redis json fl op s).1 k)
