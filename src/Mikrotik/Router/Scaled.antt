-- ===== src/Mikrotik/Router/Scaled.antt =====
-- The rates of a simulated hotspot against its configuration (backend/internal/mikrotik/simulator.go).
use mathlib.Core.Path.{subst}
use go_react_fihos.Store.Sql.{some-inj}
use go_react_fihos.Common.{
  ℕ, ◌==◌, ◌≡◌, refl, Bool, false, none, some, List, [], ◌∷◌, arith, All, Option-cases, Bool-cases,
  inl, inr, ◌⊎◌,
}
use go_react_fihos.Common.Text.{Text, text_eq}
use go_react_fihos.Common.Dict.{lookup, erase}
use go_react_fihos.Mikrotik.Router.{
  Floats, poll, rate_for, SimSession, SimHotspot, SimRouter, Draw, configure, boost, seed,
  drop_session,
}
use go_react_fihos.Mikrotik.Simulator.{
  Routers, router, put, found_or_new, connect, register_router, unregister_router, reset, probe,
  apply_hotspot_config, apply_rate_multiplier, seed_session, remove_session, disconnect_session,
  list_sessions,
}

module _ {K V : Type 0} (P : V → Type 0) (same : K → K → Bool) where
  All-erase : (k : K) (d : List (K × V)) → All (λ e. P e.1) d → All (λ e. P e.1) (erase same k d)
  All-erase k [] h = tt
  All-erase k ((j, v) ∷ d) h = elim (Bool-cases (same k j)) [
    | inl t ↦ rw t (All-erase k d h.1)
    | inr t ↦ rw t (h.0, All-erase k d h.1)
  ]

  All-lookup :
      (k : K) (v : V) (d : List (K × V)) → All (λ e. P e.1) d → lookup same k d ≡ some v → P v
  All-lookup k v [] h e = cc
  All-lookup k v ((j, w) ∷ d) h e = elim (Bool-cases (same k j)) [
    | inl t ↦ subst P (some-inj (rw t at e)) h.0
    | inr t ↦ All-lookup k v d h.1 (rw t at e)
  ]

module _ (fl : Floats) where
  abbrev pub Follows : SimHotspot → Type 0
  Follows h =
      (h.rx_rate ≡ fl.scale h.base_rx h.multiplier) × (h.tx_rate ≡ fl.scale h.base_tx h.multiplier)

  abbrev pub IsScaled : SimRouter → Type 0
  IsScaled r = All (λ e. Follows e.1) r.hotspots

  configure-IsScaled :
      (name : Text) (rx tx limit : ℕ) (r : SimRouter)
      → IsScaled r
      → IsScaled (configure fl name rx tx limit r)
  unfolding configure
  configure-IsScaled name rx tx limit r h =
      ((refl, refl), All-erase Follows text_eq name r.hotspots h)

  boost-IsScaled :
      (name : Text) (m : ℕ) (sh : SimHotspot) (r : SimRouter)
      → IsScaled r
      → IsScaled (boost fl name m sh r)
  unfolding boost
  boost-IsScaled name m sh r h = ((refl, refl), All-erase Follows text_eq name r.hotspots h)

  -- Every hotspot of every router has the rates that its configuration and multiplier give.
  abbrev pub AllScaled : Routers → Type 0
  AllScaled rs = All (λ e. IsScaled e.1) rs

  put-AllScaled :
      (id : ℕ) (r : SimRouter) (rs : Routers) → IsScaled r → AllScaled rs → AllScaled (put id r rs)
  put-AllScaled id r rs h k = (h, All-erase IsScaled ◌==◌ id rs k)

  -- The operations of the simulator.
  pub data Step (rs : Routers) : Routers → Type 0 where
    registered : (now id : ℕ) (name : Text) → Step rs (register_router now id name rs)
    unregistered : (id : ℕ) → Step rs (unregister_router id rs)
    stopped : (id : ℕ) → Step rs (reset id rs)
    probed : (now id : ℕ) → Step rs (probe now id rs).1
    configured :
        (id : ℕ) (name : Text) (rx tx limit : ℕ)
        → Step rs (apply_hotspot_config fl id name rx tx limit rs).1
    boosted : (id : ℕ) (name : Text) (m : ℕ) → Step rs (apply_rate_multiplier fl id name m rs).1
    seeded : (id : ℕ) (s : SimSession) → Step rs (seed_session id s rs)
    removed : (id : ℕ) (username : Text) → Step rs (remove_session id username rs)
    disconnected : (id : ℕ) (username : Text) → Step rs (disconnect_session id username rs).1
    listed :
        (id interval : ℕ) (names : List (Text × Draw))
        → Step rs (list_sessions fl id interval names rs).1

  pub data Reach (rs : Routers) : Routers → Type 0 where
    here : Reach rs rs
    next : {qs ps : Routers} → Reach rs qs → Step qs ps → Reach rs ps

  found_or_new-IsScaled :
      (id : ℕ) (name : Text) (rs : Routers)
      → AllScaled rs
      → IsScaled (found_or_new id name (router id rs))
  found_or_new-IsScaled id name rs h = elim (Option-cases (router id rs)) [
    | inl e ↦ rw e tt
    | inr (r, e) ↦ rw e (All-lookup IsScaled ◌==◌ id r rs h e)
  ]

  -- What an operation makes of the router that it finds.
  abbrev Rewrites : ℕ → Routers → Routers → Type 0
  Rewrites id rs rs' =
      (rs' ≡ rs)
      ⊎ ((r : SimRouter) × (r' : SimRouter) × (router id rs ≡ some r)
          × (rs' ≡ put id r' rs)
          × (IsScaled r → IsScaled r'))

  Rewrites-AllScaled :
      (id : ℕ) (rs rs' : Routers) → Rewrites id rs rs' → AllScaled rs → AllScaled rs'
  Rewrites-AllScaled id rs rs' (inl same) h = rw same h
  Rewrites-AllScaled id rs rs' (inr (r, r', e, post, keeps)) h =
      rw post (put-AllScaled id r' rs (keeps (All-lookup IsScaled ◌==◌ id r rs h e)) h)

  module _ (id : ℕ) (rs : Routers) where
    -- An operation that leaves the routers alone, or rewrites the one that it finds.
    changes :
        (rs' : Routers) (f : SimRouter → SimRouter)
        → (router id rs ≡ none → rs' ≡ rs)
        → ((r : SimRouter) → router id rs ≡ some r → (rs' ≡ rs) ⊎ (rs' ≡ put id (f r) rs))
        → ((r : SimRouter) → IsScaled r → IsScaled (f r))
        → AllScaled rs
        → AllScaled rs'
    changes rs' f gone there keeps h = elim (Option-cases (router id rs)) [
      | inl e ↦ rw (gone e) h
      | inr (r, e) ↦ elim (there r e) [
        | inl same ↦ rw same h
        | inr post ↦
            rw post (put-AllScaled id (f r) rs (keeps r (All-lookup IsScaled ◌==◌ id r rs h e)) h)
      ]
    ]

    reset-AllScaled : AllScaled rs → AllScaled (reset id rs)
    unfolding reset
    reset-AllScaled =
        changes (reset id rs) (λ r. record r { connected = false }) (λ e. (ground (arith, e)))
          (λ r e. inr (ground (arith, e))) (λ r k. k)

    probe-AllScaled : (now : ℕ) → AllScaled rs → AllScaled (probe now id rs).1
    unfolding probe
    probe-AllScaled now =
        changes (probe now id rs).1 (λ r. record r { last_seen = now }) (λ e. ground (arith, e))
          (λ r e. inr (ground (arith, e))) (λ r k. k)

    config-AllScaled :
        (name : Text) (rx tx limit : ℕ)
        → AllScaled rs
        → AllScaled (apply_hotspot_config fl id name rx tx limit rs).1
    unfolding apply_hotspot_config
    config-AllScaled name rx tx limit =
        changes (apply_hotspot_config fl id name rx tx limit rs).1 (configure fl name rx tx limit)
          (λ e. ground (arith, e)) (λ r e. (ground (arith, e)))
          (configure-IsScaled name rx tx limit)

    -- ApplyRateMultiplier writes a hotspot that is configured already.
    abbrev boost_if_there : Text → ℕ → SimRouter → SimRouter
    boost_if_there name m r = elim (lookup text_eq name r.hotspots) [
      | none ↦ r
      | some h ↦ boost fl name m h r
    ]

    boost_if_there-IsScaled :
        (name : Text) (m : ℕ) (r : SimRouter) → IsScaled r → IsScaled (boost_if_there name m r)
    boost_if_there-IsScaled name m r k = elim (Option-cases (lookup text_eq name r.hotspots)) [
      | inl e ↦ rw (e, boost_if_there) k
      | inr (h, e) ↦ rw (e, boost_if_there) (boost-IsScaled name m h r k)
    ]

    boost-AllScaled :
        (name : Text) (m : ℕ) → AllScaled rs → AllScaled (apply_rate_multiplier fl id name m rs).1
    unfolding apply_rate_multiplier
    boost-AllScaled name m =
        changes (apply_rate_multiplier fl id name m rs).1 (boost_if_there name m)
          (λ e. ground (arith, e)) (λ r e. ground (arith, e)) (boost_if_there-IsScaled name m)

    seed-AllScaled : (s : SimSession) → AllScaled rs → AllScaled (seed_session id s rs)
    unfolding seed_session
    seed-AllScaled s =
        changes (seed_session id s rs) (seed s) (λ e. ground (arith, e)) (λ r e. ground (arith, e))
          (λ r k. unfold seed in k)

    remove-AllScaled : (u : Text) → AllScaled rs → AllScaled (remove_session id u rs)
    unfolding remove_session
    remove-AllScaled u =
        changes (remove_session id u rs) (drop_session u) (λ e. ground (arith, e))
          (λ r e. ground (arith, e)) (λ r k. unfold drop_session in k)

    disconnect-AllScaled : (u : Text) → AllScaled rs → AllScaled (disconnect_session id u rs).1
    unfolding disconnect_session
    disconnect-AllScaled u =
        changes (disconnect_session id u rs).1 (drop_session u) (λ e. ground (arith, e))
          (λ r e. ground (arith, e)) (λ r k. unfold drop_session in k)

    list-AllScaled :
        (interval : ℕ) (names : List (Text × Draw))
        → AllScaled rs
        → AllScaled (list_sessions fl id interval names rs).1
    unfolding list_sessions
    list-AllScaled interval names =
        changes (list_sessions fl id interval names rs).1
          (λ r. record r { sessions = (poll fl (rate_for r) interval names r.sessions).1 })
          (λ e. ground (arith, e)) (λ r e. ground (arith, e)) (λ r k. k)

    register-AllScaled :
        (now : ℕ) (name : Text) → AllScaled rs → AllScaled (register_router now id name rs)
    unfolding register_router
    register-AllScaled now name h =
        put-AllScaled id (connect now (found_or_new id name (router id rs))) rs
          (found_or_new-IsScaled id name rs h) h

    unregister-AllScaled : AllScaled rs → AllScaled (unregister_router id rs)
    unfolding unregister_router
    unregister-AllScaled h = All-erase IsScaled ◌==◌ id rs h

  Step-AllScaled : {rs qs : Routers} → Step rs qs → AllScaled rs → AllScaled qs
  Step-AllScaled {rs} (registered now id name) h = register-AllScaled id rs now name h
  Step-AllScaled {rs} (unregistered id) h = unregister-AllScaled id rs h
  Step-AllScaled {rs} (stopped id) h = reset-AllScaled id rs h
  Step-AllScaled {rs} (probed now id) h = probe-AllScaled id rs now h
  Step-AllScaled {rs} (configured id name rx tx limit) h = config-AllScaled id rs name rx tx limit h
  Step-AllScaled {rs} (boosted id name m) h = boost-AllScaled id rs name m h
  Step-AllScaled {rs} (seeded id s) h = seed-AllScaled id rs s h
  Step-AllScaled {rs} (removed id u) h = remove-AllScaled id rs u h
  Step-AllScaled {rs} (disconnected id u) h = disconnect-AllScaled id rs u h
  Step-AllScaled {rs} (listed id interval names) h = list-AllScaled id rs interval names h

  -- In every state that the operations of the simulator lead to from an empty one, each hotspot
  -- has the rates that its base rates and its multiplier give.
  pub Reach-AllScaled : {rs : Routers} → Reach [] rs → AllScaled rs
  Reach-AllScaled here = tt
  Reach-AllScaled (next r st) = Step-AllScaled st (Reach-AllScaled r)
