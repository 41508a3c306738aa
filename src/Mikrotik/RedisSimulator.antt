-- ===== src/Mikrotik/RedisSimulator.antt =====
-- backend/internal/mikrotik/redis_simulator.go: the routers as JSON documents in Redis. A command
-- may fail like a statement of the store. encoding/json is a parameter.
pub mod Agree
pub mod Ops
pub mod Refines
use go_react_fihos.Common.{
  ℕ, ◌++◌, ◌==◌, Bool, true, false, Option, none, some, List, [], ◌∷◌, if◌then◌else◌, ltb,
}
use go_react_fihos.Common.Text.{Text, codes, text_eq, format_int}
use go_react_fihos.Common.Dict.{lookup, insert, erase}
use go_react_fihos.Store.Db.{
  Result, ok, err, Error, unknown_router, router_offline, no_hotspot, driver, Faults, Call, pure,
  raise, or_raise, raise_if, query, exec, ignore, ◌>>=◌, ◌>>◌,
}
use go_react_fihos.Service.Provider.{is_empty}
use go_react_fihos.Mikrotik.Router.{
  Floats, SimSession, SimHotspot, SimRouter, new_router, configure, boost, seed, drop_session,
  rate_for, Draw, poll,
}
use go_react_fihos.Mikrotik.Simulator.{connect}

-- `Doc` stands for the bytes of a document, which only the codec looks into.
pub record Json (Doc : Type 0) : Type 0 where
  pub marshal : SimRouter → Doc
  pub unmarshal : Doc → Option SimRouter

abbrev pub Redis : Type 0 → Type 0
Redis Doc = List (Text × Doc)

unfoldable pub key_for : ℕ → Text
key_for id = codes "fihos:sim:router:" ++ format_int id

-- The order of strings by their bytes.
abbrev pub text_leb : Text → Text → Bool
text_leb [] t = true
text_leb (a ∷ s) [] = false
text_leb (a ∷ s) (b ∷ t) = if a == b then text_leb s t else ltb a b

abbrev pub put_name : Text × Draw → List (Text × Draw) → List (Text × Draw)
put_name n [] = n ∷ []
put_name n (m ∷ names) = if text_leb n.0 m.0 then n ∷ m ∷ names else m ∷ put_name n names

-- sort.Strings(names), each name with its random numbers
unfoldable pub sort_names : List (Text × Draw) → List (Text × Draw)
sort_names [] = []
sort_names (n ∷ names) = put_name n (sort_names names)

module _ {Doc : Type 0} (json : Json Doc) where
  abbrev pub decode : Option Doc → Result SimRouter
  decode none = err unknown_router
  decode (some d) = elim (json.unmarshal d) [ none ↦ err driver | some r ↦ ok r ]

  abbrev pub lift : {A : Type 0} → Result A → Call (Redis Doc) A
  lift r fs s = (r, fs, s)

  unfoldable pub get_router : ℕ → Call (Redis Doc) SimRouter
  get_router id = do d ← query (λ s. lookup text_eq (key_for id) s); lift (decode d)

  unfoldable pub put_router : SimRouter → Call (Redis Doc) Unit
  put_router r = exec (λ s. insert text_eq (key_for r.id) (json.marshal r) s)

  -- A name that is given replaces the old one.
  abbrev pub rename : Text → SimRouter → SimRouter
  rename name r = if is_empty name then r else record r { name = name }

  abbrev pub is_unknown : Error → Bool
  is_unknown Error.unknown_router = true
  is_unknown _ = false

  -- The router to write, unless the read failed for another reason than that there is none.
  abbrev pub to_register : ℕ → Text → Result SimRouter → Option SimRouter
  to_register id name (ok r) = some r
  to_register id name (err e) = if is_unknown e then some (new_router id name) else none

  abbrev pub put_if : (SimRouter → SimRouter) → Option SimRouter → Call (Redis Doc) Unit
  put_if f none = pure tt
  put_if f (some r) = ignore (put_router (f r))

  unfoldable pub register_router : ℕ → ℕ → Text → Call (Redis Doc) Unit
  unfolding get_router put_router
  register_router now id name fs s =
      let (r, fs', s') = get_router id fs s in
      put_if (λ r. rename name (connect now r)) (to_register id name r) fs' s'

  unfoldable pub unregister_router : ℕ → Call (Redis Doc) Unit
  unregister_router id = ignore (exec (λ s. erase text_eq (key_for id) s))

  unfoldable pub reset : ℕ → Call (Redis Doc) Unit
  unfolding get_router put_router
  reset id = ignore (get_router id >>= λ r. put_router (record r { connected = false }))

  unfoldable pub probe : ℕ → ℕ → Call (Redis Doc) (Bool × ℕ)
  unfolding get_router put_router
  probe now id = do
    r ← get_router id
    ignore (put_router (record r { last_seen = now }))
    pure (r.connected, now)

  -- The two guards that most operations begin with.
  unfoldable pub online_router : ℕ → Call (Redis Doc) SimRouter
  unfolding get_router
  online_router id = do
    r ← get_router id
    raise_if (if r.connected then false else true) router_offline
    pure r

  unfoldable pub apply_hotspot_config : Floats → ℕ → Text → ℕ → ℕ → ℕ → Call (Redis Doc) Unit
  unfolding online_router put_router
  apply_hotspot_config fl id name rx tx uptime_limit = do
    r ← online_router id
    put_router (configure fl name rx tx uptime_limit r)

  unfoldable pub apply_rate_multiplier : Floats → ℕ → Text → ℕ → Call (Redis Doc) Unit
  unfolding online_router put_router
  apply_rate_multiplier fl id name multiplier = do
    r ← online_router id
    h ← or_raise (lookup text_eq name r.hotspots) no_hotspot
    put_router (boost fl name multiplier h r)

  unfoldable pub seed_session : ℕ → SimSession → Call (Redis Doc) Unit
  unfolding online_router put_router
  seed_session id s = ignore (online_router id >>= λ r. put_router (seed s r))

  unfoldable pub disconnect_session : ℕ → Text → Call (Redis Doc) Unit
  unfolding online_router put_router
  disconnect_session id username = do r ← online_router id; put_router (drop_session username r)

  -- The sessions are returned beside the error of the write; the caller looks at the error first.
  unfoldable pub list_sessions :
      Floats → ℕ → ℕ → List (Text × Draw) → Call (Redis Doc) (List SimSession)
  unfolding online_router put_router
  list_sessions fl id interval names = do
    r ← online_router id
    let (out, left) = poll fl (rate_for r) interval (sort_names names) r.sessions
    put_router (record r { sessions = left })
    pure out
