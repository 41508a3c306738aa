-- ===== src/Mikrotik/Router.antt =====
-- A simulated router of backend/internal/mikrotik/simulator.go, and what an operation does to it.
pub mod Poll
pub mod Scaled
use go_react_fihos.Common.{
  ℕ, ◌+◌, ◌%◌, ◌^◌, ◌&&◌, Bool, true, false, Option, none, some, List, [], ◌∷◌, if◌then◌else◌, ltb,
  length, map,
}
use go_react_fihos.Common.Text.{Text, text_eq}
use go_react_fihos.Common.Dict.{lookup, insert, erase}

-- What the code computes in float64. A multiplier is in hundredths, the scale of its column.
pub record Floats : Type 0 where
  -- int64(float64(rate) * multiplier)
  pub scale : ℕ → ℕ → ℕ
  -- int64(rate * intervalSec * 125 * jit), and the same times 0.28, for a random number, as bits
  pub gain_rx : ℕ → ℕ → ℕ → ℕ
  pub gain_tx : ℕ → ℕ → ℕ → ℕ

pub record SimSession : Type 0 where
  pub username : Text
  pub mac : Text
  pub ip : Text
  pub bytes_rx : ℕ
  pub bytes_tx : ℕ

pub record SimHotspot : Type 0 where
  pub name : Text
  pub base_rx : ℕ
  pub base_tx : ℕ
  pub rx_rate : ℕ
  pub tx_rate : ℕ
  pub multiplier : ℕ
  pub uptime_limit : ℕ

pub record SimRouter : Type 0 where
  pub id : ℕ
  pub name : Text
  pub connected : Bool
  pub last_seen : ℕ
  pub sessions : List (Text × SimSession)
  pub hotspots : List (Text × SimHotspot)

abbrev pub new_router : ℕ → Text → SimRouter
new_router id name = record {
  id = id;
  name = name;
  connected = false;
  last_seen = 0;
  sessions = [];
  hotspots = [];
}

abbrev pub hotspot_or_new : Text → Option SimHotspot → SimHotspot
hotspot_or_new name (some h) = h
hotspot_or_new name none = record {
  name = name;
  base_rx = 0;
  base_tx = 0;
  rx_rate = 0;
  tx_rate = 0;
  multiplier = 100;
  uptime_limit = 0;
}

abbrev pub set_config : Floats → ℕ → ℕ → ℕ → SimHotspot → SimHotspot
set_config fl rx tx uptime_limit h = record h {
  base_rx = rx;
  base_tx = tx;
  rx_rate = fl.scale rx h.multiplier;
  tx_rate = fl.scale tx h.multiplier;
  uptime_limit = uptime_limit;
}

unfoldable pub configure : Floats → Text → ℕ → ℕ → ℕ → SimRouter → SimRouter
configure fl name rx tx uptime_limit r =
    let h = hotspot_or_new name (lookup text_eq name r.hotspots) in
    record r { hotspots = insert text_eq name (set_config fl rx tx uptime_limit h) r.hotspots }

abbrev pub set_multiplier : Floats → ℕ → SimHotspot → SimHotspot
set_multiplier fl multiplier h = record h {
  multiplier = multiplier;
  rx_rate = fl.scale h.base_rx multiplier;
  tx_rate = fl.scale h.base_tx multiplier;
}

unfoldable pub boost : Floats → Text → ℕ → SimHotspot → SimRouter → SimRouter
boost fl name multiplier h r = record r {
  hotspots = insert text_eq name (set_multiplier fl multiplier h) r.hotspots;
}

abbrev pub new_session : Text → Text → Text → ℕ → ℕ → SimSession
new_session username mac ip rx tx = record {
  username = username;
  mac = mac;
  ip = ip;
  bytes_rx = rx;
  bytes_tx = tx;
}

unfoldable pub seed : SimSession → SimRouter → SimRouter
seed s r = record r { sessions = insert text_eq s.username s r.sessions }

unfoldable pub drop_session : Text → SimRouter → SimRouter
drop_session username r = record r { sessions = erase text_eq username r.sessions }

-- The largest rate of a hotspot, 1024 if there is none.
abbrev pub max_rate : List (Text × SimHotspot) → ℕ
max_rate [] = 0
max_rate ((name, h) ∷ hs) = let rest = max_rate hs in if ltb rest h.rx_rate then h.rx_rate else rest

abbrev pub rate_for : SimRouter → ℕ
rate_for r = if ltb 0 (max_rate r.hotspots) then max_rate r.hotspots else 1024

-- The random numbers of a session: the jitter, and whether the second is below 0.03.
pub record Draw : Type 0 where
  pub jitter : ℕ
  pub drops : Bool

-- An int64 is its bit pattern, below 2 ^ 64: addition wraps, and a pattern from 2 ^ 63 on is negative.
abbrev pub add64 : ℕ → ℕ → ℕ
add64 a b = (a + b) % 2 ^ 64

abbrev pub grow : Floats → ℕ → ℕ → Draw → SimSession → SimSession
grow fl rate interval d s = record s {
  bytes_rx = add64 s.bytes_rx (fl.gain_rx rate interval d.jitter);
  bytes_tx = add64 s.bytes_tx (fl.gain_tx rate interval d.jitter);
}

-- delete(r.Sessions, name), unless it is the last one
abbrev pub maybe_drop : Bool → Text → List (Text × SimSession) → List (Text × SimSession)
maybe_drop drops name ss = if drops && ltb 1 (length ss) then erase text_eq name ss else ss

-- The loop of ListSessions over the names, with the random numbers of each.
unfoldable pub poll :
    Floats
    → ℕ
    → ℕ
    → List (Text × Draw)
    → List (Text × SimSession)
    → List SimSession × List (Text × SimSession)
poll fl rate interval [] ss = ([], ss)
poll fl rate interval ((name, d) ∷ names) ss = elim (lookup text_eq name ss) [
  | none ↦ poll fl rate interval names ss
  | some s ↦
      let s' = grow fl rate interval d s in
      let (out, left) =
        poll fl rate interval names (maybe_drop d.drops name (insert text_eq name s' ss)) in
      (s' ∷ out, left)
]
