-- ===== src/Auth/RateLimit.antt =====
-- The rate limits of backend/internal/middleware/db.go: a counter in Redis that expires. Times are in
-- milliseconds, as Redis keeps them, and a window is in seconds.
use go_react_fihos.Common.{
  ℕ, ◌+◌, ◌-◌, ◌*◌, ◌/◌, ◌==◌, ◌≤◌, ◌<◌, ◌≡◌, ◌≢◌, ◌&&◌, refl, Option-cases, inl, inr, Bool, true,
  false, Option, none, some, List, [], ◌∷◌, ◌++◌, if◌then◌else◌, leb, ltb, arith, All,
}
use go_react_fihos.Common.Text.{Text, codes, text_eq, text_eq_iff, same_text, format_int}
use go_react_fihos.Common.Dict.{lookup, insert, lookup-insert}
use go_react_fihos.Store.Db.{ok, err, Faults, fails, later, Call}

-- A number with the time at which the key expires.
pub record Counter : Type 0 where
  pub count : ℕ
  pub expires_at : ℕ

abbrev pub Counters : Type 0
Counters = List (Text × Counter)

-- `redis.call('GET', k) or '0'`
abbrev pub value : ℕ → Option Counter → ℕ
value now none = 0
value now (some c) = if ltb now c.expires_at then c.count else 0

-- `redis.call('TTL', k)`, in seconds to the nearest: it is 0 in the last half second of a key. That
-- of a key that is not there is negative, which is below 1 as 0 is.
abbrev pub ttl : ℕ → Option Counter → ℕ
ttl now none = 0
ttl now (some c) = (c.expires_at - now + 500) / 1000

-- exp > 0
abbrev pub has_ttl : ℕ → Option Counter → Bool
has_ttl now none = false
has_ttl now (some c) = ltb now c.expires_at && ltb 0 (ttl now (some c))

abbrev pub ends_at : Option Counter → ℕ
ends_at none = 0
ends_at (some c) = c.expires_at

-- The script on the counter of its key: whether it returns 1, and the counter that it sets. A SET
-- with EX 0 is an error of the script.
unfoldable pub script : ℕ → ℕ → ℕ → Option Counter → Bool × Option Counter
script limit window now c =
    if has_ttl now c
    then if leb limit (value now c)
      then (false, c)
      else (true, some (record { count = value now c + 1; expires_at = ends_at c }))
    else if window == 0
    then (false, c)
    else (true, some (record { count = 1; expires_at = now + 1000 * window }))

abbrev pub store_counter : Text → Option Counter → Counters → Counters
store_counter k none s = s
store_counter k (some c) s = insert text_eq k c s

-- Any failure of Redis refuses the request.
unfoldable pub rate_allow : ℕ → ℕ → ℕ → Text → Call Counters Bool
rate_allow now limit window k fs s =
    let (allowed, c) = script limit window now (lookup text_eq k s) in
    (
      ok (if fails fs then false else allowed),
      later fs,
      if fails fs then s else store_counter k c s,
    )

-- Whether the request goes on; it is answered with 429 otherwise.
unfoldable pub rate_limit : ℕ → Text → ℕ → ℕ → ℕ → Call Counters Bool
unfolding rate_allow
rate_limit now key limit window uid =
    rate_allow now limit window (codes "rl:" ++ key ++ codes ":" ++ format_int uid)

unfoldable pub rate_limit_ip : ℕ → Text → ℕ → ℕ → Text → Call Counters Bool
unfolding rate_allow
rate_limit_ip now key limit window ip =
    rate_allow now limit window (codes "rl:" ++ key ++ codes ":ip:" ++ ip)

-- How many of the requests for a key, each at a time, go on.
unfoldable pub allowed : ℕ → ℕ → Text → List ℕ → Faults → Counters → ℕ
unfolding rate_allow
allowed limit window k [] fs s = 0
allowed limit window k (now ∷ times) fs s =
    let (r, fs', s') = rate_allow now limit window k fs s in
    let rest = allowed limit window k times fs' s' in
    elim r [ ok goes_on ↦ if goes_on then rest + 1 else rest | err e ↦ rest ]

-- The most that one counter lets through.
abbrev pub at_most : ℕ → ℕ
at_most limit = if limit == 0 then 1 else limit

-- What is left of a counter, which may start again half a second before it expires, until a time.
abbrev left : ℕ → ℕ → Option Counter → ℕ
left limit until none = at_most limit
left limit until (some c) =
    if ltb c.expires_at (until + 500) then (limit - c.count) + at_most limit else limit - c.count

-- A stretch of time that is half a second shorter than the window, or more.
module _ (limit window from until : ℕ) (short : until + 500 ≤ from + 1000 * window) where
  step-left :
      (now : ℕ) (c : Option Counter)
      → from ≤ now
      → now < until
      → let (goes_on, c') = script limit window now c in
        left limit until c' + (if goes_on then 1 else 0) ≤ left limit until c
  unfolding script
  step-left now none h k = ground (arith, short)
  step-left now (some c) h k = ground (arith, short)

  stored :
      (k : Text) (c : Option Counter) (s : Counters)
      → lookup text_eq k (store_counter k c s)
        ≡ (elim c [ none ↦ lookup text_eq k s | some x ↦ some x ])
  stored k none s = refl
  stored k (some c) s = ground (arith, text_eq_iff k k, lookup-insert text_eq same_text k k c s)

  -- No counter is dropped.
  script-some : (now : ℕ) (c : Counter) → (script limit window now (some c)).1 ≢ none
  unfolding script
  script-some now c = ground arith

  rate_allow-left :
      (now : ℕ) (k : Text) (fs : Faults) (s : Counters)
      → from ≤ now
      → now < until
      → let (r, fs', s') = rate_allow now limit window k fs s in
        left limit until (lookup text_eq k s')
          + (elim r [ ok goes_on ↦ if goes_on then 1 else 0 | err e ↦ 0 ])
        ≤ left limit until (lookup text_eq k s)
  unfolding rate_allow
  rate_allow-left now k fs s h l = elim (Option-cases (lookup text_eq k s)) [
    | inl e ↦ ground (arith, e, step-left now none h l, stored k (script limit window now none).1 s)
    | inr (c, e) ↦ ground (
      arith,
      e,
      step-left now (some c) h l,
      script-some now c,
      stored k (script limit window now (some c)).1 s,
    )
  ]

  allowed-left :
      (k : Text) (times : List ℕ) (fs : Faults) (s : Counters)
      → All (λ now. (from ≤ now) × (now < until)) times
      → allowed limit window k times fs s ≤ left limit until (lookup text_eq k s)
  unfolding allowed
  allowed-left k [] fs s h = omega arith
  allowed-left k (now ∷ times) fs s (now_in, h) =
      let (r, fs', s') = rate_allow now limit window k fs s in
      ground (arith, rate_allow-left now k fs s now_in.0 now_in.1, allowed-left k times fs' s' h)

-- The most requests that go on in a window, by the counter that there is before.
abbrev pub bound_after : ℕ → Option Counter → ℕ
bound_after limit none = at_most limit
bound_after limit (some c) = 2 * at_most limit

left-le : (limit until : ℕ) (c : Option Counter) → left limit until c ≤ bound_after limit c
left-le limit until none = ground arith
left-le limit until (some c) = ground arith

-- In any stretch of time that is shorter than the window by half a second or more, and whatever Redis commands fail, at most the
-- limit of requests for a key go on (1 where it is 0) if the key has no counter before, and at most
-- twice as many otherwise.
pub allowed-bounded :
    (limit window from until : ℕ) (k : Text) (times : List ℕ) (fs : Faults) (s : Counters)
    → until + 500 ≤ from + 1000 * window
    → All (λ now. (from ≤ now) × (now < until)) times
    → allowed limit window k times fs s ≤ bound_after limit (lookup text_eq k s)
allowed-bounded limit window from until k times fs s short h = omega (
  arith,
  allowed-left limit window from until short k times fs s h,
  left-le limit until (lookup text_eq k s),
)
