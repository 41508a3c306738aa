-- ===== src/Auth/Refresh/Rotation.antt =====
-- A refresh token against any sequence of the scripts and commands of backend/internal/handler/auth.go.
use go_react_fihos.Common.{
  ℕ, ◌+◌, ◌&&◌, ◌≤◌, ◌≡◌, false, Option, none, some, List, [], ◌∷◌, arith, All, if◌then◌else◌,
}
use go_react_fihos.Common.Text.{Text, text_eq, text_eq_iff, same_text}
use go_react_fihos.Common.Dict.{lookup, erase, lookup-insert, lookup-erase}
use go_react_fihos.Store.Db.{ok, err, Faults, fails, later}
use go_react_fihos.Auth.Refresh.{
  Keys, rotate_refresh, store_refresh, refresh_key, revoke_user_refresh_tokens, delete_keys,
  keys_of, user_prefix, is_active_key,
}

-- What a request does in Redis: a rotation, the key of a new login, a logout, the end of a user's
-- sessions.
-- The times may be any: a clock that runs, and clocks that differ.
pub data Command : Type 0 where
  rotate : ℕ → ℕ → Text → Text → Command
  login : ℕ → ℕ → ℕ → Text → Command
  logout : Text → Command
  revoke : ℕ → Command

-- Whether the command is a rotation of a key that succeeds, and what it leaves.
unfoldable pub step : Text → Command → Faults → Keys → ℕ × Faults × Keys
step k (rotate now ttl old new) fs s =
    let (r, fs', s') = rotate_refresh now ttl old new fs s in
    (elim r [ ok done ↦ if done && text_eq k old then 1 else 0 | err e ↦ 0 ], fs', s')
step k (login now ttl user_id jti) fs s =
    let (r, fs', s') = store_refresh now ttl user_id jti fs s in (0, fs', s')
step k (logout j) fs s = let (r, fs', s') = delete_keys (j ∷ []) fs s in (0, fs', s')
step k (revoke user_id) fs s =
    let (r, fs', s') = revoke_user_refresh_tokens user_id fs s in (0, fs', s')

unfoldable pub rotations : Text → List Command → Faults → Keys → ℕ
unfolding step
rotations k [] fs s = 0
rotations k (c ∷ cs) fs s =
    let (n, fs', s') = step k c fs s in let rest = rotations k cs fs' s' in n + rest

-- The command does not make the key active: a new key has another id.
abbrev pub Spares : Text → Command → Type 0
Spares k (rotate now ttl old new) = text_eq k new ≡ false
Spares k (login now ttl user_id jti) = text_eq k (refresh_key user_id jti) ≡ false
Spares k (logout j) = Unit
Spares k (revoke user_id) = Unit

-- A key that is there can be rotated once.
abbrev pub uses : Option ℕ → ℕ
uses none = 0
uses (some at) = 1

module _ (k : Text) where
  erase-uses :
      (j : Text) (s : Keys)
      → uses (lookup text_eq k (erase text_eq j s)) ≤ uses (lookup text_eq k s)
  erase-uses j s = ground (arith, lookup-erase text_eq same_text j k s)

  delete-uses :
      (js : List Text) (fs : Faults) (s : Keys)
      → uses (lookup text_eq k (delete_keys js fs s).2) ≤ uses (lookup text_eq k s)
  delete-uses [] fs s = omega arith
  delete-uses (j ∷ js) fs s =
      ground (
        arith,
        erase-uses j s,
        delete-uses js (later fs) (if fails fs then s else erase text_eq j s),
      )

  step-uses :
      (c : Command) (fs : Faults) (s : Keys)
      → Spares k c
      → let (n, fs', s') = step k c fs s in
        n + uses (lookup text_eq k s') ≤ uses (lookup text_eq k s)
  unfolding step rotate_refresh store_refresh revoke_user_refresh_tokens is_active_key
  step-uses (rotate now ttl old new) fs s h = ground (
    arith,
    h,
    text_eq_iff k old,
    lookup-insert text_eq same_text new k (now + ttl) (erase text_eq old s),
    lookup-erase text_eq same_text old k s,
  )
  step-uses (login now ttl user_id jti) fs s h =
      ground (arith, h, lookup-insert text_eq same_text (refresh_key user_id jti) k (now + ttl) s)
  step-uses (logout j) fs s h = omega (arith, delete-uses (j ∷ []) fs s)
  step-uses (revoke user_id) fs s h =
      ground (arith, delete-uses (keys_of (user_prefix user_id) s) (later fs) s)

rotations-uses :
    (k : Text) (cs : List Command) (fs : Faults) (s : Keys)
    → All (Spares k) cs
    → rotations k cs fs s ≤ uses (lookup text_eq k s)
unfolding rotations
rotations-uses k [] fs s h = omega arith
rotations-uses k (c ∷ cs) fs s (spared, h) =
    let (n, fs', s') = step k c fs s in
    omega (arith, step-uses k c fs s spared, rotations-uses k cs fs' s' h)

-- Whatever requests arrive, in whatever order and at whatever times, with any command of Redis
-- failing, none of which makes the key of a refresh token again: the token is rotated once at most,
-- and never if its key is not there.
pub rotations-once :
    (k : Text) (cs : List Command) (fs : Faults) (s : Keys)
    → All (Spares k) cs
    → rotations k cs fs s ≤ uses (lookup text_eq k s)
rotations-once k cs fs s h = rotations-uses k cs fs s h
