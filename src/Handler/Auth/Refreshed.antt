-- ===== src/Handler/Auth/Refreshed.antt =====
-- What a refresh in backend/internal/handler/auth.go takes and leaves.
use go_react_fihos.Common.{
  ℕ, ◌+◌, ◌≡◌, refl, ap, if◌then◌else◌, Bool, true, false, not, Option, none, some, arith,
  Bool-cases, inl, inr,
}
use go_react_fihos.Common.Text.{Text}
use go_react_fihos.Common.Dict.{insert, erase}
use go_react_fihos.Common.Text.{text_eq}
use go_react_fihos.Store.Db.{Result, ok, err, Faults, or_raise, fails, later, not_found, driver}
use go_react_fihos.Store.Sql.{select_row}
use go_react_fihos.Store.World.{on_db, on_outside}
use go_react_fihos.Store.Accounts.{User, Tenant}
use go_react_fihos.Store.Users.{user_by_id, user_key}
use go_react_fihos.Store.Tenants.{tenant_by_id}
use go_react_fihos.Auth.Service.{issue, Checked, RefreshInfo, verify_refresh, TokenPair}
use go_react_fihos.Auth.Refresh.{refresh_key, rotate_refresh, is_active_key}
use go_react_fihos.Handler.{Reply, replied, refused, stop_if, tenant_suspended, on, internal}
use go_react_fihos.Handler.Auth.{
  Env, State, rotate, refresh, post_refresh, issue_for, rotated_or_revoked, is_suspended,
  with_tenant, refresh_error, invalid_grant,
}

-- A refresh writes nothing in the database. A pair is answered only if the old key was active, which
-- the new one has then replaced.
abbrev pub Rotates : Env → User → Text → State → Reply TokenPair → State → Type 0
Rotates env u jti w (replied status pair) w' =
    (is_active_key env.now (refresh_key u.id jti) w.outside ≡ true)
    × (w' ≡ record w {
      outside =
          insert text_eq (refresh_key u.id env.refresh_jti) (env.now + env.service.refresh_ttl)
            (erase text_eq (refresh_key u.id jti) w.outside);
    })
Rotates env u jti w (refused status code) w' = w'.db ≡ w.db

module _ (env : Env) (u : User) (jti : Text) where
  issue-jti :
      (fs : Faults) (w : State) (p : TokenPair × Text)
      → (issue_for env u fs w).0 ≡ ok p
      → p.1 ≡ env.refresh_jti
  unfolding issue
  issue-jti fs w p e = ground (arith, e)

  -- The script, and what follows it.
  script-Rotates :
      (pair : TokenPair) (new : Text) (fs : Faults) (w : State)
      → new ≡ env.refresh_jti
      → let (r, fs', w') =
          on
            (on_outside (
              rotate_refresh env.now env.service.refresh_ttl
                (refresh_key u.id jti)
                (refresh_key u.id new)))
            internal
            (rotated_or_revoked u pair)
            fs
            w in
        Rotates env u jti w r w'
  unfolding rotate_refresh
  script-Rotates pair new fs w e = ground (arith, e)

  pair-Rotates :
      (r : Result (TokenPair × Text)) (fs : Faults) (w : State)
      → ((p : TokenPair × Text) → r ≡ ok p → p.1 ≡ env.refresh_jti)
      → let (s, fs', w') =
          on
            (λ gs v. (r, gs, v))
            internal
            (λ p.
              on
                (on_outside (
                  rotate_refresh env.now env.service.refresh_ttl
                    (refresh_key u.id jti)
                    (refresh_key u.id p.1)))
                internal
                (rotated_or_revoked u p.0))
            fs
            w in
        Rotates env u jti w s w'
  pair-Rotates (ok p) fs w h = script-Rotates p.0 p.1 fs w (h p refl)
  pair-Rotates (err e) fs w h = refl

  rotate-Rotates :
      (fs : Faults) (w : State)
      → let (r, fs', w') = rotate env u jti fs w in Rotates env u jti w r w'
  unfolding rotate
  rotate-Rotates fs w = pair-Rotates (issue_for env u fs w).0 fs w (issue-jti fs w)

  tenant_read-Rotates :
      (r : Result Tenant) (fs : Faults) (w v : State)
      → v ≡ w
      → let (s, fs', w') : Reply TokenPair × Faults × State = elim r [
        | ok tn ↦ stop_if (is_suspended tn) tenant_suspended (rotate env u jti) fs v
        | err e ↦ rotate env u jti fs v
      ] in
        Rotates env u jti w s w'
  tenant_read-Rotates (ok tn) fs w v e = elim (Bool-cases (is_suspended tn)) [
    | inl t ↦ rw t (ap (λ x. x.db) e)
    | inr f ↦ rw f (rw e (rotate-Rotates fs w))
  ]
  tenant_read-Rotates (err x) fs w v e = rw e (rotate-Rotates fs w)

  read_tenant-same : (t : ℕ) (fs : Faults) (w : State) → (on_db (tenant_by_id t) fs w).2 ≡ w
  unfolding tenant_by_id
  read_tenant-same t fs w = ground arith

  tenant-Rotates :
      (t : Option ℕ) (fs : Faults) (w : State)
      → let (r, fs', w') = with_tenant (λ e. rotate env u jti) t (rotate env u jti) fs w in
        Rotates env u jti w r w'
  tenant-Rotates none fs w = rotate-Rotates fs w
  tenant-Rotates (some t) fs w =
      tenant_read-Rotates (tenant_by_id t fs w.db).0 _ w _ (read_tenant-same t fs w)

-- A pair is answered for a refresh token that is verified, of a user who is there and active, and
-- whose key was active: it is active no longer, and that of the new token is. Whatever is answered,
-- the database is as it was.
abbrev pub Refreshes : Env → Text → State → Reply TokenPair → State → Type 0
Refreshes env token w (replied status pair) w' =
    (info : RefreshInfo) × (u : User) × (verify_refresh env.jwt env.service env.now token
      ≡ Checked.ok info)
    × (select_row (user_key info.claims.user_id) w.db.users ≡ some u)
    × (u.is_active ≡ true)
    × Rotates env u info.jti w (replied status pair) w'
Refreshes env token w (refused status code) w' = w'.db ≡ w.db

module _ (env : Env) (token : Text) (info : RefreshInfo) (w : State) where
  Rotates-Refreshes :
      (u : User) (r : Reply TokenPair) (w' : State)
      → verify_refresh env.jwt env.service env.now token ≡ Checked.ok info
      → select_row (user_key info.claims.user_id) w.db.users ≡ some u
      → u.is_active ≡ true
      → Rotates env u info.jti w r w'
      → Refreshes env token w r w'
  Rotates-Refreshes u (replied status pair) w' e f a k = (info, u, e, f, a, k)
  Rotates-Refreshes u (refused status code) w' e f a k = k

  active-Refreshes :
      (u : User) (active : Bool) (fs : Faults)
      → verify_refresh env.jwt env.service env.now token ≡ Checked.ok info
      → select_row (user_key info.claims.user_id) w.db.users ≡ some u
      → u.is_active ≡ active
      → let (r, fs', w') =
          stop_if
            (not active)
            invalid_grant
            (with_tenant (λ e. rotate env u info.jti) u.tenant_id (rotate env u info.jti))
            fs
            w in
        Refreshes env token w r w'
  active-Refreshes u true fs e f a =
      Rotates-Refreshes u _ _ e f a (tenant-Rotates env u info.jti u.tenant_id fs w)
  active-Refreshes u false fs e f a = refl

  user-Refreshes :
      (found : Option User) (failed : Bool) (fs : Faults)
      → verify_refresh env.jwt env.service env.now token ≡ Checked.ok info
      → select_row (user_key info.claims.user_id) w.db.users ≡ found
      → let (r, fs', w') =
          on
            (on_db (λ gs db. elim (if failed then err driver else ok found) [
              | ok o ↦ or_raise o not_found gs db
              | err e ↦ (err e, gs, db)
            ]))
            refresh_error
            (λ u.
              stop_if
                (not u.is_active)
                invalid_grant
                (with_tenant (λ e. rotate env u info.jti) u.tenant_id (rotate env u info.jti)))
            fs
            w in
        Refreshes env token w r w'
  user-Refreshes found true fs e f = refl
  user-Refreshes none false fs e f = refl
  user-Refreshes (some u) false fs e f = active-Refreshes u u.is_active fs e f refl

  refresh-Refreshes :
      (fs : Faults)
      → verify_refresh env.jwt env.service env.now token ≡ Checked.ok info
      → let (r, fs', w') = refresh env info fs w in Refreshes env token w r w'
  unfolding refresh user_by_id
  refresh-Refreshes fs e =
      user-Refreshes (select_row (user_key info.claims.user_id) w.db.users) (fails fs) (later fs) e
        refl

module _ (env : Env) (token : Text) (fs : Faults) (w : State) where
  checked-Refreshes :
      (c : Checked RefreshInfo)
      → verify_refresh env.jwt env.service env.now token ≡ c
      → let (r, fs', w') : Reply TokenPair × Faults × State = elim c [
        | Checked.ok info ↦ refresh env info fs w
        | Checked.err e ↦ (invalid_grant, fs, w)
      ] in
        Refreshes env token w r w'
  checked-Refreshes (Checked.ok info) e = refresh-Refreshes env token info w fs e
  checked-Refreshes (Checked.err x) e = refl

  -- A refresh, whatever fails in it, answers a pair only to a verified token of an active user whose
  -- key was active, and then the key is replaced by that of the new token; it never writes in the
  -- database.
  pub post_refresh-Refreshes :
      let (r, fs', w') = post_refresh env token fs w in Refreshes env token w r w'
  unfolding post_refresh
  post_refresh-Refreshes = checked-Refreshes (verify_refresh env.jwt env.service env.now token) refl
