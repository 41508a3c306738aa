-- ===== src/Handler/Portal/Redeem.antt =====
-- What a redemption in backend/internal/handler/portal.go leaves in the tables.
use mathlib.Core.Path.{subst}
use go_react_fihos.Common.{
  ℕ, ◌≡◌, ◌≤◌, refl, ap, ◌∙◌, Bool, true, false, not, some, List, ◌∷◌, arith, ltb,
}
use go_react_fihos.Common.Text.{Text}
use go_react_fihos.Store.Db.{Result, ok, err, Faults}
use go_react_fihos.Store.Sql.{select_row, count_where}
use go_react_fihos.Common.Int.{pos}
use go_react_fihos.Store.Amount.{Amount, cents}
use go_react_fihos.Store.World.{World, on_db, on_outside}
use go_react_fihos.Store.Schema.{Database}
use go_react_fihos.Store.Access.{Voucher, VoucherStatus, Session, Batch}
use go_react_fihos.Store.Network.{Hotspot, Router, Profile}
use go_react_fihos.Store.Vouchers.{unused_key, code_key, batch_by_id, voucher_by_code}
use go_react_fihos.Store.Routers.{profile_by_id, router_by_id}
use go_react_fihos.Store.Hotspots.{hotspot_by_id}
use go_react_fihos.Store.Sessions.Redeem.{Opens, redeem_voucher-Opens}
use go_react_fihos.Store.Db.Keeps.{Keeps}
use go_react_fihos.Service.Creds.{session_username, generate_session_password}
use go_react_fihos.Mikrotik.Transport.{Transport}
use go_react_fihos.Worker.{device_of}
use go_react_fihos.Handler.{Reply, replied, refused, Handle, on, internal}
use go_react_fihos.Common.Int.{pos}
use go_react_fihos.Store.Amount.{Amount, cents}
use go_react_fihos.Store.World.Keeps.{on_db-Keeps, on_outside-Keeps}
use go_react_fihos.Service.Billing.{charge}
use go_react_fihos.Handler.Ends.{Ends, Returned, on-Ends, plain-Ends, stop-Ends}
use go_react_fihos.Handler.Portal.{
  Portal, Opened, open_session, charge_and_open, redeem_at, redeem_error, lift_outcome, announce,
  spend, pay_then, with_batch, price_of, when_online, at_router, at_hotspot, redeem_code,
  charge_and_open, unreachable, is_unavailable, hotspot_disabled, stop_with, status_refusal,
  is_past, expired, invalid_code,
}
use go_react_fihos.Handler.Portal.Charge.{Untouched, charge-Untouched}
use go_react_fihos.Handler.Portal.Spends.{outcome-Keeps, Spends, SpendsByCode, redeem_error-Spends}

module _ {S : Type 0} (mt : Transport S) (p : Portal) (ss : List Session) (vs : List Voucher)
    (tenant_id : ℕ) (mac code : Text) where
  abbrev Start : World S → Type 0
  Start w = Untouched ss vs w.db

  abbrev Spent : ℕ → Reply Opened → World S → Type 0
  Spent voucher_id = Spends ss vs tenant_id voucher_id

  redeemed-Spends :
      (v : Voucher) (hs : Hotspot) (r : Router) (duration : ℕ) (username password : Text)
      (res : Result Session) (db : Database) (fs : Faults) (w : World S)
      → Untouched ss vs db
      → Opens tenant_id v.id hs.id username password db res w.db
      → let (q, fs', w') : Reply Opened × Faults × World S = elim res [
        | ok s ↦ announce mt p mac hs r duration username password s fs w
        | err e ↦ (redeem_error e, fs, w)
      ] in
        Spent v.id q w'
  redeemed-Spends v hs r duration username password (ok s) db fs w (same, kept)
        (a, b, c, d, e, f, g, h) =
      (
        s,
        subst (λ xs. w.db.sessions ≡ s ∷ xs) same c,
        refl,
        d,
        f,
        g,
        subst (λ xs. 1 ≤ count_where (unused_key tenant_id v.id) xs) kept a,
        h,
      )
  redeemed-Spends v hs r duration username password (err x) db fs w (same, kept) e =
      redeem_error-Spends ss vs tenant_id v.id x w (ap (λ d. d.sessions) e ∙ same)

  spend-Ends :
      (v : Voucher) (hs : Hotspot) (r : Router) (duration : ℕ) (username password : Text)
      → Ends Start (Spent v.id) (spend mt p tenant_id v mac hs r duration username password)
  spend-Ends v hs r duration username password fs w h =
      redeemed-Spends v hs r duration username password _ w.db _ _ h
        (redeem_voucher-Opens tenant_id v.id hs.id (some mac) username password fs w.db)

  open_session-Ends :
      (v : Voucher) (hs : Hotspot) (r : Router) (profile : Profile) (duration : ℕ)
      → Ends Start (Spent v.id) (open_session mt p tenant_id v mac code hs r profile duration)
  unfolding open_session
  open_session-Ends v hs r profile duration =
      let username = session_username profile.id code in
      plain-Ends Start (Spent v.id) (lift_outcome (generate_session_password p.draws)) internal
        (spend mt p tenant_id v mac hs r duration username)
        (outcome-Keeps Start (generate_session_password p.draws)) (λ e w h. h.0)
        (spend-Ends v hs r duration username)

  pay_then-Ends :
      (v : Voucher) (amount : Amount) (paid : Bool) (k : Handle (World S) Opened)
      → Ends Start (Spent v.id) k
      → Ends Start
          (Spent v.id)
          (pay_then paid (on_db (charge p.split p.provider tenant_id v.id amount p.hex)) k)
  pay_then-Ends v amount true k ek =
      plain-Ends Start (Spent v.id) (on_db (charge p.split p.provider tenant_id v.id amount p.hex))
        internal (λ c. k)
        (on_db-Keeps (Untouched ss vs) (charge p.split p.provider tenant_id v.id amount p.hex)
          (charge-Untouched ss vs p.split p.provider tenant_id v.id amount p.hex))
        (λ e w h. h.0) (λ c. ek)
  pay_then-Ends v amount false k ek = ek

  with_batch-Ends :
      (v : Voucher) (hs : Hotspot) (r : Router) (profile : Profile) (read : Result Batch)
      → Ends Start (Spent v.id) (with_batch mt p tenant_id v mac code hs r profile read)
  with_batch-Ends v hs r profile (err e) = open_session-Ends v hs r profile 0
  with_batch-Ends v hs r profile (ok b) =
      pay_then-Ends v (cents (pos (price_of b.price))) (ltb 0 (price_of b.price))
        (open_session mt p tenant_id v mac code hs r profile b.duration)
        (open_session-Ends v hs r profile b.duration)

  batch_by_id-Keeps : (id : ℕ) → Keeps (Untouched ss vs) (batch_by_id tenant_id id)
  unfolding batch_by_id
  batch_by_id-Keeps id fs db h = ground (arith, h)

  profile_by_id-Keeps : (id : ℕ) → Keeps (Untouched ss vs) (profile_by_id tenant_id id)
  unfolding profile_by_id
  profile_by_id-Keeps id fs db h = ground (arith, h)

  router_by_id-Keeps : (id : ℕ) → Keeps (Untouched ss vs) (router_by_id tenant_id id)
  unfolding router_by_id
  router_by_id-Keeps id fs db h = ground (arith, h)

  hotspot_by_id-Keeps : (id : ℕ) → Keeps (Untouched ss vs) (hotspot_by_id tenant_id id)
  unfolding hotspot_by_id
  hotspot_by_id-Keeps id fs db h = ground (arith, h)

  voucher_by_code-Keeps : Keeps (Untouched ss vs) (voucher_by_code tenant_id code)
  unfolding voucher_by_code
  voucher_by_code-Keeps fs db h = ground (arith, h)

  charge_and_open-Ends :
      (v : Voucher) (hs : Hotspot) (r : Router) (profile : Profile)
      → Ends Start (Spent v.id) (charge_and_open mt p tenant_id v mac code hs r profile)
  unfolding charge_and_open
  charge_and_open-Ends v hs r profile fs w h =
      let (read, fs', w') = on_db (batch_by_id tenant_id v.batch_id) fs w in
      with_batch-Ends v hs r profile read fs' w' (batch_by_id-Keeps v.batch_id fs w.db h)

  when_online-Ends :
      (v : Voucher) (hs : Hotspot) (r : Router) (online : Bool × ℕ)
      → Ends Start (Spent v.id) (when_online mt p tenant_id v mac code hs r online)
  when_online-Ends v hs r online =
      let read = profile_by_id tenant_id hs.profile_id in
      let k = charge_and_open mt p tenant_id v mac code hs r in
      stop-Ends Start (Spent v.id) (not online.0) unreachable (on (on_db read) internal k)
        (λ w h. h.0)
        (plain-Ends Start (Spent v.id) (on_db read) internal k
          (on_db-Keeps (Untouched ss vs) read (profile_by_id-Keeps hs.profile_id)) (λ e w h. h.0)
          (charge_and_open-Ends v hs r))

  at_router-Ends :
      (v : Voucher) (hs : Hotspot) (r : Router)
      → Ends Start (Spent v.id) (at_router mt p tenant_id v mac code hs r)
  at_router-Ends v hs r =
      let probe = mt.probe p.now (device_of r) in
      plain-Ends Start (Spent v.id) (on_outside probe) (λ e. unreachable)
        (when_online mt p tenant_id v mac code hs r) (on_outside-Keeps (Untouched ss vs) probe)
        (λ e w h. h.0) (when_online-Ends v hs r)

  at_hotspot-Ends :
      (v : Voucher) (hs : Hotspot)
      → Ends Start (Spent v.id) (at_hotspot mt p tenant_id v mac code hs)
  at_hotspot-Ends v hs =
      let read = router_by_id tenant_id hs.router_id in
      let k = at_router mt p tenant_id v mac code hs in
      stop-Ends Start (Spent v.id) (is_unavailable hs.status) (hotspot_disabled 409)
        (on (on_db read) internal k) (λ w h. h.0)
        (plain-Ends Start (Spent v.id) (on_db read) internal k
          (on_db-Keeps (Untouched ss vs) read (router_by_id-Keeps hs.router_id)) (λ e w h. h.0)
          (at_router-Ends v hs))

  refused_or-Ends :
      (v : Voucher) (status : VoucherStatus) (k : Handle (World S) Opened)
      → Ends Start (Spent v.id) k
      → Ends Start (Spent v.id) (stop_with (status_refusal status) k)
  refused_or-Ends v VoucherStatus.unused k ek = ek
  refused_or-Ends v VoucherStatus.redeemed k ek = λ fs w h. h.0
  refused_or-Ends v VoucherStatus.expired k ek = λ fs w h. h.0
  refused_or-Ends v VoucherStatus.revoked k ek = λ fs w h. h.0

  redeem_at-Ends :
      (hotspot_id : ℕ) (v : Voucher)
      → Ends Start (Spent v.id) (redeem_at mt p tenant_id hotspot_id mac code v)
  redeem_at-Ends hotspot_id v =
      let read = hotspot_by_id tenant_id hotspot_id in
      let k = at_hotspot mt p tenant_id v mac code in
      let find : Handle (World S) Opened = on (on_db read) (λ e. hotspot_disabled 400) k in
      stop-Ends Start (Spent v.id) (is_past p.now v.expires_at) expired
        (stop_with (status_refusal v.status) find) (λ w h. h.0)
        (refused_or-Ends v v.status find (
          plain-Ends Start (Spent v.id) (on_db read) (λ e. hotspot_disabled 400) k
            (on_db-Keeps (Untouched ss vs) read (hotspot_by_id-Keeps hotspot_id)) (λ e w h. h.0)
            (at_hotspot-Ends v)))

  abbrev ByCode : Reply Opened → World S → Type 0
  ByCode = SpendsByCode ss vs tenant_id code

  by_code :
      (v : Voucher) (r : Reply Opened) (w : World S)
      → select_row (code_key tenant_id code) vs ≡ some v
      → Spent v.id r w
      → ByCode r w
  by_code v (refused status c) w e h = h
  by_code v (replied status o) w e h = (v, e, h)

  found_voucher :
      (fs : Faults) (w : World S)
      → Start w
      → Returned Start ByCode
          (λ v. select_row (code_key tenant_id code) vs ≡ some v)
          (on_db (voucher_by_code tenant_id code) fs w).0
  unfolding voucher_by_code
  found_voucher fs w h = ground (arith, h)

  pub redeem_code-Ends :
      (hotspot_id : ℕ) → Ends Start ByCode (redeem_code mt p tenant_id hotspot_id mac code)
  redeem_code-Ends hotspot_id =
      on-Ends Start ByCode (λ v. select_row (code_key tenant_id code) vs ≡ some v)
        (on_db (voucher_by_code tenant_id code)) (λ e. invalid_code 404)
        (redeem_at mt p tenant_id hotspot_id mac code)
        (on_db-Keeps (Untouched ss vs) (voucher_by_code tenant_id code) voucher_by_code-Keeps)
        found_voucher (λ e w h. h.0)
        (λ v e fs w h.
          let (r, fs', w') = redeem_at mt p tenant_id hotspot_id mac code v fs w in
          by_code v r w' e (redeem_at-Ends hotspot_id v fs w h))
