-- ===== src/Handler/Portal.antt =====
-- backend/internal/handler/portal.go: the captive portal. The state is the database and the devices; the
-- body of a request has been parsed, and the random numbers are arguments.
pub mod Charge
pub mod Spends
pub mod Redeem
pub mod Granted
pub mod Status
use go_react_fihos.Common.{
  ℕ, ◌+◌, ◌-◌, ◌*◌, ◌/◌, ◌==◌, ◌&&◌, ◌||◌, Bool, true, false, not, Option, none, some, List, [],
  ◌∷◌, if◌then◌else◌, ltb,
}
use go_react_fihos.Common.Int.{ℤ, pos, negsuc, ◌-ℤ◌}
use go_react_fihos.Common.Text.{Text, codes}
use go_react_fihos.Store.Db.{
  Result, ok, err, Error, not_found, conflict, driver, random_source, Faults, Call, pure,
}
use go_react_fihos.Store.Amount.{cents}
use go_react_fihos.Store.World.{World, on_db, on_outside}
use go_react_fihos.Store.Schema.{Database}
use go_react_fihos.Store.Accounts.{Tenant, TenantStatus}
use go_react_fihos.Store.Access.{Batch, Voucher, VoucherStatus, Session}
use go_react_fihos.Store.Network.{Profile, Router, Hotspot, HotspotStatus}
use go_react_fihos.Store.Tenants.{tenant_by_slug, read_settings, TenantSettings, is_active_tenant}
use go_react_fihos.Store.Vouchers.{voucher_by_code, batch_by_id}
use go_react_fihos.Store.Hotspots.{hotspot_by_id}
use go_react_fihos.Store.Routers.{router_by_id, profile_by_id}
use go_react_fihos.Store.Sessions.{redeem_voucher, active_session_by_voucher}
use go_react_fihos.Service.VoucherCode.{Outcome, normalize_code}
use go_react_fihos.Service.Creds.{session_username, generate_session_password}
use go_react_fihos.Service.Provider.{Provider}
use go_react_fihos.Service.Billing.{Split, ChargeResult, charge}
use go_react_fihos.Mikrotik.Transport.{Transport}
use go_react_fihos.Mikrotik.Router.{new_session}
use go_react_fihos.Worker.{device_of}
use go_react_fihos.Handler.{Reply, replied, refused, Handle, internal, reply, stop_if, on, after}

module _ {A : Type 0} where
  abbrev pub no_portal : Error → Reply A
  no_portal e = refused 404 (codes "not_found")

  abbrev pub not_active : Reply A
  not_active = refused 403 (codes "tenant_suspended")

  abbrev pub invalid_code : ℕ → Reply A
  invalid_code status = refused status (codes "invalid_code")

  abbrev pub expired : Reply A
  expired = refused 409 (codes "expired")

  abbrev pub hotspot_disabled : ℕ → Reply A
  hotspot_disabled status = refused status (codes "hotspot_disabled")

  abbrev pub unreachable : Reply A
  unreachable = refused 503 (codes "router_offline")

abbrev pub settings_or_none : Result TenantSettings → Option TenantSettings
settings_or_none (ok s) = some s
settings_or_none (err e) = none

-- The branding of a tenant with its settings; an error of their read is dropped.
unfoldable pub portal_get_health :
    {S : Type 0} → Text → Handle (World S) (Tenant × Option TenantSettings)
portal_get_health slug = on (on_db (tenant_by_slug slug)) no_portal (λ t.
    stop_if (not (is_active_tenant t)) not_active (λ fs w.
      let (r, fs', w') = on_db (read_settings t.id) fs w in
      (replied 200 (t, settings_or_none r), fs', w')))

-- ExpiresAt is before the time.
abbrev pub is_past : ℕ → Option ℕ → Bool
is_past now none = false
is_past now (some at) = ltb at now

-- The answer for a voucher that cannot be redeemed, by its status.
abbrev pub status_refusal : {A : Type 0} → VoucherStatus → Option (Reply A)
status_refusal VoucherStatus.unused = none
status_refusal VoucherStatus.redeemed = some (refused 409 (codes "already_used"))
status_refusal VoucherStatus.revoked = some (refused 409 (codes "revoked"))
status_refusal VoucherStatus.expired = some expired

abbrev pub stop_with : {S B : Type 0} → Option (Reply B) → Handle S B → Handle S B
stop_with none k fs s = k fs s
stop_with (some r) k fs s = (r, fs, s)

abbrev pub is_unavailable : HotspotStatus → Bool
is_unavailable HotspotStatus.disabled = true
is_unavailable HotspotStatus.error = true
is_unavailable _ = false

-- What a successful redemption answers.
pub record Opened : Type 0 where
  pub session_id : ℕ
  pub username : Text
  pub password : Text
  pub duration_min : ℕ
  pub ssid : Text
  pub ip_range : Option Text

-- What the process knows and draws: the gateway, the clock, the text of a payment's reference, and
-- the random numbers of a password.
pub record Portal : Type 0 where
  pub split : Split
  pub provider : Provider
  pub now : ℕ
  pub hex : Text
  pub draws : List ℕ

abbrev pub price_of : Option ℤ → ℕ
price_of (some (pos n)) = n
price_of _ = 0

abbrev pub lift_outcome : {S A : Type 0} → Outcome A → Call S A
lift_outcome (Outcome.ok a) fs s = (ok a, fs, s)
lift_outcome (Outcome.err e) fs s = (err random_source, fs, s)

abbrev pub redeem_error : Error → Reply Opened
redeem_error Error.conflict = refused 409 (codes "already_used")
redeem_error e = internal e

-- What is charged is paid, or is to be paid, before the handler goes on.
abbrev pub pay_then :
    {S : Type 0}
    → Bool
    → Call (World S) ChargeResult
    → Handle (World S) Opened
    → Handle (World S) Opened
pay_then true m k = on m internal (λ c. k)
pay_then false m k = k

module _ {S : Type 0} (mt : Transport S) (p : Portal) where
  -- The device learns the session, and the guest the credentials.
  abbrev pub announce :
      Text → Hotspot → Router → ℕ → Text → Text → Session → Handle (World S) Opened
  announce mac hs r duration username password s =
      after (on_outside (mt.seed_sessions (device_of r) (new_session username mac [] 0 0 ∷ []))) (
        reply (
          replied 201 (record {
            session_id = s.id;
            username = username;
            password = password;
            duration_min = duration;
            ssid = hs.name;
            ip_range = hs.ip_range;
          })))

  abbrev pub spend :
      ℕ → Voucher → Text → Hotspot → Router → ℕ → Text → Text → Handle (World S) Opened
  spend tenant_id v mac hs r duration username password =
      on (on_db (redeem_voucher tenant_id v.id hs.id (some mac) username password)) redeem_error
        (announce mac hs r duration username password)

  -- The voucher is spent and the session opened.
  unfoldable pub open_session :
      ℕ → Voucher → Text → Text → Hotspot → Router → Profile → ℕ → Handle (World S) Opened
  open_session tenant_id v mac code hs r profile duration =
      on (lift_outcome (generate_session_password p.draws)) internal
        (spend tenant_id v mac hs r duration (session_username profile.id code))

  -- A batch that has a price is charged; the answer does not wait for the settlement. A batch that
  -- cannot be read is free and has the duration 0.
  abbrev pub with_batch :
      ℕ
      → Voucher
      → Text
      → Text
      → Hotspot
      → Router
      → Profile
      → Result Batch
      → Handle (World S) Opened
  with_batch tenant_id v mac code hs r profile (err e) =
      open_session tenant_id v mac code hs r profile 0
  with_batch tenant_id v mac code hs r profile (ok b) =
      pay_then (ltb 0 (price_of b.price))
        (on_db (charge p.split p.provider tenant_id v.id (cents (pos (price_of b.price))) p.hex))
        (open_session tenant_id v mac code hs r profile b.duration)

  unfoldable pub charge_and_open :
      ℕ → Voucher → Text → Text → Hotspot → Router → Profile → Handle (World S) Opened
  charge_and_open tenant_id v mac code hs r profile fs w =
      let (read, fs', w') = on_db (batch_by_id tenant_id v.batch_id) fs w in
      with_batch tenant_id v mac code hs r profile read fs' w'

  abbrev pub when_online :
      ℕ → Voucher → Text → Text → Hotspot → Router → Bool × ℕ → Handle (World S) Opened
  when_online tenant_id v mac code hs r online = stop_if (not online.0) unreachable (
      on (on_db (profile_by_id tenant_id hs.profile_id)) internal
        (charge_and_open tenant_id v mac code hs r))

  abbrev pub at_router : ℕ → Voucher → Text → Text → Hotspot → Router → Handle (World S) Opened
  at_router tenant_id v mac code hs r =
      on (on_outside (mt.probe p.now (device_of r))) (λ e. unreachable)
        (when_online tenant_id v mac code hs r)

  abbrev pub at_hotspot : ℕ → Voucher → Text → Text → Hotspot → Handle (World S) Opened
  at_hotspot tenant_id v mac code hs = stop_if (is_unavailable hs.status) (hotspot_disabled 409) (
      on (on_db (router_by_id tenant_id hs.router_id)) internal (at_router tenant_id v mac code hs))

  -- What follows the voucher.
  abbrev pub redeem_at : ℕ → ℕ → Text → Text → Voucher → Handle (World S) Opened
  redeem_at tenant_id hotspot_id mac code v = stop_if (is_past p.now v.expires_at) expired (
      stop_with (status_refusal v.status) (
        on (on_db (hotspot_by_id tenant_id hotspot_id)) (λ e. hotspot_disabled 400)
          (at_hotspot tenant_id v mac code)))

  abbrev pub redeem_code : ℕ → ℕ → Text → Text → Handle (World S) Opened
  redeem_code tenant_id hotspot_id mac code =
      on (on_db (voucher_by_code tenant_id code)) (λ e. invalid_code 404)
        (redeem_at tenant_id hotspot_id mac code)

  abbrev pub redeem_for : ℕ → Text → Text → Tenant → Handle (World S) Opened
  redeem_for hotspot_id raw mac t = stop_if (not (is_active_tenant t)) not_active (
      on (lift_outcome (normalize_code raw)) (λ e. invalid_code 422)
        (redeem_code t.id hotspot_id mac))

  unfoldable pub portal_post_redeem : Text → ℕ → Text → Text → Handle (World S) Opened
  portal_post_redeem slug hotspot_id raw mac =
      on (on_db (tenant_by_slug slug)) no_portal (redeem_for hotspot_id raw mac)
