-- ===== src/Handler/Portal/Status.antt =====
-- backend/internal/handler/portal.go: what a guest is told about the session of a voucher.
use go_react_fihos.Common.{
  ℕ, ◌-◌, ◌*◌, ◌/◌, ◌==◌, Bool, true, false, not, Option, none, some, if◌then◌else◌, ltb,
}
use go_react_fihos.Common.Int.{ℤ, pos, ◌-ℤ◌}
use go_react_fihos.Common.Text.{Text}
use go_react_fihos.Store.Db.{Result, ok, err, Error, Faults}
use go_react_fihos.Store.World.{World, on_db}
use go_react_fihos.Store.Access.{Voucher, VoucherStatus, Session}
use go_react_fihos.Store.Network.{Profile}
use go_react_fihos.Store.Tenants.{tenant_by_slug}
use go_react_fihos.Store.Vouchers.{voucher_by_code}
use go_react_fihos.Store.Routers.{profile_by_id}
use go_react_fihos.Store.Sessions.{active_session_by_voucher}
use go_react_fihos.Service.VoucherCode.{normalize_code}
use go_react_fihos.Handler.{Reply, replied, Handle, internal, stop_if, on}
use go_react_fihos.Handler.Portal.{no_portal, invalid_code, lift_outcome}

-- int() of a number of minutes cuts towards 0.
abbrev pub minutes_left : ℕ → ℕ → ℤ
minutes_left limit spent =
    if ltb (limit * 60) spent
    then pos 0 -ℤ pos ((spent - limit * 60) / 60)
    else pos ((limit * 60 - spent) / 60)

abbrev pub no_limit : ℤ
no_limit = pos 0 -ℤ pos 1

abbrev pub time_or_now : ℕ → Option ℕ → ℕ
time_or_now now none = now
time_or_now now (some at) = at

abbrev pub remaining_of : ℕ → Session → Result Profile → ℤ
remaining_of now s (err e) = no_limit
remaining_of now s (ok p) =
    if p.session_uptime_limit == 0
    then no_limit
    else minutes_left p.session_uptime_limit (time_or_now now s.end_time - s.started_at)

-- The time of a session that is left, -1 where there is no limit. A session starts before it ends.
abbrev pub profile_remaining_min :
    {S : Type 0} → ℕ → ℕ → Session → Faults → World S → ℤ × Faults × World S
profile_remaining_min now tenant_id s fs w = elim s.profile_id [
  | none ↦ (no_limit, fs, w)
  | some id ↦
      let (r, fs', w') = on_db (profile_by_id tenant_id id) fs w in (remaining_of now s r, fs', w')
]

pub data Status : Type 0 where
  not_connected : VoucherStatus → Status
  connected : Session → ℤ → Status

abbrev pub is_redeemed : Voucher → Bool
is_redeemed v = elim v.status [
  | VoucherStatus.redeemed ↦ elim v.redeemed_at [ none ↦ false | some at ↦ true ]
  | _ ↦ false
]

abbrev pub status_error : Error → Reply Status
status_error Error.not_found = replied 200 (not_connected VoucherStatus.expired)
status_error e = internal e

unfoldable pub portal_post_status : {S : Type 0} → ℕ → Text → Text → Handle (World S) Status
portal_post_status now slug raw = on (on_db (tenant_by_slug slug)) no_portal (λ t.
    on (lift_outcome (normalize_code raw)) (λ e. invalid_code 422)
      (λ code.
        on (on_db (voucher_by_code t.id code)) (λ e. invalid_code 404)
          (λ v. stop_if (not (is_redeemed v)) (replied 200 (not_connected v.status)) (
            on (on_db (active_session_by_voucher t.id v.id)) status_error (λ s fs w.
              let (left, fs', w') = profile_remaining_min now t.id s fs w in
              (replied 200 (connected s left), fs', w'))))))
