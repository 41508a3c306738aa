-- ===== src/Handler/Portal/Granted.antt =====
-- A whole request to `PortalPostRedeem` of backend/internal/handler/portal.go.
use mathlib.Core.Path.{subst, sym}
use go_react_fihos.Common.{ℕ, ◌≡◌, refl, ap, Bool, true, false, not, some, arith}
use go_react_fihos.Common.Text.{Text, text_eq}
use go_react_fihos.Store.Db.{Faults}
use go_react_fihos.Store.Db.Keeps.{Keeps}
use go_react_fihos.Store.Sql.{select_row}
use go_react_fihos.Store.World.{World, on_db}
use go_react_fihos.Store.Accounts.{Tenant}
use go_react_fihos.Store.Tenants.{tenant_by_slug, is_active_tenant}
use go_react_fihos.Service.VoucherCode.{Outcome, normalize_code}
use go_react_fihos.Mikrotik.Transport.{Transport}
use go_react_fihos.Handler.{Reply, replied, refused, on, stop_if}
use go_react_fihos.Handler.Ends.{Returned, on-Ends}
use go_react_fihos.Handler.Portal.{
  Portal, Opened, redeem_for, redeem_code, portal_post_redeem, lift_outcome, invalid_code,
  not_active, no_portal,
}
use go_react_fihos.Handler.Portal.Spends.{SpendsByCode}
use go_react_fihos.Handler.Portal.Redeem.{redeem_code-Ends}

abbrev pub has_slug : Text → Tenant → Bool
has_slug slug t = text_eq t.slug slug

-- A refusal leaves the sessions. A success is that of an active tenant with the slug: its voucher with
-- the normalised code was unused, is spent, and has opened one session, with the credentials that
-- are answered.
abbrev pub Grants : {S : Type 0} → Text → Text → World S → Reply Opened → World S → Type 0
Grants slug raw w (refused status c) w' = w'.db.sessions ≡ w.db.sessions
Grants slug raw w (replied status o) w' =
    (t : Tenant) × (code : Text) × (select_row (has_slug slug) w.db.tenants ≡ some t)
    × (is_active_tenant t ≡ true)
    × (normalize_code raw ≡ Outcome.ok code)
    × SpendsByCode w.db.sessions w.db.vouchers t.id code (replied status o) w'

module _ {S : Type 0} (mt : Transport S) (p : Portal) (slug raw mac : Text) (hotspot_id : ℕ)
    (w : World S) where
  abbrev Q : Reply Opened → World S → Type 0
  Q r w' = Grants slug raw w r w'

  granted :
      (t : Tenant) (code : Text) (r : Reply Opened) (w' : World S)
      → select_row (has_slug slug) w.db.tenants ≡ some t
      → is_active_tenant t ≡ true
      → normalize_code raw ≡ Outcome.ok code
      → SpendsByCode w.db.sessions w.db.vouchers t.id code r w'
      → Q r w'
  granted t code (refused status c) w' e a n h = h
  granted t code (replied status o) w' e a n h = (t, code, e, a, n, h)

  normalized-Grants :
      (t : Tenant) (o : Outcome Text) (fs : Faults)
      → select_row (has_slug slug) w.db.tenants ≡ some t
      → is_active_tenant t ≡ true
      → normalize_code raw ≡ o
      → let (r, fs', w') =
          on (lift_outcome o) (λ e. invalid_code 422) (redeem_code mt p t.id hotspot_id mac) fs w in
        Q r w'
  normalized-Grants t (Outcome.ok code) fs e a n =
      let (r, fs', w') = redeem_code mt p t.id hotspot_id mac code fs w in
      granted t code r w' e a n (
        redeem_code-Ends mt p w.db.sessions w.db.vouchers t.id mac code hotspot_id fs w
          (refl, refl))
  normalized-Grants t (Outcome.err x) fs e a n = refl

  active-Grants :
      (t : Tenant) (active : Bool) (fs : Faults)
      → select_row (has_slug slug) w.db.tenants ≡ some t
      → is_active_tenant t ≡ active
      → let (r, fs', w') =
          stop_if
            (not active)
            not_active
            (on
              (lift_outcome (normalize_code raw))
              (λ e. invalid_code 422)
              (redeem_code mt p t.id hotspot_id mac))
            fs
            w in
        Q r w'
  active-Grants t true fs e a = normalized-Grants t (normalize_code raw) fs e a refl
  active-Grants t false fs e a = refl

  slug-Keeps : Keeps (λ v. v ≡ w) (on_db (tenant_by_slug slug))
  unfolding tenant_by_slug
  slug-Keeps fs v h = ground (arith, h)

  slug_found :
      (fs : Faults) (v : World S)
      → v ≡ w
      → Returned
          (λ v. v ≡ w)
          Q
          (λ t. select_row (has_slug slug) w.db.tenants ≡ some t)
          (on_db (tenant_by_slug slug) fs v).0
  unfolding tenant_by_slug
  slug_found fs v h = ground (arith, h)

  -- Whatever is asked, and whatever fails on the way: a redemption that is refused has opened no
  -- session. One that is granted is for an active tenant with the slug; its voucher with the
  -- normalised code was unused and is spent, and one session has been opened for it, with the
  -- credentials of the answer.
  pub portal_post_redeem-Grants :
      (fs : Faults)
      → let (r, fs', w') = portal_post_redeem mt p slug hotspot_id raw mac fs w in
        Grants slug raw w r w'
  unfolding portal_post_redeem
  portal_post_redeem-Grants fs =
      on-Ends (λ v. v ≡ w) Q (λ t. select_row (has_slug slug) w.db.tenants ≡ some t)
        (on_db (tenant_by_slug slug)) no_portal (redeem_for mt p hotspot_id raw mac) slug-Keeps
        slug_found (λ e v h. ap (λ x. x.db.sessions) h)
        (λ t e gs v h.
          subst (λ x. let (r, fs', w') = redeem_for mt p hotspot_id raw mac t gs x in Q r w')
            (sym h) (active-Grants t (is_active_tenant t) gs e refl))
        fs w refl
