-- ===== src/Store/Sessions/Redeem.antt =====
-- Redemption of a voucher (backend/internal/store/sessions.go): what it needs and what it leaves.
use go_react_fihos.Common.{ℕ, ◌≤◌, ◌≡◌, ◌≢◌, refl, Option, none, some, List, [], ◌∷◌, arith}
use go_react_fihos.Common.Text.{Text}
use go_react_fihos.Store.Db.{Result, ok, err, IsErr, Faults}
use go_react_fihos.Store.Sql.{select_row, update_where, count_where}
use go_react_fihos.Store.Access.{Voucher, Session, active}
use go_react_fihos.Store.Schema.{Database}
use go_react_fihos.Store.Vouchers.{unused_key, revoke_voucher}
use go_react_fihos.Store.Sessions.{hotspot_key, redeem, redeem_voucher}

module _ (tenant_id voucher_id : ℕ) where
  -- The voucher can be neither redeemed, at any hotspot, nor revoked.
  abbrev pub Used : Database → Type 0
  Used db =
      (fs : Faults)
      → ((hotspot_id : ℕ) (mac : Option Text) (session_user password : Text)
          → let (r, _, db') =
              redeem_voucher tenant_id voucher_id hotspot_id mac session_user password fs db in
            IsErr r × (db' ≡ db))
        × (let (r, _, db') = revoke_voucher tenant_id voucher_id fs db in
            IsErr r × (db'.sessions ≡ db.sessions))

  abbrev pub Opens : ℕ → Text → Text → Database → Result Session → Database → Type 0
  Opens hotspot_id session_user password db (err e) db' = db' ≡ db
  Opens hotspot_id session_user password db (ok s) db' =
      (1 ≤ count_where (unused_key tenant_id voucher_id) db.vouchers)
      × (select_row (hotspot_key tenant_id hotspot_id) db.hotspots ≢ none)
      × (db'.sessions ≡ s ∷ db.sessions)
      × (s.voucher_id ≡ some voucher_id)
      × (s.state ≡ active)
      × (s.username ≡ session_user)
      × (s.password ≡ some password)
      × (count_where (unused_key tenant_id voucher_id) db'.vouchers ≡ 0)

  abbrev pub Redeems : ℕ → Text → Text → Database → Result Session → Database → Type 0
  Redeems hotspot_id session_user password db (err e) db' = db' ≡ db
  Redeems hotspot_id session_user password db (ok s) db' =
      (1 ≤ count_where (unused_key tenant_id voucher_id) db.vouchers)
      × (select_row (hotspot_key tenant_id hotspot_id) db.hotspots ≢ none)
      × (db'.sessions ≡ s ∷ db.sessions)
      × (s.voucher_id ≡ some voucher_id)
      × (s.state ≡ active)
      × (s.username ≡ session_user)
      × (s.password ≡ some password)
      × Used db'

  none-unused :
      (now : ℕ) (vs : List Voucher)
      → count_where
          (unused_key tenant_id voucher_id)
          (update_where (unused_key tenant_id voucher_id) (redeem now) vs)
        ≡ 0
  none-unused now [] = refl
  none-unused now (v ∷ vs) = ground (arith, none-unused now vs)

  Used-none :
      (db : Database) → count_where (unused_key tenant_id voucher_id) db.vouchers ≡ 0 → Used db
  unfolding redeem_voucher revoke_voucher
  Used-none db h fs = (λ hotspot_id mac u p. ground arith, ground arith)

  pub redeem_voucher-Opens :
      (hotspot_id : ℕ) (mac : Option Text) (session_user password : Text) (fs : Faults)
      (db : Database)
      → let (r, _, db') =
          redeem_voucher tenant_id voucher_id hotspot_id mac session_user password fs db in
        Opens hotspot_id session_user password db r db'
  unfolding redeem_voucher
  redeem_voucher-Opens hotspot_id mac session_user password fs db =
      ground (arith, none-unused db.now db.vouchers)

  Opens-Redeems :
      (hotspot_id : ℕ) (session_user password : Text) (db db' : Database) (r : Result Session)
      → Opens hotspot_id session_user password db r db'
      → Redeems hotspot_id session_user password db r db'
  Opens-Redeems hotspot_id u p db db' (err e) same = same
  Opens-Redeems hotspot_id u p db db' (ok s) (a, b, c, d, e, f, g, h) =
      (a, b, c, d, e, f, g, Used-none db' h)

  -- A redemption that fails changes nothing. One that succeeds found the voucher unused and the
  -- hotspot there, and leaves one more session, an active one of this voucher with the credentials
  -- given; from then on redeeming the voucher anywhere, or revoking it, is refused.
  pub redeem_voucher-Redeems :
      (hotspot_id : ℕ) (mac : Option Text) (session_user password : Text) (fs : Faults)
      (db : Database)
      → let (r, _, db') =
          redeem_voucher tenant_id voucher_id hotspot_id mac session_user password fs db in
        Redeems hotspot_id session_user password db r db'
  redeem_voucher-Redeems hotspot_id mac session_user password fs db =
      Opens-Redeems hotspot_id session_user password db _ _
        (redeem_voucher-Opens hotspot_id mac session_user password fs db)
