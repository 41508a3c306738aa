-- ===== src/Handler/Portal/Spends.antt =====
-- What an answer to a redemption in backend/internal/handler/portal.go stands for in the tables.
use go_react_fihos.Common.{ℕ, ◌≡◌, ◌≤◌, some, List, ◌∷◌}
use go_react_fihos.Common.Text.{Text}
use go_react_fihos.Store.Db.{Error}
use go_react_fihos.Store.Sql.{select_row, count_where}
use go_react_fihos.Store.World.{World}
use go_react_fihos.Store.Access.{Voucher, Session}
use go_react_fihos.Store.Vouchers.{unused_key, code_key}
use go_react_fihos.Service.VoucherCode.{Outcome}
use go_react_fihos.Store.Db.Keeps.{Keeps}
use go_react_fihos.Handler.{Reply, replied, refused}
use go_react_fihos.Handler.Portal.{Opened, redeem_error, lift_outcome}

pub outcome-Keeps :
    {S A : Type 0} (P : S → Type 0) (o : Outcome A) → Keeps P (lift_outcome {S = S} o)
outcome-Keeps P (Outcome.ok a) = λ fs s h. h
outcome-Keeps P (Outcome.err e) = λ fs s h. h

module _ (ss : List Session) (vs : List Voucher) (tenant_id voucher_id : ℕ) where
  -- A refusal leaves the sessions. A success found the voucher unused, has spent it, and has opened
  -- one session for it, with the credentials that are answered.
  abbrev pub Spends : {S : Type 0} → Reply Opened → World S → Type 0
  Spends (refused status code) w = w.db.sessions ≡ ss
  Spends (replied status o) w =
      (s : Session) × (w.db.sessions ≡ s ∷ ss)
      × (s.id ≡ o.session_id)
      × (s.voucher_id ≡ some voucher_id)
      × (s.username ≡ o.username)
      × (s.password ≡ some o.password)
      × (1 ≤ count_where (unused_key tenant_id voucher_id) vs)
      × (count_where (unused_key tenant_id voucher_id) w.db.vouchers ≡ 0)

  pub redeem_error-Spends :
      {S : Type 0} (e : Error) (w : World S) → w.db.sessions ≡ ss → Spends (redeem_error e) w
  redeem_error-Spends e w h = elim e as (λ x. Spends (redeem_error x) w) [
    | Error.conflict ↦ h
    | _ ↦ h
  ]

-- The voucher that is spent is the one with the code.
abbrev pub SpendsByCode :
    {S : Type 0} → List Session → List Voucher → ℕ → Text → Reply Opened → World S → Type 0
SpendsByCode ss vs tenant_id code (refused status c) w = w.db.sessions ≡ ss
SpendsByCode ss vs tenant_id code (replied status o) w =
    (v : Voucher) × (select_row (code_key tenant_id code) vs ≡ some v)
    × Spends ss vs tenant_id v.id (replied status o) w
