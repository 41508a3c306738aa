-- ===== src/Service/Billing.antt =====
-- backend/internal/service/billing.go: charges through a provider, and settlement. `hex` is what
-- randomHex(6) of creds.go returns.
pub mod Settle
pub mod Webhooks
pub mod Credits
pub mod Interleaving
use go_react_fihos.Common.{
  ℕ, ◌+◌, ◌-◌, ◌*◌, ◌/◌, ◌&&◌, Bool, true, false, not, Option, none, some, List, [], ◌∷◌, ◌++◌,
}
use go_react_fihos.Common.Int.{ℤ, pos}
use go_react_fihos.Common.Text.{Text, codes, format_int}
use go_react_fihos.Store.Db.{Result, ok, err, Call, pure, ignore, branch, ◌>>=◌, ◌>>◌}
use go_react_fihos.Store.Schema.{
  Database, Payment, PaymentStatus, pending, succeeded, EntityType, voucher, wallet_topup,
}
use go_react_fihos.Store.Payments.{
  is_succeeded, is_topup, create_payment, payment_by_ref_global, update_payment_status,
}
use go_react_fihos.Store.Amount.{Amount, cents, stored}
use go_react_fihos.Store.Wallet.{credit_wallet}
use go_react_fihos.Service.Provider.{Provider, ProviderResult, create}

pub record ChargeResult : Type 0 where
  pub payment : Payment
  pub async : Bool
  pub payment_url : Text

-- ExternalRef of creds.go
unfoldable pub external_ref : Text → ℕ → Text → Text
external_ref kind id hex = kind ++ (codes "-" ++ (format_int id ++ (codes "-" ++ hex)))

-- The float64 arithmetic of the fee: what a NUMERIC(12, 2) column keeps of net := amount * (1 - 0.03),
-- and of amount - net.
pub record Split : Type 0 where
  pub net : Amount → ℤ
  pub fee : Amount → ℤ

abbrev pub pending_payment :
    Split → ℕ → Option ℕ → Option ℕ → EntityType → Text → Amount → Text → Payment
pending_payment split tenant_id voucher_id customer_id entity_type ref amount method = record {
  id = 0;
  tenant_id = tenant_id;
  voucher_id = voucher_id;
  customer_id = customer_id;
  entity_type = entity_type;
  external_ref = ref;
  amount = stored amount;
  fee = split.fee amount;
  net_amount = split.net amount;
  status = pending;
  payment_method = method;
  created_at = 0;
  updated_at = 0;
}

-- `lift` of a provider's answer
abbrev pub or_fail : {A : Type 0} → Result A → Call Database A
or_fail r fs db = (r, fs, db)

-- Only a top-up of a known customer is credited.
abbrev pub credits : EntityType → Option ℕ → Option ℕ
credits EntityType.wallet_topup (some customer_id) = some customer_id
credits _ _ = none

abbrev pub credit_if : Payment → Option ℕ → Call Database Unit
credit_if p none = pure tt
credit_if p (some customer_id) =
    credit_wallet p.tenant_id customer_id (cents p.net_amount) (codes "payment") p.id p.external_ref

-- What Settle does to a payment that it found open: the status first, then the credit, each in a
-- statement or transaction of its own.
unfoldable pub settle_open : Payment → Call Database Payment
unfolding update_payment_status credit_wallet
settle_open p = do
  update_payment_status p.id succeeded
  credit_if p (credits p.entity_type p.customer_id)
  λ fs db. (ok (record p { status = succeeded; updated_at = db.now }), fs, db)

unfoldable pub settle : Text → Call Database Payment
unfolding payment_by_ref_global settle_open
settle ref = do
  p ← payment_by_ref_global ref
  branch (is_succeeded p.status) (pure p) (settle_open p)

unfoldable pub settle_or_return : Payment → ProviderResult → Call Database ChargeResult
unfolding settle
settle_or_return p res =
    branch res.async
      (pure (record { payment = p; async = res.async; payment_url = res.payment_url }))
      (settle p.external_ref >>= λ _. λ fs db. (
        ok (record {
          payment = record p { status = succeeded; updated_at = db.now };
          async = res.async;
          payment_url = res.payment_url;
        }),
        fs,
        db,
      ))

unfoldable pub charge : Split → Provider → ℕ → ℕ → Amount → Text → Call Database ChargeResult
unfolding create_payment settle_or_return
charge split provider tenant_id voucher_id amount hex = do
  let ref = external_ref (codes "pay") voucher_id hex
  res ← or_fail (create provider ref)
  p ←
      create_payment
        (pending_payment split tenant_id (some voucher_id) none voucher ref amount
          res.payment_method)
        (some voucher)
  settle_or_return p res

unfoldable pub charge_topup : Split → Provider → ℕ → ℕ → Amount → Text → Call Database ChargeResult
unfolding create_payment settle_or_return
charge_topup split provider tenant_id customer_id amount hex = do
  let ref = external_ref (codes "topup") customer_id hex
  res ← or_fail (create provider ref)
  p ←
      create_payment
        (pending_payment split tenant_id none (some customer_id) wallet_topup ref amount
          res.payment_method)
        (some wallet_topup)
  settle_or_return p res
