-- ===== src/Handler/Portal/Charge.antt =====
-- The tables of sessions and vouchers along the charges of backend/internal/service/billing.go, which the
-- portal makes.
use go_react_fihos.Common.{ℕ, ◌≡◌, Bool, true, false, Option, none, some, List, arith}
use go_react_fihos.Common.Text.{Text, codes}
use go_react_fihos.Store.Amount.{Amount, cents}
use go_react_fihos.Store.Db.{ok, Call, pure, branch, ◌>>=◌, ◌>>◌}
use go_react_fihos.Store.Db.Keeps.{Keeps, bind-Keeps}
use go_react_fihos.Store.Schema.{Database, Payment, PaymentStatus, succeeded, EntityType, voucher}
use go_react_fihos.Store.Access.{Voucher, Session}
use go_react_fihos.Store.Payments.{
  is_succeeded, create_payment, payment_by_ref_global, update_payment_status,
}
use go_react_fihos.Store.Wallet.{credit_wallet, adjust_balance, lock_and_apply, insert_wallet_tx}
use go_react_fihos.Service.Provider.{Provider, ProviderResult, create}
use go_react_fihos.Service.Billing.{
  Split, charge, settle, settle_open, settle_or_return, credit_if, credits, external_ref,
  pending_payment, or_fail,
}

-- A charge touches neither sessions nor vouchers.
module _ (ss : List Session) (vs : List Voucher) where
  abbrev pub Untouched : Database → Type 0
  Untouched db = (db.sessions ≡ ss) × (db.vouchers ≡ vs)

  create_payment-Untouched :
      (p : Payment) (e : Option EntityType) → Keeps Untouched (create_payment p e)
  unfolding create_payment
  create_payment-Untouched p e fs db h = ground (arith, h)

  payment_by_ref-Untouched : (ref : Text) → Keeps Untouched (payment_by_ref_global ref)
  unfolding payment_by_ref_global
  payment_by_ref-Untouched ref fs db h = ground (arith, h)

  update_payment-Untouched :
      (id : ℕ) (status : PaymentStatus) → Keeps Untouched (update_payment_status id status)
  unfolding update_payment_status
  update_payment-Untouched id status fs db h = ground (arith, h)

  credit_wallet-Untouched :
      (tenant_id customer_id : ℕ) (amount : Amount) (ref_type : Text) (ref_id : ℕ) (note : Text)
      → Keeps Untouched (credit_wallet tenant_id customer_id amount ref_type ref_id note)
  unfolding credit_wallet adjust_balance lock_and_apply insert_wallet_tx
  credit_wallet-Untouched tenant_id customer_id amount ref_type ref_id note fs db h =
      ground (arith, h)

  credit_if-Untouched : (p : Payment) (c : Option ℕ) → Keeps Untouched (credit_if p c)
  credit_if-Untouched p none = λ fs db h. h
  credit_if-Untouched p (some c) =
      credit_wallet-Untouched p.tenant_id c (cents p.net_amount) (codes "payment") p.id
        p.external_ref

  branch-Untouched :
      {A : Type 0} (c : Bool) (m n : Call Database A)
      → Keeps Untouched m
      → Keeps Untouched n
      → Keeps Untouched (branch c m n)
  branch-Untouched true m n k l = k
  branch-Untouched false m n k l = l

  settle_open-Untouched : (p : Payment) → Keeps Untouched (settle_open p)
  unfolding settle_open
  settle_open-Untouched p =
      let last : Call Database Payment =
        λ fs db. (ok (record p { status = succeeded; updated_at = db.now }), fs, db) in
      let credit = credit_if p (credits p.entity_type p.customer_id) in
      bind-Keeps Untouched (update_payment_status p.id succeeded) (λ _. credit >> last)
        (update_payment-Untouched p.id succeeded)
        (λ _.
          bind-Keeps Untouched credit (λ _. last)
            (credit_if-Untouched p (credits p.entity_type p.customer_id)) (λ _ fs db h. h))

  settle-Untouched : (ref : Text) → Keeps Untouched (settle ref)
  unfolding settle
  settle-Untouched ref =
      bind-Keeps Untouched (payment_by_ref_global ref)
        (λ p. branch (is_succeeded p.status) (pure p) (settle_open p))
        (payment_by_ref-Untouched ref)
        (λ p.
          branch-Untouched (is_succeeded p.status) (pure p) (settle_open p) (λ fs db h. h)
            (settle_open-Untouched p))

  settle_or_return-Untouched :
      (p : Payment) (res : ProviderResult) → Keeps Untouched (settle_or_return p res)
  unfolding settle_or_return
  settle_or_return-Untouched p res =
      branch-Untouched res.async _ _ (λ fs db h. h)
        (bind-Keeps Untouched (settle p.external_ref)
          (λ _ fs db. (
            ok (record {
              payment = record p { status = succeeded; updated_at = db.now };
              async = res.async;
              payment_url = res.payment_url;
            }),
            fs,
            db,
          ))
          (settle-Untouched p.external_ref) (λ _ fs db h. h))

  pub charge-Untouched :
      (split : Split) (provider : Provider) (tenant_id voucher_id : ℕ) (amount : Amount)
      (hex : Text)
      → Keeps Untouched (charge split provider tenant_id voucher_id amount hex)
  unfolding charge
  charge-Untouched split provider tenant_id voucher_id amount hex =
      let ref = external_ref (codes "pay") voucher_id hex in
      let new : ProviderResult → Payment = λ res.
        pending_payment split tenant_id (some voucher_id) none voucher ref amount
          res.payment_method in
      bind-Keeps Untouched (or_fail (create provider ref))
        (λ res. create_payment (new res) (some voucher) >>= λ p. settle_or_return p res)
        (λ fs db h. h)
        (λ res.
          bind-Keeps Untouched (create_payment (new res) (some voucher))
            (λ p. settle_or_return p res) (create_payment-Untouched (new res) (some voucher))
            (λ p. settle_or_return-Untouched p res))
