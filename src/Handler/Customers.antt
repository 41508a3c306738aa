-- ===== src/Handler/Customers.antt =====
-- backend/internal/handler/customers.go: customers, and the generation and payment of their bills. The
-- body of a request has been parsed. The audit log is left out.
pub mod Pays
use go_react_fihos.Common.{ℕ, ◌+◌, ◌==◌, ◌&&◌, Option, none, some, List, [], ◌∷◌, if◌then◌else◌}
use go_react_fihos.Common.Int.{ℤ, pos, ◌+ℤ◌}
use go_react_fihos.Common.Text.{Text, codes, text_eq}
use go_react_fihos.Store.Amount.{Amount}
use go_react_fihos.Store.Db.{Result, ok, err, Error}
use go_react_fihos.Store.Schema.{
  Database, Customer, CustomerStatus, BillingWindow, WindowStatus, Settings,
}
use go_react_fihos.Store.Customers.{create_customer, patch_customer_status, list_customers}
use go_react_fihos.Store.Billing.{
  Calendar, generate_monthly_windows, mark_window_paid, list_pending_windows, monthly_fee,
}
use go_react_fihos.Store.Wallet.{debit_wallet_for_bill_by_window}
use go_react_fihos.Store.Paging.{parse_id, page_size}
use go_react_fihos.Handler.{
  Reply, replied, refused, Handle, validation_failed, forbidden, internal, fail, reply, stop_if, on,
}

abbrev pub invalid_request : {A : Type 0} → Reply A
invalid_request = refused 400 (codes "invalid_request")

-- The statuses in the map `customerStatuses`.
unfoldable pub customer_status : Text → Option CustomerStatus
customer_status s =
    if text_eq s (codes "active")
    then some CustomerStatus.active
    else if text_eq s (codes "token")
    then some CustomerStatus.token
    else if text_eq s (codes "expired")
    then some CustomerStatus.expired
    else if text_eq s (codes "suspended")
    then some CustomerStatus.suspended
    else none

-- Where the text is not one of the statuses the request is refused.
abbrev pub with_status :
    {B : Type 0} → Option CustomerStatus → (CustomerStatus → Handle Database B) → Handle Database B
with_status none k = reply validation_failed
with_status (some status) k = k status

abbrev pub with_id : {B : Type 0} → Option ℕ → (ℕ → Handle Database B) → Handle Database B
with_id none k = reply invalid_request
with_id (some id) k = k id

pub record CustomerReq : Type 0 where
  pub hotspot_id : Option ℕ
  pub name : Text
  pub phone : Text
  pub address : Text
  pub status : Text

abbrev pub customer_of : CustomerReq → CustomerStatus → Customer
customer_of req status = record {
  id = 0;
  tenant_id = 0;
  hotspot_id = req.hotspot_id;
  name = req.name;
  phone = req.phone;
  address = req.address;
  status = status;
  balance = pos 0;
  created_at = 0;
  updated_at = 0;
}

-- The default where a field of the request is empty.
abbrev pub or_default : Text → Text → Text
or_default default s = if text_eq s [] then default else s

unfoldable pub post_customer : ℕ → CustomerReq → Handle Database Customer
post_customer tenant_id req = stop_if (tenant_id == 0) forbidden (
    stop_if (text_eq req.name []) validation_failed (
      with_status (customer_status (or_default (codes "active") req.status)) (λ status.
        on (create_customer tenant_id (customer_of req status)) fail
          (λ created. reply (replied 201 created)))))

-- The handler of PATCH, with the id in the path.
unfoldable pub patch_status : ℕ → Text → Text → Handle Database (ℕ × CustomerStatus)
patch_status tenant_id id status = stop_if (tenant_id == 0) forbidden (
    with_id (parse_id id) (λ id. with_status (customer_status status) (λ status.
      on (patch_customer_status tenant_id id status) fail (λ _. reply (replied 200 (id, status))))))

unfoldable pub post_billing_generate : Calendar → ℕ → ℕ → Handle Database ℕ
post_billing_generate cal tenant_id now =
    stop_if (tenant_id == 0) forbidden
      (on (generate_monthly_windows cal tenant_id now) internal (λ n. reply (replied 201 n)))

-- What answers an error of a payment.
abbrev pub pay_error : Error → Reply (ℕ × BillingWindow)
pay_error Error.insufficient = refused 409 (codes "insufficient_balance")
pay_error e = fail e

unfoldable pub pay_by : ℕ → ℕ → Text → Handle Database (ℕ × BillingWindow)
pay_by tenant_id id method =
    if text_eq method (codes "manual")
    then on (mark_window_paid tenant_id id) pay_error (λ w. reply (replied 200 (0, w)))
    else if text_eq method (codes "wallet")
    then on (debit_wallet_for_bill_by_window tenant_id id) pay_error
        (λ paid. reply (replied 200 paid))
    else reply validation_failed

-- The customer is that of the audit log; the window is the answer.
unfoldable pub post_billing_pay : ℕ → Text → Text → Handle Database (ℕ × BillingWindow)
unfolding pay_by
post_billing_pay tenant_id id method =
    stop_if (tenant_id == 0) forbidden
      (with_id (parse_id id) (λ id. pay_by tenant_id id (or_default (codes "wallet") method)))

-- The answer of the overview: the fee, the bills that are issued and overdue, and their amount. A
-- status without a bill is left out of the map `counts`; its number is 0 here. The float64 sum is
-- taken as the number of cents that it is nearest to.
pub record Overview : Type 0 where
  pub monthly_fee : Amount
  pub issued : ℕ
  pub overdue : ℕ
  pub amount_due : ℤ

-- The bills that are pending have one of two statuses.
abbrev pub count_window : BillingWindow → Overview → Overview
count_window w o = elim w.status [
  | WindowStatus.issued ↦ record o { issued = o.issued + 1; amount_due = o.amount_due +ℤ w.amount }
  | WindowStatus.overdue ↦ record o {
    overdue = o.overdue + 1;
    amount_due = o.amount_due +ℤ w.amount;
  }
  | _ ↦ record o { amount_due = o.amount_due +ℤ w.amount }
]

abbrev pub overview_of : Overview → List BillingWindow → Overview
overview_of o [] = o
overview_of o (w ∷ ws) = overview_of (count_window w o) ws

-- `MonthlyFee` answers the default rather than an error, so there is none to drop.
unfoldable pub get_billing_overview : ℕ → Handle Database Overview
get_billing_overview tenant_id = stop_if (tenant_id == 0) forbidden (
    on (list_pending_windows tenant_id) internal (λ pending.
      on (monthly_fee tenant_id) internal (λ fee. reply (
        replied 200 (
          overview_of (record { monthly_fee = fee; issued = 0; overdue = 0; amount_due = pos 0 })
            pending)))))
