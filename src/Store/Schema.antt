-- ===== src/Store/Schema.antt =====
-- The rows of the tables (the structs of backend/internal/store) and the database that holds them.
-- Money is in cents, the scale of NUMERIC(12, 2); a time is a number of seconds.
use go_react_fihos.Common.{ℕ, List, Option}
use go_react_fihos.Common.Int.{ℤ}
use go_react_fihos.Common.Text.{Text}
use go_react_fihos.Store.Amount.{Amount}
use go_react_fihos.Store.Access.{Batch, Voucher, Session, UsageLog}
use go_react_fihos.Store.Network.{Profile, Router, Hotspot, ConfigJob, RateWindow}
use go_react_fihos.Store.Accounts.{Tenant, User}

pub data CustomerStatus : Type 0 where
  active token expired suspended : CustomerStatus

pub record Customer : Type 0 where
  pub id : ℕ
  pub tenant_id : ℕ
  pub hotspot_id : Option ℕ
  pub name : Text
  pub phone : Text
  pub address : Text
  pub status : CustomerStatus
  pub balance : ℤ
  pub created_at : ℕ
  pub updated_at : ℕ

pub data TxType : Type 0 where
  topup bill_payment adjustment : TxType

pub record WalletTransaction : Type 0 where
  pub id : ℕ
  pub tenant_id : ℕ
  pub customer_id : ℕ
  pub type : TxType
  pub amount : ℤ
  pub balance_after : ℤ
  pub ref_type : Option Text
  pub ref_id : Option ℕ
  pub note : Text
  pub created_at : ℕ

pub data WindowStatus : Type 0 where
  draft issued paid overdue : WindowStatus

pub record BillingWindow : Type 0 where
  pub id : ℕ
  pub tenant_id : ℕ
  pub customer_id : ℕ
  pub period_start : ℕ
  pub period_end : ℕ
  pub amount : ℤ
  pub status : WindowStatus
  pub issued_at : ℕ
  pub paid_at : Option ℕ

pub data PaymentStatus : Type 0 where
  pending succeeded failed refunded : PaymentStatus

pub data EntityType : Type 0 where
  voucher wallet_topup : EntityType

pub record Payment : Type 0 where
  pub id : ℕ
  pub tenant_id : ℕ
  pub voucher_id : Option ℕ
  pub customer_id : Option ℕ
  pub entity_type : EntityType
  pub external_ref : Text
  pub amount : ℤ
  pub fee : ℤ
  pub net_amount : ℤ
  pub status : PaymentStatus
  pub payment_method : Text
  pub created_at : ℕ
  pub updated_at : ℕ

-- A row of `settings`. Of the JSON of `payment_config` there is `payment_config->>'monthly_fee'` as a
-- number, `none` if it is not there.
pub record Settings : Type 0 where
  pub tenant_id : ℕ
  pub monthly_fee : Option Amount
  pub portal_title : Text
  pub portal_message : Option Text

-- The tables that the modelled operations touch. `next_id` is the next value of the identity
-- sequences (one for all tables: only that a new id is fresh matters) and `now` the clock.
pub record Database : Type 0 where
  pub customers : List Customer
  -- newest first, the order in which they are listed
  pub wallet_transactions : List WalletTransaction
  pub billing_windows : List BillingWindow
  pub payments : List Payment
  pub settings : List Settings
  pub voucher_batches : List Batch
  pub vouchers : List Voucher
  pub tenants : List Tenant
  pub users : List User
  pub hotspot_profiles : List Profile
  pub routers : List Router
  pub hotspots : List Hotspot
  pub config_jobs : List ConfigJob
  pub rate_windows : List RateWindow
  pub sessions : List Session
  pub usage_logs : List UsageLog
  pub next_id : ℕ
  pub now : ℕ
