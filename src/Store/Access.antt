-- ===== src/Store/Access.antt =====
-- The rows of backend/internal/store/vouchers.go and sessions.go, and of the tables that they read.
-- Counters of bytes are numbers: a router never reports a negative one.
use go_react_fihos.Common.{ℕ, Option}
use go_react_fihos.Common.Int.{ℤ}
use go_react_fihos.Common.Text.{Text}

pub record Batch : Type 0 where
  pub id : ℕ
  pub tenant_id : ℕ
  pub name : Text
  pub quantity : ℕ
  pub price : Option ℤ
  pub duration : ℕ
  pub profile_id : ℕ
  pub valid_from : Option ℕ
  pub valid_to : Option ℕ
  pub created_by : Option ℕ
  pub created_at : ℕ

pub data VoucherStatus : Type 0 where
  unused redeemed expired revoked : VoucherStatus

pub record Voucher : Type 0 where
  pub id : ℕ
  pub tenant_id : ℕ
  pub batch_id : ℕ
  pub code : Text
  pub status : VoucherStatus
  pub redeemed_at : Option ℕ
  pub redeemed_by : Option ℕ
  pub expires_at : Option ℕ
  pub created_at : ℕ

pub data SessionState : Type 0 where
  active closing closed : SessionState

pub record Session : Type 0 where
  pub id : ℕ
  pub tenant_id : ℕ
  pub hotspot_id : ℕ
  pub router_id : ℕ
  pub voucher_id : Option ℕ
  pub profile_id : Option ℕ
  pub state : SessionState
  pub username : Text
  pub password : Option Text
  pub mac_address : Option Text
  pub ip_address : Option Text
  pub started_at : ℕ
  pub last_seen_at : Option ℕ
  pub end_time : Option ℕ
  pub bytes_rx : ℕ
  pub bytes_tx : ℕ
  pub rate_window_id : Option ℕ

pub record UsageLog : Type 0 where
  pub id : ℕ
  pub tenant_id : ℕ
  pub session_id : ℕ
  pub voucher_id : Option ℕ
  pub started_at : ℕ
  pub ended_at : ℕ
  pub duration_sec : ℕ
  pub bytes_rx : ℕ
  pub bytes_tx : ℕ
  pub rate_window_id : Option ℕ
