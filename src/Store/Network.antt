-- ===== src/Store/Network.antt =====
-- The rows of backend/internal/store/infra.go, and the rate windows of insights.go. A JSON value is
-- its text; a multiplier is in hundredths, the scale of NUMERIC(5, 2); rates are not negative.
use go_react_fihos.Common.{ℕ, Option}
use go_react_fihos.Common.Text.{Text}

pub record Profile : Type 0 where
  pub id : ℕ
  pub tenant_id : ℕ
  pub name : Text
  pub rx_rate : ℕ
  pub tx_rate : ℕ
  pub session_uptime_limit : ℕ
  pub keepalive_timeout : ℕ
  pub created_by : Option ℕ
  pub created_at : ℕ

pub data RouterStatus : Type 0 where
  unverified online offline : RouterStatus

pub record Router : Type 0 where
  pub id : ℕ
  pub tenant_id : ℕ
  pub name : Text
  pub ip_address : Text
  pub api_port : ℕ
  pub username : Text
  pub password : Text
  pub status : RouterStatus
  pub last_seen_at : Option ℕ
  pub last_sync_at : Option ℕ
  pub created_at : ℕ

pub data HotspotStatus : Type 0 where
  configuring active disabled error : HotspotStatus

pub record Hotspot : Type 0 where
  pub id : ℕ
  pub tenant_id : ℕ
  pub router_id : ℕ
  pub profile_id : ℕ
  pub name : Text
  pub mikrotik_id : Option Text
  pub ip_range : Option Text
  pub status : HotspotStatus
  pub last_config_at : Option ℕ
  pub applied_multiplier : ℕ
  pub created_at : ℕ

pub data JobStatus : Type 0 where
  pending done failed : JobStatus

pub record ConfigJob : Type 0 where
  pub id : ℕ
  pub tenant_id : ℕ
  pub hotspot_id : ℕ
  pub action : Text
  pub payload : Text
  pub status : JobStatus
  pub attempts : ℕ
  pub last_error : Option Text
  pub created_at : ℕ
  pub updated_at : ℕ

pub record RateWindow : Type 0 where
  pub id : ℕ
  pub tenant_id : ℕ
  pub hotspot_id : ℕ
  pub boost_multiplier : ℕ
  pub effective_from : ℕ
  pub effective_until : ℕ
  pub repeat : Text
  pub note : Option Text
  pub created_by : Option ℕ
  pub created_at : ℕ
