-- ===== src/Store/Samples.antt =====
-- A small database of one tenant, which the tests of the tables in backend/internal/store run on.
use go_react_fihos.Common.{ℕ, ◌+◌, ◌*◌, ◌/◌, none, some, [], ◌∷◌}
use go_react_fihos.Common.Int.{ℤ, pos}
use go_react_fihos.Common.Text.{codes}
use go_react_fihos.Store.Schema.{
  Database, Customer, CustomerStatus, active, token, BillingWindow, WindowStatus, issued, paid,
  Payment, pending, wallet_topup, WalletTransaction, topup,
}
use go_react_fihos.Store.Access.{Voucher, unused, Session, SessionState, UsageLog}
use go_react_fihos.Store.Network.{
  Profile, Router, RouterStatus, Hotspot, HotspotStatus, ConfigJob, JobStatus,
}
use go_react_fihos.Store.Accounts.{Tenant, TenantStatus}
use go_react_fihos.Store.Billing.{Calendar}

abbrev pub customer : ℕ → CustomerStatus → ℤ → Customer
customer id status balance = record {
  id = id;
  tenant_id = 1;
  hotspot_id = none;
  name = codes "Budi";
  phone = [];
  address = [];
  status = status;
  balance = balance;
  created_at = 0;
  updated_at = 0;
}

abbrev pub window : ℕ → ℕ → ℕ → WindowStatus → BillingWindow
window id customer_id month status = record {
  id = id;
  tenant_id = 1;
  customer_id = customer_id;
  period_start = month;
  period_end = month + 29;
  amount = pos 4000;
  status = status;
  issued_at = 0;
  paid_at = none;
}

abbrev pub first_topup : WalletTransaction
first_topup = record {
  id = 1;
  tenant_id = 1;
  customer_id = 7;
  type = topup;
  amount = pos 10000;
  balance_after = pos 10000;
  ref_type = none;
  ref_id = none;
  note = [];
  created_at = 0;
}

abbrev pub open_topup : Payment
open_topup = record {
  id = 30;
  tenant_id = 1;
  voucher_id = none;
  customer_id = some 8;
  entity_type = wallet_topup;
  external_ref = codes "topup-8-a1b2c3";
  amount = pos 5000;
  fee = pos 150;
  net_amount = pos 4850;
  status = pending;
  payment_method = codes "sandbox";
  created_at = 0;
  updated_at = 0;
}

-- Customer 7 has 100.00 and two bills of 40.00, one of them paid; customer 8 is due a bill.
abbrev pub sample : Database
sample = record {
  customers = customer 7 active (pos 10000) ∷ customer 8 token (pos 0) ∷ [];
  wallet_transactions = first_topup ∷ [];
  billing_windows = window 20 7 30 issued ∷ window 21 7 0 paid ∷ [];
  payments = open_topup ∷ [];
  settings = [];
  voucher_batches = [];
  vouchers = [];
  tenants = [];
  users = [];
  hotspot_profiles = [];
  routers = [];
  hotspots = [];
  config_jobs = [];
  rate_windows = [];
  sessions = [];
  usage_logs = [];
  next_id = 40;
  now = 1000;
}

-- Months of thirty days.
abbrev pub thirty_days : Calendar
thirty_days = record { month_start = λ t. t / 30 * 30; month_end = λ t. t / 30 * 30 + 29 }

abbrev pub sample_voucher : Voucher
sample_voucher = record {
  id = 50;
  tenant_id = 1;
  batch_id = 49;
  code = codes "AB2C-D3EF";
  status = unused;
  redeemed_at = none;
  redeemed_by = none;
  expires_at = none;
  created_at = 0;
}

abbrev pub sample_session : Session
sample_session = record {
  id = 60;
  tenant_id = 1;
  hotspot_id = 5;
  router_id = 6;
  voucher_id = none;
  profile_id = some 9;
  state = SessionState.active;
  username = codes "9-xy";
  password = none;
  mac_address = none;
  ip_address = none;
  started_at = 500;
  last_seen_at = none;
  end_time = none;
  bytes_rx = 700;
  bytes_tx = 0;
  rate_window_id = none;
}

abbrev pub sample_log : UsageLog
sample_log = record {
  id = 61;
  tenant_id = 1;
  session_id = 60;
  voucher_id = none;
  started_at = 600;
  ended_at = 600;
  duration_sec = 0;
  bytes_rx = 700;
  bytes_tx = 0;
  rate_window_id = none;
}

abbrev pub sample_hotspot : Hotspot
sample_hotspot = record {
  id = 5;
  tenant_id = 1;
  router_id = 6;
  profile_id = 9;
  name = codes "lobby";
  mikrotik_id = none;
  ip_range = none;
  status = HotspotStatus.active;
  last_config_at = none;
  applied_multiplier = 100;
  created_at = 0;
}

-- The same with one voucher, one hotspot, and a session that has logged 700 bytes.
abbrev pub in_use : Database
in_use = record sample {
  vouchers = sample_voucher ∷ [];
  hotspots = sample_hotspot ∷ [];
  sessions = sample_session ∷ [];
  usage_logs = sample_log ∷ [];
  next_id = 70;
}

abbrev pub sample_profile : Profile
sample_profile = record {
  id = 9;
  tenant_id = 1;
  name = codes "2M";
  rx_rate = 250000;
  tx_rate = 250000;
  session_uptime_limit = 60;
  keepalive_timeout = 90;
  created_by = none;
  created_at = 0;
}

abbrev pub sample_router : ℕ → ℕ → Router
sample_router id tenant_id = record {
  id = id;
  tenant_id = tenant_id;
  name = codes "roof";
  ip_address = codes "10.0.0.1";
  api_port = 8728;
  username = codes "admin";
  password = [];
  status = RouterStatus.online;
  last_seen_at = none;
  last_sync_at = none;
  created_at = 0;
}

abbrev pub sample_job : ConfigJob
sample_job = record {
  id = 62;
  tenant_id = 1;
  hotspot_id = 5;
  action = codes "apply";
  payload = codes "{}";
  status = JobStatus.pending;
  attempts = 0;
  last_error = none;
  created_at = 0;
  updated_at = 0;
}

abbrev pub sample_tenant : ℕ → TenantStatus → Tenant
sample_tenant id status = record {
  id = id;
  name = codes "Warung";
  slug = codes "warung";
  branding = codes "{}";
  status = status;
  created_at = 0;
  updated_at = 0;
}

-- The same with a job for the hotspot; a second tenant is suspended and has a router too.
abbrev pub network : Database
network = record in_use {
  tenants = sample_tenant 1 TenantStatus.active ∷ sample_tenant 2 TenantStatus.suspended ∷ [];
  hotspot_profiles = sample_profile ∷ [];
  routers = sample_router 6 1 ∷ sample_router 63 2 ∷ [];
  config_jobs = sample_job ∷ [];
}
