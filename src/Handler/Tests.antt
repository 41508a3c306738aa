-- ===== src/Handler/Tests.antt =====
-- Runs of backend/internal/handler on a sample, and the theorems at concrete inputs.
use go_react_fihos.Common.{
  ◌≡◌, refl, ◌*◌, ◌/◌, ◌==◌, ◌&&◌, Bool, true, false, none, some, [], ◌∷◌, if◌then◌else◌, arith,
}
use go_react_fihos.Store.Amount.{stored}
use go_react_fihos.Common.Int.{pos, ◌-ℤ◌, ◌+ℤ◌}
use go_react_fihos.Common.Text.{codes, text_eq}
use go_react_fihos.Store.World.{World}
use go_react_fihos.Store.Samples.{network, sample}
use go_react_fihos.Common.Text.{format_int, format_rounds, parse_digits}
use go_react_fihos.Store.Db.{fails, later}
use go_react_fihos.Store.Tenants.{tenant_by_slug}
use go_react_fihos.Store.Vouchers.{voucher_by_code, batch_by_id}
use go_react_fihos.Store.Hotspots.{hotspot_by_id}
use go_react_fihos.Store.Routers.{router_by_id, profile_by_id}
use go_react_fihos.Store.Sessions.{redeem_voucher, session_by_id, close_session}
use go_react_fihos.Service.VoucherCode.{normalize_code, in_alphabet}
use go_react_fihos.Service.Creds.{session_username, generate_session_password, draw_text}
use go_react_fihos.Auth.Service.{Jwt, number, text}
use go_react_fihos.Service.Provider.{mock}
use go_react_fihos.Mikrotik.Router.{Floats, new_router}
use go_react_fihos.Mikrotik.Simulator.{Routers, connect, probe, seed_session, disconnect_session}
use go_react_fihos.Mikrotik.Transport.{Transport, in_memory, sim_transport}
use go_react_fihos.Handler.{Reply, replied, refused}
use go_react_fihos.Handler.Auth.{Env, State, post_refresh}
use go_react_fihos.Handler.Auth.Refreshed.{Refreshes, post_refresh-Refreshes}
use go_react_fihos.Store.Wallet.{debit_wallet_for_bill_by_window}
use go_react_fihos.Store.Paging.{parse_id}
use go_react_fihos.Handler.Customers.{post_billing_pay}
use go_react_fihos.Handler.Customers.Pays.{Answers, post_billing_pay-Answers}
use go_react_fihos.Handler.Sessions.{post_session_disconnect, disconnect, disconnect_at}
use go_react_fihos.Handler.Sessions.Scoped.{Scoped, post_session_disconnect-Scoped}
use go_react_fihos.Handler.Portal.{
  Portal, Opened, charge_and_open, open_session, portal_post_redeem,
}
use go_react_fihos.Handler.Portal.Granted.{Grants, portal_post_redeem-Grants}

-- A library that knows one refresh token, of user 3.
abbrev one_token : Jwt
one_token = record {
  sign = λ secret mc. some (codes "new");
  parse = λ secret now token.
      if text_eq token (codes "old")
      then some (
          (codes "typ", text (codes "refresh"))
          ∷ (codes "jti", text (codes "01"))
          ∷ (codes "uid", number 3)
          ∷ (codes "exp", number 5000)
          ∷ [])
      else none;
}

abbrev env : Env
env = record {
  bcrypt = record { check_password = text_eq; hash_password = λ p. some p };
  jwt = one_token;
  service = record { secret = codes "s"; token_ttl = 900; refresh_ttl = 3600 };
  now = 1000;
  access_jti = codes "02";
  refresh_jti = codes "03";
}

-- User 3 is signed in with the token 01.
abbrev signed_in : State
signed_in = record {
  db = record network {
    users =
        record {
          id = 3;
          tenant_id = some 1;
          email = codes "s@x";
          full_name = [];
          role = codes "staff";
          is_active = true;
          password_hash = codes "pw";
          last_login_at = none;
          created_at = 0;
        }
        ∷ [];
  };
  outside = (codes "refresh:3:01", 4000) ∷ [];
}

post_refresh-Refreshes_example :
    let (r, _, w') = post_refresh env (codes "old") [] signed_in in
    Refreshes env (codes "old") signed_in r w'
post_refresh-Refreshes_example = post_refresh-Refreshes env (codes "old") [] signed_in

abbrev plain_floats : Floats
plain_floats = record {
  scale = λ rate multiplier. rate * multiplier / 100;
  gain_rx = λ rate interval random. rate * interval;
  gain_tx = λ rate interval random. rate * interval;
}

abbrev mt : Transport Routers
mt = sim_transport (in_memory plain_floats)

abbrev at_noon : Portal
at_noon = record {
  split = record { net = stored; fee = λ a. pos 0 };
  provider = mock;
  now = 1000;
  hex = codes "a1b2";
  draws = 1 ∷ 2 ∷ 3 ∷ 4 ∷ 5 ∷ 6 ∷ 7 ∷ 8 ∷ 9 ∷ 10 ∷ 11 ∷ 12 ∷ [];
}

-- The hotspot's router is there and connected.
abbrev online : World Routers
online = record { db = network; outside = (6, connect 900 (new_router 6 (codes "roof"))) ∷ [] }

abbrev is_created : Reply Opened → Bool
is_created (replied status o) = status == 201 && text_eq o.username (codes "9-ab2cd3ef")
is_created (refused status c) = false

redeemed :
    is_created (portal_post_redeem mt at_noon (codes "warung") 5 (codes "ab2c-d3ef") [] [] online).0
    ≡ true
unfolding portal_post_redeem tenant_by_slug normalize_code voucher_by_code hotspot_by_id
    router_by_id profile_by_id charge_and_open batch_by_id open_session generate_session_password
    redeem_voucher session_username format_int format_rounds fails later probe seed_session
    draw_text in_alphabet
redeemed = refl

portal_post_redeem-Grants_example :
    let (r, _, w') =
      portal_post_redeem mt at_noon (codes "warung") 5 (codes "ab2c-d3ef") [] [] online in
    Grants (codes "warung") (codes "ab2c-d3ef") online r w'
portal_post_redeem-Grants_example =
    portal_post_redeem-Grants mt at_noon (codes "warung") (codes "ab2c-d3ef") [] 5 online []

abbrev is_answered : {A : Type 0} → Reply A → Bool
is_answered (replied status a) = status == 200
is_answered (refused status c) = false

-- The bill is paid from the wallet, which is the default.
bill_paid : is_answered (post_billing_pay 1 (codes "20") [] [] sample).0 ≡ true
unfolding post_billing_pay parse_id debit_wallet_for_bill_by_window ◌-ℤ◌ ◌+ℤ◌ fails later
    parse_digits
bill_paid = refl

post_billing_pay-Answers_example :
    let (r, _, db') = post_billing_pay 1 (codes "20") [] [] sample in
    Answers 1 (codes "20") [] sample r db'
post_billing_pay-Answers_example = post_billing_pay-Answers 1 (codes "20") [] [] sample

-- A session of the tenant is closed, and its device told.
disconnected : is_answered (post_session_disconnect mt 1 60 1100 [] online).0 ≡ true
unfolding post_session_disconnect session_by_id disconnect disconnect_at hotspot_by_id router_by_id
    close_session fails later disconnect_session
disconnected = refl

post_session_disconnect-Scoped_example :
    let (r, _, w') = post_session_disconnect mt 1 60 1100 [] online in Scoped 1 60 network r w'.db
post_session_disconnect-Scoped_example =
    post_session_disconnect-Scoped mt 1 60 1100 online [] (omega arith)
