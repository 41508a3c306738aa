-- ===== src/Store/Sessions/Tests.antt =====
-- Runs of the sessions of backend/internal/store on a sample, and the theorems at concrete inputs.
use go_react_fihos.Common.{◌≤◌, ◌≡◌, refl, false, none, [], ◌∷◌, arith}
use go_react_fihos.Common.Text.{codes}
use go_react_fihos.Store.Db.{err, conflict, fails, later}
use go_react_fihos.Store.Schema.{Database}
use go_react_fihos.Store.Samples.{in_use}
use go_react_fihos.Store.Sessions.{redeem_voucher, snapshot_session_usage, close_session}
use go_react_fihos.Store.Sessions.Spent.{IsSpent, opened, redeemed_rows}
use go_react_fihos.Store.Sessions.Once.{here, next, redeem_one, opened_once}
use go_react_fihos.Store.Sessions.Redeem.{Redeems, redeem_voucher-Redeems}
use go_react_fihos.Store.Sessions.Usage.{IsLogged, snapshot-IsLogged, close-IsLogged}

abbrev redeemed_db : Database
redeemed_db = (redeem_voucher 1 50 5 none (codes "9-ab2cd3ef") (codes "pw") [] in_use).2

-- The second redemption is a conflict.
twice :
    (redeem_voucher 1 50 5 none (codes "9-ab2cd3ef") (codes "pw") [] redeemed_db).0 ≡ err conflict
unfolding redeem_voucher fails later
twice = refl

in_use-IsSpent : IsSpent in_use
in_use-IsSpent = record {
  bounded = λ id. ground arith;
  unique = λ id. ground arith;
  fresh = λ id h. ground arith;
}

opened_once_example :
    (opened 50 redeemed_db ≤ 1) × (opened 50 redeemed_db ≤ redeemed_rows 50 redeemed_db)
opened_once_example =
    opened_once (next here (redeem_one 1 50 5 none (codes "9-ab2cd3ef") (codes "pw") []))
      in_use-IsSpent 50

redeem_voucher-Redeems_example :
    let (r, _, db') =
      redeem_voucher 1 50 5 none (codes "9-ab2cd3ef") (codes "pw") (false ∷ []) in_use in
    Redeems 1 50 5 (codes "9-ab2cd3ef") (codes "pw") in_use r db'
redeem_voucher-Redeems_example =
    redeem_voucher-Redeems 1 50 5 none (codes "9-ab2cd3ef") (codes "pw") (false ∷ []) in_use

in_use-IsLogged : IsLogged in_use
in_use-IsLogged = record {
  rx = λ id. ground arith;
  tx = λ id. ground arith;
  unique = λ id. ground arith;
}

-- The router was restarted: its counter is lower than what the session shows.
snapshot-IsLogged_example : IsLogged (snapshot_session_usage 60 900 20 30 [] in_use).2
snapshot-IsLogged_example = snapshot-IsLogged 60 900 20 30 [] in_use in_use-IsLogged

close-IsLogged_example : IsLogged (close_session 60 900 800 30 [] in_use).2
close-IsLogged_example = close-IsLogged 60 900 800 30 [] in_use in_use-IsLogged
