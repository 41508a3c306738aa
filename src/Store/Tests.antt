-- ===== src/Store/Tests.antt =====
-- Runs of backend/internal/store on a sample, and the theorems at concrete inputs.
use go_react_fihos.Common.{◌≡◌, refl, some, [], ◌∷◌, arith, ◌≤◌, All}
use go_react_fihos.Common.{◌-◌, ◌*◌, ◌^◌}
use go_react_fihos.Common.Text.{codes, parse_digits}
use go_react_fihos.Store.Customers.{list_customers}
use go_react_fihos.Store.Billing.{is_token}
use go_react_fihos.Store.Paging.{page_size, offset, page_size-bounds}
use go_react_fihos.Common.Int.{◌≤ℤ◌, negsuc, pos, ◌+ℤ◌, ◌-ℤ◌}
use go_react_fihos.Store.Db.{ok, err, fails, later, IsOk, insufficient, driver}
use go_react_fihos.Store.Sql.{select_row}
use go_react_fihos.Store.Schema.{token, BillingWindow, WindowStatus, TxType}
use go_react_fihos.Store.Billing.{monthly_fee, generate_monthly_windows, due_windows}
use go_react_fihos.Store.Billing.Monthly.{billed}
use go_react_fihos.Store.Billing.Once.{
  IsBilledOnce, HasUniqueIds, generate-IsBilledOnce, Idle, generate_again, generate_covers,
}
use go_react_fihos.Store.Amount.{Amount, cents, between, half}
use go_react_fihos.Store.Wallet.{
  unpaid_key, adjust_balance, adjust_wallet, debit_wallet_for_bill_by_window,
}
use go_react_fihos.Store.Wallet.Ledger.{
  ledger_sum, IsConsistent, Reach-IsConsistent, here, next, adjust, pay,
}
use go_react_fihos.Store.Wallet.Covered.{adjust_balance-covered}
use go_react_fihos.Store.Wallet.Outcome.{balance_of, Posts, adjust_balance-Posts}
use go_react_fihos.Store.Wallet.Bills.{Paid, pay_bill_once}
use go_react_fihos.Store.Isolation.{
  others, run_all, run_all-isolated, router_deleted, window_deleted,
}
use go_react_fihos.Store.Routers.{delete_router}
use go_react_fihos.Store.Samples.{network, sample, thirty_days, window}

sample-IsConsistent : IsConsistent sample
unfolding ledger_sum ◌+ℤ◌
sample-IsConsistent = record {
  owned = ((omega arith, refl), ((omega arith, refl), tt));
  running = (refl, tt);
}

-- A debit of 150.00 is refused.
overdraft : (adjust_wallet 1 7 (cents (pos 0 -ℤ pos 15000)) [] [] sample).0 ≡ err insufficient
unfolding adjust_wallet ◌-ℤ◌ ◌+ℤ◌ fails later
overdraft = refl

Reach-IsConsistent_example :
    IsConsistent
      (debit_wallet_for_bill_by_window 1 20 []
        (adjust_wallet 1 7 (cents (pos 500)) [] [] sample).2).2
Reach-IsConsistent_example =
    Reach-IsConsistent (next (next here (adjust 1 7 (pos 500) [] [])) (pay 1 20 []))
      sample-IsConsistent

-- The bill of 40.00 is paid from the balance of 100.00.
paid_bill :
    (debit_wallet_for_bill_by_window 1 20 [] sample).0
    ≡ ok (7, record (window 20 7 30 WindowStatus.paid) { paid_at = some 1000 })
unfolding debit_wallet_for_bill_by_window ◌-ℤ◌ ◌+ℤ◌ fails later
paid_bill = refl

paid_bill-IsOk : IsOk (debit_wallet_for_bill_by_window 1 20 [] sample).0
unfolding debit_wallet_for_bill_by_window ◌-ℤ◌ ◌+ℤ◌ fails later
paid_bill-IsOk = tt

pay_bill_once_example :
    (bill : BillingWindow) × (select_row (unpaid_key 1 20) sample.billing_windows ≡ some bill)
    × Paid 1 20 sample bill (debit_wallet_for_bill_by_window 1 20 [] sample).2
pay_bill_once_example = pay_bill_once 1 20 sample [] paid_bill-IsOk

-- Half a cent less than nothing is -0.01 in the ledger, and leaves the balance as it is.
abbrev half_a_cent_off : Amount
half_a_cent_off = between (negsuc 0) half (λ balance. balance)

half_cent :
    let db' = (adjust_wallet 1 7 half_a_cent_off [] [] sample).2 in
    (balance_of 1 7 db' ≡ pos 10000) × (ledger_sum 1 7 db'.wallet_transactions ≡ pos 9999)
unfolding adjust_wallet ◌+ℤ◌ fails later ledger_sum
half_cent = (refl, refl)

adjust_balance-Posts_example :
    let (r, _, db') = adjust_balance 1 7 TxType.adjustment half_a_cent_off [] 0 [] [] sample in
    Posts 1 7 TxType.adjustment half_a_cent_off [] 0 [] sample r db'
adjust_balance-Posts_example =
    adjust_balance-Posts 1 7 TxType.adjustment half_a_cent_off [] 0 [] [] sample

-- Customer 8 pays by token and gets one window of the default fee.
generated : (generate_monthly_windows thirty_days 1 35 [] sample).0 ≡ ok 1
unfolding generate_monthly_windows due_windows monthly_fee fails later
generated = refl

generated-IsOk : IsOk (generate_monthly_windows thirty_days 1 35 [] sample).0
unfolding generate_monthly_windows due_windows monthly_fee fails later
generated-IsOk = tt

sample-HasUniqueIds : HasUniqueIds sample.customers
sample-HasUniqueIds id = ground arith

sample-IsBilledOnce : IsBilledOnce sample.billing_windows
sample-IsBilledOnce k m = ground arith

generate-IsBilledOnce_example :
    IsBilledOnce (generate_monthly_windows thirty_days 1 35 [] sample).2.billing_windows
generate-IsBilledOnce_example =
    generate-IsBilledOnce thirty_days 1 35 [] sample sample-HasUniqueIds sample-IsBilledOnce

generate_again_example :
    let db' = (generate_monthly_windows thirty_days 1 35 [] sample).2 in
    Idle thirty_days 1 50 [] db'
      (generate_monthly_windows thirty_days 1 50 [] db').0
      (generate_monthly_windows thirty_days 1 50 [] db').2
generate_again_example = generate_again thirty_days 1 35 [] sample generated-IsOk 50 [] refl

generate_covers_example :
    let db' = (generate_monthly_windows thirty_days 1 35 [] sample).2 in
    All
      (λ c. c.tenant_id ≡ 1 → c.status ≡ token → 1 ≤ billed c.id 30 db'.billing_windows)
      db'.customers
generate_covers_example = generate_covers thirty_days 1 35 [] sample generated-IsOk

-- Page 0 becomes 1 and size 500 becomes 100.
clamped : page_size (codes "0") (codes "500") ≡ (1, 100)
unfolding page_size parse_digits
clamped = refl

-- The offset of a page that is too large wraps around to a negative one.
wrapped : offset (2 ^ 63 - 1) 100 ≡ pos 0 -ℤ pos 200
unfolding offset ◌-ℤ◌
wrapped = refl

page_size-bounds_example :
    let (p, s) = page_size (codes "3") (codes "500") in
    (1 ≤ p) × (1 ≤ s) × (s ≤ 100) × (p ≤ 2 ^ 56 → offset p s ≡ pos ((p - 1) * s))
page_size-bounds_example = page_size-bounds (codes "3") (codes "500")

-- The second page of one token customer a page is empty.
second_page : (list_customers 1 is_token 2 1 [] sample).0 ≡ ok ([], 1)
unfolding list_customers offset fails later
second_page = refl

run_all-isolated_example :
    others 1 (run_all 1 (router_deleted 6 ∷ window_deleted 70 ∷ []) [] network).2 ≡ others 1 network
run_all-isolated_example = run_all-isolated 1 (router_deleted 6 ∷ window_deleted 70 ∷ []) [] network

-- A router whose hotspot has sessions cannot be deleted.
router_in_use : (delete_router 1 6 [] network).0 ≡ err driver
unfolding delete_router fails later
router_in_use = refl

adjust_balance-covered_example :
    let (_, _, db') = adjust_balance 1 7 TxType.adjustment half_a_cent_off [] 0 [] [] sample in
    pos 0 ≤ℤ balance_of 1 7 db'
adjust_balance-covered_example =
    adjust_balance-covered 1 7 TxType.adjustment half_a_cent_off [] 0 [] sample 1 7 [] (omega arith)
