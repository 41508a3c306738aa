-- ===== src/Service/Tests.antt =====
-- Runs of backend/internal/service on a sample, and the theorems at concrete inputs.
use go_react_fihos.Common.{map, take, length, ◌≤◌, ◌≡◌, refl, true, false, some, [], ◌∷◌, arith}
use go_react_fihos.Common.Int.{pos, ◌+ℤ◌}
use go_react_fihos.Common.Text.{codes, format_int}
use go_react_fihos.Store.Db.{err, driver, fails, later, Faults}
use go_react_fihos.Store.Schema.{Database}
use go_react_fihos.Store.Samples.{sample, open_topup}
use go_react_fihos.Store.Wallet.Ledger.{ledger_sum}
use go_react_fihos.Service.VoucherCode.{
  Outcome, in_alphabet, normalize_code, display_code, generate_code, batch_loop,
}
use go_react_fihos.Service.VoucherCode.Normal.{
  IsCode, Printed, generate_code-Printed, normalize_code-IsCode, normalize_code-display_code,
}
use go_react_fihos.Service.VoucherCode.Batch.{IsDistinct, batch_loop-Grown, batch_loop_returns}
use go_react_fihos.Service.Creds.{session_username, parse_profile_from_username}
use go_react_fihos.Service.Creds.Profile.{parse-session_username}
use go_react_fihos.Service.Provider.{trim_slashes}
use go_react_fihos.Service.Billing.{settle, external_ref}
use go_react_fihos.Service.Billing.Settle.{marked_paid, lost_credit}
use go_react_fihos.Service.Billing.Webhooks.{begun, advance}
use go_react_fihos.Service.Billing.Credits.{credited, settled_rows}
use go_react_fihos.Service.Billing.Interleaving.{
  System, IsSafe, here, next, arrive, move, credited_once,
}

external_ref_example : external_ref (codes "topup") 8 (codes "a1b2c3") ≡ codes "topup-8-a1b2c3"
unfolding external_ref format_int
external_ref_example = refl

trimmed : trim_slashes (codes "https://pay/x//") ≡ codes "https://pay/x"
unfolding trim_slashes
trimmed = refl

abbrev settled : Database
settled = marked_paid open_topup sample

-- The webhook of the open top-up credits 48.50.
credited_topup :
    ledger_sum 1 8 (settle (codes "topup-8-a1b2c3") [] sample).2.wallet_transactions ≡ pos 4850
unfolding settle fails later ledger_sum ◌+ℤ◌
credited_topup = refl

lost_credit_example :
    let (r, _, db') = settle (codes "topup-8-a1b2c3") (false ∷ false ∷ true ∷ []) sample in
    (r ≡ err driver)
    × (db'.wallet_transactions ≡ sample.wallet_transactions)
    × ((fs : Faults) → (settle (codes "topup-8-a1b2c3") fs db').2 ≡ db')
lost_credit_example =
    lost_credit (codes "topup-8-a1b2c3") sample open_topup 8 refl refl refl refl (omega arith)

abbrev start : System
start = record { db = sample; workers = begun (codes "topup-8-a1b2c3") ∷ [] }

start-IsSafe : IsSafe start
start-IsSafe = record {
  bounded = λ id. ground arith;
  ids = (λ id. ground arith, λ id h. ground arith);
}

-- A second webhook for the same payment arrives before the first has read it.
credited_once_example :
    let w = advance (begun (codes "topup-8-a1b2c3")) [] sample in
    (credited 30 w.2 ≤ 1) × (credited 30 w.2 ≤ settled_rows 30 w.2)
credited_once_example =
    credited_once
      (next (next here (arrive (codes "topup-8-a1b2c3")))
        (move [] (begun (codes "topup-8-a1b2c3") ∷ []) (begun (codes "topup-8-a1b2c3")) [] refl))
      start-IsSafe 30

typed_code : normalize_code (codes "ab2c-d3ef") ≡ Outcome.ok (codes "AB2CD3EF")
unfolding normalize_code in_alphabet
typed_code = refl

normalized-IsCode : IsCode (codes "AB2CD3EF")
unfolding in_alphabet
normalized-IsCode = (refl, refl)

normalize_code-IsCode_example :
    IsCode (codes "AB2CD3EF") × (normalize_code (codes "AB2CD3EF") ≡ Outcome.ok (codes "AB2CD3EF"))
normalize_code-IsCode_example =
    normalize_code-IsCode (codes "ab2c-d3ef") (codes "AB2CD3EF") typed_code

normalize_code-display_code_example :
    normalize_code (display_code (codes "AB2CD3EF")) ≡ Outcome.ok (codes "AB2CD3EF")
normalize_code-display_code_example =
    normalize_code-display_code (codes "AB2CD3EF") normalized-IsCode

-- The second code comes up twice.
three_draws :
    batch_loop 2 [] (Outcome.ok (codes "A") ∷ Outcome.ok (codes "A") ∷ Outcome.ok (codes "B") ∷ [])
    ≡ Outcome.ok (codes "A" ∷ codes "B" ∷ [])
unfolding batch_loop
three_draws = refl

batch_loop-Grown_example :
    (length (codes "A" ∷ codes "B" ∷ []) ≡ 2) × IsDistinct (codes "A" ∷ codes "B" ∷ [])
batch_loop-Grown_example =
    batch_loop-Grown 2
      (Outcome.ok (codes "A") ∷ Outcome.ok (codes "A") ∷ Outcome.ok (codes "B") ∷ [])
      (codes "A" ∷ codes "B" ∷ []) three_draws

batch_loop_returns_example :
    batch_loop 1 [] (map Outcome.ok (codes "A" ∷ codes "B" ∷ []))
    ≡ Outcome.ok (take 1 (codes "A" ∷ codes "B" ∷ []))
batch_loop_returns_example =
    batch_loop_returns 1 (codes "A" ∷ codes "B" ∷ []) (omega arith) (refl, (refl, tt))

generate_code-Printed_example : Printed (generate_code (6 ∷ 7 ∷ 0 ∷ 1 ∷ 2 ∷ 3 ∷ 4 ∷ 29 ∷ []))
generate_code-Printed_example = generate_code-Printed (6 ∷ 7 ∷ 0 ∷ 1 ∷ 2 ∷ 3 ∷ 4 ∷ 29 ∷ [])

parse-session_username_example :
    parse_profile_from_username (session_username 17 (codes "AB2C-D3EF")) ≡ some 17
parse-session_username_example = parse-session_username 17 (codes "AB2C-D3EF") (omega arith)
