-- ===== src/Store/Wallet/Covered.antt =====
-- Balances under amounts of any fraction of a cent (backend/internal/store/wallet.go).
use go_react_fihos.Common.{ℕ, ◌≡◌, false, arith, Bool-cases, inl, inr}
use go_react_fihos.Common.Int.{ℤ, pos, ◌+ℤ◌, ◌≤ℤ◌, ltb_ℤ, int_laws}
use go_react_fihos.Common.Text.{Text}
use go_react_fihos.Store.Db.{Result, ok, err, Faults}
use go_react_fihos.Store.Amount.{Amount, cents, between, below, half, above, added, overdraws}
use go_react_fihos.Store.Schema.{Database, TxType}
use go_react_fihos.Store.Wallet.{adjust_balance}
use go_react_fihos.Store.Wallet.Outcome.{balance_of, Posts, adjust_balance-Posts}
use go_react_fihos.Store.Wallet.Bills.{same_customer, balance_of-posted}

not_below : (b : ℤ) → ltb_ℤ b (pos 0) ≡ false → pos 0 ≤ℤ b
not_below b e = ground arith

-- The rounding of a sum that is not below 0 is not below 0.
added_covered : (b : ℤ) (a : Amount) → overdraws b a ≡ false → pos 0 ≤ℤ added b a
added_covered b (cents c) e = not_below (b +ℤ c) e
added_covered b (between c below f) e = not_below (b +ℤ c) e
added_covered b (between c half f) e =
    let more = not_below (b +ℤ c) e in rw e (omega (int_laws, more))
added_covered b (between c above f) e = let more = not_below (b +ℤ c) e in omega (int_laws, more)

module _ (tenant_id customer_id : ℕ) (type : TxType) (delta : Amount) (ref_type : Text) (ref_id : ℕ)
    (note : Text) (db : Database) (t c : ℕ) where
  Posts-covered :
      (r : Result Unit) (db' : Database)
      → Posts tenant_id customer_id type delta ref_type ref_id note db r db'
      → pos 0 ≤ℤ balance_of t c db
      → pos 0 ≤ℤ balance_of t c db'
  Posts-covered (err e) db' same h = rw same h
  Posts-covered (ok _) db' (found, covered, post) h = rw post (
      rw (balance_of-posted tenant_id customer_id type delta ref_type ref_id note db t c found)
        (elim (Bool-cases (same_customer tenant_id customer_id t c)) [
          | inl s ↦ rw s (added_covered (balance_of tenant_id customer_id db) delta covered)
          | inr s ↦ rw s h
        ]))

  -- A balance that is not negative does not become negative by a correction or a credit, of
  -- whatever customer and of whatever amount, also one with a fraction of a cent, and whichever
  -- statement fails.
  pub adjust_balance-covered :
      (fs : Faults)
      → pos 0 ≤ℤ balance_of t c db
      → let (_, _, db') =
          adjust_balance tenant_id customer_id type delta ref_type ref_id note fs db in
        pos 0 ≤ℤ balance_of t c db'
  adjust_balance-covered fs h =
      let (r, fs', db') =
        adjust_balance tenant_id customer_id type delta ref_type ref_id note fs db in
      Posts-covered r db'
        (adjust_balance-Posts tenant_id customer_id type delta ref_type ref_id note fs db) h
