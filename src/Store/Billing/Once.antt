-- ===== src/Store/Billing/Once.antt =====
-- Repeated runs of `GenerateMonthlyWindows` (backend/internal/store/billing.go).
use mathlib.Core.List.{append-nil}
use go_react_fihos.Common.{
  ℕ, ◌≤◌, ◌≡◌, ◌≢◌, ap, false, ◌==◌, List, [], ◌++◌, arith, All, All-imp, any, Bool-cases, inl, inr,
}
use go_react_fihos.Store.Db.{Result, ok, err, Faults, IsOk, driver}
use go_react_fihos.Store.Schema.{Database, Customer, token, BillingWindow}
use go_react_fihos.Store.Billing.{Calendar, bills, is_due, generate_monthly_windows}
use go_react_fihos.Store.Billing.Monthly.{
  billed, billed-append, any-billed, none-billed, with_id, created, created-le, created-none,
  created-other, created-covers, none-created, fee_of, Generates, generate-Generates,
}

-- No customer has two windows for one month.
abbrev pub IsBilledOnce : List BillingWindow → Type 0
IsBilledOnce ws = (customer_id month : ℕ) → billed customer_id month ws ≤ 1

abbrev pub HasUniqueIds : List Customer → Type 0
HasUniqueIds cs = (id : ℕ) → with_id id cs ≤ 1

module _ (cal : Calendar) (tenant_id now : ℕ) (fs : Faults) (db : Database) where
  created-IsBilledOnce :
      HasUniqueIds db.customers
      → IsBilledOnce db.billing_windows
      → IsBilledOnce (db.billing_windows ++ created cal tenant_id now fs db)
  created-IsBilledOnce unique once k m =
      let ws = db.billing_windows in
      let month = cal.month_start now in
      let fee = fee_of tenant_id fs db in
      rw (billed-append k m ws (created cal tenant_id now fs db)) (elim (Bool-cases (m == month)) [
        | inr other ↦ omega (
          arith,
          once k m,
          created-other tenant_id month (cal.month_end now) fee db.now ws k m db.next_id
              db.customers (ground arith),
        )
        | inl same ↦ elim (Bool-cases (any (bills k month) ws)) [
          | inl b ↦ ground (
            arith,
            once k m,
            created-none tenant_id month (cal.month_end now) fee db.now ws k db.next_id db.customers
                b,
          )
          | inr b ↦ ground (
            arith,
            unique k,
            none-billed k month ws b,
            created-le tenant_id month (cal.month_end now) fee db.now ws k db.next_id db.customers,
          )
        ]
      ])

  Generates-IsBilledOnce :
      (r : Result ℕ) (db' : Database)
      → Generates cal tenant_id now fs db r db'
      → HasUniqueIds db.customers
      → IsBilledOnce db.billing_windows
      → IsBilledOnce db'.billing_windows
  Generates-IsBilledOnce (err e) db' (_, same) unique once = rw same once
  Generates-IsBilledOnce (ok n) db' (_, post) unique once =
      rw post (created-IsBilledOnce unique once)

  -- With one row for each customer id, no customer gets a second window for a month, whichever
  -- statement fails.
  pub generate-IsBilledOnce :
      HasUniqueIds db.customers
      → IsBilledOnce db.billing_windows
      → IsBilledOnce (generate_monthly_windows cal tenant_id now fs db).2.billing_windows
  generate-IsBilledOnce = Generates-IsBilledOnce _ _ (generate-Generates cal tenant_id now fs db)

  -- After a run, no customer is due: it was billed already, or by this run.
  covered :
      All
        (λ c.
          is_due tenant_id
            (cal.month_start now)
            (db.billing_windows ++ created cal tenant_id now fs db)
            c
          ≡ false)
        db.customers
  covered =
      let ws = db.billing_windows in
      let month = cal.month_start now in
      All-imp _ _ db.customers
        (λ c h. ground (
          arith,
          h,
          billed-append c.id month ws (created cal tenant_id now fs db),
          any-billed c.id month ws,
          none-billed c.id month (ws ++ created cal tenant_id now fs db),
        ))
        (created-covers tenant_id month (cal.month_end now) (fee_of tenant_id fs db) db.now ws
          db.next_id db.customers)

  Generates-covered :
      (r : Result ℕ) (db' : Database)
      → Generates cal tenant_id now fs db r db'
      → IsOk r
      → All
          (λ c. is_due tenant_id (cal.month_start now) db'.billing_windows c ≡ false)
          db'.customers
  Generates-covered (err e) db' same p = absurd p
  Generates-covered (ok n) db' (_, post) _ = rw post covered

-- What a run with nothing to bill does.
module _ (cal : Calendar) (tenant_id now : ℕ) (fs : Faults) (db : Database) where
  abbrev pub Idle : Result ℕ → Database → Type 0
  Idle r db' = (r ≢ ok 0 → r ≡ err driver) × (db'.billing_windows ≡ db.billing_windows)

  Generates-Idle :
      (r : Result ℕ) (db' : Database)
      → Generates cal tenant_id now fs db r db'
      → created cal tenant_id now fs db ≡ []
      → Idle r db'
  Generates-Idle (err e) db' (failed, same) none = (λ _. ap err failed, rw same)
  Generates-Idle (ok n) db' (count, post) none =
      (λ some. absurd (some (rw (count, none))), rw post (rw none (append-nil db.billing_windows)))

module _ (cal : Calendar) (tenant_id now : ℕ) (fs : Faults) (db : Database) where
  -- Once a run has succeeded, every later run for the same month creates nothing: it returns 0 or
  -- fails in the driver, and the windows stay as they are.
  pub generate_again :
      IsOk (generate_monthly_windows cal tenant_id now fs db).0
      → (later_on : ℕ) (fs' : Faults) → cal.month_start later_on ≡ cal.month_start now
      → let db' = (generate_monthly_windows cal tenant_id now fs db).2 in
        Idle cal tenant_id later_on fs' db'
          (generate_monthly_windows cal tenant_id later_on fs' db').0
          (generate_monthly_windows cal tenant_id later_on fs' db').2
  generate_again done later_on fs' same_month =
      let db' = (generate_monthly_windows cal tenant_id now fs db).2 in
      Generates-Idle cal tenant_id later_on fs' db' _ _
        (generate-Generates cal tenant_id later_on fs' db')
        (none-created tenant_id (cal.month_start later_on) (cal.month_end later_on)
          (fee_of tenant_id fs' db') db'.now db'.billing_windows db'.next_id db'.customers
          (rw same_month (
            Generates-covered cal tenant_id now fs db _ _
              (generate-Generates cal tenant_id now fs db) done)))

  pub generate_none_due :
      IsOk (generate_monthly_windows cal tenant_id now fs db).0
      → let db' = (generate_monthly_windows cal tenant_id now fs db).2 in
        All
          (λ c. is_due tenant_id (cal.month_start now) db'.billing_windows c ≡ false)
          db'.customers
  generate_none_due done =
      Generates-covered cal tenant_id now fs db _ _ (generate-Generates cal tenant_id now fs db)
        done

  -- A run that succeeds leaves every token customer of the tenant with a window for the month.
  pub generate_covers :
      IsOk (generate_monthly_windows cal tenant_id now fs db).0
      → let db' = (generate_monthly_windows cal tenant_id now fs db).2 in
        All
          (λ c.
            c.tenant_id ≡ tenant_id
            → c.status ≡ token
            → 1 ≤ billed c.id (cal.month_start now) db'.billing_windows)
          db'.customers
  generate_covers done =
      let db' = (generate_monthly_windows cal tenant_id now fs db).2 in
      All-imp _ _ db'.customers
        (λ c h t k. ground (arith, h, any-billed c.id (cal.month_start now) db'.billing_windows))
        (Generates-covered cal tenant_id now fs db _ _ (generate-Generates cal tenant_id now fs db)
          done)
