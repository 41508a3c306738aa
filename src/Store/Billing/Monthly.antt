-- ===== src/Store/Billing/Monthly.antt =====
-- The windows that one run of `GenerateMonthlyWindows` (backend/internal/store/billing.go) creates.
use go_react_fihos.Common.{
  ℕ, suc, ◌+◌, ◌≤◌, ◌≡◌, ◌≢◌, refl, Bool, true, false, ◌==◌, All-imp, List, [], ◌∷◌, ◌++◌, arith,
  if◌then◌else◌, All, any, length, Bool-cases, inl, inr,
}
use go_react_fihos.Common.Int.{ℤ, pos, ◌≤ℤ◌}
use go_react_fihos.Store.Amount.{stored}
use go_react_fihos.Store.Db.{Result, ok, err, Faults, driver}
use go_react_fihos.Store.Schema.{Database, Customer, BillingWindow}
use go_react_fihos.Store.Billing.{
  Calendar, monthly_fee, bills, is_due, issue, due_windows, generate_monthly_windows,
}

-- How many of the windows bill a customer for a month: UNIQUE (customer_id, period_start).
abbrev pub billed : ℕ → ℕ → List BillingWindow → ℕ
billed customer_id month [] = 0
billed customer_id month (w ∷ ws) =
    (if bills customer_id month w then 1 else 0) + billed customer_id month ws

pub billed-append :
    (customer_id month : ℕ) (xs ys : List BillingWindow)
    → billed customer_id month (xs ++ ys)
      ≡ billed customer_id month xs + billed customer_id month ys
billed-append customer_id month [] ys = omega arith
billed-append customer_id month (x ∷ xs) ys = omega (arith, billed-append customer_id month xs ys)

pub any-billed :
    (customer_id month : ℕ) (ws : List BillingWindow)
    → any (bills customer_id month) ws ≡ true
    → 1 ≤ billed customer_id month ws
any-billed customer_id month [] e = cc
any-billed customer_id month (w ∷ ws) e = ground (arith, any-billed customer_id month ws)

pub none-billed :
    (customer_id month : ℕ) (ws : List BillingWindow)
    → any (bills customer_id month) ws ≡ false
    → billed customer_id month ws ≡ 0
none-billed customer_id month [] e = refl
none-billed customer_id month (w ∷ ws) e = ground (arith, none-billed customer_id month ws)

-- How many customers have an id: the primary key allows one.
abbrev pub with_id : ℕ → List Customer → ℕ
with_id id [] = 0
with_id id (c ∷ cs) = (if c.id == id then 1 else 0) + with_id id cs

module _ (tenant_id month month_end : ℕ) (fee : ℤ) (now : ℕ) (windows : List BillingWindow) where
  abbrev pub due : Customer → Bool
  due = is_due tenant_id month windows

  abbrev pub new : ℕ → Customer → BillingWindow
  new id c = issue month month_end fee id now c

  -- A customer that is due gets one window for each of its rows, another customer none.
  pub created-le :
      (customer_id : ℕ) (id : ℕ) (cs : List Customer)
      → billed customer_id month (due_windows due new id cs) ≤ with_id customer_id cs
  unfolding due_windows
  created-le customer_id id [] = omega arith
  created-le customer_id id (c ∷ cs) =
      ground (arith, created-le customer_id (if due c then suc id else id) cs)

  pub created-none :
      (customer_id : ℕ) (id : ℕ) (cs : List Customer)
      → any (bills customer_id month) windows ≡ true
      → billed customer_id month (due_windows due new id cs) ≡ 0
  unfolding due_windows
  created-none customer_id id [] h = refl
  created-none customer_id id (c ∷ cs) h =
      ground (arith, created-none customer_id (if due c then suc id else id) cs)

  pub created-other :
      (customer_id m id : ℕ) (cs : List Customer)
      → m ≢ month
      → billed customer_id m (due_windows due new id cs) ≡ 0
  unfolding due_windows
  created-other customer_id m id [] h = refl
  created-other customer_id m id (c ∷ cs) h =
      ground (arith, created-other customer_id m (if due c then suc id else id) cs)

  -- A customer that is not due already has a window, is no token customer or is another tenant's.
  pub created-covers :
      (id : ℕ) (cs : List Customer)
      → All (λ c. due c ≡ true → 1 ≤ billed c.id month (due_windows due new id cs)) cs
  unfolding due_windows
  created-covers id [] = tt
  created-covers id (c ∷ cs) = (
    λ d. ground arith,
    All-imp
        (λ c'.
          due c' ≡ true
          → 1 ≤ billed c'.id month (due_windows due new (if due c then suc id else id) cs))
        (λ c'. due c' ≡ true → 1 ≤ billed c'.id month (due_windows due new id (c ∷ cs))) cs
        (λ x h d. ground (arith, h d)) (created-covers (if due c then suc id else id) cs),
  )

  pub created-positive :
      (id : ℕ) (cs : List Customer)
      → pos 1 ≤ℤ fee
      → All (λ w. pos 1 ≤ℤ w.amount) (due_windows due new id cs)
  unfolding due_windows
  created-positive id [] p = tt
  created-positive id (c ∷ cs) p = elim (Bool-cases (due c)) [
    | inl d ↦ rw d (p, created-positive (suc id) cs p)
    | inr d ↦ rw d (created-positive id cs p)
  ]

  pub none-created :
      (id : ℕ) (cs : List Customer) → All (λ c. due c ≡ false) cs → due_windows due new id cs ≡ []
  unfolding due_windows
  none-created id [] h = refl
  none-created id (c ∷ cs) h = rw h.0 (none-created id cs h.1)

-- The fee of a call as its column keeps it, and the windows that it creates.
abbrev pub fee_of : ℕ → Faults → Database → ℤ
fee_of tenant_id fs db = elim (monthly_fee tenant_id fs db).0 [
  | ok fee ↦ stored fee
  | err e ↦ pos 0
]

abbrev pub created : Calendar → ℕ → ℕ → Faults → Database → List BillingWindow
created cal tenant_id now fs db =
    due_windows (is_due tenant_id (cal.month_start now) db.billing_windows)
      (λ id c. issue (cal.month_start now) (cal.month_end now) (fee_of tenant_id fs db) id db.now c)
      db.next_id db.customers

abbrev pub Generates : Calendar → ℕ → ℕ → Faults → Database → Result ℕ → Database → Type 0
Generates cal tenant_id now fs db (err e) db' = (e ≡ driver) × (db' ≡ db)
Generates cal tenant_id now fs db (ok n) db' =
    (n ≡ length (created cal tenant_id now fs db))
    × (db' ≡ record db {
      billing_windows = db.billing_windows ++ created cal tenant_id now fs db;
      next_id = db.next_id + length (created cal tenant_id now fs db);
    })

pub generate-Generates :
    (cal : Calendar) (tenant_id now : ℕ) (fs : Faults) (db : Database)
    → let (r, _, db') = generate_monthly_windows cal tenant_id now fs db in
      Generates cal tenant_id now fs db r db'
unfolding generate_monthly_windows
generate-Generates cal tenant_id now fs db = ground arith
