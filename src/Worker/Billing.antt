-- ===== src/Worker/Billing.antt =====
-- A pass of `billingTick` in backend/cmd/worker/main.go over the tenants.
use mathlib.Core.Path.{subst, sym}
use go_react_fihos.Common.{
  ℕ, ◌≡◌, ◌≤◌, refl, true, false, List, [], ◌∷◌, ◌++◌, arith, All, All-imp, map, any,
}
use go_react_fihos.Store.Db.{Result, ok, err, Faults, Call, ignore, fails, later, IsOk}
use go_react_fihos.Store.Db.Keeps.{Keeps}
use go_react_fihos.Store.Sql.{select_rows}
use go_react_fihos.Store.Schema.{Database, token, BillingWindow}
use go_react_fihos.Store.Billing.{Calendar, bills, is_due, generate_monthly_windows, monthly_fee}
use go_react_fihos.Store.Billing.Monthly.{
  billed, any-billed, created, Generates, generate-Generates,
}
use go_react_fihos.Store.Billing.Once.{generate_none_due}
use go_react_fihos.Store.Tenants.{active_tenant_ids, is_active_tenant}
use go_react_fihos.Worker.{billing_tick}
use go_react_fihos.Store.World.{World, on_db, for_each}
use go_react_fihos.Store.World.Keeps.{for_each-Keeps, ignored-Keeps}

-- Nobody of a tenant is due a window for a month.
abbrev pub NoneDue : ℕ → ℕ → Database → Type 0
NoneDue tenant_id month db =
    All (λ c. is_due tenant_id month db.billing_windows c ≡ false) db.customers

module _ (cal : Calendar) (now : ℕ) where
  any-append :
      (k month : ℕ) (xs ys : List BillingWindow)
      → any (bills k month) xs ≡ true
      → any (bills k month) (xs ++ ys) ≡ true
  any-append k month [] ys h = cc
  any-append k month (x ∷ xs) ys h = ground (arith, any-append k month xs ys)

  Generates-NoneDue :
      (t tenant_id month : ℕ) (fs : Faults) (db : Database) (r : Result ℕ) (db' : Database)
      → Generates cal tenant_id now fs db r db'
      → NoneDue t month db
      → NoneDue t month db'
  Generates-NoneDue t tenant_id month fs db (err e) db' (_, same) h = rw same h
  Generates-NoneDue t tenant_id month fs db (ok n) db' (_, post) h = rw post (
      All-imp _ _ db.customers
        (λ c k.
          ground
            (arith, k, any-append c.id month db.billing_windows (created cal tenant_id now fs db)))
        h)

  generate-NoneDue :
      (t tenant_id month : ℕ) → Keeps (NoneDue t month) (generate_monthly_windows cal tenant_id now)
  generate-NoneDue t tenant_id month fs db h =
      Generates-NoneDue t tenant_id month fs db _ _ (generate-Generates cal tenant_id now fs db) h

  generate_quiet :
      (tenant_id : ℕ) (db : Database)
      → let (r, fs, db') = generate_monthly_windows cal tenant_id now [] db in IsOk r × (fs ≡ [])
  unfolding generate_monthly_windows monthly_fee fails later
  generate_quiet tenant_id db = (tt, refl)

module _ {S : Type 0} (cal : Calendar) (now : ℕ) where
  abbrev bill : ℕ → Call (World S) Unit
  bill t = ignore (on_db (generate_monthly_windows cal t now))

  bills-NoneDue :
      (t : ℕ) (ts : List ℕ) → Keeps (λ w. NoneDue t (cal.month_start now) w.db) (for_each bill ts)
  bills-NoneDue t ts =
      for_each-Keeps (λ w. NoneDue t (cal.month_start now) w.db) bill ts
        (λ u.
          ignored-Keeps (NoneDue t (cal.month_start now)) (generate_monthly_windows cal u now)
            (generate-NoneDue cal now t u (cal.month_start now)))

  each_tenant_billed :
      (ts : List ℕ) (w : World S)
      → All (λ t. NoneDue t (cal.month_start now) (for_each bill ts [] w).2.db) ts
  each_tenant_billed [] w = tt
  each_tenant_billed (t ∷ ts) w =
      let (done, none_fails) = generate_quiet cal now t w.db in
      let (r, fs, w') = bill t [] w in
      (
        bills-NoneDue t ts fs w' (generate_none_due cal t now [] w.db done),
        subst (λ fs. All (λ u. NoneDue u (cal.month_start now) (for_each bill ts fs w').2.db) ts)
            (sym none_fails) (each_tenant_billed ts w'),
      )

-- Every token customer of a tenant has a window for a month.
abbrev pub IsCovered : ℕ → Database → ℕ → Type 0
IsCovered month db tenant_id =
    All (λ c. c.tenant_id ≡ tenant_id → c.status ≡ token → 1 ≤ billed c.id month db.billing_windows)
      db.customers

-- After a pass in which no statement fails, every token customer of every active tenant has a
-- window for the month.
pub billing_tick-IsCovered :
    {S : Type 0} (cal : Calendar) (now : ℕ) (w : World S)
    → All
        (IsCovered (cal.month_start now) (billing_tick cal false now [] w).2.db)
        (map (λ t. t.id) (select_rows is_active_tenant w.db.tenants))
unfolding billing_tick active_tenant_ids fails later
billing_tick-IsCovered {S} cal now w =
    let month = cal.month_start now in
    let ts = map (λ t. t.id) (select_rows is_active_tenant w.db.tenants) in
    let db' = (for_each (bill {S = S} cal now) ts [] w).2.db in
    All-imp _ _ ts
      (λ t h.
        All-imp _ _ db'.customers
          (λ c k e f. ground (arith, k, e, f, any-billed c.id month db'.billing_windows)) h)
      (each_tenant_billed cal now ts w)
