-- ===== src/Handler/Customers/Pays.antt =====
-- What the payment of a bill changes: `PostBillingPay` of backend/internal/handler/customers.go.
use go_react_fihos.Common.{
  ℕ, ◌==◌, ◌≡◌, ◌≢◌, refl, Bool, true, Option, none, some, arith, Bool-cases, inl, inr, ◌⊎◌,
}
use mathlib.Core.Path.{subst, sym}
use go_react_fihos.Common.Text.{Text, codes, text_eq}
use go_react_fihos.Store.Db.{Result, ok, err, Error, Faults, IsOk, IsErr}
use go_react_fihos.Store.Sql.{select_row, update_where, select-update_missing}
use go_react_fihos.Store.Schema.{Database, BillingWindow}
use go_react_fihos.Store.Billing.{window_key, mark_paid, mark_window_paid}
use go_react_fihos.Store.Paging.{parse_id}
use go_react_fihos.Store.Wallet.{unpaid_key, debit_wallet_for_bill_by_window}
use go_react_fihos.Store.Wallet.Bills.{Paid, pay_bill_once, not_both}
use go_react_fihos.Handler.{Reply, replied, refused, fail, on, reply}
use go_react_fihos.Handler.Ends.{fail-Refused}
use go_react_fihos.Handler.Customers.{with_id, or_default, pay_error, pay_by, post_billing_pay}

-- A bill of the tenant is there, and is marked paid; nothing else changes.
abbrev pub Marked : ℕ → ℕ → Database → Database → Type 0
Marked tenant_id id db db' =
    (select_row (window_key tenant_id id) db.billing_windows ≢ none)
    × db' ≡ record db {
      billing_windows =
          update_where (window_key tenant_id id) (mark_paid db.now) db.billing_windows;
    }

abbrev pub Charged : ℕ → ℕ → Database → Database → Type 0
Charged tenant_id id db db' =
    (bill : BillingWindow) × (select_row (unpaid_key tenant_id id) db.billing_windows ≡ some bill)
    × Paid tenant_id id db bill db'

abbrev pub by_manual : Text → Bool
by_manual method = text_eq (or_default (codes "wallet") method) (codes "manual")

abbrev pub by_wallet : Text → Bool
by_wallet method = text_eq (or_default (codes "wallet") method) (codes "wallet")

-- What a payment of the bill `id` of the tenant leaves, whose answer is `r`.
abbrev pub Pays : ℕ → ℕ → Text → Database → Reply (ℕ × BillingWindow) → Database → Type 0
Pays tenant_id id method db (refused status code) db' = db' ≡ db
Pays tenant_id id method db (replied status w) db' =
    ((by_manual method ≡ true) × Marked tenant_id id db db')
    ⊎ ((by_wallet method ≡ true) × Charged tenant_id id db db')

-- The bill is that of the path.
abbrev pub Answers : ℕ → Text → Text → Database → Reply (ℕ × BillingWindow) → Database → Type 0
Answers tenant_id path method db (refused status code) db' = db' ≡ db
Answers tenant_id path method db (replied status w) db' =
    (tenant_id ≢ 0)
    × (id : ℕ) × (parse_id path ≡ some id)
    × Pays tenant_id id method db (replied status w) db'

-- A failed payment from the wallet changes nothing.
debit-unchanged :
    (tenant_id id : ℕ) (fs : Faults) (db : Database)
    → IsErr (debit_wallet_for_bill_by_window tenant_id id fs db).0
    → (debit_wallet_for_bill_by_window tenant_id id fs db).2 ≡ db
unfolding debit_wallet_for_bill_by_window
debit-unchanged tenant_id id fs db e = ground arith

mark-unchanged :
    (tenant_id id : ℕ) (fs : Faults) (db : Database)
    → IsErr (mark_window_paid tenant_id id fs db).0
    → (mark_window_paid tenant_id id fs db).2 ≡ db
unfolding mark_window_paid
mark-unchanged tenant_id id fs db e = ground arith

marked_missing :
    (tenant_id id : ℕ) (fs : Faults) (db : Database)
    → select_row (window_key tenant_id id) db.billing_windows ≡ none
    → IsErr (mark_window_paid tenant_id id fs db).0
unfolding mark_window_paid
marked_missing tenant_id id fs db e = ground (
  arith,
  select-update_missing (window_key tenant_id id) (mark_paid db.now) db.billing_windows (λ y. refl)
      e,
)

mark-Marked :
    (tenant_id id : ℕ) (fs : Faults) (db : Database)
    → IsOk (mark_window_paid tenant_id id fs db).0
    → Marked tenant_id id db (mark_window_paid tenant_id id fs db).2
unfolding mark_window_paid
mark-Marked tenant_id id fs db e =
    (λ missing. not_both _ e (marked_missing tenant_id id fs db missing), ground arith)

-- A balance that does not cover the amount is answered as elsewhere.
pay_error-fail : (e : Error) → pay_error e ≡ fail e
unfolding fail
pay_error-fail Error.not_found = refl
pay_error-fail Error.conflict = refl
pay_error-fail Error.insufficient = refl
pay_error-fail Error.amount_not_positive = refl
pay_error-fail Error.amount_zero = refl
pay_error-fail Error.driver = refl
pay_error-fail Error.unique_violation = refl
pay_error-fail Error.unknown_router = refl
pay_error-fail Error.router_offline = refl
pay_error-fail Error.no_hotspot = refl
pay_error-fail Error.sandbox_not_configured = refl
pay_error-fail Error.random_source = refl

pay_error-Refused :
    (Q : Reply (ℕ × BillingWindow) → Type 0)
    → ((status : ℕ) (code : Text) → Q (refused status code))
    → (e : Error) → Q (pay_error e)
pay_error-Refused Q h e = subst Q (sym (pay_error-fail e)) (fail-Refused Q h e)

module _ (tenant_id id : ℕ) (method : Text) (db : Database) where
  error-Pays :
      (e : Error) (db' : Database) → db' ≡ db → Pays tenant_id id method db (pay_error e) db'
  error-Pays e db' u =
      pay_error-Refused (λ r. Pays tenant_id id method db r db') (λ status code. u) e

  -- What the answer to a call is, from what the call did.
  result-Pays :
      {A : Type 0} (answer : A → ℕ × BillingWindow) (r : Result A) (fs : Faults) (db' : Database)
      → (IsErr r → db' ≡ db)
      → ((a : A) → IsOk r → Pays tenant_id id method db (replied 200 (answer a)) db')
      → let (q, fs', db'') : Reply (ℕ × BillingWindow) × Faults × Database = elim r [
        | ok a ↦ (replied 200 (answer a), fs, db')
        | err e ↦ (pay_error e, fs, db')
      ] in
        Pays tenant_id id method db q db''
  result-Pays answer (ok a) fs db' eh ek = ek a tt
  result-Pays answer (err e) fs db' eh ek = error-Pays e db' (eh tt)

  manual-Pays :
      (fs : Faults)
      → by_manual method ≡ true
      → let (r, _, db') =
          on (mark_window_paid tenant_id id) pay_error (λ w. reply (replied 200 (0, w))) fs db in
        Pays tenant_id id method db r db'
  manual-Pays fs e =
      let (r, fs', db') = mark_window_paid tenant_id id fs db in
      result-Pays (λ w. (0, w)) r fs' db' (mark-unchanged tenant_id id fs db)
        (λ w done. inl (e, mark-Marked tenant_id id fs db done))

  wallet-Pays :
      (fs : Faults)
      → by_wallet method ≡ true
      → let (r, _, db') =
          on
            (debit_wallet_for_bill_by_window tenant_id id)
            pay_error
            (λ p. reply (replied 200 p))
            fs
            db in
        Pays tenant_id id method db r db'
  wallet-Pays fs e =
      let (r, fs', db') = debit_wallet_for_bill_by_window tenant_id id fs db in
      result-Pays (λ p. p) r fs' db' (debit-unchanged tenant_id id fs db)
        (λ p done. inr (e, pay_bill_once tenant_id id db fs done))

  pay_by-Pays :
      (fs : Faults)
      → let (r, _, db') = pay_by tenant_id id (or_default (codes "wallet") method) fs db in
        Pays tenant_id id method db r db'
  unfolding pay_by
  pay_by-Pays fs = elim (Bool-cases (by_manual method)) [
    | inl m ↦ rw m (manual-Pays fs m)
    | inr m ↦ rw m (elim (Bool-cases (by_wallet method)) [
      | inl w ↦ rw w (wallet-Pays fs w)
      | inr w ↦ rw w refl
    ])
  ]

  Pays-Answers :
      (path : Text) (r : Reply (ℕ × BillingWindow)) (db' : Database)
      → tenant_id ≢ 0
      → parse_id path ≡ some id
      → Pays tenant_id id method db r db'
      → Answers tenant_id path method db r db'
  Pays-Answers path (refused status code) db' t p h = h
  Pays-Answers path (replied status w) db' t p h = (t, id, p, h)

module _ (tenant_id : ℕ) (path method : Text) (fs : Faults) (db : Database) where
  path-Answers :
      (found : Option ℕ)
      → parse_id path ≡ found
      → tenant_id ≢ 0
      → let (r, _, db') =
          with_id found (λ id. pay_by tenant_id id (or_default (codes "wallet") method)) fs db in
        Answers tenant_id path method db r db'
  path-Answers none e t = refl
  path-Answers (some id) e t =
      let (r, _, db') = pay_by tenant_id id (or_default (codes "wallet") method) fs db in
      Pays-Answers tenant_id id method db path r db' t e (pay_by-Pays tenant_id id method db fs)

  -- A payment of a bill, whatever is asked and whatever fails in it, either is refused and changes
  -- nothing, or is of a bill of the tenant. By hand it marks the bill paid and changes nothing
  -- else. From the wallet, the default, the bill was not paid, the balance of its owner covered
  -- the amount and went down by it, no other balance changed, and a second payment from the wallet
  -- is refused and changes nothing.
  pub post_billing_pay-Answers :
      let (r, _, db') = post_billing_pay tenant_id path method fs db in
      Answers tenant_id path method db r db'
  unfolding post_billing_pay
  post_billing_pay-Answers = elim (Bool-cases (tenant_id == 0)) [
    | inl z ↦ rw z refl
    | inr z ↦ rw z (path-Answers (parse_id path) refl (ground (arith, z)))
  ]
