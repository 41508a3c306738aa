-- ===== src/Store/Payments.antt =====
-- backend/internal/store/ops.go: the payment rows, with the unique indexes of the schema.
use go_react_fihos.Common.{
  ℕ, ◌+◌, ◌==◌, ◌&&◌, ◌||◌, Bool, true, false, Option, none, some, ◌∷◌, any,
}
use go_react_fihos.Common.Text.{Text, text_eq}
use go_react_fihos.Store.Db.{
  ok, not_found, unique_violation, Call, or_raise, raise_if, query, exec_returning, ◌>>=◌, ◌>>◌,
}
use go_react_fihos.Store.Sql.{select_row, update_where, count_where}
use go_react_fihos.Store.Schema.{Database, Payment, PaymentStatus, EntityType, voucher}

abbrev pub is_topup : EntityType → Bool
is_topup EntityType.wallet_topup = true
is_topup EntityType.voucher = false

abbrev pub is_succeeded : PaymentStatus → Bool
is_succeeded PaymentStatus.succeeded = true
is_succeeded _ = false

-- status IN ('pending', 'succeeded')
abbrev pub is_live : PaymentStatus → Bool
is_live PaymentStatus.pending = true
is_live PaymentStatus.succeeded = true
is_live _ = false

-- status IN ('pending','failed')
abbrev pub is_open : PaymentStatus → Bool
is_open PaymentStatus.pending = true
is_open PaymentStatus.failed = true
is_open _ = false

-- NULLs are no duplicates.
abbrev pub same_customer_id : Option ℕ → Option ℕ → Bool
same_customer_id (some a) (some b) = a == b
same_customer_id _ _ = false

-- uq_payment_topup of migrations/0010_wallet.up.sql: (tenant_id, customer_id) WHERE
-- entity_type = 'wallet_topup' AND status IN ('pending', 'succeeded')
abbrev pub live_topup : Payment → Bool
live_topup p = is_topup p.entity_type && is_live p.status

abbrev pub same_topup : Payment → Payment → Bool
same_topup p q =
    live_topup p
    && live_topup q
    && p.tenant_id == q.tenant_id
    && same_customer_id p.customer_id q.customer_id

-- A row that a unique index refuses beside `p`.
abbrev pub clashes : Payment → Payment → Bool
clashes p q = text_eq p.external_ref q.external_ref || same_topup p q

-- `none` stands for the empty string, which becomes 'voucher'.
abbrev pub entity_or_voucher : Option EntityType → EntityType
entity_or_voucher none = voucher
entity_or_voucher (some t) = t

-- The row that is inserted: id and times are the database's.
abbrev pub payment_row : Payment → Option EntityType → Database → Payment
payment_row p entity_type db = record p {
  id = db.next_id;
  entity_type = entity_or_voucher entity_type;
  created_at = db.now;
  updated_at = db.now;
}

unfoldable pub create_payment : Payment → Option EntityType → Call Database Payment
create_payment p entity_type = do
  clash ← query (λ db. any (clashes (payment_row p entity_type db)) db.payments)
  raise_if clash unique_violation
  λ fs db. (
    ok (payment_row p entity_type db),
    fs,
    record db { payments = payment_row p entity_type db ∷ db.payments; next_id = db.next_id + 1 },
  )

abbrev pub ref_key : Text → Payment → Bool
ref_key ref p = text_eq p.external_ref ref

unfoldable pub payment_by_ref : ℕ → Text → Call Database Payment
payment_by_ref tenant_id ref = do
  p ← query (λ db. select_row (λ p. p.tenant_id == tenant_id && ref_key ref p) db.payments)
  or_raise p not_found

unfoldable pub payment_by_ref_global : Text → Call Database Payment
payment_by_ref_global ref = do
  p ← query (λ db. select_row (ref_key ref) db.payments)
  or_raise p not_found

-- WHERE id=$2 AND status IN ('pending','failed')
abbrev pub open_key : ℕ → Payment → Bool
open_key id p = p.id == id && is_open p.status

abbrev pub set_status : PaymentStatus → ℕ → Payment → Payment
set_status status now p = record p { status = status; updated_at = now }

-- No row affected is ErrNotFound.
unfoldable pub update_payment_status : ℕ → PaymentStatus → Call Database Unit
update_payment_status id status = do
  affected ← exec_returning (λ db. (
    count_where (open_key id) db.payments,
    record db { payments = update_where (open_key id) (set_status status db.now) db.payments },
  ))
  raise_if (affected == 0) not_found
