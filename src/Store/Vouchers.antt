-- ===== src/Store/Vouchers.antt =====
-- backend/internal/store/vouchers.go: batches of vouchers, lookups and revocation.
use go_react_fihos.Common.{
  ℕ, ◌+◌, ◌-◌, ◌==◌, ◌&&◌, Bool, true, false, Option, none, some, List, [], ◌∷◌, if◌then◌else◌, leb,
  any,
}
use go_react_fihos.Common.Text.{Text, text_eq}
use go_react_fihos.Store.Db.{
  ok, not_found, unique_violation, Call, pure, or_raise, raise_if, query, exec_returning,
  transaction, ◌>>=◌, ◌>>◌,
}
use go_react_fihos.Store.Sql.{select_row, update_where, count_where}
use go_react_fihos.Store.Access.{Batch, Voucher, VoucherStatus, unused, redeemed, expired, revoked}
use go_react_fihos.Store.Schema.{Database}

-- The row of a batch as it is inserted and returned.
abbrev pub batch_row : ℕ → Batch → Database → Batch
batch_row tenant_id b db = record b { id = db.next_id; tenant_id = tenant_id; created_at = db.now }

unfoldable pub insert_batch : ℕ → Batch → Call Database Batch
insert_batch tenant_id b = exec_returning (λ db. (
  batch_row tenant_id b db,
  record db {
    voucher_batches = batch_row tenant_id b db ∷ db.voucher_batches;
    next_id = db.next_id + 1;
  },
))

-- The status is the default of the column.
abbrev pub new_voucher : ℕ → ℕ → Text → Option ℕ → ℕ → ℕ → Voucher
new_voucher tenant_id batch_id code expires_at id now = record {
  id = id;
  tenant_id = tenant_id;
  batch_id = batch_id;
  code = code;
  status = unused;
  redeemed_at = none;
  redeemed_by = none;
  expires_at = expires_at;
  created_at = now;
}

abbrev pub has_code : Text → Voucher → Bool
has_code code v = text_eq v.code code

-- code VARCHAR(20) NOT NULL UNIQUE, over all tenants
unfoldable pub insert_voucher : ℕ → ℕ → Option ℕ → Text → Call Database Voucher
insert_voucher tenant_id batch_id expires_at code = do
  clash ← query (λ db. any (has_code code) db.vouchers)
  raise_if clash unique_violation
  λ fs db. (
    ok (new_voucher tenant_id batch_id code expires_at db.next_id db.now),
    fs,
    record db {
      vouchers = new_voucher tenant_id batch_id code expires_at db.next_id db.now ∷ db.vouchers;
      next_id = db.next_id + 1;
    },
  )

-- The loop over the codes
unfoldable pub insert_vouchers : ℕ → ℕ → Option ℕ → List Text → Call Database (List Voucher)
unfolding insert_voucher
insert_vouchers tenant_id batch_id expires_at [] = pure []
insert_vouchers tenant_id batch_id expires_at (code ∷ codes) = do
  v ← insert_voucher tenant_id batch_id expires_at code
  vs ← insert_vouchers tenant_id batch_id expires_at codes
  pure (v ∷ vs)

unfoldable pub create_batch : ℕ → Batch → List Text → Call Database (Batch × List Voucher)
unfolding insert_batch insert_vouchers
create_batch tenant_id b codes = transaction (do
  row ← insert_batch tenant_id b
  vouchers ← insert_vouchers tenant_id row.id row.valid_to codes
  pure (row, vouchers))

-- WHERE tenant_id=$1 AND id=$2
abbrev pub batch_key : ℕ → ℕ → Batch → Bool
batch_key tenant_id id b = b.tenant_id == tenant_id && b.id == id

unfoldable pub batch_by_id : ℕ → ℕ → Call Database Batch
batch_by_id tenant_id id = do
  b ← query (λ db. select_row (batch_key tenant_id id) db.voucher_batches)
  or_raise b not_found

-- SQL's upper and replace(code, '-', ''), on ASCII.
abbrev pub upper : ℕ → ℕ
upper c = if leb b'a' c && leb c b'z' then c - 32 else c

abbrev pub sql_upper : Text → Text
sql_upper [] = []
sql_upper (c ∷ s) = upper c ∷ sql_upper s

abbrev pub without_dashes : Text → Text
without_dashes [] = []
without_dashes (c ∷ s) = if c == b'-' then without_dashes s else c ∷ without_dashes s

abbrev pub code_key : ℕ → Text → Voucher → Bool
code_key tenant_id code v =
    v.tenant_id == tenant_id && text_eq (sql_upper (without_dashes v.code)) (sql_upper code)

unfoldable pub voucher_by_code : ℕ → Text → Call Database Voucher
voucher_by_code tenant_id code = do
  v ← query (λ db. select_row (code_key tenant_id code) db.vouchers)
  or_raise v not_found

abbrev pub voucher_key : ℕ → ℕ → Voucher → Bool
voucher_key tenant_id id v = v.tenant_id == tenant_id && v.id == id

pub voucher_by_id : ℕ → ℕ → Call Database Voucher
voucher_by_id tenant_id id = do
  v ← query (λ db. select_row (voucher_key tenant_id id) db.vouchers)
  or_raise v not_found

abbrev pub is_status : VoucherStatus → VoucherStatus → Bool
is_status VoucherStatus.unused VoucherStatus.unused = true
is_status VoucherStatus.redeemed VoucherStatus.redeemed = true
is_status VoucherStatus.expired VoucherStatus.expired = true
is_status VoucherStatus.revoked VoucherStatus.revoked = true
is_status _ _ = false

-- ... AND status='unused'
abbrev pub unused_key : ℕ → ℕ → Voucher → Bool
unused_key tenant_id id v = voucher_key tenant_id id v && is_status unused v.status

abbrev pub revoke : Voucher → Voucher
revoke v = record v { status = revoked }

unfoldable pub revoke_voucher : ℕ → ℕ → Call Database Unit
revoke_voucher tenant_id id = do
  affected ← exec_returning (λ db. (
    count_where (unused_key tenant_id id) db.vouchers,
    record db { vouchers = update_where (unused_key tenant_id id) revoke db.vouchers },
  ))
  raise_if (affected == 0) not_found

pub record BatchSummary : Type 0 where
  pub batch : Batch
  pub unused : ℕ
  pub redeemed : ℕ
  pub expired : ℕ
  pub revoked : ℕ

abbrev pub of_batch : Batch → Voucher → Bool
of_batch b v = v.batch_id == b.id && v.tenant_id == b.tenant_id

-- count(*) FILTER (WHERE v.status = ...)
abbrev pub with_status : Batch → VoucherStatus → List Voucher → ℕ
with_status b status vs = count_where (λ v. of_batch b v && is_status status v.status) vs

abbrev pub summary : List Voucher → Batch → BatchSummary
summary vs b = record {
  batch = b;
  unused = with_status b unused vs;
  redeemed = with_status b redeemed vs;
  expired = with_status b expired vs;
  revoked = with_status b revoked vs;
}

-- The inner join has no row for a batch without vouchers.
abbrev pub summary_if_any : List Voucher → Option Batch → Option BatchSummary
summary_if_any vs none = none
summary_if_any vs (some b) = if any (of_batch b) vs then some (summary vs b) else none

unfoldable pub batch_sales : ℕ → ℕ → Call Database BatchSummary
batch_sales tenant_id batch_id = do
  s ← query (λ db.
      summary_if_any db.vouchers (select_row (batch_key tenant_id batch_id) db.voucher_batches))
  or_raise s not_found
