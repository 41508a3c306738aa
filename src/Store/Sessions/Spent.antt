-- ===== src/Store/Sessions/Spent.antt =====
-- What redemption (backend/internal/store/sessions.go), revocation and the creation of batches
-- (vouchers.go) do to the count of redeemed vouchers and of the sessions that they opened.
use go_react_fihos.Common.{
  ℕ, ◌+◌, ◌==◌, ◌&&◌, ◌≤◌, ◌≡◌, refl, Option, none, some, List, [], ◌∷◌, arith, if◌then◌else◌,
  Option-cases, inl, inr,
}
use go_react_fihos.Common.Text.{Text}
use go_react_fihos.Store.Db.{pure, query, ◌>>=◌, Faults, Call}
use go_react_fihos.Store.Db.Keeps.{Keeps, bind-Keeps, transaction-Keeps}
use go_react_fihos.Store.Sql.{select_row, update_where, count_where, count-update}
use go_react_fihos.Store.Access.{Batch, Voucher, redeemed, Session}
use go_react_fihos.Store.Schema.{Database}
use go_react_fihos.Store.Vouchers.{
  unused_key, is_status, revoke, revoke_voucher, create_batch, insert_batch, insert_voucher,
  insert_vouchers,
}
use go_react_fihos.Store.Sessions.{
  active_key, see, router_session, username_key, set_counters, close, at_least, used_by, redeem,
  redeem_voucher, upsert_router_session, touch_or_insert, snapshot_session_usage, close_session,
  upsert_log,
}

-- Sessions that the voucher `id` opened.
abbrev pub opened : ℕ → Database → ℕ
opened id db = count_where (λ s. used_by id s.voucher_id) db.sessions

abbrev pub redeemed_rows : ℕ → Database → ℕ
redeemed_rows id db = count_where (λ v. v.id == id && is_status redeemed v.status) db.vouchers

abbrev pub rows : ℕ → Database → ℕ
rows id db = count_where (λ v. v.id == id) db.vouchers

-- Every session that a voucher opened has a redeemed row of its own, and ids are unique.
pub record IsSpent (db : Database) : Type 0 where
  pub bounded : (id : ℕ) → opened id db ≤ redeemed_rows id db
  pub unique : (id : ℕ) → rows id db ≤ 1
  pub fresh : (id : ℕ) → db.next_id ≤ id → rows id db ≡ 0

marked :
    (tenant_id k id now : ℕ) (vs : List Voucher)
    → count_where (λ v. v.id == id && is_status redeemed v.status) vs
        + (if k == id then count_where (unused_key tenant_id k) vs else 0)
      ≤ count_where
          (λ v. v.id == id && is_status redeemed v.status)
          (update_where (unused_key tenant_id k) (redeem now) vs)
marked tenant_id k id now [] = ground arith
marked tenant_id k id now (v ∷ vs) = ground (arith, marked tenant_id k id now vs)

revoked-keeps :
    (tenant_id k id : ℕ) (vs : List Voucher)
    → count_where
        (λ v. v.id == id && is_status redeemed v.status)
        (update_where (unused_key tenant_id k) revoke vs)
      ≡ count_where (λ v. v.id == id && is_status redeemed v.status) vs
revoked-keeps tenant_id k id [] = refl
revoked-keeps tenant_id k id (v ∷ vs) = ground (arith, revoked-keeps tenant_id k id vs)

pub redeemed-le-rows :
    (id : ℕ) (vs : List Voucher)
    → count_where (λ v. v.id == id && is_status redeemed v.status) vs
      ≤ count_where (λ v. v.id == id) vs
redeemed-le-rows id [] = omega arith
redeemed-le-rows id (v ∷ vs) = ground (arith, redeemed-le-rows id vs)

pub revoke_voucher-IsSpent : (tenant_id id : ℕ) → Keeps IsSpent (revoke_voucher tenant_id id)
unfolding revoke_voucher
revoke_voucher-IsSpent t k fs db h = record {
  bounded = λ id. ground (arith, h.bounded id, revoked-keeps t k id db.vouchers);
  unique = λ id.
      ground
        (arith, h.unique id, count-update (λ v. v.id == id) (unused_key t k) revoke db.vouchers);
  fresh = λ id new.
      ground
        (arith, h.fresh id, count-update (λ v. v.id == id) (unused_key t k) revoke db.vouchers);
}

pub redeem_voucher-IsSpent :
    (tenant_id voucher_id hotspot_id : ℕ) (mac : Option Text) (session_user password : Text)
    → Keeps IsSpent (redeem_voucher tenant_id voucher_id hotspot_id mac session_user password)
unfolding redeem_voucher
redeem_voucher-IsSpent t k hid mac u p fs db h = record {
  bounded = λ id. ground (arith, h.bounded id, marked t k id db.now db.vouchers);
  unique = λ id. ground (
    arith,
    h.unique id,
    count-update (λ v. v.id == id) (unused_key t k) (redeem db.now) db.vouchers,
  );
  fresh = λ id new. ground (
    arith,
    h.fresh id,
    count-update (λ v. v.id == id) (unused_key t k) (redeem db.now) db.vouchers,
  );
}

insert_voucher-IsSpent :
    (tenant_id batch_id : ℕ) (expires_at : Option ℕ) (code : Text)
    → Keeps IsSpent (insert_voucher tenant_id batch_id expires_at code)
unfolding insert_voucher
insert_voucher-IsSpent t b x c fs db h = record {
  bounded = λ id. ground (arith, h.bounded id);
  unique = λ id. ground (arith, h.unique id, h.fresh id);
  fresh = λ id new. ground (arith, h.fresh id);
}

insert_vouchers-IsSpent :
    (tenant_id batch_id : ℕ) (expires_at : Option ℕ) (codes : List Text)
    → Keeps IsSpent (insert_vouchers tenant_id batch_id expires_at codes)
unfolding insert_vouchers
insert_vouchers-IsSpent t b x [] = λ fs db h. h
insert_vouchers-IsSpent t b x (c ∷ cs) =
    let tail : Call Database (List Voucher) = insert_vouchers t b x cs in
    bind-Keeps IsSpent (insert_voucher t b x c) (λ v. do vs ← tail; pure (v ∷ vs))
      (insert_voucher-IsSpent t b x c)
      (λ v.
        bind-Keeps IsSpent tail (λ vs. pure (v ∷ vs)) (insert_vouchers-IsSpent t b x cs)
          (λ vs fs db h. h))

insert_batch-IsSpent : (tenant_id : ℕ) (b : Batch) → Keeps IsSpent (insert_batch tenant_id b)
unfolding insert_batch
insert_batch-IsSpent t b fs db h = record {
  bounded = λ id. ground (arith, h.bounded id);
  unique = λ id. ground (arith, h.unique id);
  fresh = λ id new. ground (arith, h.fresh id);
}

pub create_batch-IsSpent :
    (tenant_id : ℕ) (b : Batch) (codes : List Text) → Keeps IsSpent (create_batch tenant_id b codes)
unfolding create_batch
create_batch-IsSpent t b codes =
    let rows : Batch → Call Database (List Voucher) =
      λ row. insert_vouchers t row.id row.valid_to codes in
    let body : Call Database (Batch × List Voucher) = (do
      row ← insert_batch t b
      vs ← rows row
      pure (row, vs)) in
    transaction-Keeps IsSpent body (
      bind-Keeps IsSpent (insert_batch t b) (λ row. do vs ← rows row; pure (row, vs))
        (insert_batch-IsSpent t b)
        (λ row.
          bind-Keeps IsSpent (rows row) (λ vs. pure (row, vs))
            (insert_vouchers-IsSpent t row.id row.valid_to codes) (λ vs fs db h. h)))

-- What leaves vouchers alone, and the vouchers of the sessions that are there.
abbrev pub SameUse : Database → Database → Type 0
SameUse db db' =
    (db'.vouchers ≡ db.vouchers)
    × (db.next_id ≤ db'.next_id)
    × ((id : ℕ) → opened id db' ≡ opened id db)

pub SameUse-IsSpent : (db db' : Database) → SameUse db db' → IsSpent db → IsSpent db'
SameUse-IsSpent db db' (same, more, used) h = record {
  bounded = λ id. rw same (omega (arith, used id, h.bounded id));
  unique = λ id. rw same (h.unique id);
  fresh = λ id new. rw same (h.fresh id (omega arith));
}

module _ (db : Database) (fs : Faults) where
  touch-SameUse :
      (new : ℕ → ℕ → Session) (found : Option Session)
      → ((id now : ℕ) → (new id now).voucher_id ≡ none)
      → SameUse db (touch_or_insert new found fs db).2
  unfolding touch_or_insert
  touch-SameUse new none own =
      (ground arith, ground arith, λ k. ground (arith, own db.next_id db.now))
  touch-SameUse new (some s) own = (
    ground arith,
    ground arith,
    λ k. ground (
      arith,
      count-update (λ s. used_by k s.voucher_id) (λ r. r.id == s.id) (see db.now) db.sessions,
    ),
  )

  pub snapshot-SameUse : (id at rx tx : ℕ) → SameUse db (snapshot_session_usage id at rx tx fs db).2
  unfolding snapshot_session_usage upsert_log
  snapshot-SameUse id at rx tx = (
    ground arith,
    ground arith,
    λ k. ground (
      arith,
      count-update (λ s. used_by k s.voucher_id) (λ s. s.id == id) (set_counters rx tx at)
          db.sessions,
    ),
  )

  pub close-SameUse : (id at rx tx : ℕ) → SameUse db (close_session id at rx tx fs db).2
  unfolding close_session upsert_log
  close-SameUse id at rx tx = elim (Option-cases (select_row (active_key id) db.sessions)) [
    | inl missing ↦ ground (arith, missing)
    | inr (s, e) ↦ (
      ground arith,
      ground arith,
      λ k. ground (
        arith,
        e,
        count-update (λ s. used_by k s.voucher_id) (λ s. s.id == id)
            (close at (at_least rx s.bytes_rx) (at_least tx s.bytes_tx)) db.sessions,
      ),
    )
  ]

pub upsert-IsSpent :
    (t h r p : ℕ) (u : Text) (mac ip : Option Text)
    → Keeps IsSpent (upsert_router_session t h r p u mac ip)
unfolding upsert_router_session
upsert-IsSpent t h r p u mac ip =
    let find : Call Database (Option Session) =
      query (λ db. select_row (username_key t h u) db.sessions) in
    let new = router_session t h r p u mac ip in
    bind-Keeps IsSpent find (touch_or_insert new) (λ fs db h. h)
      (λ found fs db. SameUse-IsSpent db _ (touch-SameUse db fs new found (λ id now. refl)))
