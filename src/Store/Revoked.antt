-- ===== src/Store/Revoked.antt =====
-- `RevokeGrant`.
use openbao_authorizer.Prelude.{
  ℕ, ◌≡◌, ◌≢◌, refl, sym, ap, subst, Bool, true, false, ◌&&◌, inl, inr, List, arith, if◌then◌else◌,
  eqb, map, All, In, Bool-cases, some, Option-cases, find, find-In,
}
use openbao_authorizer.Prelude.Result.{ok, err, ok-injective}
use openbao_authorizer.Text.Bytes.{Str, ◌==◌, eq_refl}
use openbao_authorizer.Store.Model.{Approver, status_changed, unix_milli}
use openbao_authorizer.Store.Rows.{Db, GrantRow, RequestRow}
use openbao_authorizer.Store.Requests.{set_items, update_items, find_request}
use openbao_authorizer.Store.Grants.{
  is_active, revoke_in_request, revoke_grant, revoke_item, revoke_row,
}
use openbao_authorizer.Store.Invariant.{InStep, IsConsistent, map-In, map-IsConsistent, if-InStep}

-- The rows of the Grants as the first statement of `RevokeGrant` leaves them.
is_target : Str → GrantRow → Bool
unfolding ◌==◌
is_target id row = row.id == id && eqb row.revoked_at 0

revoked_rows : Str → Approver → ℕ → Db → List GrantRow
unfolding is_target
revoked_rows id approver now db =
    map (λ row. if is_target id row then revoke_row approver now row else row) db.grants

revoke_in_request-ok :
    (row : GrantRow) (db : Db) {db' : Db}
    → revoke_in_request row db ≡ ok db'
    → (request : RequestRow) × (db'.grants ≡ db.grants)
      × (db'.requests
          ≡ update_items row.request_id (map (revoke_item row.item_id) request.items) db.requests)
unfolding revoke_in_request
revoke_in_request-ok row db h = elim (Option-cases (find_request row.request_id db)) [
  | inl e ↦ cc (rw (e, revoke_in_request) at h)
  | inr (request, e) ↦
      let done = ok-injective (rw (e, revoke_in_request) at h) in
      (request, ap (λ (x : Db). x.grants) (sym done), ap (λ (x : Db). x.requests) (sym done))
]

revoke_grant-steps :
    (id : Str) (approver : Approver) (now : ℕ) (db : Db) {db' : Db}
    → revoke_grant id approver now db ≡ ok db'
    → (row : GrantRow) × In row db.grants
      × (is_target id row ≡ true)
      × (revoke_in_request row (record db { grants = revoked_rows id approver now db }) ≡ ok db')
unfolding revoke_grant is_target revoked_rows
revoke_grant-steps id approver now db h = elim (Option-cases (find (is_target id) db.grants)) [
  | inl e ↦ cc (rw (e, revoke_grant) at h)
  | inr (row, e) ↦
      let (found, is) = find-In (is_target id) db.grants e in
      (row, found, is, rw (e, revoke_grant) at h)
]

-- The requests as a revocation leaves them: the items of one request, with one of them revoked.
pub revoke_grant-requests :
    (id : Str) (approver : Approver) (now : ℕ) (db : Db) {db' : Db}
    → revoke_grant id approver now db ≡ ok db'
    → (row : GrantRow) × (request : RequestRow) × (find_request row.request_id db ≡ some request)
      × (db'.requests
          ≡ update_items row.request_id (map (revoke_item row.item_id) request.items) db.requests)
unfolding revoke_in_request
revoke_grant-requests id approver now db h =
    let (row, found, is, rest) = revoke_grant-steps id approver now db h in
    elim (Option-cases (find_request row.request_id db)) [
      | inl e ↦ cc (rw (e, revoke_in_request) at rest)
      | inr (request, e) ↦ (
        row,
        request,
        e,
        ap (λ (x : Db). x.requests) (sym (ok-injective (rw (e, revoke_in_request) at rest))),
      )
    ]

-- A revocation keeps the column has_pending of every request in step with its items.
pub revoke_grant-IsConsistent :
    (id : Str) (approver : Approver) (now : ℕ) (db : Db) (db' : Db)
    → IsConsistent db
    → revoke_grant id approver now db ≡ ok db'
    → IsConsistent db'
unfolding update_items
revoke_grant-IsConsistent id approver now db db' holds h =
    let (g, found, is, rest) = revoke_grant-steps id approver now db h in
    let (request, grants, requests) = revoke_in_request-ok g _ rest in
    let items = map (revoke_item g.item_id) request.items in
    subst (All InStep) (sym requests) (
      map-IsConsistent (λ r. if r.id == g.request_id then set_items items r else r) db.requests
        (λ r k. if-InStep (r.id == g.request_id) (set_items items r) r refl k) holds)

zero_free : (b : Bool) (n : ℕ) → n ≢ 0 → (b && eqb n 0) ≡ false
zero_free b n h = ground arith

revoked_row-target :
    (id : Str) (approver : Approver) (now : ℕ) (row : GrantRow)
    → unix_milli now ≢ 0
    → is_target id (if is_target id row then revoke_row approver now row else row) ≡ false
unfolding is_target
revoked_row-target id approver now row later = elim (Bool-cases (is_target id row)) [
  | inl e ↦ rw e (zero_free (row.id == id) (unix_milli now) later)
  | inr e ↦ rw e e
]

revoke_grant-rows :
    (id : Str) (approver : Approver) (now : ℕ) (db : Db) {db' : Db}
    → unix_milli now ≢ 0
    → revoke_grant id approver now db ≡ ok db'
    → (row : GrantRow) → In row db'.grants
    → is_target id row ≡ false
unfolding revoked_rows
revoke_grant-rows id approver now db later h row m =
    let (g, found, is, rest) = revoke_grant-steps id approver now db h in
    let (request, grants, requests) = revoke_in_request-ok g _ rest in
    let (old, k, e) =
      map-In (λ r. if is_target id r then revoke_row approver now r else r) db.grants
        (subst (In row) grants m) in
    subst (λ r. is_target id r ≡ false) (sym e) (revoked_row-target id approver now old later)

-- After a revocation at a time that the database does not keep as 0, no row of the Grant is
-- active, for any entity and at any time.
pub revoke_grant-inactive :
    (id : Str) (approver : Approver) (now : ℕ) (db : Db) (db' : Db)
    → unix_milli now ≢ 0
    → revoke_grant id approver now db ≡ ok db'
    → (row : GrantRow) (entity_id : Str) (t : ℕ) → In row db'.grants
    → row.id ≡ id
    → is_active entity_id t row ≡ false
unfolding is_active is_target
revoke_grant-inactive id approver now db db' later h row entity_id t m named =
    let is = revoke_grant-rows id approver now db later h row m in
    let same : (row.id == id) ≡ true = rw named (eq_refl id) in ground (arith, is, same)

-- After a revocation at a time that the database does not keep as 0, a second revocation of the
-- same Grant fails with ErrStatusChanged, whoever asks for it and when.
pub revoke_grant-twice :
    (id : Str) (approver : Approver) (now : ℕ) (db : Db) (db' : Db) (other : Approver) (t : ℕ)
    → unix_milli now ≢ 0
    → revoke_grant id approver now db ≡ ok db'
    → revoke_grant id other t db' ≡ err status_changed
unfolding revoke_grant is_target
revoke_grant-twice id approver now db db' other t later h =
    elim (Option-cases (find (is_target id) db'.grants)) [
      | inl e ↦ rw (e, revoke_grant) refl
      | inr (row, e) ↦
          let (m, is) = find-In (is_target id) db'.grants e in
          cc (is, revoke_grant-rows id approver now db later h row m)
    ]
