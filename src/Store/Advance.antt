-- ===== src/Store/Advance.antt =====
-- Each transaction of the store carries the rows of `grant_requests` on, and keeps them sound.
use openbao_authorizer.Prelude.{
  ℕ, ◌≡◌, refl, sym, ap, subst, ◌∙◌, Bool, true, ◌&&◌, some, some_inj, any, any-eq_true, not,
  not-eq_false, inl, inr, List, [], ◌∷◌, map, find, find-In, if◌then◌else◌, Bool-cases,
  Option-cases, arith,
}
use openbao_authorizer.Prelude.Result.{ok, fail_if-eq-ok, ok-injective, >>=-eq-ok}
use openbao_authorizer.Text.Bytes.{Str, ◌==◌, eq→≡}
use openbao_authorizer.Store.Model.{Approver, Grant, GrantRequest, Item, status_changed}
use openbao_authorizer.Store.Rows.{
  Db, RequestRow, request_row, read_request, unseal, session_data, reason_data,
}
use openbao_authorizer.Store.Requests.{
  create_grant_request, grant_request, find_request, expire_pending_items, expire_row, is_overdue,
  set_items, update_items,
}
use openbao_authorizer.Store.Grants.{decide_items, revoke_grant, revoke_item, is_open}
use openbao_authorizer.Store.Invariant.{insert_grants-requests, none_pending}
use openbao_authorizer.Store.Revoked.{revoke_grant-requests}
use openbao_authorizer.Store.Keys.{
  IsSound, find-only, expire_row-id, create_grant_request-IsSound, decide_items-IsSound,
  revoke_grant-IsSound, expire_pending_items-IsSound,
}
use openbao_authorizer.Store.Evolution.{
  ItemsEvolve, map-ItemsEvolve, revoke_item-Evolves, RowEvolves, set_items-RowEvolves,
  RowEvolves-refl, RowsEvolve, RowsEvolve-trans, map-RowsEvolve, append-RowsEvolve,
  expire_row-RowEvolves,
}

-- The tables are sound, and the requests of `db` are still there, each in its place, its items
-- further on.
abbrev pub Advances : Db → Db → Type 0
Advances db db' = IsSound db' × RowsEvolve db.requests db'.requests

pub Advances-trans : (db mid db' : Db) → Advances db mid → Advances mid db' → Advances db db'
Advances-trans db mid db' (s, h) (t, k) =
    (t, RowsEvolve-trans db.requests mid.requests db'.requests h k)

pub create_grant_request-Advances :
    (request : GrantRequest) (db db' : Db)
    → IsSound db
    → create_grant_request request db ≡ ok db'
    → Advances db db'
unfolding create_grant_request
create_grant_request-Advances request db db' sound h =
    let (fresh, stored) = fail_if-eq-ok _ _ _ h in
    (
      create_grant_request-IsSound request db db' sound h,
      subst (λ (x : Db). RowsEvolve db.requests x.requests) (ok-injective stored)
          (append-RowsEvolve db.requests (request_row request ∷ [])),
    )

pub expire_pending_items-Advances :
    (now : ℕ) (db : Db) → IsSound db → Advances db (expire_pending_items now db).1
unfolding expire_pending_items
expire_pending_items-Advances now db sound = (
  expire_pending_items-IsSound now db sound,
  map-RowsEvolve (expire_row now) db.requests (λ r m. expire_row-RowEvolves now r),
)

pub revoke_grant-Advances :
    (id : Str) (approver : Approver) (now : ℕ) (db db' : Db)
    → IsSound db
    → revoke_grant id approver now db ≡ ok db'
    → Advances db db'
unfolding update_items
revoke_grant-Advances id approver now db db' sound h =
    let (row, request, found, same) = revoke_grant-requests id approver now db h in
    let items = map (revoke_item row.item_id) request.items in
    (
      revoke_grant-IsSound id approver now db db' sound h,
      subst (RowsEvolve db.requests) (sym same) (
          map-RowsEvolve (λ r. if r.id == row.request_id then set_items items r else r) db.requests
            (λ r m. elim (Bool-cases (r.id == row.request_id)) [
              | inl e ↦
                  let only = find-only db.requests row.request_id sound.1 found m e in
                  rw e (
                    set_items-RowEvolves items r (
                      subst (λ (x : RequestRow). ItemsEvolve x.items items) (sym only)
                        (map-ItemsEvolve (revoke_item row.item_id) request.items
                          (revoke_item-Evolves row.item_id))))
              | inr e ↦ rw e (RowEvolves-refl r)
            ])),
    )

decided_row : Str → List Item → RequestRow → RequestRow
decided_row id items row = if is_open id row then set_items items row else row

decided_row-RowEvolves :
    (id : Str) (items : List Item) (r : RequestRow)
    → (is_open id r ≡ true → ItemsEvolve r.items items)
    → RowEvolves r (decided_row id items r)
unfolding decided_row
decided_row-RowEvolves id items r h = elim (Bool-cases (is_open id r)) [
  | inl e ↦ rw e (set_items-RowEvolves items r (h e))
  | inr e ↦ rw e (RowEvolves-refl r)
]

and-first : (a b : Bool) → (a && b) ≡ true → a ≡ true
and-first a b h = ground arith

and-both : (a b : Bool) → (a && b) ≡ true → (a ≡ true) × (b ≡ true)
and-both a b h = ground arith

-- A stored request, with items that go on from those it was read with.
pub decide_items-Advances :
    (request : GrantRequest) (grants : List Grant) (db db' : Db) (row : RequestRow)
    → IsSound db
    → find_request request.id db ≡ some row
    → ItemsEvolve row.items request.items
    → decide_items request grants db ≡ ok db'
    → Advances db db'
unfolding decide_items decided_row
decide_items-Advances request grants db db' row sound found evolve h =
    let (open_row, stored) = fail_if-eq-ok _ _ _ h in
    (
      decide_items-IsSound request grants db db' sound h,
      subst (RowsEvolve db.requests) (sym (insert_grants-requests grants _ stored)) (
          map-RowsEvolve (decided_row request.id request.items) db.requests (λ r m.
            decided_row-RowEvolves request.id request.items r (λ e.
              subst (λ (x : RequestRow). ItemsEvolve x.items request.items)
                (sym (find-only db.requests request.id sound.1 found m (and-first _ _ e)))
                evolve))),
    )

find-expired :
    (now : ℕ) (id : Str) (rows : List RequestRow) {row : RequestRow}
    → find (λ r. r.id == id) rows ≡ some row
    → find (λ r. r.id == id) (map (expire_row now) rows) ≡ some (expire_row now row)
unfolding expire_row ◌==◌
find-expired now id [] h = cc
find-expired now id (r ∷ rows) h = elim (Bool-cases (r.id == id)) [
  | inl e ↦ rw (expire_row-id now r, e) (ap (λ x. some (expire_row now x)) (some_inj (rw e at h)))
  | inr e ↦ rw (expire_row-id now r, e) (find-expired now id rows (rw e at h))
]

-- A row that is open after the sweep was not touched by it.
open-untouched :
    (now : ℕ) (row : RequestRow) → (expire_row now row).pending ≡ true → expire_row now row ≡ row
unfolding expire_row
open-untouched now row h = elim (Bool-cases (is_overdue now row)) [
  | inl e ↦ cc (rw e at h, none_pending row.items)
  | inr e ↦ rw e refl
]

decided_is_pending :
    (request : GrantRequest) (grants : List Grant) (db db' : Db) (row : RequestRow)
    → IsSound db
    → find_request request.id db ≡ some row
    → decide_items request grants db ≡ ok db'
    → row.pending ≡ true
unfolding decide_items
decided_is_pending request grants db db' row sound found h =
    let (open_row, stored) =
      fail_if-eq-ok (not (any (is_open request.id) db.requests)) status_changed _ h in
    let (r, m, e) = any-eq_true (is_open request.id) db.requests (not-eq_false _ open_row) in
    let (named, pending) = and-both (r.id == request.id) r.pending e in
    ap (λ (x : RequestRow). x.pending)
      (sym (find-only db.requests request.id sound.1 found m named))
    ∙ pending

-- The same when the sweep ran after the request was read.
pub decide_swept-Advances :
    (now : ℕ) (request : GrantRequest) (grants : List Grant) (db db' : Db) (row : RequestRow)
    → IsSound db
    → find_request request.id db ≡ some row
    → ItemsEvolve row.items request.items
    → decide_items request grants (expire_pending_items now db).1 ≡ ok db'
    → Advances db db'
unfolding expire_pending_items
decide_swept-Advances now request grants db db' row sound found evolve h =
    let mid = (expire_pending_items now db).1 in
    let swept = expire_pending_items-Advances now db sound in
    let found' = find-expired now request.id db.requests found in
    let same =
      open-untouched now row
        (decided_is_pending request grants mid db' (expire_row now row) swept.0 found' h) in
    Advances-trans db mid db' swept (
      decide_items-Advances request grants mid db' (expire_row now row) swept.0 found'
        (subst (λ (x : RequestRow). ItemsEvolve x.items request.items) (sym same) evolve) h)

pub grant_request-found :
    (id : Str) (db : Db) {request : GrantRequest}
    → grant_request id db ≡ ok request
    → (row : RequestRow) × (find_request request.id db ≡ some row) × (request.items ≡ row.items)
unfolding grant_request read_request
grant_request-found id db {request} h = elim (Option-cases (find_request id db)) [
  | inl e ↦ cc (rw (e, grant_request) at h)
  | inr (row, e) ↦
      let (requester, first, rest) =
        >>=-eq-ok (unseal row.session (session_data row.id)) _ (rw (e, grant_request) at h) in
      let (reason, second, last) = >>=-eq-ok (unseal row.reason (reason_data row.id)) _ rest in
      let named = eq→≡ row.id id (find-In (λ r. r.id == id) db.requests e).1 in
      let built = ok-injective last in
      (
        row,
        subst (λ t. find_request t db ≡ some row)
            (sym named ∙ ap (λ (x : GrantRequest). x.id) built) e,
        ap (λ (x : GrantRequest). x.items) (sym built),
      )
]
