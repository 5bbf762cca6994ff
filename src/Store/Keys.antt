-- ===== src/Store/Keys.antt =====
-- The key of `grant_requests`: no id twice, so a row is the one found under its id.
use openbao_authorizer.Prelude.{
  ℕ, ◌≡◌, refl, sym, ap, subst, ◌∙◌, Bool, true, false, some, some_inj, inl, inr, List, [], ◌∷◌,
  ◌++◌, map, In, here, there, find, any, if◌then◌else◌, Bool-cases, arith,
}
use openbao_authorizer.Prelude.Result.{ok, fail_if-eq-ok, ok-injective}
use openbao_authorizer.Text.Bytes.{Str, ◌==◌, eq→≡, eq_refl}
use openbao_authorizer.Rules.Capability.Order.{IsDistinct}
use openbao_authorizer.Rules.Capability.Collect.{IsDistinct-concat}
use openbao_authorizer.Store.Model.{Approver, Grant, GrantRequest, Item}
use openbao_authorizer.Store.Rows.{Db, RequestRow, request_row}
use openbao_authorizer.Store.Requests.{
  create_grant_request, expire_pending_items, expire_item, expire_row, is_overdue, set_items,
  update_items,
}
use openbao_authorizer.Store.Grants.{decide_items, revoke_grant, revoke_item, is_open}
use openbao_authorizer.Store.Invariant.{
  IsConsistent, create_grant_request-IsConsistent, decide_items-IsConsistent,
  expire_pending_items-IsConsistent, insert_grants-requests,
}
use openbao_authorizer.Store.Revoked.{revoke_grant-IsConsistent, revoke_grant-requests}

abbrev pub ids : List RequestRow → List Str
ids rows = map (λ r. r.id) rows

-- The columns agree, and ids are distinct.
abbrev pub IsSound : Db → Type 0
IsSound db = IsConsistent db × IsDistinct (ids db.requests)

ids-map :
    (f : RequestRow → RequestRow) (rows : List RequestRow)
    → ((r : RequestRow) → (f r).id ≡ r.id)
    → ids (map f rows) ≡ ids rows
ids-map f [] h = refl
ids-map f (r ∷ rows) h = λ i. h r i ∷ ids-map f rows h i

ids-append :
    (rows : List RequestRow) (r : RequestRow) → ids (rows ++ r ∷ []) ≡ ids rows ++ r.id ∷ []
ids-append [] r = refl
ids-append (s ∷ rows) r = ap (λ l. s.id ∷ l) (ids-append rows r)

ids-In : (rows : List RequestRow) {r : RequestRow} → In r rows → In r.id (ids rows)
ids-In [] m = elim m [ ]
ids-In (s ∷ rows) (here e) = here (ap (λ (x : RequestRow). x.id) e)
ids-In (s ∷ rows) (there m) = there (ids-In rows m)

fresh-ids :
    (rows : List RequestRow) (id : Str)
    → any (λ row. row.id == id) rows ≡ false
    → In id (ids rows)
    → ⊥
fresh-ids [] id h m = elim m [ ]
fresh-ids (r ∷ rows) id h (here e) = ground (arith, eq_refl id, ap (λ s. s == id) e)
fresh-ids (r ∷ rows) id h (there m) = fresh-ids rows id (ground arith) m

-- The row found under an id is the only one with it.
pub find-only :
    (rows : List RequestRow) (id : Str) {r s : RequestRow}
    → IsDistinct (ids rows)
    → find (λ row. row.id == id) rows ≡ some r
    → In s rows
    → (s.id == id) ≡ true
    → s ≡ r
find-only [] id d f m e = elim m [ ]
find-only (q ∷ rows) id {r} {s} (new, d) f (here same) e =
    same ∙ some_inj (rw (ap (λ (x : RequestRow). x.id == id) (sym same) ∙ e) at f)
find-only (q ∷ rows) id {r} {s} (new, d) f (there m) e = elim (Bool-cases (q.id == id)) [
  | inl g ↦
      absurd
        (new (subst (λ t. In t (ids rows)) (eq→≡ s.id id e ∙ sym (eq→≡ q.id id g)) (ids-In rows m)))
  | inr g ↦ find-only rows id d (rw g at f) m e
]

set_items-id :
    (b : Bool) (items : List Item) (r : RequestRow) → (if b then set_items items r else r).id ≡ r.id
set_items-id true items r = refl
set_items-id false items r = refl

pub expire_row-id : (now : ℕ) (r : RequestRow) → (expire_row now r).id ≡ r.id
unfolding expire_row
expire_row-id now r = set_items-id (is_overdue now r) (map expire_item r.items) r

pub create_grant_request-IsSound :
    (request : GrantRequest) (db db' : Db)
    → IsSound db
    → create_grant_request request db ≡ ok db'
    → IsSound db'
unfolding create_grant_request request_row
create_grant_request-IsSound request db db' (consistent, distinct) h =
    let (fresh, stored) = fail_if-eq-ok _ _ _ h in
    (
      create_grant_request-IsConsistent request db db' consistent h,
      subst (λ (x : Db). IsDistinct (ids x.requests)) (ok-injective stored)
          (subst IsDistinct (sym (ids-append db.requests (request_row request))) (
            IsDistinct-concat (ids db.requests) (fresh-ids db.requests request.id fresh) distinct)),
    )

pub decide_items-IsSound :
    (request : GrantRequest) (grants : List Grant) (db db' : Db)
    → IsSound db
    → decide_items request grants db ≡ ok db'
    → IsSound db'
unfolding decide_items
decide_items-IsSound request grants db db' (consistent, distinct) h =
    let (open_row, stored) = fail_if-eq-ok _ _ _ h in
    (
      decide_items-IsConsistent request grants db db' consistent h,
      subst IsDistinct
          (sym (
            ap ids (insert_grants-requests grants _ stored)
            ∙ ids-map _ db.requests (λ r. set_items-id (is_open request.id r) request.items r)))
          distinct,
    )

pub revoke_grant-IsSound :
    (id : Str) (approver : Approver) (now : ℕ) (db db' : Db)
    → IsSound db
    → revoke_grant id approver now db ≡ ok db'
    → IsSound db'
unfolding update_items
revoke_grant-IsSound id approver now db db' (consistent, distinct) h =
    let (row, request, found, same) = revoke_grant-requests id approver now db h in
    let items = map (revoke_item row.item_id) request.items in
    (
      revoke_grant-IsConsistent id approver now db db' consistent h,
      subst IsDistinct
          (sym (
            ap ids same
            ∙ ids-map (λ r. if r.id == row.request_id then set_items items r else r) db.requests
                (λ r. set_items-id (r.id == row.request_id) items r)))
          distinct,
    )

pub expire_pending_items-IsSound :
    (now : ℕ) (db : Db) → IsSound db → IsSound (expire_pending_items now db).1
unfolding expire_pending_items
expire_pending_items-IsSound now db (consistent, distinct) = (
  (expire_pending_items-IsConsistent now db consistent).0,
  subst IsDistinct (sym (ids-map (expire_row now) db.requests (expire_row-id now))) distinct,
)
