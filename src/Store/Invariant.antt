-- ===== src/Store/Invariant.antt =====
-- The column `has_pending`, which every operation keeps in step with the items.
use openbao_authorizer.Prelude.{
  ℕ, ◌≡◌, refl, sym, ap, subst, ◌∙◌, Bool, true, false, inl, inr, List, [], ◌∷◌, ◌++◌, arith,
  if◌then◌else◌, map, All, In-All, In, here, there, Bool-cases,
}
use openbao_authorizer.Prelude.Result.{ok, fail_if-eq-ok, >>=-eq-ok, ok-injective}
use openbao_authorizer.Store.Model.{Item, Grant, GrantRequest, has_pending}
use openbao_authorizer.Store.Rows.{Db, RequestRow, request_row}
use openbao_authorizer.Store.Requests.{
  create_grant_request, set_items, expire_item, is_overdue, expire_row, expire_pending_items,
}
use openbao_authorizer.Store.Grants.{insert_grant, insert_grants, is_open, decide_items}

abbrev pub InStep : RequestRow → Type 0
InStep row = row.pending ≡ has_pending row.items

-- The invariant of the requests.
abbrev pub IsConsistent : Db → Type 0
IsConsistent db = All InStep db.requests

-- A row that comes from one of `rows` by `f`.
pub map-In :
    {A B : Type 0} (f : A → B) (l : List A) {b : B} → In b (map f l) → (a : A) × In a l × (b ≡ f a)
map-In f [] m = elim m [ ]
map-In f (x ∷ l) (here e) = (x, here refl, e)
map-In f (x ∷ l) (there m) = let (a, k, e) = map-In f l m in (a, there k, e)

pub map-IsConsistent :
    (f : RequestRow → RequestRow) (l : List RequestRow)
    → ((row : RequestRow) → InStep row → InStep (f row))
    → All InStep l
    → All InStep (map f l)
map-IsConsistent f [] keeps holds = tt
map-IsConsistent f (row ∷ l) keeps (now, later) = (keeps row now, map-IsConsistent f l keeps later)

pub if-InStep :
    (b : Bool) (row other : RequestRow)
    → InStep row
    → InStep other
    → InStep (if b then row else other)
if-InStep true row other h k = h
if-InStep false row other h k = k

-- Storing a new request keeps the column has_pending of every request in step with its items.
pub create_grant_request-IsConsistent :
    (request : GrantRequest) (db : Db) (db' : Db)
    → IsConsistent db
    → create_grant_request request db ≡ ok db'
    → IsConsistent db'
unfolding create_grant_request request_row
create_grant_request-IsConsistent request db db' holds h =
    let (fresh, stored) = fail_if-eq-ok _ _ _ h in
    subst (λ (x : Db). All InStep x.requests) (ok-injective stored)
      (appended-InStep db.requests holds)
  where
    appended-InStep :
        (l : List RequestRow) → All InStep l → All InStep (l ++ request_row request ∷ [])
    appended-InStep [] h = (refl, tt)
    appended-InStep (row ∷ l) (now, later) = (now, appended-InStep l later)

insert_grant-requests :
    (grant : Grant) (db : Db) {db' : Db}
    → insert_grant grant db ≡ ok db'
    → db'.requests ≡ db.requests
unfolding insert_grant
insert_grant-requests grant db h = ground arith

pub insert_grants-requests :
    (grants : List Grant) (db : Db) {db' : Db}
    → insert_grants grants db ≡ ok db'
    → db'.requests ≡ db.requests
unfolding insert_grants
insert_grants-requests [] db h = ap (λ (x : Db). x.requests) (sym (ok-injective h))
insert_grants-requests (grant ∷ grants) db h =
    let (mid, first, rest) = >>=-eq-ok (insert_grant grant db) (insert_grants grants) h in
    insert_grants-requests grants mid rest ∙ insert_grant-requests grant db first

-- The transaction that stores decisions keeps the column has_pending of every request in step with
-- its items.
pub decide_items-IsConsistent :
    (request : GrantRequest) (grants : List Grant) (db : Db) (db' : Db)
    → IsConsistent db
    → decide_items request grants db ≡ ok db'
    → IsConsistent db'
unfolding decide_items
decide_items-IsConsistent request grants db db' holds h =
    let (there_is, stored) = fail_if-eq-ok _ _ _ h in
    subst (All InStep) (sym (insert_grants-requests grants _ stored)) (
      map-IsConsistent (λ r. if is_open request.id r then set_items request.items r else r)
        db.requests (λ r k. if-InStep (is_open request.id r) (set_items request.items r) r refl k)
        holds)

expire_row-InStep : (now : ℕ) (row : RequestRow) → InStep row → InStep (expire_row now row)
unfolding expire_row
expire_row-InStep now row k =
    if-InStep (is_overdue now row) (set_items (map expire_item row.items) row) row refl k

pub none_pending : (items : List Item) → has_pending (map expire_item items) ≡ false
none_pending [] = refl
none_pending (item ∷ items) = ground (arith, none_pending items)

expire_row-overdue : (now : ℕ) (row : RequestRow) → is_overdue now (expire_row now row) ≡ false
unfolding expire_row
expire_row-overdue now row = elim (Bool-cases (is_overdue now row)) [
  | inl e ↦ rw e (rw (none_pending row.items) refl)
  | inr e ↦ rw e e
]

-- The sweep keeps the column has_pending of every request in step with its items, and leaves no
-- request that is pending at or past its deadline.
pub expire_pending_items-IsConsistent :
    (now : ℕ) (db : Db)
    → IsConsistent db
    → IsConsistent (expire_pending_items now db).1
      × All (λ row. is_overdue now row ≡ false) (expire_pending_items now db).1.requests
unfolding expire_pending_items
expire_pending_items-IsConsistent now db holds = (
  map-IsConsistent (expire_row now) db.requests (expire_row-InStep now) holds,
  In-All (λ row. is_overdue now row ≡ false) _
      λ row m.
        let (old, k, e) = map-In (expire_row now) db.requests m in
        rw e (expire_row-overdue now old),
)
