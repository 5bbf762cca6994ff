-- ===== src/Store/Requests.antt =====
-- internal/store/grants.go on `grant_requests`: CreateGrantRequest, GrantRequest, GrantRequests,
-- ExpirePendingItems and updateItems.
use openbao_authorizer.Prelude.{
  ℕ, Bool, ◌&&◌, not, Option, none, some, List, [], ◌∷◌, ◌++◌, map, if◌then◌else◌, leb, any, find,
  keep, take,
}
use openbao_authorizer.Prelude.Result.{Result, ok, err, fail_if, ◌>>◌}
use openbao_authorizer.Text.Bytes.{Str, ◌==◌}
use openbao_authorizer.Rules.Capability.{sort}
use openbao_authorizer.Store.Model.{
  Item, expired, is_pending, deadline_passed, GrantRequest, RequestFilter, all_requests,
  pending_requests, decided_requests, StoreError, not_found, constraint_failed, has_pending,
  unix_milli,
}
use openbao_authorizer.Store.Rows.{
  Db, RequestRow, request_row, read_request, read_all, newest_first,
}

-- INSERT INTO grant_requests, whose key is `id`
unfoldable pub create_grant_request : GrantRequest → Db → Result StoreError Db
unfolding request_row ◌==◌
create_grant_request request db = do
  fail_if (any (λ row. row.id == request.id) db.requests) constraint_failed
  ok (record db { requests = db.requests ++ request_row request ∷ [] })

abbrev pub find_request : Str → Db → Option RequestRow
find_request id db = find (λ row. row.id == id) db.requests

unfoldable pub grant_request : Str → Db → Result StoreError GrantRequest
unfolding ◌==◌ read_request
grant_request id db = elim (find_request id db) [
  | none ↦ err not_found
  | some row ↦ read_request row
]

abbrev pub decided_request_limit : ℕ
decided_request_limit = 200

-- The rows that the filter's clause selects.
unfoldable pub select_requests : RequestFilter → List RequestRow → List RequestRow
unfolding newest_first
select_requests pending_requests rows =
    newest_first (λ r. r.created_at) (keep (λ r. r.pending) rows)
select_requests decided_requests rows =
    take decided_request_limit (newest_first (λ r. r.created_at) (keep (λ r. not r.pending) rows))
select_requests all_requests rows = newest_first (λ r. r.created_at) rows

unfoldable pub grant_requests : RequestFilter → Db → Result StoreError (List GrantRequest)
unfolding read_request read_all select_requests
grant_requests filter db = read_all read_request (select_requests filter db.requests)

-- UPDATE grant_requests SET items = ?, has_pending = ? WHERE id = ?
abbrev pub set_items : List Item → RequestRow → RequestRow
set_items items row = record row { items = items; pending = has_pending items }

unfoldable pub update_items : Str → List Item → List RequestRow → List RequestRow
unfolding ◌==◌
update_items id items rows = map (λ row. if row.id == id then set_items items row else row) rows

abbrev pub expire_item : Item → Item
expire_item item =
    if is_pending item.state
    then record item { state = expired; reason = deadline_passed }
    else item

-- has_pending = 1 AND pending_until <= now
abbrev pub is_overdue : ℕ → RequestRow → Bool
is_overdue now row = row.pending && leb row.pending_until (unix_milli now)

-- The loop over the selected rows; each has an id of its own, so it meets each row once.
unfoldable pub expire_row : ℕ → RequestRow → RequestRow
expire_row now row = if is_overdue now row then set_items (map expire_item row.items) row else row

-- The affected requests, and the new tables.
unfoldable pub expire_pending_items : ℕ → Db → List Str × Db
unfolding expire_row sort
expire_pending_items now db = (
  sort (map (λ row. row.id) (keep (is_overdue now) db.requests)),
  record db { requests = map (expire_row now) db.requests },
)
