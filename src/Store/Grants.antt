-- ===== src/Store/Grants.antt =====
-- internal/store/grants.go on `grants`: DecideItems, Grant, ActiveGrants, ExpiredGrants and
-- RevokeGrant.
use openbao_authorizer.Prelude.{
  ℕ, Bool, ◌&&◌, ◌||◌, not, Option, none, some, List, [], ◌∷◌, ◌++◌, map, if◌then◌else◌, leb, ltb,
  eqb, any, find, keep,
}
use openbao_authorizer.Prelude.Result.{Result, ok, err, fail_if, ◌>>=◌, ◌>>◌}
use openbao_authorizer.Text.Bytes.{Str, ◌==◌}
use openbao_authorizer.Store.Model.{
  Item, revoked, GrantRequest, Grant, Approver, StoreError, not_found, status_changed,
  constraint_failed, database_failed, unix_milli,
}
use openbao_authorizer.Store.Rows.{
  Db, RequestRow, GrantRow, grant_row, read_grant, read_all, newest_first,
}
use openbao_authorizer.Store.Requests.{find_request, set_items, update_items}

-- INSERT INTO grants: `id` is the key, `item_id` is unique and `request_id` names a request.
unfoldable pub insert_grant : Grant → Db → Result StoreError Db
unfolding grant_row ◌==◌
insert_grant grant db = do
  fail_if (any (λ row. row.id == grant.id || row.item_id == grant.item_id) db.grants)
      constraint_failed
  fail_if (not (any (λ row. row.id == grant.request_id) db.requests)) constraint_failed
  ok (record db { grants = db.grants ++ grant_row grant ∷ [] })

unfoldable pub insert_grants : List Grant → Db → Result StoreError Db
unfolding insert_grant
insert_grants [] db = ok db
insert_grants (grant ∷ grants) db = do db' ← insert_grant grant db; insert_grants grants db'

-- id = ? AND has_pending = 1
abbrev pub is_open : Str → RequestRow → Bool
is_open id row = row.id == id && row.pending

-- `ok` is a commit; any error rolls the transaction back, and the tables stay as they were.
unfoldable pub decide_items : GrantRequest → List Grant → Db → Result StoreError Db
unfolding insert_grants ◌==◌
decide_items request grants db = do
  fail_if (not (any (is_open request.id) db.requests)) status_changed
  insert_grants grants (record db {
    requests =
        map (λ row. if is_open request.id row then set_items request.items row else row)
          db.requests;
  })

abbrev pub find_grant : Str → Db → Option GrantRow
find_grant id db = find (λ row. row.id == id) db.grants

unfoldable pub grant : Str → Db → Result StoreError Grant
unfolding ◌==◌ read_grant
grant id db = elim (find_grant id db) [ none ↦ err not_found | some row ↦ read_grant row ]

-- revoked_at = 0 AND expires_at > now, for one entity or, with an empty id, for all
unfoldable pub is_active : Str → ℕ → GrantRow → Bool
unfolding ◌==◌ unix_milli
is_active entity_id now row =
    eqb row.revoked_at 0
    && ltb (unix_milli now) row.expires_at
    && (entity_id == [] || row.entity_id == entity_id)

unfoldable pub active_grants : Str → ℕ → Db → Result StoreError (List Grant)
unfolding is_active read_grant read_all newest_first
active_grants entity_id now db =
    read_all read_grant
      (newest_first (λ r. r.created_at) (keep (is_active entity_id now) db.grants))

-- ORDER BY expires_at, by insertion; rows of one time stay in the order of insertion.
unfoldable pub insert_soonest : GrantRow → List GrantRow → List GrantRow
insert_soonest row [] = row ∷ []
insert_soonest row (next ∷ rows) =
    if ltb next.expires_at row.expires_at then next ∷ insert_soonest row rows else row ∷ next ∷ rows

unfoldable pub soonest_first : List GrantRow → List GrantRow
unfolding insert_soonest
soonest_first [] = []
soonest_first (row ∷ rows) = insert_soonest row (soonest_first rows)

abbrev pub expired_within : ℕ → ℕ → GrantRow → Bool
expired_within after until row =
    eqb row.revoked_at 0
    && ltb (unix_milli after) row.expires_at
    && leb row.expires_at (unix_milli until)

unfoldable pub expired_grants : ℕ → ℕ → Db → List Str
unfolding soonest_first unix_milli
expired_grants after until db =
    map (λ row. row.id) (soonest_first (keep (expired_within after until) db.grants))

abbrev pub revoke_row : Approver → ℕ → GrantRow → GrantRow
revoke_row approver now row = record row {
  revoked_at = unix_milli now;
  revoked_by_name = approver.name;
}

abbrev pub revoke_item : Str → Item → Item
revoke_item item_id item = if item.id == item_id then record item { state = revoked } else item

-- The rest of `RevokeGrant`, once the grant's row is updated.
unfoldable pub revoke_in_request : GrantRow → Db → Result StoreError Db
unfolding update_items ◌==◌
revoke_in_request row db = elim (find_request row.request_id db) [
  | none ↦ err database_failed
  | some request ↦ ok (record db {
    requests =
        update_items row.request_id (map (revoke_item row.item_id) request.items) db.requests;
  })
]

unfoldable pub revoke_grant : Str → Approver → ℕ → Db → Result StoreError Db
unfolding revoke_in_request ◌==◌ unix_milli
revoke_grant grant_id approver now db =
    elim (find (λ row. row.id == grant_id && eqb row.revoked_at 0) db.grants) [
      | none ↦ err status_changed
      | some row ↦ revoke_in_request row (record db {
        grants =
            map
              (λ other.
                if other.id == grant_id && eqb other.revoked_at 0
                then revoke_row approver now other
                else other)
              db.grants;
      })
    ]
