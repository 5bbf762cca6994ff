-- ===== src/Examples/Store.antt =====
-- The theorems on the tables, at the examples' tables.
use openbao_authorizer.Prelude.{ℕ, ◌≡◌, ◌≢◌, refl, ap, false, [], ◌∷◌, All, here, ◌+◌}
use openbao_authorizer.Prelude.Result.{ok}
use openbao_authorizer.Text.Bytes.{bytes, ◌==◌}
use openbao_authorizer.Store.Model.{Grant, GrantRequest, unix_milli}
use openbao_authorizer.Store.Rows.{Db, request_row, grant_row}
use openbao_authorizer.Store.Requests.{
  create_grant_request, grant_request, expire_pending_items, is_overdue,
}
use openbao_authorizer.Store.Grants.{
  insert_grant, grant, decide_items, is_active, revoke_grant, revoke_row,
}
use openbao_authorizer.Store.Invariant.{IsConsistent, expire_pending_items-IsConsistent}
use openbao_authorizer.Store.Revoked.{revoke_grant-inactive}
use openbao_authorizer.Store.RoundTrip.{
  kept_request, kept_grant, create_then_grant_request, insert_then_grant,
}
use openbao_authorizer.Examples.Data.{computation, approver, request, live_grant, tables, noon}

tables-IsConsistent : IsConsistent tables
unfolding request_row
tables-IsConsistent = (refl, tt)

abbrev second_request : GrantRequest
second_request = record request { id = bytes "r2" }

abbrev two_requests : Db
two_requests = record tables { requests = request_row request ∷ request_row second_request ∷ [] }

created : create_grant_request second_request tables ≡ ok two_requests
unfolding computation
created = refl

create_then_grant_request_example :
    grant_request (bytes "r2") two_requests ≡ ok (kept_request second_request)
create_then_grant_request_example =
    create_then_grant_request second_request tables two_requests created

other_id : bytes "r1" ≢ bytes "r2"
unfolding ◌==◌
other_id h = cc (ap (λ s. s == bytes "r2") h)

abbrev new_grant : Grant
new_grant = record live_grant { id = bytes "g1"; item_id = bytes "i1" }

abbrev two_grants : Db
two_grants = record tables { grants = grant_row live_grant ∷ grant_row new_grant ∷ [] }

inserted : insert_grant new_grant tables ≡ ok two_grants
unfolding computation
inserted = refl

has_capability : new_grant.capabilities ≢ []
has_capability h = cc

insert_then_grant_example : grant (bytes "g1") two_grants ≡ ok (kept_grant new_grant)
insert_then_grant_example =
    insert_then_grant new_grant tables two_grants has_capability refl inserted

decided : decide_items request (new_grant ∷ []) tables ≡ ok two_grants
unfolding computation
decided = refl

abbrev late : ℕ
late = 64_000_000_000_000_000_000

expire_pending_items-IsConsistent_example :
    IsConsistent (expire_pending_items late tables).1
    × All (λ row. is_overdue late row ≡ false) (expire_pending_items late tables).1.requests
expire_pending_items-IsConsistent_example =
    expire_pending_items-IsConsistent late tables tables-IsConsistent

abbrev revoked_tables : Db
revoked_tables = record tables { grants = revoke_row approver noon (grant_row live_grant) ∷ [] }

revoked : revoke_grant (bytes "g0") approver noon tables ≡ ok revoked_tables
unfolding computation
revoked = refl

dated : unix_milli noon ≢ 0
unfolding unix_milli
dated h = cc

named : (revoke_row approver noon (grant_row live_grant)).id ≡ bytes "g0"
unfolding grant_row
named = refl

revoke_grant-inactive_example :
    is_active (bytes "e1") (noon + 1) (revoke_row approver noon (grant_row live_grant)) ≡ false
revoke_grant-inactive_example =
    revoke_grant-inactive (bytes "g0") approver noon tables revoked_tables dated revoked
      (revoke_row approver noon (grant_row live_grant)) (bytes "e1") (noon + 1) (here refl) named
