-- ===== src/Store/Rows.antt =====
-- The rows of `grant_requests` and `grants`, with their encrypted columns.
use openbao_authorizer.Prelude.{ℕ, Bool, List, [], ◌∷◌, ◌++◌, if◌then◌else◌, ltb}
use openbao_authorizer.Prelude.Result.{Result, ok, err, ◌>>=◌}
use openbao_authorizer.Text.Bytes.{Str, bytes, ◌==◌}
use openbao_authorizer.Text.Split.{split_by, join_by}
use openbao_authorizer.Store.Model.{
  Item, GrantRequest, Grant, RequesterDisplay, StoreError, cipher_failed, has_pending, unix_milli,
  from_unix_milli,
}

-- A nonce and ciphertext of AES-256-GCM under the database's one key: a text bound to its
-- additional data, which alone opens it. The key and the nonce are not modelled.
pub record Sealed (A : Type 0) : Type 0 where
  pub bound : Str
  pub content : A

-- `encrypt` and `encryptJSON`
unfoldable pub seal : {A : Type 0} → A → Str → Sealed A
seal content additional_data = record { bound = additional_data; content = content }

-- `decrypt` and `decryptJSON`
unfoldable pub unseal : {A : Type 0} → Sealed A → Str → Result StoreError A
unfolding ◌==◌
unseal sealed additional_data =
    if sealed.bound == additional_data then ok sealed.content else err cipher_failed

pub record RequestRow : Type 0 where
  pub id : Str
  pub entity_id : Str
  pub session : Sealed RequesterDisplay
  pub reason : Sealed Str
  pub created_at : ℕ
  pub pending_until : ℕ
  pub pending : Bool
  pub items : List Item

pub record GrantRow : Type 0 where
  pub id : Str
  pub request_id : Str
  pub item_id : Str
  pub entity_id : Str
  pub path : Str
  pub capabilities : Str
  pub session : Sealed RequesterDisplay
  pub created_at : ℕ
  pub expires_at : ℕ
  pub approved_by_name : Str
  pub revoked_at : ℕ
  pub revoked_by_name : Str

pub record Db : Type 0 where
  pub requests : List RequestRow
  pub grants : List GrantRow

abbrev pub session_data : Str → Str
session_data id = id ++ bytes ":session"

abbrev pub reason_data : Str → Str
reason_data id = id ++ bytes ":reason"

unfoldable pub request_row : GrantRequest → RequestRow
unfolding seal unix_milli
request_row request = record {
  id = request.id;
  entity_id = request.entity_id;
  session = seal request.requester (session_data request.id);
  reason = seal request.reason (reason_data request.id);
  created_at = unix_milli request.created_at;
  pending_until = unix_milli request.pending_until;
  pending = has_pending request.items;
  items = request.items;
}

-- One round of the loop of `queryRequests`.
unfoldable pub read_request : RequestRow → Result StoreError GrantRequest
unfolding unseal from_unix_milli
read_request row = do
  requester ← unseal row.session (session_data row.id)
  reason ← unseal row.reason (reason_data row.id)
  ok (record {
    id = row.id;
    entity_id = row.entity_id;
    requester = requester;
    reason = reason;
    created_at = from_unix_milli row.created_at;
    pending_until = from_unix_milli row.pending_until;
    items = row.items;
  })

-- The columns that `DecideItems` inserts; the others have their defaults.
unfoldable pub grant_row : Grant → GrantRow
unfolding seal unix_milli join_by
grant_row grant = record {
  id = grant.id;
  request_id = grant.request_id;
  item_id = grant.item_id;
  entity_id = grant.entity_id;
  path = grant.path;
  capabilities = join_by b',' grant.capabilities;
  session = seal grant.requester (session_data grant.id);
  created_at = unix_milli grant.created_at;
  expires_at = unix_milli grant.expires_at;
  approved_by_name = grant.approved_by;
  revoked_at = 0;
  revoked_by_name = [];
}

-- One round of the loop of `queryGrants`.
unfoldable pub read_grant : GrantRow → Result StoreError Grant
unfolding unseal from_unix_milli split_by
read_grant row = do
  requester ← unseal row.session (session_data row.id)
  ok (record {
    id = row.id;
    request_id = row.request_id;
    item_id = row.item_id;
    entity_id = row.entity_id;
    path = row.path;
    capabilities = split_by b',' row.capabilities;
    requester = requester;
    created_at = from_unix_milli row.created_at;
    expires_at = from_unix_milli row.expires_at;
    approved_by = row.approved_by_name;
    revoked_at = from_unix_milli row.revoked_at;
    revoked_by = row.revoked_by_name;
  })

-- The loops themselves: the first row that does not decrypt fails the query.
unfoldable pub read_all {ℓ} :
    {R A : Type ℓ} → (R → Result StoreError A) → List R → Result StoreError (List A)
read_all read [] = ok []
read_all read (row ∷ rows) = do value ← read row; values ← read_all read rows; ok (value ∷ values)

-- ORDER BY created_at DESC, by insertion. SQL leaves the order of rows of one time open; here they
-- stay in the order of insertion.
unfoldable pub insert_newest {ℓ} : {R : Type ℓ} → (R → ℕ) → R → List R → List R
insert_newest created row [] = row ∷ []
insert_newest created row (next ∷ rows) =
    if ltb (created row) (created next)
    then next ∷ insert_newest created row rows
    else row ∷ next ∷ rows

unfoldable pub newest_first {ℓ} : {R : Type ℓ} → (R → ℕ) → List R → List R
unfolding insert_newest
newest_first created [] = []
newest_first created (row ∷ rows) = insert_newest created row (newest_first created rows)
