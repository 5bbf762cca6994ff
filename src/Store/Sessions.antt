-- ===== src/Store/Sessions.antt =====
-- internal/store/store.go on `approver_sessions`. The keyed fingerprint of an id is a parameter.
pub mod Reads
use openbao_authorizer.Prelude.{
  ℕ, Bool, true, false, ◌&&◌, ◌||◌, not, Option, none, some, List, [], ◌∷◌, ◌++◌, if◌then◌else◌,
  ltb, leb, any, find, keep,
}
use openbao_authorizer.Prelude.Result.{Result, ok, err, fail_if, ◌>>◌}
use openbao_authorizer.Text.Bytes.{Str, ◌==◌}
use openbao_authorizer.Store.Model.{
  StoreError, not_found, constraint_failed, unix_milli, from_unix_milli,
}

-- An Approver's application session.
pub record Session : Type 0 where
  pub id : Str
  pub entity_id : Str
  pub display_name : Str
  pub expires_at : ℕ

pub record SessionRow : Type 0 where
  pub fingerprint : Str
  pub entity_id : Str
  pub display_name : Str
  pub expires_at : ℕ

-- `PutSession` refuses a session without an id or an entity; the rest is the store's own.
pub data SessionError : Type 0 where
  incomplete : SessionError
  of_store : StoreError → SessionError

module _ (fingerprint : Str → Str) where
  unfoldable pub session_row : Session → SessionRow
  unfolding unix_milli
  session_row session = record {
    fingerprint = fingerprint session.id;
    entity_id = session.entity_id;
    display_name = session.display_name;
    expires_at = unix_milli session.expires_at;
  }

  -- INSERT INTO approver_sessions, whose key is `fingerprint`
  unfoldable pub put_session : Session → List SessionRow → Result SessionError (List SessionRow)
  unfolding session_row ◌==◌
  put_session session rows = do
    fail_if (session.id == [] || session.entity_id == []) incomplete
    fail_if (any (λ row. row.fingerprint == fingerprint session.id) rows)
        (of_store constraint_failed)
    ok (rows ++ session_row session ∷ [])

  -- fingerprint = ? AND expires_at > ?
  abbrev pub is_live : Str → ℕ → SessionRow → Bool
  is_live id now row = row.fingerprint == fingerprint id && ltb (unix_milli now) row.expires_at

  abbrev pub session_of : Str → SessionRow → Session
  session_of id row = record {
    id = id;
    entity_id = row.entity_id;
    display_name = row.display_name;
    expires_at = from_unix_milli row.expires_at;
  }

  abbrev pub found_session : Str → Option SessionRow → Result StoreError Session
  found_session id none = err not_found
  found_session id (some row) = ok (session_of id row)

  unfoldable pub session : Str → ℕ → List SessionRow → Result StoreError Session
  unfolding ◌==◌ unix_milli from_unix_milli
  session id now rows = found_session id (find (is_live id now) rows)

  unfoldable pub delete_session : Str → List SessionRow → List SessionRow
  unfolding ◌==◌
  delete_session id rows = keep (λ row. not (row.fingerprint == fingerprint id)) rows

-- expires_at <= ?
unfoldable pub delete_expired_sessions : ℕ → List SessionRow → List SessionRow
unfolding unix_milli
delete_expired_sessions now rows = keep (λ row. not (leb row.expires_at (unix_milli now))) rows
