-- ===== src/Store/RoundTrip.antt =====
-- What is written to the tables is what a later query reads.
use openbao_authorizer.Prelude.{
  ℕ, ◌≡◌, ◌≢◌, refl, sym, ap, ◌∙◌, ◌+◌, ◌*◌, ◌-◌, ◌%◌, ◌≤◌, Bool, false, ◌||◌, inl, inr, Option,
  none, some, List, [], ◌∷◌, ◌++◌, arith, if◌then◌else◌, any, Bool-cases, find,
}
use openbao_authorizer.Prelude.Result.{ok, err, ok-injective, fail_if-eq-ok}
use openbao_authorizer.Text.Bytes.{Str, ◌==◌, eq_refl, eq→≡, contains_byte}
use openbao_authorizer.Text.Split.{split_by, join_by, split-join}
use openbao_authorizer.Store.Model.{
  Grant, GrantRequest, StoreError, unix_milli, from_unix_milli, epoch_millis,
}
use openbao_authorizer.Store.Rows.{
  Db, GrantRow, RequestRow, seal, unseal, request_row, read_request, grant_row, read_grant,
  session_data, reason_data,
}
use openbao_authorizer.Store.Requests.{create_grant_request, grant_request, find_request}
use openbao_authorizer.Store.Grants.{insert_grant, grant, find_grant}

-- A time at least a millisecond after the start of 1970 comes back from the database cut to the
-- millisecond.
pub from_unix_milli-unix_milli :
    (t : ℕ)
    → (epoch_millis + 1) * 1_000_000 ≤ t
    → from_unix_milli (unix_milli t) ≡ t - t % 1_000_000
unfolding from_unix_milli unix_milli
from_unix_milli-unix_milli t h = ground arith

pub find-appended :
    {R : Type 0} (p : R → Bool) (l : List R) (x : R)
    → any p l ≡ false
    → find p (l ++ x ∷ []) ≡ (if p x then some x else none)
find-appended p [] x h = refl
find-appended p (y ∷ l) x h = elim (Bool-cases (p y)) [
  | inl e ↦ cc (rw e at h)
  | inr e ↦ rw e (find-appended p l x (rw e at h))
]

find-before :
    {R : Type 0} (p : R → Bool) (l : List R) (x : R) → p x ≡ false → find p (l ++ x ∷ []) ≡ find p l
find-before p [] x h = rw h refl
find-before p (y ∷ l) x h = ground (arith, find-before p l x h)

-- A sealed column opens under the data that it is bound to.
unseal-seal :
    {A : Type 0} (content : A) (bound : Str) → unseal (seal content bound) bound ≡ ok content
unfolding seal unseal
unseal-seal content bound = rw (eq_refl bound) refl

-- A request as the database keeps it.
abbrev pub kept_request : GrantRequest → GrantRequest
kept_request request = record request {
  created_at = from_unix_milli (unix_milli request.created_at);
  pending_until = from_unix_milli (unix_milli request.pending_until);
}

read-request_row :
    (request : GrantRequest) → read_request (request_row request) ≡ ok (kept_request request)
unfolding read_request request_row
read-request_row request =
    rw
      (
        unseal-seal request.requester (session_data request.id),
        unseal-seal request.reason (reason_data request.id),
      )
      refl

grant_request-found :
    (id : Str) (db : Db) (row : RequestRow)
    → find_request id db ≡ some row
    → grant_request id db ≡ read_request row
unfolding grant_request
grant_request-found id db row e = rw (e, grant_request) refl

grant_request-same :
    (id : Str) (db db' : Db)
    → find_request id db' ≡ find_request id db
    → grant_request id db' ≡ grant_request id db
unfolding grant_request
grant_request-same id db db' e =
    ap
      (λ (t : Option RequestRow). elim t [
        | none ↦ err StoreError.not_found
        | some row ↦ read_request row
      ])
      e

pub differs : (s t : Str) → s ≢ t → (s == t) ≡ false
differs s t h = elim (Bool-cases (s == t)) [ inl e ↦ absurd (h (eq→≡ s t e)) | inr e ↦ e ]

-- A request that was created is read back by its id, with its times cut to what the database
-- keeps.
pub create_then_grant_request :
    (request : GrantRequest) (db : Db) (db' : Db)
    → create_grant_request request db ≡ ok db'
    → grant_request request.id db' ≡ ok (kept_request request)
unfolding create_grant_request request_row
create_then_grant_request request db db' h =
    let (fresh, stored) = fail_if-eq-ok _ _ _ h in
    let done = ap (λ (x : Db). x.requests) (sym (ok-injective stored)) in
    grant_request-found request.id db' (request_row request) (
      ap (λ t. find (λ (row : RequestRow). row.id == request.id) t) done
      ∙ (find-appended (λ row. row.id == request.id) db.requests (request_row request) fresh
          ∙ rw (eq_refl request.id) refl))
    ∙ read-request_row request

-- Creating a request changes what no other id reads.
pub create_keeps_grant_request :
    (request : GrantRequest) (db : Db) (db' : Db) (id : Str)
    → id ≢ request.id
    → create_grant_request request db ≡ ok db'
    → grant_request id db' ≡ grant_request id db
unfolding create_grant_request request_row
create_keeps_grant_request request db db' id other h =
    let (fresh, stored) = fail_if-eq-ok _ _ _ h in
    let done = ap (λ (x : Db). x.requests) (sym (ok-injective stored)) in
    grant_request-same id db db' (
      ap (λ t. find (λ (row : RequestRow). row.id == id) t) done
      ∙ find-before (λ row. row.id == id) db.requests (request_row request)
          (differs request.id id (λ e. other (sym e))))

-- A Grant as the database keeps it: with its times cut, and not revoked.
abbrev pub kept_grant : Grant → Grant
kept_grant grant = record grant {
  created_at = from_unix_milli (unix_milli grant.created_at);
  expires_at = from_unix_milli (unix_milli grant.expires_at);
  revoked_at = 0;
  revoked_by = [];
}

grant-found :
    (id : Str) (db : Db) (row : GrantRow)
    → find_grant id db ≡ some row
    → grant id db ≡ read_grant row
unfolding grant
grant-found id db row e = rw (e, grant) refl

split-capabilities :
    (l : List Str)
    → l ≢ []
    → any (contains_byte b',') l ≡ false
    → split_by b',' (join_by b',' l) ≡ l
split-capabilities [] some_capability h = absurd (some_capability refl)
split-capabilities (c ∷ l) some_capability h = split-join b',' c l h

read-grant_row :
    (grant : Grant)
    → grant.capabilities ≢ []
    → any (contains_byte b',') grant.capabilities ≡ false
    → read_grant (grant_row grant) ≡ ok (kept_grant grant)
unfolding read_grant grant_row from_unix_milli
read-grant_row grant some_capability h = rw (unseal-seal grant.requester (session_data grant.id)) (
    ap (λ (c : List Str). ok (record (kept_grant grant) { capabilities = c }))
      (split-capabilities grant.capabilities some_capability h))

any-weaken :
    (p q : GrantRow → Bool) (l : List GrantRow) → any (λ r. p r || q r) l ≡ false → any p l ≡ false
any-weaken p q [] h = refl
any-weaken p q (x ∷ l) h = ground (arith, any-weaken p q l)

-- A Grant with a capability, none of which holds a comma, is read back by its id once it is
-- inserted: not revoked, and with its times cut to what the database keeps.
pub insert_then_grant :
    (g : Grant) (db : Db) (db' : Db)
    → g.capabilities ≢ []
    → any (contains_byte b',') g.capabilities ≡ false
    → insert_grant g db ≡ ok db'
    → grant g.id db' ≡ ok (kept_grant g)
unfolding insert_grant grant_row
insert_then_grant g db db' some_capability no_comma h =
    let (fresh, rest) = fail_if-eq-ok _ _ _ h in
    let (known, stored) = fail_if-eq-ok _ _ _ rest in
    let done = ap (λ (x : Db). x.grants) (sym (ok-injective stored)) in
    grant-found g.id db' (grant_row g) (
      ap (λ t. find (λ (row : GrantRow). row.id == g.id) t) done
      ∙ (find-appended (λ row. row.id == g.id) db.grants (grant_row g)
            (any-weaken (λ row. row.id == g.id) (λ row. row.item_id == g.item_id) db.grants fresh)
          ∙ rw (eq_refl g.id) refl))
    ∙ read-grant_row g some_capability no_comma
