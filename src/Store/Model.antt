-- ===== src/Store/Model.antt =====
-- The types of internal/store/grants.go, and times as the database keeps them.
use openbao_authorizer.Prelude.{
  ℕ, ◌+◌, ◌-◌, ◌*◌, ◌/◌, Bool, true, false, List, if◌then◌else◌, eqb, any,
}
use openbao_authorizer.Prelude.Int.{ℤ}
use openbao_authorizer.Text.Bytes.{Str}
use openbao_authorizer.Rules.Model.{Refusal}

pub data ItemState : Type 0 where
  pending already_granted approved rejected refused expired revoked : ItemState

-- The texts that `Item.Reason` takes.
pub data ItemReason : Type 0 where
  no_reason already_has_capabilities deadline_passed : ItemReason
  refused_for no_longer_grantable : Refusal → ItemReason

pub record RequesterDisplay : Type 0 where
  pub id : Str
  pub title : Str
  pub directory : Str
  pub rule : Str

pub record Approver : Type 0 where
  pub entity_id : Str
  pub name : Str

-- A time is the nanoseconds since Go's zero time, 1 January of year 1; `IsZero` is 0.
pub record Item : Type 0 where
  pub id : Str
  pub path : Str
  pub capabilities : List Str
  pub ttl : ℤ
  pub state : ItemState
  pub reason : ItemReason
  pub decided_at : ℕ
  pub decided_by : Approver
  pub grant_id : Str
  pub grant_expires : ℕ

pub record GrantRequest : Type 0 where
  pub id : Str
  pub entity_id : Str
  pub requester : RequesterDisplay
  pub reason : Str
  pub created_at : ℕ
  pub pending_until : ℕ
  pub items : List Item

pub record Grant : Type 0 where
  pub id : Str
  pub request_id : Str
  pub item_id : Str
  pub entity_id : Str
  pub path : Str
  pub capabilities : List Str
  pub requester : RequesterDisplay
  pub created_at : ℕ
  pub expires_at : ℕ
  pub approved_by : Str
  pub revoked_at : ℕ
  pub revoked_by : Str

pub data RequestFilter : Type 0 where
  all_requests pending_requests decided_requests : RequestFilter

pub data StoreError : Type 0 where
  not_found status_changed constraint_failed cipher_failed database_failed : StoreError

abbrev pub is_pending : ItemState → Bool
is_pending pending = true
is_pending _ = false

-- The second result of `encodeItems`; the JSON text itself stands for the items.
abbrev pub has_pending : List Item → Bool
has_pending items = any (λ item. is_pending item.state) items

-- Milliseconds from year 1 to 1970.
abbrev pub epoch_millis : ℕ
epoch_millis = 62_135_596_800_000

-- For times from 1970 on.
unfoldable pub unix_milli : ℕ → ℕ
unix_milli t = if eqb t 0 then 0 else t / 1_000_000 - epoch_millis

unfoldable pub from_unix_milli : ℕ → ℕ
from_unix_milli m = if eqb m 0 then 0 else (m + epoch_millis) * 1_000_000
