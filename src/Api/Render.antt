-- ===== src/Api/Render.antt =====
-- internal/api/convert.go: what the service stores, as messages. A time that is absent is `none`.
pub mod Hidden
use openbao_authorizer.Prelude.{
  ℕ, Bool, true, false, Option, none, some, List, [], ◌∷◌, map, if◌then◌else◌, eqb,
}
use openbao_authorizer.Prelude.Int.{ℤ, pos, ltb_ℤ}
use openbao_authorizer.Text.Bytes.{Str, bytes, ◌==◌}
use openbao_authorizer.Store.Model.{
  ItemState, pending, already_granted, approved, rejected, refused, expired, revoked, ItemReason,
  RequesterDisplay, Approver, Item, GrantRequest, Grant,
}
use openbao_authorizer.Config.Model.{LoginMethod, ApproverLogin}
use openbao_authorizer.Service.Discovery.{Grantable}

pub record RequesterProto : Type 0 where
  pub id : Str
  pub title : Str
  pub directory : Str
  pub entity_id : Str
  pub rule : Str

pub record ItemProto : Type 0 where
  pub id : Str
  pub path : Str
  pub capabilities : List Str
  pub state : ItemState
  pub reason : ItemReason
  pub ttl : Option ℤ
  pub expires_at : Option ℕ
  pub decided_by : Str
  pub decided_at : Option ℕ
  pub grant_id : Str

pub record RequestProto : Type 0 where
  pub id : Str
  pub reason : Str
  pub created_at : ℕ
  pub requester : Option RequesterProto
  pub items : List ItemProto

pub record GrantProto : Type 0 where
  pub id : Str
  pub item_id : Str
  pub path : Str
  pub capabilities : List Str
  pub created_at : ℕ
  pub expires_at : ℕ
  pub approved_by : Str
  pub requester : Option RequesterProto

unfoldable pub optional_timestamp : ℕ → Option ℕ
optional_timestamp t = if eqb t 0 then none else some t

unfoldable pub requester_proto : Str → RequesterDisplay → RequesterProto
requester_proto entity_id display = record {
  id = display.id;
  title = display.title;
  directory = display.directory;
  entity_id = entity_id;
  rule = display.rule;
}

-- The switch on `item.State`.
abbrev expiry_of : ItemState → ℕ → ℕ → Option ℕ
expiry_of pending pending_until grant_expires = optional_timestamp pending_until
expiry_of approved pending_until grant_expires = optional_timestamp grant_expires
expiry_of revoked pending_until grant_expires = optional_timestamp grant_expires
expiry_of already_granted pending_until grant_expires = none
expiry_of rejected pending_until grant_expires = none
expiry_of refused pending_until grant_expires = none
expiry_of expired pending_until grant_expires = none

unfoldable pub item_proto : ℕ → Bool → Item → ItemProto
unfolding optional_timestamp
item_proto pending_until for_approver item = record {
  id = item.id;
  path = item.path;
  capabilities = item.capabilities;
  state = item.state;
  reason = item.reason;
  ttl = if ltb_ℤ (pos 0) item.ttl then some item.ttl else none;
  expires_at = expiry_of item.state pending_until item.grant_expires;
  decided_by = if for_approver then item.decided_by.name else [];
  decided_at = if for_approver then optional_timestamp item.decided_at else none;
  grant_id = if for_approver then item.grant_id else [];
}

unfoldable pub request_proto : GrantRequest → Bool → RequestProto
unfolding requester_proto item_proto
request_proto request for_approver = record {
  id = request.id;
  reason = request.reason;
  created_at = request.created_at;
  requester =
      if for_approver then some (requester_proto request.entity_id request.requester) else none;
  items = map (item_proto request.pending_until for_approver) request.items;
}

unfoldable pub requests_proto : List GrantRequest → List RequestProto
unfolding request_proto
requests_proto requests = map (λ request. request_proto request true) requests

unfoldable pub grant_proto : Bool → Grant → GrantProto
unfolding requester_proto
grant_proto for_approver grant = record {
  id = grant.id;
  item_id = grant.item_id;
  path = grant.path;
  capabilities = grant.capabilities;
  created_at = grant.created_at;
  expires_at = grant.expires_at;
  approved_by = if for_approver then grant.approved_by else [];
  requester = if for_approver then some (requester_proto grant.entity_id grant.requester) else none;
}

unfoldable pub grants_proto : List Grant → Bool → List GrantProto
unfolding grant_proto
grants_proto grants for_approver = map (grant_proto for_approver) grants

-- A proto duration: absent, out of its range, or a number of nanoseconds. The text of an absent one
-- is empty, and one that is out of range is `none`.
pub data DurationProto : Type 0 where
  absent out_of_range : DurationProto
  duration : ℤ → DurationProto

unfoldable pub duration_input : (ℤ → Str) → DurationProto → Option Str
duration_input format absent = some []
duration_input format out_of_range = none
duration_input format (duration d) = some (format d)
