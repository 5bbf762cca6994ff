-- ===== src/Cred/Request.antt =====
-- Grant Requests as the client prints them, their outcome, and the checks of the request command.
pub mod ExitStatus
use openbao_authorizer.Prelude.{
  ℕ, suc, ◌+◌, Bool, true, false, ◌&&◌, ◌||◌, not, Option, none, some, List, [], ◌∷◌, ◌++◌, map,
  any, all, if◌then◌else◌, eqb, ltb, length,
}
use openbao_authorizer.Prelude.Int.{ℤ, pos, ltb_ℤ}
use openbao_authorizer.Prelude.Result.{Result, ok, err, fail_if, ◌>>=◌, ◌>>◌}
use openbao_authorizer.Text.Bytes.{Str, bytes, ◌==◌, has_prefix, without_prefix, trim_prefix}
use openbao_authorizer.Text.Split.{split_by, join_by}
use openbao_authorizer.Text.Unicode.{trim_space, to_lower}
use openbao_authorizer.Rules.Pattern.{is_empty}
use openbao_authorizer.Config.Model.{Url}
use openbao_authorizer.Cred.Model.{
  CredError, timeout_not_positive, wait_combined, reason_required, item_required, item_malformed,
  url_required, url_malformed, url_insecure,
}

-- authorizerv1.ItemState; a value that this client does not know prints as its number.
pub data WireState : Type 0 where
  unspecified pending already_granted approved rejected refused expired revoked : WireState
  unknown : Str → WireState

abbrev wire_name : WireState → Str
wire_name unspecified = bytes "ITEM_STATE_UNSPECIFIED"
wire_name pending = bytes "ITEM_STATE_PENDING"
wire_name already_granted = bytes "ITEM_STATE_ALREADY_GRANTED"
wire_name approved = bytes "ITEM_STATE_APPROVED"
wire_name rejected = bytes "ITEM_STATE_REJECTED"
wire_name refused = bytes "ITEM_STATE_REFUSED"
wire_name expired = bytes "ITEM_STATE_EXPIRED"
wire_name revoked = bytes "ITEM_STATE_REVOKED"
wire_name (unknown n) = n

pub record WireItem : Type 0 where
  pub id : Str
  pub path : Str
  pub capabilities : List Str
  pub ttl : Option ℤ
  pub state : WireState
  pub reason : Str
  pub expires_at : Option ℕ

pub record WireRequest : Type 0 where
  pub id : Str
  pub items : List WireItem

pub record GrantItem : Type 0 where
  pub id : Str
  pub path : Str
  pub capabilities : List Str
  pub ttl : Str
  pub state : Str
  pub reason : Str
  pub expires_at : Option ℕ

pub record GrantRequest : Type 0 where
  pub id : Str
  pub items : List GrantItem

abbrev pub state_approved : Str
state_approved = bytes "approved"

abbrev pub state_already_granted : Str
state_already_granted = bytes "already_granted"

abbrev pub state_pending : Str
state_pending = bytes "pending"

module _ (lower_wide : ℕ → ℕ) where
  unfoldable pub item_state : WireState → Str
  unfolding to_lower has_prefix without_prefix
  item_state state = to_lower lower_wide (trim_prefix (wire_name state) (bytes "ITEM_STATE_"))

  module _ (format_duration : ℤ → Str) where
    abbrev printed_ttl : Option ℤ → Str
    printed_ttl none = []
    printed_ttl (some d) = format_duration d

    abbrev printed_item : WireItem → GrantItem
    printed_item item = record {
      id = item.id;
      path = item.path;
      capabilities = item.capabilities;
      ttl = printed_ttl item.ttl;
      state = item_state item.state;
      reason = item.reason;
      expires_at = item.expires_at;
    }

    unfoldable pub new_grant_request : WireRequest → GrantRequest
    unfolding item_state
    new_grant_request message = record { id = message.id; items = map printed_item message.items }

abbrev pub is_pending : GrantItem → Bool
is_pending item = item.state == state_pending

abbrev pub is_granted : GrantItem → Bool
is_granted item = item.state == state_approved || item.state == state_already_granted

abbrev count_pending : ℕ → List GrantItem → ℕ
count_pending count [] = count
count_pending count (item ∷ rest) =
    count_pending (if is_pending item then count + 1 else count) rest

unfoldable pub pending_count : GrantRequest → ℕ
unfolding ◌==◌
pending_count r = count_pending 0 r.items

unfoldable pub label : GrantItem → Str
unfolding join_by
label item = item.path ++ b'=' ∷ join_by b',' item.capabilities

unfoldable pub describe_item : GrantItem → Str
unfolding label
describe_item item =
    let description = label item ++ (bytes ": " ++ item.state) in
    if is_empty item.reason
    then description
    else description ++ (bytes " (" ++ (item.reason ++ bytes ")"))

-- The errors of `outcomeError`, with what they print.
pub data Outcome : Type 0 where
  items_pending : ℕ → Str → Outcome
  items_still_pending : ℕ → ℤ → Str → Outcome
  items_denied : List Str → Outcome

abbrev pub exit_pending : ℕ
exit_pending = 4

abbrev pub exit_not_granted : ℕ
exit_not_granted = 3

-- The exit status of an outcome; 0 where there is no error.
abbrev pub exit_code : Option Outcome → ℕ
exit_code none = 0
exit_code (some (items_pending n id)) = exit_pending
exit_code (some (items_still_pending n waited id)) = exit_pending
exit_code (some (items_denied items)) = exit_not_granted

unfoldable pub collect_denied : List Str → List GrantItem → List Str
unfolding describe_item ◌==◌
collect_denied denied [] = denied
collect_denied denied (item ∷ rest) =
    collect_denied (if is_granted item then denied else denied ++ describe_item item ∷ []) rest

unfoldable pub outcome_error : GrantRequest → ℤ → Option Outcome
unfolding pending_count collect_denied
outcome_error r waited =
    let pending = pending_count r in
    let denied = collect_denied [] r.items in
    if ltb 0 pending
    then (if ltb_ℤ waited (pos 0) || ltb_ℤ (pos 0) waited
        then some (items_still_pending pending waited r.id)
        else some (items_pending pending r.id))
    else if is_empty denied
    then none
    else some (items_denied denied)
