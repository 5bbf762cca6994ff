-- ===== src/Examples/Data.antt =====
-- The inputs of the examples: a runtime, the rules, an OpenBao that keeps its policies in a list, and
-- a database with one Grant Request.
use openbao_authorizer.Prelude.{
  Bool, true, ℕ, ◌≡◌, refl, true, false, not, inl, inr, Option, none, some, List, [], ◌∷◌, ◌++◌,
  if◌then◌else◌, keep, Bool-cases,
}
use openbao_authorizer.Prelude.Int.{ℤ, pos}
use openbao_authorizer.Prelude.Result.{ok}
use openbao_authorizer.Text.Bytes.{Str, bytes, ◌==◌, eq_refl, cut_suffix, has_prefix}
use openbao_authorizer.Text.Split.{join_by, split_by, split_last}
use openbao_authorizer.Rules.Model.{Runtime, Rule, Policy, ItemInput}
use openbao_authorizer.Store.Model.{
  Item, pending, no_reason, Approver, Grant, GrantRequest, RequesterDisplay, from_unix_milli,
  unix_milli,
}
use openbao_authorizer.Store.Rows.{
  Db, request_row, grant_row, insert_newest, newest_first, read_all, read_grant, read_request, seal,
  unseal,
}
use openbao_authorizer.Service.Model.{OpenBao, IsLawful, World, Config, Decision, Identity}
use openbao_authorizer.Service.Decide.{
  decide_locked, decide_each, decide_one, decide_item, grant_of, publish, set_item, settle_approval,
  sweep, withdraw, decide,
}
use openbao_authorizer.Store.Requests.{
  grant_request, expire_pending_items, expire_row, update_items, create_grant_request,
}
use openbao_authorizer.Service.Approval.{approval_ttl, shortened}
use openbao_authorizer.Rules.Resolve.{
  resolve, requested_ttl, settle, scan, max_ttl_of, better, whole_seconds,
}
use openbao_authorizer.Rules.Concrete.{
  check_concrete_path, denied_segment, hidden_rune, check_text, sanitize_text, rune_cut,
}
use openbao_authorizer.Rules.Capability.{
  normalize_capabilities, is_subset, collect, insert, sort, str_lt, covers,
}
use openbao_authorizer.Rules.Pattern.{match_pattern, match_parts}
use openbao_authorizer.Service.Policy.{
  attach_policy, policy_block, render, restore_policy, session_policy, write_policy,
}
use openbao_authorizer.Store.Grants.{
  active_grants, decide_items, insert_grant, insert_grants, is_active, revoke_in_request,
  revoke_grant,
}
use openbao_authorizer.Text.Unicode.{is_format, is_space, to_lower, trim_space}
use openbao_authorizer.Text.Utf8.{chunks, decode, encode}
use openbao_authorizer.Service.Revoke.{revoke_locked}
use openbao_authorizer.Service.Create.{
  rule_matches, lookup_or_empty, display_id, requester_of, admit, authenticate, item_key,
  refused_item, pending_item, file_item, mark_granted, file_items, check_granted, file_request,
  create_request,
}
use openbao_authorizer.Service.Discovery.{is_requestable, compact, discovered_paths}
use openbao_authorizer.Store.Sessions.{
  session_row, put_session, session, delete_session, delete_expired_sessions, Session,
}

abbrev pub hour : ℕ
hour = 3_600_000_000_000

-- Go's duration syntax for the two texts used here.
abbrev pub parse_known : Str → Option ℤ
parse_known text =
    if text == bytes "1h"
    then some (pos hour)
    else if text == bytes "30m"
    then some (pos 1_800_000_000_000)
    else none

abbrev pub quoted : Str → Str
quoted text = 34 ∷ (text ++ 34 ∷ [])

abbrev pub plain_runtime : Runtime
plain_runtime = record {
  lower_wide = λ c. c;
  parse_duration = parse_known;
  json_string = quoted;
  json_strings = λ texts. join_by b',' texts;
  format_time = λ t. bytes "soon";
}

abbrev pub app_rule : Rule
app_rule = record {
  name = bytes "app";
  path = bytes "kv/data/app/*";
  capabilities = bytes "list" ∷ bytes "read" ∷ [];
  max_ttl = pos 28_800_000_000_000;
  description = [];
  discover = [];
}

abbrev pub app_policy : Policy
app_policy = record { rules = app_rule ∷ []; default_ttl = pos hour }

abbrev pub app_input : ItemInput
app_input = record {
  path = bytes "kv/data/app/a";
  capabilities = bytes "READ" ∷ [];
  ttl = bytes "30m";
}

abbrev pub app_config : Config
app_config = record {
  policy = app_policy;
  pending_ttl = pos hour;
  requesters = record { name = bytes "agents"; token_role = bytes "agent"; auth_mount = [] } ∷ [];
}

abbrev pub Policies : Type 0
Policies = List (Str × (Str × ℕ))

abbrev pub policy_named : Str → Policies → Option (Str × ℕ)
policy_named name [] = none
policy_named name ((other, content) ∷ policies) =
    if other == name then some content else policy_named name policies

abbrev pub drop_named : Str → Policies → Policies
drop_named name policies = keep (λ p. not (p.0 == name)) policies

abbrev pub agent : Identity
agent = record {
  entity_id = bytes "e1";
  display_name = bytes "agent";
  role = bytes "agent";
  path = bytes "auth/jwt/login";
  meta = [];
}

abbrev pub list_bao : OpenBao
list_bao = record {
  State = Policies;
  lookup_self = λ token s. (ok agent, s);
  read_entity = λ entity_id s. (ok [], s);
  set_entity_policies = λ entity_id policies s. (ok tt, s);
  write_policy = λ name document expires_at s. (ok tt, (name, (document, expires_at)) ∷ s);
  delete_policy = λ name s. (ok tt, drop_named name s);
  capabilities_self = λ token paths s. (ok [], s);
  list = λ path s. (ok [], s);
}

pub drop_named-none : (name : Str) (s : Policies) → policy_named name (drop_named name s) ≡ none
drop_named-none name [] = refl
drop_named-none name ((other, content) ∷ s) = elim (Bool-cases (other == name)) [
  | inl e ↦ rw e (drop_named-none name s)
  | inr e ↦ rw (e, e) (drop_named-none name s)
]

abbrev pub list_lawful : IsLawful list_bao
list_lawful = record {
  policy = policy_named;
  write_confirmed = λ name document expires_at s done. rw (eq_refl name) refl;
  delete_confirmed = λ name s done. drop_named-none name s;
  read_keeps = λ name entity_id s. refl;
  attach_keeps = λ name entity_id policies s. refl;
}

-- A time after 1970, on a whole millisecond.
abbrev pub noon : ℕ
noon = 63_000_000_000_000_000_000

abbrev pub nobody : Approver
nobody = record { entity_id = []; name = [] }

abbrev pub approver : Approver
approver = record { entity_id = bytes "e9"; name = bytes "ada" }

abbrev pub waiting : Str → Str → Item
waiting id path = record {
  id = id;
  path = path;
  capabilities = bytes "read" ∷ [];
  ttl = pos hour;
  state = pending;
  reason = no_reason;
  decided_at = 0;
  decided_by = nobody;
  grant_id = [];
  grant_expires = 0;
}

abbrev pub display : RequesterDisplay
display = record { id = bytes "agent"; title = []; directory = []; rule = bytes "agents" }

abbrev pub request : GrantRequest
request = record {
  id = bytes "r1";
  entity_id = bytes "e1";
  requester = display;
  reason = bytes "deploy";
  created_at = noon;
  pending_until = 63_000_003_600_000_000_000;
  items =
      waiting (bytes "i1") (bytes "kv/data/app/a")
      ∷ waiting (bytes "i2") (bytes "kv/data/app/b")
      ∷ [];
}

abbrev pub live_grant : Grant
live_grant = record {
  id = bytes "g0";
  request_id = bytes "r1";
  item_id = bytes "i0";
  entity_id = bytes "e1";
  path = bytes "kv/data/app/z";
  capabilities = bytes "read" ∷ [];
  requester = display;
  created_at = noon;
  expires_at = 63_000_003_600_000_000_000;
  approved_by = bytes "ada";
  revoked_at = 0;
  revoked_by = [];
}

abbrev pub tables : Db
tables = record { requests = request_row request ∷ []; grants = grant_row live_grant ∷ [] }

abbrev pub world : World list_bao
world = record {
  db = tables;
  server = [];
  ids = bytes "g1" ∷ [];
  faults = [];
  sweep_at = 0;
  events = [];
}

abbrev pub approve : Decision
approve = record { item_id = bytes "i1"; approve = true; ttl = bytes "30m" }

abbrev pub reject : Decision
reject = record { item_id = bytes "i2"; approve = false; ttl = [] }

abbrev pub own_session : Session
own_session = record {
  id = bytes "s1";
  entity_id = bytes "e9";
  display_name = bytes "ada";
  expires_at = 63_000_003_600_000_000_000;
}

abbrev pub same_text : Str → Str
same_text text = text

-- The definitions that a run of the examples computes through.
unfoldable pub computation : Bool
unfolding rule_matches lookup_or_empty display_id requester_of admit authenticate item_key
    refused_item pending_item file_item mark_granted file_items check_granted file_request
    create_request check_text sanitize_text rune_cut covers is_requestable compact discovered_paths
    split_last session_row put_session session delete_session delete_expired_sessions decide_locked
    decide_each decide_one decide_item grant_of publish set_item settle_approval sweep withdraw
    decide grant_request expire_pending_items expire_row update_items create_grant_request
    request_row grant_row insert_newest newest_first read_all read_grant read_request seal unseal
    approval_ttl shortened resolve requested_ttl settle scan max_ttl_of better whole_seconds
    check_concrete_path denied_segment hidden_rune normalize_capabilities is_subset collect insert
    sort str_lt match_pattern match_parts attach_policy policy_block render restore_policy
    session_policy write_policy active_grants decide_items insert_grant insert_grants is_active
    revoke_in_request revoke_grant from_unix_milli unix_milli cut_suffix has_prefix ◌==◌ join_by
    split_by is_format is_space to_lower trim_space chunks decode encode revoke_locked
computation = true
