-- ===== src/Service/Create.antt =====
-- `RequesterRule.matches`, `Authenticate`, `CreateRequest`, `Request` without a wait, and
-- `ownedRequest`.
pub mod Items
pub mod Loop
pub mod Filing
pub mod Admission
use openbao_authorizer.Prelude.{
  ℕ, Bool, ◌&&◌, ◌||◌, not, none, some, List, [], ◌∷◌, ◌++◌, map, if◌then◌else◌, ltb, eqb, length,
  find,
}
use openbao_authorizer.Prelude.Int.{pos}
use openbao_authorizer.Prelude.Result.{Result, ok, err}
use openbao_authorizer.Text.Bytes.{Str, bytes, ◌==◌, contains, has_prefix}
use openbao_authorizer.Text.Split.{join_by}
use openbao_authorizer.Text.Unicode.{trim_space}
use openbao_authorizer.Rules.Model.{Runtime, Refusal, ItemInput, Resolved, duplicate}
use openbao_authorizer.Rules.Concrete.{check_text, sanitize_text}
use openbao_authorizer.Rules.Capability.{normalize_capabilities, covers}
use openbao_authorizer.Rules.Resolve.{resolve}
use openbao_authorizer.Store.Model.{
  Item, pending, already_granted, refused, is_pending, has_pending, no_reason, refused_for,
  already_has_capabilities, Approver, GrantRequest,
}
use openbao_authorizer.Store.Requests.{create_grant_request, grant_request}
use openbao_authorizer.Service.Model.{
  OpenBao, World, Config, Requester, RequesterRule, Identity, http, ServiceError, invalid_token,
  not_requester, not_found, invalid, bao_failed, reason_required, reason_too_long, reason_hidden,
  item_count, woken, request_changed,
}
use openbao_authorizer.Service.Exec.{
  Exec, pure, raise, on_error, reads, writes, calls, new_id, send, ◌>>=◌, ◌>>◌,
}
use openbao_authorizer.Service.Decide.{add_duration, hide_missing}

abbrev pub max_items_per_request : ℕ
max_items_per_request = 64

abbrev pub max_reason_length : ℕ
max_reason_length = 4096

abbrev pub max_meta_length : ℕ
max_meta_length = 512

abbrev pub max_path_length : ℕ
max_path_length = 512

-- A missing key of a Go map reads as the empty value.
unfoldable pub lookup_or_empty {ℓ} : {V : Type ℓ} → Str → List (Str × List V) → List V
unfolding ◌==◌
lookup_or_empty key [] = []
lookup_or_empty key ((k, v) ∷ entries) = if k == key then v else lookup_or_empty key entries

unfoldable pub rule_matches : Identity → RequesterRule → Bool
unfolding ◌==◌ has_prefix
rule_matches identity rule =
    if not (rule.token_role == [])
    then identity.role == rule.token_role
    else has_prefix identity.path (bytes "auth/" ++ (rule.auth_mount ++ bytes "/"))

-- The first of the session ID, the display name and the entity ID that is not empty.
unfoldable pub display_id : Identity → Str
unfolding lookup_or_empty ◌==◌ sanitize_text
display_id identity =
    let session_id =
      sanitize_text (lookup_or_empty (bytes "session_id") identity.meta) max_meta_length in
    let display_name = sanitize_text identity.display_name max_meta_length in
    if not (session_id == [])
    then session_id
    else if not (display_name == [])
    then display_name
    else identity.entity_id

-- HTTP 400, 401 and 403
abbrev pub rejects_token : ℕ → Bool
rejects_token status = eqb status 403 || eqb status 400 || eqb status 401

abbrev pub token_error : {W A : Type 0} → ServiceError → Exec W A
token_error (bao_failed (http status)) =
    if rejects_token status then raise invalid_token else raise (bao_failed (http status))
token_error e = raise e

unfoldable pub requester_of : Identity → RequesterRule → Requester
unfolding display_id
requester_of identity rule = record {
  entity_id = identity.entity_id;
  display = record {
    id = display_id identity;
    title = sanitize_text (lookup_or_empty (bytes "title") identity.meta) max_meta_length;
    directory = sanitize_text (lookup_or_empty (bytes "directory") identity.meta) max_meta_length;
    rule = rule.name;
  };
}

-- The check on the identity that lookup-self returned.
unfoldable pub admit : List RequesterRule → Identity → Result ServiceError Requester
unfolding ◌==◌
admit rules identity = elim (find (rule_matches identity) rules) [
  | none ↦ err not_requester
  | some rule ↦
      if identity.entity_id == [] then err not_requester else ok (requester_of identity rule)
]

unfoldable pub authenticate : Config → {bao : OpenBao} → Str → Exec (World bao) Requester
authenticate config {bao} token = do
  identity ← on_error (calls (bao.lookup_self token)) token_error
  λ w. (admit config.requesters identity, w)

-- result.Path + "\x00" + strings.Join(result.Capabilities, ",")
unfoldable pub item_key : Resolved → Str
unfolding join_by
item_key r = r.path ++ 0 ∷ join_by b',' r.capabilities

abbrev nobody : Approver
nobody = record { entity_id = []; name = [] }

abbrev new_item : Str → Item
new_item id = record {
  id = id;
  path = [];
  capabilities = [];
  ttl = pos 0;
  state = pending;
  reason = no_reason;
  decided_at = 0;
  decided_by = nobody;
  grant_id = [];
  grant_expires = 0;
}

-- The variables of the loop over the inputs.
pub record Filed : Type 0 where
  pub items : List Item
  pub paths : List Str
  pub seen : List Str

module _ (rt : Runtime) (config : Config) where
  abbrev pub shown_capabilities : Result Refusal (List Str) → List Str
  shown_capabilities (ok capabilities) = capabilities
  shown_capabilities (err refusal) = []

  unfoldable pub refused_item : Str → ItemInput → Refusal → Item
  unfolding sanitize_text
  refused_item id input refusal = record (new_item id) {
    path = sanitize_text input.path max_path_length;
    capabilities = shown_capabilities (normalize_capabilities rt input.capabilities);
    state = refused;
    reason = refused_for refusal;
  }

  unfoldable pub pending_item : Str → Resolved → Item
  pending_item id r = record (new_item id) {
    path = r.path;
    capabilities = r.capabilities;
    ttl = r.ttl;
  }

  -- The loop body once the item has its ID and `Resolve` has answered.
  unfoldable pub file_item : Str → ItemInput → Filed → Result Refusal Resolved → Filed
  unfolding refused_item pending_item item_key ◌==◌
  file_item id input f (err refusal) = record f {
    items = f.items ++ refused_item id input refusal ∷ [];
  }
  file_item id input f (ok r) =
      if contains f.seen (item_key r)
      then record f { items = f.items ++ refused_item id input duplicate ∷ [] }
      else record {
        items = f.items ++ pending_item id r ∷ [];
        paths = if contains f.paths r.path then f.paths else f.paths ++ r.path ∷ [];
        seen = item_key r ∷ f.seen;
      }

  -- An item whose capabilities the token has already.
  unfoldable pub mark_granted : List (Str × List Str) → Item → Item
  unfolding lookup_or_empty covers
  mark_granted granted item =
      if is_pending item.state && covers (lookup_or_empty item.path granted) item.capabilities
      then record item { state = already_granted; reason = already_has_capabilities }
      else item

  module _ {bao : OpenBao} where
    unfoldable pub file_items : Filed → List ItemInput → Exec (World bao) Filed
    file_items f [] = pure f
    file_items f (input ∷ inputs) = do
      id ← new_id
      file_items (file_item id input f (resolve rt config.policy input)) inputs

    -- The block on capabilities-self; a failure is read as an empty answer.
    unfoldable pub check_granted : Str → List Str → List Item → Exec (World bao) (List Item)
    check_granted token [] items = pure items
    check_granted token (path ∷ paths) items = do
      granted ← on_error (calls (bao.capabilities_self token (path ∷ paths))) (λ e. pure [])
      pure (map (mark_granted granted) items)

    -- `CreateRequest` from the first `NewID` on.
    unfoldable pub file_request :
        Requester → Str → Str → List ItemInput → (now : ℕ) → Exec (World bao) GrantRequest
    file_request requester token reason inputs now = do
      request_id ← new_id
      f ← file_items (record { items = []; paths = []; seen = [] }) inputs
      items ← check_granted token f.paths f.items
      let request : GrantRequest = record {
        id = request_id;
        entity_id = requester.entity_id;
        requester = requester.display;
        reason = reason;
        created_at = now;
        pending_until = add_duration now config.pending_ttl;
        items = items;
      }
      writes (create_grant_request request)
      send (woken ∷ request_changed request.id (has_pending request.items) ∷ [])
      pure request

    unfoldable pub create_request :
        Requester → Str → Str → List ItemInput → (now : ℕ) → Exec (World bao) GrantRequest
    unfolding trim_space check_text ◌==◌
    create_request requester token text inputs now =
        let reason = trim_space text in
        if reason == []
        then raise (invalid reason_required)
        else if ltb max_reason_length (length reason)
        then raise (invalid reason_too_long)
        else if not (check_text reason (10 ∷ 9 ∷ []))
        then raise (invalid reason_hidden)
        else if eqb (length inputs) 0 || ltb max_items_per_request (length inputs)
        then raise (invalid item_count)
        else file_request requester token reason inputs now

-- Another session's request is as good as missing.
unfoldable pub owned_request : {bao : OpenBao} → Str → Str → Exec (World bao) GrantRequest
unfolding ◌==◌
owned_request entity_id request_id = do
  request ← on_error (reads (grant_request request_id)) hide_missing
  if request.entity_id == entity_id then pure request else raise not_found
