-- ===== src/Service/Decide.antt =====
-- `Decide` and `decide`.
pub mod Settling
pub mod Evolving
pub mod Each
pub mod Frame
pub mod Outcome
pub mod Correct
pub mod Failure
pub mod Publication
use openbao_authorizer.Prelude.{
  ℕ, suc, ◌+◌, ◌-◌, ◌%◌, Bool, true, false, ◌&&◌, ◌||◌, not, Option, none, some, List, [], ◌∷◌,
  ◌++◌, map, if◌then◌else◌, ltb, find,
}
use openbao_authorizer.Prelude.Int.{ℤ, pos, negsuc, ltb_ℤ, min_ℤ}
use openbao_authorizer.Prelude.Result.{Result, ok, err}
use openbao_authorizer.Text.Bytes.{Str, ◌==◌, contains}
use openbao_authorizer.Rules.Model.{Runtime, Refusal, ItemInput, second}
use openbao_authorizer.Rules.Resolve.{resolve, truncate_second, whole_seconds}
use openbao_authorizer.Store.Model.{
  Item, approved, rejected, refused, is_pending, no_longer_grantable, Approver, Grant, GrantRequest,
  StoreError, status_changed,
}
use openbao_authorizer.Store.Model
use openbao_authorizer.Store.Rows.{Db}
use openbao_authorizer.Store.Requests.{grant_request, expire_pending_items}
use openbao_authorizer.Store.Grants.{active_grants, decide_items}
use openbao_authorizer.Service.Model.{
  OpenBao, World, Config, Decision, ServiceError, self_approval, not_found, invalid, conflict,
  store_failed, decision_required, item_unknown, item_repeated, ttl_on_rejection, ttl_malformed,
  ttl_lengthens, Event, woken, request_changed, grant_changed,
}
use openbao_authorizer.Service.Exec.{
  Exec, pure, raise, from, on_error, reads, writes, new_id, send, ◌>>=◌, ◌>>◌,
}
use openbao_authorizer.Service.Approval.{Approval, granted, refuses, approval_ttl}
use openbao_authorizer.Service.Policy.{write_policy, restore_policy, attach_policy}

-- t.Add(d), which does not go before year 1 here
abbrev pub add_duration : ℕ → ℤ → ℕ
add_duration t (pos n) = t + n
add_duration t (negsuc n) = t - suc n

-- The first item with the id, in place of itself.
unfoldable pub set_item : Str → Item → List Item → List Item
set_item id item [] = []
set_item id item (other ∷ items) =
    if other.id == id then item ∷ items else other ∷ set_item id item items

-- The variables of the loop over the decisions.
pub record Progress : Type 0 where
  pub items : List Item
  pub seen : List Str
  pub grants : List Grant

-- now.Add(ttl).Truncate(time.Second)
abbrev pub expiry : ℕ → ℤ → ℕ
expiry now ttl = add_duration now ttl - add_duration now ttl % second

-- An item decided, with the Grants that it adds.
abbrev pub decided : Progress → Item → Item → List Grant → Progress
decided p item item' grants = record {
  items = set_item item.id item' p.items;
  seen = item.id ∷ p.seen;
  grants = p.grants ++ grants;
}

module _ (approver : Approver) (request : GrantRequest) (now : ℕ) where
  unfoldable pub grant_of : Item → Str → ℕ → Grant
  grant_of item grant_id expires_at = record {
    id = grant_id;
    request_id = request.id;
    item_id = item.id;
    entity_id = request.entity_id;
    path = item.path;
    capabilities = item.capabilities;
    requester = request.requester;
    created_at = now;
    expires_at = expires_at;
    approved_by = approver.name;
    revoked_at = 0;
    revoked_by = [];
  }

  module _ (rt : Runtime) (config : Config) {bao : OpenBao} where
    -- The loop body from `approvalTTL` on.
    unfoldable pub settle_approval : Progress → Item → Approval → Exec (World bao) Progress
    settle_approval p item (refuses refusal) = pure (
        decided p item
          (record item { decided_at = now; state = refused; reason = no_longer_grantable refusal })
          [])
    settle_approval p item (granted ttl) = do
      grant_id ← new_id
      pure (
          decided p item
            (record item {
              decided_at = now;
              state = approved;
              decided_by = approver;
              grant_id = grant_id;
              grant_expires = expiry now ttl;
            })
            (grant_of item grant_id (expiry now ttl) ∷ []))

    -- The loop body from the duplicate check on.
    unfoldable pub decide_item : Decision → Progress → Item → Exec (World bao) Progress
    decide_item decision p item =
        if contains p.seen decision.item_id
        then raise (invalid (item_repeated decision.item_id))
        else if not (is_pending item.state) || not (ltb now request.pending_until)
        then raise (conflict (item.id ∷ []))
        else if not (decision.ttl == []) && not decision.approve
        then raise (invalid ttl_on_rejection)
        else if not decision.approve
        then pure (
            decided p item
              (record item { decided_at = now; state = rejected; decided_by = approver }) [])
        else do
          approval ← from (approval_ttl rt config item decision.ttl)
          settle_approval p item approval

    unfoldable pub decide_one : Progress → Decision → Exec (World bao) Progress
    decide_one p decision = elim (find (λ item. item.id == decision.item_id) p.items) [
      | none ↦ raise (invalid (item_unknown decision.item_id))
      | some item ↦ decide_item decision p item
    ]

    unfoldable pub decide_each : Progress → List Decision → Exec (World bao) Progress
    decide_each p [] = pure p
    decide_each p (decision ∷ decisions) = do p' ← decide_one p decision; decide_each p' decisions

-- store.ErrNotFound becomes the service's own.
abbrev pub hide_missing : {W A : Type 0} → ServiceError → Exec W A
hide_missing (store_failed StoreError.not_found) = raise not_found
hide_missing e = raise e

-- store.ErrStatusChanged becomes a conflict on every decided item.
abbrev pub conflict_on : {W A : Type 0} → List Decision → ServiceError → Exec W A
conflict_on decisions (store_failed status_changed) =
    raise (conflict (map (λ d. d.item_id) decisions))
conflict_on decisions e = raise e

module _ (rt : Runtime) {bao : OpenBao} where
  -- if len(grants) > 0 { … }, before the decisions are stored
  unfoldable pub publish : Str → List Grant → ℕ → ℕ → Exec (World bao) (Unit {0})
  publish entity_id [] now later = pure tt
  publish entity_id (grant ∷ grants) now later = do
    active ← reads (active_grants entity_id now)
    write_policy rt entity_id (active ++ grant ∷ grants)
    on_error (attach_policy rt entity_id) (λ e. do restore_policy rt entity_id later; raise e)

  -- if len(grants) > 0 { s.restorePolicy(…) }
  unfoldable pub withdraw : Str → List Grant → ℕ → Exec (World bao) (Unit {0})
  withdraw entity_id [] later = pure tt
  withdraw entity_id (grant ∷ grants) later = restore_policy rt entity_id later

-- The sweep of pending items, which takes no session lock.
unfoldable pub sweep : {bao : OpenBao} → Option ℕ → Exec (World bao) (Unit {0})
sweep none w = (ok tt, w)
sweep (some t) w = (ok tt, record w { db = (expire_pending_items t w.db).1 })

module _ (rt : Runtime) (config : Config) {bao : OpenBao} where
  -- `decide`, under the session lock. `now` and `later` are its two readings of the clock, and
  -- `swept` is the time at which the sweep runs between the policy writes and the transaction, if
  -- it does.
  unfoldable pub decide_locked :
      Approver
      → Str
      → List Decision
      → (now later : ℕ) → (swept : Option ℕ) → Exec (World bao) (GrantRequest × List Grant)
  decide_locked approver request_id decisions now later swept = do
    request ← reads (grant_request request_id)
    let start : Progress = record { items = request.items; seen = []; grants = [] }
    p ← decide_each approver request now rt config start decisions
    let request' = record request { items = p.items }
    publish rt request.entity_id p.grants now later
    sweep swept
    on_error (writes (decide_items request' p.grants))
        (λ e. do withdraw rt request.entity_id p.grants later; conflict_on decisions e)
    pure (request', p.grants)

  unfoldable pub decide :
      Approver
      → Str
      → List Decision
      → (now later : ℕ) → (swept : Option ℕ) → Exec (World bao) GrantRequest
  decide approver request_id [] now later swept = raise (invalid decision_required)
  decide approver request_id (decision ∷ decisions) now later swept = do
    request ← on_error (reads (grant_request request_id)) hide_missing
    if request.entity_id == approver.entity_id then raise self_approval else do
      (request', grants) ← decide_locked approver request_id (decision ∷ decisions) now later swept
      send (woken ∷ request_changed request_id false ∷ map (λ g. grant_changed g.id) grants)
      pure request'
