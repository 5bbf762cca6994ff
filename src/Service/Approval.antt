-- ===== src/Service/Approval.antt =====
-- `approvalTTL`: what a decision to approve an item comes to.
pub mod Bounds
use openbao_authorizer.Prelude.{
  ℕ, suc, ◌+◌, ◌-◌, ◌%◌, Bool, true, false, ◌&&◌, ◌||◌, not, Option, none, some, List, [], ◌∷◌,
  ◌++◌, map, if◌then◌else◌, ltb, find,
}
use openbao_authorizer.Prelude.Int.{ℤ, pos, negsuc, ltb_ℤ, min_ℤ}
use openbao_authorizer.Prelude.Result.{Result, ok, err}
use openbao_authorizer.Text.Bytes.{Str, ◌==◌, contains}
use openbao_authorizer.Rules.Model.{Runtime, Refusal, ItemInput, second}
use openbao_authorizer.Rules.Resolve.{resolve, truncate_second, whole_seconds}
use openbao_authorizer.Store.Model.{
  Item, approved, rejected, refused, is_pending, no_longer_grantable, Approver, Grant, GrantRequest,
  StoreError, status_changed,
}
use openbao_authorizer.Store.Model
use openbao_authorizer.Store.Rows.{Db}
use openbao_authorizer.Store.Requests.{grant_request, expire_pending_items}
use openbao_authorizer.Store.Grants.{active_grants, decide_items}
use openbao_authorizer.Service.Model.{
  OpenBao, World, Config, Decision, ServiceError, self_approval, not_found, invalid, conflict,
  store_failed, decision_required, item_unknown, item_repeated, ttl_on_rejection, ttl_malformed,
  ttl_lengthens, Event, woken, request_changed, grant_changed,
}
use openbao_authorizer.Service.Exec.{
  Exec, pure, raise, from, reads, writes, new_id, send, ◌>>=◌, ◌>>◌,
}
use openbao_authorizer.Service.Policy.{write_policy, restore_policy, attach_policy}

-- What `approvalTTL` says of an item: the TTL of its Grant, or why it is no longer grantable.
pub data Approval : Type 0 where
  granted : ℤ → Approval
  refuses : Refusal → Approval

module _ (rt : Runtime) (config : Config) where
  -- The TTL that the Approver asks for, within the one that the item allows.
  unfoldable pub shortened : ℤ → Str → Result ServiceError Approval
  unfolding whole_seconds ◌==◌
  shortened ttl requested =
      if requested == []
      then ok (granted ttl)
      else elim (whole_seconds (rt.parse_duration requested)) [
        | none ↦ err (invalid (ttl_malformed requested))
        | some n ↦
            if ltb_ℤ ttl (pos n)
            then err (invalid (ttl_lengthens (pos n) ttl))
            else ok (granted (pos (truncate_second n)))
      ]

  unfoldable pub approval_ttl : Item → Str → Result ServiceError Approval
  approval_ttl item requested =
      elim (resolve rt config.policy
        (record { path = item.path; capabilities = item.capabilities; ttl = [] })) [
          | err refusal ↦ ok (refuses refusal)
          | ok current ↦ shortened (min_ℤ item.ttl current.max_ttl) requested
        ]
