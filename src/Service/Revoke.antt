-- ===== src/Service/Revoke.antt =====
-- `Revoke` and `revoke`.
pub mod Correct
pub mod Failure
use openbao_authorizer.Prelude.{
  ℕ, ◌+◌, ◌-◌, Bool, true, false, not, List, [], ◌∷◌, if◌then◌else◌, length, eqb, keep,
}
use openbao_authorizer.Prelude.Result.{Result, ok, err}
use openbao_authorizer.Text.Bytes.{Str, ◌==◌}
use openbao_authorizer.Rules.Model.{Runtime}
use openbao_authorizer.Store.Model.{Approver, Grant, StoreError, status_changed}
use openbao_authorizer.Store.Grants
use openbao_authorizer.Store.Grants.{active_grants, revoke_grant}
use openbao_authorizer.Service.Model.{
  OpenBao, World, ServiceError, conflict, store_failed, Event, woken, grant_changed,
}
use openbao_authorizer.Service.Exec.{Exec, pure, raise, on_error, reads, writes, send, ◌>>=◌, ◌>>◌}
use openbao_authorizer.Service.Policy.{write_policy, restore_policy}
use openbao_authorizer.Service.Decide.{hide_missing}

abbrev pub changed_is_conflict : {W A : Type 0} → Str → ServiceError → Exec W A
changed_is_conflict id (store_failed status_changed) = raise (conflict (id ∷ []))
changed_is_conflict id e = raise e

-- slices.DeleteFunc(…, other.ID == grant.ID)
abbrev pub without : Str → List Grant → List Grant
without id grants = keep (λ other. not (other.id == id)) grants

module _ (rt : Runtime) {bao : OpenBao} where
  -- `revoke`, under the session lock; `later` is the clock when the policy is restored.
  unfoldable pub revoke_locked : Approver → Grant → (now later : ℕ) → Exec (World bao) (Unit {0})
  unfolding ◌==◌
  revoke_locked approver grant now later = do
    active ← reads (active_grants grant.entity_id now)
    let remaining = without grant.id active
    if eqb (length remaining) (length active) then raise (conflict (grant.id ∷ [])) else do
      write_policy rt grant.entity_id remaining
      on_error (writes (revoke_grant grant.id approver now))
          (λ e. do restore_policy rt grant.entity_id later; changed_is_conflict grant.id e)

  unfoldable pub revoke : Approver → Str → (now later : ℕ) → Exec (World bao) (Unit {0})
  revoke approver grant_id now later = do
    grant ← on_error (reads (Grants.grant grant_id)) hide_missing
    revoke_locked approver grant now later
    send (woken ∷ grant_changed grant.id ∷ [])
