-- ===== src/Service/Revoke/Failure.antt =====
-- What a failed `revoke` leaves in the tables.
use openbao_authorizer.Prelude.{
  ℕ, ◌≡◌, sym, ap, ◌∙◌, Bool, true, false, inl, inr, List, [], ◌∷◌, if◌then◌else◌, arith,
}
use openbao_authorizer.Prelude.Result.{Result, err}
use openbao_authorizer.Text.Bytes.{Str}
use openbao_authorizer.Rules.Model.{Runtime}
use openbao_authorizer.Store.Model.{Approver, Grant}
use openbao_authorizer.Store.Grants.{active_grants, revoke_grant}
use openbao_authorizer.Service.Model.{OpenBao, World, ServiceError}
use openbao_authorizer.Service.Exec.{raise, on_error, reads, writes, ◌>>◌}
use openbao_authorizer.Service.Exec.Inversion.{bind-err, on_error-err, writes-err}
use openbao_authorizer.Service.Exec.Tables.{
  KeepsTables, KeepsTables-outcome, bind-KeepsTables, reads-KeepsTables,
}
use openbao_authorizer.Service.Policy.{write_policy, restore_policy}
use openbao_authorizer.Service.Policy.Tables.{write_policy-KeepsTables, restore_policy-KeepsTables}
use openbao_authorizer.Service.Revoke.{without, revoke_locked, changed_is_conflict}

module _ (rt : Runtime) {bao : OpenBao} where
  changed_is_conflict-KeepsTables :
      (id : Str) (e : ServiceError)
      → KeepsTables {bao = bao} (changed_is_conflict {A = Unit {0}} id e)
  changed_is_conflict-KeepsTables id e w = ground arith

  changed-err :
      (approver : Approver) (grant : Grant) (active : List Grant) (same : Bool) (now later : ℕ)
      (w : World bao) {e : ServiceError} {w' : World bao}
      → (if same
            then raise {A = Unit {0}} (ServiceError.conflict (grant.id ∷ []))
            else (write_policy rt grant.entity_id (without grant.id active)
                >> on_error (writes (revoke_grant grant.id approver now)) (λ e.
                  restore_policy rt grant.entity_id later >> changed_is_conflict grant.id e)))
          w
        ≡ (err e, w')
      → w'.db ≡ w.db
  changed-err approver grant active true now later w h =
      ap (λ (x : Result ServiceError (Unit {0}) × World bao). x.1.db) (sym h)
  changed-err approver grant active false now later w h =
      let keeps =
        write_policy-KeepsTables rt {bao = bao} grant.entity_id (without grant.id active) in
      elim (bind-err (write_policy rt grant.entity_id (without grant.id active)) _ w h) [
        | inl q ↦
            KeepsTables-outcome (write_policy rt grant.entity_id (without grant.id active)) w keeps
              q
        | inr (u, first, last) ↦
            let (d, failed, handled) =
              on_error-err (writes (revoke_grant grant.id approver now)) _
                (write_policy rt {bao = bao} grant.entity_id (without grant.id active) w).1 last in
            let undone =
              bind-KeepsTables (restore_policy rt {bao = bao} grant.entity_id later)
                (λ u. changed_is_conflict grant.id d)
                (restore_policy-KeepsTables rt grant.entity_id later)
                (λ u. changed_is_conflict-KeepsTables grant.id d) in
            ap (λ (x : Result ServiceError (Unit {0}) × World bao). x.1.db) (sym handled)
            ∙ (undone _ ∙ ((writes-err (revoke_grant grant.id approver now) _ failed).0 ∙ keeps w))
      ]

  -- When a revocation fails, whatever failed, the tables are as they were.
  pub revoke_locked-err :
      (approver : Approver) (grant : Grant) (now later : ℕ) (w : World bao) (e : ServiceError)
      (w' : World bao)
      → revoke_locked rt approver grant now later w ≡ (err e, w')
      → w'.db ≡ w.db
  unfolding revoke_locked
  revoke_locked-err approver grant now later w e w' h =
      elim (bind-err (reads (active_grants grant.entity_id now)) _ w h) [
        | inl q ↦
            KeepsTables-outcome (reads (active_grants grant.entity_id now)) w
              (reads-KeepsTables (active_grants grant.entity_id now)) q
        | inr (active, first, rest) ↦
            changed-err approver grant active _ now later _ rest
            ∙ reads-KeepsTables (active_grants grant.entity_id now) w
      ]
