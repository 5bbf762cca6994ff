-- ===== src/Service/Revoke/Correct.antt =====
-- What holds of a finished `revoke`.
use openbao_authorizer.Prelude.{
  ℕ, ◌≡◌, refl, ap, subst, ◌∙◌, Bool, true, false, inl, inr, List, [], ◌∷◌, if◌then◌else◌,
  Bool-cases, length, eqb, any, arith,
}
use openbao_authorizer.Prelude.Result.{ok}
use openbao_authorizer.Text.Bytes.{Str, ◌==◌}
use openbao_authorizer.Rules.Model.{Runtime}
use openbao_authorizer.Store.Model.{Approver, Grant}
use openbao_authorizer.Store.Grants.{active_grants, revoke_grant}
use openbao_authorizer.Service.Model.{OpenBao, IsLawful, World, ServiceError}
use openbao_authorizer.Service.Exec.{Exec, raise, on_error, reads, writes, ◌>>◌}
use openbao_authorizer.Service.Exec.Inversion.{
  bind-ok, on_error-raised, Raises, reads-ok, writes-ok,
}
use openbao_authorizer.Service.Policy.{policy_name, write_policy, restore_policy}
use openbao_authorizer.Service.Decide.Publication.{policy_for, write_policy-ok}
use openbao_authorizer.Service.Revoke.{without, revoke_locked, changed_is_conflict}

shorter-any :
    (id : Str) (l : List Grant)
    → eqb (length (without id l)) (length l) ≡ false
    → any (λ g. g.id == id) l ≡ true
shorter-any id [] h = cc
shorter-any id (g ∷ l) h = elim (Bool-cases (g.id == id)) [
  | inl e ↦ rw e refl
  | inr e ↦ rw e (shorter-any id l (ground (arith, rw e at h)))
]

module _ (rt : Runtime) {bao : OpenBao} where
  revoked-Raises :
      (id : Str) (undo : Exec (World bao) (Unit {0})) (e : ServiceError)
      → Raises (undo >> changed_is_conflict {A = Unit {0}} id e)
  revoked-Raises id undo e w a w' h =
      let (u, first, last) = bind-ok undo (λ u. changed_is_conflict id e) w h in ground arith

  changed_rest :
      (lawful : IsLawful bao) (approver : Approver) (grant : Grant) (active : List Grant)
      (same : Bool) (now later : ℕ) (w : World bao) {w' : World bao}
      → (if same
            then raise {A = Unit {0}} (ServiceError.conflict (grant.id ∷ []))
            else (write_policy rt grant.entity_id (without grant.id active)
                >> on_error (writes (revoke_grant grant.id approver now)) (λ e.
                  restore_policy rt grant.entity_id later >> changed_is_conflict grant.id e)))
          w
        ≡ (ok tt, w')
      → (same ≡ false)
        × (lawful.policy (policy_name grant.entity_id) w'.server
            ≡ policy_for rt (without grant.id active))
        × (revoke_grant grant.id approver now w.db ≡ ok w'.db)
  changed_rest lawful approver grant active true now later w h = cc
  changed_rest lawful approver grant active false now later w {w' = w'} h =
      let (u, first, last) =
        bind-ok (write_policy rt grant.entity_id (without grant.id active)) _ w h in
      let (policy, db) =
        write_policy-ok rt lawful grant.entity_id (without grant.id active) w first in
      let (stored, server) = writes-ok (revoke_grant grant.id approver now) _ (
        on_error-raised (writes (revoke_grant grant.id approver now)) _ _
          (revoked-Raises grant.id (restore_policy rt grant.entity_id later)) last) in
      (
        refl,
        ap (lawful.policy (policy_name grant.entity_id)) server ∙ policy,
        subst (λ t. revoke_grant grant.id approver now t ≡ ok w'.db) db stored,
      )

  -- When a revocation goes through, on an OpenBao that keeps the policies whose writes and
  -- deletions it confirms, a Grant with the id was among the active ones of the entity, the
  -- entity's policy is the rendering of the others or is gone if there are none, and the tables
  -- are those that the revocation's transaction leaves.
  pub revoke_locked-revoked :
      (lawful : IsLawful bao) (approver : Approver) (grant : Grant) (now later : ℕ) (w : World bao)
      (w' : World bao)
      → revoke_locked rt approver grant now later w ≡ (ok tt, w')
      → (active : List Grant) × (active_grants grant.entity_id now w.db ≡ ok active)
        × (any (λ g. g.id == grant.id) active ≡ true)
        × (lawful.policy (policy_name grant.entity_id) w'.server
            ≡ policy_for rt (without grant.id active))
        × (revoke_grant grant.id approver now w.db ≡ ok w'.db)
  unfolding revoke_locked
  revoke_locked-revoked lawful approver grant now later w w' h =
      let (active, first, rest) = bind-ok (reads (active_grants grant.entity_id now)) _ w h in
      let (found, db, server) = reads-ok (active_grants grant.entity_id now) w first in
      let (shorter, policy, stored) =
        changed_rest lawful approver grant active _ now later _ rest in
      (
        active,
        found,
        shorter-any grant.id active shorter,
        policy,
        subst (λ t. revoke_grant grant.id approver now t ≡ ok w'.db) db stored,
      )
