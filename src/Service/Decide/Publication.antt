-- ===== src/Service/Decide/Publication.antt =====
-- What publishing Grants leaves in OpenBao.
use openbao_authorizer.Prelude.{
  ℕ, ◌≡◌, refl, sym, ap, ◌∙◌, Bool, true, false, Option, none, some, List, [], ◌∷◌, ◌++◌,
  if◌then◌else◌,
}
use openbao_authorizer.Prelude.Result.{Result, ok}
use openbao_authorizer.Text.Bytes.{Str, contains}
use openbao_authorizer.Rules.Model.{Runtime}
use openbao_authorizer.Store.Model.{Grant}
use openbao_authorizer.Store.Grants.{active_grants}
use openbao_authorizer.Service.Model.{OpenBao, IsLawful, World, ServiceError}
use openbao_authorizer.Service.Exec.{pure, raise, reads, calls, ◌>>◌}
use openbao_authorizer.Service.Exec.Inversion.{bind-ok, on_error-raised, Raises, reads-ok, calls-ok}
use openbao_authorizer.Service.Policy.{
  policy_name, session_policy, write_policy, restore_policy, attach_policy,
}
use openbao_authorizer.Service.Decide.{publish}

-- The policy that stands for a list of Grants: none for the empty list.
abbrev pub policy_for : Runtime → List Grant → Option (Str × ℕ)
policy_for rt [] = none
policy_for rt (grant ∷ grants) = some (session_policy rt (grant ∷ grants))

module _ (rt : Runtime) {bao : OpenBao} (lawful : IsLawful bao) where
  policy_for-snoc :
      (active : List Grant) (grant : Grant) (grants : List Grant)
      → policy_for rt (active ++ grant ∷ grants)
        ≡ some (session_policy rt (active ++ grant ∷ grants))
  policy_for-snoc [] grant grants = refl
  policy_for-snoc (g ∷ active) grant grants = refl

  pub write_policy-ok :
      (entity_id : Str) (grants : List Grant) (w : World bao) {w' : World bao}
      → write_policy rt entity_id grants w ≡ (ok tt, w')
      → (lawful.policy (policy_name entity_id) w'.server ≡ policy_for rt grants) × (w'.db ≡ w.db)
  unfolding write_policy
  write_policy-ok entity_id [] w h =
      let (done, server, db) = calls-ok (bao.delete_policy (policy_name entity_id)) w h in
      (rw server (lawful.delete_confirmed (policy_name entity_id) w.server done), db)
  write_policy-ok entity_id (grant ∷ grants) w h =
      let (document, expires_at) = session_policy rt (grant ∷ grants) in
      let (done, server, db) =
        calls-ok (bao.write_policy (policy_name entity_id) document expires_at) w h in
      (
        rw server
            (lawful.write_confirmed (policy_name entity_id) document expires_at w.server done),
        db,
      )

  abbrev pub Kept : World bao → World bao → Type 0
  Kept w w' =
      ((name : Str) → lawful.policy name w'.server ≡ lawful.policy name w.server) × (w'.db ≡ w.db)

  attach-rest :
      (attached : Bool) (entity_id : Str) (policies : List Str) (w : World bao) {w' : World bao}
      → (if attached then pure tt else calls (bao.set_entity_policies entity_id policies)) w
        ≡ (ok tt, w')
      → Kept w w'
  attach-rest true entity_id policies w h =
      ((λ name. cc), ap (λ (x : Result ServiceError (Unit {0}) × World bao). x.1.db) (sym h))
  attach-rest false entity_id policies w h =
      let (done, server, db) = calls-ok (bao.set_entity_policies entity_id policies) w h in
      ((λ name. rw server (lawful.attach_keeps name entity_id policies w.server)), db)

  pub attach_policy-ok :
      (entity_id : Str) (w : World bao) {w' : World bao}
      → attach_policy rt entity_id w ≡ (ok tt, w')
      → Kept w w'
  unfolding attach_policy
  attach_policy-ok entity_id w h =
      let (policies, first, rest) = bind-ok (calls (bao.read_entity entity_id)) _ w h in
      let (done, server, db) = calls-ok (bao.read_entity entity_id) w first in
      let (kept, same) =
        attach-rest (contains policies (policy_name entity_id)) entity_id
          (policies ++ policy_name entity_id ∷ []) _ rest in
      ((λ name. kept name ∙ lawful.read_keeps name entity_id w.server), same ∙ db)

  pub publish-ok :
      (entity_id : Str) (grant : Grant) (grants : List Grant) (now later : ℕ) (w : World bao)
      {w' : World bao}
      → publish rt entity_id (grant ∷ grants) now later w ≡ (ok tt, w')
      → (active : List Grant) × (active_grants entity_id now w.db ≡ ok active)
        × (lawful.policy (policy_name entity_id) w'.server
            ≡ some (session_policy rt (active ++ grant ∷ grants)))
        × (w'.db ≡ w.db)
  unfolding publish
  publish-ok entity_id grant grants now later w h =
      let (active, first, rest) = bind-ok (reads (active_grants entity_id now)) _ w h in
      let (found, db, server) = reads-ok (active_grants entity_id now) w first in
      let (u, second, last) =
        bind-ok (write_policy rt entity_id (active ++ grant ∷ grants)) _ _ rest in
      let (policy, same) = write_policy-ok entity_id (active ++ grant ∷ grants) _ second in
      let (kept, attached) =
        attach_policy-ok entity_id _
          (on_error-raised (attach_policy rt entity_id) _ _ (λ e. restored-Raises e) last) in
      (
        active,
        found,
        kept (policy_name entity_id) ∙ (policy ∙ policy_for-snoc active grant grants),
        attached ∙ (same ∙ db),
      )
    where
      restored-Raises :
          (e : ServiceError)
          → Raises (restore_policy rt {bao = bao} entity_id later >> raise {A = Unit {0}} e)
      restored-Raises e v a v' k =
          let (u, first, last) = bind-ok (restore_policy rt entity_id later) (λ u. raise e) v k in
          cc
