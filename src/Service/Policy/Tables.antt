-- ===== src/Service/Policy/Tables.antt =====
-- What the service does to the session policy never touches the tables.
use openbao_authorizer.Prelude.{refl, ◌++◌, List, [], ◌∷◌, ℕ}
use openbao_authorizer.Text.Bytes.{Str, contains}
use openbao_authorizer.Rules.Model.{Runtime}
use openbao_authorizer.Store.Model.{Grant}
use openbao_authorizer.Store.Grants.{active_grants}
use openbao_authorizer.Service.Model.{OpenBao}
use openbao_authorizer.Service.Exec.{calls, reads}
use openbao_authorizer.Service.Exec.Tables.{
  KeepsTables, bind-KeepsTables, on_error-KeepsTables, if-KeepsTables, pure-KeepsTables,
  reads-KeepsTables, calls-KeepsTables,
}
use openbao_authorizer.Service.Policy.{policy_name, write_policy, restore_policy, attach_policy}

module _ (rt : Runtime) {bao : OpenBao} where
  pub write_policy-KeepsTables :
      (entity_id : Str) (grants : List Grant)
      → KeepsTables (write_policy rt {bao = bao} entity_id grants)
  unfolding write_policy
  write_policy-KeepsTables entity_id [] w = refl
  write_policy-KeepsTables entity_id (grant ∷ grants) w = refl

  pub restore_policy-KeepsTables :
      (entity_id : Str) (now : ℕ) → KeepsTables (restore_policy rt {bao = bao} entity_id now)
  unfolding restore_policy
  restore_policy-KeepsTables entity_id now =
      on_error-KeepsTables _ _
        (bind-KeepsTables (reads (active_grants entity_id now)) _
          (reads-KeepsTables (active_grants entity_id now)) (write_policy-KeepsTables entity_id))
        (λ e. pure-KeepsTables tt)

  pub attach_policy-KeepsTables :
      (entity_id : Str) → KeepsTables (attach_policy rt {bao = bao} entity_id)
  unfolding attach_policy
  attach_policy-KeepsTables entity_id =
      bind-KeepsTables (calls (bao.read_entity entity_id)) _
        (calls-KeepsTables (bao.read_entity entity_id))
        (λ policies.
          if-KeepsTables (contains policies (policy_name entity_id)) _ _ (pure-KeepsTables tt) (
            calls-KeepsTables
              (bao.set_entity_policies entity_id (policies ++ policy_name entity_id ∷ []))))
