-- ===== src/Service/Policy.antt =====
-- The session policy: `sessionPolicy`, `writePolicy`, `attachPolicy` and `restorePolicy`.
pub mod Tables
use openbao_authorizer.Prelude.{ℕ, Bool, true, false, List, [], ◌∷◌, ◌++◌, if◌then◌else◌, ltb}
use openbao_authorizer.Prelude.Result.{Result, ok, err}
use openbao_authorizer.Text.Bytes.{Str, bytes, ◌==◌, contains}
use openbao_authorizer.Rules.Model.{Runtime}
use openbao_authorizer.Store.Model.{Grant}
use openbao_authorizer.Store.Grants.{active_grants}
use openbao_authorizer.Service.Model.{OpenBao, World, ServiceError}
use openbao_authorizer.Service.Exec.{Exec, pure, on_error, reads, calls, ◌>>=◌, ◌>>◌}

-- PolicyPrefix + entityID
abbrev pub policy_name : Str → Str
policy_name entity_id = bytes "agent-grant-" ++ entity_id

-- The path block of one Grant.
unfoldable pub policy_block : Runtime → Grant → Str
policy_block rt grant =
    bytes "path "
    ++ (rt.json_string grant.path
        ++ (10 ∷ [])
        ++ (bytes "  capabilities = "
            ++ (rt.json_strings grant.capabilities
                ++ ((10 ∷ [])
                    ++ (bytes "  expiration = \""
                        ++ (rt.format_time grant.expires_at
                            ++ (bytes "\"" ++ ((10 ∷ []) ++ (bytes "}" ++ (10 ∷ []))))))))))

-- The loop of `sessionPolicy`, from the text and the expiry so far.
unfoldable pub render : Runtime → List Grant → Str → ℕ → Str × ℕ
unfolding policy_block
render rt [] document expires_at = (document, expires_at)
render rt (grant ∷ grants) document expires_at =
    render rt grants (document ++ policy_block rt grant)
      (if ltb expires_at grant.expires_at then grant.expires_at else expires_at)

unfoldable pub session_policy : Runtime → List Grant → Str × ℕ
unfolding render
session_policy rt grants = render rt grants [] 0

module _ (rt : Runtime) {bao : OpenBao} where
  unfoldable pub write_policy : Str → List Grant → Exec (World bao) (Unit {0})
  write_policy entity_id [] = calls (bao.delete_policy (policy_name entity_id))
  write_policy entity_id (grant ∷ grants) =
      let (document, expires_at) = session_policy rt (grant ∷ grants) in
      calls (bao.write_policy (policy_name entity_id) document expires_at)

  -- An error is logged and dropped.
  unfoldable pub restore_policy : Str → ℕ → Exec (World bao) (Unit {0})
  restore_policy entity_id now =
      on_error (do active ← reads (active_grants entity_id now); write_policy entity_id active)
        (λ e. pure tt)

  unfoldable pub attach_policy : Str → Exec (World bao) (Unit {0})
  unfolding ◌==◌
  attach_policy entity_id = do
    policies ← calls (bao.read_entity entity_id)
    if contains policies (policy_name entity_id)
        then pure tt
        else calls (bao.set_entity_policies entity_id (policies ++ policy_name entity_id ∷ []))
