-- ===== src/Examples/Service.antt =====
-- The theorems on decisions and revocations at the examples' world.
use openbao_authorizer.Service.Revoke.Failure.{revoke_locked-err}
use openbao_authorizer.Prelude.{
  ◌≡◌, ◌≢◌, refl, ◌⊎◌, true, none, some, List, [], ◌∷◌, ◌++◌, All, any, ◌+◌,
}
use openbao_authorizer.Prelude.Int.{pos, ◌≤ℤ◌}
use openbao_authorizer.Prelude.Result.{Result, ok, err}
use openbao_authorizer.Text.Bytes.{bytes, ◌==◌}
use openbao_authorizer.Rules.Model.{Resolved}
use openbao_authorizer.Rules.Resolve.{resolve}
use openbao_authorizer.Rules.Capability.Order.{IsDistinct}
use openbao_authorizer.Store.Model.{Item, Grant, GrantRequest, approved, rejected}
use openbao_authorizer.Store.Requests.{grant_request}
use openbao_authorizer.Store.Grants.{active_grants, decide_items, revoke_grant}
use openbao_authorizer.Service.Model.{World, ServiceError, item_repeated, invalid, conflict}
use openbao_authorizer.Service.Policy.{policy_name, session_policy}
use openbao_authorizer.Service.Approval.{granted, approval_ttl}
use openbao_authorizer.Service.Approval.Bounds.{approval_ttl-le}
use openbao_authorizer.Service.Decide.{decide_locked, decide}
use openbao_authorizer.Service.Decide.Each.{Authorised}
use openbao_authorizer.Service.Decide.Failure.{decide_locked-err}
use openbao_authorizer.Service.Decide.Outcome.{swept_db}
use openbao_authorizer.Service.Decide.Publication.{policy_for}
use openbao_authorizer.Service.Decide.Correct.{
  decide_locked-Authorised, decide_locked-published, decide_locked-rejections, decide-self_approval,
}
use openbao_authorizer.Service.Revoke.{without, revoke_locked}
use openbao_authorizer.Service.Revoke.Correct.{revoke_locked-revoked}
use openbao_authorizer.Examples.Data.{
  computation, plain_runtime, app_policy, app_config, list_bao, list_lawful, approver, request,
  live_grant, tables, world, approve, reject, noon, waiting,
}

-- The run of `decide_locked` on an approval and a rejection.
abbrev run : Result ServiceError (GrantRequest × List Grant) × World list_bao
run =
    decide_locked plain_runtime app_config {bao = list_bao} approver (bytes "r1")
      (approve ∷ reject ∷ []) (noon + 1) (noon + 2) none world

abbrev new_grant : Grant
new_grant = record live_grant {
  id = bytes "g1";
  item_id = bytes "i1";
  path = bytes "kv/data/app/a";
  created_at = noon + 1;
  expires_at = 63_000_001_800_000_000_000;
}

abbrev new_items : List Item
new_items =
    record (waiting (bytes "i1") (bytes "kv/data/app/a")) {
      state = approved;
      decided_at = noon + 1;
      decided_by = approver;
      grant_id = bytes "g1";
      grant_expires = 63_000_001_800_000_000_000;
    }
    ∷ record (waiting (bytes "i2") (bytes "kv/data/app/b")) {
      state = rejected;
      decided_at = noon + 1;
      decided_by = approver;
    }
    ∷ []

run-result : run ≡ (ok (record request { items = new_items }, new_grant ∷ []), run.1)
unfolding computation
run-result = refl

decide_locked-Authorised_example :
    (r : GrantRequest) × (grant_request (bytes "r1") tables ≡ ok r)
    × All
        (Authorised approver r (noon + 1) plain_runtime app_config (approve ∷ reject ∷ []))
        (new_grant ∷ [])
    × IsDistinct (bytes "i1" ∷ [])
decide_locked-Authorised_example =
    decide_locked-Authorised plain_runtime app_config approver (bytes "r1") (approve ∷ reject ∷ [])
      (noon + 1) (noon + 2) none world (record request { items = new_items }) (new_grant ∷ []) run.1
      run-result

decide_locked-published_example :
    (active : List Grant) × (active_grants (bytes "e1") (noon + 1) tables ≡ ok active)
    × (list_lawful.policy (policy_name (bytes "e1")) run.1.server
        ≡ some (session_policy plain_runtime (active ++ new_grant ∷ [])))
    × (decide_items (record request { items = new_items }) (new_grant ∷ []) tables ≡ ok run.1.db)
decide_locked-published_example =
    decide_locked-published plain_runtime app_config list_lawful approver (bytes "r1")
      (approve ∷ reject ∷ []) (noon + 1) (noon + 2) none world
      (record request { items = new_items }) new_grant [] run.1 run-result

-- Only the rejection.
abbrev rejection : Result ServiceError (GrantRequest × List Grant) × World list_bao
rejection =
    decide_locked plain_runtime app_config {bao = list_bao} approver (bytes "r1") (reject ∷ [])
      (noon + 1) (noon + 2) none world

abbrev rejected_items : List Item
rejected_items =
    waiting (bytes "i1") (bytes "kv/data/app/a")
    ∷ record (waiting (bytes "i2") (bytes "kv/data/app/b")) {
      state = rejected;
      decided_at = noon + 1;
      decided_by = approver;
    }
    ∷ []

rejection-result : rejection ≡ (ok (record request { items = rejected_items }, []), rejection.1)
unfolding computation
rejection-result = refl

decide_locked-rejections_example :
    (rejection.1.server ≡ [])
    × (decide_items (record request { items = rejected_items }) [] tables ≡ ok rejection.1.db)
decide_locked-rejections_example =
    decide_locked-rejections plain_runtime app_config approver (bytes "r1") (reject ∷ []) (noon + 1)
      (noon + 2) none world (record request { items = rejected_items }) rejection.1 rejection-result

-- A decision on an item twice.
abbrev repeated : Result ServiceError (GrantRequest × List Grant) × World list_bao
repeated =
    decide_locked plain_runtime app_config {bao = list_bao} approver (bytes "r1")
      (reject ∷ reject ∷ []) (noon + 1) (noon + 2) (some noon) world

repeated-result : repeated ≡ (err (invalid (item_repeated (bytes "i2"))), repeated.1)
unfolding computation
repeated-result = refl

decide_locked-err_example : (repeated.1.db ≡ tables) ⊎ (repeated.1.db ≡ swept_db (some noon) tables)
decide_locked-err_example =
    decide_locked-err plain_runtime app_config approver (bytes "r1") (reject ∷ reject ∷ [])
      (noon + 1) (noon + 2) (some noon) world (invalid (item_repeated (bytes "i2"))) repeated.1
      repeated-result

-- The whole of `decide`, by another entity.
abbrev decision : Result ServiceError GrantRequest × World list_bao
decision =
    decide plain_runtime app_config {bao = list_bao} approver (bytes "r1") (reject ∷ []) (noon + 1)
      (noon + 2) none world

decision-result : decision ≡ (ok (record request { items = rejected_items }), decision.1)
unfolding computation
decision-result = refl

decide-self_approval_example :
    (r : GrantRequest) × (grant_request (bytes "r1") tables ≡ ok r) × (r.entity_id ≢ bytes "e9")
decide-self_approval_example =
    decide-self_approval plain_runtime app_config approver (bytes "r1") (reject ∷ []) (noon + 1)
      (noon + 2) none world (record request { items = rejected_items }) decision.1 decision-result

-- A revocation of the Grant that the tables hold.
abbrev revocation : Result ServiceError (Unit {0}) × World list_bao
revocation =
    revoke_locked plain_runtime {bao = list_bao} approver live_grant (noon + 1) (noon + 2) world

revocation-result : revocation ≡ (ok tt, revocation.1)
unfolding computation
revocation-result = refl

revoke_locked-revoked_example :
    (active : List Grant) × (active_grants (bytes "e1") (noon + 1) tables ≡ ok active)
    × (any (λ g. g.id == bytes "g0") active ≡ true)
    × (list_lawful.policy (policy_name (bytes "e1")) revocation.1.server
        ≡ policy_for plain_runtime (without (bytes "g0") active))
    × (revoke_grant (bytes "g0") approver (noon + 1) tables ≡ ok revocation.1.db)
revoke_locked-revoked_example =
    revoke_locked-revoked plain_runtime list_lawful approver live_grant (noon + 1) (noon + 2) world
      revocation.1 revocation-result

allowed :
    approval_ttl plain_runtime app_config
      (waiting (bytes "i1") (bytes "kv/data/app/a"))
      (bytes "30m")
    ≡ ok (granted (pos 1_800_000_000_000))
unfolding computation
allowed = refl

approval_ttl-le_example :
    (current : Resolved) × (resolve plain_runtime app_policy
        (record { path = bytes "kv/data/app/a"; capabilities = bytes "read" ∷ []; ttl = [] })
      ≡ ok current)
    × (pos 1_800_000_000_000 ≤ℤ pos 3_600_000_000_000)
    × (pos 1_800_000_000_000 ≤ℤ current.max_ttl)
approval_ttl-le_example =
    approval_ttl-le plain_runtime app_config (waiting (bytes "i1") (bytes "kv/data/app/a"))
      (bytes "30m") (pos 1_800_000_000_000) allowed

request_read : grant_request (bytes "r1") tables ≡ ok request
unfolding computation
request_read = refl

-- A revocation of a Grant that has expired.
abbrev too_late : Result ServiceError (Unit {0}) × World list_bao
too_late =
    revoke_locked plain_runtime {bao = list_bao} approver live_grant 64_000_000_000_000_000_000
      64_000_000_000_000_000_000 world

too_late-result : too_late ≡ (err (conflict (bytes "g0" ∷ [])), too_late.1)
unfolding computation
too_late-result = refl

revoke_locked-err_example : too_late.1.db ≡ tables
revoke_locked-err_example =
    revoke_locked-err plain_runtime approver live_grant 64_000_000_000_000_000_000
      64_000_000_000_000_000_000 world (conflict (bytes "g0" ∷ [])) too_late.1 too_late-result
