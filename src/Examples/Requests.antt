-- ===== src/Examples/Requests.antt =====
-- The theorems on authentication, created requests and discovery at the examples' world.
use openbao_authorizer.Prelude.{true, ◌≡◌, refl, ◌≤◌, List, [], ◌∷◌, All, In, here, there}
use openbao_authorizer.Prelude.Int.{pos, ◌≤ℤ◌}
use openbao_authorizer.Prelude.Result.{Result, ok}
use openbao_authorizer.Text.Bytes.{Str, bytes}
use openbao_authorizer.Text.Unicode.{trim_space}
use openbao_authorizer.Rules.Model.{Resolved, ItemInput, duplicate, segment_denied}
use openbao_authorizer.Rules.Capability.{normalize_capabilities, is_subset}
use openbao_authorizer.Rules.Resolve.{resolve, max_ttl_of}
use openbao_authorizer.Store.Model.{GrantRequest, refused, refused_for}
use openbao_authorizer.Store.Requests.{create_grant_request}
use openbao_authorizer.Service.Model.{World, Identity, Requester, ServiceError}
use openbao_authorizer.Service.Create.{authenticate, create_request, max_items_per_request}
use openbao_authorizer.Service.Create.Admission.{IsAdmitted, authenticate-IsAdmitted}
use openbao_authorizer.Service.Create.Filing.{IsFiled, create_request-IsFiled}
use openbao_authorizer.Service.Decide.{add_duration}
use openbao_authorizer.Service.Discovery.{discovered_paths}
use openbao_authorizer.Service.Discovery.Requestable.{
  IsRequestable, discovered_paths-IsRequestable, discovered_paths-resolve,
}
use openbao_authorizer.Examples.Data.{
  computation, plain_runtime, app_policy, app_config, app_input, app_rule, list_bao, world, tables,
  noon, display, waiting,
}

abbrev asker : Requester
asker = record { entity_id = bytes "e1"; display = display }

abbrev login : Result ServiceError Requester × World list_bao
login = authenticate app_config {bao = list_bao} (bytes "t") world

login-result : login ≡ (ok asker, login.1)
unfolding computation
login-result = refl

authenticate-IsAdmitted_example :
    (identity : Identity) × ((list_bao.lookup_self (bytes "t") []).0 ≡ ok identity)
    × IsAdmitted app_config.requesters identity asker
    × (login.1.db ≡ tables)
authenticate-IsAdmitted_example =
    authenticate-IsAdmitted app_config (bytes "t") world asker login.1 login-result

abbrev ready : World list_bao
ready = record world { ids = bytes "r2" ∷ bytes "i3" ∷ bytes "i4" ∷ bytes "i5" ∷ [] }

-- One that the rules allow, the same again, and one with a denied segment.
abbrev three_inputs : List ItemInput
three_inputs = app_input ∷ app_input ∷ record app_input { path = bytes "kv/Sys/b" } ∷ []

abbrev creation : Result ServiceError GrantRequest × World list_bao
creation =
    create_request plain_runtime app_config {bao = list_bao} asker (bytes "t") (bytes " deploy")
      three_inputs noon ready

abbrev created_request : GrantRequest
created_request = record {
  id = bytes "r2";
  entity_id = bytes "e1";
  requester = display;
  reason = bytes "deploy";
  created_at = noon;
  pending_until = 63_000_003_600_000_000_000;
  items =
      record (waiting (bytes "i3") (bytes "kv/data/app/a")) { ttl = pos 1_800_000_000_000 }
      ∷ record (waiting (bytes "i4") (bytes "kv/data/app/a")) {
        ttl = pos 0;
        state = refused;
        reason = refused_for duplicate;
      }
      ∷ record (waiting (bytes "i5") (bytes "kv/Sys/b")) {
        ttl = pos 0;
        state = refused;
        reason = refused_for (segment_denied (bytes "sys"));
      }
      ∷ [];
}

creation-result : creation ≡ (ok created_request, creation.1)
unfolding computation
creation-result = refl

create_request-IsFiled_example :
    (created_request.entity_id ≡ bytes "e1")
    × (created_request.reason ≡ trim_space (bytes " deploy"))
    × (created_request.created_at ≡ noon)
    × (created_request.pending_until ≡ add_duration noon app_config.pending_ttl)
    × IsFiled plain_runtime app_config three_inputs list_bao
        (bytes "t")
        ready.server
        created_request.items
    × (1 ≤ 3)
    × (3 ≤ max_items_per_request)
    × (create_grant_request created_request tables ≡ ok creation.1.db)
create_request-IsFiled_example =
    create_request-IsFiled plain_runtime app_config three_inputs asker (bytes "t") (bytes " deploy")
      noon ready created_request creation.1 creation-result

abbrev keys : List Str
keys = bytes "b" ∷ bytes "sub/" ∷ bytes "a" ∷ bytes "b" ∷ []

discovered_paths-IsRequestable_example :
    All
      (IsRequestable plain_runtime (bytes "kv/data/app/*") keys)
      (discovered_paths plain_runtime (bytes "kv/data/app/*") keys)
discovered_paths-IsRequestable_example =
    discovered_paths-IsRequestable plain_runtime (bytes "kv/data/app/*") keys

found :
    discovered_paths plain_runtime (bytes "kv/data/app/*") keys
    ≡ bytes "kv/data/app/a" ∷ bytes "kv/data/app/b" ∷ []
unfolding computation
found = refl

shown : In (bytes "kv/data/app/b") (discovered_paths plain_runtime (bytes "kv/data/app/*") keys)
shown = rw found (there (here refl))

reads : normalize_capabilities plain_runtime (bytes "Read" ∷ []) ≡ ok (bytes "read" ∷ [])
unfolding computation
reads = refl

within : is_subset (bytes "read" ∷ []) app_rule.capabilities ≡ true
unfolding computation
within = refl

positive : pos 0 ≤ℤ max_ttl_of app_policy app_rule
unfolding computation
positive = refl

discovered_paths-resolve_example :
    (r : Resolved) × (resolve plain_runtime app_policy
        (record { path = bytes "kv/data/app/b"; capabilities = bytes "Read" ∷ []; ttl = [] })
      ≡ ok r)
discovered_paths-resolve_example =
    discovered_paths-resolve plain_runtime app_policy app_rule keys (bytes "kv/data/app/b")
      (bytes "Read" ∷ []) (bytes "read" ∷ []) (here refl) shown reads within positive
