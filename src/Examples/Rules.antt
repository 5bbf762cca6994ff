-- ===== src/Examples/Rules.antt =====
-- The theorems on the rules at the examples' policy.
use openbao_authorizer.Prelude.{◌≡◌, ◌≢◌, refl, none, [], ◌∷◌, here}
use openbao_authorizer.Prelude.Int.{pos, ◌≤ℤ◌}
use openbao_authorizer.Prelude.Result.{ok}
use openbao_authorizer.Text.Bytes.{bytes, cut_suffix}
use openbao_authorizer.Text.Split.{split}
use openbao_authorizer.Rules.Model.{Resolved}
use openbao_authorizer.Rules.Pattern.{match_pattern}
use openbao_authorizer.Rules.Pattern.Literal.{acl_match}
use openbao_authorizer.Rules.Pattern.Walk.{match_pattern-acl_match}
use openbao_authorizer.Rules.Concrete.{check_concrete_path, denied_segment}
use openbao_authorizer.Rules.Concrete.Accepted.{
  IsConcrete, check_concrete_path-IsConcrete, IsConcrete-check_concrete_path,
}
use openbao_authorizer.Rules.Capability.{normalize_capabilities}
use openbao_authorizer.Rules.Capability.Normal.{IsNormal, normalize-IsNormal}
use openbao_authorizer.Rules.Resolve.{resolve, requested_ttl, max_ttl_of}
use openbao_authorizer.Rules.Resolve.Best.{Covers}
use openbao_authorizer.Rules.Resolve.Sound.{IsSound, resolve-IsSound}
use openbao_authorizer.Rules.Resolve.Complete.{resolve_covered, resolve_again}
use openbao_authorizer.Examples.Data.{computation, plain_runtime, app_policy, app_input, app_rule}

abbrev app_resolved : Resolved
app_resolved = record {
  path = bytes "kv/data/app/a";
  capabilities = bytes "read" ∷ [];
  ttl = pos 1_800_000_000_000;
  rule = bytes "app";
  max_ttl = pos 28_800_000_000_000;
}

resolved : resolve plain_runtime app_policy app_input ≡ ok app_resolved
unfolding computation
resolved = refl

resolve-IsSound_example : IsSound plain_runtime app_policy app_input app_resolved
resolve-IsSound_example = resolve-IsSound plain_runtime app_policy app_input app_resolved resolved

resolve_again_example :
    resolve plain_runtime app_policy
      (record { path = bytes "kv/data/app/a"; capabilities = bytes "read" ∷ []; ttl = [] })
    ≡ ok (record app_resolved { ttl = pos 3_600_000_000_000 })
resolve_again_example = resolve_again plain_runtime app_policy app_input app_resolved refl resolved

concrete : check_concrete_path (bytes "kv/data/app/a") ≡ ok tt
unfolding computation
concrete = refl

check_concrete_path-IsConcrete_example : IsConcrete (bytes "kv/data/app/a")
check_concrete_path-IsConcrete_example =
    check_concrete_path-IsConcrete (bytes "kv/data/app/a") concrete

app_path : IsConcrete (bytes "kv/data/app/a")
app_path = check_concrete_path-IsConcrete (bytes "kv/data/app/a") concrete

IsConcrete-check_concrete_path_example : check_concrete_path (bytes "kv/data/app/a") ≡ ok tt
IsConcrete-check_concrete_path_example =
    IsConcrete-check_concrete_path (bytes "kv/data/app/a") app_path

match_pattern-acl_match_example :
    match_pattern (bytes "kv/+/a*") (bytes "kv/x/ab/c")
    ≡ acl_match
        (cut_suffix b'*' (bytes "kv/+/a*")).1
        (split (cut_suffix b'*' (bytes "kv/+/a*")).0)
        (split (bytes "kv/x/ab/c"))
match_pattern-acl_match_example = match_pattern-acl_match (bytes "kv/+/a*") (bytes "kv/x/ab/c")

normalized :
    normalize_capabilities plain_runtime (bytes "READ" ∷ bytes " list" ∷ bytes "read" ∷ [])
    ≡ ok (bytes "list" ∷ bytes "read" ∷ [])
unfolding computation
normalized = refl

normalize-IsNormal_example :
    IsNormal plain_runtime
      (bytes "READ" ∷ bytes " list" ∷ bytes "read" ∷ [])
      (bytes "list" ∷ bytes "read" ∷ [])
normalize-IsNormal_example =
    normalize-IsNormal plain_runtime (bytes "READ" ∷ bytes " list" ∷ bytes "read" ∷ []) normalized

read_and_list :
    IsNormal plain_runtime
      (bytes "READ" ∷ bytes " list" ∷ bytes "read" ∷ [])
      (bytes "list" ∷ bytes "read" ∷ [])
read_and_list =
    normalize-IsNormal plain_runtime (bytes "READ" ∷ bytes " list" ∷ bytes "read" ∷ []) normalized

asked_some : (bytes "READ" ∷ bytes " list" ∷ bytes "read" ∷ []) ≢ []
asked_some h = cc

app_capabilities :
    normalize_capabilities plain_runtime app_input.capabilities ≡ ok (bytes "read" ∷ [])
unfolding computation
app_capabilities = refl

app_free : denied_segment plain_runtime app_input.path ≡ none
unfolding computation
app_free = refl

app_ttl : requested_ttl plain_runtime app_input.ttl ≡ ok 1_800_000_000_000
unfolding computation
app_ttl = refl

app_covers : Covers app_policy app_input.path (bytes "read" ∷ []) app_rule
unfolding computation
app_covers = refl

app_fits : pos 1_800_000_000_000 ≤ℤ max_ttl_of app_policy app_rule
unfolding computation
app_fits = refl

resolve_covered_example : (r : Resolved) × (resolve plain_runtime app_policy app_input ≡ ok r)
resolve_covered_example =
    resolve_covered plain_runtime app_policy app_input (bytes "read" ∷ []) 1_800_000_000_000
      app_rule concrete app_capabilities app_free app_ttl (here refl) app_covers app_fits
