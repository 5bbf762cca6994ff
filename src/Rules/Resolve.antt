-- ===== src/Rules/Resolve.antt =====
-- `Policy.Resolve`: the static validation of a Permission Item.
pub mod Best
pub mod Sound
pub mod Complete
use openbao_authorizer.Prelude.{
  ℕ, ◌-◌, ◌%◌, Bool, false, ◌&&◌, ◌||◌, Option, none, some, List, [], ◌∷◌, if◌then◌else◌, eqb,
}
use openbao_authorizer.Prelude.Int.{ℤ, pos, negsuc, ltb_ℤ, min_ℤ}
use openbao_authorizer.Prelude.Result.{Result, ok, err, fail_if, ◌>>=◌, ◌>>◌}
use openbao_authorizer.Text.Bytes.{Str, ◌==◌}
use openbao_authorizer.Rules.Model.{
  Runtime, Rule, Policy, ItemInput, Resolved, Refusal, second, segment_denied, ttl_invalid,
  capabilities_exceed, no_rule, ttl_exceeds,
}
use openbao_authorizer.Rules.Pattern.{match_pattern}
use openbao_authorizer.Rules.Concrete.{check_concrete_path, denied_segment}
use openbao_authorizer.Rules.Capability.{normalize_capabilities, is_subset}

-- d.Truncate(time.Second) of a duration that is not negative
abbrev pub truncate_second : ℕ → ℕ
truncate_second n = n - n % second

-- The parsed duration, if it is at least one second.
unfoldable pub whole_seconds : Option ℤ → Option ℕ
whole_seconds none = none
whole_seconds (some (negsuc n)) = none
whole_seconds (some (pos n)) = if ltb_ℤ (pos n) (pos second) then none else some n

-- The block on `input.TTL`; zero when no TTL is requested.
unfoldable pub requested_ttl : Runtime → Str → Result Refusal ℕ
unfolding whole_seconds ◌==◌
requested_ttl rt ttl = if ttl == [] then ok 0 else elim (whole_seconds (rt.parse_duration ttl)) [
  | none ↦ err (ttl_invalid ttl)
  | some n ↦ ok (truncate_second n)
]

module _ (p : Policy) where
  unfoldable pub max_ttl_of : Rule → ℤ
  max_ttl_of rule = if ltb_ℤ (pos 0) rule.max_ttl then rule.max_ttl else p.default_ttl

  -- best == nil || p.maxTTL(*rule) > p.maxTTL(*best)
  unfoldable pub better : Option Rule → Rule → Rule
  better none rule = rule
  better (some best) rule = if ltb_ℤ (max_ttl_of best) (max_ttl_of rule) then rule else best

  abbrev pub rule_matches : Str → List Str → Rule → Bool
  rule_matches path capabilities rule =
      match_pattern rule.path path && is_subset capabilities rule.capabilities

  -- The loop over the rules, with `pathMatched` and `best`.
  unfoldable pub scan : Str → List Str → List Rule → Bool → Option Rule → Bool × Option Rule
  scan path capabilities [] path_matched best = (path_matched, best)
  scan path capabilities (rule ∷ rules) path_matched best =
      scan path capabilities rules (match_pattern rule.path path || path_matched)
        (if rule_matches path capabilities rule then some (better best rule) else best)

  -- What `Resolve` does once the loop has ended.
  unfoldable pub settle : Str → List Str → ℕ → Bool × Option Rule → Result Refusal Resolved
  settle path capabilities requested (path_matched, none) =
      err (if path_matched then capabilities_exceed capabilities else no_rule)
  settle path capabilities requested (path_matched, some best) = do
    let max_ttl = max_ttl_of best
    fail_if (ltb_ℤ max_ttl (pos requested)) (ttl_exceeds (pos requested) max_ttl best.name)
    ok (record {
      path = path;
      capabilities = capabilities;
      ttl = min_ℤ (if eqb requested 0 then p.default_ttl else pos requested) max_ttl;
      rule = best.name;
      max_ttl = max_ttl;
    })

-- if segment := deniedSegment(path); segment != "" { return ... }
abbrev pub refuse_segment : Option Str → Result Refusal (Unit {0})
refuse_segment none = ok tt
refuse_segment (some segment) = err (segment_denied segment)

unfoldable pub resolve : Runtime → Policy → ItemInput → Result Refusal Resolved
resolve rt p input = do
  check_concrete_path input.path
  capabilities ← normalize_capabilities rt input.capabilities
  refuse_segment (denied_segment rt input.path)
  requested ← requested_ttl rt input.ttl
  settle p input.path capabilities requested (scan p input.path capabilities p.rules false none)
