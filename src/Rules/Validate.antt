-- ===== src/Rules/Validate.antt =====
-- `ValidateRule` and `validateDiscover`.
use openbao_authorizer.Prelude.{◌&&◌, ◌||◌, not, List, [], ◌∷◌, if◌then◌else◌}
use openbao_authorizer.Prelude.Int.{pos, ltb_ℤ}
use openbao_authorizer.Prelude.Result.{Result, ok, err, fail_if, ◌>>◌}
use openbao_authorizer.Text.Bytes.{Str, bytes, ◌==◌, contains, has_suffix, cut_suffix, contains_any}
use openbao_authorizer.Text.Split.{split_last}
use openbao_authorizer.Text.Unicode.{trim_space}
use openbao_authorizer.Rules.Model.{Runtime, Rule, Refusal, grantable_capabilities}
use openbao_authorizer.Rules.Pattern.{PatternError, validate_pattern, overlaps_denylist, is_empty}
use openbao_authorizer.Rules.Concrete.{check_concrete_path}

pub data DiscoverError : Type 0 where
  wildcard_count discover_denied : DiscoverError
  discover_refused : Refusal → DiscoverError

-- One constructor for each error message of `ValidateRule`.
pub data RuleError : Type 0 where
  name_required capabilities_required sudo_listed max_ttl_negative rule_denied : RuleError
  pattern_invalid : PatternError → RuleError
  capability_invalid : Str → RuleError
  discover_invalid : DiscoverError → RuleError

-- fmt.Errorf("...: %w", err)
abbrev pub wrap {ℓ κ μ} : {E : Type κ} {F : Type μ} {A : Type ℓ} → (E → F) → Result E A → Result F A
wrap f (ok a) = ok a
wrap f (err e) = err (f e)

unfoldable pub check_capabilities : List Str → Result RuleError (Unit {0})
unfolding ◌==◌
check_capabilities [] = ok tt
check_capabilities (capability ∷ rest) = do
  fail_if (capability == bytes "sudo") sudo_listed
  fail_if (not (contains grantable_capabilities capability)) (capability_invalid capability)
  check_capabilities rest

module _ (rt : Runtime) where
  unfoldable pub validate_discover : Rule → Result DiscoverError (Unit {0})
  unfolding split_last cut_suffix ◌==◌ check_concrete_path overlaps_denylist
  validate_discover rule = do
    let directory = (split_last rule.path).0
    let last = (split_last rule.path).1
    fail_if
        (contains_any (bytes "+*") directory
          || (not (last == bytes "+") && not (has_suffix b'*' last)))
        wildcard_count
    wrap discover_refused (check_concrete_path rule.discover)
    fail_if (overlaps_denylist rt rule.discover) discover_denied

  unfoldable pub validate_rule : Rule → Result RuleError (Unit {0})
  unfolding check_capabilities validate_discover trim_space validate_pattern overlaps_denylist ◌==◌
  validate_rule rule = do
    fail_if (trim_space rule.name == []) name_required
    wrap pattern_invalid (validate_pattern rule.path)
    fail_if (overlaps_denylist rt rule.path) rule_denied
    fail_if (is_empty rule.capabilities) capabilities_required
    check_capabilities rule.capabilities
    fail_if (ltb_ℤ rule.max_ttl (pos 0)) max_ttl_negative
    if rule.discover == [] then ok tt else wrap discover_invalid (validate_discover rule)
