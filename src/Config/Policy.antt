-- ===== src/Config/Policy.antt =====
-- `loadRequesters`, `loadGrants` and `parsePositiveDuration`.
use openbao_authorizer.Prelude.{
  Bool, true, false, not, Option, none, some, List, [], ◌∷◌, if◌then◌else◌,
}
use openbao_authorizer.Prelude.Int.{ℤ, pos, ltb_ℤ}
use openbao_authorizer.Prelude.Result.{Result, ok, err, fail_if, ◌>>=◌, ◌>>◌}
use openbao_authorizer.Text.Bytes.{
  Str, bytes, ◌==◌, contains, trim_suffix, trim_set, drop_last_set, cut_suffix,
}
use openbao_authorizer.Text.Unicode.{trim_space}
use openbao_authorizer.Rules.Model.{Runtime, Rule, Policy, second}
use openbao_authorizer.Rules.Pattern.{is_empty}
use openbao_authorizer.Rules.Validate.{validate_rule, wrap}
use openbao_authorizer.Service.Model.{RequesterRule}
use openbao_authorizer.Config.Model.{
  ConfigError, requester_missing, requester_repeated, requester_selector, grantable_repeated,
  rule_invalid, duration_too_short, Field, default_ttl, pending_ttl, max_ttl_of_grantable,
  RequesterConfig, GrantsConfig, GrantableConfig, default_grant_ttl, default_pending_ttl,
}

unfoldable pub requester_rule : RequesterConfig → RequesterRule
unfolding trim_space drop_last_set
requester_rule entry = record {
  name = entry.name;
  token_role = trim_space entry.token_role;
  auth_mount = trim_set (bytes "/ ") entry.auth_mount;
}

abbrev pub same : Bool → Bool → Bool
same true b = b
same false b = not b

-- The loop of `loadRequesters`, with the names that came before.
unfoldable pub requester_rules :
    List Str → List RequesterConfig → Result ConfigError (List RequesterRule)
unfolding requester_rule ◌==◌
requester_rules names [] = ok []
requester_rules names (entry ∷ rest) = do
  let rule = requester_rule entry
  fail_if (contains names entry.name) (requester_repeated entry.name)
  fail_if (same (is_empty rule.token_role) (is_empty rule.auth_mount))
      (requester_selector entry.name)
  rules ← requester_rules (entry.name ∷ names) rest
  ok (rule ∷ rules)

unfoldable pub load_requesters : List RequesterConfig → Result ConfigError (List RequesterRule)
unfolding requester_rules
load_requesters raw = do fail_if (is_empty raw) requester_missing; requester_rules [] raw

module _ (rt : Runtime) where
  abbrev positive : Option ℤ → Field → Result ConfigError ℤ
  positive none field = err (duration_too_short field)
  positive (some duration) field =
      if ltb_ℤ duration (pos second) then err (duration_too_short field) else ok duration

  unfoldable pub parse_positive_duration : Str → Field → Result ConfigError ℤ
  parse_positive_duration value field = positive (rt.parse_duration value) field

  -- `if value != "" { … = parsePositiveDuration(value, field) }`
  unfoldable pub duration_or : Str → Field → ℤ → Result ConfigError ℤ
  unfolding parse_positive_duration
  duration_or value field fallback =
      if is_empty value then ok fallback else parse_positive_duration value field

  unfoldable pub rule_of : GrantableConfig → ℤ → Rule
  unfolding trim_space cut_suffix
  rule_of entry limit = record {
    name = entry.name;
    path = entry.path;
    capabilities = entry.capabilities;
    max_ttl = limit;
    description = trim_space entry.description;
    discover = trim_suffix b'/' entry.discover;
  }

  -- The loop of `loadGrants`, with the names that came before.
  unfoldable pub grantable_rules : List Str → List GrantableConfig → Result ConfigError (List Rule)
  unfolding rule_of duration_or validate_rule ◌==◌
  grantable_rules names [] = ok []
  grantable_rules names (entry ∷ rest) = do
    fail_if (contains names entry.name) (grantable_repeated entry.name)
    limit ← duration_or entry.max_ttl (max_ttl_of_grantable entry.name) (pos 0)
    wrap rule_invalid (validate_rule rt (rule_of entry limit))
    rules ← grantable_rules (entry.name ∷ names) rest
    ok (rule_of entry limit ∷ rules)

  -- The lifetimes of the `grants` block, if there is one.
  unfoldable pub lifetimes : Option GrantsConfig → Result ConfigError (ℤ × ℤ)
  unfolding duration_or
  lifetimes none = ok (default_grant_ttl, default_pending_ttl)
  lifetimes (some raw) = do
    grant_ttl ← duration_or raw.default_ttl default_ttl default_grant_ttl
    wait ← duration_or raw.pending_ttl pending_ttl default_pending_ttl
    ok (grant_ttl, wait)

  unfoldable pub load_grants :
      Option GrantsConfig → List GrantableConfig → Result ConfigError (Policy × ℤ)
  unfolding lifetimes grantable_rules
  load_grants raw grantable = do
    ttls ← lifetimes raw
    rules ← grantable_rules [] grantable
    ok (record { rules = rules; default_ttl = ttls.0 }, ttls.1)
