-- ===== src/Config/Accepted.antt =====
-- The requesters and the Grant policy of a configuration that is accepted.
pub mod Names
pub mod Login
pub mod Loaded
pub mod Lifetimes
use openbao_authorizer.Prelude.{
  ◌≡◌, refl, ap, sym, ◌∙◌, ◌⊎◌, inl, inr, Bool, true, false, Option, none, some, List, [], ◌∷◌, map,
  All, Bool-cases, if◌then◌else◌, arith,
}
use openbao_authorizer.Prelude.Int.{ℤ, pos, ltb_ℤ, ◌≤ℤ◌}
use openbao_authorizer.Prelude.Result.{
  Result, ok, err, >>=-eq-ok, >>-eq-ok, fail_if-eq-ok, ok-injective,
}
use openbao_authorizer.Text.Bytes.{Str, contains}
use openbao_authorizer.Rules.Model.{Runtime, Rule, Policy, second}
use openbao_authorizer.Rules.Pattern.{is_empty}
use openbao_authorizer.Rules.Validate.{validate_rule, wrap, RuleError}
use openbao_authorizer.Service.Model.{RequesterRule}
use openbao_authorizer.Config.Model.{
  ConfigError, Field, GrantsConfig, GrantableConfig, RequesterConfig, grantable_repeated,
  rule_invalid, max_ttl_of_grantable, default_grant_ttl, default_pending_ttl, default_ttl,
  pending_ttl, requester_repeated, requester_selector, requester_missing,
}
use openbao_authorizer.Config.Policy.{
  same, requester_rule, requester_rules, load_requesters, parse_positive_duration, duration_or,
  rule_of, grantable_rules, lifetimes, load_grants,
}
use openbao_authorizer.Config.Accepted.Names.{AreDistinct, AreFresh, fresh-contains}

-- At least one second.
abbrev pub IsPositive : ℤ → Type 0
IsPositive d = pos second ≤ℤ d

-- Exactly one of `token_role` and `auth_mount` is set.
abbrev pub HasOneSelector : RequesterRule → Type 0
HasOneSelector rule = same (is_empty rule.token_role) (is_empty rule.auth_mount) ≡ false

-- The requester rules that are made of the blocks: named as they are, in their order, with no name
-- twice, and each with one way to match.
pub record AreRequesters (raw : List RequesterConfig) (rules : List RequesterRule) : Type 0 where
  pub named : map (λ rule. rule.name) rules ≡ map (λ entry. entry.name) raw
  pub distinct : AreDistinct (map (λ rule. rule.name) rules)
  pub selected : All HasOneSelector rules

requester_rules-AreFresh :
    (names : List Str) (raw : List RequesterConfig) {rules : List RequesterRule}
    → requester_rules names raw ≡ ok rules
    → AreFresh names (map (λ rule. rule.name) rules) × AreRequesters raw rules
unfolding requester_rules requester_rule
requester_rules-AreFresh names [] h =
    let e = ok-injective h in rw (← e) (tt, record { named = refl; distinct = tt; selected = tt })
requester_rules-AreFresh names (entry ∷ raw) h =
    let (absent, h₁) =
      fail_if-eq-ok (contains names entry.name) (requester_repeated entry.name) _ h in
    let (one, h₂) =
      fail_if-eq-ok
        (same (is_empty (requester_rule entry).token_role)
          (is_empty (requester_rule entry).auth_mount))
        (requester_selector entry.name) _ h₁ in
    let (rest, made, h₃) = >>=-eq-ok _ _ h₂ in
    let (fresh, r) = requester_rules-AreFresh (entry.name ∷ names) raw made in
    let (alone, fresh') = fresh-contains names entry.name _ fresh in
    let e = ok-injective h₃ in
    rw (← e) (
      (absent, fresh'),
      record {
        named = ap (λ l. entry.name ∷ l) r.named;
        distinct = (alone, r.distinct);
        selected = (one, r.selected);
      },
    )

-- A list of requesters that is accepted has at least one, under the names of their blocks, in their
-- order, no name twice, and each of them matches by a token role or by an auth mount, not by both.
pub load_requesters-AreRequesters :
    (raw : List RequesterConfig) {rules : List RequesterRule}
    → load_requesters raw ≡ ok rules
    → (is_empty raw ≡ false) × AreRequesters raw rules
unfolding load_requesters
load_requesters-AreRequesters raw h =
    let (some_block, h₁) = fail_if-eq-ok (is_empty raw) requester_missing _ h in
    (some_block, (requester_rules-AreFresh [] raw h₁).1)

wrap-ok {ℓ κ μ} :
    {E : Type κ} {F : Type μ} {A : Type ℓ} (f : E → F) (r : Result E A) {a : A}
    → wrap f r ≡ ok a
    → r ≡ ok a
wrap-ok f (ok x) h = let e = ok-injective h in ap ok e
wrap-ok f (err e) h = cc

module _ (rt : Runtime) where
  pub parse_positive_duration-IsPositive :
      (value : Str) (field : Field) {d : ℤ}
      → parse_positive_duration rt value field ≡ ok d
      → IsPositive d
  unfolding parse_positive_duration
  parse_positive_duration-IsPositive value field h = ground arith

  -- A duration that is left out has the default; any other is at least one second.
  pub duration_or-cases :
      (value : Str) (field : Field) (fallback : ℤ) {d : ℤ}
      → duration_or rt value field fallback ≡ ok d
      → (d ≡ fallback) ⊎ IsPositive d
  unfolding duration_or
  duration_or-cases value field fallback h = elim (Bool-cases (is_empty value)) [
    | inl e ↦ inl (sym (ok-injective (rw e at h)))
    | inr e ↦ inr (parse_positive_duration-IsPositive value field (rw e at h))
  ]

  pub duration_or-IsPositive :
      (value : Str) (field : Field) (fallback : ℤ) {d : ℤ}
      → IsPositive fallback
      → duration_or rt value field fallback ≡ ok d
      → IsPositive d
  duration_or-IsPositive value field fallback p h =
      elim (duration_or-cases value field fallback h) [ inl e ↦ rw e p | inr q ↦ q ]

  -- A Grantable Rule that `ValidateRule` accepts, with no limit of its own or one of at least one
  -- second.
  abbrev pub IsGrantable : Rule → Type 0
  IsGrantable rule =
      (validate_rule rt rule ≡ ok tt) × ((rule.max_ttl ≡ pos 0) ⊎ IsPositive rule.max_ttl)

  pub record AreGrantable (raw : List GrantableConfig) (rules : List Rule) : Type 0 where
    pub named : map (λ rule. rule.name) rules ≡ map (λ entry. entry.name) raw
    pub distinct : AreDistinct (map (λ rule. rule.name) rules)
    pub grantable : All IsGrantable rules

  grantable_rules-AreFresh :
      (names : List Str) (raw : List GrantableConfig) {rules : List Rule}
      → grantable_rules rt names raw ≡ ok rules
      → AreFresh names (map (λ rule. rule.name) rules) × AreGrantable raw rules
  unfolding grantable_rules rule_of
  grantable_rules-AreFresh names [] h =
      let e = ok-injective h in
      rw (← e) (tt, record { named = refl; distinct = tt; grantable = tt })
  grantable_rules-AreFresh names (entry ∷ raw) h =
      let (absent, h₁) =
        fail_if-eq-ok (contains names entry.name) (grantable_repeated entry.name) _ h in
      let (limit, parsed, h₂) = >>=-eq-ok _ _ h₁ in
      let (valid, h₃) = >>-eq-ok _ _ h₂ in
      let (rest, made, h₄) = >>=-eq-ok _ _ h₃ in
      let (fresh, r) = grantable_rules-AreFresh (entry.name ∷ names) raw made in
      let (alone, fresh') = fresh-contains names entry.name _ fresh in
      let e = ok-injective {a = rule_of rt entry limit ∷ rest} h₄ in
      rw (← e) (
        (absent, fresh'),
        record {
          named = ap (λ l. entry.name ∷ l) r.named;
          distinct = (alone, r.distinct);
          grantable = (
            (
              wrap-ok rule_invalid _ valid,
              duration_or-cases entry.max_ttl (max_ttl_of_grantable entry.name) (pos 0) parsed,
            ),
            r.grantable,
          );
        },
      )

  pub lifetimes-IsPositive :
      (raw : Option GrantsConfig) {ttls : ℤ × ℤ}
      → lifetimes rt raw ≡ ok ttls
      → IsPositive ttls.0 × IsPositive ttls.1
  unfolding lifetimes
  lifetimes-IsPositive none h = let e = ok-injective h in rw (← e) (refl, refl)
  lifetimes-IsPositive (some raw) h =
      let (grant_ttl, p, h₁) = >>=-eq-ok _ _ h in
      let (wait, q, h₂) = >>=-eq-ok _ _ h₁ in
      let e = ok-injective h₂ in
      rw (← e) (
        duration_or-IsPositive raw.default_ttl default_ttl default_grant_ttl refl p,
        duration_or-IsPositive raw.pending_ttl pending_ttl default_pending_ttl refl q,
      )

  pub record IsPolicy (raw : List GrantableConfig) (policy : Policy) : Type 0 where
    pub rules : AreGrantable raw policy.rules
    pub default_positive : IsPositive policy.default_ttl

  pub load_grants-IsPolicy :
      (raw : Option GrantsConfig) (grantable : List GrantableConfig) {loaded : Policy × ℤ}
      → load_grants rt raw grantable ≡ ok loaded
      → IsPolicy grantable loaded.0 × IsPositive loaded.1
  unfolding load_grants
  load_grants-IsPolicy raw grantable h =
      let (ttls, timed, h₁) = >>=-eq-ok _ _ h in
      let (rules, made, h₂) = >>=-eq-ok _ _ h₁ in
      let (p, q) = lifetimes-IsPositive raw timed in
      let e = ok-injective h₂ in
      rw (← e)
        (record { rules = (grantable_rules-AreFresh [] grantable made).1; default_positive = p }, q)
