-- ===== src/Service/Discovery/Requestable.antt =====
-- What discovery shows can be requested.
use openbao_authorizer.Prelude.{
  ◌≡◌, refl, inl, inr, Bool, true, ◌&&◌, not, Option, none, some, List, [], ◌∷◌, ◌++◌, map, keep,
  In, here, there, All, In-All, keep-In, All-In, Bool-cases, arith,
}
use openbao_authorizer.Prelude.Int.{pos, ◌≤ℤ◌}
use openbao_authorizer.Prelude.Result.{Result, ok, err}
use openbao_authorizer.Text.Bytes.{Str, ◌==◌, has_suffix}
use openbao_authorizer.Text.Split.{split_last}
use openbao_authorizer.Rules.Model.{Runtime, Rule, Policy, Refusal, Resolved}
use openbao_authorizer.Rules.Pattern.{match_pattern}
use openbao_authorizer.Rules.Concrete.{check_concrete_path, denied_segment}
use openbao_authorizer.Rules.Capability.{is_subset, normalize_capabilities}
use openbao_authorizer.Rules.Capability.Order.{sort-In}
use openbao_authorizer.Rules.Resolve.{max_ttl_of, resolve, requested_ttl}
use openbao_authorizer.Rules.Resolve.Complete.{resolve_covered}
use openbao_authorizer.Store.Invariant.{map-In}
use openbao_authorizer.Service.Discovery.{
  is_requestable, compact, discovered_paths, passes, is_none,
}

compact-In : (l : List Str) {t : Str} → In t (compact l) → In t l
unfolding compact
compact-In [] m = elim m [ ]
compact-In (s ∷ []) m = m
compact-In (s ∷ r ∷ l) {t} m = elim (Bool-cases (s == r)) [
  | inl e ↦ there (compact-In (r ∷ l) (rw e at m))
  | inr e ↦ kept (rw e at m) (λ k. compact-In (r ∷ l) k)
]
  where
    kept : In t (s ∷ compact (r ∷ l)) → (In t (compact (r ∷ l)) → In t (r ∷ l)) → In t (s ∷ r ∷ l)
    kept (here e) f = here e
    kept (there k) f = there (f k)

pub record IsRequestable (rt : Runtime) (pattern : Str) (keys : List Str) (path : Str)
    : Type 0 where
  pub key : Str
  pub listed : In key keys
  pub placed : path ≡ (split_last pattern).0 ++ key
  pub matches : match_pattern pattern path ≡ true
  pub concrete : check_concrete_path path ≡ ok tt
  pub free : denied_segment rt path ≡ none

passes-ok : (r : Result Refusal (Unit {0})) → passes r ≡ true → r ≡ ok tt
passes-ok (ok tt) h = refl
passes-ok (err e) h = cc

is_none-none : (o : Option Str) → is_none o ≡ true → o ≡ none
is_none-none none h = refl
is_none-none (some s) h = cc

both : (a b c : Bool) → (a && b && c) ≡ true → (a ≡ true) × (b ≡ true) × (c ≡ true)
both a b c h = ground arith

-- Each path that discovery shows is a listed key in place of the last segment of the pattern,
-- matches the pattern, is concrete and has no denied segment.
pub discovered_paths-IsRequestable :
    (rt : Runtime) (pattern : Str) (keys : List Str)
    → All (IsRequestable rt pattern keys) (discovered_paths rt pattern keys)
unfolding discovered_paths is_requestable
discovered_paths-IsRequestable rt pattern keys =
    In-All (IsRequestable rt pattern keys) (discovered_paths rt pattern keys) (λ path m.
      let candidates =
        map (λ key. (split_last pattern).0 ++ key) (keep (λ key. not (has_suffix b'/' key)) keys) in
      let (among, is) =
        keep-In (is_requestable rt pattern) candidates (sort-In _ (compact-In _ m)) in
      let (key, k, e) =
        map-In (λ key. (split_last pattern).0 ++ key) (keep (λ key. not (has_suffix b'/' key)) keys)
          among in
      let (listed, whole) = keep-In (λ key. not (has_suffix b'/' key)) keys k in
      let (matches, concrete, free) = both (match_pattern pattern path) _ _ is in
      record {
        key = key;
        listed = listed;
        placed = e;
        matches = matches;
        concrete = passes-ok _ concrete;
        free = is_none-none _ free;
      })

no_ttl : (rt : Runtime) → requested_ttl rt [] ≡ ok 0
unfolding requested_ttl
no_ttl rt = refl

-- A path that discovery shows for a rule of the policy can be requested: the rules accept it with
-- any capabilities that are among those of the rule, and no TTL, if the limit of the rule is not
-- negative.
pub discovered_paths-resolve :
    (rt : Runtime) (policy : Policy) (rule : Rule) (keys : List Str) (path : Str)
    (requested capabilities : List Str)
    → In rule policy.rules
    → In path (discovered_paths rt rule.path keys)
    → normalize_capabilities rt requested ≡ ok capabilities
    → is_subset capabilities rule.capabilities ≡ true
    → pos 0 ≤ℤ max_ttl_of policy rule
    → (r : Resolved) × (resolve rt policy
          (record { path = path; capabilities = requested; ttl = [] })
        ≡ ok r)
discovered_paths-resolve rt policy rule keys path requested capabilities listed shown normal subset
      positive =
    let is =
      All-In (IsRequestable rt rule.path keys) (discovered_paths rt rule.path keys)
        (discovered_paths-IsRequestable rt rule.path keys) shown in
    resolve_covered rt policy (record { path = path; capabilities = requested; ttl = [] })
      capabilities 0 rule is.concrete normal is.free (no_ttl rt) listed
      (rw (is.matches, subset) refl) positive
