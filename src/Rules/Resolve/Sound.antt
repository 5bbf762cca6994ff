-- ===== src/Rules/Resolve/Sound.antt =====
-- What `Resolve` accepts, and that it accepts all that it should.
use openbao_authorizer.Prelude.{
  ℕ, ◌≡◌, refl, sym, ap, subst, ◌∙◌, inl, inr, Bool, false, Option, none, some, List, [], ◌∷◌, In,
  All, Bool-cases, if◌then◌else◌, eqb, find,
}
use openbao_authorizer.Prelude.Int.{pos, ltb_ℤ, min_ℤ, ◌≤ℤ◌, min_ℤ_bounds}
use openbao_authorizer.Prelude.Result.{ok, >>=-eq-ok, >>-eq-ok, fail_if-eq-ok, ok-injective}
use openbao_authorizer.Text.Bytes.{Str, ◌==◌, contains}
use openbao_authorizer.Text.Split.{split}
use openbao_authorizer.Text.Unicode.{to_lower}
use openbao_authorizer.Rules.Model.{
  Runtime, Rule, Policy, ItemInput, Resolved, denied_segments, ttl_exceeds,
}
use openbao_authorizer.Rules.Pattern.{match_pattern}
use openbao_authorizer.Rules.Pattern.Walk.{match_pattern-concrete}
use openbao_authorizer.Rules.Concrete.{check_concrete_path, denied_segment}
use openbao_authorizer.Rules.Concrete.Accepted.{
  IsConcrete, check_concrete_path-IsConcrete, IsConcrete-contains_any,
}
use openbao_authorizer.Rules.Capability.{normalize_capabilities}
use openbao_authorizer.Rules.Capability.Normal.{IsNormal, normalize-IsNormal}
use openbao_authorizer.Rules.Resolve.{
  max_ttl_of, scan, settle, requested_ttl, refuse_segment, resolve,
}
use openbao_authorizer.Rules.Resolve.Best.{Covers, scan_best}

refuse_segment-eq_ok : (o : Option Str) → refuse_segment o ≡ ok tt → o ≡ none
refuse_segment-eq_ok none h = refl
refuse_segment-eq_ok (some s) h = cc

module _ (rt : Runtime) (p : Policy) (input : ItemInput) where
  -- The steps of a successful `Resolve`.
  pub record Steps (r : Resolved) : Type 0 where
    pub capabilities : List Str
    pub requested : ℕ
    pub best : Rule
    pub matched : Bool
    pub concrete : check_concrete_path input.path ≡ ok tt
    pub normalized : normalize_capabilities rt input.capabilities ≡ ok capabilities
    pub free : denied_segment rt input.path ≡ none
    pub ttl : requested_ttl rt input.ttl ≡ ok requested
    pub scanned : scan p input.path capabilities p.rules false none ≡ (matched, some best)
    pub settled : settle p input.path capabilities requested (matched, some best) ≡ ok r

  settle-best :
      (capabilities : List Str) (requested : ℕ) (found : Bool × Option Rule) {r : Resolved}
      → settle p input.path capabilities requested found ≡ ok r
      → (best : Rule) × (found ≡ (found.0, some best))
  unfolding settle
  settle-best capabilities requested (matched, none) h = cc
  settle-best capabilities requested (matched, some best) h = (best, refl)

  pub resolve-Steps : {r : Resolved} → resolve rt p input ≡ ok r → Steps r
  unfolding resolve
  resolve-Steps h =
      let (concrete, h₁) = >>-eq-ok _ _ h in
      let (capabilities, normalized, h₂) = >>=-eq-ok _ _ h₁ in
      let (free, h₃) = >>-eq-ok _ _ h₂ in
      let (requested, ttl, h₄) = >>=-eq-ok _ _ h₃ in
      let (best, found) = settle-best capabilities requested _ h₄ in
      record {
        capabilities = capabilities;
        requested = requested;
        best = best;
        matched = (scan p input.path capabilities p.rules false none).0;
        concrete = concrete;
        normalized = normalized;
        free = refuse_segment-eq_ok _ free;
        ttl = ttl;
        scanned = found;
        settled = sym (ap (settle p input.path capabilities requested) found) ∙ h₄;
      }

  -- A Permission Item that may reach an Approver.
  pub record IsSound (r : Resolved) : Type 0 where
    pub same_path : r.path ≡ input.path
    pub concrete : IsConcrete r.path
    pub not_denied :
        All
          (λ segment. contains denied_segments segment ≡ false)
          (split (to_lower rt.lower_wide r.path))
    pub one_path : (path : Str) → match_pattern r.path path ≡ (r.path == path)
    pub capabilities : IsNormal rt input.capabilities r.capabilities
    pub rule : Rule
    pub listed : In rule p.rules
    pub covers : Covers p r.path r.capabilities rule
    pub named : r.rule ≡ rule.name
    pub limit : r.max_ttl ≡ max_ttl_of p rule
    pub most_permissive :
        (other : Rule)
        → In other p.rules
        → Covers p r.path r.capabilities other
        → max_ttl_of p other ≤ℤ r.max_ttl
    pub within : r.ttl ≤ℤ r.max_ttl

  pub settle-ok :
      (capabilities : List Str) (requested : ℕ) (matched : Bool) (best : Rule) {r : Resolved}
      → settle p input.path capabilities requested (matched, some best) ≡ ok r
      → (ltb_ℤ (max_ttl_of p best) (pos requested) ≡ false)
        × (r ≡ record {
          path = input.path;
          capabilities = capabilities;
          ttl =
              min_ℤ (if eqb requested 0 then p.default_ttl else pos requested) (max_ttl_of p best);
          rule = best.name;
          max_ttl = max_ttl_of p best;
        })
  unfolding settle
  settle-ok capabilities requested matched best h =
      let (fits, built) =
        fail_if-eq-ok (ltb_ℤ (max_ttl_of p best) (pos requested))
          (ttl_exceeds (pos requested) (max_ttl_of p best) best.name) _ h in
      (fits, sym (ok-injective built))

  find-none :
      (l : List Str)
      → find (contains denied_segments) l ≡ none
      → All (λ segment. contains denied_segments segment ≡ false) l
  find-none [] h = tt
  find-none (s ∷ l) h = elim (Bool-cases (contains denied_segments s)) [
    | inl e ↦ cc (rw e at h)
    | inr e ↦ (e, find-none l (rw e at h))
  ]

  -- Whatever Resolve accepts keeps the requested path, which is concrete and has no denied segment
  -- in any case, and whose policy block grants that path alone; its capabilities are normal; its
  -- rule is one of the policy's, covers it, and has the largest limit of those that do; and its
  -- TTL is within that limit.
  pub resolve-IsSound : (r : Resolved) → resolve rt p input ≡ ok r → IsSound r
  resolve-IsSound r h =
      let s = resolve-Steps h in
      let (fits, built) = settle-ok s.capabilities s.requested s.matched s.best s.settled in
      let concrete = check_concrete_path-IsConcrete input.path s.concrete in
      let (listed, covers, permissive) =
        scan_best p input.path s.capabilities (ap (λ (x : Bool × Option Rule). x.1) s.scanned) in
      subst IsSound (sym built) (record {
        same_path = refl;
        concrete = concrete;
        not_denied = find-none _ (unfold denied_segment in s.free);
        one_path = λ path.
            match_pattern-concrete input.path path (IsConcrete-contains_any input.path concrete);
        capabilities = normalize-IsNormal rt input.capabilities s.normalized;
        rule = s.best;
        listed = listed;
        covers = covers;
        named = refl;
        limit = refl;
        most_permissive = permissive;
        within = (min_ℤ_bounds _ (max_ttl_of p s.best)).1;
      })
