-- ===== src/Rules/Resolve/Complete.antt =====
-- `Resolve` accepts all that the rules cover, and what it accepted it accepts again.
use openbao_authorizer.Prelude.{
  ℕ, ◌≡◌, refl, sym, subst, ◌≢◌, Bool, false, none, some, List, [], ◌∷◌, In, if◌then◌else◌, eqb,
}
use openbao_authorizer.Prelude.Int.{pos, min_ℤ, ◌≤ℤ◌, ≤ℤ_trans}
use openbao_authorizer.Prelude.Result.{ok}
use openbao_authorizer.Text.Bytes.{Str}
use openbao_authorizer.Rules.Model.{Runtime, Rule, Policy, ItemInput, Resolved}
use openbao_authorizer.Rules.Concrete.{check_concrete_path, denied_segment}
use openbao_authorizer.Rules.Capability.{normalize_capabilities}
use openbao_authorizer.Rules.Capability.Normal.{normalize-IsNormal, normalize_of_IsNormal}
use openbao_authorizer.Rules.Resolve.{max_ttl_of, scan, settle, requested_ttl, resolve}
use openbao_authorizer.Rules.Resolve.Best.{Covers, scan_best, scan_finds}
use openbao_authorizer.Rules.Resolve.Sound.{resolve-Steps, settle-ok}

module _ (rt : Runtime) (p : Policy) where
  abbrev pub outcome : Str → List Str → ℕ → Rule → Resolved
  outcome path capabilities requested best = record {
    path = path;
    capabilities = capabilities;
    ttl = min_ℤ (if eqb requested 0 then p.default_ttl else pos requested) (max_ttl_of p best);
    rule = best.name;
    max_ttl = max_ttl_of p best;
  }

  resolve_steps :
      (input : ItemInput) (capabilities : List Str) (requested : ℕ) (matched : Bool) (best : Rule)
      → check_concrete_path input.path ≡ ok tt
      → normalize_capabilities rt input.capabilities ≡ ok capabilities
      → denied_segment rt input.path ≡ none
      → requested_ttl rt input.ttl ≡ ok requested
      → scan p input.path capabilities p.rules false none ≡ (matched, some best)
      → pos requested ≤ℤ max_ttl_of p best
      → resolve rt p input ≡ ok (outcome input.path capabilities requested best)
  unfolding resolve settle
  resolve_steps input capabilities requested matched best concrete normal free ttl found fits =
      rw (concrete, normal, free, ttl) (rw (found, fits))

  scan-pair :
      (path : Str) (capabilities : List Str) {best : Rule}
      → (scan p path capabilities p.rules false none).1 ≡ some best
      → scan p path capabilities p.rules false none
        ≡ ((scan p path capabilities p.rules false none).0, some best)
  scan-pair path capabilities h = λ i. ((scan p path capabilities p.rules false none).0, h i)

  -- Resolve accepts an item whose path is concrete and has no denied segment, whose capabilities
  -- and TTL are well formed, and which some rule of the policy covers with a limit of at least the
  -- requested TTL.
  pub resolve_covered :
      (input : ItemInput) (capabilities : List Str) (requested : ℕ) (rule : Rule)
      → check_concrete_path input.path ≡ ok tt
      → normalize_capabilities rt input.capabilities ≡ ok capabilities
      → denied_segment rt input.path ≡ none
      → requested_ttl rt input.ttl ≡ ok requested
      → In rule p.rules
      → Covers p input.path capabilities rule
      → pos requested ≤ℤ max_ttl_of p rule
      → (r : Resolved) × (resolve rt p input ≡ ok r)
  resolve_covered input capabilities requested rule concrete normal free ttl m covers fits =
      let (best, found) = scan_finds p input.path capabilities p.rules false m covers in
      let (_, _, permissive) = scan_best p input.path capabilities found in
      (
        _,
        resolve_steps input capabilities requested _ best concrete normal free ttl
            (scan-pair input.path capabilities found)
            (≤ℤ_trans (pos requested) (max_ttl_of p rule) (max_ttl_of p best) fits
              (permissive rule m covers)),
      )

  normalize-nonempty :
      (requested : List Str) {capabilities : List Str}
      → normalize_capabilities rt requested ≡ ok capabilities
      → requested ≢ []
  unfolding normalize_capabilities
  normalize-nonempty [] h e = cc
  normalize-nonempty (r ∷ rs) h e = cc

  no_ttl : requested_ttl rt [] ≡ ok 0
  unfolding requested_ttl
  no_ttl = refl

  -- What Resolve accepted under a limit that is not negative, it accepts again without a requested
  -- TTL: with the same path, capabilities, rule and limit, and the smaller of the default TTL and
  -- the limit.
  pub resolve_again :
      (input : ItemInput) (r : Resolved)
      → pos 0 ≤ℤ r.max_ttl
      → resolve rt p input ≡ ok r
      → resolve rt p (record { path = r.path; capabilities = r.capabilities; ttl = [] })
        ≡ ok (record r { ttl = min_ℤ p.default_ttl r.max_ttl })
  resolve_again input r positive h =
      let s = resolve-Steps rt p input h in
      let (fits, built) =
        settle-ok rt p input s.capabilities s.requested s.matched s.best s.settled in
      let again =
        resolve_steps (record { path = input.path; capabilities = s.capabilities; ttl = [] })
          s.capabilities 0 s.matched s.best s.concrete
          (normalize_of_IsNormal rt input.capabilities s.capabilities
            (normalize-nonempty input.capabilities s.normalized)
            (normalize-IsNormal rt input.capabilities s.normalized))
          s.free no_ttl s.scanned (subst (λ (x : Resolved). pos 0 ≤ℤ x.max_ttl) built positive) in
      subst
        (λ (x : Resolved).
          resolve rt p (record { path = x.path; capabilities = x.capabilities; ttl = [] })
          ≡ ok (record x { ttl = min_ℤ p.default_ttl x.max_ttl }))
        (sym built) again
