-- ===== src/Config/Accepted/Lifetimes.antt =====
-- Lifetimes under a policy that was loaded.
use openbao_authorizer.Prelude.{
  ℕ, ◌≡◌, sym, ap, ◌∙◌, ◌⊎◌, inl, inr, Option, none, some, ◌≤◌, All-In, Bool-cases, Option-cases,
  arith, eqb, if◌then◌else◌, subst, [],
}
use openbao_authorizer.Prelude.Int.{ℤ, pos, negsuc, min_ℤ}
use openbao_authorizer.Prelude.Result.{Result, ok, ok-injective}
use openbao_authorizer.Text.Bytes.{Str, ◌==◌}
use openbao_authorizer.Rules.Model.{Runtime, Rule, Policy, ItemInput, Resolved, Refusal, second}
use openbao_authorizer.Rules.Resolve.{
  resolve, requested_ttl, whole_seconds, truncate_second, max_ttl_of,
}
use openbao_authorizer.Rules.Resolve.Sound.{resolve-Steps, settle-ok, resolve-IsSound}
use openbao_authorizer.Config.Model.{Host, Config}
use openbao_authorizer.Config.Load.{load}
use openbao_authorizer.Config.Accepted.{IsPositive, IsGrantable}
use openbao_authorizer.Config.Accepted.Loaded.{load-IsAccepted}

max_ttl_of-IsPositive :
    (p : Policy) (rule : Rule)
    → IsPositive p.default_ttl
    → (rule.max_ttl ≡ pos 0) ⊎ IsPositive rule.max_ttl
    → IsPositive (max_ttl_of p rule)
unfolding max_ttl_of
max_ttl_of-IsPositive p rule d (inl e) = rw e d
max_ttl_of-IsPositive p rule d (inr h) = ground arith

whole_seconds-le : (o : Option ℤ) {n : ℕ} → whole_seconds o ≡ some n → second ≤ n
unfolding whole_seconds
whole_seconds-le none h = cc
whole_seconds-le (some (negsuc m)) h = cc
whole_seconds-le (some (pos m)) h = ground arith

truncate_second-le : (n : ℕ) → second ≤ n → second ≤ truncate_second n
truncate_second-le n h = omega arith

requested_ttl-cases :
    (rt : Runtime) (ttl : Str) {n : ℕ} → requested_ttl rt ttl ≡ ok n → (n ≡ 0) ⊎ (second ≤ n)
unfolding requested_ttl
requested_ttl-cases rt ttl {n} h = elim (Bool-cases (ttl == [])) [
  | inl e ↦ inl (sym (ok-injective (rw e at h)))
  | inr e ↦ elim (Option-cases (whole_seconds (rt.parse_duration ttl))) [
    | inl f ↦ cc (rw (e, f) at h)
    | inr (m, f) ↦
        let long = whole_seconds-le (rt.parse_duration ttl) f in
        let cut : ◌≡◌ {A = Result Refusal ℕ} (ok (truncate_second m)) (ok n) = rw (e, f) at h in
        inr (rw (← ok-injective cut) (truncate_second-le m long))
  ]
]

min_ℤ-IsPositive : (a b : ℤ) → IsPositive a → IsPositive b → IsPositive (min_ℤ a b)
min_ℤ-IsPositive a b p q = ground arith

asked-IsPositive :
    (n : ℕ) (d : ℤ)
    → IsPositive d
    → (n ≡ 0) ⊎ (second ≤ n)
    → IsPositive (if eqb n 0 then d else pos n)
asked-IsPositive n d p h = ground arith

-- Under the Grant policy of a configuration that Load accepts, whatever Resolve accepts has a TTL
-- of at least one second.
pub load_then_resolve :
    (host : Host) (rt : Runtime) (path : Str) {config : Config} (input : ItemInput) {r : Resolved}
    → load host rt path ≡ ok config
    → resolve rt config.grant_policy input ≡ ok r
    → IsPositive r.ttl
load_then_resolve host rt path {config} input {r} loaded h =
    let (raw, _, accepted) = load-IsAccepted host rt path loaded in
    let p = config.grant_policy in
    let steps = resolve-Steps rt p input h in
    let sound = resolve-IsSound rt p input r h in
    let d = accepted.policy.default_positive in
    let (_, made) =
      settle-ok rt p input steps.capabilities steps.requested steps.matched steps.best
        steps.settled in
    let limit =
      max_ttl_of-IsPositive p sound.rule d
        (All-In (IsGrantable rt) p.rules accepted.policy.rules.grantable sound.listed).1 in
    let limit' : IsPositive (max_ttl_of p steps.best) =
      subst IsPositive (sym sound.limit ∙ ap (λ (x : Resolved). x.max_ttl) made) limit in
    subst IsPositive (sym (ap (λ (x : Resolved). x.ttl) made)) (
      min_ℤ-IsPositive (if eqb steps.requested 0 then p.default_ttl else pos steps.requested)
        (max_ttl_of p steps.best)
        (asked-IsPositive steps.requested p.default_ttl d
          (requested_ttl-cases rt input.ttl steps.ttl))
        limit')
