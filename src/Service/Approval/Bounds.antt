-- ===== src/Service/Approval/Bounds.antt =====
-- How long `approvalTTL` lets a Grant last.
use openbao_authorizer.Prelude.{
  ℕ, ◌≡◌, refl, subst, inl, inr, Option, none, some, [], arith, if◌then◌else◌, Bool-cases,
}
use openbao_authorizer.Prelude.Int.{ℤ, pos, ltb_ℤ, min_ℤ, ◌≤ℤ◌, min_ℤ_bounds, ≤ℤ_trans, ≤ℤ_refl}
use openbao_authorizer.Prelude.Result.{Result, ok, err, ok-injective}
use openbao_authorizer.Text.Bytes.{Str, ◌==◌}
use openbao_authorizer.Rules.Model.{Runtime, Refusal, Resolved}
use openbao_authorizer.Rules.Resolve.{resolve, whole_seconds, truncate_second}
use openbao_authorizer.Store.Model.{Item}
use openbao_authorizer.Service.Model.{Config, ServiceError, Invalid}
use openbao_authorizer.Service.Approval.{Approval, granted, refuses, shortened, approval_ttl}

granted-injective : {a b : ℤ} → granted a ≡ granted b → a ≡ b
granted-injective h = cc

module _ (rt : Runtime) (config : Config) where
  shorter :
      (ttl : ℤ) (requested : Str) (n : Option ℕ) {t : ℤ}
      → ◌≡◌ {A = Result ServiceError Approval}
          (elim n [
            | none ↦ err (ServiceError.invalid (Invalid.ttl_malformed requested))
            | some n ↦
                if ltb_ℤ ttl (pos n)
                then err (ServiceError.invalid (Invalid.ttl_lengthens (pos n) ttl))
                else ok (granted (pos (truncate_second n)))
          ])
          (ok (granted t))
      → t ≤ℤ ttl
  shorter ttl requested none h = cc
  shorter ttl requested (some n) h = ground arith

  shortened-le :
      (ttl : ℤ) (requested : Str) {t : ℤ}
      → shortened rt config ttl requested ≡ ok (granted t)
      → t ≤ℤ ttl
  unfolding shortened
  shortened-le ttl requested h = elim (Bool-cases (requested == [])) [
    | inl e ↦ subst (λ x. x ≤ℤ ttl) (granted-injective (ok-injective (rw e at h))) (≤ℤ_refl ttl)
    | inr e ↦ shorter ttl requested (whole_seconds (rt.parse_duration requested)) (rw e at h)
  ]

  allowed :
      (item : Item) (requested : Str) (ttl : ℤ) (r : Result Refusal Resolved)
      → ◌≡◌ {A = Result ServiceError Approval}
          (elim r [
            | err refusal ↦ ok (refuses refusal)
            | ok current ↦ shortened rt config (min_ℤ item.ttl current.max_ttl) requested
          ])
          (ok (granted ttl))
      → (current : Resolved) × (r ≡ ok current) × (ttl ≤ℤ item.ttl) × (ttl ≤ℤ current.max_ttl)
  allowed item requested ttl (err refusal) h = cc
  allowed item requested ttl (ok current) h =
      let (below, under) = min_ℤ_bounds item.ttl current.max_ttl in
      let short = shortened-le (min_ℤ item.ttl current.max_ttl) requested h in
      (
        current,
        refl,
        ≤ℤ_trans ttl (min_ℤ item.ttl current.max_ttl) item.ttl short below,
        ≤ℤ_trans ttl (min_ℤ item.ttl current.max_ttl) current.max_ttl short under,
      )

  -- An approval that goes through is of a path and capabilities that the rules still allow, and
  -- its TTL exceeds neither the TTL of the item nor the limit of the rule that covers it now.
  pub approval_ttl-le :
      (item : Item) (requested : Str) (ttl : ℤ)
      → approval_ttl rt config item requested ≡ ok (granted ttl)
      → (current : Resolved) × (resolve rt config.policy
            (record { path = item.path; capabilities = item.capabilities; ttl = [] })
          ≡ ok current)
        × (ttl ≤ℤ item.ttl)
        × (ttl ≤ℤ current.max_ttl)
  unfolding approval_ttl
  approval_ttl-le item requested ttl h =
      allowed item requested ttl
        (resolve rt config.policy
          (record { path = item.path; capabilities = item.capabilities; ttl = [] }))
        h
