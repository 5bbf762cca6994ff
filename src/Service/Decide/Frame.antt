-- ===== src/Service/Decide/Frame.antt =====
-- The loop over the decisions changes neither the database nor OpenBao.
use openbao_authorizer.Prelude.{
  ℕ, ◌≡◌, refl, ◌∙◌, inl, inr, List, [], ◌∷◌, arith, find, Option-cases,
}
use openbao_authorizer.Prelude.Result.{Result, ok, err}
use openbao_authorizer.Text.Bytes.{◌==◌}
use openbao_authorizer.Rules.Model.{Runtime}
use openbao_authorizer.Store.Model.{Item, Approver, GrantRequest}
use openbao_authorizer.Service.Model.{OpenBao, World, Config, Decision, ServiceError}
use openbao_authorizer.Service.Exec.{Exec, continue}
use openbao_authorizer.Service.Approval.{Approval, approval_ttl}
use openbao_authorizer.Service.Decide.{
  Progress, settle_approval, decide_item, decide_one, decide_each,
}

pub record Same {bao : OpenBao} (w v : World bao) : Type 0 where
  pub db : v.db ≡ w.db
  pub server : v.server ≡ w.server

module _ {bao : OpenBao} where
  Same-refl : (w : World bao) → Same w w
  Same-refl w = record { db = refl; server = refl }

  Same-trans : {u v w : World bao} → Same u v → Same v w → Same u w
  Same-trans h k = record { db = k.db ∙ h.db; server = k.server ∙ h.server }

  Same-continue :
      {A B : Type 0} (r : Result ServiceError A) (f : A → Exec (World bao) B) (w v : World bao)
      → Same w v
      → ((a : A) (u : World bao) → Same u (f a u).1)
      → Same w (continue r f v).1
  Same-continue (ok a) f w v h k = Same-trans h (k a v)
  Same-continue (err e) f w v h k = h

module _ (approver : Approver) (request : GrantRequest) (now : ℕ) (rt : Runtime) (config : Config)
    {bao : OpenBao} where
  settle-Same :
      (p : Progress) (item : Item) (a : Approval) (w : World bao)
      → Same w (settle_approval approver request now rt config p item a w).1
  unfolding settle_approval
  settle-Same p item a w = ground arith

  item-Same :
      (d : Decision) (p : Progress) (item : Item) (w : World bao)
      → Same w (decide_item approver request now rt config d p item w).1
  unfolding decide_item
  item-Same d p item w =
      let approval =
        Same-continue (approval_ttl rt config item d.ttl)
          (settle_approval approver request now rt config p item) w w (Same-refl w)
          (λ a u. settle-Same p item a u) in
      ground (arith, approval)

  one-Same :
      (p : Progress) (d : Decision) (w : World bao)
      → Same w (decide_one approver request now rt config p d w).1
  unfolding decide_one
  one-Same p d w = elim (Option-cases (find (λ i. i.id == d.item_id) p.items)) [
    | inl e ↦ rw (e, decide_one) (Same-refl w)
    | inr (item, e) ↦ rw (e, decide_one) (item-Same d p item w)
  ]

  pub decide_each-Same :
      (p : Progress) (ds : List Decision) (w : World bao)
      → Same w (decide_each approver request now rt config p ds w).1
  unfolding decide_each
  decide_each-Same p [] w = Same-refl w
  decide_each-Same p (d ∷ ds) w =
      Same-continue (decide_one approver request now rt config p d w).0
        (λ q. decide_each approver request now rt config q ds) w
        (decide_one approver request now rt config p d w).1 (one-Same p d w)
        (λ q u. decide_each-Same q ds u)
