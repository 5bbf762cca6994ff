-- ===== src/Service/Decide/Settling.antt =====
-- What one decision does to its item.
use openbao_authorizer.Prelude.{ℕ, ◌≡◌, refl, ap, ◌⊎◌, inl, inr, true, false, [], ◌∷◌, arith, ltb}
use openbao_authorizer.Prelude.Int.{ℤ}
use openbao_authorizer.Prelude.Result.{Result, ok}
use openbao_authorizer.Text.Bytes.{Str, contains}
use openbao_authorizer.Rules.Model.{Runtime}
use openbao_authorizer.Store.Model.{
  Item, is_pending, approved, rejected, refused, no_longer_grantable, Approver, Grant, GrantRequest,
}
use openbao_authorizer.Store.Evolution.{IsSameItem}
use openbao_authorizer.Service.Model.{OpenBao, World, Config, Decision, ServiceError}
use openbao_authorizer.Service.Exec.{from, new_id, ◌>>=◌}
use openbao_authorizer.Service.Exec.Inversion.{bind-ok}
use openbao_authorizer.Service.Approval.{Approval, granted, refuses, approval_ttl}
use openbao_authorizer.Service.Decide.{
  Progress, decided, grant_of, expiry, settle_approval, decide_item,
}

module _ (approver : Approver) (request : GrantRequest) (now : ℕ) (rt : Runtime)
    (config : Config) where
  -- The item as it is left, when it is decided: never pending.
  abbrev pub approved_item : Item → Str → ℤ → Item
  approved_item item id ttl = record item {
    decided_at = now;
    state = approved;
    decided_by = approver;
    grant_id = id;
    grant_expires = expiry now ttl;
  }

  abbrev pub granted_grant : Item → Str → ℤ → Grant
  granted_grant item id ttl = grant_of approver request now item id (expiry now ttl)

  -- One decision replaces its item by one that is not pending, and adds no Grant or the item's own.
  pub data Settled (d : Decision) (p : Progress) (item : Item) (p' : Progress) : Type 0 where
    without_grant :
        (item' : Item)
        → is_pending item'.state ≡ false
        → IsSameItem item item'
        → p' ≡ decided p item item' []
        → Settled d p item p'
    with_grant :
        (id : Str) (ttl : ℤ)
        → d.approve ≡ true
        → approval_ttl rt config item d.ttl ≡ ok (granted ttl)
        → p' ≡ decided p item (approved_item item id ttl) (granted_grant item id ttl ∷ [])
        → Settled d p item p'

  module _ {bao : OpenBao} where
    -- What `decide_item` did, when it went through.
    pub decide_item-ok :
        (d : Decision) (p : Progress) (item : Item) (w : World bao) {p' : Progress} {w' : World bao}
        → decide_item approver request now rt config d p item w ≡ (ok p', w')
        → (contains p.seen d.item_id ≡ false)
          × (is_pending item.state ≡ true)
          × (ltb now request.pending_until ≡ true)
          × (((d.approve ≡ false)
                × (p'
                    ≡ decided p item
                        (record item { decided_at = now; state = rejected; decided_by = approver })
                        []))
              ⊎ ((d.approve ≡ true)
                  × ((from (approval_ttl rt config item d.ttl)
                          >>= settle_approval approver request now rt config p item)
                        w
                      ≡ (ok p', w'))))
    unfolding decide_item
    decide_item-ok d p item w h = ground arith

    settle_approval-Settled :
        (d : Decision) (p : Progress) (item : Item) (a : Approval) (w : World bao) {p' : Progress}
        {w' : World bao}
        → d.approve ≡ true
        → approval_ttl rt config item d.ttl ≡ ok a
        → settle_approval approver request now rt config p item a w ≡ (ok p', w')
        → Settled d p item p'
    unfolding settle_approval
    settle_approval-Settled d p item (refuses refusal) w approves allowed h =
        without_grant
          (record item { decided_at = now; state = refused; reason = no_longer_grantable refusal })
          refl (refl, refl, refl, refl) (ground arith)
    settle_approval-Settled d p item (granted ttl) w approves allowed h =
        let (id, drawn, rest) = bind-ok new_id _ w h in
        with_grant id ttl approves allowed (ground arith)

    pub decide_item-Settled :
        (d : Decision) (p : Progress) (item : Item) (w : World bao) {p' : Progress} {w' : World bao}
        → decide_item approver request now rt config d p item w ≡ (ok p', w')
        → Settled d p item p'
    decide_item-Settled d p item w h = elim (decide_item-ok d p item w h).3 [
      | inl (rejects, e) ↦
          without_grant (record item { decided_at = now; state = rejected; decided_by = approver })
            refl (refl, refl, refl, refl) e
      | inr (approves, k) ↦
          let (a, allowed, rest) =
            bind-ok (from (approval_ttl rt config item d.ttl))
              (settle_approval approver request now rt config p item) w k in
          settle_approval-Settled d p item a w approves
            (ap (λ (x : Result ServiceError Approval × World bao). x.0) allowed) rest
    ]
