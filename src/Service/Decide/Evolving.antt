-- ===== src/Service/Decide/Evolving.antt =====
-- The loop over the decisions carries the items on, and `decide_locked` the tables.
use openbao_authorizer.Prelude.{
  ℕ, ◌≡◌, refl, sym, ap, subst, ◌∙◌, inl, inr, true, Option, none, some, some_inj, List, [], ◌∷◌,
  find, find-In, Bool-cases,
}
use openbao_authorizer.Prelude.Result.{Result, ok, err}
use openbao_authorizer.Text.Bytes.{Str, ◌==◌, eq→≡}
use openbao_authorizer.Rules.Model.{Runtime}
use openbao_authorizer.Store.Model.{Item, is_pending, Approver, Grant, GrantRequest}
use openbao_authorizer.Store.Rows.{Db, RequestRow}
use openbao_authorizer.Store.Requests.{find_request}
use openbao_authorizer.Store.Grants.{decide_items}
use openbao_authorizer.Store.Keys.{IsSound}
use openbao_authorizer.Store.Evolution.{
  IsSameItem, ItemsEvolve, ItemsEvolve-refl, ItemsEvolve-trans, Evolves-refl, RowsEvolve-refl,
}
use openbao_authorizer.Store.Advance.{
  Advances, expire_pending_items-Advances, decide_items-Advances, decide_swept-Advances,
  grant_request-found,
}
use openbao_authorizer.Service.Model.{OpenBao, World, Config, Decision, ServiceError}
use openbao_authorizer.Service.Exec.Tables.{KeepsTables-outcome}
use openbao_authorizer.Service.Decide.{
  Progress, set_item, decide_one, decide_each, publish, decide_locked,
}
use openbao_authorizer.Service.Decide.Settling.{
  Settled, without_grant, with_grant, decide_item-ok, decide_item-Settled,
}
use openbao_authorizer.Service.Decide.Each.{decide_one-ok, each_nil, each_cons}
use openbao_authorizer.Service.Decide.Outcome.{swept_db, Locked, decide_locked-Locked}
use openbao_authorizer.Service.Decide.Failure.{publish-KeepsTables, decide_locked-err}

set_item-ItemsEvolve :
    (item item' : Item) (items : List Item)
    → find (λ i. i.id == item.id) items ≡ some item
    → IsSameItem item item'
    → is_pending item.state ≡ true
    → ItemsEvolve items (set_item item.id item' items)
unfolding set_item
set_item-ItemsEvolve item item' [] found same pending = cc
set_item-ItemsEvolve item item' (other ∷ items) found same pending =
    elim (Bool-cases (other.id == item.id)) [
      | inl e ↦
          let first = some_inj (rw e at found) in
          rw e (
            subst (λ (x : Item). ItemsEvolve (x ∷ items) (item' ∷ items)) (sym first)
              ((same, inr (inl pending)), ItemsEvolve-refl items))
      | inr e ↦
          rw e
            (Evolves-refl other, set_item-ItemsEvolve item item' items (rw e at found) same pending)
    ]

module _ (approver : Approver) (request : GrantRequest) (now : ℕ) (rt : Runtime)
    (config : Config) where
  Settled-ItemsEvolve :
      (d : Decision) (p : Progress) (item : Item) {p' : Progress}
      → find (λ i. i.id == item.id) p.items ≡ some item
      → is_pending item.state ≡ true
      → Settled approver request now rt config d p item p'
      → ItemsEvolve p.items p'.items
  Settled-ItemsEvolve d p item found pending (without_grant item' done same e) =
      subst (λ (x : Progress). ItemsEvolve p.items x.items) (sym e)
        (set_item-ItemsEvolve item item' p.items found same pending)
  Settled-ItemsEvolve d p item found pending (with_grant id ttl approves allowed e) =
      subst (λ (x : Progress). ItemsEvolve p.items x.items) (sym e)
        (set_item-ItemsEvolve item _ p.items found (refl, refl, refl, refl) pending)

  module _ {bao : OpenBao} where
    decide_one-ItemsEvolve :
        (d : Decision) (p : Progress) (w : World bao) {p' : Progress} {w' : World bao}
        → decide_one approver request now rt config p d w ≡ (ok p', w')
        → ItemsEvolve p.items p'.items
    decide_one-ItemsEvolve d p w h =
        let (item, e, k) = decide_one-ok approver request now rt config d p w h in
        let named = eq→≡ item.id d.item_id (find-In (λ i. i.id == d.item_id) p.items e).1 in
        let (fresh, pending, time, _) =
          decide_item-ok approver request now rt config d p item w k in
        Settled-ItemsEvolve d p item
          (subst (λ t. find (λ i. i.id == t) p.items ≡ some item) (sym named) e) pending
          (decide_item-Settled approver request now rt config d p item w k)

    decide_each-ItemsEvolve :
        (ds : List Decision) (p : Progress) (w : World bao) {p' : Progress} {w' : World bao}
        → decide_each approver request now rt config p ds w ≡ (ok p', w')
        → ItemsEvolve p.items p'.items
    decide_each-ItemsEvolve [] p w h =
        subst (λ (x : Progress). ItemsEvolve p.items x.items)
          (each_nil approver request now rt config p w h) (ItemsEvolve-refl p.items)
    decide_each-ItemsEvolve (d ∷ ds) p w h =
        let (p₁, w₁, one, rest) = each_cons approver request now rt config d ds p w h in
        ItemsEvolve-trans p.items p₁.items _ (decide_one-ItemsEvolve d p w one)
          (decide_each-ItemsEvolve ds p₁ w₁ rest)

swept-Advances : (swept : Option ℕ) (db : Db) → IsSound db → Advances db (swept_db swept db)
swept-Advances none db sound = (sound, RowsEvolve-refl db.requests)
swept-Advances (some t) db sound = expire_pending_items-Advances t db sound

stored-Advances :
    (swept : Option ℕ) (request : GrantRequest) (grants : List Grant) (db db' : Db)
    (row : RequestRow)
    → IsSound db
    → find_request request.id db ≡ some row
    → ItemsEvolve row.items request.items
    → decide_items request grants (swept_db swept db) ≡ ok db'
    → Advances db db'
stored-Advances none request grants db db' row = decide_items-Advances request grants db db' row
stored-Advances (some t) request grants db db' row =
    decide_swept-Advances t request grants db db' row

module _ (rt : Runtime) (config : Config) {bao : OpenBao} where
  Locked-Advances :
      (approver : Approver) (request_id : Str) (decisions : List Decision) (now later : ℕ)
      (swept : Option ℕ) (w : World bao) {request' : GrantRequest} {grants : List Grant}
      {w' : World bao}
      → IsSound w.db
      → Locked rt config approver request_id decisions now later swept w request' grants w'
      → Advances w.db w'.db
  Locked-Advances approver request_id decisions now later swept w {request'} {grants} {w'} sound l =
      let (row, found, items) = grant_request-found request_id w.db l.found in
      let kept : l.v.db ≡ w.db =
        KeepsTables-outcome (publish rt request'.entity_id grants now later) l.u
          (publish-KeepsTables rt config request'.entity_id grants now later) l.published
        ∙ l.same in
      let looped =
        decide_each-ItemsEvolve approver l.request now rt config decisions _ _ l.looped in
      stored-Advances swept request' grants w.db w'.db row sound
        (subst (λ (x : GrantRequest). find_request x.id w.db ≡ some row) (sym l.result) found)
        (subst (λ (x : GrantRequest). ItemsEvolve row.items x.items) (sym l.result)
          (subst (λ t. ItemsEvolve t l.progress.items) items looped))
        (ap (λ t. decide_items request' grants (swept_db swept t)) (sym kept) ∙ l.stored)

  pub decide_locked-Advances :
      (approver : Approver) (request_id : Str) (decisions : List Decision) (now later : ℕ)
      (swept : Option ℕ) (w : World bao)
      → IsSound w.db
      → Advances w.db (decide_locked rt config approver request_id decisions now later swept w).1.db
  decide_locked-Advances approver request_id decisions now later swept w sound =
      settled (decide_locked rt config approver request_id decisions now later swept w) refl
    where
      settled :
          (x : Result ServiceError (GrantRequest × List Grant) × World bao)
          → decide_locked rt config approver request_id decisions now later swept w ≡ x
          → Advances w.db x.1.db
      settled (ok (request', grants), w') h =
          Locked-Advances approver request_id decisions now later swept w sound
            (decide_locked-Locked rt config approver request_id decisions now later swept w h)
      settled (err e, w') h =
          elim (decide_locked-err rt config approver request_id decisions now later swept w e w'
            h) [
              | inl same ↦ subst (Advances w.db) (sym same) (sound, RowsEvolve-refl w.db.requests)
              | inr same ↦ subst (Advances w.db) (sym same) (swept-Advances swept w.db sound)
            ]
