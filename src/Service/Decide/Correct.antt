-- ===== src/Service/Decide/Correct.antt =====
-- What holds of a finished `decide`, and of one that failed.
use openbao_authorizer.Prelude.{
  ℕ, ◌≡◌, ◌≢◌, sym, ap, subst, ◌∙◌, Option, some, List, [], ◌∷◌, ◌++◌, arith, All, In-All, map,
}
use openbao_authorizer.Prelude.Result.{Result, ok}
use openbao_authorizer.Text.Bytes.{Str, eq_refl}
use openbao_authorizer.Rules.Model.{Runtime}
use openbao_authorizer.Rules.Capability.Order.{IsDistinct}
use openbao_authorizer.Store.Model.{Approver, Grant, GrantRequest}
use openbao_authorizer.Store.Requests.{grant_request}
use openbao_authorizer.Store.Grants.{active_grants, decide_items}
use openbao_authorizer.Service.Model.{OpenBao, IsLawful, World, Config, Decision, ServiceError}
use openbao_authorizer.Service.Exec.{on_error, reads}
use openbao_authorizer.Service.Exec.Inversion.{bind-ok, on_error-raised, Raises, reads-ok}
use openbao_authorizer.Service.Policy.{policy_name, session_policy}
use openbao_authorizer.Service.Decide.{publish, decide_locked, decide, hide_missing}
use openbao_authorizer.Service.Decide.Each.{start, start-Inv, Authorised, decide_each-Inv}
use openbao_authorizer.Service.Decide.Outcome.{decide_locked-Locked, swept_db}
use openbao_authorizer.Service.Decide.Publication.{publish-ok}

module _ (rt : Runtime) (config : Config) {bao : OpenBao} where
  -- When the decisions on a request go through, the request was stored under that id, and each
  -- Grant that they create comes from an item of it that was pending, before the deadline of the
  -- request, by a decision among them that approves that item; the Grant has the item's path and
  -- capabilities and the entity of the request, and lasts as long as the rules of now allow that
  -- decision; and no two of the Grants are for one item.
  pub decide_locked-Authorised :
      (approver : Approver) (request_id : Str) (decisions : List Decision) (now later : ℕ)
      (swept : Option ℕ) (w : World bao) (request' : GrantRequest) (grants : List Grant)
      (w' : World bao)
      → decide_locked rt config approver request_id decisions now later swept w
        ≡ (ok (request', grants), w')
      → (request : GrantRequest) × (grant_request request_id w.db ≡ ok request)
        × All (Authorised approver request now rt config decisions) grants
        × IsDistinct (map (λ g. g.item_id) grants)
  decide_locked-Authorised approver request_id decisions now later swept w request' grants w' h =
      let l = decide_locked-Locked rt config approver request_id decisions now later swept w h in
      let inv =
        decide_each-Inv approver l.request now rt config decisions (start l.request) decisions _
          (λ d m. m) (start-Inv approver l.request now rt config decisions) l.looped in
      (
        l.request,
        l.found,
        subst (All (Authorised approver l.request now rt config decisions)) (sym l.result_grants) (
            In-All (Authorised approver l.request now rt config decisions) l.progress.grants
              inv.authorised),
        subst (λ (t : List Grant). IsDistinct (map (λ g. g.item_id) t)) (sym l.result_grants)
            inv.distinct_items,
      )

  -- When decisions that create Grants go through, on an OpenBao that keeps the policies whose
  -- writes it confirms, the policy of the request's entity is the rendering of the Grants that
  -- were active at the start followed by the new ones, and the tables are those of the transaction
  -- that stores the decided items and the new Grants, run after the sweep if one came between.
  pub decide_locked-published :
      (lawful : IsLawful bao) (approver : Approver) (request_id : Str) (decisions : List Decision)
      (now later : ℕ) (swept : Option ℕ) (w : World bao) (request' : GrantRequest) (grant : Grant)
      (grants : List Grant) (w' : World bao)
      → decide_locked rt config approver request_id decisions now later swept w
        ≡ (ok (request', grant ∷ grants), w')
      → (active : List Grant) × (active_grants request'.entity_id now w.db ≡ ok active)
        × (lawful.policy (policy_name request'.entity_id) w'.server
            ≡ some (session_policy rt (active ++ grant ∷ grants)))
        × (decide_items request' (grant ∷ grants) (swept_db swept w.db) ≡ ok w'.db)
  decide_locked-published lawful approver request_id decisions now later swept w request' grant
        grants w' h =
      let l = decide_locked-Locked rt config approver request_id decisions now later swept w h in
      let (active, found, policy, same) =
        publish-ok rt lawful request'.entity_id grant grants now later l.u l.published in
      (
        active,
        ap (active_grants request'.entity_id now) (sym l.same) ∙ found,
        ap (lawful.policy (policy_name request'.entity_id)) l.kept ∙ policy,
        subst (λ t. decide_items request' (grant ∷ grants) (swept_db swept t) ≡ ok w'.db)
            (same ∙ l.same) l.stored,
      )

  no_grants :
      (entity_id : Str) (now later : ℕ) (u : World bao) {v : World bao}
      → publish rt entity_id [] now later u ≡ (ok tt, v)
      → v ≡ u
  unfolding publish
  no_grants entity_id now later u h =
      ap (λ (x : Result ServiceError (Unit {0}) × World bao). x.1) (sym h)

  -- When decisions that create no Grant go through, OpenBao is in the state in which it was, and
  -- the tables are those of the transaction that stores the decided items.
  pub decide_locked-rejections :
      (approver : Approver) (request_id : Str) (decisions : List Decision) (now later : ℕ)
      (swept : Option ℕ) (w : World bao) (request' : GrantRequest) (w' : World bao)
      → decide_locked rt config approver request_id decisions now later swept w
        ≡ (ok (request', []), w')
      → (w'.server ≡ w.server) × (decide_items request' [] (swept_db swept w.db) ≡ ok w'.db)
  decide_locked-rejections approver request_id decisions now later swept w request' w' h =
      let l = decide_locked-Locked rt config approver request_id decisions now later swept w h in
      let silent = no_grants request'.entity_id now later l.u l.published in
      (
        l.kept ∙ (ap (λ (x : World bao). x.server) silent ∙ l.same_server),
        subst (λ t. decide_items request' [] (swept_db swept t) ≡ ok w'.db)
            (ap (λ (x : World bao). x.db) silent ∙ l.same) l.stored,
      )

  hide_missing-Raises :
      (e : ServiceError) → Raises (hide_missing {W = World bao} {A = GrantRequest} e)
  hide_missing-Raises e w a w' h = ground arith

  -- When a decision goes through, the request was stored under that id and belongs to another
  -- entity than the one that decides.
  pub decide-self_approval :
      (approver : Approver) (request_id : Str) (decisions : List Decision) (now later : ℕ)
      (swept : Option ℕ) (w : World bao) (request' : GrantRequest) (w' : World bao)
      → decide rt config approver request_id decisions now later swept w ≡ (ok request', w')
      → (request : GrantRequest) × (grant_request request_id w.db ≡ ok request)
        × (request.entity_id ≢ approver.entity_id)
  unfolding decide
  decide-self_approval approver request_id [] now later swept w request' w' h = cc
  decide-self_approval approver request_id (d ∷ ds) now later swept w request' w' h =
      let (request, first, rest) =
        bind-ok (on_error (reads (grant_request request_id)) hide_missing) _ w h in
      let found = reads-ok (grant_request request_id) w (
        on_error-raised (reads (grant_request request_id)) hide_missing w hide_missing-Raises
          first) in
      (request, found.0, λ same. cc (rw (same, eq_refl approver.entity_id) at rest))
