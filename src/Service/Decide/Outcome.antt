-- ===== src/Service/Decide/Outcome.antt =====
-- The steps of a finished `decide_locked`.
use openbao_authorizer.Prelude.{ℕ, ◌≡◌, refl, sym, ap, subst, ◌∙◌, Option, none, some, List, arith}
use openbao_authorizer.Prelude.Result.{ok}
use openbao_authorizer.Text.Bytes.{Str}
use openbao_authorizer.Rules.Model.{Runtime}
use openbao_authorizer.Store.Model.{Approver, Grant, GrantRequest}
use openbao_authorizer.Store.Rows.{Db}
use openbao_authorizer.Store.Requests.{grant_request, expire_pending_items}
use openbao_authorizer.Store.Grants.{decide_items}
use openbao_authorizer.Service.Model.{OpenBao, World, Config, Decision, ServiceError}
use openbao_authorizer.Service.Exec.{Exec, pure, on_error, reads, writes, ◌>>◌}
use openbao_authorizer.Service.Exec.Inversion.{
  bind-ok, on_error-raised, pure-ok, Raises, reads-ok, writes-ok,
}
use openbao_authorizer.Service.Decide.{
  Progress, decide_each, publish, withdraw, sweep, decide_locked, conflict_on,
}
use openbao_authorizer.Service.Decide.Each.{start}
use openbao_authorizer.Service.Decide.Frame.{decide_each-Same}

-- The tables as the sweep leaves them.
abbrev pub swept_db : Option ℕ → Db → Db
swept_db none db = db
swept_db (some t) db = (expire_pending_items t db).1

module _ (rt : Runtime) (config : Config) {bao : OpenBao} where
  conflict_on-Raises :
      (decisions : List Decision) (e : ServiceError)
      → Raises (conflict_on {W = World bao} {A = Unit {0}} decisions e)
  conflict_on-Raises decisions e w a w' h = ground arith

  sweep-db :
      (swept : Option ℕ) (w : World bao)
      → ((sweep swept w).1.db ≡ swept_db swept w.db) × ((sweep swept w).1.server ≡ w.server)
  unfolding sweep
  sweep-db none w = (refl, refl)
  sweep-db (some t) w = (refl, refl)

  undo-Raises :
      (decisions : List Decision) (undo : Exec (World bao) (Unit {0})) (e : ServiceError)
      → Raises (undo >> conflict_on {A = Unit {0}} decisions e)
  undo-Raises decisions undo e w a w' h =
      let (u, first, last) = bind-ok undo (λ u. conflict_on decisions e) w h in
      conflict_on-Raises decisions e _ _ _ last

  tail-ok :
      (decisions : List Decision) (undo : Exec (World bao) (Unit {0})) (swept : Option ℕ)
      (request : GrantRequest) (grants : List Grant) (w : World bao) {request' : GrantRequest}
      {grants' : List Grant} {w' : World bao}
      → (sweep swept
            >> (on_error
                  (writes (decide_items request grants))
                  (λ e. undo >> conflict_on decisions e)
                >> pure {A = GrantRequest × List Grant} (request, grants)))
          w
        ≡ (ok (request', grants'), w')
      → (decide_items request grants (swept_db swept w.db) ≡ ok w'.db)
        × (w'.server ≡ w.server)
        × (request' ≡ request)
        × (grants' ≡ grants)
  tail-ok decisions undo swept request grants w {w' = w'} h =
      let (u, first, rest) =
        bind-ok (sweep swept)
          (λ u.
            on_error (writes (decide_items request grants)) (λ e. undo >> conflict_on decisions e)
            >> pure {A = GrantRequest × List Grant} (request, grants))
          w h in
      let (v, second, last) =
        bind-ok
          (on_error (writes (decide_items request grants)) (λ e. undo >> conflict_on decisions e))
          (λ u. pure {A = GrantRequest × List Grant} (request, grants)) _ rest in
      let (stored, server) = writes-ok (decide_items request grants) _ (
        on_error-raised (writes (decide_items request grants)) _ _ (undo-Raises decisions undo)
          second) in
      let (result, world) = pure-ok {A = GrantRequest × List Grant} (request, grants) _ last in
      let (db, same) = sweep-db swept w in
      (
        subst (λ t. decide_items request grants t ≡ ok w'.db) db
            (stored ∙ ap (λ (x : World bao). ok x.db) (sym world)),
        ap (λ (x : World bao). x.server) world ∙ (server ∙ same),
        ap (λ (x : GrantRequest × List Grant). x.0) result,
        ap (λ (x : GrantRequest × List Grant). x.1) result,
      )

  -- The steps of `decide_locked`, when it went through.
  pub record Locked (approver : Approver) (request_id : Str) (decisions : List Decision)
      (now later : ℕ) (swept : Option ℕ) (w : World bao) (request' : GrantRequest)
      (grants : List Grant) (w' : World bao) : Type 0 where
    pub request : GrantRequest
    pub progress : Progress
    pub u : World bao
    pub v : World bao
    pub found : grant_request request_id w.db ≡ ok request
    pub looped :
        decide_each approver request now rt config
          (start request)
          decisions
          (reads (grant_request request_id) w).1
        ≡ (ok progress, u)
    pub published : publish rt request'.entity_id grants now later u ≡ (ok tt, v)
    pub same : u.db ≡ w.db
    pub same_server : u.server ≡ w.server
    pub stored : decide_items request' grants (swept_db swept v.db) ≡ ok w'.db
    pub kept : w'.server ≡ v.server
    pub result : request' ≡ record request { items = progress.items }
    pub result_grants : grants ≡ progress.grants

  to-Locked :
      (approver : Approver) (request_id : Str) (decisions : List Decision) (now later : ℕ)
      (swept : Option ℕ) (w : World bao) (request : GrantRequest) (p : Progress) {u v : World bao}
      {request' : GrantRequest} {grants : List Grant} {w' : World bao}
      → grant_request request_id w.db ≡ ok request
      → decide_each approver request now rt config
          (start request)
          decisions
          (reads (grant_request request_id) w).1
        ≡ (ok p, u)
      → u.db ≡ w.db
      → u.server ≡ w.server
      → publish rt request.entity_id p.grants now later u ≡ (ok tt, v)
      → decide_items (record request { items = p.items }) p.grants (swept_db swept v.db) ≡ ok w'.db
      → w'.server ≡ v.server
      → request' ≡ record request { items = p.items }
      → grants ≡ p.grants
      → Locked approver request_id decisions now later swept w request' grants w'
  to-Locked approver request_id decisions now later swept w request p {u = u} {v = v} found looped
        same same_server published stored kept result result_grants =
      record {
        request = request;
        progress = p;
        u = u;
        v = v;
        found = found;
        looped = looped;
        published = rw (result, result_grants) published;
        same = same;
        same_server = same_server;
        stored = rw (result, result_grants) stored;
        kept = kept;
        result = result;
        result_grants = result_grants;
      }

  pub decide_locked-Locked :
      (approver : Approver) (request_id : Str) (decisions : List Decision) (now later : ℕ)
      (swept : Option ℕ) (w : World bao) {request' : GrantRequest} {grants : List Grant}
      {w' : World bao}
      → decide_locked rt config approver request_id decisions now later swept w
        ≡ (ok (request', grants), w')
      → Locked approver request_id decisions now later swept w request' grants w'
  unfolding decide_locked
  decide_locked-Locked approver request_id decisions now later swept w h =
      let (request, first, rest) = bind-ok (reads (grant_request request_id)) _ w h in
      let (found, db, server) = reads-ok (grant_request request_id) w first in
      let (p, second, rest) =
        bind-ok (decide_each approver request now rt config (start request) decisions) _ _ rest in
      let frame =
        decide_each-Same approver request now rt config (start request) decisions
          (reads (grant_request request_id) w).1 in
      let (x, third, rest) = bind-ok (publish rt request.entity_id p.grants now later) _ _ rest in
      let (stored, kept, result, result_grants) =
        tail-ok decisions (withdraw rt request.entity_id p.grants later) swept
          (record request { items = p.items }) p.grants _ rest in
      to-Locked approver request_id decisions now later swept w request p found second
        (frame.db ∙ db) (frame.server ∙ server) third stored kept result result_grants
