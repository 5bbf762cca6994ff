-- ===== src/Service/Create/Filing.antt =====
-- What a created request holds.
use openbao_authorizer.Prelude.{ℕ, ◌≡◌, sym, ap, subst, ◌∙◌, ◌≤◌, List, [], length, arith}
use openbao_authorizer.Prelude.Result.{ok}
use openbao_authorizer.Text.Bytes.{Str}
use openbao_authorizer.Text.Unicode.{trim_space}
use openbao_authorizer.Rules.Model.{Runtime, ItemInput}
use openbao_authorizer.Store.Model.{Item, GrantRequest}
use openbao_authorizer.Store.Requests.{create_grant_request}
use openbao_authorizer.Service.Model.{OpenBao, World, Config, Requester, Event}
use openbao_authorizer.Service.Decide.{add_duration}
use openbao_authorizer.Service.Exec.{pure, writes, send, new_id, ◌>>◌}
use openbao_authorizer.Service.Exec.Inversion.{bind-ok, writes-ok, pure-ok}
use openbao_authorizer.Service.Create.{
  file_items, check_granted, create_request, file_request, max_items_per_request,
}
use openbao_authorizer.Service.Create.Items.{AreItemsOf, IsMarked, AreKeys}
use openbao_authorizer.Service.Create.Loop.{IsAnswer, file_items-IsLoop, check_granted-IsLook}

module _ (rt : Runtime) (config : Config) (inputs : List ItemInput) where
  -- The items of a request, each by the input in its place, marked by the answer to one look at the
  -- capabilities of the token on the paths that were asked for.
  pub record IsFiled (bao : OpenBao) (token : Str) (server : bao.State) (items : List Item)
      : Type 0 where
    pub asked : List Str
    pub granted : List (Str × List Str)
    pub answer : IsAnswer bao token asked server granted
    pub of_inputs : AreItemsOf rt config (IsMarked rt config asked granted) [] inputs items

  nothing_seen : AreKeys rt config [] []
  nothing_seen = record { sound = λ key m. elim m [ ]; complete = λ key k. elim k.2 [ ] }

  module _ {bao : OpenBao} where
    stored-ok :
        (r : GrantRequest) (events : List Event) (w : World bao) {r' : GrantRequest}
        {w' : World bao}
        → (writes (create_grant_request r) >> (send events >> pure r)) w ≡ (ok r', w')
        → (r' ≡ r) × (create_grant_request r' w.db ≡ ok w'.db)
    stored-ok r events w {w' = w'} h =
        let (u, first, rest) =
          bind-ok (writes (create_grant_request r)) (λ u. send events >> pure r) w h in
        let (stored, server) = writes-ok (create_grant_request r) w first in
        let (same, world) = pure-ok r _ rest in
        (
          same,
          ap (λ x. create_grant_request x w.db) same
              ∙ (stored ∙ ap (λ (x : World bao). ok x.db) (sym world)),
        )

    drawn : (w : World bao) → ((new_id w).1.server ≡ w.server) × ((new_id w).1.db ≡ w.db)
    drawn w = (ground arith, ground arith)

    file_request-ok :
        (requester : Requester) (token reason : Str) (now : ℕ) (w : World bao)
        {request : GrantRequest} {w' : World bao}
        → file_request rt config requester token reason inputs now w ≡ (ok request, w')
        → (request.entity_id ≡ requester.entity_id)
          × (request.reason ≡ reason)
          × (request.created_at ≡ now)
          × (request.pending_until ≡ add_duration now config.pending_ttl)
          × IsFiled bao token w.server request.items
          × (create_grant_request request w.db ≡ ok w'.db)
    unfolding file_request
    file_request-ok requester token reason now w {request = request} {w' = w'} h =
        let (id, first, rest) = bind-ok new_id _ w h in
        let (f, filed, rest) =
          bind-ok (file_items rt config (record { items = []; paths = []; seen = [] }) inputs) _ _
            rest in
        let (items, checked, rest) =
          bind-ok (check_granted rt config token f.paths f.items) _ _ rest in
        let loop = file_items-IsLoop rt config [] _ inputs _ nothing_seen filed in
        let of_inputs = subst (AreItemsOf rt config _ [] inputs) (sym loop.added) loop.of_inputs in
        let look =
          check_granted-IsLook rt config token [] inputs f.paths f.items _ of_inputs checked in
        let (same, stored) = stored-ok _ _ _ rest in
        (
          ap (λ (x : GrantRequest). x.entity_id) same,
          ap (λ (x : GrantRequest). x.reason) same,
          ap (λ (x : GrantRequest). x.created_at) same,
          ap (λ (x : GrantRequest). x.pending_until) same,
          subst (λ (x : GrantRequest). IsFiled bao token w.server x.items) (sym same)
              (record {
                asked = f.paths;
                granted = look.granted;
                answer =
                    subst (λ s. IsAnswer bao token f.paths s look.granted)
                      (loop.same_server ∙ (drawn w).0) look.answer;
                of_inputs = look.of_inputs;
              }),
          subst (λ t. create_grant_request request t ≡ ok w'.db)
              (look.same_db ∙ (loop.same_db ∙ (drawn w).1)) stored,
        )

    create_request-guards :
        (requester : Requester) (token text : Str) (now : ℕ) (w : World bao)
        {request : GrantRequest} {w' : World bao}
        → create_request rt config requester token text inputs now w ≡ (ok request, w')
        → (1 ≤ length inputs)
          × (length inputs ≤ max_items_per_request)
          × (file_request rt config requester token (trim_space text) inputs now w
              ≡ (ok request, w'))
    unfolding create_request
    create_request-guards requester token text now w h = ground arith

    -- A request that was created belongs to the Requester, has the trimmed reason and the times
    -- that the clock gives, and its items are those of the inputs, from 1 to 64, one for each and
    -- in their order. The item of an input that the rules refuse, or that has the key, of path and
    -- capabilities, of an earlier one, is refused for that reason, with the path as it was asked,
    -- cleaned. Any other has the path, capabilities and TTL that the rules resolve the input to,
    -- and is already granted if what OpenBao answers for the token on that path, which is among
    -- those asked for, covers the capabilities, and else pending; a call that fails counts as an
    -- empty answer. The tables are those that storing the request gives.
    pub create_request-IsFiled :
        (requester : Requester) (token text : Str) (now : ℕ) (w : World bao)
        (request : GrantRequest) (w' : World bao)
        → create_request rt config requester token text inputs now w ≡ (ok request, w')
        → (request.entity_id ≡ requester.entity_id)
          × (request.reason ≡ trim_space text)
          × (request.created_at ≡ now)
          × (request.pending_until ≡ add_duration now config.pending_ttl)
          × IsFiled bao token w.server request.items
          × (1 ≤ length inputs)
          × (length inputs ≤ max_items_per_request)
          × (create_grant_request request w.db ≡ ok w'.db)
    create_request-IsFiled requester token text now w request w' h =
        let (some_input, few, k) = create_request-guards requester token text now w h in
        let (entity, reason, created, until, items, stored) =
          file_request-ok requester token (trim_space text) now w k in
        (entity, reason, created, until, items, some_input, few, stored)
