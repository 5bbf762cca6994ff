-- ===== src/Api/Handlers/Owned.antt =====
-- A Requester reads their own requests only.
use openbao_authorizer.Prelude.{
  ◌≡◌, refl, sym, ap, ◌∙◌, inl, inr, Bool, false, if◌then◌else◌, Bool-cases, arith,
}
use openbao_authorizer.Prelude.Result.{Result, ok, err, ok-injective}
use openbao_authorizer.Text.Bytes.{Str, ◌==◌, eq→≡}
use openbao_authorizer.Store.Model.{GrantRequest}
use openbao_authorizer.Store.Requests.{grant_request}
use openbao_authorizer.Service.Model.{
  Config, OpenBao, World, Identity, Requester, ServiceError, not_found,
}
use openbao_authorizer.Service.Exec.{on_error, reads, pure, raise}
use openbao_authorizer.Service.Exec.Inversion.{bind-ok, on_error-raised, Raises, reads-ok, pure-ok}
use openbao_authorizer.Service.Decide.{hide_missing}
use openbao_authorizer.Service.Create.{authenticate, owned_request}
use openbao_authorizer.Service.Create.Admission.{IsAdmitted, authenticate-IsAdmitted}
use openbao_authorizer.Api.Errors.{ApiError}
use openbao_authorizer.Api.Render.{RequestProto, request_proto}
use openbao_authorizer.Api.Model.{Headers}
use openbao_authorizer.Api.Auth.{
  RequesterCaller, requester_caller, bearer_token, with_token, authorize_requester,
}
use openbao_authorizer.Api.Handlers.{answer, for_requester, get_grant_request}

caller-ok :
    (token : Str) (r : Result ServiceError Requester) {caller : RequesterCaller}
    → requester_caller token r ≡ ok caller
    → r ≡ ok caller.requester
caller-ok token (ok requester) h = ap (λ (c : RequesterCaller). ok c.requester) (ok-injective h)
caller-ok token (err e) h = cc

module _ (config : Config) {bao : OpenBao} where
  token-ok :
      (r : Result ApiError Str) (w : World bao) {caller : RequesterCaller} {v : World bao}
      → with_token config r w ≡ (ok caller, v)
      → (token : Str) × (r ≡ ok token) × (authenticate config token w ≡ (ok caller.requester, v))
  token-ok (err e) w h = cc
  token-ok (ok token) w h =
      let first =
        caller-ok token (authenticate config token w).0
          (ap (λ (x : Result ApiError RequesterCaller × World bao). x.0) h) in
      let second = ap (λ (x : Result ApiError RequesterCaller × World bao). x.1) h in
      (token, refl, (λ i. (first i, second i)))

module _ {bao : OpenBao} where
  answered_for :
      {A : Type 0} (handler : RequesterCaller → World bao → Result ApiError A × World bao)
      (r : Result ApiError RequesterCaller) (v : World bao) {a : A} {w' : World bao}
      → for_requester handler (r, v) ≡ (ok a, w')
      → (caller : RequesterCaller) × (r ≡ ok caller) × (handler caller v ≡ (ok a, w'))
  answered_for handler (ok caller) v h = (caller, refl, h)
  answered_for handler (err e) v h = cc

module _ {W A B : Type 0} where
  answer-ok :
      (to_error : ServiceError → ApiError) (f : A → B) (r : Result ServiceError A) (v : W) {b : B}
      {w' : W}
      → answer to_error f (r, v) ≡ (ok b, w')
      → (a : A) × (r ≡ ok a) × (b ≡ f a)
  answer-ok to_error f (ok a) v h =
      (a, refl, sym (ok-injective (ap (λ (x : Result ApiError B × W). x.0) h)))
  answer-ok to_error f (err e) v h = cc

hide_missing-Raises : {W A : Type 0} (e : ServiceError) → Raises (hide_missing {W = W} {A = A} e)
hide_missing-Raises e w a w' h = ground arith

owned-ok :
    {bao : OpenBao} (entity_id : Str) (request : GrantRequest) (v : World bao) {r : GrantRequest}
    {w' : World bao}
    → (if request.entity_id == entity_id then pure request else raise not_found) v ≡ (ok r, w')
    → (r ≡ request) × (r.entity_id ≡ entity_id)
owned-ok entity_id request v {r} h = elim (Bool-cases (request.entity_id == entity_id)) [
  | inl e ↦
      let (same, _) = pure-ok request v (rw e at h) in
      (same, ap (λ (x : GrantRequest). x.entity_id) same ∙ eq→≡ request.entity_id entity_id e)
  | inr e ↦ cc (rw e at h)
]

owned_request-ok :
    {bao : OpenBao} (entity_id id : Str) (v : World bao) {r : GrantRequest} {w' : World bao}
    → owned_request entity_id id v ≡ (ok r, w')
    → (grant_request id v.db ≡ ok r) × (r.entity_id ≡ entity_id)
unfolding owned_request
owned_request-ok entity_id id v {r} {w'} h =
    let (request, read, rest) = bind-ok (on_error (reads (grant_request id)) hide_missing) _ v h in
    let (found, _, _) =
      reads-ok (grant_request id) v
        (on_error-raised (reads (grant_request id)) hide_missing v hide_missing-Raises read) in
    let (same, own) = owned-ok entity_id request _ rest in (found ∙ ap ok (sym same), own)

module _ (config : Config) (is_bearer : Str → Bool) {bao : OpenBao} where
  -- A request that GetGrantRequest shows is stored under the id asked for, and belongs to the
  -- entity that OpenBao returned for the bearer token of the call, which one of the rules admits;
  -- what is shown is that request, without what only Approvers see.
  pub get_grant_request-IsOwn :
      (headers : Headers) (id : Str) (w : World bao) {m : RequestProto} {w' : World bao}
      → get_grant_request config is_bearer headers id w ≡ (ok m, w')
      → (token : Str) × (identity : Identity) × (requester : Requester) × (r : GrantRequest)
        × (bearer_token is_bearer headers.authorization ≡ ok token)
        × ((bao.lookup_self token w.server).0 ≡ ok identity)
        × IsAdmitted config.requesters identity requester
        × (grant_request id w.db ≡ ok r)
        × (r.entity_id ≡ requester.entity_id)
        × (m ≡ request_proto r false)
  unfolding get_grant_request authorize_requester
  get_grant_request-IsOwn headers id w {m} {w'} h =
      let bearer = bearer_token is_bearer headers.authorization in
      let (caller, signed, answered) =
        answered_for _ (with_token config bearer w).0 (with_token config bearer w).1 h in
      let (token, given, entered) =
        token-ok config bearer w (λ i. (signed i, (with_token config bearer w).1)) in
      let (identity, known, admitted, db) =
        authenticate-IsAdmitted config token w caller.requester _ entered in
      let (r, owned, shown) =
        answer-ok _ _ (owned_request caller.requester.entity_id id (with_token config bearer w).1).0
          _ answered in
      let (found, own) =
        owned_request-ok caller.requester.entity_id id (with_token config bearer w).1 (λ i. (
          owned i,
          (owned_request caller.requester.entity_id id (with_token config bearer w).1).1,
        )) in
      (
        token,
        identity,
        caller.requester,
        r,
        given,
        known,
        admitted,
        ap (grant_request id) (sym db) ∙ found,
        own,
        shown,
      )
