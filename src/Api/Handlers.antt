-- ===== src/Api/Handlers.antt =====
-- The unary handlers of internal/api/grant.go and internal/api/approver.go, with their authorization.
pub mod Owned
use openbao_authorizer.Prelude.{
  ℕ, Bool, true, false, ◌&&◌, ◌||◌, not, Option, none, some, List, [], ◌∷◌, ◌++◌, if◌then◌else◌,
  map, eqb, ltb, length,
}
use openbao_authorizer.Prelude.Int.{ℤ}
use openbao_authorizer.Prelude.Result.{Result, ok, err}
use openbao_authorizer.Text.Bytes.{Str, bytes, ◌==◌}
use openbao_authorizer.Rules.Model.{Runtime, ItemInput}
use openbao_authorizer.Rules.Pattern.{is_empty}
use openbao_authorizer.Store.Model.{
  RequestFilter, all_requests, pending_requests, decided_requests, GrantRequest, Grant,
}
use openbao_authorizer.Store.Requests.{grant_requests}
use openbao_authorizer.Store.Grants.{active_grants}
use openbao_authorizer.Store.Sessions.{Session}
use openbao_authorizer.Service.Model.{Config, OpenBao, World, ServiceError, Decision}
use openbao_authorizer.Service.Exec.{reads}
use openbao_authorizer.Service.Create.{create_request, owned_request}
use openbao_authorizer.Service.Decide.{decide}
use openbao_authorizer.Service.Revoke.{revoke}
use openbao_authorizer.Api.Errors.{
  ApiError, invalid_argument, fixed, internal_error, grant_error, requester_grant_error,
  reason_item_not_pending, reason_grant_not_active,
}
use openbao_authorizer.Api.Render.{
  DurationProto, duration_input, request_proto, RequestProto, requests_proto, grants_proto,
  GrantProto,
}
use openbao_authorizer.Api.Model.{Headers}
use openbao_authorizer.Api.Auth.{RequesterCaller, authorize_requester, approver_of}

-- What a handler answers for what the service returned.
abbrev pub answer :
    {W A B : Type 0}
    → (ServiceError → ApiError)
    → (A → B)
    → Result ServiceError A × W
    → Result ApiError B × W
answer to_error to_message (ok a, w) = (ok (to_message a), w)
answer to_error to_message (err e, w) = (err (to_error e), w)

-- authorizerv1.PermissionItemInput and the message for a decision
pub record ItemMessage : Type 0 where
  pub path : Str
  pub capabilities : List Str
  pub ttl : DurationProto

pub data Verdict : Type 0 where
  unspecified approve reject : Verdict

pub record DecisionMessage : Type 0 where
  pub item_id : Str
  pub verdict : Verdict
  pub ttl : DurationProto

-- GrantRequestFilter; any other number is unknown.
pub data FilterMessage : Type 0 where
  unspecified_filter pending_filter decided_filter unknown_filter : FilterMessage

unfoldable pub request_filter : FilterMessage → Option RequestFilter
request_filter unspecified_filter = some all_requests
request_filter pending_filter = some pending_requests
request_filter decided_filter = some decided_requests
request_filter unknown_filter = none

abbrev with_ttl :
    {A : Type 0} → Option Str → (Str → A) → Result ApiError (List A) → Result ApiError (List A)
with_ttl none make rest = err (invalid_argument fixed)
with_ttl (some ttl) make (err e) = err e
with_ttl (some ttl) make (ok items) = ok (make ttl ∷ items)

abbrev verdict_of : Verdict → Option Bool
verdict_of unspecified = none
verdict_of approve = some true
verdict_of reject = some false

abbrev with_verdict :
    Option Bool → (Bool → Result ApiError (List Decision)) → Result ApiError (List Decision)
with_verdict none next = err (invalid_argument fixed)
with_verdict (some approved) next = next approved

module _ (format : ℤ → Str) where
  unfoldable pub item_inputs : List ItemMessage → Result ApiError (List ItemInput)
  unfolding duration_input invalid_argument
  item_inputs [] = ok []
  item_inputs (m ∷ rest) =
      with_ttl (duration_input format m.ttl)
        (λ ttl. record { path = m.path; capabilities = m.capabilities; ttl = ttl })
        (item_inputs rest)

  unfoldable pub decisions_of : List DecisionMessage → Result ApiError (List Decision)
  unfolding duration_input invalid_argument
  decisions_of [] = ok []
  decisions_of (m ∷ rest) =
      let decided = decisions_of rest in
      with_verdict (verdict_of m.verdict) (λ approved.
        with_ttl (duration_input format m.ttl)
          (λ ttl. record { item_id = m.item_id; approve = approved; ttl = ttl }) decided)

-- An error of the store while a snapshot is taken.
abbrev internal : {A : Type 0} → Result ServiceError A → Result ApiError A
internal (ok a) = ok a
internal (err e) = err internal_error

-- A handler of the grant service, behind `authorizeRequester`.
abbrev pub for_requester :
    {W A : Type 0}
    → (RequesterCaller → W → Result ApiError A × W)
    → Result ApiError RequesterCaller × W
    → Result ApiError A × W
for_requester handler (ok caller, w) = handler caller w
for_requester handler (err e, w) = (err e, w)

abbrev pub with_inputs :
    {W A I : Type 0}
    → (I → W → Result ApiError A × W)
    → Result ApiError I
    → W
    → Result ApiError A × W
with_inputs handler (ok inputs) w = handler inputs w
with_inputs handler (err e) w = (err e, w)

module _ (rt : Runtime) (config : Config) (is_bearer : Str → Bool) {bao : OpenBao} where
  unfoldable pub create_grant_request_rpc :
      (ℤ → Str)
      → Headers
      → Str
      → List ItemMessage
      → (now : ℕ) → World bao
      → Result ApiError RequestProto × World bao
  unfolding authorize_requester item_inputs create_request requester_grant_error request_proto
  create_grant_request_rpc format headers reason items now w =
      for_requester
        (λ caller v.
          with_inputs
            (λ inputs u.
              answer (requester_grant_error (bytes "grant request"))
                (λ created. request_proto created false)
                (create_request rt config caller.requester caller.token reason inputs now u))
            (item_inputs format items) v)
        (authorize_requester config is_bearer headers w)

module _ (config : Config) (is_bearer : Str → Bool) {bao : OpenBao} where
  unfoldable pub get_grant_request :
      Headers → Str → World bao → Result ApiError RequestProto × World bao
  unfolding authorize_requester owned_request requester_grant_error request_proto
  get_grant_request headers id w =
      for_requester
        (λ caller v.
          answer (requester_grant_error (bytes "grant request"))
            (λ current. request_proto current false)
            (owned_request caller.requester.entity_id id v))
        (authorize_requester config is_bearer headers w)

  unfoldable pub list_my_grants :
      Headers → (now : ℕ) → World bao → Result ApiError (List GrantProto) × World bao
  unfolding authorize_requester grants_proto internal_error
  list_my_grants headers now w =
      for_requester
        (λ caller v.
          answer (λ e. internal_error) (λ active. grants_proto active false)
            (reads (active_grants caller.requester.entity_id now) v))
        (authorize_requester config is_bearer headers w)

-- The handlers of the approver service, for a session that `authorizeApprover` admitted.
module _ {bao : OpenBao} where
  unfoldable pub list_grant_requests :
      FilterMessage → World bao → Result ApiError (List RequestProto) × World bao
  unfolding request_filter requests_proto internal_error invalid_argument
  list_grant_requests message w = elim (request_filter message) [
    | none ↦ (err (invalid_argument fixed), w)
    | some filter ↦ answer (λ e. internal_error) requests_proto (reads (grant_requests filter) w)
  ]

  unfoldable pub list_grants : (now : ℕ) → World bao → Result ApiError (List GrantProto) × World bao
  unfolding grants_proto internal_error
  list_grants now w =
      answer (λ e. internal_error) (λ active. grants_proto active true)
        (reads (active_grants [] now) w)

  -- The snapshot of the dashboard: pending requests, decided ones, and active Grants.
  unfoldable pub snapshot :
      (now : ℕ)
      → World bao
      → Result ApiError (List RequestProto × List RequestProto × List GrantProto) × World bao
  unfolding requests_proto grants_proto internal_error
  snapshot now w =
      let (pending, w₁) = reads (grant_requests pending_requests) w in
      with_inputs
        (λ p v.
          let (decided, w₂) = reads (grant_requests decided_requests) v in
          with_inputs
            (λ d u.
              answer (λ e. internal_error)
                (λ active. (requests_proto p, requests_proto d, grants_proto active true))
                (reads (active_grants [] now) u))
            (internal decided) w₂)
        (internal pending) w₁

module _ (rt : Runtime) {bao : OpenBao} where
  unfoldable pub decide_items_rpc :
      Config
      → (ℤ → Str)
      → Session
      → Str
      → List DecisionMessage
      → (now later : ℕ) → (swept : Option ℕ) → World bao
      → Result ApiError RequestProto × World bao
  unfolding decisions_of decide approver_of grant_error request_proto
  decide_items_rpc config format s id messages now later swept w =
      with_inputs
        (λ decisions v.
          answer (grant_error (bytes "grant decision") reason_item_not_pending)
            (λ decided. request_proto decided true)
            (decide rt config (approver_of s) id decisions now later swept v))
        (decisions_of format messages) w

  unfoldable pub revoke_grant_rpc :
      Session → Str → (now later : ℕ) → World bao → Result ApiError (Unit {0}) × World bao
  unfolding revoke approver_of grant_error
  revoke_grant_rpc s grant_id now later w =
      answer (grant_error (bytes "grant revocation") reason_grant_not_active) (λ done. done)
        (revoke rt (approver_of s) grant_id now later w)
