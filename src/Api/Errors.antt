-- ===== src/Api/Errors.antt =====
-- internal/api/errors.go: what clients see of an error.
use openbao_authorizer.Prelude.{ℕ, Bool, true, false, List, [], ◌||◌, eqb}
use openbao_authorizer.Text.Bytes.{Str}
use openbao_authorizer.Service.Model.{
  ServiceError, invalid_token, not_requester, self_approval, not_found, ids_exhausted, invalid,
  conflict, store_failed, bao_failed, Invalid, BaoError, http, transport,
}

-- connect.Code, as far as the API uses it
pub data ErrorCode : Type 0 where
  code_invalid_argument code_unauthenticated code_permission_denied code_not_found : ErrorCode
  code_failed_precondition code_unavailable code_internal : ErrorCode

-- The reasons that clients branch on; an internal error has none.
pub data Reason : Type 0 where
  no_reason reason_invalid_token reason_session_expired reason_not_requester : Reason
  reason_self_approval reason_not_approver reason_cross_origin reason_invalid_request : Reason
  reason_not_found reason_item_not_pending reason_grant_not_active : Reason
  reason_openbao_unavailable : Reason

-- The messages: the text of an InvalidError, what an Approver sees of a failed call of OpenBao, with
-- its status and the texts of OpenBao itself, or a fixed text for each reason.
pub data ErrorMessage : Type 0 where
  fixed : ErrorMessage
  refusal : Invalid → ErrorMessage
  openbao_failure : Str → ℕ → ErrorMessage

pub record ApiError : Type 0 where
  pub code : ErrorCode
  pub reason : Reason
  pub message : ErrorMessage
  pub ids : List Str
  pub challenge : Bool

unfoldable pub api_error : ErrorCode → Reason → ErrorMessage → List Str → ApiError
api_error code reason message ids = record {
  code = code;
  reason = reason;
  message = message;
  ids = ids;
  challenge = false;
}

unfoldable pub invalid_argument : ErrorMessage → ApiError
unfolding api_error
invalid_argument message = api_error code_invalid_argument reason_invalid_request message []

unfoldable pub session_expired : ApiError
unfolding api_error
session_expired = api_error code_unauthenticated reason_session_expired fixed []

unfoldable pub internal_error : ApiError
unfolding api_error
internal_error = api_error code_internal no_reason fixed []

unfoldable pub grant_error : Str → Reason → ServiceError → ApiError
unfolding api_error invalid_argument internal_error
grant_error action conflict_reason (invalid reason) = invalid_argument (refusal reason)
grant_error action conflict_reason not_found = api_error code_not_found reason_not_found fixed []
grant_error action conflict_reason self_approval =
    api_error code_permission_denied reason_self_approval fixed []
grant_error action conflict_reason (conflict ids) =
    api_error code_failed_precondition conflict_reason fixed ids
grant_error action conflict_reason (bao_failed (http status)) =
    api_error code_unavailable reason_openbao_unavailable (openbao_failure action status) []
grant_error action conflict_reason _ = internal_error

unfoldable pub openbao_unavailable : ApiError
unfolding api_error
openbao_unavailable = api_error code_unavailable reason_openbao_unavailable fixed []

unfoldable pub requester_grant_error : Str → ServiceError → ApiError
unfolding grant_error openbao_unavailable
requester_grant_error action (bao_failed (http status)) = openbao_unavailable
requester_grant_error action e = grant_error action reason_item_not_pending e

unfoldable pub is_authoritative_token_error : BaoError → Bool
is_authoritative_token_error transport = false
is_authoritative_token_error (http status) =
    eqb status 400 || eqb status 401 || eqb status 403 || eqb status 404

-- bearerChallenge
unfoldable pub bearer_challenge : ApiError → ApiError
bearer_challenge e = record e { challenge = true }

-- The fixed texts and those of the service: nothing that OpenBao said.
abbrev pub IsPrivate : ErrorMessage → Type 0
IsPrivate fixed = Unit
IsPrivate (refusal reason) = Unit
IsPrivate (openbao_failure action status) = ⊥

-- What a Requester gets to see of an error has nothing of OpenBao's answer.
pub requester_grant_error-IsPrivate :
    (action : Str) (e : ServiceError) → IsPrivate (requester_grant_error action e).message
unfolding requester_grant_error
requester_grant_error-IsPrivate action invalid_token = tt
requester_grant_error-IsPrivate action not_requester = tt
requester_grant_error-IsPrivate action self_approval = tt
requester_grant_error-IsPrivate action not_found = tt
requester_grant_error-IsPrivate action ids_exhausted = tt
requester_grant_error-IsPrivate action (invalid reason) = tt
requester_grant_error-IsPrivate action (conflict ids) = tt
requester_grant_error-IsPrivate action (store_failed e) = tt
requester_grant_error-IsPrivate action (bao_failed (http status)) = tt
requester_grant_error-IsPrivate action (bao_failed transport) = tt
