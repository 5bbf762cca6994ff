-- ===== src/Cred/Errors.antt =====
-- RPC failures as the client sees them: `authorizerError` and what is worth a reconnection.
use openbao_authorizer.Prelude.{
  Bool, true, false, ◌&&◌, ◌||◌, not, List, [], ◌∷◌, ◌++◌, if◌then◌else◌,
}
use openbao_authorizer.Text.Bytes.{Str, bytes, ◌==◌}
use openbao_authorizer.Rules.Pattern.{is_empty}

-- connect.Code
pub data Code : Type 0 where
  canceled unknown invalid_argument deadline_exceeded not_found already_exists : Code
  permission_denied resource_exhausted failed_precondition aborted out_of_range : Code
  unimplemented internal unavailable data_loss unauthenticated : Code

pub record AuthorizerError : Type 0 where
  pub code : Code
  pub reason : Str
  pub message : Str
  pub wire : Bool
  pub permanent : Bool

-- The detail of an error: an ErrorDetail with its reason, another message, or one that cannot be
-- decoded.
pub data Detail : Type 0 where
  error_detail : Str → Detail
  other_detail undecodable : Detail

-- A *connect.Error, with what the chain below it has: the refused redirect, and each of the four TLS
-- errors that `tlsVerificationError` looks for.
pub record ConnectError : Type 0 where
  pub code : Code
  pub message : Str
  pub wire : Bool
  pub insecure_redirect : Bool
  pub verification : Bool
  pub unknown_authority : Bool
  pub hostname : Bool
  pub invalid_certificate : Bool
  pub details : List Detail

unfoldable pub tls_verification_error : ConnectError → Bool
tls_verification_error e =
    e.verification || e.unknown_authority || e.hostname || e.invalid_certificate

unfoldable pub detail_reason : List Detail → Str
detail_reason [] = []
detail_reason (error_detail reason ∷ rest) = reason
detail_reason (other_detail ∷ rest) = detail_reason rest
detail_reason (undecodable ∷ rest) = detail_reason rest

unfoldable pub new_authorizer_error : ConnectError → AuthorizerError
unfolding tls_verification_error detail_reason
new_authorizer_error e = record {
  code = e.code;
  reason = detail_reason e.details;
  message = e.message;
  wire = e.wire;
  permanent = not e.wire && (e.insecure_redirect || tls_verification_error e);
}

-- An error of a watch: the idle timer, an RPC failure, or anything else.
pub data WatchError : Type 0 where
  stream_idle other_error : WatchError
  rpc_failed : AuthorizerError → WatchError

-- The codes of the list in `transientAuthorizerError`.
abbrev is_transient_code : Code → Bool
is_transient_code unavailable = true
is_transient_code unknown = true
is_transient_code internal = true
is_transient_code deadline_exceeded = true
is_transient_code resource_exhausted = true
is_transient_code aborted = true
is_transient_code _ = false

abbrev is_invalid_argument : Code → Bool
is_invalid_argument invalid_argument = true
is_invalid_argument _ = false

unfoldable pub transient_authorizer_error : WatchError → Bool
transient_authorizer_error stream_idle = true
transient_authorizer_error other_error = false
transient_authorizer_error (rpc_failed e) =
    if e.permanent
    then false
    else if is_invalid_argument e.code && not e.wire
    then true
    else is_transient_code e.code

-- The texts of `authorizerError.Error`.
unfoldable pub error_text : (Code → Str) → AuthorizerError → Str
unfolding ◌==◌
error_text code_text e =
    if e.reason == bytes "INVALID_TOKEN"
    then bytes "the authorizer rejected the token; it may be expired or revoked"
    else if e.reason == bytes "NOT_REQUESTER"
    then bytes "this token is not allowed to request grants (no matching requester rule)"
    else if e.reason == bytes "NOT_FOUND"
    then bytes "not found for this Requester"
    else if e.reason == bytes "OPENBAO_UNAVAILABLE"
    then bytes "the authorizer cannot reach OpenBao; try again later"
    else if not e.wire
    then bytes "authorizer connection failed: " ++ e.message
    else if is_empty e.message
    then bytes "authorizer returned " ++ code_text e.code
    else bytes "authorizer returned " ++ (code_text e.code ++ (bytes ": " ++ e.message))
