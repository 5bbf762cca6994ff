-- ===== src/Api/Auth.antt =====
-- internal/api/auth.go: who may call, by the headers of the request.
pub mod Admitted
use openbao_authorizer.Prelude.{
  ℕ, Bool, true, false, ◌&&◌, ◌||◌, not, Option, none, some, List, [], ◌∷◌, ◌++◌, if◌then◌else◌,
}
use openbao_authorizer.Prelude.Result.{Result, ok, err, fail_if, ◌>>=◌, ◌>>◌}
use openbao_authorizer.Text.Bytes.{Str, bytes, ◌==◌, cut, trim_suffix, cut_suffix}
use openbao_authorizer.Text.Unicode.{trim_space}
use openbao_authorizer.Rules.Pattern.{is_empty}
use openbao_authorizer.Store.Model.{StoreError, Approver, not_found}
use openbao_authorizer.Store.Sessions.{Session, SessionRow, session}
use openbao_authorizer.Service.Model.{
  Config, OpenBao, World, Requester, ServiceError, invalid_token, not_requester,
}
use openbao_authorizer.Service.Create.{authenticate}
use openbao_authorizer.Api.Errors.{
  ApiError, api_error, code_unauthenticated, code_permission_denied, reason_invalid_token,
  reason_not_requester, reason_cross_origin, fixed, session_expired, internal_error,
  openbao_unavailable, bearer_challenge,
}
use openbao_authorizer.Api.Model.{LoginBao, Site, ServerOptions, Headers, fails, called}

-- strings.EqualFold(scheme, "Bearer") is a parameter. The token of a bearer header.
module _ (is_bearer : Str → Bool) where
  unfoldable pub bearer_token : Str → Result ApiError Str
  unfolding cut trim_space
  bearer_token authorization = do
    let (scheme, rest, found) = cut b' ' authorization
    let token = trim_space rest
    fail_if (not found || not (is_bearer scheme) || is_empty token)
        (bearer_challenge (api_error code_unauthenticated reason_invalid_token fixed []))
    ok token

-- What `authenticateRequester` makes of an error of `Authenticate`.
unfoldable pub authentication_error : ServiceError → ApiError
unfolding api_error openbao_unavailable bearer_challenge
authentication_error invalid_token =
    bearer_challenge (api_error code_unauthenticated reason_invalid_token fixed [])
authentication_error not_requester = api_error code_permission_denied reason_not_requester fixed []
authentication_error _ = openbao_unavailable

pub record RequesterCaller : Type 0 where
  pub requester : Requester
  pub token : Str

abbrev pub requester_caller : Str → Result ServiceError Requester → Result ApiError RequesterCaller
requester_caller token (ok requester) = ok (record { requester = requester; token = token })
requester_caller token (err e) = err (authentication_error e)

module _ (config : Config) {bao : OpenBao} where
  abbrev pub with_token :
      Result ApiError Str → World bao → Result ApiError RequesterCaller × World bao
  with_token (err e) w = (err e, w)
  with_token (ok token) w =
      let (r, w') = authenticate config token w in (requester_caller token r, w')

  unfoldable pub authorize_requester :
      (Str → Bool) → Headers → World bao → Result ApiError RequesterCaller × World bao
  unfolding bearer_token authentication_error
  authorize_requester is_bearer headers w =
      with_token (bearer_token is_bearer headers.authorization) w

-- scheme://host where no public origin is set
unfoldable pub expected_origin : ServerOptions → Headers → Str
expected_origin o headers =
    if is_empty o.public_origin
    then (if o.insecure_cookies then bytes "http" else bytes "https")
      ++ (bytes "://" ++ headers.host)
    else o.public_origin

unfoldable pub check_same_origin : ServerOptions → Headers → Result ApiError (Unit {0})
unfolding expected_origin cut_suffix api_error ◌==◌
check_same_origin o headers = do
  let origin = trim_suffix b'/' headers.origin
  fail_if (headers.sec_fetch_site == bytes "cross-site")
      (api_error code_permission_denied reason_cross_origin fixed [])
  fail_if (not (is_empty origin) && not (origin == expected_origin o headers))
      (api_error code_permission_denied reason_cross_origin fixed [])

-- The procedures of the approver service; the first two need no session.
pub data Procedure : Type 0 where
  get_login_options create_session other : Procedure

abbrev pub needs_session : Procedure → Bool
needs_session get_login_options = false
needs_session create_session = false
needs_session other = true

abbrev pub session_result : Result StoreError Session → Result ApiError (Option Session)
session_result (ok s) = ok (some s)
session_result (err not_found) = err session_expired
session_result (err _) = err internal_error

module _ (fingerprint : Str → Str) {bao : LoginBao} where
  abbrev pub with_cookie : ℕ → Option Str → Site bao → Result ApiError (Option Session) × Site bao
  with_cookie now none w = (err session_expired, w)
  with_cookie now (some id) w =
      if fails w
      then (err internal_error, called w)
      else (session_result (session fingerprint id now w.sessions), called w)

  abbrev pub with_origin :
      Procedure
      → ℕ
      → Option Str
      → Result ApiError (Unit {0})
      → Site bao
      → Result ApiError (Option Session) × Site bao
  with_origin procedure now cookie (err e) w = (err e, w)
  with_origin procedure now cookie (ok tt) w =
      if needs_session procedure then with_cookie now cookie w else (ok none, w)

  -- The session of the caller, where one is needed.
  unfoldable pub authorize_approver :
      ServerOptions
      → Procedure
      → Headers
      → ℕ
      → Site bao
      → Result ApiError (Option Session) × Site bao
  unfolding check_same_origin session session_expired internal_error
  authorize_approver o procedure headers now w =
      with_origin procedure now headers.cookie (check_same_origin o headers) w

unfoldable pub approver_of : Session → Approver
approver_of s = record {
  entity_id = s.entity_id;
  name = if is_empty s.display_name then s.entity_id else s.display_name;
}
