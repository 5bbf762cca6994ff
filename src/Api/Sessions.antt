-- ===== src/Api/Sessions.antt =====
-- CreateSession, GetSession and Logout of internal/api/approver.go.
pub mod Created
use openbao_authorizer.Prelude.{
  ℕ, ◌+◌, Bool, true, false, ◌&&◌, ◌||◌, not, Option, none, some, List, [], ◌∷◌, ◌++◌,
  if◌then◌else◌,
}
use openbao_authorizer.Prelude.Int.{ℤ}
use openbao_authorizer.Prelude.Result.{Result, ok, err, fail_if, ◌>>=◌, ◌>>◌}
use openbao_authorizer.Text.Bytes.{Str, ◌==◌}
use openbao_authorizer.Text.Unicode.{trim_space}
use openbao_authorizer.Rules.Pattern.{is_empty}
use openbao_authorizer.Store.Sessions.{Session, SessionRow, SessionError, put_session}
use openbao_authorizer.Store.Subscriptions.{delete_subscriptions_by_entity}
use openbao_authorizer.Service.Model.{BaoError}
use openbao_authorizer.Service.Decide.{add_duration}
use openbao_authorizer.Api.Errors.{
  ApiError, api_error, invalid_argument, code_unauthenticated, code_permission_denied,
  reason_invalid_token, reason_not_approver, fixed, internal_error, openbao_unavailable,
  is_authoritative_token_error,
}
use openbao_authorizer.Api.Model.{
  ApproverIdentity, has_policy, LoginBao, Site, ServerOptions, Headers, Cookie, fails, called,
  end_session, session_cookie,
}

-- authorizerv1.Identity
pub record IdentityProto : Type 0 where
  pub entity_id : Str
  pub display_name : Str

unfoldable pub identity_proto : Session → IdentityProto
identity_proto s = record { entity_id = s.entity_id; display_name = s.display_name }

pub record SignIn : Type 0 where
  pub openbao_token : Str
  pub keep_token : Bool

-- The checks on the identity, once the token was looked up.
unfoldable pub check_identity :
    ServerOptions → Result BaoError ApproverIdentity → Result ApiError ApproverIdentity
unfolding openbao_unavailable api_error has_policy
check_identity o (err e) = err openbao_unavailable
check_identity o (ok identity) = do
  fail_if (is_empty identity.entity_id)
      (api_error code_permission_denied reason_not_approver fixed [])
  fail_if (is_empty o.approver_policy || not (has_policy identity o.approver_policy))
      (api_error code_permission_denied reason_not_approver fixed [])
  ok identity

-- OpenBao rejected the token itself.
abbrev pub rejected_token : Result BaoError ApproverIdentity → Bool
rejected_token (ok identity) = false
rejected_token (err e) = is_authoritative_token_error e

module _ {bao : LoginBao} where
  -- The token is revoked unless it is to be kept; a failure is only logged.
  unfoldable pub give_up_token : SignIn → Str → Site bao → Site bao
  give_up_token request token w =
      if request.keep_token then w else record w { server = (bao.revoke_self token w.server).1 }

module _ (fingerprint : Str → Str) {bao : LoginBao} where
  abbrev pub end_old : Option Str → Site bao → Site bao
  end_old none w = w
  end_old (some id) w = end_session fingerprint id w

  abbrev pub stored :
      ServerOptions
      → Session
      → Result SessionError (List SessionRow)
      → Site bao
      → Result ApiError (Session × Cookie) × Site bao
  stored o s (err e) w = (err internal_error, w)
  stored o s (ok rows) w =
      (ok (s, session_cookie o s.id s.expires_at), record w { sessions = rows })

  abbrev pub put_drawn :
      ServerOptions
      → ApproverIdentity
      → ℕ
      → List Str
      → Site bao
      → Result ApiError (Session × Cookie) × Site bao
  put_drawn o identity now [] w = (err internal_error, w)
  put_drawn o identity now (id ∷ ids) w =
      let s : Session = record {
        id = id;
        entity_id = identity.entity_id;
        display_name = identity.display_name;
        expires_at = add_duration now o.session_ttl;
      } in
      let w' = record w { tokens = ids } in
      if fails w'
      then (err internal_error, called w')
      else stored o s (put_session fingerprint s w'.sessions) (called w')

  -- From the checked identity on: the old session ends, and a new one is stored.
  unfoldable pub open_session :
      ServerOptions
      → ℕ
      → Option Str
      → Result ApiError ApproverIdentity
      → Site bao
      → Result ApiError (Session × Cookie) × Site bao
  unfolding end_session put_session session_cookie internal_error
  open_session o now cookie (err e) w = (err e, w)
  open_session o now cookie (ok identity) w =
      let w' = end_old cookie w in put_drawn o identity now w'.tokens w'

  abbrev pub looked_up :
      ServerOptions
      → Headers
      → SignIn
      → ℕ
      → Str
      → Result BaoError ApproverIdentity
      → Site bao
      → Result ApiError (Session × Cookie) × Site bao
  looked_up o headers request now token r w =
      if rejected_token r
      then (err (api_error code_unauthenticated reason_invalid_token fixed []), w)
      else open_session o now headers.cookie (check_identity o r) (give_up_token request token w)

  -- `CreateSession`: the session, and the cookie that the browser gets.
  unfoldable pub create_session :
      ServerOptions
      → Headers
      → SignIn
      → ℕ
      → Site bao
      → Result ApiError (Session × Cookie) × Site bao
  unfolding open_session give_up_token check_identity trim_space invalid_argument api_error
      is_authoritative_token_error
  create_session o headers request now w =
      let token = trim_space request.openbao_token in
      if is_empty token
      then (err (invalid_argument fixed), w)
      else let (r, server) = bao.lookup_self token w.server in
        looked_up o headers request now token r (record w { server = server })

  -- `Logout`: a failure to delete the subscriptions is only logged.
  unfoldable pub logout : ServerOptions → Session → Site bao → Cookie × Site bao
  unfolding end_session delete_subscriptions_by_entity session_cookie
  logout o s w =
      let w' = end_session fingerprint s.id w in
      let rows =
        if fails w'
        then w'.subscriptions
        else delete_subscriptions_by_entity s.entity_id w'.subscriptions in
      (session_cookie o [] 0, record (called w') { subscriptions = rows })
