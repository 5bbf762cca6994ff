-- ===== src/Api/Model.antt =====
-- The server of internal/api/server.go, and the state that its handlers work on.
use openbao_authorizer.Prelude.{
  ℕ, ◌+◌, Bool, true, false, ◌||◌, Option, none, some, List, [], ◌∷◌, if◌then◌else◌,
}
use openbao_authorizer.Prelude.Int.{ℤ}
use openbao_authorizer.Prelude.Result.{Result}
use openbao_authorizer.Text.Bytes.{Str, bytes, contains}
use openbao_authorizer.Store.Sessions.{SessionRow, delete_session}
use openbao_authorizer.Store.Subscriptions.{SubscriptionRow}
use openbao_authorizer.Service.Model.{BaoError}

-- internal/openbao's Identity, as far as the sign-in looks at it
pub record ApproverIdentity : Type 0 where
  pub entity_id : Str
  pub display_name : Str
  pub policies : List Str
  pub token_policies : List Str
  pub identity_policies : List Str

-- Identity.HasPolicy
unfoldable pub has_policy : ApproverIdentity → Str → Bool
has_policy i policy =
    contains i.policies policy
    || contains i.token_policies policy
    || contains i.identity_policies policy

-- The `OpenBao` interface of the API, over a server whose states are left open.
pub record LoginBao : Type 1 where
  pub State : Type 0
  pub lookup_self : Str → State → Result BaoError ApproverIdentity × State
  pub revoke_self : Str → State → Result BaoError (Unit {0}) × State

pub record ServerOptions : Type 0 where
  pub public_origin : Str
  pub approver_policy : Str
  pub insecure_cookies : Bool
  pub session_ttl : ℤ

-- What the handlers around sessions read and write: OpenBao, the tables, the tokens that `randomToken`
-- will draw (none left is its error), which of the coming database calls fail, and how often
-- `sessionDeleted` was closed.
pub record Site (bao : LoginBao) : Type 0 where
  pub server : bao.State
  pub sessions : List SessionRow
  pub subscriptions : List SubscriptionRow
  pub tokens : List Str
  pub faults : List Bool
  pub deletions : ℕ

-- The headers of a request, "" where one is missing, the Host, and the value of the session cookie.
pub record Headers : Type 0 where
  pub authorization : Str
  pub sec_fetch_site : Str
  pub origin : Str
  pub host : Str
  pub cookie : Option Str

abbrev pub take_fault : List Bool → Bool
take_fault [] = false
take_fault (fault ∷ faults) = fault

abbrev pub drop_fault : List Bool → List Bool
drop_fault [] = []
drop_fault (fault ∷ faults) = faults

module _ {bao : LoginBao} where
  -- Whether the next database call fails, and the state after it was made.
  abbrev pub fails : Site bao → Bool
  fails w = take_fault w.faults

  abbrev pub called : Site bao → Site bao
  called w = record w { faults = drop_fault w.faults }

  -- `deleteSession`: a failure is logged, and streams are woken all the same.
  unfoldable pub end_session : (Str → Str) → Str → Site bao → Site bao
  unfolding delete_session
  end_session fingerprint id w =
      let rows = if fails w then w.sessions else delete_session fingerprint id w.sessions in
      record (called w) { sessions = rows; deletions = w.deletions + 1 }

unfoldable pub cookie_name : ServerOptions → Str
cookie_name o =
    if o.insecure_cookies
    then bytes "openbao-authorizer-session"
    else bytes "__Host-openbao-authorizer-session"

-- The session cookie, less its path and its age in seconds; `expires` is `none` where it is to be forgotten.
pub record Cookie : Type 0 where
  pub name : Str
  pub content : Str
  pub secure : Bool
  pub http_only : Bool
  pub same_site_strict : Bool
  pub expires : Option ℕ

unfoldable pub session_cookie : ServerOptions → Str → ℕ → Cookie
unfolding cookie_name
session_cookie o content expires_at = record {
  name = cookie_name o;
  content = content;
  secure = if o.insecure_cookies then false else true;
  http_only = true;
  same_site_strict = true;
  expires = elim content [ [] ↦ none | b ∷ s ↦ some expires_at ];
}
