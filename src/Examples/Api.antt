-- ===== src/Examples/Api.antt =====
-- The theorems on the API at one session, one sign-in, one Requester and one live stream.
use openbao_authorizer.Prelude.{
  ℕ, zero, suc, if◌then◌else◌, ◌≡◌, refl, Bool, true, false, some, List, [], ◌∷◌, ◌&&◌, here, map,
  arith,
}
use openbao_authorizer.Prelude.Int.{pos}
use openbao_authorizer.Prelude.Result.{Result, ok}
use openbao_authorizer.Text.Bytes.{Str, bytes, ◌==◌, cut}
use openbao_authorizer.Store.Model.{GrantRequest}
use openbao_authorizer.Store.Requests.{grant_request, grant_requests}
use openbao_authorizer.Store.Sessions.{Session, session_row}
use openbao_authorizer.Service.Model.{World, Identity, Requester}
use openbao_authorizer.Service.Create.Admission.{IsAdmitted}
use openbao_authorizer.Api.Errors.{ApiError}
use openbao_authorizer.Api.Render.{RequestProto, request_proto, grants_proto}
use openbao_authorizer.Api.Render.Hidden.{stripped, stripped_grant, request_proto-stripped}
use openbao_authorizer.Api.Model.{LoginBao, Site, ServerOptions, Headers}
use openbao_authorizer.Api.Auth.{bearer_token, other, authorize_approver}
use openbao_authorizer.Api.Auth.Admitted.{IsSameOrigin, IsCaller, authorize_approver-IsCaller}
use openbao_authorizer.Api.Sessions.{SignIn, create_session}
use openbao_authorizer.Api.Sessions.Created.{SignsIn, create_session-SignsIn}
use openbao_authorizer.Api.Handlers.{get_grant_request}
use openbao_authorizer.Api.Handlers.Owned.{get_grant_request-IsOwn}
use openbao_authorizer.Api.Streams.{
  Snapshot, Stream, Hub, Reachable, booted, stepped, opened, subscribed, catch_up, is_idle,
}
use openbao_authorizer.Api.Subscriptions.{Checks, RegisterMessage, register_push_subscription}
use openbao_authorizer.Api.Subscriptions.Registered.{
  IsRegistrable, IsRegistered, register_push_subscription-IsAllowed,
}
use openbao_authorizer.Api.Streams.Current.{Shown}
use openbao_authorizer.Api.Streams.Settles.{IsReadable, watch_events-Shown}
use openbao_authorizer.Examples.Data.{
  computation, own_session, same_text, noon, app_config, list_bao, world, tables, request,
  live_grant,
}

abbrev login_bao : LoginBao
login_bao = record {
  State = List Str;
  lookup_self = λ token revoked. (
    ok (record {
      entity_id = bytes "e9";
      display_name = bytes "ada";
      policies = bytes "approver" ∷ [];
      token_policies = [];
      identity_policies = [];
    }),
    revoked,
  );
  revoke_self = λ token revoked. (ok tt, token ∷ revoked);
}

abbrev options : ServerOptions
options = record {
  public_origin = bytes "https://bao.example";
  approver_policy = bytes "approver";
  insecure_cookies = false;
  session_ttl = pos 3_600_000_000_000;
}

abbrev headers : Headers
headers = record {
  authorization = bytes "Bearer t";
  sec_fetch_site = bytes "same-origin";
  origin = bytes "https://bao.example/";
  host = bytes "bao.example";
  cookie = some (bytes "s1");
}

abbrev site : Site login_bao
site = record {
  server = [];
  sessions = session_row same_text own_session ∷ [];
  subscriptions = [];
  tokens = bytes "s2" ∷ [];
  faults = [];
  deletions = 0;
}

abbrev ada : Session
ada = own_session

admitted :
    (authorize_approver same_text {bao = login_bao} options other headers noon site).0
    ≡ ok (some ada)
unfolding computation authorize_approver
admitted = refl

authorize_approver-IsCaller_example :
    IsSameOrigin options headers × IsCaller same_text other headers noon site.sessions (some ada)
authorize_approver-IsCaller_example =
    authorize_approver-IsCaller same_text options other headers noon site (some ada) admitted

abbrev sign_in : SignIn
sign_in = record { openbao_token = bytes " t\n"; keep_token = false }

create_session-SignsIn_example :
    SignsIn same_text {bao = login_bao} options noon headers sign_in site
      (create_session same_text options headers sign_in noon site)
create_session-SignsIn_example =
    create_session-SignsIn same_text {bao = login_bao} options noon headers sign_in site

request_proto-stripped_example :
    (request_proto request false ≡ request_proto (stripped request) false)
    × (grants_proto (live_grant ∷ []) false
        ≡ grants_proto (map stripped_grant (live_grant ∷ [])) false)
request_proto-stripped_example = request_proto-stripped request (live_grant ∷ [])

abbrev is_bearer : Str → Bool
is_bearer scheme = scheme == bytes "Bearer"

abbrev answered : Result ApiError RequestProto × World list_bao
answered = get_grant_request app_config is_bearer {bao = list_bao} headers (bytes "r1") world

answered-result : answered ≡ (ok (request_proto request false), answered.1)
unfolding computation get_grant_request cut
answered-result = refl

get_grant_request-IsOwn_example :
    (token : Str) × (identity : Identity) × (requester : Requester) × (r : GrantRequest)
    × (bearer_token is_bearer headers.authorization ≡ ok token)
    × ((list_bao.lookup_self token []).0 ≡ ok identity)
    × IsAdmitted app_config.requesters identity requester
    × (grant_request (bytes "r1") tables ≡ ok r)
    × (r.entity_id ≡ requester.entity_id)
    × (request_proto request false ≡ request_proto r false)
get_grant_request-IsOwn_example =
    get_grant_request-IsOwn app_config is_bearer headers (bytes "r1") world answered-result

abbrev has_none : {A : Type 0} → List A → Bool
has_none [] = true
has_none (x ∷ l) = false

has_none-eq : {A : Type 0} (l m : List A) → (has_none l && has_none m) ≡ true → l ≡ m
has_none-eq [] [] h = refl
has_none-eq [] (x ∷ m) h = cc
has_none-eq (x ∷ l) m h = cc

-- A comparison that finds snapshots equal only when they show nothing.
abbrev both_empty : Snapshot → Snapshot → Bool
both_empty s t =
    (has_none s.pending_requests && has_none t.pending_requests)
    && ((has_none s.decided_requests && has_none t.decided_requests)
        && (has_none s.active_grants && has_none t.active_grants))

all_three : (a b c : Bool) → (a && (b && c)) ≡ true → (a ≡ true) × (b ≡ true) × (c ≡ true)
all_three a b c h = ground arith

both_empty-eq : (s t : Snapshot) → both_empty s t ≡ true → s ≡ t
both_empty-eq s t h =
    let (p, d, a) = all_three _ _ _ h in
    let pending = has_none-eq s.pending_requests t.pending_requests p in
    let decided = has_none-eq s.decided_requests t.decided_requests d in
    let active = has_none-eq s.active_grants t.active_grants a in
    λ i. record {
      pending_requests = pending i;
      decided_requests = decided i;
      active_grants = active i;
    }

abbrev hub : Hub
hub = record { db = tables; due = 0; streams = subscribed ∷ [] }

reached : Reachable both_empty hub
reached = stepped (booted tables) (opened refl)

readable : IsReadable both_empty tables noon
unfolding computation grant_requests
readable = record {
  pending = request ∷ [];
  decided = [];
  active = _;
  pending_read = refl;
  decided_read = refl;
  active_read = refl;
}

watch_events-Shown_example :
    (y : Stream) × (catch_up both_empty 7 tables noon subscribed ≡ some y)
    × (is_idle y ≡ true)
    × Shown tables y
watch_events-Shown_example =
    watch_events-Shown both_empty both_empty-eq noon reached refl (here refl) readable

abbrev zeros : ℕ → Str
zeros zero = []
zeros (suc n) = 0 ∷ zeros n

abbrev keys_given : Checks
keys_given = record {
  parse_url = λ text. some (record { scheme = bytes "https"; host = bytes "push.example" });
  decode = λ text. if has_none text then some (zeros 16) else some (zeros 65);
  validate_endpoint = some (λ endpoint. endpoint == bytes "https://push.example/1");
}

abbrev browser : RegisterMessage
browser = record {
  endpoint = bytes "https://push.example/1";
  p256dh = bytes "BO=";
  auth = bytes "==";
}

abbrev plain_date : ℕ → Str
plain_date seconds = bytes "2026-01-02T15:04:05"

abbrev registration : Result ApiError (Unit {0}) × Site login_bao
registration =
    register_push_subscription plain_date same_text {bao = login_bao} keys_given ada browser noon
      site

registered : registration ≡ (ok tt, registration.1)
unfolding computation register_push_subscription
registered = refl

register_push_subscription-IsAllowed_example :
    IsRegistrable keys_given browser
    × IsRegistered plain_date same_text ada browser noon [] registration.1.subscriptions
    × (registration.1.sessions ≡ site.sessions)
register_push_subscription-IsAllowed_example =
    register_push_subscription-IsAllowed plain_date same_text keys_given ada browser noon site
      registration.1 registered
