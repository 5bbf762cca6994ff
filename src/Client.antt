-- ===== src/Client.antt =====
-- internal/openbao/client.go: the calls of OpenBao over HTTP, which fill the service's `OpenBao`.
pub mod Lawful
use openbao_authorizer.Prelude.{
  ℕ, Bool, true, false, ◌&&◌, ◌||◌, not, Option, none, some, List, [], ◌∷◌, ◌++◌, if◌then◌else◌,
  leb, ltb, eqb,
}
use openbao_authorizer.Prelude.Result.{Result, ok, err, ◌>>=◌}
use openbao_authorizer.Text.Bytes.{Str, bytes, ◌==◌}
use openbao_authorizer.Rules.Pattern.{is_empty}
use openbao_authorizer.Service.Model.{OpenBao, BaoError, http, transport, Identity}

pub data Method : Type 0 where
  get_method post_method delete_method list_method : Method

-- The payloads, as they are before their JSON encoding, which does not fail for them.
pub data Payload : Type 0 where
  no_payload empty_payload : Payload
  policies_payload paths_payload : List Str → Payload
  policy_payload : Str → Str → Payload

-- A request as `call` builds it; the headers X-Vault-Token and X-Vault-Namespace are left out where
-- they are "".
pub record HttpRequest : Type 0 where
  pub method : Method
  pub path : Str
  pub token : Str
  pub namespace : Str
  pub payload : Payload

pub record HttpResponse : Type 0 where
  pub status : ℕ
  pub body : Str

-- The HTTP client with OpenBao behind it, over states that are left open; none for an error of the
-- transport.
pub record HttpServer : Type 1 where
  pub State : Type 0
  pub exchange : HttpRequest → State → Option HttpResponse × State

-- encoding/json on the envelopes, none where it fails: an entity that is missing is `none` inside, and
-- the capabilities of a path are decoded each for itself. Then url.PathEscape, and a time in RFC 3339.
pub record Codec : Type 0 where
  pub entity : Str → Option (Option (List Str))
  pub identity : Str → Option Identity
  pub capabilities : Str → Option (List (Str × Option (List Str)))
  pub keys : Str → Option (List Str)
  pub path_escape : Str → Str
  pub format_time : ℕ → Str

-- Client's own token and namespace
pub record Client : Type 0 where
  pub token : Str
  pub namespace : Str

abbrev pub is_success : ℕ → Bool
is_success status = leb 200 status && ltb status 300

-- The last part of `call`: what the envelope holds, `zero` where nothing was decoded into it.
abbrev decode_body : {E : Type 0} → (Str → Option E) → Str → Result BaoError E
decode_body decode body = elim (decode body) [ none ↦ err transport | some e ↦ ok e ]

abbrev pub on_response :
    {E : Type 0} → (Str → Option E) → E → Option HttpResponse → Result BaoError E
on_response decode zero none = err transport
on_response decode zero (some response) =
    if not (is_success response.status)
    then err (http response.status)
    else if eqb response.status 204
    then ok zero
    else decode_body decode response.body

-- Where the output is nil.
abbrev pub no_output : Option HttpResponse → Result BaoError (Unit {0})
no_output none = err transport
no_output (some response) = if is_success response.status then ok tt else err (http response.status)

-- A status of 404 read as `value`.
abbrev pub missing_as : {A : Type 0} → A → Result BaoError A → Result BaoError A
missing_as value (ok a) = ok a
missing_as value (err transport) = err transport
missing_as value (err (http status)) = if eqb status 404 then ok value else err (http status)

abbrev known_entity : Result BaoError (Option (List Str)) → Result BaoError (List Str)
known_entity (err e) = err e
known_entity (ok none) = err (http 404)
known_entity (ok (some policies)) = ok policies

abbrev raw_of : Str → List (Str × Option (List Str)) → Option (Option (List Str))
raw_of path [] = none
raw_of path ((other, raw) ∷ rest) = if other == path then some raw else raw_of path rest

abbrev with_raw :
    Str
    → Option (Option (List Str))
    → Result BaoError (List (Str × List Str))
    → Result BaoError (List (Str × List Str))
with_raw path none rest = rest
with_raw path (some none) rest = err transport
with_raw path (some (some capabilities)) (err e) = err e
with_raw path (some (some capabilities)) (ok rest) = ok ((path, capabilities) ∷ rest)

-- The loop of `CapabilitiesSelf` over the paths; a path that is missing in the answer is left out.
unfoldable pub select_capabilities :
    List Str → List (Str × Option (List Str)) → Result BaoError (List (Str × List Str))
unfolding ◌==◌
select_capabilities [] answer = ok []
select_capabilities (path ∷ paths) answer =
    with_raw path (raw_of path answer) (select_capabilities paths answer)

module _ (codec : Codec) where
  abbrev pub entity_path : Str → Str
  entity_path id = bytes "/v1/identity/entity/id/" ++ codec.path_escape id

  abbrev pub policy_path : Str → Str
  policy_path name = bytes "/v1/sys/policies/acl/" ++ codec.path_escape name

  module _ (client : Client) (server : HttpServer) where
    -- `call`, as far as the response.
    abbrev pub call :
        Method → Str → Str → Payload → server.State → Option HttpResponse × server.State
    call method path token payload s =
        server.exchange
          (record {
            method = method;
            path = path;
            token = token;
            namespace = client.namespace;
            payload = payload;
          })
          s

    abbrev pub then_read :
        {A : Type 0}
        → (Option HttpResponse → Result BaoError A)
        → Option HttpResponse × server.State
        → Result BaoError A × server.State
    then_read read (response, s) = (read response, s)

    unfoldable pub revoke_self : Str → server.State → Result BaoError (Unit {0}) × server.State
    revoke_self token s =
        then_read no_output
          (call post_method (bytes "/v1/auth/token/revoke-self") token empty_payload s)

    unfoldable pub read_entity : Str → server.State → Result BaoError (List Str) × server.State
    read_entity id s =
        then_read (λ r. known_entity (on_response codec.entity none r))
          (call get_method (entity_path id) client.token no_payload s)

    unfoldable pub set_entity_policies :
        Str → List Str → server.State → Result BaoError (Unit {0}) × server.State
    set_entity_policies id policies s =
        then_read no_output
          (call post_method (entity_path id) client.token (policies_payload policies) s)

    unfoldable pub http_write_policy :
        Str → Str → ℕ → server.State → Result BaoError (Unit {0}) × server.State
    http_write_policy name document expires_at s = then_read no_output (
        call post_method (policy_path name) client.token
          (policy_payload document (codec.format_time expires_at)) s)

    unfoldable pub delete_policy : Str → server.State → Result BaoError (Unit {0}) × server.State
    delete_policy name s =
        then_read (λ r. missing_as tt (no_output r))
          (call delete_method (policy_path name) client.token no_payload s)

    unfoldable pub capabilities_self :
        Str → List Str → server.State → Result BaoError (List (Str × List Str)) × server.State
    unfolding select_capabilities
    capabilities_self token paths s =
        then_read
          (λ r. do answer ← on_response codec.capabilities [] r; select_capabilities paths answer)
          (call post_method (bytes "/v1/sys/capabilities-self") token (paths_payload paths) s)

    -- A nil slice where there are no keys.
    unfoldable pub list_keys : Str → server.State → Result BaoError (List Str) × server.State
    list_keys path s =
        then_read (λ r. missing_as [] (on_response codec.keys [] r))
          (call list_method (bytes "/v1/" ++ path) client.token no_payload s)

    unfoldable pub lookup_self :
        Identity → Str → server.State → Result BaoError Identity × server.State
    lookup_self blank token s =
        then_read (on_response codec.identity blank)
          (call get_method (bytes "/v1/auth/token/lookup-self") token no_payload s)

abbrev pub blank_identity : Identity
blank_identity = record { entity_id = []; display_name = []; role = []; path = []; meta = [] }

-- The service's OpenBao is this client.
unfoldable pub client_bao : Codec → Client → HttpServer → OpenBao
unfolding revoke_self read_entity set_entity_policies http_write_policy delete_policy
    capabilities_self list_keys lookup_self
client_bao codec client server = record {
  State = server.State;
  lookup_self = lookup_self codec client server blank_identity;
  read_entity = read_entity codec client server;
  set_entity_policies = set_entity_policies codec client server;
  write_policy = http_write_policy codec client server;
  delete_policy = delete_policy codec client server;
  capabilities_self = capabilities_self codec client server;
  list = list_keys codec client server;
}
