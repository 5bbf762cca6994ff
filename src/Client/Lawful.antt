-- ===== src/Client/Lawful.antt =====
-- What the service relies on of OpenBao's policies, through the client, over a server that answers as
-- OpenBao's HTTP API is documented to.
use openbao_authorizer.Prelude.{
  ℕ, ◌≡◌, refl, Bool, true, false, ◌||◌, Option, none, some, List, eqb, if◌then◌else◌, Bool-cases,
  inl, inr,
}
use openbao_authorizer.Prelude.Result.{Result, ok, err}
use openbao_authorizer.Text.Bytes.{Str}
use openbao_authorizer.Service.Model.{BaoError, http}
use openbao_authorizer.Client.{
  Client, Codec, HttpServer, HttpRequest, HttpResponse, post_method, delete_method, no_payload,
  policy_payload, policy_path, entity_path, is_success, no_output, missing_as, call,
  http_write_policy, delete_policy, read_entity, set_entity_policies,
}

-- The ACL policies of OpenBao as its HTTP API shows them: a POST that succeeds stores the policy, after
-- a DELETE that succeeds or finds nothing there is none, and requests on entities change none.
pub record IsPolicyServer (codec : Codec) (server : HttpServer) : Type 0 where
  pub policy : Str → server.State → Option (Str × Str)
  pub stores :
      (client : Client) (name document expiration : Str) (s : server.State) (r : HttpResponse)
      → (call codec client server post_method
          (policy_path codec name)
          client.token
          (policy_payload document expiration)
          s).0
        ≡ some r
      → is_success r.status ≡ true
      → policy name
          (call codec client server post_method
            (policy_path codec name)
            client.token
            (policy_payload document expiration)
            s).1
        ≡ some (document, expiration)
  pub removes :
      (client : Client) (name : Str) (s : server.State) (r : HttpResponse)
      → (call codec client server delete_method
          (policy_path codec name)
          client.token
          no_payload
          s).0
        ≡ some r
      → (is_success r.status || eqb r.status 404) ≡ true
      → policy name
          (call codec client server delete_method
            (policy_path codec name)
            client.token
            no_payload
            s).1
        ≡ none
  pub entities_keep :
      (request : HttpRequest) (id name : Str) (s : server.State)
      → request.path ≡ entity_path codec id
      → policy name (server.exchange request s).1 ≡ policy name s

no_output-ok :
    (r : Option HttpResponse)
    → no_output r ≡ ok tt
    → (response : HttpResponse) × (r ≡ some response) × (is_success response.status ≡ true)
no_output-ok none h = cc
no_output-ok (some response) h = elim (Bool-cases (is_success response.status)) [
  | inl e ↦ (response, refl, e)
  | inr e ↦ cc (rw e at h)
]

read_404 :
    (b : Bool) (e : BaoError)
    → ◌≡◌ {A = Result BaoError (Unit {0})} (if b then ok tt else err e) (ok tt)
    → b ≡ true
read_404 true e k = refl
read_404 false e k = cc

missing-ok :
    (r : Option HttpResponse)
    → missing_as tt (no_output r) ≡ ok tt
    → (response : HttpResponse) × (r ≡ some response)
      × ((is_success response.status || eqb response.status 404) ≡ true)
missing-ok none h = cc
missing-ok (some response) h = elim (Bool-cases (is_success response.status)) [
  | inl e ↦ (response, refl, rw e refl)
  | inr e ↦
      (response, refl, rw e (read_404 (eqb response.status 404) (http response.status) (rw e at h)))
]

module _ (codec : Codec) (client : Client) (server : HttpServer)
    (lawful : IsPolicyServer codec server) where
  pub http_write_policy-stored :
      (name document : Str) (expires_at : ℕ) (s : server.State)
      → (http_write_policy codec client server name document expires_at s).0 ≡ ok tt
      → lawful.policy name (http_write_policy codec client server name document expires_at s).1
        ≡ some (document, codec.format_time expires_at)
  unfolding http_write_policy
  http_write_policy-stored name document expires_at s h =
      let (r, e, good) = no_output-ok _ h in
      lawful.stores client name document (codec.format_time expires_at) s r e good

  pub delete_policy-gone :
      (name : Str) (s : server.State)
      → (delete_policy codec client server name s).0 ≡ ok tt
      → lawful.policy name (delete_policy codec client server name s).1 ≡ none
  unfolding delete_policy
  delete_policy-gone name s h =
      let (r, e, gone) = missing-ok _ h in lawful.removes client name s r e gone

  pub entity_calls_keep_policies :
      (name id : Str) (policies : List Str) (s : server.State)
      → (lawful.policy name (read_entity codec client server id s).1 ≡ lawful.policy name s)
        × (lawful.policy name (set_entity_policies codec client server id policies s).1
            ≡ lawful.policy name s)
  unfolding read_entity set_entity_policies
  entity_calls_keep_policies name id policies s =
      (lawful.entities_keep _ id name s refl, lawful.entities_keep _ id name s refl)
