-- ===== src/Api/Subscriptions/Registered.antt =====
-- What is registered, and what is left of an Approver after Logout.
use openbao_authorizer.Prelude.{
  ℕ, ◌≡◌, refl, sym, ap, Bool, true, false, not, List, [], All, In-All, keep-In, keep, Bool-cases,
  ltb, length, inl, inr, arith, ◌≢◌, ◌⊎◌, ◌≤◌, ◌&&◌, Option, none, some, ◌∷◌, In, subst,
}
use openbao_authorizer.Prelude.Result.{Result, ok, err}
use openbao_authorizer.Text.Bytes.{Str, bytes, ◌==◌, eq→≡, drop_last_set}
use openbao_authorizer.Rules.Pattern.{is_empty}
use openbao_authorizer.Store.Rows.{unseal}
use openbao_authorizer.Store.Sessions.{Session, delete_session}
use openbao_authorizer.Store.Subscriptions.{
  SubscriptionRow, subscription_row, put_subscription, nano_text, delete_subscriptions_by_entity,
}
use openbao_authorizer.Store.Subscriptions.Put.{
  subscription_row-IsStored, In-put_subscription, put_subscription-keeps, put_subscription-adds,
}
use openbao_authorizer.Api.Errors.{ApiError}
use openbao_authorizer.Api.Model.{LoginBao, Site, ServerOptions, end_session, fails}
use openbao_authorizer.Api.Sessions.{logout}
use openbao_authorizer.Api.Subscriptions.{
  SubscriptionUrl, Checks, RegisterMessage, has_length, is_https, is_allowed, check_subscription,
  subscription_of, store_checked, register_push_subscription,
}

check_subscription-ok :
    (checks : Checks) (message : RegisterMessage)
    → check_subscription checks message ≡ ok tt
    → (is_https (checks.parse_url message.endpoint) ≡ true)
      × (ltb 4096 (length message.endpoint) ≡ false)
      × (is_allowed checks.validate_endpoint message.endpoint ≡ true)
      × (has_length 65 (checks.decode (drop_last_set (bytes "=") message.p256dh)) ≡ true)
      × (has_length 16 (checks.decode (drop_last_set (bytes "=") message.auth)) ≡ true)
unfolding check_subscription
check_subscription-ok checks message h = ground arith

-- What may be registered: an endpoint that is an HTTPS URL with a host, of at most 4096 bytes, and
-- passes the validator, which is set; and keys of 65 and 16 bytes, up to the padding.
pub record IsRegistrable (checks : Checks) (message : RegisterMessage) : Type 0 where
  pub url : SubscriptionUrl
  pub parsed : checks.parse_url message.endpoint ≡ some url
  pub https : url.scheme ≡ bytes "https"
  pub has_host : url.host ≢ []
  pub short : length message.endpoint ≤ 4096
  pub validate : Str → Bool
  pub is_set : checks.validate_endpoint ≡ some validate
  pub allowed : validate message.endpoint ≡ true
  pub point : Str
  pub point_given : checks.decode (drop_last_set (bytes "=") message.p256dh) ≡ some point
  pub point_length : length point ≡ 65
  pub secret : Str
  pub secret_given : checks.decode (drop_last_set (bytes "=") message.auth) ≡ some secret
  pub secret_length : length secret ≡ 16

is_https-some :
    (parsed : Option SubscriptionUrl)
    → is_https parsed ≡ true
    → (url : SubscriptionUrl) × (parsed ≡ some url) × (url.scheme ≡ bytes "https") × (url.host ≢ [])
is_https-some none h = cc
is_https-some (some url) h =
    let (scheme, host) = both (url.scheme == bytes "https") (not (is_empty url.host)) h in
    (url, refl, eq→≡ url.scheme (bytes "https") scheme, filled url.host host)
  where
    both : (a b : Bool) → (a && b) ≡ true → (a ≡ true) × (b ≡ true)
    both a b h = ground arith

    filled : (s : Str) → not (is_empty s) ≡ true → s ≢ []
    filled [] h e = cc
    filled (b ∷ s) h e = cc

is_allowed-some :
    (validator : Option (Str → Bool)) (endpoint : Str)
    → is_allowed validator endpoint ≡ true
    → (validate : Str → Bool) × (validator ≡ some validate) × (validate endpoint ≡ true)
is_allowed-some none endpoint h = cc
is_allowed-some (some validate) endpoint h = (validate, refl, h)

has_length-some :
    (n : ℕ) (key : Option Str)
    → has_length n key ≡ true
    → (k : Str) × (key ≡ some k) × (length k ≡ n)
has_length-some n none h = cc
has_length-some n (some key) h = (key, refl, ground arith)

check_subscription-IsRegistrable :
    (checks : Checks) (message : RegisterMessage)
    → check_subscription checks message ≡ ok tt
    → IsRegistrable checks message
check_subscription-IsRegistrable checks message h =
    let (https, short, allowed, point, secret) = check_subscription-ok checks message h in
    let (url, parsed, scheme, host) = is_https-some _ https in
    let (validate, is_set, passes) = is_allowed-some _ _ allowed in
    let (point_key, point_given, point_length) = has_length-some 65 _ point in
    let (secret_key, secret_given, secret_length) = has_length-some 16 _ secret in
    record {
      url = url;
      parsed = parsed;
      https = scheme;
      has_host = host;
      short = at_most short;
      validate = validate;
      is_set = is_set;
      allowed = passes;
      point = point_key;
      point_given = point_given;
      point_length = point_length;
      secret = secret_key;
      secret_given = secret_given;
      secret_length = secret_length;
    }
  where
    at_most : ltb 4096 (length message.endpoint) ≡ false → length message.endpoint ≤ 4096
    at_most h = ground arith

module _ (date : ℕ → Str) (fingerprint : Str → Str) where
  -- After a subscription is registered: one row holds it, for the entity and the expiry of the
  -- session, and its content is read back; a row that was there is there still, or was of the same
  -- endpoint's fingerprint, and no other row is new.
  pub record IsRegistered (s : Session) (message : RegisterMessage) (now : ℕ)
      (rows rows' : List SubscriptionRow) : Type 0 where
    pub row : SubscriptionRow
    pub listed : In row rows'
    pub own_entity : row.entity_id ≡ s.entity_id
    pub same_endpoint : row.fingerprint ≡ fingerprint message.endpoint
    pub expiry : row.expires_at ≡ nano_text date s.expires_at
    pub updated : row.updated_at ≡ nano_text date now
    pub content :
        unseal row.payload row.fingerprint
        ≡ ok (record {
          entity_id = s.entity_id;
          endpoint = message.endpoint;
          p256dh = message.p256dh;
          auth = message.auth;
          expires_at = s.expires_at;
        })
    pub keeps : All (λ old. In old rows' ⊎ (old.fingerprint ≡ fingerprint message.endpoint)) rows
    pub adds : All (λ other. (other ≡ row) ⊎ In other rows) rows'

  put_subscription-IsRegistered :
      (s : Session) (message : RegisterMessage) (now : ℕ) (rows : List SubscriptionRow)
      → IsRegistered s message now rows
          (put_subscription date fingerprint (subscription_of s message) now rows)
  put_subscription-IsRegistered s message now rows =
      let subscription = subscription_of s message in
      let stored = subscription_row-IsStored date fingerprint subscription now in
      record {
        row = subscription_row date fingerprint subscription now;
        listed = In-put_subscription date fingerprint subscription now rows;
        own_entity = stored.entity_id;
        same_endpoint = stored.own_fingerprint;
        expiry = stored.expires_at;
        updated = stored.updated_at;
        content = stored.content;
        keeps = put_subscription-keeps date fingerprint subscription now rows;
        adds = put_subscription-adds date fingerprint subscription now rows;
      }

module _ (date : ℕ → Str) (fingerprint : Str → Str) {bao : LoginBao} where
  store_checked-ok :
      (s : Session) (message : RegisterMessage) (now : ℕ) (r : Result ApiError (Unit {0}))
      (w : Site bao) {w' : Site bao}
      → store_checked date fingerprint s message now r w ≡ (ok tt, w')
      → (r ≡ ok tt)
        × (w'.subscriptions
            ≡ put_subscription date fingerprint (subscription_of s message) now w.subscriptions)
        × (w'.sessions ≡ w.sessions)
  store_checked-ok s message now (err e) w h = cc
  store_checked-ok s message now (ok tt) w h = elim (Bool-cases (fails w)) [
    | inl e ↦ cc (rw e at h)
    | inr e ↦
        let left = ap (λ (x : Result ApiError (Unit {0}) × Site bao). x.1) (rw e at h) in
        (
          refl,
          ap (λ (x : Site bao). x.subscriptions) (sym left),
          ap (λ (x : Site bao). x.sessions) (sym left),
        )
  ]

  -- What is registered is an endpoint that the validator, which is set, allows, an HTTPS URL with
  -- a host, of at most 4096 bytes, with keys of 65 and 16 bytes. Afterwards a row holds the
  -- subscription, under the fingerprint of the endpoint, with the caller's own entity and the
  -- expiry of the caller's session, and its content is read back; every row that was there is
  -- there still, unless it had that fingerprint, no other row is new, and no session changes.
  pub register_push_subscription-IsAllowed :
      (checks : Checks) (s : Session) (message : RegisterMessage) (now : ℕ) (w w' : Site bao)
      → register_push_subscription date fingerprint checks s message now w ≡ (ok tt, w')
      → IsRegistrable checks message
        × IsRegistered date fingerprint s message now w.subscriptions w'.subscriptions
        × (w'.sessions ≡ w.sessions)
  unfolding register_push_subscription
  register_push_subscription-IsAllowed checks s message now w w' h =
      let (checked, stored, kept) =
        store_checked-ok s message now (check_subscription checks message) w h in
      (
        check_subscription-IsRegistrable checks message checked,
        subst (IsRegistered date fingerprint s message now w.subscriptions) (sym stored)
            (put_subscription-IsRegistered date fingerprint s message now w.subscriptions),
        kept,
      )

not-eq_true : (b : Bool) → not b ≡ true → b ≡ false
not-eq_true b h = ground arith

kept_without :
    {A : Type 0} (p : A → Bool) (l : List A) → All (λ a. p a ≡ false) (keep (λ a. not (p a)) l)
kept_without p l =
    In-All (λ a. p a ≡ false) (keep (λ a. not (p a)) l)
      (λ a m. not-eq_true (p a) (keep-In (λ x. not (p x)) l m).1)

module _ (fingerprint : Str → Str) {bao : LoginBao} where
  -- After Logout, when no call of the database fails, no row is left of the session, nor of any
  -- subscription of its entity.
  pub logout-gone :
      (o : ServerOptions) (s : Session) (w : Site bao)
      → w.faults ≡ []
      → All
          (λ row. (row.fingerprint == fingerprint s.id) ≡ false)
          (logout fingerprint o s w).1.sessions
        × All
            (λ row. (row.entity_id == s.entity_id) ≡ false)
            (logout fingerprint o s w).1.subscriptions
  unfolding logout end_session delete_session delete_subscriptions_by_entity
  logout-gone o s w h = rw h (
    kept_without (λ row. row.fingerprint == fingerprint s.id) w.sessions,
    kept_without (λ row. row.entity_id == s.entity_id) w.subscriptions,
  )
