-- ===== src/Api/Subscriptions.antt =====
-- The handlers of internal/api/approver.go on push subscriptions.
pub mod Registered
use openbao_authorizer.Prelude.{
  ℕ, Bool, true, false, ◌&&◌, ◌||◌, not, Option, none, some, List, [], ◌∷◌, if◌then◌else◌, ltb, eqb,
  length,
}
use openbao_authorizer.Prelude.Result.{Result, ok, err, fail_if, ◌>>=◌, ◌>>◌}
use openbao_authorizer.Text.Bytes.{Str, bytes, ◌==◌, drop_last_set}
use openbao_authorizer.Rules.Pattern.{is_empty}
use openbao_authorizer.Store.Sessions.{Session}
use openbao_authorizer.Store.Subscriptions.{
  Subscription, SubscriptionRow, put_subscription, delete_subscription_for_entity,
}
use openbao_authorizer.Api.Errors.{ApiError, invalid_argument, internal_error, fixed}
use openbao_authorizer.Api.Model.{LoginBao, Site, fails, called}

-- net/url.URL, as the handler looks at it
pub record SubscriptionUrl : Type 0 where
  pub scheme : Str
  pub host : Str

-- url.Parse and base64.RawURLEncoding, none for an error, and `ValidatePushEndpoint`, if it is set.
pub record Checks : Type 0 where
  pub parse_url : Str → Option SubscriptionUrl
  pub decode : Str → Option Str
  pub validate_endpoint : Option (Str → Bool)

pub record RegisterMessage : Type 0 where
  pub endpoint : Str
  pub p256dh : Str
  pub auth : Str

abbrev pub is_https : Option SubscriptionUrl → Bool
is_https none = false
is_https (some url) = url.scheme == bytes "https" && not (is_empty url.host)

abbrev pub has_length : ℕ → Option Str → Bool
has_length n none = false
has_length n (some key) = eqb (length key) n

abbrev pub is_allowed : Option (Str → Bool) → Str → Bool
is_allowed none endpoint = false
is_allowed (some validate) endpoint = validate endpoint

-- The checks before the subscription is stored.
unfoldable pub check_subscription : Checks → RegisterMessage → Result ApiError (Unit {0})
unfolding invalid_argument ◌==◌ drop_last_set
check_subscription checks message = do
  fail_if (not (is_https (checks.parse_url message.endpoint)) || ltb 4096 (length message.endpoint))
      (invalid_argument fixed)
  fail_if
      (not (has_length 65 (checks.decode (drop_last_set (bytes "=") message.p256dh)))
        || not (has_length 16 (checks.decode (drop_last_set (bytes "=") message.auth))))
      (invalid_argument fixed)
  fail_if (not (is_allowed checks.validate_endpoint message.endpoint)) (invalid_argument fixed)
  ok tt

abbrev pub subscription_of : Session → RegisterMessage → Subscription
subscription_of s message = record {
  entity_id = s.entity_id;
  endpoint = message.endpoint;
  p256dh = message.p256dh;
  auth = message.auth;
  expires_at = s.expires_at;
}

module _ (date : ℕ → Str) (fingerprint : Str → Str) {bao : LoginBao} where
  abbrev pub store_checked :
      Session
      → RegisterMessage
      → (now : ℕ) → Result ApiError (Unit {0})
      → Site bao
      → Result ApiError (Unit {0}) × Site bao
  store_checked s message now (err e) w = (err e, w)
  store_checked s message now (ok tt) w = if fails w then (err internal_error, called w) else (
    ok tt,
    record (called w) {
      subscriptions =
          put_subscription date fingerprint (subscription_of s message) now w.subscriptions;
    },
  )

  -- `RegisterPushSubscription`, for the session of the caller.
  unfoldable pub register_push_subscription :
      Checks
      → Session
      → RegisterMessage
      → (now : ℕ) → Site bao
      → Result ApiError (Unit {0}) × Site bao
  unfolding check_subscription put_subscription internal_error
  register_push_subscription checks s message now w =
      store_checked s message now (check_subscription checks message) w

  -- `DeletePushSubscription`
  unfoldable pub delete_push_subscription :
      Session → Str → Site bao → Result ApiError (Unit {0}) × Site bao
  unfolding invalid_argument internal_error delete_subscription_for_entity
  delete_push_subscription s endpoint w =
      if is_empty endpoint
      then (err (invalid_argument fixed), w)
      else if fails w
      then (err internal_error, called w)
      else (
        ok tt,
        record (called w) {
          subscriptions =
              delete_subscription_for_entity fingerprint s.entity_id endpoint w.subscriptions;
        },
      )
