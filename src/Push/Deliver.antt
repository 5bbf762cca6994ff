-- ===== src/Push/Deliver.antt =====
-- `NewRequest`: one hint to each browser that is subscribed.
pub mod Safe
pub mod Requests
use openbao_authorizer.Prelude.{
  ℕ, Bool, true, false, ◌&&◌, ◌||◌, not, Option, none, some, List, [], ◌∷◌, ◌++◌, if◌then◌else◌,
  eqb, ltb, leb,
}
use openbao_authorizer.Prelude.Result.{Result, ok, err}
use openbao_authorizer.Text.Bytes.{Str, bytes}
use openbao_authorizer.Rules.Pattern.{is_empty}
use openbao_authorizer.Store.Model.{StoreError}
use openbao_authorizer.Store.Subscriptions.{
  Subscription, SubscriptionRow, subscriptions, delete_subscription,
}
use openbao_authorizer.Push.Address.{Ip}
use openbao_authorizer.Push.Endpoint.{Outside, PushConfig, PushError, validate_endpoint}

-- What the push service of a browser answers: an error of the sender, no response, or a status.
pub data Response : Type 0 where
  send_error no_response : Response
  answered : ℕ → Response

-- The errors that `NewRequest` joins.
pub data DeliveryError : Type 0 where
  delete_failed : Str → DeliveryError
  send_failed : DeliveryError
  bad_status : ℕ → DeliveryError

-- The table, the subscriptions that a hint was sent to, and the errors so far.
pub record Delivery : Type 0 where
  pub rows : List SubscriptionRow
  pub sent : List Subscription
  pub errors : List DeliveryError

-- The push services, and the deletions that the database refuses.
pub record PushWorld : Type 0 where
  pub respond : Subscription → Response
  pub delete_fails : Str → Bool

-- The hint, with net/url's QueryEscape: nothing of the request but its id.
unfoldable pub hint : (Str → Str) → Str → List (Str × Str)
hint query_escape id =
    (bytes "title", bytes "OpenBao access requested")
    ∷ (bytes "body", bytes "An agent session is waiting for an access decision.")
    ∷ (bytes "url", bytes "/?request=" ++ query_escape id)
    ∷ []

-- StatusNotFound or StatusGone
abbrev pub is_gone : Response → Bool
is_gone (answered status) = eqb status 404 || eqb status 410
is_gone _ = false

abbrev pub valid {ℓ κ} : {E : Type ℓ} {A : Type κ} → Result E A → Bool
valid (ok a) = true
valid (err e) = false

module _ (fingerprint : Str → Str) (world : PushWorld) where
  unfoldable pub drop_subscription : Str → Delivery → Delivery
  unfolding delete_subscription
  drop_subscription endpoint d =
      if world.delete_fails endpoint
      then record d { errors = d.errors ++ delete_failed endpoint ∷ [] }
      else record d { rows = delete_subscription fingerprint endpoint d.rows }

  abbrev add_error : DeliveryError → Delivery → Delivery
  add_error e d = record d { errors = d.errors ++ e ∷ [] }

  abbrev on_response : Subscription → Response → Delivery → Delivery
  on_response s send_error d = add_error send_failed d
  on_response s no_response d = d
  on_response s (answered status) d =
      if eqb status 404 || eqb status 410
      then drop_subscription s.endpoint d
      else if ltb status 200 || leb 300 status
      then add_error (bad_status status) d
      else d

  module _ (lower_wide : ℕ → ℕ) (out : Outside) (suffixes : List Str) where
    abbrev pub is_valid : Subscription → Bool
    is_valid s = valid (validate_endpoint lower_wide out suffixes s.endpoint)

    -- One round of the loop.
    unfoldable pub deliver : Subscription → Delivery → Delivery
    unfolding drop_subscription validate_endpoint
    deliver s d =
        if is_valid s
        then on_response s (world.respond s) (record d { sent = d.sent ++ s ∷ [] })
        else drop_subscription s.endpoint d

    unfoldable pub deliver_all : List Subscription → Delivery → Delivery
    unfolding deliver
    deliver_all [] d = d
    deliver_all (s ∷ rest) d = deliver_all rest (deliver s d)

    abbrev pub deliver_listed :
        Result StoreError (List Subscription) → List SubscriptionRow → Result StoreError Delivery
    deliver_listed (err e) rows = err e
    deliver_listed (ok listed) rows =
        ok (deliver_all listed (record { rows = rows; sent = []; errors = [] }))

    unfoldable pub new_request :
        PushConfig → (ℕ → Str) → ℕ → List SubscriptionRow → Result StoreError Delivery
    unfolding deliver_all subscriptions
    new_request config date now rows =
        if is_empty config.public_key
        then ok (record { rows = rows; sent = []; errors = [] })
        else deliver_listed (subscriptions date now rows) rows
