-- ===== src/Store/Subscriptions.antt =====
-- internal/store/store.go on `subscriptions`: browsers that get Web Push hints. The keyed fingerprint
-- of an endpoint is a parameter, and so is the date of a second, "2006-01-02T15:04:05" in UTC.
pub mod Late
pub mod Put
use openbao_authorizer.Prelude.{
  ℕ, ◌+◌, ◌*◌, ◌/◌, ◌%◌, Bool, true, false, ◌&&◌, not, List, [], ◌∷◌, ◌++◌, if◌then◌else◌, eqb, any,
  keep,
}
use openbao_authorizer.Prelude.Result.{Result, ok, err, ◌>>=◌}
use openbao_authorizer.Text.Bytes.{Str, bytes, ◌==◌, drop_last_set}
use openbao_authorizer.Rules.Model.{second}
use openbao_authorizer.Rules.Capability.{str_lt}
use openbao_authorizer.Store.Model.{StoreError}
use openbao_authorizer.Store.Rows.{Sealed, seal, unseal}

pub record Subscription : Type 0 where
  pub entity_id : Str
  pub endpoint : Str
  pub p256dh : Str
  pub auth : Str
  pub expires_at : ℕ

pub record SubscriptionRow : Type 0 where
  pub fingerprint : Str
  pub entity_id : Str
  pub payload : Sealed Subscription
  pub expires_at : Str
  pub updated_at : Str

abbrev digit : ℕ → ℕ
digit n = b'0' + n % 10

-- The nine digits of a number of nanoseconds.
abbrev nine_digits : ℕ → Str
nine_digits n =
    digit (n / 100_000_000)
    ∷ digit (n / 10_000_000)
    ∷ digit (n / 1_000_000)
    ∷ digit (n / 100_000)
    ∷ digit (n / 10_000)
    ∷ digit (n / 1_000)
    ∷ digit (n / 100)
    ∷ digit (n / 10)
    ∷ digit n
    ∷ []

-- The fraction of a second in RFC3339Nano, which leaves out zeros at its end, and all of it at zero.
unfoldable pub fraction : ℕ → Str
unfolding drop_last_set
fraction n = if eqb n 0 then [] else b'.' ∷ drop_last_set (bytes "0") (nine_digits n)

unfoldable pub open_rows : List SubscriptionRow → Result StoreError (List Subscription)
unfolding unseal
open_rows [] = ok []
open_rows (row ∷ rows) = do
  s ← unseal row.payload row.fingerprint
  rest ← open_rows rows
  ok (s ∷ rest)

module _ (date : ℕ → Str) where
  -- t.UTC().Format(time.RFC3339Nano)
  unfoldable pub nano_text : ℕ → Str
  unfolding fraction
  nano_text t = date (t / second) ++ (fraction (t % second) ++ b'Z' ∷ [])

  module _ (fingerprint : Str → Str) where
    unfoldable pub subscription_row : Subscription → ℕ → SubscriptionRow
    unfolding seal
    subscription_row s now = record {
      fingerprint = fingerprint s.endpoint;
      entity_id = s.entity_id;
      payload = seal s (fingerprint s.endpoint);
      expires_at = nano_text s.expires_at;
      updated_at = nano_text now;
    }

    -- ON CONFLICT(fingerprint) DO UPDATE
    unfoldable pub put_subscription : Subscription → ℕ → List SubscriptionRow → List SubscriptionRow
    unfolding subscription_row ◌==◌
    put_subscription s now [] = subscription_row s now ∷ []
    put_subscription s now (row ∷ rows) =
        let rest = put_subscription s now rows in
        if row.fingerprint == fingerprint s.endpoint
        then subscription_row s now ∷ rows
        else row ∷ rest

  -- `Subscriptions`: the expiry is compared as a text.
  unfoldable pub subscriptions : ℕ → List SubscriptionRow → Result StoreError (List Subscription)
  unfolding open_rows
  subscriptions now rows = open_rows (keep (λ row. str_lt (nano_text now) row.expires_at) rows)

unfoldable pub delete_subscriptions_by_entity : Str → List SubscriptionRow → List SubscriptionRow
unfolding ◌==◌
delete_subscriptions_by_entity entity_id rows = keep (λ row. not (row.entity_id == entity_id)) rows

module _ (fingerprint : Str → Str) where
  -- DeleteSubscription
  unfoldable pub delete_subscription : Str → List SubscriptionRow → List SubscriptionRow
  unfolding ◌==◌
  delete_subscription endpoint rows =
      keep (λ row. not (row.fingerprint == fingerprint endpoint)) rows

  unfoldable pub delete_subscription_for_entity :
      Str → Str → List SubscriptionRow → List SubscriptionRow
  unfolding ◌==◌
  delete_subscription_for_entity entity_id endpoint rows =
      keep (λ row. not (row.fingerprint == fingerprint endpoint && row.entity_id == entity_id)) rows
