-- ===== src/Examples/Push.antt =====
-- The theorems on Web Push at one subscription.
use openbao_authorizer.Prelude.{ℕ, ◌≡◌, refl, ◌+◌, ◌*◌, false, none, some, List, [], ◌∷◌, arith}
use openbao_authorizer.Prelude.Result.{ok}
use openbao_authorizer.Text.Bytes.{Str, bytes}
use openbao_authorizer.Rules.Model.{second}
use openbao_authorizer.Store.Subscriptions.{
  Subscription, SubscriptionRow, subscriptions, put_subscription, subscription_row,
}
use openbao_authorizer.Store.Subscriptions.Late.{subscriptions-put_subscription}
use openbao_authorizer.Push.Address.{v4, quad}
use openbao_authorizer.Push.Endpoint.{Outside, PushConfig}
use openbao_authorizer.Push.Deliver.{PushWorld, answered, Delivery}
use openbao_authorizer.Examples.Data.{same_text}

abbrev browser : Subscription
browser = record {
  entity_id = bytes "e1";
  endpoint = bytes "https://push.example/1";
  p256dh = bytes "p";
  auth = bytes "a";
  expires_at = 100 * second;
}

abbrev date : ℕ → Str
date n = bytes "2006-01-02T15:04:05"

subscriptions-put_subscription_example :
    subscriptions date (100 * second + 5) (put_subscription date same_text browser 0 [])
    ≡ ok (browser ∷ [])
subscriptions-put_subscription_example =
    subscriptions-put_subscription date same_text browser 0 100 5 refl (omega arith)

abbrev outside : Outside
outside = record {
  parse_url = λ text. some (record {
    scheme = bytes "https";
    hostname = bytes "Push.example.";
    has_user = false;
    fragment = [];
    port = [];
  });
  lookup = λ host. some (v4 (quad 93 184 216 34) ∷ []);
  split_host_port = λ address. none;
}

abbrev world : PushWorld
world = record { respond = λ s. answered 201; delete_fails = λ endpoint. false }

abbrev config : PushConfig
config = record {
  public_key = bytes "k";
  private_key = bytes "p";
  subject = bytes "s";
  allowed_host_suffixes = bytes "example" ∷ [];
}

abbrev rows : List SubscriptionRow
rows = subscription_row date same_text browser 0 ∷ []

abbrev delivered : Delivery
delivered = record { rows = rows; sent = browser ∷ []; errors = [] }
