-- ===== src/Service/Model.antt =====
-- The types of internal/grants/service.go, OpenBao as the service calls it, and the state that the
-- handlers work on.
use openbao_authorizer.Prelude.{ℕ, Bool, List, Option, ◌≡◌, none, some}
use openbao_authorizer.Prelude.Int.{ℤ}
use openbao_authorizer.Prelude.Result.{Result, ok}
use openbao_authorizer.Text.Bytes.{Str}
use openbao_authorizer.Rules.Model.{Policy}
use openbao_authorizer.Store.Model.{RequesterDisplay, StoreError}
use openbao_authorizer.Store.Rows.{Db}

-- internal/openbao: an HTTPError with its status code, or any other failure
pub data BaoError : Type 0 where
  http : ℕ → BaoError
  transport : BaoError

pub record Identity : Type 0 where
  pub entity_id : Str
  pub display_name : Str
  pub role : Str
  pub path : Str
  pub meta : List (Str × Str)

-- The `OpenBao` interface over a server whose states are left open.
pub record OpenBao : Type 1 where
  pub State : Type 0
  pub lookup_self : Str → State → Result BaoError Identity × State
  pub read_entity : Str → State → Result BaoError (List Str) × State
  pub set_entity_policies : Str → List Str → State → Result BaoError (Unit {0}) × State
  pub write_policy : Str → Str → ℕ → State → Result BaoError (Unit {0}) × State
  pub delete_policy : Str → State → Result BaoError (Unit {0}) × State
  pub capabilities_self : Str → List Str → State → Result BaoError (List (Str × List Str)) × State
  pub list : Str → State → Result BaoError (List Str) × State

pub record RequesterRule : Type 0 where
  pub name : Str
  pub token_role : Str
  pub auth_mount : Str

pub record Config : Type 0 where
  pub policy : Policy
  pub pending_ttl : ℤ
  pub requesters : List RequesterRule

pub record Requester : Type 0 where
  pub entity_id : Str
  pub display : RequesterDisplay

pub record Decision : Type 0 where
  pub item_id : Str
  pub approve : Bool
  pub ttl : Str

-- The messages of `InvalidError`.
pub data Invalid : Type 0 where
  reason_required reason_too_long reason_hidden item_count : Invalid
  decision_required ttl_on_rejection : Invalid
  item_unknown item_repeated ttl_malformed : Str → Invalid
  ttl_lengthens : ℤ → ℤ → Invalid

pub data ServiceError : Type 0 where
  invalid_token not_requester self_approval not_found ids_exhausted : ServiceError
  invalid : Invalid → ServiceError
  conflict : List Str → ServiceError
  store_failed : StoreError → ServiceError
  bao_failed : BaoError → ServiceError

-- What the service tells its notifier, and the wake-ups of `changeSignal`.
pub data Event : Type 0 where
  woken : Event
  request_changed : Str → Bool → Event
  grant_changed : Str → Event

-- What the handlers read and write: the database, OpenBao, the identifiers that `NewID` will draw
-- (none left is its error), which of the coming database calls fail, when expired Grants were last
-- announced (0 before the first call), and the events sent.
pub record World (bao : OpenBao) : Type 0 where
  pub db : Db
  pub server : bao.State
  pub ids : List Str
  pub faults : List Bool
  pub sweep_at : ℕ
  pub events : List Event

-- What the service relies on of OpenBao's policy store: a write or a deletion that OpenBao confirms
-- is what a later read of that name finds, and calls about entities change no policy.
pub record IsLawful (bao : OpenBao) : Type 0 where
  pub policy : Str → bao.State → Option (Str × ℕ)
  pub write_confirmed :
      (name document : Str) (expires_at : ℕ) (s : bao.State)
      → (bao.write_policy name document expires_at s).0 ≡ ok tt
      → policy name (bao.write_policy name document expires_at s).1 ≡ some (document, expires_at)
  pub delete_confirmed :
      (name : Str) (s : bao.State)
      → (bao.delete_policy name s).0 ≡ ok tt
      → policy name (bao.delete_policy name s).1 ≡ none
  pub read_keeps :
      (name entity_id : Str) (s : bao.State)
      → policy name (bao.read_entity entity_id s).1 ≡ policy name s
  pub attach_keeps :
      (name entity_id : Str) (policies : List Str) (s : bao.State)
      → policy name (bao.set_entity_policies entity_id policies s).1 ≡ policy name s
