-- ===== src/Service/Steps.antt =====
-- The service of internal/grants/service.go over time: its handlers one after the other, whatever each
-- returns, with anything happening to OpenBao and to the coming failures in between.
pub mod Life
use openbao_authorizer.Prelude.{ℕ, ◌≡◌, Option, List}
use openbao_authorizer.Text.Bytes.{Str}
use openbao_authorizer.Rules.Model.{Runtime, ItemInput}
use openbao_authorizer.Store.Model.{Approver}
use openbao_authorizer.Service.Model.{OpenBao, World, Config, Decision, Requester}
use openbao_authorizer.Service.Create.{create_request}
use openbao_authorizer.Service.Decide.{decide}
use openbao_authorizer.Service.Revoke.{revoke}
use openbao_authorizer.Service.Sweeps.{run_once}

module _ (rt : Runtime) (config : Config) {bao : OpenBao} where
  pub data ServiceStep (w v : World bao) : Type 0 where
    creates :
        (requester : Requester) (token text : Str) (inputs : List ItemInput) (now : ℕ)
        → v ≡ (create_request rt config requester token text inputs now w).1
        → ServiceStep w v
    decides :
        (approver : Approver) (id : Str) (decisions : List Decision) (now later : ℕ)
        (swept : Option ℕ)
        → v ≡ (decide rt config approver id decisions now later swept w).1
        → ServiceStep w v
    revokes :
        (approver : Approver) (grant_id : Str) (now later : ℕ)
        → v ≡ (revoke rt approver grant_id now later w).1
        → ServiceStep w v
    sweeps : (now later : ℕ) → v ≡ (run_once now later w).1 → ServiceStep w v
    elsewhere : v.db ≡ w.db → ServiceStep w v

  pub data Reaches (w : World bao) : World bao → Type 0 where
    stays : Reaches w w
    goes_on : {u v : World bao} → Reaches w u → ServiceStep u v → Reaches w v
