-- ===== src/Examples/Life.antt =====
-- The theorem on runs of the service at one run: a request is filed, one is decided, and the sweep runs.
use openbao_authorizer.Prelude.{refl, none, [], ◌∷◌}
use openbao_authorizer.Text.Bytes.{bytes}
use openbao_authorizer.Store.Keys.{IsSound}
use openbao_authorizer.Store.Advance.{Advances}
use openbao_authorizer.Service.Model.{World, Requester}
use openbao_authorizer.Service.Create.{create_request}
use openbao_authorizer.Service.Decide.{decide}
use openbao_authorizer.Service.Sweeps.{run_once}
use openbao_authorizer.Service.Steps.{Reaches, stays, goes_on, creates, decides, sweeps}
use openbao_authorizer.Service.Steps.Life.{reaches-Advances}
use openbao_authorizer.Examples.Data.{
  computation, plain_runtime, app_config, app_input, list_bao, world, tables, noon, display,
  approver, approve,
}

abbrev filer : Requester
filer = record { entity_id = bytes "e1"; display = display }

abbrev start : World list_bao
start = record world { ids = bytes "r2" ∷ bytes "i3" ∷ bytes "g1" ∷ [] }

abbrev filed : World list_bao
filed =
    (create_request plain_runtime app_config {bao = list_bao} filer (bytes "t") (bytes "deploy")
      (app_input ∷ []) noon start).1

abbrev settled : World list_bao
settled =
    (decide plain_runtime app_config {bao = list_bao} approver (bytes "r1") (approve ∷ []) noon noon
      none filed).1

abbrev swept : World list_bao
swept = (run_once {bao = list_bao} 63_000_009_000_000_000_000 63_000_009_000_000_000_000 settled).1

run : Reaches plain_runtime app_config start swept
run =
    goes_on
      (goes_on
        (goes_on stays (creates filer (bytes "t") (bytes "deploy") (app_input ∷ []) noon refl))
        (decides approver (bytes "r1") (approve ∷ []) noon noon none refl))
      (sweeps 63_000_009_000_000_000_000 63_000_009_000_000_000_000 refl)

tables-IsSound : IsSound tables
unfolding computation
tables-IsSound = ((refl, tt), ((λ m. elim m [ ]), tt))

reaches-Advances_example : Advances tables swept.db
reaches-Advances_example = reaches-Advances plain_runtime app_config run tables-IsSound
