-- ===== src/Service/Sweeps.antt =====
-- `ExpirePending`, `AnnounceExpiredGrants` and one round of `Run`.
use openbao_authorizer.Prelude.{ℕ, false, List, [], ◌∷◌, map, if◌then◌else◌, eqb}
use openbao_authorizer.Prelude.Result.{ok}
use openbao_authorizer.Text.Bytes.{Str}
use openbao_authorizer.Store.Requests.{expire_pending_items}
use openbao_authorizer.Store.Grants.{expired_grants}
use openbao_authorizer.Service.Model.{OpenBao, World, Event, woken, request_changed, grant_changed}
use openbao_authorizer.Service.Exec.{Exec, pure, on_error, reads, writes, send, ◌>>=◌, ◌>>◌}

-- The events of a sweep: none when no request was affected.
abbrev pub sweep_events : List Str → List Event
sweep_events [] = []
sweep_events (id ∷ ids) = woken ∷ map (λ i. request_changed i false) (id ∷ ids)

module _ {bao : OpenBao} where
  -- The IDs that the transaction returns are those of the database that it starts from.
  unfoldable pub expire_pending : ℕ → Exec (World bao) (Unit {0})
  expire_pending now w =
      (do
        writes (λ db. ok (expire_pending_items now db).1)
        send (sweep_events (expire_pending_items now w.db).0))
        w

  unfoldable pub announce_expired_grants : ℕ → Exec (World bao) (Unit {0})
  announce_expired_grants now w =
      if eqb w.sweep_at 0
      then (ok tt, record w { sweep_at = now })
      else (do
        ids ← reads (λ db. ok (expired_grants w.sweep_at now db))
        λ v. (ok tt, record v { sweep_at = now })
        send (map grant_changed ids))
          w

  -- One round of the loop of `Run`: both errors are only logged.
  unfoldable pub run_once : (now later : ℕ) → Exec (World bao) (Unit {0})
  run_once now later = do
    on_error (expire_pending now) (λ e. pure tt)
    on_error (announce_expired_grants later) (λ e. pure tt)
