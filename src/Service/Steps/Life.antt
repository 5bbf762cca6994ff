-- ===== src/Service/Steps/Life.antt =====
-- What becomes of stored requests over any run of the service.
use openbao_authorizer.Prelude.{
  ℕ, ◌≡◌, refl, sym, subst, Bool-cases, ◌⊎◌, inl, inr, arith, Option, List, [], ◌∷◌, eqb,
}
use openbao_authorizer.Prelude.Result.{Result, ok, ok-injective}
use openbao_authorizer.Text.Bytes.{Str}
use openbao_authorizer.Text.Unicode.{trim_space}
use openbao_authorizer.Rules.Model.{Runtime, ItemInput}
use openbao_authorizer.Store.Model.{StoreError, Approver, Grant, GrantRequest, Item}
use openbao_authorizer.Store.Rows.{Db}
use openbao_authorizer.Store.Requests.{create_grant_request, expire_pending_items, grant_request}
use openbao_authorizer.Store.Grants
use openbao_authorizer.Store.Grants.{active_grants, revoke_grant, expired_grants}
use openbao_authorizer.Store.Keys.{IsSound}
use openbao_authorizer.Store.Evolution.{RowsEvolve-refl}
use openbao_authorizer.Store.Advance.{
  Advances, Advances-trans, create_grant_request-Advances, revoke_grant-Advances,
  expire_pending_items-Advances,
}
use openbao_authorizer.Service.Model.{OpenBao, World, Config, Decision, Requester, ServiceError}
use openbao_authorizer.Service.Exec.{Exec, pure, on_error, reads, writes, calls, new_id, ◌>>◌}
use openbao_authorizer.Service.Exec.Tables.{
  KeepsTables, reads-KeepsTables, calls-KeepsTables, on_error-KeepsTables, bind-KeepsTables,
}
use openbao_authorizer.Service.Exec.Preserves.{
  Preserves, bind-Preserves, on_error-Preserves, if-Preserves, KeepsTables-Preserves,
  writes-Preserves, new_id-KeepsTables,
}
use openbao_authorizer.Service.Policy.{write_policy, restore_policy}
use openbao_authorizer.Service.Policy.Tables.{write_policy-KeepsTables, restore_policy-KeepsTables}
use openbao_authorizer.Service.Create.{
  Filed, file_items, check_granted, file_request, create_request,
}
use openbao_authorizer.Service.Decide.{hide_missing, decide_locked, decide}
use openbao_authorizer.Service.Decide.Evolving.{decide_locked-Advances}
use openbao_authorizer.Service.Revoke.{revoke_locked, revoke, changed_is_conflict, without}
use openbao_authorizer.Service.Sweeps.{expire_pending, announce_expired_grants, run_once}
use openbao_authorizer.Service.Steps.{
  ServiceStep, creates, decides, revokes, sweeps, elsewhere, Reaches, stays, goes_on,
}

module _ (rt : Runtime) (config : Config) (origin : Db) {bao : OpenBao} where
  -- A further advance from the tables that the run started with.
  advance :
      (m : Db → Result _ Db)
      → ((db db' : Db) → IsSound db → m db ≡ ok db' → Advances db db')
      → Preserves (Advances origin) (writes {bao = bao} m)
  advance m step =
      writes-Preserves (Advances origin) m
        (λ db db' so_far h. Advances-trans origin db db' so_far (step db db' so_far.0 h))

  quiet : {A : Type 0} (m : Exec (World bao) A) → KeepsTables m → Preserves (Advances origin) m
  quiet m keeps = KeepsTables-Preserves (Advances origin) m keeps

  file_items-KeepsTables :
      (inputs : List ItemInput) (f : Filed)
      → KeepsTables (file_items rt config {bao = bao} f inputs)
  unfolding file_items
  file_items-KeepsTables [] f = λ w. refl
  file_items-KeepsTables (input ∷ inputs) f =
      bind-KeepsTables new_id _ new_id-KeepsTables (λ id. file_items-KeepsTables inputs _)

  check_granted-KeepsTables :
      (token : Str) (paths : List Str) (items : List Item)
      → KeepsTables (check_granted rt config {bao = bao} token paths items)
  unfolding check_granted
  check_granted-KeepsTables token [] items = λ w. refl
  check_granted-KeepsTables token (path ∷ paths) items =
      bind-KeepsTables
        (on_error (calls (bao.capabilities_self token (path ∷ paths))) (λ e. pure [])) _
        (on_error-KeepsTables (calls (bao.capabilities_self token (path ∷ paths))) _
          (calls-KeepsTables (bao.capabilities_self token (path ∷ paths))) (λ e w. refl))
        (λ granted w. refl)

  file_request-Advances :
      (requester : Requester) (token reason : Str) (inputs : List ItemInput) (now : ℕ)
      → Preserves
          (Advances origin)
          (file_request rt config {bao = bao} requester token reason inputs now)
  unfolding file_request
  file_request-Advances requester token reason inputs now =
      bind-Preserves (Advances origin) new_id _ (quiet new_id new_id-KeepsTables) (λ id.
        bind-Preserves (Advances origin) (file_items rt config _ inputs) _
          (quiet (file_items rt config _ inputs) (file_items-KeepsTables inputs _))
          (λ f.
            bind-Preserves (Advances origin) (check_granted rt config token f.paths f.items) _
              (quiet (check_granted rt config token f.paths f.items)
                (check_granted-KeepsTables token f.paths f.items))
              (λ items.
                bind-Preserves (Advances origin) (writes (create_grant_request _)) _
                  (advance (create_grant_request _) (create_grant_request-Advances _))
                  (λ u v p. p))))

  -- A request that the first checks refuse changes nothing.
  create_request-cases :
      (requester : Requester) (token text : Str) (inputs : List ItemInput) (now : ℕ) (w : World bao)
      → ((create_request rt config requester token text inputs now w).1 ≡ w)
        ⊎ (create_request rt config requester token text inputs now w
            ≡ file_request rt config requester token (trim_space text) inputs now w)
  unfolding create_request
  create_request-cases requester token text inputs now w = ground arith

  create_request-Advances :
      (requester : Requester) (token text : Str) (inputs : List ItemInput) (now : ℕ)
      → Preserves
          (Advances origin)
          (create_request rt config {bao = bao} requester token text inputs now)
  create_request-Advances requester token text inputs now w p =
      elim (create_request-cases requester token text inputs now w) [
        | inl same ↦ subst (λ (x : World bao). Advances origin x.db) (sym same) p
        | inr filed ↦
            subst (λ (x : Result ServiceError GrantRequest × World bao). Advances origin x.1.db)
              (sym filed) (file_request-Advances requester token (trim_space text) inputs now w p)
      ]

  found-KeepsTables :
      {A : Type 0} (m : Db → Result StoreError A)
      → KeepsTables (on_error (reads {bao = bao} m) hide_missing)
  found-KeepsTables m =
      on_error-KeepsTables (reads m) hide_missing (reads-KeepsTables m) (λ e w. ground arith)

  decide-Advances :
      (approver : Approver) (id : Str) (decisions : List Decision) (now later : ℕ)
      (swept : Option ℕ)
      → Preserves
          (Advances origin)
          (decide rt config {bao = bao} approver id decisions now later swept)
  unfolding decide
  decide-Advances approver id [] now later swept = λ w p. p
  decide-Advances approver id (d ∷ ds) now later swept =
      bind-Preserves (Advances origin) (on_error (reads (grant_request id)) hide_missing) _
        (quiet (on_error (reads (grant_request id)) hide_missing)
          (found-KeepsTables (grant_request id)))
        (λ request.
          if-Preserves (Advances origin) _ _ _ (λ w p. p)
            (bind-Preserves (Advances origin)
              (decide_locked rt config approver id (d ∷ ds) now later swept) _
              (λ w p.
                Advances-trans origin w.db
                  (decide_locked rt config approver id (d ∷ ds) now later swept w).1.db p
                  (decide_locked-Advances rt config approver id (d ∷ ds) now later swept w p.0))
              (λ x w p. p)))

  changed_is_conflict-KeepsTables :
      (id : Str) (e : ServiceError)
      → KeepsTables {bao = bao} (changed_is_conflict {A = Unit {0}} id e)
  changed_is_conflict-KeepsTables id e w = ground arith

  revoke_locked-Advances :
      (approver : Approver) (grant : Grant) (now later : ℕ)
      → Preserves (Advances origin) (revoke_locked rt {bao = bao} approver grant now later)
  unfolding revoke_locked
  revoke_locked-Advances approver grant now later =
      bind-Preserves (Advances origin) (reads (active_grants grant.entity_id now)) _
        (quiet (reads (active_grants grant.entity_id now))
          (reads-KeepsTables (active_grants grant.entity_id now)))
        (λ active.
          if-Preserves (Advances origin) _ _ _ (λ w p. p)
            (bind-Preserves (Advances origin)
              (write_policy rt grant.entity_id (without grant.id active)) _
              (quiet (write_policy rt grant.entity_id (without grant.id active))
                (write_policy-KeepsTables rt grant.entity_id (without grant.id active)))
              (λ u.
                on_error-Preserves (Advances origin) (writes (revoke_grant grant.id approver now)) _
                  (advance (revoke_grant grant.id approver now)
                    (revoke_grant-Advances grant.id approver now))
                  (λ e.
                    quiet
                      (restore_policy rt grant.entity_id later >> changed_is_conflict grant.id e)
                      (bind-KeepsTables (restore_policy rt grant.entity_id later) _
                        (restore_policy-KeepsTables rt grant.entity_id later)
                        (λ v. changed_is_conflict-KeepsTables grant.id e))))))

  revoke-Advances :
      (approver : Approver) (grant_id : Str) (now later : ℕ)
      → Preserves (Advances origin) (revoke rt {bao = bao} approver grant_id now later)
  unfolding revoke
  revoke-Advances approver grant_id now later =
      bind-Preserves (Advances origin) (on_error (reads (Grants.grant grant_id)) hide_missing) _
        (quiet (on_error (reads (Grants.grant grant_id)) hide_missing)
          (found-KeepsTables (Grants.grant grant_id)))
        (λ grant.
          bind-Preserves (Advances origin) (revoke_locked rt approver grant now later) _
            (revoke_locked-Advances approver grant now later) (λ u w p. p))

  expire_pending-Advances : (now : ℕ) → Preserves (Advances origin) (expire_pending {bao = bao} now)
  unfolding expire_pending
  expire_pending-Advances now w =
      bind-Preserves (Advances origin) (writes (λ db. ok (expire_pending_items now db).1)) _
        (advance (λ db. ok (expire_pending_items now db).1)
          (λ db db' sound h.
            subst (Advances db) (ok-injective h) (expire_pending_items-Advances now db sound)))
        (λ u v p. p) w

  announce_expired_grants-Advances :
      (now : ℕ) → Preserves (Advances origin) (announce_expired_grants {bao = bao} now)
  unfolding announce_expired_grants
  announce_expired_grants-Advances now w p = elim (Bool-cases (eqb w.sweep_at 0)) [
    | inl e ↦ rw e p
    | inr e ↦ rw e (
        bind-Preserves (Advances origin) (reads (λ db. ok (expired_grants w.sweep_at now db))) _
          (quiet (reads (λ db. ok (expired_grants w.sweep_at now db)))
            (reads-KeepsTables (λ db. ok (expired_grants w.sweep_at now db))))
          (λ ids v q. q) w p)
  ]

  run_once-Advances : (now later : ℕ) → Preserves (Advances origin) (run_once {bao = bao} now later)
  unfolding run_once
  run_once-Advances now later =
      bind-Preserves (Advances origin) (on_error (expire_pending now) (λ e. pure tt)) _
        (on_error-Preserves (Advances origin) (expire_pending now) _ (expire_pending-Advances now)
          (λ e w p. p))
        (λ u.
          on_error-Preserves (Advances origin) (announce_expired_grants later) _
            (announce_expired_grants-Advances later) (λ e w p. p))

  ServiceStep-Advances :
      {w v : World bao} → ServiceStep rt config w v → Advances origin w.db → Advances origin v.db
  ServiceStep-Advances {w} (creates requester token text inputs now e) p =
      subst (λ (x : World bao). Advances origin x.db) (sym e)
        (create_request-Advances requester token text inputs now w p)
  ServiceStep-Advances {w} (decides approver id decisions now later swept e) p =
      subst (λ (x : World bao). Advances origin x.db) (sym e)
        (decide-Advances approver id decisions now later swept w p)
  ServiceStep-Advances {w} (revokes approver grant_id now later e) p =
      subst (λ (x : World bao). Advances origin x.db) (sym e)
        (revoke-Advances approver grant_id now later w p)
  ServiceStep-Advances {w} (sweeps now later e) p =
      subst (λ (x : World bao). Advances origin x.db) (sym e) (run_once-Advances now later w p)
  ServiceStep-Advances (elsewhere e) p = subst (Advances origin) (sym e) p

module _ (rt : Runtime) (config : Config) {bao : OpenBao} where
  -- Over any run of the service, of requests, decisions, revocations and sweeps, whatever each
  -- returns, that starts from tables with no request id twice and the column has_pending in step
  -- with the items, the tables stay so, and every stored request is still there in its place, with
  -- its id, entity, reason, requester, creation and deadline, and its items in their order, each
  -- with its id, path, capabilities and TTL, and with its state as it was, or revoked, or anything
  -- if it was pending.
  pub reaches-Advances :
      {w v : World bao} → Reaches rt config w v → IsSound w.db → Advances w.db v.db
  reaches-Advances {w} stays sound = (sound, RowsEvolve-refl w.db.requests)
  reaches-Advances {w} (goes_on run step) sound =
      ServiceStep-Advances rt config w.db step (reaches-Advances run sound)
