-- ===== src/Service/Decide/Failure.antt =====
-- What a failed `decide` leaves in the tables.
use openbao_authorizer.Prelude.{
  ℕ, ◌≡◌, refl, sym, ap, ◌∙◌, ◌⊎◌, inl, inr, Option, none, some, List, [], ◌∷◌, ◌++◌, arith,
}
use openbao_authorizer.Prelude.Result.{ok, Result, err}
use openbao_authorizer.Text.Bytes.{Str, eq_refl}
use openbao_authorizer.Rules.Model.{Runtime}
use openbao_authorizer.Store.Model.{Approver, Grant, GrantRequest}
use openbao_authorizer.Store.Requests.{grant_request}
use openbao_authorizer.Store.Grants.{active_grants, decide_items}
use openbao_authorizer.Service.Model.{OpenBao, World, Config, Decision, ServiceError, self_approval}
use openbao_authorizer.Service.Exec.{pure, on_error, reads, writes, ◌>>=◌, ◌>>◌}
use openbao_authorizer.Service.Exec.Inversion.{bind-err, on_error-err, writes-err}
use openbao_authorizer.Service.Exec.Tables.{
  KeepsTables, KeepsTables-outcome, bind-KeepsTables, on_error-KeepsTables, reads-KeepsTables,
}
use openbao_authorizer.Service.Policy.{write_policy, restore_policy, attach_policy}
use openbao_authorizer.Service.Policy.Tables.{
  write_policy-KeepsTables, restore_policy-KeepsTables, attach_policy-KeepsTables,
}
use openbao_authorizer.Service.Decide.{
  decide_each, publish, withdraw, sweep, conflict_on, decide_locked, decide,
}
use openbao_authorizer.Service.Decide.Each.{start}
use openbao_authorizer.Service.Decide.Frame.{decide_each-Same}
use openbao_authorizer.Service.Decide.Outcome.{swept_db}

module _ (rt : Runtime) (config : Config) {bao : OpenBao} where
  pub publish-KeepsTables :
      (entity_id : Str) (grants : List Grant) (now later : ℕ)
      → KeepsTables (publish rt {bao = bao} entity_id grants now later)
  unfolding publish
  publish-KeepsTables entity_id [] now later = λ w. refl
  publish-KeepsTables entity_id (grant ∷ grants) now later =
      bind-KeepsTables (reads (active_grants entity_id now)) _
        (reads-KeepsTables (active_grants entity_id now))
        (λ active.
          bind-KeepsTables (write_policy rt entity_id (active ++ grant ∷ grants)) _
            (write_policy-KeepsTables rt entity_id (active ++ grant ∷ grants))
            (λ u.
              on_error-KeepsTables (attach_policy rt entity_id) _
                (attach_policy-KeepsTables rt entity_id)
                (λ e.
                  bind-KeepsTables (restore_policy rt entity_id later) _
                    (restore_policy-KeepsTables rt entity_id later) (λ u v. refl))))

  withdraw-KeepsTables :
      (entity_id : Str) (grants : List Grant) (later : ℕ)
      → KeepsTables (withdraw rt {bao = bao} entity_id grants later)
  unfolding withdraw
  withdraw-KeepsTables entity_id [] later = λ w. refl
  withdraw-KeepsTables entity_id (grant ∷ grants) later =
      restore_policy-KeepsTables rt entity_id later

  conflict_on-KeepsTables :
      (decisions : List Decision) (e : ServiceError)
      → KeepsTables {bao = bao} (conflict_on {A = Unit {0}} decisions e)
  conflict_on-KeepsTables decisions e w = ground arith

  -- From the transaction on.
  stored-err :
      (decisions : List Decision) (request : GrantRequest) (grants : List Grant) (later : ℕ)
      (w : World bao) {e : ServiceError} {w' : World bao}
      → (on_error
              (writes (decide_items request grants))
              (λ e. withdraw rt request.entity_id grants later >> conflict_on decisions e)
            >> pure {A = GrantRequest × List Grant} (request, grants))
          w
        ≡ (err e, w')
      → w'.db ≡ w.db
  stored-err decisions request grants later w h =
      elim (bind-err
        (on_error (writes (decide_items request grants))
          (λ e. withdraw rt request.entity_id grants later >> conflict_on decisions e))
        (λ u. pure {A = GrantRequest × List Grant} (request, grants)) w h) [
          | inl q ↦
              let (d, failed, handled) =
                on_error-err (writes (decide_items request grants)) _ w q in
              let keeps =
                bind-KeepsTables (withdraw rt {bao = bao} request.entity_id grants later)
                  (λ u. conflict_on decisions d)
                  (withdraw-KeepsTables request.entity_id grants later)
                  (λ u. conflict_on-KeepsTables decisions d) in
              ap (λ (x : Result ServiceError (Unit {0}) × World bao). x.1.db) (sym handled)
              ∙ (keeps _ ∙ (writes-err (decide_items request grants) w failed).0)
          | inr (v, second, last) ↦ cc
        ]

  tail-err :
      (decisions : List Decision) (swept : Option ℕ) (request : GrantRequest) (grants : List Grant)
      (later : ℕ) (w : World bao) {e : ServiceError} {w' : World bao}
      → (sweep swept
            >> (on_error
                  (writes (decide_items request grants))
                  (λ e. withdraw rt request.entity_id grants later >> conflict_on decisions e)
                >> pure {A = GrantRequest × List Grant} (request, grants)))
          w
        ≡ (err e, w')
      → w'.db ≡ swept_db swept w.db
  unfolding sweep
  tail-err decisions none request grants later w h = stored-err decisions request grants later w h
  tail-err decisions (some t) request grants later w h =
      stored-err decisions request grants later _ h

  -- From the loop on.
  loop-err :
      (approver : Approver) (request : GrantRequest) (decisions : List Decision) (now later : ℕ)
      (swept : Option ℕ) (v : World bao) (w : World bao) {e : ServiceError} {w' : World bao}
      → v.db ≡ w.db
      → (decide_each approver request now rt config (start request) decisions >>= λ p.
            (publish rt request.entity_id p.grants now later
              >> (sweep swept
                  >> (on_error
                        (writes (decide_items (record request { items = p.items }) p.grants))
                        (λ e.
                          withdraw rt request.entity_id p.grants later >> conflict_on decisions e)
                      >> pure {A = GrantRequest × List Grant}
                          (record request { items = p.items }, p.grants)))))
          v
        ≡ (err e, w')
      → (w'.db ≡ w.db) ⊎ (w'.db ≡ swept_db swept w.db)
  loop-err approver request decisions now later swept v w {w' = w'} same h =
      let keeps : KeepsTables
          (decide_each approver request now rt config (start request) decisions) =
        λ u. (decide_each-Same approver request now rt config (start request) decisions u).db in
      elim (bind-err (decide_each approver request now rt config (start request) decisions) _ v h) [
        | inl q ↦ inl (
            KeepsTables-outcome
              (decide_each approver request now rt config (start request) decisions) v keeps q
            ∙ same)
        | inr (p, first, rest) ↦
            let unchanged = publish-KeepsTables request.entity_id p.grants now later in
            elim (bind-err (publish rt request.entity_id p.grants now later) _ _ rest) [
              | inl q ↦ inl (
                  KeepsTables-outcome (publish rt request.entity_id p.grants now later) _ unchanged
                    q
                  ∙ (keeps v ∙ same))
              | inr (u, second, last) ↦ inr (
                  tail-err decisions swept (record request { items = p.items }) p.grants later _
                    last
                  ∙ ap (swept_db swept) (unchanged _ ∙ (keeps v ∙ same)))
            ]
      ]

  -- When the decisions on a request fail, whatever failed, the tables are as they were, or as the
  -- sweep of pending items left them if it ran between.
  pub decide_locked-err :
      (approver : Approver) (request_id : Str) (decisions : List Decision) (now later : ℕ)
      (swept : Option ℕ) (w : World bao) (e : ServiceError) (w' : World bao)
      → decide_locked rt config approver request_id decisions now later swept w ≡ (err e, w')
      → (w'.db ≡ w.db) ⊎ (w'.db ≡ swept_db swept w.db)
  unfolding decide_locked
  decide_locked-err approver request_id decisions now later swept w e w' h =
      elim (bind-err (reads (grant_request request_id)) _ w h) [
        | inl q ↦ inl (
            KeepsTables-outcome (reads (grant_request request_id)) w
              (reads-KeepsTables (grant_request request_id)) q)
        | inr (request, first, rest) ↦
            loop-err approver request decisions now later swept
              (reads (grant_request request_id) w).1 w
              (reads-KeepsTables (grant_request request_id) w) rest
      ]

  -- A decision on a stored request by the entity that it belongs to fails with ErrSelfApproval and
  -- changes nothing, when no call of the database is to fail.
  pub decide_own_request :
      (approver : Approver) (request_id : Str) (decision : Decision) (decisions : List Decision)
      (now later : ℕ) (swept : Option ℕ) (w : World bao) (request : GrantRequest)
      → w.faults ≡ []
      → grant_request request_id w.db ≡ ok request
      → request.entity_id ≡ approver.entity_id
      → decide rt config approver request_id (decision ∷ decisions) now later swept w
        ≡ (err self_approval, w)
  unfolding decide
  decide_own_request approver request_id decision decisions now later swept w request no_faults
        found own =
      rw (no_faults, found, own, eq_refl approver.entity_id) refl
