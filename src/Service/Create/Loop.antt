-- ===== src/Service/Create/Loop.antt =====
-- The loop of `CreateRequest` over the inputs, and the look at the token's capabilities.
use openbao_authorizer.Prelude.{
  ◌≡◌, refl, sym, ap, subst, ◌∙◌, ◌⊎◌, inl, inr, Bool, true, false, ◌&&◌, List, [], ◌∷◌, ◌++◌, map,
  In, Bool-cases, arith, if◌then◌else◌,
}
use openbao_authorizer.Prelude.Result.{Result, ok, err}
use openbao_authorizer.Text.Bytes.{Str}
use openbao_authorizer.Rules.Model.{Runtime, ItemInput}
use openbao_authorizer.Rules.Capability.{covers}
use openbao_authorizer.Rules.Resolve.{resolve}
use openbao_authorizer.Store.Model.{Item, already_granted, is_pending, already_has_capabilities}
use openbao_authorizer.Service.Model.{OpenBao, World, Config, BaoError, ServiceError}
use openbao_authorizer.Service.Exec.{Exec, pure, on_error, calls, new_id}
use openbao_authorizer.Service.Exec.Inversion.{bind-ok, pure-ok, on_error-ok, calls-ok}
use openbao_authorizer.Service.Exec.Tables.{on_error-KeepsTables, calls-KeepsTables}
use openbao_authorizer.Service.Create.{
  Filed, file_item, file_items, mark_granted, check_granted, lookup_or_empty,
}
use openbao_authorizer.Service.Create.Items.{
  IsRefusal, IsItemOf, AreItemsOf, IsUnmarked, IsMarked, AreKeys, file_item-asks, file_item-IsRound,
}

result-cases :
    {A : Type 0} (r : Result BaoError A) → ((a : A) × (r ≡ ok a)) ⊎ ((e : BaoError) × (r ≡ err e))
result-cases (ok a) = inl (a, refl)
result-cases (err e) = inr (e, refl)

-- The answer that the items are marked by: that of capabilities-self for the token and the paths
-- asked for, or none if there are no paths to ask for, or the call fails.
abbrev pub IsAnswer : (bao : OpenBao) → Str → List Str → bao.State → List (Str × List Str) → Type 0
IsAnswer bao token asked server granted =
    ((asked ≡ []) × (granted ≡ []))
    ⊎ ((bao.capabilities_self token asked server).0 ≡ ok granted)
    ⊎ ((e : BaoError) × ((bao.capabilities_self token asked server).0 ≡ err e) × (granted ≡ []))

module _ (rt : Runtime) (config : Config) where
  append_one : (l : List Item) (x : Item) (m : List Item) → (l ++ x ∷ []) ++ m ≡ l ++ x ∷ m
  append_one [] x m = refl
  append_one (y ∷ l) x m = ap (λ k. y ∷ k) (append_one l x m)

  module _ {bao : OpenBao} where
    -- What the rest of the loop does: an item for each of the inputs left.
    pub record IsLoop (earlier : List ItemInput) (f : Filed) (rest : List ItemInput) (w : World bao)
        (f' : Filed) (w' : World bao) : Type 0 where
      pub items : List Item
      pub added : f'.items ≡ f.items ++ items
      pub of_inputs : AreItemsOf rt config (IsUnmarked rt config f'.paths) earlier rest items
      pub asks : (p : Str) → In p f.paths → In p f'.paths
      pub same_server : w'.server ≡ w.server
      pub same_db : w'.db ≡ w.db

    drawn : (w : World bao) → ((new_id w).1.server ≡ w.server) × ((new_id w).1.db ≡ w.db)
    drawn w = (ground arith, ground arith)

    pub file_items-IsLoop :
        (earlier : List ItemInput) (f : Filed) (rest : List ItemInput) (w : World bao) {f' : Filed}
        {w' : World bao}
        → AreKeys rt config earlier f.seen
        → file_items rt config f rest w ≡ (ok f', w')
        → IsLoop earlier f rest w f' w'
    unfolding file_items
    file_items-IsLoop earlier f [] w keys k =
        let (same, world) = pure-ok f w k in
        record {
          items = [];
          added = ap (λ (x : Filed). x.items) same ∙ no_more f.items;
          of_inputs = tt;
          asks = λ p m. subst (λ (x : Filed). In p x.paths) (sym same) m;
          same_server = ap (λ (x : World bao). x.server) world;
          same_db = ap (λ (x : World bao). x.db) world;
        }
      where
        no_more : (l : List Item) → l ≡ l ++ []
        no_more [] = refl
        no_more (x ∷ l) = ap (λ k. x ∷ k) (no_more l)
    file_items-IsLoop earlier f (input ∷ rest) w {f' = f'} keys k =
        let (id, first, more) = bind-ok new_id _ w k in
        let answer = resolve rt config.policy input in
        let filed = file_item rt config id input f answer in
        let next =
          file_items-IsLoop (input ∷ earlier) filed rest (new_id w).1
            (file_item-IsRound rt config id earlier input f answer filed.paths refl keys
              (λ p m. m)).keys
            more in
        let round =
          file_item-IsRound rt config id earlier input f answer f'.paths refl keys next.asks in
        record {
          items = round.item ∷ next.items;
          added =
              next.added
              ∙ (ap (λ l. l ++ next.items) round.added ∙ append_one f.items _ next.items);
          of_inputs = (round.of_input, next.of_inputs);
          asks = λ p m. next.asks p (file_item-asks rt config id input f answer p m);
          same_server = next.same_server ∙ (drawn w).0;
          same_db = next.same_db ∙ (drawn w).1;
        }

  unmarked :
      (granted : List (Str × List Str)) (item : Item)
      → is_pending item.state ≡ false
      → mark_granted rt config granted item ≡ item
  unfolding mark_granted
  unmarked granted item h = rw h refl

  uncovered :
      (granted : List (Str × List Str)) (item : Item)
      → covers (lookup_or_empty item.path granted) item.capabilities ≡ false
      → mark_granted rt config granted item ≡ item
  unfolding mark_granted
  uncovered granted item h = simp h (neither (is_pending item.state))
    where
      neither :
          (b : Bool)
          → (if b && false
              then record item { state = already_granted; reason = already_has_capabilities }
              else item)
            ≡ item
      neither true = refl
      neither false = refl

  marked :
      (granted : List (Str × List Str)) (item : Item)
      → is_pending item.state ≡ true
      → covers (lookup_or_empty item.path granted) item.capabilities ≡ true
      → mark_granted rt config granted item
        ≡ record item { state = already_granted; reason = already_has_capabilities }
  unfolding mark_granted
  marked granted item h k = rw (h, k) refl

  module _ (asked : List Str) (granted : List (Str × List Str)) where
    mark_granted-IsItemOf :
        (earlier : List ItemInput) (input : ItemInput) (item : Item)
        → IsItemOf rt config (IsUnmarked rt config asked) earlier input item
        → IsItemOf rt config
            (IsMarked rt config asked granted)
            earlier
            input
            (mark_granted rt config granted item)
    unfolding mark_granted
    mark_granted-IsItemOf earlier input item (inl h) = inl (
        subst (IsRefusal rt config earlier input)
          (sym (unmarked granted item (ap is_pending h.state))) h)
    mark_granted-IsItemOf earlier input item (inr (h, status)) =
        let (m, state, reason) = status in
        elim (Bool-cases (covers (lookup_or_empty item.path granted) item.capabilities)) [
          | inl e ↦
              subst (IsItemOf rt config (IsMarked rt config asked granted) earlier input)
                (sym (marked granted item (ap is_pending state) e))
                (inr (
                  record {
                    resolved = h.resolved;
                    accepted = h.accepted;
                    first = h.first;
                    path = h.path;
                    capabilities = h.capabilities;
                    ttl = h.ttl;
                  },
                  (m, inr (refl, refl, e)),
                ))
          | inr e ↦
              subst (IsItemOf rt config (IsMarked rt config asked granted) earlier input)
                (sym (uncovered granted item e)) (inr (h, (m, inl (state, reason, e))))
        ]

    pub mark_granted-AreItemsOf :
        (earlier inputs : List ItemInput) (items : List Item)
        → AreItemsOf rt config (IsUnmarked rt config asked) earlier inputs items
        → AreItemsOf rt config
            (IsMarked rt config asked granted)
            earlier
            inputs
            (map (mark_granted rt config granted) items)
    mark_granted-AreItemsOf earlier [] [] h = tt
    mark_granted-AreItemsOf earlier [] (item ∷ items) h = h
    mark_granted-AreItemsOf earlier (input ∷ inputs) [] h = h
    mark_granted-AreItemsOf earlier (input ∷ inputs) (item ∷ items) (p, h) = (
      mark_granted-IsItemOf earlier input item p,
      mark_granted-AreItemsOf (input ∷ earlier) inputs items h,
    )

  nothing_asked :
      (earlier inputs : List ItemInput) (items : List Item)
      → AreItemsOf rt config (IsUnmarked rt config []) earlier inputs items
      → AreItemsOf rt config (IsMarked rt config [] []) earlier inputs items
  nothing_asked earlier [] [] h = tt
  nothing_asked earlier [] (item ∷ items) h = h
  nothing_asked earlier (input ∷ inputs) [] h = h
  nothing_asked earlier (input ∷ inputs) (item ∷ items) (inl p, h) =
      (inl p, nothing_asked (input ∷ earlier) inputs items h)
  nothing_asked earlier (input ∷ inputs) (item ∷ items) (inr (p, status), h) = elim status.0 [ ]

  module _ {bao : OpenBao} where
    -- What the look at the token's capabilities leaves.
    pub record IsLook (token : Str) (earlier inputs : List ItemInput) (asked : List Str)
        (w : World bao) (items : List Item) (w' : World bao) : Type 0 where
      pub granted : List (Str × List Str)
      pub answer : IsAnswer bao token asked w.server granted
      pub of_inputs : AreItemsOf rt config (IsMarked rt config asked granted) earlier inputs items
      pub same_db : w'.db ≡ w.db

    abbrev answers : Str → List Str → Exec (World bao) (List (Str × List Str))
    answers token asked = on_error (calls (bao.capabilities_self token asked)) (λ e. pure [])

    answers-IsAnswer :
        (token : Str) (asked : List Str) (w : World bao) {granted : List (Str × List Str)}
        {w' : World bao}
        → answers token asked w ≡ (ok granted, w')
        → IsAnswer bao token asked w.server granted × (w'.db ≡ w.db)
    answers-IsAnswer token asked w h =
        let call = bao.capabilities_self token asked in
        let keeps =
          on_error-KeepsTables (calls {bao = bao} call) (λ e. pure []) (calls-KeepsTables call)
            (λ e v. refl) w in
        (
          elim (on_error-ok (calls {bao = bao} call) (λ e. pure []) w h) [
            | inl called ↦ inr (inl (calls-ok call w called).0)
            | inr (e, failed, rest) ↦ elim (result-cases (call w.server).0) [
              | inl (given, answered) ↦ cc (failed, answered)
              | inr (failure, answered) ↦ inr (inr (failure, answered, (pure-ok [] _ rest).0))
            ]
          ],
          ap (λ (x : Result ServiceError (List (Str × List Str)) × World bao). x.1.db) (sym h)
              ∙ keeps,
        )

    pub check_granted-IsLook :
        (token : Str) (earlier inputs : List ItemInput) (asked : List Str) (filed : List Item)
        (w : World bao) {items : List Item} {w' : World bao}
        → AreItemsOf rt config (IsUnmarked rt config asked) earlier inputs filed
        → check_granted rt config token asked filed w ≡ (ok items, w')
        → IsLook token earlier inputs asked w items w'
    unfolding check_granted
    check_granted-IsLook token earlier inputs [] filed w h k =
        let (same, world) = pure-ok filed w k in
        record {
          granted = [];
          answer = inl (refl, refl);
          of_inputs =
              subst (AreItemsOf rt config (IsMarked rt config [] []) earlier inputs) (sym same)
                (nothing_asked earlier inputs filed h);
          same_db = ap (λ (x : World bao). x.db) world;
        }
    check_granted-IsLook token earlier inputs (path ∷ paths) filed w h k =
        let asked = path ∷ paths in
        let (granted, first, rest) =
          bind-ok (answers token asked)
            (λ granted. pure (map (mark_granted rt config granted) filed)) w k in
        let (same, world) = pure-ok (map (mark_granted rt config granted) filed) _ rest in
        let (answer, db) = answers-IsAnswer token asked w first in
        record {
          granted = granted;
          answer = answer;
          of_inputs =
              subst (AreItemsOf rt config (IsMarked rt config asked granted) earlier inputs)
                (sym same) (mark_granted-AreItemsOf asked granted earlier inputs filed h);
          same_db = ap (λ (x : World bao). x.db) world ∙ db;
        }
