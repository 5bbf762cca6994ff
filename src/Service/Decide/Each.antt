-- ===== src/Service/Decide/Each.antt =====
-- The loop of `decide` over the decisions.
use openbao_authorizer.Prelude.{
  ℕ, ◌≡◌, refl, sym, ap, subst, ◌∙◌, inl, inr, true, false, List, [], ◌∷◌, ◌++◌, map, append-nil,
  In, here, there, find, find-In, Bool-cases, ltb, append-In, some, Option-cases,
}
use openbao_authorizer.Prelude.Int.{ℤ}
use openbao_authorizer.Prelude.Result.{ok}
use openbao_authorizer.Text.Bytes.{Str, ◌==◌, eq→≡, contains, In-contains}
use openbao_authorizer.Rules.Model.{Runtime}
use openbao_authorizer.Rules.Capability.Order.{IsDistinct}
use openbao_authorizer.Rules.Capability.Collect.{IsDistinct-concat}
use openbao_authorizer.Store.Model.{Item, is_pending, Approver, Grant, GrantRequest}
use openbao_authorizer.Service.Model.{OpenBao, World, Config, Decision}
use openbao_authorizer.Service.Exec.Inversion.{bind-ok}
use openbao_authorizer.Service.Approval.{granted, approval_ttl}
use openbao_authorizer.Service.Decide.{
  Progress, expiry, set_item, grant_of, decide_item, decide_one, decide_each,
}
use openbao_authorizer.Service.Decide.Settling.{
  approved_item, granted_grant, Settled, without_grant, with_grant, decide_item-ok,
  decide_item-Settled,
}

-- The variables before the first round.
abbrev pub start : GrantRequest → Progress
start request = record { items = request.items; seen = []; grants = [] }

module _ (approver : Approver) (request : GrantRequest) (now : ℕ) (rt : Runtime)
    (config : Config) where
  -- A Grant of the loop comes from one pending item of the request, by a decision that approves it
  -- and an approval that the rules allow now.
  pub record Authorised (decisions : List Decision) (g : Grant) : Type 0 where
    pub item : Item
    pub decision : Decision
    pub id : Str
    pub ttl : ℤ
    pub asked : In item request.items
    pub was_pending : is_pending item.state ≡ true
    pub in_time : ltb now request.pending_until ≡ true
    pub taken : In decision decisions
    pub names : decision.item_id ≡ item.id
    pub approves : decision.approve ≡ true
    pub allowed : approval_ttl rt config item decision.ttl ≡ ok (granted ttl)
    pub content : g ≡ record {
      id = id;
      request_id = request.id;
      item_id = item.id;
      entity_id = request.entity_id;
      path = item.path;
      capabilities = item.capabilities;
      requester = request.requester;
      created_at = now;
      expires_at = expiry now ttl;
      approved_by = approver.name;
      revoked_at = 0;
      revoked_by = [];
    }

  -- What holds at each round of the loop.
  pub record Inv (decisions : List Decision) (p : Progress) : Type 0 where
    pub pending_asked : (i : Item) → In i p.items → is_pending i.state ≡ true → In i request.items
    pub authorised : (g : Grant) → In g p.grants → Authorised decisions g
    pub seen_items : (s : Str) → In s (map (λ g. g.item_id) p.grants) → In s p.seen
    pub distinct_items : IsDistinct (map (λ g. g.item_id) p.grants)

  set_item-pending :
      (id : Str) (item' : Item) (l : List Item) (i : Item)
      → is_pending item'.state ≡ false
      → is_pending i.state ≡ true
      → In i (set_item id item' l)
      → In i l
  unfolding set_item
  set_item-pending id item' [] i n q m = elim m [ ]
  set_item-pending id item' (other ∷ l) i n q m = elim (Bool-cases (other.id == id)) [
    | inl e ↦ replaced (rw e at m)
    | inr e ↦ passed (rw e at m) (λ k. set_item-pending id item' l i n q k)
  ]
    where
      replaced : In i (item' ∷ l) → In i (other ∷ l)
      replaced (here s) = cc (n, q, ap (λ (x : Item). is_pending x.state) s)
      replaced (there k) = there k

      passed :
          In i (other ∷ set_item id item' l)
          → (In i (set_item id item' l) → In i l)
          → In i (other ∷ l)
      passed (here s) f = here s
      passed (there k) f = there (f k)

  single : {A : Type 0} {g h : A} → In g (h ∷ []) → g ≡ h
  single (here e) = e
  single (there m) = elim m [ ]

  granted-item_id :
      (item : Item) (id : Str) (ttl : ℤ)
      → (granted_grant approver request now rt config item id ttl).item_id ≡ item.id
  unfolding grant_of
  granted-item_id item id ttl = refl

  granted-content :
      (item : Item) (id : Str) (ttl : ℤ)
      → granted_grant approver request now rt config item id ttl ≡ record {
        id = id;
        request_id = request.id;
        item_id = item.id;
        entity_id = request.entity_id;
        path = item.path;
        capabilities = item.capabilities;
        requester = request.requester;
        created_at = now;
        expires_at = expiry now ttl;
        approved_by = approver.name;
        revoked_at = 0;
        revoked_by = [];
      }
  unfolding grant_of
  granted-content item id ttl = refl

  map-concat :
      (l : List Grant) (g : Grant)
      → map (λ (x : Grant). x.item_id) (l ++ g ∷ [])
        ≡ map (λ (x : Grant). x.item_id) l ++ g.item_id ∷ []
  map-concat [] g = refl
  map-concat (h ∷ l) g = ap (λ t. h.item_id ∷ t) (map-concat l g)

  Settled-Inv :
      (decisions : List Decision) (d : Decision) (p : Progress) (item : Item) {p' : Progress}
      → Inv decisions p
      → In d decisions
      → d.item_id ≡ item.id
      → In item p.items
      → is_pending item.state ≡ true
      → ltb now request.pending_until ≡ true
      → contains p.seen d.item_id ≡ false
      → Settled approver request now rt config d p item p'
      → Inv decisions p'
  Settled-Inv decisions d p item inv m names found pend time fresh
        (without_grant item' done same e) =
      subst (Inv decisions) (sym e) (record {
        pending_asked =
            λ i k q. inv.pending_asked i (set_item-pending item.id item' p.items i done q k) q;
        authorised = λ g k. inv.authorised g (rw append-nil at k);
        seen_items = λ s k. there (inv.seen_items s (rw append-nil at k));
        distinct_items = rw append-nil inv.distinct_items;
      })
  Settled-Inv decisions d p item inv m names found pend time fresh
        (with_grant id ttl approves allowed e) =
      subst (Inv decisions) (sym e) (record {
        pending_asked = λ i k q.
            inv.pending_asked i
              (set_item-pending item.id (approved_item approver request now rt config item id ttl)
                p.items i refl q k)
              q;
        authorised = λ g k. elim (append-In p.grants k) [
          | inl old ↦ inv.authorised g old
          | inr new ↦ record {
            item = item;
            decision = d;
            id = id;
            ttl = ttl;
            asked = inv.pending_asked item found pend;
            was_pending = pend;
            in_time = time;
            taken = m;
            names = names;
            approves = approves;
            allowed = allowed;
            content = single new ∙ granted-content item id ttl;
          }
        ];
        seen_items = λ s k.
            elim (append-In (map (λ (x : Grant). x.item_id) p.grants) (rw map-concat at k)) [
              | inl old ↦ there (inv.seen_items s old)
              | inr new ↦ here (single new ∙ granted-item_id item id ttl)
            ];
        distinct_items = rw map-concat (
            IsDistinct-concat (map (λ (x : Grant). x.item_id) p.grants)
              (λ k. unseen (rw granted-item_id at k)) inv.distinct_items);
      })
    where
      unseen : In item.id (map (λ (x : Grant). x.item_id) p.grants) → ⊥
      unseen k =
          let seen : contains p.seen item.id ≡ true =
            In-contains p.seen (inv.seen_items item.id k) in
          cc (fresh, seen, ap (contains p.seen) names)

  pub start-Inv : (decisions : List Decision) → Inv decisions (start request)
  start-Inv decisions = record {
    pending_asked = λ i m q. m;
    authorised = λ g m. elim m [ ];
    seen_items = λ s m. elim m [ ];
    distinct_items = tt;
  }

  module _ {bao : OpenBao} where
    pub decide_one-ok :
        (d : Decision) (p : Progress) (w : World bao) {p' : Progress} {w' : World bao}
        → decide_one approver request now rt config p d w ≡ (ok p', w')
        → (item : Item) × (find (λ i. i.id == d.item_id) p.items ≡ some item)
          × (decide_item approver request now rt config d p item w ≡ (ok p', w'))
    unfolding decide_one
    decide_one-ok d p w h = elim (Option-cases (find (λ i. i.id == d.item_id) p.items)) [
      | inl e ↦ cc (rw (e, decide_one) at h)
      | inr (item, e) ↦ (item, e, rw (e, decide_one) at h)
    ]

    decide_one-Inv :
        (decisions : List Decision) (d : Decision) (p : Progress) (w : World bao) {p' : Progress}
        {w' : World bao}
        → Inv decisions p
        → In d decisions
        → decide_one approver request now rt config p d w ≡ (ok p', w')
        → Inv decisions p'
    decide_one-Inv decisions d p w inv m h =
        let (item, e, k) = decide_one-ok d p w h in
        let (found, named) = find-In (λ i. i.id == d.item_id) p.items e in
        let (fresh, pend, time, _) = decide_item-ok approver request now rt config d p item w k in
        Settled-Inv decisions d p item inv m (sym (eq→≡ item.id d.item_id named)) found pend time
          fresh (decide_item-Settled approver request now rt config d p item w k)

    pub each_nil :
        (p : Progress) (w : World bao) {p' : Progress} {w' : World bao}
        → decide_each approver request now rt config p [] w ≡ (ok p', w')
        → p ≡ p'
    unfolding decide_each
    each_nil p w h = cc

    pub each_cons :
        (d : Decision) (ds : List Decision) (p : Progress) (w : World bao) {p' : Progress}
        {w' : World bao}
        → decide_each approver request now rt config p (d ∷ ds) w ≡ (ok p', w')
        → (p₁ : Progress) × (w₁ : World bao) × (decide_one approver request now rt config p d w
            ≡ (ok p₁, w₁))
          × (decide_each approver request now rt config p₁ ds w₁ ≡ (ok p', w'))
    unfolding decide_each
    each_cons d ds p w h =
        let (p₁, one, rest) =
          bind-ok (decide_one approver request now rt config p d)
            (λ q. decide_each approver request now rt config q ds) w h in
        (p₁, _, one, rest)

    -- The loop keeps the invariant, whatever the decisions.
    pub decide_each-Inv :
        (decisions : List Decision) (p : Progress) (ds : List Decision) (w : World bao)
        {p' : Progress} {w' : World bao}
        → ((d : Decision) → In d ds → In d decisions)
        → Inv decisions p
        → decide_each approver request now rt config p ds w ≡ (ok p', w')
        → Inv decisions p'
    decide_each-Inv decisions p [] w sub inv h = subst (Inv decisions) (each_nil p w h) inv
    decide_each-Inv decisions p (d ∷ ds) w sub inv h =
        let (p₁, w₁, one, rest) = each_cons d ds p w h in
        decide_each-Inv decisions p₁ ds w₁ (λ x m. sub x (there m))
          (decide_one-Inv decisions d p w inv (sub d (here refl)) one) rest
