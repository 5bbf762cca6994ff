-- ===== src/Service/Create/Items.antt =====
-- Which item the loop of `CreateRequest` makes of which input, and what the look at the token's
-- capabilities makes of the items.
use openbao_authorizer.Prelude.{
  ◌≡◌, refl, sym, ap, subst, ◌∙◌, ◌⊎◌, inl, inr, true, false, List, [], ◌∷◌, ◌++◌, In, here, there,
  In-append_left, In-append_right, Bool-cases, if◌then◌else◌,
}
use openbao_authorizer.Prelude.Result.{Result, ok, err, ok-injective}
use openbao_authorizer.Text.Bytes.{Str, contains, contains-In, In-contains}
use openbao_authorizer.Rules.Model.{Runtime, Refusal, ItemInput, Resolved, duplicate}
use openbao_authorizer.Rules.Concrete.{sanitize_text}
use openbao_authorizer.Rules.Capability.{covers, normalize_capabilities}
use openbao_authorizer.Rules.Resolve.{resolve}
use openbao_authorizer.Store.Model.{
  Item, pending, already_granted, refused, no_reason, refused_for, already_has_capabilities,
}
use openbao_authorizer.Service.Model.{Config}
use openbao_authorizer.Service.Create.{
  Filed, file_item, refused_item, pending_item, lookup_or_empty, item_key, max_path_length,
  shown_capabilities,
}

module _ (rt : Runtime) (config : Config) where
  -- One of the inputs is accepted with that path and those capabilities, as a key.
  abbrev pub IsKey : List ItemInput → Str → Type 0
  IsKey earlier key =
      (other : ItemInput) × (r : Resolved) × In other earlier
      × (resolve rt config.policy other ≡ ok r)
      × (item_key r ≡ key)

  -- An input is refused by the rules, or it asks for what an earlier one asks for.
  abbrev pub IsRefusedFor : List ItemInput → ItemInput → Refusal → Type 0
  IsRefusedFor earlier input refusal =
      (resolve rt config.policy input ≡ err refusal)
      ⊎ ((r : Resolved) × (refusal ≡ duplicate)
          × (resolve rt config.policy input ≡ ok r)
          × IsKey earlier (item_key r))

  -- The item of an input that is refused.
  pub record IsRefusal (earlier : List ItemInput) (input : ItemInput) (item : Item) : Type 0 where
    pub refusal : Refusal
    pub because : IsRefusedFor earlier input refusal
    pub state : item.state ≡ refused
    pub reason : item.reason ≡ refused_for refusal
    pub path : item.path ≡ sanitize_text input.path max_path_length
    pub capabilities :
        item.capabilities
        ≡ shown_capabilities rt config (normalize_capabilities rt input.capabilities)

  -- The item of an input that the rules accept, and that no earlier one repeats.
  pub record IsAccepted (earlier : List ItemInput) (input : ItemInput) (item : Item) : Type 0 where
    pub resolved : Resolved
    pub accepted : resolve rt config.policy input ≡ ok resolved
    pub first : IsKey earlier (item_key resolved) → ⊥
    pub path : item.path ≡ resolved.path
    pub capabilities : item.capabilities ≡ resolved.capabilities
    pub ttl : item.ttl ≡ resolved.ttl

  module _ (Status : Item → Type 0) where
    -- An item of an input, in view of the inputs before it.
    abbrev pub IsItemOf : List ItemInput → ItemInput → Item → Type 0
    IsItemOf earlier input item =
        IsRefusal earlier input item ⊎ (IsAccepted earlier input item × Status item)

    -- The items of the inputs, one for each, in their order.
    abbrev pub AreItemsOf : List ItemInput → List ItemInput → List Item → Type 0
    AreItemsOf earlier [] [] = Unit
    AreItemsOf earlier [] (item ∷ items) = ⊥
    AreItemsOf earlier (input ∷ inputs) [] = ⊥
    AreItemsOf earlier (input ∷ inputs) (item ∷ items) =
        IsItemOf earlier input item × AreItemsOf (input ∷ earlier) inputs items

  -- Before the look at the token, an accepted item is pending, and its path is asked for.
  abbrev pub IsUnmarked : List Str → Item → Type 0
  IsUnmarked asked item = In item.path asked × (item.state ≡ pending) × (item.reason ≡ no_reason)

  -- Afterwards it is already granted if the answer on its path covers its capabilities, else pending.
  abbrev pub IsMarked : List Str → List (Str × List Str) → Item → Type 0
  IsMarked asked granted item =
      In item.path asked
      × (((item.state ≡ pending)
            × (item.reason ≡ no_reason)
            × (covers (lookup_or_empty item.path granted) item.capabilities ≡ false))
          ⊎ ((item.state ≡ already_granted)
              × (item.reason ≡ already_has_capabilities)
              × (covers (lookup_or_empty item.path granted) item.capabilities ≡ true)))

  -- The keys that the loop has seen are those of the inputs so far.
  pub record AreKeys (earlier : List ItemInput) (seen : List Str) : Type 0 where
    pub sound : (key : Str) → In key seen → IsKey earlier key
    pub complete : (key : Str) → IsKey earlier key → In key seen

  later-IsKey :
      (input : ItemInput) (earlier : List ItemInput) (key : Str)
      → IsKey earlier key
      → IsKey (input ∷ earlier) key
  later-IsKey input earlier key (other, r, m, e, k) = (other, r, there m, e, k)

  -- A key of one input more is a key of that one, or of those before.
  IsKey-cases :
      (input : ItemInput) (earlier : List ItemInput) (key : Str)
      → IsKey (input ∷ earlier) key
      → ((r : Resolved) × (resolve rt config.policy input ≡ ok r) × (item_key r ≡ key))
        ⊎ IsKey earlier key
  IsKey-cases input earlier key (other, r, here same, e, k) =
      inl (r, ap (resolve rt config.policy) (sym same) ∙ e, k)
  IsKey-cases input earlier key (other, r, there m, e, k) = inr (other, r, m, e, k)

  refused-AreKeys :
      (input : ItemInput) (earlier : List ItemInput) (seen : List Str) (refusal : Refusal)
      → resolve rt config.policy input ≡ err refusal
      → AreKeys earlier seen
      → AreKeys (input ∷ earlier) seen
  refused-AreKeys input earlier seen refusal h keys = record {
    sound = λ key m. later-IsKey input earlier key (keys.sound key m);
    complete = λ key k. elim (IsKey-cases input earlier key k) [
      | inl (r, e, same) ↦ cc (h, e)
      | inr before ↦ keys.complete key before
    ];
  }

  same_key :
      (input : ItemInput) (r r' : Resolved)
      → resolve rt config.policy input ≡ ok r
      → resolve rt config.policy input ≡ ok r'
      → item_key r ≡ item_key r'
  same_key input r r' e e' = ap item_key (ok-injective (sym e ∙ e'))

  repeated-AreKeys :
      (input : ItemInput) (earlier : List ItemInput) (seen : List Str) (r : Resolved)
      → resolve rt config.policy input ≡ ok r
      → In (item_key r) seen
      → AreKeys earlier seen
      → AreKeys (input ∷ earlier) seen
  repeated-AreKeys input earlier seen r h m keys = record {
    sound = λ key n. later-IsKey input earlier key (keys.sound key n);
    complete = λ key k. elim (IsKey-cases input earlier key k) [
      | inl (r', e, same) ↦ subst (λ x. In x seen) (same_key input r r' h e ∙ same) m
      | inr before ↦ keys.complete key before
    ];
  }

  new-AreKeys :
      (input : ItemInput) (earlier : List ItemInput) (seen : List Str) (r : Resolved)
      → resolve rt config.policy input ≡ ok r
      → AreKeys earlier seen
      → AreKeys (input ∷ earlier) (item_key r ∷ seen)
  new-AreKeys input earlier seen r h keys = record {
    sound = λ key m. listed key m;
    complete = λ key k. elim (IsKey-cases input earlier key k) [
      | inl (r', e, same) ↦ here (sym same ∙ sym (same_key input r r' h e))
      | inr before ↦ there (keys.complete key before)
    ];
  }
    where
      listed : (key : Str) → In key (item_key r ∷ seen) → IsKey (input ∷ earlier) key
      listed key (here e) = (input, r, here refl, h, sym e)
      listed key (there m) = later-IsKey input earlier key (keys.sound key m)

  -- What one round of the loop does: one item more, of the input of the round.
  pub record IsRound (earlier : List ItemInput) (input : ItemInput) (f f' : Filed)
      (asked : List Str) : Type 0 where
    pub item : Item
    pub added : f'.items ≡ f.items ++ item ∷ []
    pub of_input : IsItemOf (IsUnmarked asked) earlier input item
    pub keys : AreKeys (input ∷ earlier) f'.seen

  asked_path :
      (paths : List Str) (path : Str)
      → In path (if contains paths path then paths else paths ++ path ∷ [])
  asked_path paths path = elim (Bool-cases (contains paths path)) [
    | inl e ↦ rw e (contains-In paths path e)
    | inr e ↦ rw e (In-append_right paths (here refl))
  ]

  still_asked :
      (paths : List Str) (path : Str) {p : Str}
      → In p paths
      → In p (if contains paths path then paths else paths ++ path ∷ [])
  still_asked paths path m = elim (Bool-cases (contains paths path)) [
    | inl e ↦ rw e m
    | inr e ↦ rw e (In-append_left (path ∷ []) m)
  ]

  pub file_item-asks :
      (id : Str) (input : ItemInput) (f : Filed) (r : Result Refusal Resolved) (p : Str)
      → In p f.paths
      → In p (file_item rt config id input f r).paths
  unfolding file_item
  file_item-asks id input f (err refusal) p m = m
  file_item-asks id input f (ok r) p m = elim (Bool-cases (contains f.seen (item_key r))) [
    | inl e ↦ rw e m
    | inr e ↦ rw e (still_asked f.paths r.path m)
  ]

  refused_item-IsRefusal :
      (id : Str) (earlier : List ItemInput) (input : ItemInput) (refusal : Refusal)
      → IsRefusedFor earlier input refusal
      → IsRefusal earlier input (refused_item rt config id input refusal)
  unfolding refused_item
  refused_item-IsRefusal id earlier input refusal h = record {
    refusal = refusal;
    because = h;
    state = refl;
    reason = refl;
    path = refl;
    capabilities = refl;
  }

  pub file_item-IsRound :
      (id : Str) (earlier : List ItemInput) (input : ItemInput) (f : Filed)
      (r : Result Refusal Resolved) (asked : List Str)
      → resolve rt config.policy input ≡ r
      → AreKeys earlier f.seen
      → ((p : Str) → In p (file_item rt config id input f r).paths → In p asked)
      → IsRound earlier input f (file_item rt config id input f r) asked
  unfolding file_item pending_item
  file_item-IsRound id earlier input f (err refusal) asked h keys within = record {
    item = refused_item rt config id input refusal;
    added = refl;
    of_input = inl (refused_item-IsRefusal id earlier input refusal (inl h));
    keys = refused-AreKeys input earlier f.seen refusal h keys;
  }
  file_item-IsRound id earlier input f (ok r) asked h keys within =
      elim (Bool-cases (contains f.seen (item_key r))) [
        | inl e ↦
            let m = contains-In f.seen (item_key r) e in
            rw e (record {
              item = refused_item rt config id input duplicate;
              added = refl;
              of_input = inl (
                  refused_item-IsRefusal id earlier input duplicate
                    (inr (r, refl, h, keys.sound (item_key r) m)));
              keys = repeated-AreKeys input earlier f.seen r h m keys;
            })
        | inr e ↦ rw e (record {
          item = pending_item rt config id r;
          added = refl;
          of_input = inr (
            record {
              resolved = r;
              accepted = h;
              first = λ k. cc (e, In-contains f.seen (keys.complete (item_key r) k));
              path = refl;
              capabilities = refl;
              ttl = refl;
            },
            (within r.path (rw e (asked_path f.paths r.path)), refl, refl),
          );
          keys = new-AreKeys input earlier f.seen r h keys;
        })
      ]
