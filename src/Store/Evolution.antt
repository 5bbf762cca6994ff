-- ===== src/Store/Evolution.antt =====
-- What may become of stored Grant Requests: the life of an item, and of the rows of `grant_requests`.
use openbao_authorizer.Prelude.{
  ℕ, ◌≡◌, refl, sym, ap, ◌∙◌, true, ◌⊎◌, inl, inr, List, [], ◌∷◌, ◌++◌, map, In, here, there,
  Bool-cases,
}
use openbao_authorizer.Text.Bytes.{Str, ◌==◌}
use openbao_authorizer.Store.Model.{Item, is_pending, revoked}
use openbao_authorizer.Store.Rows.{RequestRow}
use openbao_authorizer.Store.Requests.{set_items, expire_item, expire_row, is_overdue}
use openbao_authorizer.Store.Grants.{revoke_item}

-- The same item: what was asked for and what the rules made of it are as they were.
abbrev pub IsSameItem : Item → Item → Type 0
IsSameItem a b =
    (b.id ≡ a.id) × (b.path ≡ a.path) × (b.capabilities ≡ a.capabilities) × (b.ttl ≡ a.ttl)

-- The moves of an item's state: a pending item may become anything, and any other only revoked.
abbrev pub Moves : Item → Item → Type 0
Moves a b = (b.state ≡ a.state) ⊎ (is_pending a.state ≡ true) ⊎ (b.state ≡ revoked)

abbrev pub Evolves : Item → Item → Type 0
Evolves a b = IsSameItem a b × Moves a b

pub Evolves-refl : (a : Item) → Evolves a a
Evolves-refl a = ((refl, refl, refl, refl), inl refl)

Moves-trans : (a b c : Item) → Moves a b → Moves b c → Moves a c
Moves-trans a b c m (inl same) = elim m [
  | inl e ↦ inl (same ∙ e)
  | inr (inl was) ↦ inr (inl was)
  | inr (inr e) ↦ inr (inr (same ∙ e))
]
Moves-trans a b c m (inr (inr last)) = inr (inr last)
Moves-trans a b c m (inr (inl undecided)) = elim m [
  | inl e ↦ inr (inl (ap is_pending (sym e) ∙ undecided))
  | inr (inl was) ↦ inr (inl was)
  | inr (inr e) ↦ cc (ap is_pending e, undecided)
]

Evolves-trans : (a b c : Item) → Evolves a b → Evolves b c → Evolves a c
Evolves-trans a b c ((i, p, c₁, t), m) ((i', p', c₂, t'), n) =
    ((i' ∙ i, p' ∙ p, c₂ ∙ c₁, t' ∙ t), Moves-trans a b c m n)

-- Item by item, in their order.
abbrev pub ItemsEvolve : List Item → List Item → Type 0
ItemsEvolve [] [] = Unit
ItemsEvolve [] (b ∷ ys) = ⊥
ItemsEvolve (a ∷ xs) [] = ⊥
ItemsEvolve (a ∷ xs) (b ∷ ys) = Evolves a b × ItemsEvolve xs ys

pub ItemsEvolve-refl : (xs : List Item) → ItemsEvolve xs xs
ItemsEvolve-refl [] = tt
ItemsEvolve-refl (a ∷ xs) = (Evolves-refl a, ItemsEvolve-refl xs)

pub ItemsEvolve-trans :
    (xs ys zs : List Item) → ItemsEvolve xs ys → ItemsEvolve ys zs → ItemsEvolve xs zs
ItemsEvolve-trans [] [] zs h k = k
ItemsEvolve-trans [] (b ∷ ys) zs h k = absurd h
ItemsEvolve-trans (a ∷ xs) [] zs h k = absurd h
ItemsEvolve-trans (a ∷ xs) (b ∷ ys) [] h k = k
ItemsEvolve-trans (a ∷ xs) (b ∷ ys) (c ∷ zs) (h, hs) (k, ks) =
    (Evolves-trans a b c h k, ItemsEvolve-trans xs ys zs hs ks)

pub map-ItemsEvolve :
    (f : Item → Item) (xs : List Item) → ((a : Item) → Evolves a (f a)) → ItemsEvolve xs (map f xs)
map-ItemsEvolve f [] h = tt
map-ItemsEvolve f (a ∷ xs) h = (h a, map-ItemsEvolve f xs h)

pub expire_item-Evolves : (item : Item) → Evolves item (expire_item item)
expire_item-Evolves item = elim (Bool-cases (is_pending item.state)) [
  | inl e ↦ rw e ((refl, refl, refl, refl), inr (inl refl))
  | inr e ↦ rw e ((refl, refl, refl, refl), inl refl)
]

pub revoke_item-Evolves : (id : Str) (item : Item) → Evolves item (revoke_item id item)
revoke_item-Evolves id item = elim (Bool-cases (item.id == id)) [
  | inl e ↦ rw e ((refl, refl, refl, refl), inr (inr refl))
  | inr e ↦ rw e (Evolves-refl item)
]

-- The same request, with its items further on.
pub record RowEvolves (r s : RequestRow) : Type 0 where
  pub same_id : s.id ≡ r.id
  pub same_entity : s.entity_id ≡ r.entity_id
  pub same_session : s.session ≡ r.session
  pub same_reason : s.reason ≡ r.reason
  pub same_time : s.created_at ≡ r.created_at
  pub same_deadline : s.pending_until ≡ r.pending_until
  pub items : ItemsEvolve r.items s.items

pub set_items-RowEvolves :
    (items : List Item) (r : RequestRow)
    → ItemsEvolve r.items items
    → RowEvolves r (set_items items r)
set_items-RowEvolves items r h = record {
  same_id = refl;
  same_entity = refl;
  same_session = refl;
  same_reason = refl;
  same_time = refl;
  same_deadline = refl;
  items = h;
}

pub RowEvolves-refl : (r : RequestRow) → RowEvolves r r
RowEvolves-refl r = record {
  same_id = refl;
  same_entity = refl;
  same_session = refl;
  same_reason = refl;
  same_time = refl;
  same_deadline = refl;
  items = ItemsEvolve-refl r.items;
}

pub RowEvolves-trans : (r s t : RequestRow) → RowEvolves r s → RowEvolves s t → RowEvolves r t
RowEvolves-trans r s t h k = record {
  same_id = k.same_id ∙ h.same_id;
  same_entity = k.same_entity ∙ h.same_entity;
  same_session = k.same_session ∙ h.same_session;
  same_reason = k.same_reason ∙ h.same_reason;
  same_time = k.same_time ∙ h.same_time;
  same_deadline = k.same_deadline ∙ h.same_deadline;
  items = ItemsEvolve-trans r.items s.items t.items h.items k.items;
}

-- Every row is still there, in its place, further on; new rows come after.
abbrev pub RowsEvolve : List RequestRow → List RequestRow → Type 0
RowsEvolve [] l = Unit
RowsEvolve (r ∷ rs) [] = ⊥
RowsEvolve (r ∷ rs) (s ∷ ss) = RowEvolves r s × RowsEvolve rs ss

pub RowsEvolve-refl : (rs : List RequestRow) → RowsEvolve rs rs
RowsEvolve-refl [] = tt
RowsEvolve-refl (r ∷ rs) = (RowEvolves-refl r, RowsEvolve-refl rs)

pub RowsEvolve-trans :
    (rs ss ts : List RequestRow) → RowsEvolve rs ss → RowsEvolve ss ts → RowsEvolve rs ts
RowsEvolve-trans [] ss ts h k = tt
RowsEvolve-trans (r ∷ rs) [] ts h k = absurd h
RowsEvolve-trans (r ∷ rs) (s ∷ ss) [] h k = k
RowsEvolve-trans (r ∷ rs) (s ∷ ss) (t ∷ ts) (h, hs) (k, ks) =
    (RowEvolves-trans r s t h k, RowsEvolve-trans rs ss ts hs ks)

pub map-RowsEvolve :
    (f : RequestRow → RequestRow) (rs : List RequestRow)
    → ((r : RequestRow) → In r rs → RowEvolves r (f r))
    → RowsEvolve rs (map f rs)
map-RowsEvolve f [] h = tt
map-RowsEvolve f (r ∷ rs) h = (h r (here refl), map-RowsEvolve f rs (λ s m. h s (there m)))

pub append-RowsEvolve : (rs ss : List RequestRow) → RowsEvolve rs (rs ++ ss)
append-RowsEvolve [] ss = tt
append-RowsEvolve (r ∷ rs) ss = (RowEvolves-refl r, append-RowsEvolve rs ss)

pub expire_row-RowEvolves : (now : ℕ) (r : RequestRow) → RowEvolves r (expire_row now r)
unfolding expire_row
expire_row-RowEvolves now r = elim (Bool-cases (is_overdue now r)) [
  | inl e ↦ rw e (
      set_items-RowEvolves (map expire_item r.items) r
        (map-ItemsEvolve expire_item r.items expire_item-Evolves))
  | inr e ↦ rw e (RowEvolves-refl r)
]
