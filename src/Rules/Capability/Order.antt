-- ===== src/Rules/Capability/Order.antt =====
-- The order of strings, and sorting by it.
use openbao_authorizer.Prelude.{
  ◌≡◌, ℕ, refl, sym, ap₂, subst, eqb, eqb_iff, ◌≢◌, ◌⊎◌, inl, inr, true, false, List, [], ◌∷◌,
  arith, In, here, there, All, Bool-cases,
}
use openbao_authorizer.Text.Bytes.{Str}
use openbao_authorizer.Rules.Capability.{str_lt, insert, sort}

str_lt_trans : (r s t : Str) → str_lt r s ≡ true → str_lt s t ≡ true → str_lt r t ≡ true
unfolding str_lt
str_lt_trans r s [] h k = cc
str_lt_trans r [] (c ∷ t) h k = cc
str_lt_trans [] (b ∷ s) (c ∷ t) h k = refl
str_lt_trans (a ∷ r) (b ∷ s) (c ∷ t) h k = ground (arith, str_lt_trans r s t)

str_lt_total : (s t : Str) → str_lt s t ≡ false → s ≢ t → str_lt t s ≡ true
unfolding str_lt
str_lt_total [] [] h n = absurd (n refl)
str_lt_total (a ∷ s) [] h n = refl
str_lt_total [] (b ∷ t) h n = cc
str_lt_total (a ∷ s) (b ∷ t) h n = elim (Bool-cases (eqb a b)) [
  | inl e ↦
      let same = (eqb_iff a b).0 e in
      let ih = str_lt_total s t (ground arith) (λ q. n (ap₂ (λ (x : ℕ) (y : Str). x ∷ y) same q)) in
      ground (arith, ih)
  | inr e ↦ ground arith
]

str_lt_irrefl : (s : Str) → str_lt s s ≡ false
unfolding str_lt
str_lt_irrefl [] = refl
str_lt_irrefl (a ∷ s) = ground (arith, str_lt_irrefl s)

str_lt_asymm : (s t : Str) → str_lt s t ≡ true → str_lt t s ≡ false
unfolding str_lt
str_lt_asymm s [] h = cc
str_lt_asymm [] (b ∷ t) h = refl
str_lt_asymm (a ∷ s) (b ∷ t) h = ground (arith, str_lt_asymm s t)

-- Each string stands below all that follow it, so none stands there twice.
abbrev pub IsAscending : List Str → Type 0
IsAscending [] = Unit
IsAscending (s ∷ l) = All (λ t. str_lt s t ≡ true) l × IsAscending l

above_trans :
    (s t : Str) (l : List Str)
    → str_lt s t ≡ true
    → All (λ u. str_lt t u ≡ true) l
    → All (λ u. str_lt s u ≡ true) l
above_trans s t [] h k = tt
above_trans s t (u ∷ l) h (k, ks) = (str_lt_trans s t u h k, above_trans s t l h ks)

above_insert :
    (r s : Str) (l : List Str)
    → str_lt r s ≡ true
    → All (λ u. str_lt r u ≡ true) l
    → All (λ u. str_lt r u ≡ true) (insert s l)
unfolding insert
above_insert r s [] h k = (h, tt)
above_insert r s (t ∷ l) h (k, ks) = ground (arith, above_insert r s l h ks)

insert-IsAscending : (s : Str) (l : List Str) → ¬ In s l → IsAscending l → IsAscending (insert s l)
unfolding insert
insert-IsAscending s [] n h = (tt, tt)
insert-IsAscending s (t ∷ l) n (h, hs) = elim (Bool-cases (str_lt t s)) [
  | inl e ↦ rw e (above_insert t s l e h, insert-IsAscending s l (λ m. n (there m)) hs)
  | inr e ↦
      let below = str_lt_total t s e (λ q. n (here (sym q))) in
      rw e ((below, above_trans s t l below h), (h, hs))
]

In-second :
    {s t u : Str} {l k : List Str}
    → (In t k → (t ≡ s) ⊎ In t l)
    → In t (u ∷ k)
    → (t ≡ s) ⊎ In t (u ∷ l)
In-second f (here e) = inr (here e)
In-second f (there m) = elim (f m) [ inl e ↦ inl e | inr k ↦ inr (there k) ]

In-first : {s t : Str} {l : List Str} → In t (s ∷ l) → (t ≡ s) ⊎ In t l
In-first (here e) = inl e
In-first (there m) = inr m

insert-In : (s : Str) (l : List Str) {t : Str} → In t (insert s l) → (t ≡ s) ⊎ In t l
unfolding insert
insert-In s [] m = In-first m
insert-In s (u ∷ l) m = elim (Bool-cases (str_lt u s)) [
  | inl e ↦ In-second (λ k. insert-In s l k) (rw e at m)
  | inr e ↦ In-first (rw e at m)
]

In-insert_self : (s : Str) (l : List Str) → In s (insert s l)
unfolding insert
In-insert_self s [] = here refl
In-insert_self s (u ∷ l) = elim (Bool-cases (str_lt u s)) [
  | inl e ↦ rw e (there (In-insert_self s l))
  | inr e ↦ rw e (here refl)
]

In-insert : (s : Str) (l : List Str) {t : Str} → In t l → In t (insert s l)
unfolding insert
In-insert s [] m = elim m [ ]
In-insert s (u ∷ l) (here q) = elim (Bool-cases (str_lt u s)) [
  | inl e ↦ rw e (here q)
  | inr e ↦ rw e (there (here q))
]
In-insert s (u ∷ l) (there m) = elim (Bool-cases (str_lt u s)) [
  | inl e ↦ rw e (there (In-insert s l m))
  | inr e ↦ rw e (there (there m))
]

pub sort-In : (l : List Str) {t : Str} → In t (sort l) → In t l
unfolding sort
sort-In [] m = m
sort-In (s ∷ l) m = elim (insert-In s (sort l) m) [ inl e ↦ here e | inr k ↦ there (sort-In l k) ]

pub In-sort : (l : List Str) {t : Str} → In t l → In t (sort l)
unfolding sort
In-sort [] m = m
In-sort (s ∷ l) {t} (here e) =
    subst (λ x. In x (insert s (sort l))) (sym e) (In-insert_self s (sort l))
In-sort (s ∷ l) (there m) = In-insert s (sort l) (In-sort l m)

-- No string stands twice in the list.
abbrev pub IsDistinct : List Str → Type 0
IsDistinct [] = Unit
IsDistinct (s ∷ l) = (¬ In s l) × IsDistinct l

pub sort-IsAscending : (l : List Str) → IsDistinct l → IsAscending (sort l)
unfolding sort
sort-IsAscending [] h = tt
sort-IsAscending (s ∷ l) (n, h) =
    insert-IsAscending s (sort l) (λ m. n (sort-In l m)) (sort-IsAscending l h)

insert_below : (s : Str) (l : List Str) → All (λ t. str_lt s t ≡ true) l → insert s l ≡ s ∷ l
unfolding insert
insert_below s [] h = refl
insert_below s (t ∷ l) (h, hs) = rw (str_lt_asymm s t h)

-- Sorting leaves a list that ascends as it is.
pub sort_of_IsAscending : (l : List Str) → IsAscending l → sort l ≡ l
unfolding sort
sort_of_IsAscending [] h = refl
sort_of_IsAscending (s ∷ l) (h, hs) = rw (sort_of_IsAscending l hs) (insert_below s l h)

not-In_of_below : (s : Str) (l : List Str) → All (λ t. str_lt s t ≡ true) l → ¬ In s l
not-In_of_below s [] h m = elim m [ ]
not-In_of_below s (t ∷ l) (h, hs) (here e) =
    cc (str_lt_irrefl s, subst (λ x. str_lt s x ≡ true) (sym e) h)
not-In_of_below s (t ∷ l) (h, hs) (there m) = not-In_of_below s l hs m

pub IsAscending-IsDistinct : (l : List Str) → IsAscending l → IsDistinct l
IsAscending-IsDistinct [] h = tt
IsAscending-IsDistinct (s ∷ l) (h, hs) = (not-In_of_below s l h, IsAscending-IsDistinct l hs)
