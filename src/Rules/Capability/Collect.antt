-- ===== src/Rules/Capability/Collect.antt =====
-- The loop of `normalizeCapabilities`.
use openbao_authorizer.Prelude.{
  ◌≡◌, refl, sym, subst, ◌⊎◌, inl, inr, true, false, List, [], ◌∷◌, ◌++◌, In, here, there, All,
  Bool-cases, not-eq_false, append-In, In-append_left, In-append_right,
}
use openbao_authorizer.Prelude.Result.{ok, fail_if-eq-ok, ok-injective}
use openbao_authorizer.Text.Bytes.{Str, bytes, ◌==◌, eq→≡, contains, contains-In, In-contains}
use openbao_authorizer.Rules.Model.{Runtime, grantable_capabilities}
use openbao_authorizer.Rules.Capability.{fold_case, add_new, collect}
use openbao_authorizer.Rules.Capability.Order.{IsDistinct}

abbrev pub IsGrantable : Str → Type 0
IsGrantable capability = contains grantable_capabilities capability ≡ true

pub IsDistinct-concat :
    (l : List Str) {s : Str} → ¬ In s l → IsDistinct l → IsDistinct (l ++ s ∷ [])
IsDistinct-concat [] n h = (λ m. elim m [ ], tt)
IsDistinct-concat (t ∷ l) {s} n (k, h) = (later, IsDistinct-concat l (λ m. n (there m)) h)
  where
    single : In t (s ∷ []) → ⊥
    single (here e) = n (here (sym e))
    single (there m) = elim m [ ]

    later : ¬ In t (l ++ s ∷ [])
    later m = elim (append-In l m) [ inl a ↦ k a | inr b ↦ single b ]

add_new-IsDistinct : (l : List Str) (s : Str) → IsDistinct l → IsDistinct (add_new l s)
add_new-IsDistinct l s h = elim (Bool-cases (contains l s)) [
  | inl e ↦ rw e h
  | inr e ↦ rw e (IsDistinct-concat l (λ m. cc (e, In-contains l m)) h)
]

All-concat : (P : Str → Type 0) (l : List Str) {s : Str} → All P l → P s → All P (l ++ s ∷ [])
All-concat P [] h p = (p, tt)
All-concat P (t ∷ l) (q, h) p = (q, All-concat P l h p)

add_new-All :
    (l : List Str) (s : Str) → All IsGrantable l → IsGrantable s → All IsGrantable (add_new l s)
add_new-All l s h p = elim (Bool-cases (contains l s)) [
  | inl e ↦ rw e h
  | inr e ↦ rw e (All-concat IsGrantable l h p)
]

In-single : {s t : Str} → In t (s ∷ []) → t ≡ s
In-single (here e) = e
In-single (there m) = elim m [ ]

add_new-In : (l : List Str) (s : Str) {t : Str} → In t (add_new l s) → In t l ⊎ (t ≡ s)
add_new-In l s m = elim (Bool-cases (contains l s)) [
  | inl e ↦ inl (rw e at m)
  | inr e ↦ elim (append-In l (rw e at m)) [ inl k ↦ inl k | inr k ↦ inr (In-single k) ]
]

In-add_new_self : (l : List Str) (s : Str) → In s (add_new l s)
In-add_new_self l s = elim (Bool-cases (contains l s)) [
  | inl e ↦ rw e (contains-In l s e)
  | inr e ↦ rw e (In-append_right l (here refl))
]

In-add_new : (l : List Str) (s : Str) {t : Str} → In t l → In t (add_new l s)
In-add_new l s m = elim (Bool-cases (contains l s)) [
  | inl e ↦ rw e m
  | inr e ↦ rw e (In-append_left _ m)
]

pub grantable-ne-sudo : (s : Str) → IsGrantable s → (s == bytes "sudo") ≡ false
grantable-ne-sudo s g = elim (Bool-cases (s == bytes "sudo")) [
  | inl e ↦ absurd (sudo_not (subst IsGrantable (eq→≡ s (bytes "sudo") e) g))
  | inr e ↦ e
]
  where
    sudo_not : ¬ IsGrantable (bytes "sudo")
    sudo_not h = unfold ◌==◌ in cc h

-- What the loop of `normalizeCapabilities` makes of what it has collected and what is left.
module _ (rt : Runtime) where
  collect-nil : (acc : List Str) {out : List Str} → collect rt acc [] ≡ ok out → acc ≡ out
  unfolding collect
  collect-nil acc h = ok-injective h

  collect-cons :
      (acc : List Str) (r : Str) (rs : List Str) {out : List Str}
      → collect rt acc (r ∷ rs) ≡ ok out
      → IsGrantable (fold_case rt r) × (collect rt (add_new acc (fold_case rt r)) rs ≡ ok out)
  unfolding collect
  collect-cons acc r rs h =
      let (_, k) = fail_if-eq-ok _ _ _ h in
      let (g, rest) = fail_if-eq-ok _ _ _ k in (not-eq_false _ g, rest)

  pub collect-step :
      (acc : List Str) (r : Str) (rs : List Str)
      → IsGrantable (fold_case rt r)
      → collect rt acc (r ∷ rs) ≡ collect rt (add_new acc (fold_case rt r)) rs
  unfolding collect
  collect-step acc r rs g = rw (grantable-ne-sudo (fold_case rt r) g, g)

  pub collect-IsDistinct :
      (acc rs : List Str) {out : List Str}
      → collect rt acc rs ≡ ok out
      → IsDistinct acc
      → IsDistinct out
  collect-IsDistinct acc [] h d = subst IsDistinct (collect-nil acc h) d
  collect-IsDistinct acc (r ∷ rs) h d =
      collect-IsDistinct (add_new acc (fold_case rt r)) rs (collect-cons acc r rs h).1
        (add_new-IsDistinct acc (fold_case rt r) d)

  pub collect-All :
      (acc rs : List Str) {out : List Str}
      → collect rt acc rs ≡ ok out
      → All IsGrantable acc
      → All IsGrantable out
  collect-All acc [] h d = subst (All IsGrantable) (collect-nil acc h) d
  collect-All acc (r ∷ rs) h d =
      let (g, k) = collect-cons acc r rs h in
      collect-All (add_new acc (fold_case rt r)) rs k (add_new-All acc (fold_case rt r) d g)

  -- What a requested name is folded to.
  abbrev pub Asks : List Str → Str → Type 0
  Asks requested capability = (r : Str) × In r requested × (capability ≡ fold_case rt r)

  pub collect-asked :
      (acc rs : List Str) {out : List Str} {c : Str}
      → collect rt acc rs ≡ ok out
      → In c out
      → In c acc ⊎ Asks rs c
  collect-asked acc [] h m = inl (subst (In _) (sym (collect-nil acc h)) m)
  collect-asked acc (r ∷ rs) h m =
      let found = collect-asked (add_new acc (fold_case rt r)) rs (collect-cons acc r rs h).1 m in
      elim found [
        | inl k ↦ elim (add_new-In acc (fold_case rt r) k) [
          | inl old ↦ inl old
          | inr new ↦ inr (r, here refl, new)
        ]
        | inr (s, k, e) ↦ inr (s, there k, e)
      ]

  collect-kept :
      (acc rs : List Str) {out : List Str} {c : Str}
      → collect rt acc rs ≡ ok out
      → In c acc
      → In c out
  collect-kept acc [] h m = subst (In _) (collect-nil acc h) m
  collect-kept acc (r ∷ rs) h m =
      collect-kept (add_new acc (fold_case rt r)) rs (collect-cons acc r rs h).1
        (In-add_new acc (fold_case rt r) m)

  pub collect-added :
      (acc rs : List Str) {out : List Str} {r : Str}
      → collect rt acc rs ≡ ok out
      → In r rs
      → In (fold_case rt r) out
  collect-added acc [] h m = elim m [ ]
  collect-added acc (s ∷ rs) h (here e) =
      collect-kept (add_new acc (fold_case rt s)) rs (collect-cons acc s rs h).1 (
        subst (λ x. In (fold_case rt x) (add_new acc (fold_case rt s))) (sym e)
          (In-add_new_self acc (fold_case rt s)))
  collect-added acc (s ∷ rs) h (there m) =
      collect-added (add_new acc (fold_case rt s)) rs (collect-cons acc s rs h).1 m
