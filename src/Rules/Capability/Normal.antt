-- ===== src/Rules/Capability/Normal.antt =====
-- What `normalizeCapabilities` returns.
use openbao_authorizer.Prelude.{
  All-In, ◌≡◌, ◌≢◌, refl, sym, ap, ◌∙◌, subst, ◌⊎◌, inl, inr, ◌↔◌, List, [], ◌∷◌, ◌++◌, In, here,
  there, All, Bool-cases, append-In, append_assoc, append-nil,
}
use openbao_authorizer.Prelude.Result.{ok, >>=-eq-ok, ok-injective}
use openbao_authorizer.Text.Bytes.{Str, contains, contains-In}
use openbao_authorizer.Text.Unicode.{trim_space, to_lower}
use openbao_authorizer.Rules.Model.{Runtime, grantable_capabilities}
use openbao_authorizer.Rules.Capability.{fold_case, add_new, collect, normalize_capabilities, sort}
use openbao_authorizer.Rules.Capability.Order.{
  IsAscending, IsDistinct, sort-In, In-sort, sort-IsAscending, sort_of_IsAscending,
  IsAscending-IsDistinct,
}
use openbao_authorizer.Rules.Capability.Collect.{
  IsGrantable, Asks, collect-step, collect-IsDistinct, collect-All, collect-asked, collect-added,
}

sort-All :
    (P : Str → Type 0) (l : List Str)
    → ((s : Str) → In s l → P s)
    → (k : List Str) → ((s : Str) → In s k → In s l)
    → All P k
sort-All P l h [] i = tt
sort-All P l h (s ∷ k) i = (h s (i s (here refl)), sort-All P l h k (λ t m. i t (there m)))

module _ (rt : Runtime) where
  pub record IsNormal (requested capabilities : List Str) : Type 0 where
    pub ascends : IsAscending capabilities
    pub grantable : All IsGrantable capabilities
    pub asked : (c : Str) → In c capabilities ↔ Asks rt requested c

  asked_now : {rs : List Str} {c : Str} → In c [] ⊎ Asks rt rs c → Asks rt rs c
  asked_now (inl m) = elim m [ ]
  asked_now (inr a) = a

  -- Normalised capabilities are grantable, stand in ascending order without repetition, and are
  -- exactly the requested names, trimmed and in lower case.
  pub normalize-IsNormal :
      (requested : List Str) {capabilities : List Str}
      → normalize_capabilities rt requested ≡ ok capabilities
      → IsNormal requested capabilities
  unfolding normalize_capabilities
  normalize-IsNormal [] h = cc
  normalize-IsNormal (r ∷ rs) h =
      let (names, collected, sorted) = >>=-eq-ok (collect rt [] (r ∷ rs)) _ h in
      subst (IsNormal (r ∷ rs)) (ok-injective sorted) (record {
        ascends = sort-IsAscending names (collect-IsDistinct rt [] (r ∷ rs) collected tt);
        grantable =
            sort-All IsGrantable names
              (λ s m. All-In IsGrantable names (collect-All rt [] (r ∷ rs) collected tt) m)
              (sort names) (λ s m. sort-In names m);
        asked = λ c. (
          λ m. asked_now (collect-asked rt [] (r ∷ rs) collected (sort-In names m)),
          λ (s, m, e).
              subst (λ x. In x (sort names)) (sym e)
                (In-sort names (collect-added rt [] (r ∷ rs) collected m)),
        );
      })

  grantable_folds : All (λ s. fold_case rt s ≡ s) grantable_capabilities
  unfolding trim_space to_lower
  grantable_folds = (refl, (refl, (refl, (refl, (refl, (refl, tt))))))

  fold_case-IsGrantable : (s : Str) → IsGrantable s → fold_case rt s ≡ s
  fold_case-IsGrantable s g =
      All-In (λ t. fold_case rt t ≡ t) grantable_capabilities grantable_folds
        (contains-In grantable_capabilities s g)

  add_new-absent : (acc : List Str) (s : Str) → ¬ In s acc → add_new acc s ≡ acc ++ s ∷ []
  add_new-absent acc s n = elim (Bool-cases (contains acc s)) [
    | inl e ↦ absurd (n (contains-In acc s e))
    | inr e ↦ rw e
  ]

  collect_distinct :
      (acc rs : List Str)
      → All IsGrantable rs
      → IsDistinct rs
      → ((s : Str) → In s rs → ¬ In s acc)
      → collect rt acc rs ≡ ok (acc ++ rs)
  collect_distinct acc [] g d n = unfold collect in rw append-nil
  collect_distinct acc (r ∷ rs) (g, gs) (d, ds) n =
      collect-step rt acc r rs (rw (fold_case-IsGrantable r g) g)
      ∙ ap (λ x. collect rt (add_new acc x) rs) (fold_case-IsGrantable r g)
      ∙ ap (λ x. collect rt x rs) (add_new-absent acc r (n r (here refl)))
      ∙ collect_distinct (acc ++ r ∷ []) rs gs ds fresh
      ∙ ap ok (append_assoc acc (r ∷ []) rs)
    where
      not_r : {s : Str} → In s rs → In s (r ∷ []) → ⊥
      not_r m (here e) = d (subst (λ x. In x rs) e m)
      not_r m (there k) = elim k [ ]

      fresh : (s : Str) → In s rs → ¬ In s (acc ++ r ∷ [])
      fresh s m k = elim (append-In acc k) [ inl old ↦ n s (there m) old | inr new ↦ not_r m new ]

  -- Normalising capabilities that are normal for some request of at least one name gives them
  -- back.
  pub normalize_of_IsNormal :
      (requested capabilities : List Str)
      → requested ≢ []
      → IsNormal requested capabilities
      → normalize_capabilities rt capabilities ≡ ok capabilities
  normalize_of_IsNormal [] capabilities some_asked h = absurd (some_asked refl)
  normalize_of_IsNormal (r ∷ rs) [] some_asked h =
      elim ((h.asked (fold_case rt r)).1 (r, here refl, refl)) [ ]
  normalize_of_IsNormal (r ∷ rs) (c ∷ cs) some_asked h =
      let whole =
        collect_distinct [] (c ∷ cs) h.grantable (IsAscending-IsDistinct (c ∷ cs) h.ascends)
          (λ s m k. elim k [ ]) in
      unfold normalize_capabilities in rw whole (ap ok (sort_of_IsAscending (c ∷ cs) h.ascends))
