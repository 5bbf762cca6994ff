-- ===== src/Text/Split.antt =====
-- Splitting at a separator and joining again, and paths as segments between slashes.
use openbao_authorizer.Prelude.{
  sym, ◌∙◌, ap₂, Bool-cases, inl, inr, eqb_iff, ℕ, ◌≡◌, refl, ap, true, false, List, [], ◌∷◌, ◌++◌,
  arith, if◌then◌else◌, eqb, any,
}
use openbao_authorizer.Text.Bytes.{Str, contains_byte}

-- One more byte in front of the first segment.
abbrev pub onto_first : ℕ → List Str → List Str
onto_first b [] = (b ∷ []) ∷ []
onto_first b (s ∷ segments) = (b ∷ s) ∷ segments

eqb_self : (c : ℕ) → eqb c c ≡ true
eqb_self c = ground arith

-- strings.Split and strings.SplitSeq at a separator of one byte
module _ (c : ℕ) where
  unfoldable pub split_by : Str → List Str
  split_by [] = [] ∷ []
  split_by (b ∷ s) = let rest = split_by s in if eqb b c then [] ∷ rest else onto_first b rest

  -- strings.Join with a separator of one byte
  unfoldable pub join_by : List Str → Str
  join_by [] = []
  join_by (s ∷ []) = s
  join_by (s ∷ t ∷ segments) = s ++ c ∷ join_by (t ∷ segments)

  -- The bytes before the first separator, and the segments after it.
  pub split-cons : (s : Str) → (h : Str) × (t : List Str) × (split_by s ≡ h ∷ t)
  unfolding split_by
  split-cons [] = ([], [], refl)
  split-cons (b ∷ s) = elim (Bool-cases (eqb b c)) [
    | inl e ↦ ([], split_by s, rw e)
    | inr e ↦ let (h, t, q) = split-cons s in (b ∷ h, t, rw e (rw q))
  ]

  pub split-slash : (b : ℕ) (s : Str) → eqb b c ≡ true → split_by (b ∷ s) ≡ [] ∷ split_by s
  unfolding split_by
  split-slash b s e = rw e

  pub split-onto :
      (b : ℕ) (s : Str) {h : Str} {t : List Str}
      → eqb b c ≡ false
      → split_by s ≡ h ∷ t
      → split_by (b ∷ s) ≡ (b ∷ h) ∷ t
  unfolding split_by
  split-onto b s e q = rw e (rw q)

  -- A segment holds no byte that the whole lacks.
  pub split-contains_byte :
      (d : ℕ) (s : Str) → contains_byte d s ≡ false → any (contains_byte d) (split_by s) ≡ false
  unfolding split_by
  split-contains_byte d [] h = refl
  split-contains_byte d (b ∷ s) h = elim (Bool-cases (eqb b c)) [
    | inl e ↦ rw e (split-contains_byte d s (ground arith))
    | inr e ↦
        let (x, t, q) = split-cons s in
        let rest = split-contains_byte d s (ground arith) in
        rw (e, q) (ground (arith, rw q at rest))
  ]

  join-onto : (b : ℕ) (h : Str) (t : List Str) → join_by ((b ∷ h) ∷ t) ≡ b ∷ join_by (h ∷ t)
  unfolding join_by
  join-onto b h [] = refl
  join-onto b h (x ∷ t) = refl

  -- Joining the segments gives the whole back.
  pub join-split : (s : Str) → join_by (split_by s) ≡ s
  unfolding join_by
  join-split [] = unfold split_by in refl
  join-split (b ∷ s) =
      let (h, t, q) = split-cons s in
      elim (Bool-cases (eqb b c)) [
        | inl e ↦
            rw (split-slash b s e, q)
              (ap₂ (λ (x : ℕ) (y : Str). x ∷ y) (sym ((eqb_iff b c).0 e))
                (ap join_by (sym q) ∙ join-split s))
        | inr e ↦
            rw (split-onto b s e q)
              (join-onto b h t ∙ ap (λ y. b ∷ y) (ap join_by (sym q) ∙ join-split s))
      ]

  ne_of_free : (b : ℕ) (s : Str) → contains_byte c (b ∷ s) ≡ false → eqb b c ≡ false
  ne_of_free b s h = ground arith

  split-free : (s : Str) → contains_byte c s ≡ false → split_by s ≡ s ∷ []
  unfolding split_by
  split-free [] h = refl
  split-free (b ∷ s) h = rw (ne_of_free b s h, split-free s (ground arith))

  split-append : (s r : Str) → contains_byte c s ≡ false → split_by (s ++ c ∷ r) ≡ s ∷ split_by r
  unfolding split_by
  split-append [] r h = rw (eqb_self c)
  split-append (b ∷ s) r h = rw (ne_of_free b s h, split-append s r (ground arith))

  -- Splitting gives back what was joined, if no part holds the separator and there is a part.
  pub split-join :
      (s : Str) (l : List Str)
      → any (contains_byte c) (s ∷ l) ≡ false
      → split_by (join_by (s ∷ l)) ≡ s ∷ l
  unfolding join_by
  split-join s [] h = split-free s (ground arith)
  split-join s (t ∷ l) h =
      split-append s (join_by (t ∷ l)) (ground arith)
      ∙ ap (λ x. s ∷ x) (split-join t l (ground arith))

-- A path's segments.
abbrev pub split : Str → List Str
split = split_by b'/'

-- The path up to and including the last slash, and the last segment: strings.LastIndex(s, "/") + 1.
unfoldable pub split_last : Str → Str × Str
split_last [] = ([], [])
split_last (b ∷ s) =
    let (directory, last) = split_last s in
    if contains_byte b'/' (b ∷ s) then (b ∷ directory, last) else ([], b ∷ s)
