-- ===== src/Rules/Resolve/Best.antt =====
-- The loop of `Resolve` over the rules: which rule it settles on.
use openbao_authorizer.Prelude.{
  ◌≡◌, refl, sym, ap, subst, ◌∙◌, ◌⊎◌, inl, inr, Bool, true, false, ◌||◌, Option, none, some, List,
  [], ◌∷◌, In, here, there, some_inj, Bool-cases, if◌then◌else◌,
}
use openbao_authorizer.Prelude.Int.{ltb_ℤ, ◌≤ℤ◌, ≤ℤ_refl, ≤ℤ_trans, lt-le_ℤ}
use openbao_authorizer.Text.Bytes.{Str}
use openbao_authorizer.Rules.Model.{Rule, Policy}
use openbao_authorizer.Rules.Pattern.{match_pattern}
use openbao_authorizer.Rules.Resolve.{max_ttl_of, better, rule_matches, scan}

module _ (p : Policy) where
  better-ge_best : (b r : Rule) → max_ttl_of p b ≤ℤ max_ttl_of p (better p (some b) r)
  unfolding better
  better-ge_best b r = elim (Bool-cases (ltb_ℤ (max_ttl_of p b) (max_ttl_of p r))) [
    | inl e ↦ rw e (lt-le_ℤ (max_ttl_of p b) (max_ttl_of p r) e)
    | inr e ↦ rw e (≤ℤ_refl (max_ttl_of p b))
  ]

  better-ge : (o : Option Rule) (r : Rule) → max_ttl_of p r ≤ℤ max_ttl_of p (better p o r)
  unfolding better
  better-ge none r = ≤ℤ_refl (max_ttl_of p r)
  better-ge (some b) r = elim (Bool-cases (ltb_ℤ (max_ttl_of p b) (max_ttl_of p r))) [
    | inl e ↦ rw e (≤ℤ_refl (max_ttl_of p r))
    | inr e ↦ rw e e
  ]

  better-choice : (o : Option Rule) (r : Rule) → (o ≡ some (better p o r)) ⊎ (better p o r ≡ r)
  unfolding better
  better-choice none r = inr refl
  better-choice (some b) r = elim (Bool-cases (ltb_ℤ (max_ttl_of p b) (max_ttl_of p r))) [
    | inl e ↦ rw e (inr refl)
    | inr e ↦ rw e (inl refl)
  ]

  module _ (path : Str) (capabilities : List Str) where
    abbrev pub Covers : Rule → Type 0
    Covers rule = rule_matches p path capabilities rule ≡ true

    abbrev result : List Rule → Bool → Option Rule → Option Rule
    result rules matched best = (scan p path capabilities rules matched best).1

    -- `b` is the best of `rules` and of what was found before them.
    record IsBest (rules : List Rule) (before : Option Rule) (b : Rule) : Type 0 where
      beats_before : (c : Rule) → before ≡ some c → max_ttl_of p c ≤ℤ max_ttl_of p b
      beats_rules : (r : Rule) → In r rules → Covers r → max_ttl_of p r ≤ℤ max_ttl_of p b
      source : (before ≡ some b) ⊎ (In b rules × Covers b)

    scan_covered :
        (rule : Rule) (rules : List Rule) (matched : Bool) (before : Option Rule)
        → Covers rule
        → result (rule ∷ rules) matched before
          ≡ result rules (match_pattern rule.path path || matched) (some (better p before rule))
    unfolding scan
    scan_covered rule rules matched before e =
        ap
          (λ (t : Bool).
            (scan p path capabilities rules (match_pattern rule.path path || matched)
              (if t then some (better p before rule) else before)).1)
          e

    scan_passed :
        (rule : Rule) (rules : List Rule) (matched : Bool) (before : Option Rule)
        → rule_matches p path capabilities rule ≡ false
        → result (rule ∷ rules) matched before
          ≡ result rules (match_pattern rule.path path || matched) before
    unfolding scan
    scan_passed rule rules matched before e =
        ap
          (λ (t : Bool).
            (scan p path capabilities rules (match_pattern rule.path path || matched)
              (if t then some (better p before rule) else before)).1)
          e

    IsBest-covered :
        (rule : Rule) (rules : List Rule) (before : Option Rule) (b : Rule)
        → Covers rule
        → IsBest rules (some (better p before rule)) b
        → IsBest (rule ∷ rules) before b
    IsBest-covered rule rules before b covered h = record {
      beats_before = λ c e.
          ≤ℤ_trans (max_ttl_of p c) (max_ttl_of p (better p before rule)) (max_ttl_of p b)
            (subst (λ o. max_ttl_of p c ≤ℤ max_ttl_of p (better p o rule)) (sym e)
              (better-ge_best c rule))
            first;
      beats_rules = λ r m _covers. beats r m _covers;
      source = origin h.source;
    }
      where
        first : max_ttl_of p (better p before rule) ≤ℤ max_ttl_of p b
        first = h.beats_before (better p before rule) refl

        beats : (r : Rule) → In r (rule ∷ rules) → Covers r → max_ttl_of p r ≤ℤ max_ttl_of p b
        beats r (here e) covers =
            subst (λ x. max_ttl_of p x ≤ℤ max_ttl_of p b) (sym e)
              (≤ℤ_trans (max_ttl_of p rule) (max_ttl_of p (better p before rule)) (max_ttl_of p b)
                (better-ge before rule) first)
        beats r (there m) covers = h.beats_rules r m covers

        chosen :
            (before ≡ some (better p before rule)) ⊎ (better p before rule ≡ rule)
            → better p before rule ≡ b
            → (before ≡ some b) ⊎ (In b (rule ∷ rules) × Covers b)
        chosen (inl old) q = inl (old ∙ ap some q)
        chosen (inr new) q =
            let same = sym q ∙ new in inr (here same, subst Covers (sym same) covered)

        origin :
            (some (better p before rule) ≡ some b) ⊎ (In b rules × Covers b)
            → (before ≡ some b) ⊎ (In b (rule ∷ rules) × Covers b)
        origin (inl q) = chosen (better-choice before rule) (some_inj q)
        origin (inr (m, covers)) = inr (there m, covers)

    IsBest-passed :
        (rule : Rule) (rules : List Rule) (before : Option Rule) (b : Rule)
        → rule_matches p path capabilities rule ≡ false
        → IsBest rules before b
        → IsBest (rule ∷ rules) before b
    IsBest-passed rule rules before b passed h = record {
      beats_before = h.beats_before;
      beats_rules = beats;
      source = origin h.source;
    }
      where
        beats : (r : Rule) → In r (rule ∷ rules) → Covers r → max_ttl_of p r ≤ℤ max_ttl_of p b
        beats r (here e) covers = cc (passed, subst Covers e covers)
        beats r (there m) covers = h.beats_rules r m covers

        origin :
            (before ≡ some b) ⊎ (In b rules × Covers b)
            → (before ≡ some b) ⊎ (In b (rule ∷ rules) × Covers b)
        origin (inl q) = inl q
        origin (inr (m, covers)) = inr (there m, covers)

    scan-IsBest :
        (rules : List Rule) (matched : Bool) (before : Option Rule) {b : Rule}
        → result rules matched before ≡ some b
        → IsBest rules before b
    scan-IsBest [] matched before {b} h =
        let h' : before ≡ some b = unfold scan in h in
        record {
          beats_before = λ c e.
              subst (λ x. max_ttl_of p x ≤ℤ max_ttl_of p b) (some_inj (sym h' ∙ e))
                (≤ℤ_refl (max_ttl_of p b));
          beats_rules = λ r m. elim m [ ];
          source = inl h';
        }
    scan-IsBest (rule ∷ rules) matched before {b} h =
        elim (Bool-cases (rule_matches p path capabilities rule)) [
          | inl e ↦ IsBest-covered rule rules before b e (
              scan-IsBest rules _ (some (better p before rule))
                (sym (scan_covered rule rules matched before e) ∙ h))
          | inr e ↦
              IsBest-passed rule rules before b e
                (scan-IsBest rules _ before (sym (scan_passed rule rules matched before e) ∙ h))
        ]

    -- Once a rule is found, one is kept to the end.
    scan_keeps :
        (rules : List Rule) (matched : Bool) (before : Rule)
        → (b : Rule) × (result rules matched (some before) ≡ some b)
    scan_keeps [] matched before = (before, unfold scan in refl)
    scan_keeps (rule ∷ rules) matched before =
        elim (Bool-cases (rule_matches p path capabilities rule)) [
          | inl e ↦
              let (b, h) = scan_keeps rules _ (better p (some before) rule) in
              (b, scan_covered rule rules matched (some before) e ∙ h)
          | inr e ↦
              let (b, h) = scan_keeps rules _ before in
              (b, scan_passed rule rules matched (some before) e ∙ h)
        ]

    -- A covering rule is enough for the loop to find one.
    pub scan_finds :
        (rules : List Rule) (matched : Bool) {r : Rule}
        → In r rules
        → Covers r
        → (b : Rule) × (result rules matched none ≡ some b)
    scan_finds [] matched m covers = elim m [ ]
    scan_finds (rule ∷ rules) matched (here e) covers =
        let covered = subst Covers e covers in
        let (b, h) = scan_keeps rules _ (better p none rule) in
        (b, scan_covered rule rules matched none covered ∙ h)
    scan_finds (rule ∷ rules) matched (there m) covers =
        elim (Bool-cases (rule_matches p path capabilities rule)) [
          | inl e ↦
              let (b, h) = scan_keeps rules _ (better p none rule) in
              (b, scan_covered rule rules matched none e ∙ h)
          | inr e ↦
              let (b, h) = scan_finds rules _ m covers in
              (b, scan_passed rule rules matched none e ∙ h)
        ]

    -- What the loop finds from its start: a covering rule, and none covering has a larger limit.
    pub scan_best :
        {b : Rule}
        → result p.rules false none ≡ some b
        → In b p.rules
          × Covers b
          × ((r : Rule) → In r p.rules → Covers r → max_ttl_of p r ≤ℤ max_ttl_of p b)
    scan_best {b} h = let best = scan-IsBest p.rules false none h in from_rules best best.source
      where
        from_rules :
            IsBest p.rules none b
            → (none ≡ some b) ⊎ (In b p.rules × Covers b)
            → In b p.rules
              × Covers b
              × ((r : Rule) → In r p.rules → Covers r → max_ttl_of p r ≤ℤ max_ttl_of p b)
        from_rules best (inl e) = cc
        from_rules best (inr (m, covers)) = (m, covers, best.beats_rules)
