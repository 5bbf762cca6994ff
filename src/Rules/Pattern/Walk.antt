-- ===== src/Rules/Pattern/Walk.antt =====
-- `MatchPattern` against the ACL semantics as one walk over segments.
use openbao_authorizer.Prelude.{
  ℕ, ◌≡◌, refl, sym, ap, ◌∙◌, inl, inr, Bool, true, false, ◌&&◌, ◌||◌, not, List, [], ◌∷◌,
  if◌then◌else◌, length, ltb, eqb, Bool-cases, arith,
}
use openbao_authorizer.Text.Bytes.{
  Str, bytes, ◌==◌, eq_iff, has_prefix, cut_suffix, contains_byte, contains_any,
}
use openbao_authorizer.Text.Split.{split, split-cons}
use openbao_authorizer.Rules.Pattern.{match_parts, match_pattern}
use openbao_authorizer.Rules.Pattern.Literal.{acl_match, literal_match, literal-acl_match}

eq-has_prefix : (s : Str) → has_prefix s s ≡ true
unfolding has_prefix
eq-has_prefix [] = refl
eq-has_prefix (a ∷ s) = ground (arith, eq-has_prefix s)

-- The length test and the loop, for patterns that have a `+`.
walk_parts :
    (is_prefix : Bool) (part : Str) (parts segments : List Str)
    → (if ltb (length segments) (length (part ∷ parts))
          || (not is_prefix && not (eqb (length segments) (length (part ∷ parts))))
        then false
        else match_parts is_prefix (part ∷ parts) segments)
      ≡ acl_match is_prefix (part ∷ parts) segments
unfolding match_parts
walk_parts true part [] [] = ground arith
walk_parts true part [] (s ∷ segments) = ground (arith, eq-has_prefix s, eq_iff part s)
walk_parts false part [] [] = ground arith
walk_parts false part [] (s ∷ []) = ground arith
walk_parts false part [] (s ∷ t ∷ segments) = ground arith
walk_parts true part (next ∷ parts) [] = ground arith
walk_parts true part (next ∷ parts) (s ∷ segments) =
    ground (arith, walk_parts true next parts segments)
walk_parts false part (next ∷ parts) [] = ground arith
walk_parts false part (next ∷ parts) (s ∷ segments) =
    ground (arith, walk_parts false next parts segments)

cut_suffix-false : (c : ℕ) (s : Str) → (cut_suffix c s).1 ≡ false → (cut_suffix c s).0 ≡ s
unfolding cut_suffix
cut_suffix-false c [] h = refl
cut_suffix-false c (b ∷ []) h = ground arith
cut_suffix-false c (b ∷ d ∷ s) h = ap (λ x. b ∷ x) (cut_suffix-false c (d ∷ s) h)

match_cut :
    (f : Bool) (p pattern path : Str)
    → (f ≡ false → p ≡ pattern)
    → (if not (contains_byte b'+' p)
        then (if f then has_prefix path p else pattern == path)
        else if ltb (length (split path)) (length (split p))
            || (not f && not (eqb (length (split path)) (length (split p))))
        then false
        else match_parts f (split p) (split path))
      ≡ acl_match f (split p) (split path)
match_cut f p pattern path whole = elim (Bool-cases (contains_byte b'+' p)) [
  | inl e ↦ let (h, t, d) = split-cons b'/' p in rw (e, d) (walk_parts f h t (split path))
  | inr e ↦ rw e (shortcut f whole ∙ literal-acl_match f p path e)
]
  where
    shortcut :
        (g : Bool)
        → (g ≡ false → p ≡ pattern)
        → (if g then has_prefix path p else pattern == path) ≡ literal_match g p path
    shortcut true h = refl
    shortcut false h = ap (λ x. x == path) (sym (h refl))

-- MatchPattern, by either of its two ways, is the walk over segments that an ACL pattern means:
-- open if the pattern ends in an asterisk, and over the segments of the pattern without it.
pub match_pattern-acl_match :
    (pattern path : Str)
    → match_pattern pattern path
      ≡ acl_match (cut_suffix b'*' pattern).1 (split (cut_suffix b'*' pattern).0) (split path)
unfolding match_pattern
match_pattern-acl_match pattern path = match_cut _ _ pattern path (cut_suffix-false b'*' pattern)

cut_suffix-absent : (c : ℕ) (s : Str) → contains_byte c s ≡ false → (cut_suffix c s).1 ≡ false
unfolding cut_suffix
cut_suffix-absent c [] h = refl
cut_suffix-absent c (b ∷ []) h = ground arith
cut_suffix-absent c (b ∷ d ∷ s) h = cut_suffix-absent c (d ∷ s) (ground arith)

no_wildcards :
    (s : Str)
    → contains_any (bytes "*+") s ≡ false
    → (contains_byte b'*' s ≡ false) × (contains_byte b'+' s ≡ false)
no_wildcards [] h = (refl, refl)
no_wildcards (b ∷ s) h = let ih = no_wildcards s (ground arith) in (ground arith, ground arith)

-- A pattern without wildcards matches the path that equals it and no other.
pub match_pattern-concrete :
    (pattern path : Str)
    → contains_any (bytes "*+") pattern ≡ false
    → match_pattern pattern path ≡ (pattern == path)
unfolding match_pattern
match_pattern-concrete pattern path h =
    let (no_star, none_plus) = no_wildcards pattern h in
    let shut = cut_suffix-absent b'*' pattern no_star in
    rw (shut, cut_suffix-false b'*' pattern shut, none_plus) refl
