-- ===== src/Rules/Pattern.antt =====
-- ACL path patterns: `validatePattern`, `overlapsDenylist`, `MatchPattern` and `splitLastSegment`.
pub mod Literal
pub mod Walk
use openbao_authorizer.Prelude.{
  ℕ, suc, ◌≡◌, refl, Bool, true, false, ◌&&◌, ◌||◌, not, Option, none, some, List, [], ◌∷◌,
  if◌then◌else◌, any, length, ltb, eqb,
}
use openbao_authorizer.Prelude.Result.{Result, ok, err, fail_if, ◌>>=◌, ◌>>◌}
use openbao_authorizer.Text.Bytes.{
  Str, bytes, ◌==◌, contains, has_prefix, cut_suffix, contains_byte, index_byte,
}
use openbao_authorizer.Text.Split.{split, split_by}
use openbao_authorizer.Text.Unicode.{to_lower}
use openbao_authorizer.Rules.Model.{Runtime, denied_segments}

pub data PatternError : Type 0 where
  pattern_required pattern_leading_slash star_not_last plus_not_segment : PatternError

abbrev plus : Str
plus = bytes "+"

abbrev star : Str
star = bytes "*"

-- index >= 0 && index != len(pattern)-1
star_inside : Str → Bool
unfolding index_byte
star_inside pattern = elim (index_byte b'*' pattern) [
  | none ↦ false
  | some i ↦ not (eqb (suc i) (length pattern))
]

unfoldable pub validate_pattern : Str → Result PatternError (Unit {0})
unfolding star_inside ◌==◌ has_prefix split_by
validate_pattern pattern = do
  fail_if (pattern == []) pattern_required
  fail_if (has_prefix pattern (bytes "/")) pattern_leading_slash
  fail_if (star_inside pattern) star_not_last
  fail_if (any (λ segment. contains_byte b'+' segment && not (segment == plus)) (split pattern))
      plus_not_segment

module _ (rt : Runtime) where
  -- One round of the loop of `overlapsDenylist`; `first` is index == 0.
  segment_overlaps : Bool → Str → Bool
  segment_overlaps first segment =
      let (prefix, is_glob) = cut_suffix b'*' segment in
      (first && (segment == plus || segment == star))
      || (is_glob && not (prefix == []) && any (λ denied. has_prefix denied prefix) denied_segments)
      || contains denied_segments segment

  segments_overlap : Bool → List Str → Bool
  segments_overlap first [] = false
  segments_overlap first (segment ∷ rest) =
      segment_overlaps first segment || segments_overlap false rest

  unfoldable pub overlaps_denylist : Str → Bool
  unfolding segments_overlap segment_overlaps cut_suffix ◌==◌ has_prefix split_by to_lower
  overlaps_denylist pattern = segments_overlap true (split (to_lower rt.lower_wide pattern))

-- One round of the loop of `MatchPattern`; `last` is index == len(patternParts)-1.
abbrev pub part_matches : Bool → Bool → Str → Str → Bool
part_matches is_prefix last part segment =
    part == plus || part == segment || (is_prefix && last && has_prefix segment part)

abbrev pub is_empty {ℓ} : {A : Type ℓ} → List A → Bool
is_empty [] = true
is_empty (_ ∷ _) = false

-- The loop over patternParts; pathParts is long enough by the length test before it.
unfoldable pub match_parts : Bool → List Str → List Str → Bool
match_parts is_prefix [] segments = true
match_parts is_prefix (part ∷ parts) [] = false
match_parts is_prefix (part ∷ parts) (segment ∷ segments) =
    part_matches is_prefix (is_empty parts) part segment && match_parts is_prefix parts segments

unfoldable pub match_pattern : Str → Str → Bool
unfolding cut_suffix
match_pattern pattern path =
    let (prefix, is_prefix) = cut_suffix b'*' pattern in
    let parts = split prefix in
    let segments = split path in
    if not (contains_byte b'+' prefix)
    then (if is_prefix then has_prefix path prefix else pattern == path)
    else if ltb (length segments) (length parts)
        || (not is_prefix && not (eqb (length segments) (length parts)))
    then false
    else match_parts is_prefix parts segments

plus_and_star : match_pattern (bytes "kv/+/app*") (bytes "kv/team/app1/x") ≡ true
unfolding match_pattern match_parts split_by has_prefix ◌==◌
plus_and_star = refl
