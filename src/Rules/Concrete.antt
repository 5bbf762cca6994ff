-- ===== src/Rules/Concrete.antt =====
-- Requested paths and text: `checkConcretePath`, `deniedSegment`, `hiddenRune`, `checkText` and
-- `sanitizeText`.
pub mod Shunned
pub mod Accepted
use openbao_authorizer.Prelude.{
  ℕ, zero, suc, ◌≡◌, refl, Bool, ◌&&◌, ◌||◌, not, Option, List, [], ◌∷◌, ◌++◌, if◌then◌else◌, any,
  find, take, length, ltb, leb,
}
use openbao_authorizer.Prelude.Result.{Result, ok, err, fail_if, ◌>>◌}
use openbao_authorizer.Text.Bytes.{
  Str, bytes, ◌==◌, contains, has_prefix, cut_suffix, trim_suffix, contains_byte, contains_any,
}
use openbao_authorizer.Text.Split.{split, split_by}
use openbao_authorizer.Text.Utf8.{chunks, runes, valid_string, encode, is_continuation}
use openbao_authorizer.Text.Unicode.{is_control, is_format, to_valid, to_lower}
use openbao_authorizer.Rules.Model.{
  Runtime, denied_segments, Refusal, path_required, path_too_long, path_not_concrete,
  path_leading_slash, path_not_utf8, path_bad_character, path_bad_segment,
}

unfoldable pub hidden_rune : ℕ → Bool
unfolding is_format
hidden_rune character = is_control character || is_format character

abbrev pub bad_character : ℕ → Bool
bad_character character =
    ltb character 0x21 || hidden_rune character || contains_byte character (bytes "\"\\{}$")

abbrev pub bad_segment : Str → Bool
bad_segment segment = segment == [] || segment == bytes "." || segment == bytes ".."

-- `ok` for the empty string that means no refusal.
unfoldable pub check_concrete_path : Str → Result Refusal (Unit {0})
unfolding hidden_rune ◌==◌ has_prefix cut_suffix split_by chunks
check_concrete_path path = do
  fail_if (path == []) path_required
  fail_if (ltb 512 (length path)) path_too_long
  fail_if (contains_any (bytes "*+") path) path_not_concrete
  fail_if (has_prefix path (bytes "/")) path_leading_slash
  fail_if (not (valid_string path)) path_not_utf8
  fail_if (any bad_character (runes path)) path_bad_character
  fail_if (any bad_segment (split (trim_suffix b'/' path))) path_bad_segment

-- `none` for the empty string that means no denied segment.
unfoldable pub denied_segment : Runtime → Str → Option Str
unfolding split_by to_lower ◌==◌
denied_segment rt path = find (contains denied_segments) (split (to_lower rt.lower_wide path))

unfoldable pub check_text : Str → Str → Bool
unfolding chunks hidden_rune
check_text value allowed =
    valid_string value
    && not (
        any (λ character. hidden_rune character && not (contains_byte character allowed))
          (runes value))

-- strings.Map with -1 for the hidden runes
abbrev pub encode_shown : List ℕ → Str
encode_shown [] = []
encode_shown (r ∷ rs) = if hidden_rune r then encode_shown rs else encode r ++ encode_shown rs

-- value[index], or 0 past the end
abbrev byte_at : Str → ℕ → ℕ
byte_at [] i = 0
byte_at (b ∷ s) zero = b
byte_at (b ∷ s) (suc i) = byte_at s i

-- for cut > 0 && !utf8.RuneStart(value[cut]) { cut-- }
unfoldable pub rune_cut : Str → ℕ → ℕ
rune_cut value zero = 0
rune_cut value (suc cut) =
    let earlier = rune_cut value cut in
    if is_continuation (byte_at value (suc cut)) then earlier else suc cut

unfoldable pub sanitize_text : Str → ℕ → Str
unfolding chunks encode hidden_rune rune_cut
sanitize_text text limit =
    let value = encode_shown (runes (to_valid text)) in
    if leb (length value) limit then value else take (rune_cut value limit) value

concrete_paths :
    (check_concrete_path (bytes "kv/app/") ≡ ok tt)
    × (check_concrete_path (bytes "kv//app") ≡ err path_bad_segment)
    × (check_concrete_path (bytes "kv/$app") ≡ err path_bad_character)
    × (check_concrete_path (0xFF ∷ []) ≡ err path_not_utf8)
unfolding check_concrete_path
concrete_paths = (refl, refl, refl, refl)

sanitized : sanitize_text (0x41 ∷ 0x07 ∷ 0xE2 ∷ 0x82 ∷ 0xAC ∷ 0xFF ∷ 0x42 ∷ []) 3 ≡ bytes "A"
unfolding sanitize_text
sanitized = refl
