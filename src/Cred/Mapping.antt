-- ===== src/Cred/Mapping.antt =====
-- `parseMapping`, `validName` and `resolveMappings`.
use openbao_authorizer.Prelude.{ℕ, Bool, false, ◌&&◌, ◌||◌, not, List, [], ◌∷◌, ◌++◌, all, leb, eqb}
use openbao_authorizer.Prelude.Result.{Result, ok, fail_if, ◌>>=◌, ◌>>◌}
use openbao_authorizer.Text.Bytes.{Str, cut, contains, contains_byte}
use openbao_authorizer.Rules.Pattern.{is_empty}
use openbao_authorizer.Cred.Model.{
  Fields, Mapping, CredError, mapping_malformed, mapping_repeated, value_has_nul,
}
use openbao_authorizer.Cred.FieldPath.{select_value, scalar}

abbrev pub is_name_start : ℕ → Bool
is_name_start b = eqb b b'_' || (leb b'A' b && leb b b'Z') || (leb b'a' b && leb b b'z')

abbrev pub is_name_part : ℕ → Bool
is_name_part b = is_name_start b || (leb b'0' b && leb b b'9')

unfoldable pub valid_name : Str → Bool
valid_name [] = false
valid_name (b ∷ rest) = is_name_start b && all is_name_part rest

unfoldable pub parse_mapping : Str → Result CredError Mapping
unfolding cut valid_name
parse_mapping raw = do
  let (name, path, found) = cut b'=' raw
  fail_if (not found || not (valid_name name) || is_empty path) (mapping_malformed raw)
  ok (record { name = name; path = path })

-- mapping.Name + "=" + scalar
abbrev pub assignment : Str → Str → Str
assignment name content = name ++ b'=' ∷ content

-- The loop of `resolveMappings`, with the names in `seen`.
unfoldable pub resolve_each : Fields → List Str → List Mapping → Result CredError (List Str)
resolve_each fields seen [] = ok []
resolve_each fields seen (m ∷ rest) = do
  fail_if (contains seen m.name) (mapping_repeated m.name)
  chosen ← select_value fields m.path
  content ← scalar chosen
  fail_if (contains_byte 0 content) value_has_nul
  values ← resolve_each fields (m.name ∷ seen) rest
  ok (assignment m.name content ∷ values)

unfoldable pub resolve_mappings : Fields → List Mapping → Result CredError (List Str)
unfolding resolve_each
resolve_mappings fields mappings = resolve_each fields [] mappings
