-- ===== src/Cred/FieldPath.antt =====
-- `splitPath` and `selectValue`: fields at a dot path.
pub mod RoundTrip
use openbao_authorizer.Prelude.{
  ℕ, suc, zero, ◌+◌, ◌*◌, ◌-◌, Bool, true, false, ◌&&◌, ◌||◌, not, Option, none, some, List, [],
  ◌∷◌, ◌++◌, if◌then◌else◌, ltb, leb, eqb,
}
use openbao_authorizer.Prelude.Result.{Result, ok, err, fail_if, ◌>>=◌, ◌>>◌}
use openbao_authorizer.Text.Bytes.{Str, bytes, ◌==◌}
use openbao_authorizer.Text.Utf8.{runes, encode, chunks, decode}
use openbao_authorizer.Rules.Pattern.{is_empty}
use openbao_authorizer.Cred.Model.{
  Value, null, text, flag, number, object, array, Fields, object_end, field, Values, array_end,
  value, CredError, path_empty, empty_segment, trailing_escape, field_missing, traverses_scalar,
  index_invalid, not_scalar,
}

-- The loop of `splitPath` over the characters, with `escaped`, `segment` and `segments`.
unfoldable pub split_runes : Str → List ℕ → Bool → Str → List Str → Result CredError (List Str)
unfolding encode
split_runes path [] true segment segments = err (trailing_escape path)
split_runes path [] false segment segments =
    if is_empty segment then err (empty_segment path) else ok (segments ++ segment ∷ [])
split_runes path (c ∷ rest) true segment segments =
    split_runes path rest false (segment ++ encode c) segments
split_runes path (c ∷ rest) false segment segments = elim (eqb c b'\\') [
  | true ↦ split_runes path rest true segment segments
  | false ↦ elim (eqb c b'.') [
    | true ↦
        if is_empty segment
        then err (empty_segment path)
        else split_runes path rest false [] (segments ++ segment ∷ [])
    | false ↦ split_runes path rest false (segment ++ encode c) segments
  ]
]

unfoldable pub split_path : Str → Result CredError (List Str)
unfolding split_runes chunks decode
split_path path =
    if is_empty path then err path_empty else split_runes path (runes path) false [] []

abbrev pub digits_value : Str → ℕ → Option ℕ
digits_value [] n = some n
digits_value (d ∷ rest) n =
    if leb b'0' d && leb d b'9' then digits_value rest (n * 10 + (d - b'0')) else none

-- The indices that strconv.Atoi reads without a sign of minus; "-0" is 0 too.
unfoldable pub index_of : Str → Option ℕ
index_of [] = none
index_of (c ∷ rest) =
    if eqb c b'+' || eqb c b'-'
    then (if is_empty rest then none else elim (digits_value rest 0) [
      | none ↦ none
      | some n ↦ if eqb c b'-' && not (eqb n 0) then none else some n
    ])
    else digits_value (c ∷ rest) 0

unfoldable pub field_at : Str → Fields → Option Value
unfolding ◌==◌
field_at name object_end = none
field_at name (field key v rest) = if key == name then some v else field_at name rest

unfoldable pub value_at : ℕ → Values → Option Value
value_at n array_end = none
value_at zero (value v rest) = some v
value_at (suc n) (value v rest) = value_at n rest

abbrev pub at_index : Option ℕ → Values → Option Value
at_index none vs = none
at_index (some n) vs = value_at n vs

abbrev pub found : Option Value → CredError → Result CredError Value
found none e = err e
found (some v) e = ok v

-- One round of the loop of `selectValue`.
unfoldable pub step_into : Str → Value → Str → Result CredError Value
unfolding field_at value_at index_of
step_into path (object fields) segment = found (field_at segment fields) (field_missing path)
step_into path (array values) segment =
    found (at_index (index_of segment) values) (index_invalid segment path)
step_into path _ segment = err (traverses_scalar path)

unfoldable pub select_from : Str → Value → List Str → Result CredError Value
unfolding step_into
select_from path current [] = ok current
select_from path current (segment ∷ rest) = do
  next ← step_into path current segment
  select_from path next rest

unfoldable pub select_value : Fields → Str → Result CredError Value
unfolding split_path select_from
select_value fields path = do segments ← split_path path; select_from path (object fields) segments

unfoldable pub scalar : Value → Result CredError Str
scalar null = ok (bytes "null")
scalar (text s) = ok s
scalar (flag b) = ok (if b then bytes "true" else bytes "false")
scalar (number s) = ok s
scalar _ = err not_scalar
