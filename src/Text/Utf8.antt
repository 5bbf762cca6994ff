-- ===== src/Text/Utf8.antt =====
-- unicode/utf8: runes decoded from bytes as Go's `range` over a string does, and encoded back.
use openbao_authorizer.Prelude.{
  ℕ, zero, suc, ◌+◌, ◌-◌, ◌*◌, ◌/◌, ◌%◌, ◌≡◌, refl, Bool, true, false, ◌&&◌, ◌||◌, Option, none,
  some, List, [], ◌∷◌, ◌++◌, if◌then◌else◌, eqb, leb, ltb, take, map, all,
}
use openbao_authorizer.Text.Bytes.{Str}

abbrev pub between : ℕ → ℕ → ℕ → Bool
between lo hi x = leb lo x && leb x hi

-- A byte after the first of a rune: not utf8.RuneStart.
abbrev pub is_continuation : ℕ → Bool
is_continuation b = between 0x80 0xBF b

-- utf8.RuneError
abbrev pub rune_error : ℕ
rune_error = 0xFFFD

-- The second byte that the first byte allows: no overlong forms, surrogates or runes past U+10FFFF.
second_ok : ℕ → ℕ → Bool
second_ok b c =
    if eqb b 0xE0
    then between 0xA0 0xBF c
    else if eqb b 0xED
    then between 0x80 0x9F c
    else if eqb b 0xF0
    then between 0x90 0xBF c
    else if eqb b 0xF4
    then between 0x80 0x8F c
    else is_continuation c

decode_two : ℕ → Str → Option (ℕ × ℕ)
decode_two b (c ∷ _) = if is_continuation c then some ((b - 0xC0) * 64 + (c - 0x80), 1) else none
decode_two b _ = none

decode_three : ℕ → Str → Option (ℕ × ℕ)
decode_three b (c ∷ d ∷ _) =
    if second_ok b c && is_continuation d
    then some ((b - 0xE0) * 4096 + (c - 0x80) * 64 + (d - 0x80), 2)
    else none
decode_three b _ = none

decode_four : ℕ → Str → Option (ℕ × ℕ)
decode_four b (c ∷ d ∷ e ∷ _) =
    if second_ok b c && is_continuation d && is_continuation e
    then some ((b - 0xF0) * 262144 + (c - 0x80) * 4096 + (d - 0x80) * 64 + (e - 0x80), 3)
    else none
decode_four b _ = none

-- utf8.DecodeRuneInString at a first byte: the rune and how many more bytes it takes, or `none`
-- where it returns (RuneError, 1).
unfoldable pub decode : ℕ → Str → Option (ℕ × ℕ)
unfolding second_ok decode_two decode_three decode_four
decode b rest =
    if ltb b 0x80
    then some (b, 0)
    else if between 0xC2 0xDF b
    then decode_two b rest
    else if between 0xE0 0xEF b
    then decode_three b rest
    else if between 0xF0 0xF4 b
    then decode_four b rest
    else none

-- One step of a `range` loop: the rune, whether its bytes are valid, and those bytes.
pub record Chunk : Type 0 where
  pub rune : ℕ
  pub valid : Bool
  pub text : Str

abbrev invalid_chunk : ℕ → Chunk
invalid_chunk b = record { rune = rune_error; valid = false; text = b ∷ [] }

-- The steps, after the bytes that belong to the last rune.
chunks_after : ℕ → Str → List Chunk
chunks_after skip [] = []
chunks_after (suc skip) (b ∷ s) = chunks_after skip s
chunks_after zero (b ∷ s) = elim (decode b s) [
  | none ↦ invalid_chunk b ∷ chunks_after 0 s
  | some (r, more) ↦
      record { rune = r; valid = true; text = take (suc more) (b ∷ s) } ∷ chunks_after more s
]

unfoldable pub chunks : Str → List Chunk
unfolding chunks_after decode
chunks s = chunks_after 0 s

-- for _, r := range s
abbrev pub runes : Str → List ℕ
runes s = map (λ c. c.rune) (chunks s)

-- utf8.ValidString
abbrev pub valid_string : Str → Bool
valid_string s = all (λ c. c.valid) (chunks s)

abbrev pub concat : List Chunk → Str
concat [] = []
concat (c ∷ cs) = c.text ++ concat cs

-- utf8.AppendRune
unfoldable pub encode : ℕ → Str
encode r =
    if ltb r 0x80
    then r ∷ []
    else if ltb r 0x800
    then (0xC0 + r / 64) ∷ (0x80 + r % 64) ∷ []
    else if between 0xD800 0xDFFF r || ltb 0x10FFFF r
    then 0xEF ∷ 0xBF ∷ 0xBD ∷ []
    else if ltb r 0x10000
    then (0xE0 + r / 4096) ∷ (0x80 + r / 64 % 64) ∷ (0x80 + r % 64) ∷ []
    else (0xF0 + r / 262144) ∷ (0x80 + r / 4096 % 64) ∷ (0x80 + r / 64 % 64) ∷ (0x80 + r % 64) ∷ []

euro : runes (0xE2 ∷ 0x82 ∷ 0xAC ∷ 0x41 ∷ 0xC3 ∷ []) ≡ 0x20AC ∷ 0x41 ∷ rune_error ∷ []
unfolding chunks
euro = refl
