-- ===== src/Text/Unicode.antt =====
-- The properties of runes that the program reads from Go's `unicode`, and the functions of
-- `strings` that map or trim runes.
use openbao_authorizer.Prelude.{
  ℕ, ◌+◌, Bool, ◌||◌, List, [], ◌∷◌, ◌++◌, if◌then◌else◌, eqb, leb, ltb, keep, ◌≡◌, refl,
}
use openbao_authorizer.Text.Bytes.{Str, bytes}
use openbao_authorizer.Text.Utf8.{Chunk, chunks, concat, encode, between}

-- unicode.IsControl
abbrev pub is_control : ℕ → Bool
is_control r = leb r 0x1F || between 0x7F 0x9F r

-- unicode.IsSpace
unfoldable pub is_space : ℕ → Bool
is_space r =
    between 0x09 0x0D r
    || eqb r 0x20
    || eqb r 0x85
    || eqb r 0xA0
    || eqb r 0x1680
    || between 0x2000 0x200A r
    || eqb r 0x2028
    || eqb r 0x2029
    || eqb r 0x202F
    || eqb r 0x205F
    || eqb r 0x3000

-- unicode.Cf, the format characters
unfoldable pub is_format : ℕ → Bool
is_format r =
    eqb r 0xAD
    || between 0x600 0x605 r
    || eqb r 0x61C
    || eqb r 0x6DD
    || eqb r 0x70F
    || between 0x890 0x891 r
    || eqb r 0x8E2
    || eqb r 0x180E
    || between 0x200B 0x200F r
    || between 0x202A 0x202E r
    || between 0x2060 0x2064 r
    || between 0x2066 0x206F r
    || eqb r 0xFEFF
    || between 0xFFF9 0xFFFB r
    || eqb r 0x110BD
    || eqb r 0x110CD
    || between 0x13430 0x1343F r
    || between 0x1BCA0 0x1BCA3 r
    || between 0x1D173 0x1D17A r
    || eqb r 0xE0001
    || between 0xE0020 0xE007F r

abbrev drop_spaces : List Chunk → List Chunk
drop_spaces [] = []
drop_spaces (c ∷ cs) = if is_space c.rune then drop_spaces cs else c ∷ cs

-- Without the white space at the end.
drop_last_spaces : List Chunk → List Chunk
drop_last_spaces [] = []
drop_last_spaces (c ∷ cs) = elim (drop_last_spaces cs) [
  | [] ↦ if is_space c.rune then [] else c ∷ []
  | d ∷ ds ↦ c ∷ d ∷ ds
]

-- strings.TrimSpace
unfoldable pub trim_space : Str → Str
unfolding drop_last_spaces chunks is_space
trim_space s = concat (drop_last_spaces (drop_spaces (chunks s)))

-- strings.ToValidUTF8(s, "")
abbrev pub to_valid : Str → Str
to_valid s = concat (keep (λ c. c.valid) (chunks s))

-- strings.ToLower, with `lower_wide` for what unicode.ToLower does past ASCII
module _ (lower_wide : ℕ → ℕ) where
  abbrev lower_rune : ℕ → ℕ
  lower_rune r = if ltb r 0x80 then (if between b'A' b'Z' r then r + 32 else r) else lower_wide r

  lower_chunks : List Chunk → Str
  lower_chunks [] = []
  lower_chunks (c ∷ cs) = encode (lower_rune c.rune) ++ lower_chunks cs

  unfoldable pub to_lower : Str → Str
  unfolding lower_chunks chunks encode
  to_lower s = lower_chunks (chunks s)

trimmed : trim_space (bytes "  Read ") ≡ bytes "Read"
unfolding trim_space
trimmed = refl

lowered : to_lower (λ r. r) (bytes "Read") ≡ bytes "read"
unfolding to_lower
lowered = refl
