-- ===== src/Rules/Concrete/Shunned.antt =====
-- The code points that a requested path must not have, as ranges.
use openbao_authorizer.Prelude.{
  ℕ, ◌≡◌, Bool, false, ◌||◌, List, [], ◌∷◌, All, IsOutside, ltb, arith,
}
use openbao_authorizer.Text.Bytes.{bytes, contains_byte}
use openbao_authorizer.Text.Unicode.{is_control, is_format}
use openbao_authorizer.Rules.Concrete.{bad_character, hidden_rune}

-- Controls and the space, the characters that HCL interprets, the second block of controls, and the
-- format characters of Unicode (category Cf), each range by its first and last code point.
abbrev pub controls : List (ℕ × ℕ)
controls = (0, 0x20) ∷ (0x7F, 0x9F) ∷ []

abbrev pub special : List (ℕ × ℕ)
special = (0x22, 0x22) ∷ (0x24, 0x24) ∷ (0x5C, 0x5C) ∷ (0x7B, 0x7B) ∷ (0x7D, 0x7D) ∷ []

abbrev pub formats : List (ℕ × ℕ)
formats =
    (0xAD, 0xAD)
    ∷ (0x600, 0x605)
    ∷ (0x61C, 0x61C)
    ∷ (0x6DD, 0x6DD)
    ∷ (0x70F, 0x70F)
    ∷ (0x890, 0x891)
    ∷ (0x8E2, 0x8E2)
    ∷ (0x180E, 0x180E)
    ∷ (0x200B, 0x200F)
    ∷ (0x202A, 0x202E)
    ∷ (0x2060, 0x2064)
    ∷ (0x2066, 0x206F)
    ∷ (0xFEFF, 0xFEFF)
    ∷ (0xFFF9, 0xFFFB)
    ∷ (0x110BD, 0x110BD)
    ∷ (0x110CD, 0x110CD)
    ∷ (0x13430, 0x1343F)
    ∷ (0x1BCA0, 0x1BCA3)
    ∷ (0x1D173, 0x1D17A)
    ∷ (0xE0001, 0xE0001)
    ∷ (0xE0020, 0xE007F)
    ∷ []

pub record IsPlain (r : ℕ) : Type 0 where
  pub no_control : All (IsOutside r) controls
  pub no_special : All (IsOutside r) special
  pub no_format : All (IsOutside r) formats

is_format-IsOutside : (r : ℕ) → is_format r ≡ false → All (IsOutside r) formats
unfolding is_format
is_format-IsOutside r h = ground arith

IsOutside-is_format : (r : ℕ) → All (IsOutside r) formats → is_format r ≡ false
unfolding is_format
IsOutside-is_format r h = ground arith

IsOutside-is_control :
    (r : ℕ) → All (IsOutside r) controls → (ltb r 0x21 ≡ false) × (is_control r ≡ false)
IsOutside-is_control r h = ground arith

IsOutside-contains_byte :
    (r : ℕ) → All (IsOutside r) special → contains_byte r (bytes "\"\\{}$") ≡ false
IsOutside-contains_byte r h = ground arith

none_of :
    (a b c d : Bool)
    → (a ≡ false) × (b ≡ false) × (c ≡ false) × (d ≡ false)
    → (a || (b || c) || d) ≡ false
none_of a b c d h = ground arith

pub bad_character-IsPlain : (r : ℕ) → bad_character r ≡ false → IsPlain r
unfolding hidden_rune
bad_character-IsPlain r h = record {
  no_control = ground arith;
  no_special = ground arith;
  no_format = is_format-IsOutside r (ground arith);
}

pub IsPlain-bad_character : (r : ℕ) → IsPlain r → bad_character r ≡ false
unfolding hidden_rune
IsPlain-bad_character r h =
    let (low, control) = IsOutside-is_control r h.no_control in
    none_of _ _ _ _
      (low, control, IsOutside-is_format r h.no_format, IsOutside-contains_byte r h.no_special)
