-- ===== src/Rules/Concrete/Accepted.antt =====
-- The paths that `checkConcretePath` accepts.
use openbao_authorizer.Prelude.{
  ℕ, ◌≡◌, ◌≢◌, refl, ap, ◌≤◌, Bool, true, false, not, List, [], ◌∷◌, any, All, eqb, length, ltb,
  Bool-cases, inl, inr, arith, not-eq_false,
}
use openbao_authorizer.Prelude.Result.{ok, fail_if, fail_if-eq-ok}
use openbao_authorizer.Text.Bytes.{
  Str, bytes, ◌==◌, eq→≡, eq_refl, has_prefix, trim_suffix, contains_byte, contains_any,
}
use openbao_authorizer.Text.Split.{split}
use openbao_authorizer.Text.Utf8.{runes, valid_string}
use openbao_authorizer.Rules.Model.{
  Refusal, path_required, path_too_long, path_not_concrete, path_leading_slash, path_not_utf8,
  path_bad_character, path_bad_segment,
}
use openbao_authorizer.Rules.Concrete.{bad_character, bad_segment, check_concrete_path}
use openbao_authorizer.Rules.Concrete.Shunned.{
  IsPlain, bad_character-IsPlain, IsPlain-bad_character,
}

abbrev pub IsSegment : Str → Type 0
IsSegment s = (s ≢ []) × (s ≢ bytes ".") × (s ≢ bytes "..")

pub record IsConcrete (path : Str) : Type 0 where
  pub nonempty : path ≢ []
  pub short : length path ≤ 512
  pub no_wildcards : All (λ b. (b ≢ b'*') × (b ≢ b'+')) path
  pub relative : (rest : Str) → path ≢ b'/' ∷ rest
  pub is_utf8 : valid_string path ≡ true
  pub plain : All IsPlain (runes path)
  pub segments : All IsSegment (split (trim_suffix b'/' path))

module _ {A : Type 0} (p : A → Bool) (P : A → Type 0) where
  any-All : (l : List A) → ((a : A) → p a ≡ false → P a) → any p l ≡ false → All P l
  any-All [] f h = tt
  any-All (x ∷ l) f h = (f x (ground arith), any-All l f (ground arith))

  All-any : (l : List A) → ((a : A) → P a → p a ≡ false) → All P l → any p l ≡ false
  All-any [] f h = refl
  All-any (x ∷ l) f (k, h) = rw (f x k) (All-any l f h)

differ : (s t : Str) → (s == t) ≡ false → s ≢ t
differ s t h e = cc (h, eq_refl t, ap (λ x. x == t) e)

apart : (s t : Str) → s ≢ t → (s == t) ≡ false
apart s t h = elim (Bool-cases (s == t)) [ inl e ↦ absurd (h (eq→≡ s t e)) | inr e ↦ e ]

bad_segment-IsSegment : (s : Str) → bad_segment s ≡ false → IsSegment s
bad_segment-IsSegment s h = (
  differ s [] (ground arith),
  differ s (bytes ".") (ground arith),
  differ s (bytes "..") (ground arith),
)

IsSegment-bad_segment : (s : Str) → IsSegment s → bad_segment s ≡ false
IsSegment-bad_segment s (a, b, c) =
    rw (apart s [] a, apart s (bytes ".") b, apart s (bytes "..") c) refl

free_of_wildcards : (b : ℕ) → contains_byte b (bytes "*+") ≡ false → (b ≢ b'*') × (b ≢ b'+')
free_of_wildcards b h = (ground arith, ground arith)

wildcards_absent : (b : ℕ) → (b ≢ b'*') × (b ≢ b'+') → contains_byte b (bytes "*+") ≡ false
wildcards_absent b h = ground arith

leads : (path rest : Str) → has_prefix path (bytes "/") ≡ false → path ≢ b'/' ∷ rest
unfolding has_prefix
leads [] rest h e = cc
leads (b ∷ path) rest h e = ground arith

leads_not : (path : Str) → ((rest : Str) → path ≢ b'/' ∷ rest) → has_prefix path (bytes "/") ≡ false
unfolding has_prefix
leads_not [] h = refl
leads_not (b ∷ path) h = elim (Bool-cases (eqb b b'/')) [
  | inl e ↦ absurd (h path (ap (λ x. x ∷ path) (ground arith)))
  | inr e ↦ ground arith
]

fail_if-eq_ok : (b : Bool) (e : Refusal) → fail_if b e ≡ ok tt → b ≡ false
fail_if-eq_ok true e h = cc
fail_if-eq_ok false e h = refl

at_most : (n : ℕ) (path : Str) → ltb n (length path) ≡ false → length path ≤ n
at_most n path h = ground arith

-- A path that the check accepts is not empty, has at most 512 bytes, no asterisk or plus, no
-- leading slash and valid UTF-8; none of its characters is a space, a control or format character,
-- a quote, a backslash, a brace or a dollar sign; and no segment is empty, a dot or two dots, one
-- trailing slash apart.
pub check_concrete_path-IsConcrete :
    (path : Str) → check_concrete_path path ≡ ok tt → IsConcrete path
unfolding check_concrete_path
check_concrete_path-IsConcrete path h =
    let (a, h₁) = fail_if-eq-ok (path == []) path_required _ h in
    let (b, h₂) = fail_if-eq-ok (ltb 512 (length path)) path_too_long _ h₁ in
    let (c, h₃) = fail_if-eq-ok (contains_any (bytes "*+") path) path_not_concrete _ h₂ in
    let (d, h₄) = fail_if-eq-ok (has_prefix path (bytes "/")) path_leading_slash _ h₃ in
    let (e, h₅) = fail_if-eq-ok (not (valid_string path)) path_not_utf8 _ h₄ in
    let (f, h₆) = fail_if-eq-ok (any bad_character (runes path)) path_bad_character _ h₅ in
    record {
      nonempty = differ path [] a;
      short = at_most 512 path b;
      no_wildcards = any-All _ _ path free_of_wildcards c;
      relative = λ rest. leads path rest d;
      is_utf8 = not-eq_false (valid_string path) e;
      plain = any-All _ _ (runes path) bad_character-IsPlain f;
      segments =
          any-All _ _ (split (trim_suffix b'/' path)) bad_segment-IsSegment
            (fail_if-eq_ok _ path_bad_segment h₆);
    }

pub IsConcrete-contains_any :
    (path : Str) → IsConcrete path → contains_any (bytes "*+") path ≡ false
IsConcrete-contains_any path h = All-any _ _ path wildcards_absent h.no_wildcards

not_more : (n : ℕ) (path : Str) → length path ≤ n → ltb n (length path) ≡ false
not_more n path h = ground arith

-- The check accepts every path that is not empty, has at most 512 bytes, no asterisk or plus, no
-- leading slash and valid UTF-8, of whose characters none is a space, a control or format
-- character, a quote, a backslash, a brace or a dollar sign, and of whose segments none is empty,
-- a dot or two dots, one trailing slash apart.
pub IsConcrete-check_concrete_path :
    (path : Str) → IsConcrete path → check_concrete_path path ≡ ok tt
unfolding check_concrete_path
IsConcrete-check_concrete_path path h =
    let nonempty = apart path [] h.nonempty in
    let wildcards = IsConcrete-contains_any path h in
    let slash = leads_not path h.relative in
    let characters = All-any _ _ (runes path) IsPlain-bad_character h.plain in
    let segments = All-any _ _ (split (trim_suffix b'/' path)) IsSegment-bad_segment h.segments in
    rw (nonempty, not_more 512 path h.short, wildcards, slash)
      (rw (h.is_utf8, characters, segments))
