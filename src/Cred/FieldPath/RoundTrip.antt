-- ===== src/Cred/FieldPath/RoundTrip.antt =====
-- `splitPath` reads back a path in which dots and backslashes are escaped.
use openbao_authorizer.Prelude.{
  ℕ, ◌≡◌, refl, sym, ap, ◌∙◌, false, ◌||◌, List, [], ◌∷◌, ◌++◌, map, append_assoc, append-nil, All,
  if◌then◌else◌, eqb, eqb_iff, Bool-cases, inl, inr,
}
use openbao_authorizer.Prelude.Result.{ok}
use openbao_authorizer.Text.Bytes.{Str}
use openbao_authorizer.Text.Utf8.{runes, encode}
use openbao_authorizer.Rules.Pattern.{is_empty}
use openbao_authorizer.Cred.FieldPath.{split_runes, split_path}

-- A segment as a path writes it.
unfoldable pub escape : List ℕ → List ℕ
escape [] = []
escape (c ∷ s) = (if eqb c b'\\' || eqb c b'.' then b'\\' ∷ c ∷ [] else c ∷ []) ++ escape s

-- The segments, with dots between.
unfoldable pub path_of : List (List ℕ) → List ℕ
path_of [] = []
path_of (s ∷ []) = escape s
path_of (s ∷ t ∷ rest) = escape s ++ b'.' ∷ path_of (t ∷ rest)

abbrev pub encode_all : List ℕ → Str
encode_all [] = []
encode_all (c ∷ s) = encode c ++ encode_all s

split_runes-escape :
    (path : Str) (s rest : List ℕ) (segment : Str) (segments : List Str)
    → split_runes path (escape s ++ rest) false segment segments
      ≡ split_runes path rest false (segment ++ encode_all s) segments
unfolding split_runes escape
split_runes-escape path [] rest segment segments =
    ap (λ x. split_runes path rest false x segments) (sym (append-nil segment))
split_runes-escape path (c ∷ s) rest segment segments =
    let taken : (d : ℕ)
        → split_runes path (escape s ++ rest) false (segment ++ encode d) segments
          ≡ split_runes path rest false (segment ++ encode_all (d ∷ s)) segments =
      λ d.
        split_runes-escape path s rest (segment ++ encode d) segments
        ∙ ap (λ x. split_runes path rest false x segments)
            (append_assoc segment (encode d) (encode_all s)) in
    elim (Bool-cases (eqb c b'\\')) [
      | inl e ↦ rw ((eqb_iff c b'\\').0 e) (taken b'\\')
      | inr e ↦ elim (Bool-cases (eqb c b'.')) [
        | inl f ↦ rw ((eqb_iff c b'.').0 f) (taken b'.')
        | inr f ↦ rw (e, f) (rw (e, split_runes) (rw (f, split_runes) (taken c)))
      ]
    ]

-- A segment that leaves text.
abbrev pub IsSegment : List ℕ → Type 0
IsSegment s = is_empty (encode_all s) ≡ false

split_runes-path_of :
    (path : Str) (s : List ℕ) (rest : List (List ℕ)) (segments : List Str)
    → IsSegment s × All IsSegment rest
    → split_runes path (path_of (s ∷ rest)) false [] segments
      ≡ ok (segments ++ map encode_all (s ∷ rest))
unfolding split_runes path_of
split_runes-path_of path s [] segments (p, ps) =
    ap (λ x. split_runes path x false [] segments) (sym (append-nil (escape s)))
    ∙ (split_runes-escape path s [] [] segments ∙ rw p refl)
split_runes-path_of path s (t ∷ rest) segments (p, ps) =
    split_runes-escape path s (b'.' ∷ path_of (t ∷ rest)) [] segments
    ∙ rw p (
        split_runes-path_of path t rest (segments ++ encode_all s ∷ []) ps
        ∙ ap ok (append_assoc segments (encode_all s ∷ []) (map encode_all (t ∷ rest))))

-- A path that is not empty, whose characters are those of segments with dots between, and a
-- backslash before each dot and backslash in them, is split into those segments, if there is one
-- and none is empty.
pub split_path-path_of :
    (path : Str) (s : List ℕ) (rest : List (List ℕ))
    → is_empty path ≡ false
    → runes path ≡ path_of (s ∷ rest)
    → IsSegment s × All IsSegment rest
    → split_path path ≡ ok (map encode_all (s ∷ rest))
unfolding split_path
split_path-path_of path s rest e h p =
    rw e (ap (λ x. split_runes path x false [] []) h ∙ split_runes-path_of path s rest [] p)
