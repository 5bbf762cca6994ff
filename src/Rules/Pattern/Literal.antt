-- ===== src/Rules/Pattern/Literal.antt =====
-- What an ACL pattern means, and the literal comparison of patterns without `+`.
use openbao_authorizer.Prelude.{
  ℕ, ◌≡◌, refl, sym, ◌∙◌, inl, inr, Bool, true, false, ◌&&◌, ◌||◌, List, [], ◌∷◌, if◌then◌else◌,
  eqb, Bool-cases, arith,
}
use openbao_authorizer.Text.Bytes.{Str, ◌==◌, has_prefix, contains_byte}
use openbao_authorizer.Text.Split.{
  split, split_by, split-cons, split-slash, split-onto, split-contains_byte,
}
use openbao_authorizer.Rules.Pattern.{plus}

-- What an ACL pattern means, segment by segment: `+` stands for any one segment, the last part of
-- an open pattern (one that ended in `*`) begins its segment and lets any segments follow, and all
-- else is literal and ends where the path ends.
abbrev pub acl_match : Bool → List Str → List Str → Bool
acl_match true (part ∷ []) (segment ∷ _) = part == plus || has_prefix segment part
acl_match false (part ∷ []) (segment ∷ []) = part == plus || part == segment
acl_match is_prefix (part ∷ next ∷ parts) (segment ∷ segments) =
    (part == plus || part == segment) && acl_match is_prefix (next ∷ parts) segments
acl_match _ _ _ = false

pub no_plus : (s : Str) → contains_byte b'+' s ≡ false → (s == plus) ≡ false
unfolding ◌==◌
no_plus [] h = refl
no_plus (a ∷ []) h = ground arith
no_plus (a ∷ b ∷ s) h = ground arith

-- The test that the shortcut makes.
abbrev pub literal_match : Bool → Str → Str → Bool
literal_match is_prefix p path = if is_prefix then has_prefix path p else p == path

acl_slash :
    (is_prefix : Bool) (h : Str) (t segments : List Str)
    → acl_match is_prefix ([] ∷ h ∷ t) ([] ∷ segments) ≡ acl_match is_prefix (h ∷ t) segments
unfolding ◌==◌
acl_slash true h t segments = refl
acl_slash false h t segments = refl

acl_byte :
    (is_prefix : Bool) (a b : ℕ) (h k : Str) (t u : List Str)
    → ((a ∷ h) == plus) ≡ false
    → (h == plus) ≡ false
    → acl_match is_prefix ((a ∷ h) ∷ t) ((b ∷ k) ∷ u)
      ≡ (eqb a b && acl_match is_prefix (h ∷ t) (k ∷ u))
acl_byte true a b h k [] u p q = rw (p, q) (unfold has_prefix in ground arith)
acl_byte false a b h k [] [] p q = rw (p, q) (unfold ◌==◌ in ground arith)
acl_byte false a b h k [] (x ∷ u) p q = ground arith
acl_byte true a b h k (y ∷ t) u p q = rw (p, q) (unfold ◌==◌ in ground arith)
acl_byte false a b h k (y ∷ t) u p q = rw (p, q) (unfold ◌==◌ in ground arith)

-- One of the two first segments has ended and the other has not.
acl_short :
    (is_prefix : Bool) (a : ℕ) (h : Str) (t u : List Str)
    → ((a ∷ h) == plus) ≡ false
    → acl_match is_prefix ((a ∷ h) ∷ t) ([] ∷ u) ≡ false
acl_short true a h [] u p = rw p (unfold has_prefix in refl)
acl_short false a h [] [] p = rw p (unfold ◌==◌ in refl)
acl_short false a h [] (x ∷ u) p = refl
acl_short true a h (y ∷ t) u p = rw p (unfold ◌==◌ in refl)
acl_short false a h (y ∷ t) u p = rw p (unfold ◌==◌ in refl)

acl_long :
    (is_prefix : Bool) (b : ℕ) (h k : Str) (t u : List Str)
    → acl_match is_prefix ([] ∷ h ∷ t) ((b ∷ k) ∷ u) ≡ false
unfolding ◌==◌
acl_long true b h k t u = refl
acl_long false b h k t u = refl

split-nil : split [] ≡ [] ∷ []
unfolding split_by
split-nil = refl

acl-nil : (b : ℕ) (k : Str) (u : List Str) → false ≡ acl_match false ([] ∷ []) ((b ∷ k) ∷ u)
unfolding ◌==◌
acl-nil b k [] = refl
acl-nil b k (x ∷ u) = refl

literal-nil :
    (is_prefix : Bool) (path : Str)
    → literal_match is_prefix [] path ≡ acl_match is_prefix (split []) (split path)
literal-nil true path =
    let (k, u, e) = split-cons b'/' path in rw (split-nil, e) (unfold has_prefix in ground arith)
literal-nil false [] = rw split-nil (unfold ◌==◌ in refl)
literal-nil false (b ∷ path) =
    let (k, u, e) = split-cons b'/' path in
    elim (Bool-cases (eqb b b'/')) [
      | inl s ↦ rw (split-nil, split-slash b'/' b path s, e) (unfold ◌==◌ in refl)
      | inr s ↦ rw (split-nil, split-onto b'/' b path s e) (unfold ◌==◌ in acl-nil b k u)
    ]

-- The first segment of a path with no `+` is not `+`.
first_no_plus :
    (p : Str) {h : Str} {t : List Str}
    → contains_byte b'+' p ≡ false
    → split p ≡ h ∷ t
    → (h == plus) ≡ false
first_no_plus p {h} free e =
    let segments = split-contains_byte b'/' b'+' p free in
    no_plus h (ground (arith, rw e at segments))

literal_shut : (f : Bool) (a : ℕ) (p : Str) → literal_match f (a ∷ p) [] ≡ false
literal_shut true a p = unfold has_prefix in refl
literal_shut false a p = unfold ◌==◌ in refl

acl_end : (f : Bool) (h : Str) (t : List Str) → acl_match f ([] ∷ h ∷ t) ([] ∷ []) ≡ false
unfolding ◌==◌
acl_end true h [] = refl
acl_end true h (x ∷ t) = refl
acl_end false h [] = refl
acl_end false h (x ∷ t) = refl

literal-end :
    (f : Bool) (a : ℕ) (p : Str)
    → contains_byte b'+' (a ∷ p) ≡ false
    → literal_match f (a ∷ p) [] ≡ acl_match f (split (a ∷ p)) (split [])
literal-end f a p free =
    let (h, t, e) = split-cons b'/' p in
    elim (Bool-cases (eqb a b'/')) [
      | inl s ↦ rw (split-nil, split-slash b'/' a p s, e) (literal_shut f a p ∙ sym (acl_end f h t))
      | inr s ↦
          rw (split-nil, split-onto b'/' a p s e)
            (literal_shut f a p
              ∙ sym (acl_short f a h t [] (first_no_plus (a ∷ p) free (split-onto b'/' a p s e))))
    ]

literal_step :
    (f : Bool) (a b : ℕ) (p path : Str)
    → literal_match f (a ∷ p) (b ∷ path) ≡ (eqb a b && literal_match f p path)
literal_step true a b p path = unfold has_prefix in ground arith
literal_step false a b p path = unfold ◌==◌ in refl

eqb_slash : (a b : ℕ) → eqb a b'/' ≡ true → eqb b b'/' ≡ false → eqb a b ≡ false
eqb_slash a b p q = ground arith

-- The shortcut of `MatchPattern` for patterns with no `+` is the walk over segments too.
pub literal-acl_match :
    (f : Bool) (p path : Str)
    → contains_byte b'+' p ≡ false
    → literal_match f p path ≡ acl_match f (split p) (split path)
literal-acl_match f [] path free = literal-nil f path
literal-acl_match f (a ∷ p) [] free = literal-end f a p free
literal-acl_match f (a ∷ p) (b ∷ path) free =
    let (h, t, e) = split-cons b'/' p in
    let (k, u, d) = split-cons b'/' path in
    let ih = literal-acl_match f p path (ground arith) in
    let ih' : literal_match f p path ≡ acl_match f (h ∷ t) (k ∷ u) = rw (← e, ← d) ih in
    literal_step f a b p path ∙ (elim (Bool-cases (eqb a b'/')) [
      | inl s ↦ elim (Bool-cases (eqb b b'/')) [
        | inl r ↦
            rw (split-slash b'/' a p s, split-slash b'/' b path r, e, d)
              (sym (acl_slash f h t (k ∷ u) ∙ ground (arith, ih')))
        | inr r ↦
            rw (split-slash b'/' a p s, split-onto b'/' b path r d, e)
              (ground (arith, acl_long f b h k t u))
      ]
      | inr s ↦
          let whole = first_no_plus (a ∷ p) free (split-onto b'/' a p s e) in
          elim (Bool-cases (eqb b b'/')) [
            | inl r ↦
                rw (split-slash b'/' b path r, split-onto b'/' a p s e)
                  (ground (arith, acl_short f a h t (split path) whole))
            | inr r ↦
                rw (split-onto b'/' a p s e, split-onto b'/' b path r d)
                  (ground
                    (arith, ih', acl_byte f a b h k t u whole (first_no_plus p (ground arith) e)))
          ]
    ])
