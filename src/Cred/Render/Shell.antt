-- ===== src/Cred/Render/Shell.antt =====
-- What a POSIX shell reads in the lines of `renderShell`.
use openbao_authorizer.Prelude.{
  ℕ, ◌≡◌, refl, sym, ap, ◌∙◌, Bool, true, false, ◌&&◌, ◌||◌, Option, none, some, List, [], ◌∷◌,
  ◌++◌, map, append_assoc, append-nil, eqb, eqb_iff, all, All, Bool-cases, inl, inr, arith,
}
use openbao_authorizer.Text.Bytes.{Str, bytes, cut}
use openbao_authorizer.Cred.Mapping.{valid_name, is_name_start, is_name_part, assignment}
use openbao_authorizer.Cred.Render.{quote, export_line, render_shell}

-- Where the reader stands: at the start of a line, in the keyword with what is left of it, in the name
-- of a variable, or in its value, outside quotes, between single quotes or between double quotes, with
-- what was read.
pub data Mode : Type 0 where
  line : Mode
  keyword : Str → Mode
  name : Str → Mode
  bare single double : Str → Str → Mode

abbrev pub cons_to : Str → Str → Option (List (Str × Str)) → Option (List (Str × Str))
cons_to n v none = none
cons_to n v (some rest) = some ((n, v) ∷ rest)

-- The bytes that mean more than themselves between double quotes.
abbrev is_special : ℕ → Bool
is_special b = eqb b b'$' || eqb b 96 || eqb b b'\\'

-- A script of exports alone, read as POSIX says: between single quotes each byte stands for itself;
-- between double quotes so does each but `"` and the special ones, which are not read here; outside
-- quotes only quotes and the end of the line are.
unfoldable pub read_script : Mode → Str → Option (List (Str × Str))
read_script line [] = some []
read_script (keyword k) [] = none
read_script (name n) [] = none
read_script (bare n v) [] = none
read_script (single n v) [] = none
read_script (double n v) [] = none
read_script line (b ∷ s) = elim (eqb b b'e') [
  | true ↦ read_script (keyword (bytes "xport ")) s
  | false ↦ none
]
read_script (keyword []) (b ∷ s) = none
read_script (keyword (k ∷ [])) (b ∷ s) = elim (eqb b k) [
  | true ↦ read_script (name []) s
  | false ↦ none
]
read_script (keyword (k ∷ l ∷ rest)) (b ∷ s) = elim (eqb b k) [
  | true ↦ read_script (keyword (l ∷ rest)) s
  | false ↦ none
]
read_script (name n) (b ∷ s) = elim (eqb b b'=') [
  | true ↦ elim (valid_name n) [ true ↦ read_script (bare n []) s | false ↦ none ]
  | false ↦ read_script (name (n ++ b ∷ [])) s
]
read_script (bare n v) (b ∷ s) = elim (eqb b 10) [
  | true ↦ cons_to n v (read_script line s)
  | false ↦ elim (eqb b 39) [
    | true ↦ read_script (single n v) s
    | false ↦ elim (eqb b 34) [ true ↦ read_script (double n v) s | false ↦ none ]
  ]
]
read_script (single n v) (b ∷ s) = elim (eqb b 39) [
  | true ↦ read_script (bare n v) s
  | false ↦ read_script (single n (v ++ b ∷ [])) s
]
read_script (double n v) (b ∷ s) = elim (eqb b 34) [
  | true ↦ read_script (bare n v) s
  | false ↦ elim (is_special b) [ true ↦ none | false ↦ read_script (double n (v ++ b ∷ [])) s ]
]

-- A quoted text is read back as it was.
and-eq_true : (a b : Bool) → (a && b) ≡ true → (a ≡ true) × (b ≡ true)
and-eq_true a b h = ground arith

single-quote :
    (n v s rest : Str)
    → read_script (single n v) (quote s ++ 39 ∷ rest) ≡ read_script (bare n (v ++ s)) rest
unfolding read_script quote
single-quote n v [] rest = rw (append-nil v)
single-quote n v (b ∷ s) rest = elim (Bool-cases (eqb b 39)) [
  | inl e ↦
      let same : b ≡ 39 = (eqb_iff b 39).0 e in
      rw same (
        single-quote n (v ++ 39 ∷ []) s rest
        ∙ ap (λ x. read_script (bare n x) rest) (append_assoc v (39 ∷ []) s))
  | inr e ↦ rw e (
      rw (e, read_script)
        (single-quote n (v ++ b ∷ []) s rest
          ∙ ap (λ x. read_script (bare n x) rest) (append_assoc v (b ∷ []) s)))
]

name_part-ne-equals : (b : ℕ) → is_name_part b ≡ true → eqb b b'=' ≡ false
name_part-ne-equals b h = ground arith

name-equals :
    (n m s : Str)
    → all is_name_part m ≡ true
    → valid_name (n ++ m) ≡ true
    → read_script (name n) (m ++ b'=' ∷ s) ≡ read_script (bare (n ++ m) []) s
unfolding read_script
name-equals n [] s h v =
    let w : valid_name n ≡ true = ap valid_name (sym (append-nil n)) ∙ v in
    rw (w, read_script) (ap (λ x. read_script (bare x []) s) (sym (append-nil n)))
name-equals n (b ∷ m) s h v =
    let (part, rest) = and-eq_true (is_name_part b) _ h in
    let whole : valid_name ((n ++ b ∷ []) ++ m) ≡ true =
      ap valid_name (append_assoc n (b ∷ []) m) ∙ v in
    rw (name_part-ne-equals b part, read_script)
      (name-equals (n ++ b ∷ []) m s rest whole
        ∙ ap (λ x. read_script (bare x []) s) (append_assoc n (b ∷ []) m))

valid_name-parts : (n : Str) → valid_name n ≡ true → all is_name_part n ≡ true
unfolding valid_name
valid_name-parts [] h = refl
valid_name-parts (b ∷ n) h =
    let (start, parts) = and-eq_true (is_name_start b) _ h in rw (start, parts) refl

cut-assignment : (n v : Str) → all is_name_part n ≡ true → cut b'=' (assignment n v) ≡ (n, v, true)
unfolding cut
cut-assignment [] v h = refl
cut-assignment (b ∷ n) v h =
    let (part, rest) = and-eq_true (is_name_part b) _ h in
    rw (name_part-ne-equals b part) (rw (cut-assignment n v rest) refl)

regroup :
    (n q rest : Str)
    → (n ++ b'=' ∷ 39 ∷ (q ++ 39 ∷ 10 ∷ [])) ++ rest ≡ n ++ b'=' ∷ 39 ∷ (q ++ 39 ∷ 10 ∷ rest)
regroup n q rest = simp (append_assoc)

-- One line is read as the assignment that it exports.
read-export_line :
    (n v rest : Str)
    → valid_name n ≡ true
    → read_script line (export_line (assignment n v) ++ rest) ≡ cons_to n v (read_script line rest)
unfolding read_script export_line
read-export_line n v rest h =
    let parts = valid_name-parts n h in
    rw (cut-assignment n v parts) (
      ap (read_script (name [])) (regroup n (quote v) rest)
      ∙ (name-equals [] n (39 ∷ (quote v ++ 39 ∷ 10 ∷ rest)) parts h
          ∙ single-quote n [] v (10 ∷ rest)))

abbrev pub assign : Str × Str → Str
assign (n, v) = assignment n v

pub read-render_shell :
    (pairs : List (Str × Str))
    → All (λ pair. valid_name pair.0 ≡ true) pairs
    → read_script line (render_shell (map assign pairs)) ≡ some pairs
unfolding render_shell read_script
read-render_shell [] all = refl
read-render_shell ((n, v) ∷ pairs) (h, all) =
    read-export_line n v (render_shell (map assign pairs)) h
    ∙ ap (cons_to n v) (read-render_shell pairs all)
