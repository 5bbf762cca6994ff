-- ===== src/Cred/Render/Resolved.antt =====
-- The shell lines of resolved mappings.
use openbao_authorizer.Prelude.{◌≡◌, refl, sym, ap, ◌∙◌, true, false, List, [], ◌∷◌, map, All, some}
use openbao_authorizer.Prelude.Result.{ok, >>=-eq-ok, fail_if-eq-ok, ok-injective}
use openbao_authorizer.Text.Bytes.{Str, contains, contains_byte}
use openbao_authorizer.Cred.Model.{Value, Mapping, Fields, mapping_repeated, value_has_nul}
use openbao_authorizer.Cred.FieldPath.{select_value, scalar}
use openbao_authorizer.Cred.Mapping.{valid_name, assignment, resolve_each, resolve_mappings}
use openbao_authorizer.Cred.Render.{render_shell}
use openbao_authorizer.Cred.Render.Shell.{read_script, line, assign, read-render_shell}

-- A mapping gives a variable of its name, with the scalar at its path, which has no NUL.
pub record Gives (source : Fields) (m : Mapping) (pair : Str × Str) : Type 0 where
  pub named : pair.0 ≡ m.name
  pub chosen : Value
  pub selected : select_value source m.path ≡ ok chosen
  pub printed : scalar chosen ≡ ok pair.1
  pub no_nul : contains_byte 0 pair.1 ≡ false

abbrev pub GiveAll : Fields → List Mapping → List (Str × Str) → Type 0
GiveAll source [] [] = Unit
GiveAll source [] (pair ∷ pairs) = ⊥
GiveAll source (m ∷ mappings) [] = ⊥
GiveAll source (m ∷ mappings) (pair ∷ pairs) = Gives source m pair × GiveAll source mappings pairs

resolve_each-GiveAll :
    (source : Fields) (seen : List Str) (mappings : List Mapping) {values : List Str}
    → resolve_each source seen mappings ≡ ok values
    → (pairs : List (Str × Str)) × (values ≡ map assign pairs) × GiveAll source mappings pairs
unfolding resolve_each
resolve_each-GiveAll source seen [] h = ([], sym (ok-injective h), tt)
resolve_each-GiveAll source seen (m ∷ rest) h =
    let (_, h₁) = fail_if-eq-ok (contains seen m.name) (mapping_repeated m.name) _ h in
    let (chosen, selected, h₂) = >>=-eq-ok (select_value source m.path) _ h₁ in
    let (content, printed, h₃) = >>=-eq-ok (scalar chosen) _ h₂ in
    let (clean, h₄) = fail_if-eq-ok (contains_byte 0 content) value_has_nul _ h₃ in
    let (values, made, h₅) = >>=-eq-ok _ _ h₄ in
    let (pairs, same, all) = resolve_each-GiveAll source (m.name ∷ seen) rest made in
    let built = ok-injective {a = assignment m.name content ∷ values} h₅ in
    (
      (m.name, content) ∷ pairs,
      sym built ∙ ap (λ l. assignment m.name content ∷ l) same,
      (
        record {
          named = refl;
          chosen = chosen;
          selected = selected;
          printed = printed;
          no_nul = clean;
        },
        all,
      ),
    )

GiveAll-valid :
    (source : Fields) (mappings : List Mapping) (pairs : List (Str × Str))
    → GiveAll source mappings pairs
    → All (λ m. valid_name m.name ≡ true) mappings
    → All (λ pair. valid_name pair.0 ≡ true) pairs
GiveAll-valid source [] [] g v = tt
GiveAll-valid source [] (pair ∷ pairs) g v = elim g [ ]
GiveAll-valid source (m ∷ mappings) [] g v = elim g [ ]
GiveAll-valid source (m ∷ mappings) (pair ∷ pairs) (g, gs) (v, vs) =
    (ap valid_name g.named ∙ v, GiveAll-valid source mappings pairs gs vs)

-- The shell lines of mappings with valid names that were resolved are read by a POSIX shell as
-- assignments alone: one for each mapping, in their order, of its name, with the scalar at its
-- path, which has no NUL.
pub render_shell-GiveAll :
    (source : Fields) (mappings : List Mapping) {values : List Str}
    → All (λ m. valid_name m.name ≡ true) mappings
    → resolve_mappings source mappings ≡ ok values
    → (pairs : List (Str × Str)) × (read_script line (render_shell values) ≡ some pairs)
      × GiveAll source mappings pairs
unfolding resolve_mappings
render_shell-GiveAll source mappings v h =
    let (pairs, same, all) = resolve_each-GiveAll source [] mappings h in
    (
      pairs,
      ap (λ l. read_script line (render_shell l)) same
          ∙ read-render_shell pairs (GiveAll-valid source mappings pairs all v),
      all,
    )
