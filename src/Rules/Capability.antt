-- ===== src/Rules/Capability.antt =====
-- Capabilities: `normalizeCapabilities`, `isSubset` and `Covers`.
pub mod Order
pub mod Collect
pub mod Normal
use openbao_authorizer.Prelude.{
  Bool, true, false, not, List, [], ◌∷◌, ◌++◌, if◌then◌else◌, all, ltb, eqb, ◌||◌, ◌&&◌,
}
use openbao_authorizer.Prelude.Result.{Result, ok, err, fail_if, ◌>>=◌, ◌>>◌}
use openbao_authorizer.Text.Bytes.{Str, bytes, ◌==◌, contains}
use openbao_authorizer.Text.Unicode.{trim_space, to_lower}
use openbao_authorizer.Rules.Model.{
  Runtime, grantable_capabilities, Refusal, capability_required, sudo_denied, capability_unknown,
}

-- Go's order on strings: bytewise, a proper prefix first.
unfoldable pub str_lt : Str → Str → Bool
str_lt s [] = false
str_lt [] (b ∷ t) = true
str_lt (a ∷ s) (b ∷ t) = ltb a b || (eqb a b && str_lt s t)

-- slices.Sort
unfoldable pub insert : Str → List Str → List Str
unfolding str_lt
insert s [] = s ∷ []
insert s (t ∷ l) = if str_lt t s then t ∷ insert s l else s ∷ t ∷ l

unfoldable pub sort : List Str → List Str
unfolding insert
sort [] = []
sort (s ∷ l) = insert s (sort l)

-- `capabilities` with the next capability, once
abbrev pub add_new : List Str → Str → List Str
add_new capabilities capability =
    if contains capabilities capability then capabilities else capabilities ++ capability ∷ []

module _ (rt : Runtime) where
  abbrev pub fold_case : Str → Str
  fold_case capability = to_lower rt.lower_wide (trim_space capability)

  -- The loop over the requested capabilities.
  unfoldable pub collect : List Str → List Str → Result Refusal (List Str)
  unfolding ◌==◌
  collect capabilities [] = ok capabilities
  collect capabilities (requested ∷ rest) = do
    let capability = fold_case requested
    fail_if (capability == bytes "sudo") sudo_denied
    fail_if (not (contains grantable_capabilities capability)) (capability_unknown capability)
    collect (add_new capabilities capability) rest

  unfoldable pub normalize_capabilities : List Str → Result Refusal (List Str)
  unfolding collect sort trim_space to_lower
  normalize_capabilities [] = err capability_required
  normalize_capabilities (r ∷ rs) = do capabilities ← collect [] (r ∷ rs); ok (sort capabilities)

unfoldable pub is_subset : List Str → List Str → Bool
unfolding ◌==◌
is_subset values allowed = all (contains allowed) values

unfoldable pub covers : List Str → List Str → Bool
unfolding is_subset ◌==◌
covers granted requested =
    if contains granted (bytes "root")
    then true
    else if contains granted (bytes "deny")
    then false
    else is_subset requested granted
