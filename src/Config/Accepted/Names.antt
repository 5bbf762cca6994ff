-- ===== src/Config/Accepted/Names.antt =====
-- Names that are seen once: what the maps `names` of the loops check.
use openbao_authorizer.Prelude.{◌≡◌, refl, inl, inr, false, List, [], ◌∷◌, All, Bool-cases}
use openbao_authorizer.Text.Bytes.{Str, ◌==◌, contains, eq_comm}

-- No name stands twice.
abbrev pub AreDistinct : List Str → Type 0
AreDistinct [] = Unit
AreDistinct (name ∷ names) = (contains names name ≡ false) × AreDistinct names

-- None of the names is among those seen.
abbrev pub AreFresh : List Str → List Str → Type 0
AreFresh seen names = All (λ name. contains seen name ≡ false) names

pub fresh-contains :
    (seen : List Str) (name : Str) (names : List Str)
    → AreFresh (name ∷ seen) names
    → (contains names name ≡ false) × AreFresh seen names
fresh-contains seen name [] h = (refl, tt)
fresh-contains seen name (other ∷ names) (h, rest) =
    let (absent, fresh) = fresh-contains seen name names rest in
    elim (Bool-cases (name == other)) [
      | inl e ↦ cc (rw e at h)
      | inr e ↦ (rw (eq_comm other name) (rw e absent), (rw e at h, fresh))
    ]
