-- ===== src/Prelude/Lists.antt =====
-- Lists measured by native numbers, the quantifiers and Go's `slices` helpers on them.
use Prim.Native.Nat.{ℕ, zero, suc, ◌+◌, ◌≤◌, ◌<◌}
use mathlib.Core.Path.{◌≡◌, refl, sym, ap, subst, ◌∙◌}
use mathlib.Core.Logic.{◌⊎◌, inl, inr}
use mathlib.Core.Bool.{Bool, true, false, ◌&&◌, ◌||◌}
use mathlib.Core.List.{List, [], ◌∷◌, ◌++◌}
use mathlib.Core.Option.{Option, none, some}
use native.Mathlib.Omega.{arith}
use openbao_authorizer.Prelude.Tests.{if◌then◌else◌, Bool-cases, some_inj}

module _ {ℓ} {A : Type ℓ} where
  abbrev pub length : List A → ℕ
  length [] = 0
  length (x ∷ xs) = suc (length xs)

  abbrev pub take : ℕ → List A → List A
  take zero xs = []
  take (suc n) [] = []
  take (suc n) (x ∷ xs) = x ∷ take n xs

  -- slices.ContainsFunc
  abbrev pub any : (A → Bool) → List A → Bool
  any p [] = false
  any p (x ∷ xs) = p x || any p xs

  abbrev pub all : (A → Bool) → List A → Bool
  all p [] = true
  all p (x ∷ xs) = p x && all p xs

  -- The elements that pass the test, in order.
  abbrev pub keep : (A → Bool) → List A → List A
  keep p [] = []
  keep p (x ∷ xs) = if p x then x ∷ keep p xs else keep p xs

  -- The first element that passes the test.
  abbrev pub find : (A → Bool) → List A → Option A
  find p [] = none
  find p (x ∷ xs) = if p x then some x else find p xs

  -- Membership with the position kept.
  pub data In (a : A) : List A → Type ℓ where
    here : {x : A} {xs : List A} → a ≡ x → In a (x ∷ xs)
    there : {x : A} {xs : List A} → In a xs → In a (x ∷ xs)

module _ {ℓ κ} {A : Type ℓ} where
  abbrev pub All : (A → Type κ) → List A → Type κ
  All P [] = Unit
  All P (x ∷ xs) = P x × All P xs

module _ {ℓ} {A : Type ℓ} where
  pub length-append : (xs ys : List A) → length (xs ++ ys) ≡ length xs + length ys
  length-append [] ys = omega arith
  length-append (x ∷ xs) ys = omega (arith, length-append xs ys)

  pub length-keep-le : (p : A → Bool) (xs : List A) → length (keep p xs) ≤ length xs
  length-keep-le p [] = omega arith
  length-keep-le p (x ∷ xs) = ground (arith, length-keep-le p xs)

  pub In-append_left : {a : A} {xs : List A} (ys : List A) → In a xs → In a (xs ++ ys)
  In-append_left ys (here e) = here e
  In-append_left ys (there m) = there (In-append_left ys m)

  pub In-append_right : {a : A} (xs : List A) {ys : List A} → In a ys → In a (xs ++ ys)
  In-append_right [] m = m
  In-append_right (x ∷ xs) m = there (In-append_right xs m)

  pub append-In : {a : A} (xs : List A) {ys : List A} → In a (xs ++ ys) → In a xs ⊎ In a ys
  append-In [] m = inr m
  append-In (x ∷ xs) (here e) = inl (here e)
  append-In (x ∷ xs) (there m) = elim (append-In xs m) [ inl l ↦ inl (there l) | inr r ↦ inr r ]

  pub all-In : (p : A → Bool) {a : A} (xs : List A) → all p xs ≡ true → In a xs → p a ≡ true
  all-In p [] h m = elim m [ ]
  all-In p (x ∷ xs) h (here e) = ground (arith, ap p e)
  all-In p (x ∷ xs) h (there m) = all-In p xs (ground arith) m

  pub any-eq_true :
      (p : A → Bool) (xs : List A) → any p xs ≡ true → (a : A) × In a xs × (p a ≡ true)
  any-eq_true p [] h = cc
  any-eq_true p (x ∷ xs) h = elim (Bool-cases (p x)) [
    | inl e ↦ (x, here refl, e)
    | inr e ↦ let (a, m, q) = any-eq_true p xs (ground arith) in (a, there m, q)
  ]

  pub any-In : (p : A → Bool) {a : A} (xs : List A) → In a xs → p a ≡ true → any p xs ≡ true
  any-In p [] m h = elim m [ ]
  any-In p (x ∷ xs) (here e) h = ground (arith, ap p e)
  any-In p (x ∷ xs) (there m) h = ground (arith, any-In p xs m h)

  kept_or_later :
      (p : A → Bool) {a : A} (x : A) (xs : List A)
      → p x ≡ true
      → In a (x ∷ keep p xs)
      → (In a (keep p xs) → In a xs × (p a ≡ true))
      → In a (x ∷ xs) × (p a ≡ true)
  kept_or_later p x xs e (here q) later = (here q, ap p q ∙ e)
  kept_or_later p x xs e (there m) later = let (k, q) = later m in (there k, q)

  pub keep-In : (p : A → Bool) {a : A} (xs : List A) → In a (keep p xs) → In a xs × (p a ≡ true)
  keep-In p [] m = elim m [ ]
  keep-In p (x ∷ xs) m = elim (Bool-cases (p x)) [
    | inl e ↦ kept_or_later p x xs e (rw e at m) (λ n. keep-In p xs n)
    | inr e ↦ let (k, q) = keep-In p xs (rw e at m) in (there k, q)
  ]

  pub In-keep : (p : A → Bool) {a : A} (xs : List A) → In a xs → p a ≡ true → In a (keep p xs)
  In-keep p [] m h = elim m [ ]
  In-keep p (x ∷ xs) (here e) h = rw (subst (λ y. p y ≡ true) e h) (here e)
  In-keep p (x ∷ xs) (there m) h = elim (Bool-cases (p x)) [
    | inl e ↦ rw e (there (In-keep p xs m h))
    | inr e ↦ rw e (In-keep p xs m h)
  ]

  pub find-In : (p : A → Bool) (xs : List A) {a : A} → find p xs ≡ some a → In a xs × (p a ≡ true)
  find-In p [] h = cc
  find-In p (x ∷ xs) {a} h = elim (Bool-cases (p x)) [
    | inl e ↦ let same = some_inj (rw e at h) in (here (sym same), subst (λ y. p y ≡ true) same e)
    | inr e ↦ let (m, q) = find-In p xs (rw e at h) in (there m, q)
  ]

module _ {ℓ κ} {A : Type ℓ} (P : A → Type κ) where
  pub All-In : (l : List A) {a : A} → All P l → In a l → P a
  All-In [] h m = elim m [ ]
  All-In (x ∷ l) (p, h) (here e) = subst P (sym e) p
  All-In (x ∷ l) (p, h) (there m) = All-In l h m

  pub In-All : (l : List A) → ((a : A) → In a l → P a) → All P l
  In-All [] h = tt
  In-All (x ∷ l) h = (h x (here refl), In-All l (λ a m. h a (there m)))

  pub All-concat : (l : List A) {a : A} → All P l → P a → All P (l ++ a ∷ [])
  All-concat [] h p = (p, tt)
  All-concat (x ∷ l) (q, h) p = (q, All-concat l h p)

-- A number outside a range, which is given by its first and last number.
abbrev pub IsOutside : ℕ → ℕ × ℕ → Type 0
IsOutside n (first, last) = (n < first) ⊎ (last < n)
