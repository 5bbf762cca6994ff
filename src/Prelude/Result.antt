-- ===== src/Prelude/Result.antt =====
-- Go's `(value, error)` returns as values, with `do` for the early returns.
use mathlib.Core.Path.{◌≡◌, refl}
use mathlib.Core.Bool.{Bool, true, false}

pub data Result {ℓ κ} (E : Type κ) (A : Type ℓ) : Type (ℓ ⊔ κ) where
  ok : A → Result E A
  err : E → Result E A

-- `if b { return err }`
abbrev pub fail_if {μ} : {E : Type μ} → Bool → E → Result E (Unit {0})
fail_if false failure = ok tt
fail_if true failure = err failure

-- `value, err := …; if err != nil { return err }`
infixl 5 ◌>>=◌
abbrev pub ◌>>=◌ {ℓ₁ ℓ₂ μ} :
    {E : Type μ} {A : Type ℓ₁} {B : Type ℓ₂} (first : Result E A) (next : A → Result E B)
    → Result E B
err failure >>= next = err failure
ok value >>= next = next value

-- `if err := …; err != nil { return err }`
infixl 5 ◌>>◌
abbrev pub ◌>>◌ {ℓ μ} :
    {E : Type μ} {A : Type ℓ} (first : Result E (Unit {0})) (next : Result E A) → Result E A
err failure >> next = err failure
ok done >> next = next

module _ {ℓ₁ ℓ₂ μ} {E : Type μ} {A : Type ℓ₁} {B : Type ℓ₂} where
  -- What a chain that went through says of its two parts.
  pub >>=-eq-ok :
      (first : Result E A) (next : A → Result E B) {b : B}
      → (first >>= next) ≡ ok b
      → (a : A) × (first ≡ ok a) × (next a ≡ ok b)
  >>=-eq-ok (err failure) next h = cc
  >>=-eq-ok (ok value) next h = (value, refl, h)

module _ {ℓ μ} {E : Type μ} {B : Type ℓ} where
  pub fail_if-eq-ok :
      (b : Bool) (e : E) (k : Result E B) {x : B}
      → (fail_if b e >> k) ≡ ok x
      → (b ≡ false) × (k ≡ ok x)
  fail_if-eq-ok true e k h = cc
  fail_if-eq-ok false e k h = (refl, h)

  pub >>-eq-ok :
      (first : Result E (Unit {0})) (k : Result E B) {x : B}
      → (first >> k) ≡ ok x
      → (first ≡ ok tt) × (k ≡ ok x)
  >>-eq-ok (err failure) k h = cc
  >>-eq-ok (ok tt) k h = (refl, h)

pub ok-injective {ℓ μ} :
    {E : Type μ} {A : Type ℓ} {a b : A} → ◌≡◌ {A = Result E A} (ok a) (ok b) → a ≡ b
ok-injective h = cc
