-- ===== src/Text/Bytes.antt =====
-- A Go string is its bytes; the functions of `strings` that look at bytes only.
use Prim.Native.Char.{code}
use Prim.Native.String.{String}
use openbao_authorizer.Prelude.{
  ℕ, suc, ◌≡◌, refl, sym, ◌↔◌, Bool, true, false, ◌&&◌, Option, none, some, List, [], ◌∷◌, arith,
  if◌then◌else◌, In, here, there, any, eqb, Bool-cases, inl, inr,
}

abbrev pub Str : Type 0
Str = List ℕ

-- An ASCII literal.
abbrev pub bytes : String → Str
bytes String.[] = []
bytes (String.◌∷◌ c s) = code c ∷ bytes s

infix 50 ◌==◌
unfoldable pub ◌==◌ : Str → Str → Bool
[] == [] = true
[] == (b ∷ t) = false
(a ∷ s) == [] = false
(a ∷ s) == (b ∷ t) = eqb a b && s == t

-- slices.Contains
abbrev pub contains : List Str → Str → Bool
contains l s = any (λ t. t == s) l

-- strings.HasPrefix(s, prefix)
unfoldable pub has_prefix : Str → Str → Bool
has_prefix s [] = true
has_prefix [] (b ∷ p) = false
has_prefix (a ∷ s) (b ∷ p) = eqb a b && has_prefix s p

-- strings.CutSuffix(s, suffix) for a suffix of one byte
unfoldable pub cut_suffix : ℕ → Str → Str × Bool
cut_suffix c [] = ([], false)
cut_suffix c (b ∷ []) = if eqb b c then ([], true) else (b ∷ [], false)
cut_suffix c (b ∷ d ∷ s) = let (p, found) = cut_suffix c (d ∷ s) in (b ∷ p, found)

-- strings.HasSuffix and strings.TrimSuffix for a suffix of one byte
abbrev pub has_suffix : ℕ → Str → Bool
has_suffix c s = (cut_suffix c s).1

abbrev pub trim_suffix : ℕ → Str → Str
trim_suffix c s = (cut_suffix c s).0

-- strings.TrimPrefix
unfoldable pub without_prefix : Str → Str → Str
without_prefix s [] = s
without_prefix [] (b ∷ p) = []
without_prefix (a ∷ s) (b ∷ p) = without_prefix s p

abbrev pub trim_prefix : Str → Str → Str
trim_prefix s p = if has_prefix s p then without_prefix s p else s

-- strings.Cut for a separator of one byte
unfoldable pub cut : ℕ → Str → Str × Str × Bool
cut c [] = ([], [], false)
cut c (b ∷ s) =
    if eqb b c
    then ([], s, true)
    else let (before, after, found) = cut c s in (b ∷ before, after, found)

-- strings.Trim for an ASCII set
abbrev pub drop_set : Str → Str → Str
drop_set set [] = []
drop_set set (b ∷ s) = if any (eqb b) set then drop_set set s else b ∷ s

unfoldable pub drop_last_set : Str → Str → Str
drop_last_set set [] = []
drop_last_set set (b ∷ s) = elim (drop_last_set set s) [
  | [] ↦ if any (eqb b) set then [] else b ∷ []
  | c ∷ t ↦ b ∷ c ∷ t
]

abbrev pub trim_set : Str → Str → Str
trim_set set s = drop_last_set set (drop_set set s)

-- strings.Contains for one byte; strings.ContainsAny and strings.ContainsRune for ASCII sets
abbrev pub contains_byte : ℕ → Str → Bool
contains_byte c s = any (eqb c) s

abbrev pub contains_any : Str → Str → Bool
contains_any set s = any (λ b. contains_byte b set) s

-- strings.Index for one byte
unfoldable pub index_byte : ℕ → Str → Option ℕ
index_byte c [] = none
index_byte c (b ∷ s) =
    if eqb b c then some 0 else elim (index_byte c s) [ none ↦ none | some i ↦ some (suc i) ]

pub eq_refl : (s : Str) → (s == s) ≡ true
unfolding ◌==◌
eq_refl [] = refl
eq_refl (a ∷ s) = ground (arith, eq_refl s)

pub eq→≡ : (s t : Str) → (s == t) ≡ true → s ≡ t
unfolding ◌==◌
eq→≡ [] [] h = refl
eq→≡ [] (b ∷ t) h = cc
eq→≡ (a ∷ s) [] h = cc
eq→≡ (a ∷ s) (b ∷ t) h = ground (arith, eq→≡ s t)

pub eq_iff : (s t : Str) → ((s == t) ≡ true) ↔ (s ≡ t)
eq_iff s t = (eq→≡ s t, λ e. rw e (eq_refl t))

pub eq_comm : (s t : Str) → (s == t) ≡ (t == s)
unfolding ◌==◌
eq_comm [] [] = refl
eq_comm [] (b ∷ t) = refl
eq_comm (a ∷ s) [] = refl
eq_comm (a ∷ s) (b ∷ t) = ground (arith, eq_comm s t)

pub contains-In : (l : List Str) (s : Str) → contains l s ≡ true → In s l
contains-In [] s h = cc
contains-In (t ∷ l) s h = elim (Bool-cases (t == s)) [
  | inl e ↦ here (sym (eq→≡ t s e))
  | inr e ↦ there (contains-In l s (ground arith))
]

pub In-contains : (l : List Str) {s : Str} → In s l → contains l s ≡ true
In-contains [] m = elim m [ ]
In-contains (t ∷ l) {s} (here e) = rw e (ground (arith, eq_refl t))
In-contains (t ∷ l) {s} (there m) = ground (arith, In-contains l m)
