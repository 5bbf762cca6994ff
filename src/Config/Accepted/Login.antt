-- ===== src/Config/Accepted/Login.antt =====
-- The ways to sign in of a configuration that is accepted.
use openbao_authorizer.Prelude.{
  ◌≡◌, refl, ◌∙◌, ◌⊎◌, inl, inr, Bool, true, false, ◌&&◌, not, some, List, [], ◌∷◌, All, Bool-cases,
  Option-cases, if◌then◌else◌, arith, some_inj, subst, not-eq_false,
}
use openbao_authorizer.Prelude.Result.{ok, >>=-eq-ok, fail_if-eq-ok, ok-injective}
use openbao_authorizer.Text.Bytes.{Str, bytes, ◌==◌, eq→≡}
use openbao_authorizer.Rules.Pattern.{is_empty}
use openbao_authorizer.Config.Model.{
  Host, ApproverLogin, ApproverLoginConfig, LoginMethod, LoginMethodConfig, login_labels,
  address_invalid, role_refused,
}
use openbao_authorizer.Config.Login.{
  is_web_address, load_approver_login, login_method, login_method_with, login_methods, lookup_text,
  mount_of, or_else, token_method,
}

-- A supported way to sign in: it has a label and, tokens apart, a mount, and a role only for OIDC.
pub record IsSupported (m : LoginMethod) : Type 0 where
  pub known : (label : Str) × (lookup_text login_labels m.method ≡ some label)
  pub labelled : is_empty m.label ≡ false
  pub mounted : ((m.method == bytes "token") ≡ false) → is_empty m.mount ≡ false
  pub role_for_oidc : ((m.method == bytes "oidc") ≡ false) → m.oidc_role ≡ []

is_empty-eq_true : (s : Str) → is_empty s ≡ true → s ≡ []
is_empty-eq_true [] h = refl
is_empty-eq_true (b ∷ s) h = cc

or_else-nonempty : (a b : Str) → is_empty b ≡ false → is_empty (or_else a b) ≡ false
or_else-nonempty [] b h = h
or_else-nonempty (c ∷ a) b h = refl

-- What is found at a key stands in the map.
lookup_text-All :
    (P : Str → Str → Type 0) (l : List (Str × Str)) (key : Str) {value : Str}
    → All (λ entry. P entry.0 entry.1) l
    → lookup_text l key ≡ some value
    → P key value
unfolding lookup_text
lookup_text-All P [] key all h = cc
lookup_text-All P ((k, v) ∷ rest) key (p, all) h = elim (Bool-cases (k == key)) [
  | inl e ↦
      let same : v ≡ _ = some_inj (rw e at h) in
      subst (λ x. P key x) same (subst (λ x. P x v) (eq→≡ k key e) p)
  | inr e ↦ lookup_text-All P rest key all (rw e at h)
]

known-nonempty :
    (key : Str) {label : Str}
    → lookup_text login_labels key ≡ some label
    → (is_empty key ≡ false) × (is_empty label ≡ false)
known-nonempty key h =
    lookup_text-All (λ k v. (is_empty k ≡ false) × (is_empty v ≡ false)) login_labels key
      ((refl, refl), ((refl, refl), ((refl, refl), ((refl, refl), ((refl, refl), tt))))) h

mount_of-nonempty :
    (m : LoginMethodConfig)
    → is_empty m.method ≡ false
    → (m.method == bytes "token") ≡ false
    → is_empty (mount_of m) ≡ false
unfolding mount_of
mount_of-nonempty m p h = ground arith

role_only_oidc :
    (role : Str) (oidc : Bool)
    → (not (is_empty role) && not oidc) ≡ false
    → (oidc ≡ true) ⊎ (role ≡ [])
role_only_oidc [] oidc h = inr refl
role_only_oidc (b ∷ role) true h = inl refl
role_only_oidc (b ∷ role) false h = cc

made_of :
    (m : LoginMethodConfig) (label : Str) {made : LoginMethod}
    → lookup_text login_labels m.method ≡ some label
    → login_method_with m (some label) ≡ ok made
    → IsSupported made
unfolding login_method_with
made_of m label e h =
    let (role, h₁) =
      fail_if-eq-ok (not (is_empty m.role) && not (m.method == bytes "oidc"))
        (role_refused m.method) _ h in
    let (named, shown) = known-nonempty m.method e in
    let same = ok-injective h₁ in
    rw (← same) (record {
      known = (label, e);
      labelled = or_else-nonempty m.label label shown;
      mounted = λ no_token. mount_of-nonempty m named no_token;
      role_for_oidc = λ other. elim (role_only_oidc m.role _ role) [
        | inl yes_oidc ↦ cc
        | inr none_set ↦ none_set
      ];
    })

login_method-IsSupported :
    (m : LoginMethodConfig) {made : LoginMethod} → login_method m ≡ ok made → IsSupported made
unfolding login_method login_method_with
login_method-IsSupported m h = elim (Option-cases (lookup_text login_labels m.method)) [
  | inl e ↦ cc (rw (e, login_method_with) at h)
  | inr (label, e) ↦ made_of m label e (rw e at h)
]

login_methods-IsSupported :
    (raw : List LoginMethodConfig) {methods : List LoginMethod}
    → login_methods raw ≡ ok methods
    → All IsSupported methods × (is_empty methods ≡ is_empty raw)
unfolding login_methods
login_methods-IsSupported [] h = let e = ok-injective h in rw (← e) (tt, refl)
login_methods-IsSupported (m ∷ raw) h =
    let (made, p, h₁) = >>=-eq-ok _ _ h in
    let (rest, q, h₂) = >>=-eq-ok _ _ h₁ in
    let e = ok-injective {a = made ∷ rest} h₂ in
    rw (← e) ((login_method-IsSupported m p, (login_methods-IsSupported raw q).0), refl)

some_method :
    (raw : List LoginMethodConfig)
    → is_empty (if is_empty raw then token_method ∷ [] else raw) ≡ false
some_method [] = refl
some_method (m ∷ raw) = refl

pub load_approver_login-IsSupported :
    (host : Host) (raw : ApproverLoginConfig) {login : ApproverLogin}
    → load_approver_login host raw ≡ ok login
    → (is_web_address (host.parse_url raw.openbao_address) ≡ true)
      × All IsSupported login.methods
      × (is_empty login.methods ≡ false)
unfolding load_approver_login
load_approver_login-IsSupported host raw h =
    let (web, h₁) =
      fail_if-eq-ok (not (is_web_address (host.parse_url raw.openbao_address))) address_invalid _
        h in
    let (methods, made, h₂) = >>=-eq-ok _ _ h₁ in
    let (all, same) = login_methods-IsSupported _ made in
    let e = ok-injective {b = _} h₂ in
    rw (← e) (not-eq_false _ web, all, same ∙ some_method raw.methods)
