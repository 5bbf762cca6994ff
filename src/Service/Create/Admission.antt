-- ===== src/Service/Create/Admission.antt =====
-- Whom `Authenticate` admits.
use openbao_authorizer.Prelude.{
  ◌≡◌, ◌≢◌, sym, ap, ◌∙◌, inl, inr, some, List, [], if◌then◌else◌, find, Option-cases, Bool-cases,
  arith,
}
use openbao_authorizer.Prelude.Result.{Result, ok, err, ok-injective}
use openbao_authorizer.Text.Bytes.{Str, ◌==◌, eq_refl}
use openbao_authorizer.Service.Model.{
  OpenBao, World, Config, Identity, Requester, RequesterRule, ServiceError,
}
use openbao_authorizer.Service.Exec.{on_error, calls}
use openbao_authorizer.Service.Exec.Inversion.{bind-ok, on_error-raised, Raises, calls-ok}
use openbao_authorizer.Service.Create.{rule_matches, requester_of, admit, authenticate, token_error}

-- A Requester that was admitted: its identity has an entity, and the first rule that matches the
-- identity names it.
pub record IsAdmitted (rules : List RequesterRule) (identity : Identity) (requester : Requester)
    : Type 0 where
  pub rule : RequesterRule
  pub first : find (rule_matches identity) rules ≡ some rule
  pub some_entity : identity.entity_id ≢ []
  pub entity : requester.entity_id ≡ identity.entity_id
  pub named : requester.display.rule ≡ rule.name

admit-IsAdmitted :
    (rules : List RequesterRule) (identity : Identity) (requester : Requester)
    → admit rules identity ≡ ok requester
    → IsAdmitted rules identity requester
unfolding admit requester_of
admit-IsAdmitted rules identity requester h =
    elim (Option-cases (find (rule_matches identity) rules)) [
      | inl e ↦ cc (rw (e, admit) at h)
      | inr (rule, e) ↦ with_rule rule e (rw (e, admit) at h)
    ]
  where
    with_rule :
        (rule : RequesterRule)
        → find (rule_matches identity) rules ≡ some rule
        → (if identity.entity_id == []
            then err ServiceError.not_requester
            else ok (requester_of identity rule))
          ≡ ok requester
        → IsAdmitted rules identity requester
    with_rule rule e k = elim (Bool-cases (identity.entity_id == [])) [
      | inl empty ↦ cc (rw empty at k)
      | inr full ↦
          let built = ok-injective (rw full at k) in
          record {
            rule = rule;
            first = e;
            some_entity = λ none_there. cc (full, ap (λ x. x == []) none_there, eq_refl []);
            entity = ap (λ (r : Requester). r.entity_id) (sym built);
            named = ap (λ (r : Requester). r.display.rule) (sym built);
          }
    ]

token_error-Raises :
    {bao : OpenBao} (e : ServiceError) → Raises (token_error {W = World bao} {A = Identity} e)
token_error-Raises e w a w' h = ground arith

-- Whoever is authenticated is the entity that OpenBao returns for the token, an entity with an id,
-- under the first of the rules that matches it; and the tables are as they were.
pub authenticate-IsAdmitted :
    (config : Config) {bao : OpenBao} (token : Str) (w : World bao) (requester : Requester)
    (w' : World bao)
    → authenticate config token w ≡ (ok requester, w')
    → (identity : Identity) × ((bao.lookup_self token w.server).0 ≡ ok identity)
      × IsAdmitted config.requesters identity requester
      × (w'.db ≡ w.db)
unfolding authenticate
authenticate-IsAdmitted config {bao} token w requester w' h =
    let (identity, first, rest) =
      bind-ok (on_error (calls (bao.lookup_self token)) token_error) _ w h in
    let (known, server, db) =
      calls-ok (bao.lookup_self token) w
        (on_error-raised (calls (bao.lookup_self token)) token_error w token_error-Raises first) in
    (
      identity,
      known,
      admit-IsAdmitted config.requesters identity requester
          (ap (λ (x : Result ServiceError Requester × World bao). x.0) rest),
      ap (λ (x : Result ServiceError Requester × World bao). x.1.db) (sym rest) ∙ db,
    )
