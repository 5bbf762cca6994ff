-- ===== src/Api/Sessions/Created.antt =====
-- What a sign-in leaves, and what a sign-in that fails does not.
use openbao_authorizer.Prelude.{
  ℕ, ◌≡◌, refl, sym, ap, ◌∙◌, inl, inr, subst, Bool, true, false, ◌||◌, not, Option, none, some,
  List, [], ◌∷◌, In, All, In-All, keep-In, if◌then◌else◌, Bool-cases, arith,
}
use openbao_authorizer.Prelude.Result.{Result, ok, err, ok-injective, fail_if-eq-ok}
use openbao_authorizer.Text.Bytes.{Str}
use openbao_authorizer.Text.Unicode.{trim_space}
use openbao_authorizer.Rules.Pattern.{is_empty}
use openbao_authorizer.Store.Sessions.{
  Session, SessionRow, SessionError, put_session, delete_session,
}
use openbao_authorizer.Service.Model.{BaoError}
use openbao_authorizer.Service.Decide.{add_duration}
use openbao_authorizer.Api.Errors.{
  ApiError, api_error, code_permission_denied, reason_not_approver, fixed,
}
use openbao_authorizer.Api.Model.{
  ApproverIdentity, has_policy, LoginBao, Site, ServerOptions, Headers, Cookie, fails, called,
  end_session,
}
use openbao_authorizer.Api.Sessions.{
  SignIn, check_identity, rejected_token, end_old, stored, put_drawn, open_session, give_up_token,
  create_session,
}

-- An identity that may approve.
pub record IsApprover (o : ServerOptions) (identity : ApproverIdentity) : Type 0 where
  pub has_entity : is_empty identity.entity_id ≡ false
  pub policy_set : is_empty o.approver_policy ≡ false
  pub holds_policy : has_policy identity o.approver_policy ≡ true

neither : (a b : Bool) → (a || not b) ≡ false → (a ≡ false) × (b ≡ true)
neither a b h = ground arith

check_identity-IsApprover :
    (o : ServerOptions) (r : Result BaoError ApproverIdentity) {identity : ApproverIdentity}
    → check_identity o r ≡ ok identity
    → (r ≡ ok identity) × IsApprover o identity
unfolding check_identity
check_identity-IsApprover o (err e) h = cc
check_identity-IsApprover o (ok found) h =
    let (entity, h₁) =
      fail_if-eq-ok (is_empty found.entity_id)
        (api_error code_permission_denied reason_not_approver fixed []) _ h in
    let (policy, h₂) =
      fail_if-eq-ok (is_empty o.approver_policy || not (has_policy found o.approver_policy))
        (api_error code_permission_denied reason_not_approver fixed []) _ h₁ in
    let same = ok-injective h₂ in
    let (set, holds) =
      neither (is_empty o.approver_policy) (has_policy found o.approver_policy) policy in
    (
      ap ok same,
      subst (IsApprover o) same
          (record { has_entity = entity; policy_set = set; holds_policy = holds }),
    )

module _ (fingerprint : Str → Str) (o : ServerOptions) (now : ℕ) where
  -- A session for the identity, from now on for as long as sessions last, stored as a row of its own.
  pub record IsOpened (identity : ApproverIdentity) (before after : List SessionRow) (s : Session)
      : Type 0 where
    pub entity : s.entity_id ≡ identity.entity_id
    pub named : s.display_name ≡ identity.display_name
    pub expiry : s.expires_at ≡ add_duration now o.session_ttl
    pub added : put_session fingerprint s before ≡ ok after

module _ (fingerprint : Str → Str) {bao : LoginBao} (o : ServerOptions) (now : ℕ) where
  end_session-In :
      (id : Str) (w : Site bao)
      → All (λ row. In row w.sessions) (end_session fingerprint id w).sessions
  unfolding end_session delete_session
  end_session-In id w = elim (Bool-cases (fails w)) [
    | inl e ↦ rw e (In-All _ w.sessions (λ row m. m))
    | inr e ↦
        rw e (
          In-All _ (delete_session fingerprint id w.sessions) (λ row m. (keep-In _ w.sessions m).0))
  ]

  end_old-In :
      (cookie : Option Str) (w : Site bao)
      → All (λ row. In row w.sessions) (end_old fingerprint cookie w).sessions
  end_old-In none w = In-All _ w.sessions (λ row m. m)
  end_old-In (some id) w = end_session-In id w

  end_old-server :
      (cookie : Option Str) (w : Site bao) → (end_old fingerprint cookie w).server ≡ w.server
  unfolding end_session
  end_old-server none w = refl
  end_old-server (some id) w = refl

  -- What a function on sites does with the sessions: it stores one, or leaves them alone.
  abbrev Stores :
      ApproverIdentity → Site bao → Result ApiError (Session × Cookie) × Site bao → Type 0
  Stores identity w (ok (s, c), w') =
      IsOpened fingerprint o now identity w.sessions w'.sessions s × (w'.server ≡ w.server)
  Stores identity w (err e, w') = w'.sessions ≡ w.sessions

  stored-Stores :
      (identity : ApproverIdentity) (s : Session) (r : Result SessionError (List SessionRow))
      (w : Site bao)
      → s.entity_id ≡ identity.entity_id
      → s.display_name ≡ identity.display_name
      → s.expires_at ≡ add_duration now o.session_ttl
      → put_session fingerprint s w.sessions ≡ r
      → Stores identity w (stored fingerprint o s r w)
  stored-Stores identity s (err e) w p q t h = refl
  stored-Stores identity s (ok rows) w p q t h =
      (record { entity = p; named = q; expiry = t; added = h }, refl)

  put_drawn-Stores :
      (identity : ApproverIdentity) (ids : List Str) (w : Site bao)
      → Stores identity w (put_drawn fingerprint o identity now ids w)
  put_drawn-Stores identity [] w = refl
  put_drawn-Stores identity (id ∷ ids) w = elim (Bool-cases (fails w)) [
    | inl e ↦ rw e refl
    | inr e ↦ rw e (
        stored-Stores identity
          (record {
            id = id;
            entity_id = identity.entity_id;
            display_name = identity.display_name;
            expires_at = add_duration now o.session_ttl;
          })
          _ (called (record w { tokens = ids })) refl refl refl refl)
  ]

  -- From the checked identity on, with what is left of the sessions when the old one has ended.
  abbrev Opens :
      Site bao
      → Result ApiError ApproverIdentity
      → Result ApiError (Session × Cookie) × Site bao
      → Type 0
  Opens w r (ok (s, c), w') =
      (identity : ApproverIdentity) × (before : List SessionRow) × (r ≡ ok identity)
      × All (λ row. In row w.sessions) before
      × IsOpened fingerprint o now identity before w'.sessions s
      × (w'.server ≡ w.server)
  Opens w r (err e, w') = All (λ row. In row w.sessions) w'.sessions

  to_Opens :
      (identity : ApproverIdentity) (w old : Site bao)
      (result : Result ApiError (Session × Cookie) × Site bao)
      → All (λ row. In row w.sessions) old.sessions
      → old.server ≡ w.server
      → Stores identity old result
      → Opens w (ok identity) result
  to_Opens identity w old (ok (s, c), w') inside same (opened, kept) =
      (identity, old.sessions, refl, inside, opened, kept ∙ same)
  to_Opens identity w old (err e, w') inside same unchanged =
      subst (All (λ row. In row w.sessions)) (sym unchanged) inside

  open_session-Opens :
      (cookie : Option Str) (r : Result ApiError ApproverIdentity) (w : Site bao)
      → Opens w r (open_session fingerprint o now cookie r w)
  unfolding open_session
  open_session-Opens cookie (err e) w = In-All _ w.sessions (λ row m. m)
  open_session-Opens cookie (ok identity) w =
      let old = end_old fingerprint cookie w in
      to_Opens identity w old (put_drawn fingerprint o identity now old.tokens old)
        (end_old-In cookie w) (end_old-server cookie w) (put_drawn-Stores identity old.tokens old)

  module _ (headers : Headers) (request : SignIn) (w : Site bao) where
    abbrev pub used_token : Str
    used_token = trim_space request.openbao_token

    abbrev pub lookup : Result BaoError ApproverIdentity × bao.State
    lookup = bao.lookup_self used_token w.server

    -- What a sign-in does: it opens a session for an identity that OpenBao returned for the token and
    -- that may approve, and gives the token up unless it is to be kept; or it opens none.
    abbrev pub SignsIn : Result ApiError (Session × Cookie) × Site bao → Type 0
    SignsIn (ok (s, c), w') =
        (identity : ApproverIdentity) × (before : List SessionRow) × (lookup.0 ≡ ok identity)
        × IsApprover o identity
        × All (λ row. In row w.sessions) before
        × IsOpened fingerprint o now identity before w'.sessions s
        × (w'.server
            ≡ (if request.keep_token then lookup.1 else (bao.revoke_self used_token lookup.1).1))
    SignsIn (err e, w') = All (λ row. In row w.sessions) w'.sessions

    give_up_token-eq :
        (v : Site bao)
        → ((give_up_token request used_token v).sessions ≡ v.sessions)
          × ((give_up_token request used_token v).server
              ≡ (if request.keep_token then v.server else (bao.revoke_self used_token v.server).1))
    unfolding give_up_token
    give_up_token-eq v = elim (Bool-cases request.keep_token) [
      | inl e ↦ rw e (refl, refl)
      | inr e ↦ rw e (refl, refl)
    ]

    signs_in :
        (v : Site bao) (result : Result ApiError (Session × Cookie) × Site bao)
        → v.sessions ≡ w.sessions
        → v.server
          ≡ (if request.keep_token then lookup.1 else (bao.revoke_self used_token lookup.1).1)
        → Opens v (check_identity o lookup.0) result
        → SignsIn result
    signs_in v (err e, w') same given inside =
        subst (λ l. All (λ row. In row l) w'.sessions) same inside
    signs_in v (ok (s, c), w') same given (identity, before, checked, inside, opened, kept) =
        let (found, may) = check_identity-IsApprover o lookup.0 checked in
        (
          identity,
          before,
          found,
          may,
          subst (λ l. All (λ row. In row l) before) same inside,
          opened,
          kept ∙ given,
        )

    -- A sign-in that succeeds opens one session, for the identity that OpenBao returned for the
    -- token, which has an entity and the approver policy, and revokes the token unless it is to be
    -- kept; a sign-in that fails leaves no session that was not there.
    pub create_session-SignsIn : SignsIn (create_session fingerprint o headers request now w)
    unfolding create_session
    create_session-SignsIn = elim (Bool-cases (is_empty used_token)) [
      | inl e ↦ rw e (In-All _ w.sessions (λ row m. m))
      | inr e ↦ elim (Bool-cases (rejected_token lookup.0)) [
        | inl f ↦ rw (e, f) (In-All _ w.sessions (λ row m. m))
        | inr f ↦
            let v = give_up_token request used_token (record w { server = lookup.1 }) in
            let (same, given) = give_up_token-eq (record w { server = lookup.1 }) in
            rw (e, f)
              (signs_in v
                (open_session fingerprint o now headers.cookie (check_identity o lookup.0) v) same
                given (open_session-Opens headers.cookie (check_identity o lookup.0) v))
      ]
    ]
