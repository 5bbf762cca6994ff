-- ===== src/Api/Auth/Admitted.antt =====
-- Whom the approver service admits.
use openbao_authorizer.Prelude.{
  ℕ, ◌≡◌, ◌≢◌, refl, sym, ap, not, ◌++◌, [], ◌∷◌, ◌<◌, ◌⊎◌, inl, inr, Bool, true, false, ◌&&◌,
  Option, none, some, List, In, find, find-In, ltb, ltb→lt, Bool-cases, Option-cases, arith,
}
use openbao_authorizer.Prelude.Result.{Result, ok, err, ok-injective, fail_if, fail_if-eq-ok}
use openbao_authorizer.Text.Bytes.{Str, bytes, ◌==◌, eq→≡, eq_refl, trim_suffix}
use openbao_authorizer.Rules.Pattern.{is_empty}
use openbao_authorizer.Store.Model.{
  StoreError, not_found, status_changed, constraint_failed, cipher_failed, database_failed,
  unix_milli,
}
use openbao_authorizer.Store.Sessions.{Session, SessionRow, session, session_of, is_live}
use openbao_authorizer.Api.Errors.{
  ApiError, api_error, code_permission_denied, reason_cross_origin, fixed,
}
use openbao_authorizer.Api.Model.{LoginBao, Site, ServerOptions, Headers, fails}
use openbao_authorizer.Api.Auth.{
  Procedure, needs_session, expected_origin, check_same_origin, session_result, with_cookie,
  with_origin, authorize_approver,
}

result_cases : (r : Result ApiError (Unit {0})) → (r ≡ ok tt) ⊎ ((e : ApiError) × (r ≡ err e))
result_cases (ok tt) = inl refl
result_cases (err e) = inr (e, refl)

session_result-ok :
    (r : Result StoreError Session) {caller : Option Session}
    → session_result r ≡ ok caller
    → (s : Session) × (caller ≡ some s) × (r ≡ ok s)
session_result-ok (ok s) h = (s, sym (ok-injective h), refl)
session_result-ok (err not_found) h = cc
session_result-ok (err status_changed) h = cc
session_result-ok (err constraint_failed) h = cc
session_result-ok (err cipher_failed) h = cc
session_result-ok (err database_failed) h = cc

-- A call that a browser does not mark as cross-site, and whose Origin header, one slash at its end
-- apart, is missing or is the public origin, or where none is set the scheme and the Host header.
pub record IsSameOrigin (o : ServerOptions) (headers : Headers) : Type 0 where
  pub not_cross : headers.sec_fetch_site ≢ bytes "cross-site"
  pub origin :
      (trim_suffix b'/' headers.origin ≡ [])
      ⊎ ((o.public_origin ≢ []) × (trim_suffix b'/' headers.origin ≡ o.public_origin))
      ⊎ ((o.public_origin ≡ [])
          × (o.insecure_cookies ≡ true)
          × (trim_suffix b'/' headers.origin ≡ bytes "http" ++ (bytes "://" ++ headers.host)))
      ⊎ ((o.public_origin ≡ [])
          × (o.insecure_cookies ≡ false)
          × (trim_suffix b'/' headers.origin ≡ bytes "https" ++ (bytes "://" ++ headers.host)))

origin-cases :
    (o : ServerOptions) (headers : Headers) (origin : Str)
    → origin ≡ expected_origin o headers
    → ((o.public_origin ≢ []) × (origin ≡ o.public_origin))
      ⊎ ((o.public_origin ≡ [])
          × (o.insecure_cookies ≡ true)
          × (origin ≡ bytes "http" ++ (bytes "://" ++ headers.host)))
      ⊎ ((o.public_origin ≡ [])
          × (o.insecure_cookies ≡ false)
          × (origin ≡ bytes "https" ++ (bytes "://" ++ headers.host)))
unfolding expected_origin
origin-cases o headers origin h = elim (Bool-cases (is_empty o.public_origin)) [
  | inr given ↦ inl (filled o.public_origin given, rw given at h)
  | inl missing ↦
      let none_set = empty o.public_origin missing in
      elim (Bool-cases o.insecure_cookies) [
        | inl insecure ↦ inr (inl (none_set, insecure, rw (missing, insecure) at h))
        | inr secure ↦ inr (inr (none_set, secure, rw (missing, secure) at h))
      ]
]
  where
    filled : (s : Str) → is_empty s ≡ false → s ≢ []
    filled [] h e = cc
    filled (b ∷ s) h e = cc

    empty : (s : Str) → is_empty s ≡ true → s ≡ []
    empty [] h = refl
    empty (b ∷ s) h = cc

origin_check :
    (origin expected : Str)
    → (not (is_empty origin) && not (origin == expected)) ≡ false
    → (origin ≡ []) ⊎ (origin ≡ expected)
origin_check [] expected h = inl refl
origin_check (b ∷ origin) expected h = elim (Bool-cases ((b ∷ origin) == expected)) [
  | inl e ↦ inr (eq→≡ (b ∷ origin) expected e)
  | inr e ↦ cc (rw e at h)
]

check_same_origin-IsSameOrigin :
    (o : ServerOptions) (headers : Headers)
    → check_same_origin o headers ≡ ok tt
    → IsSameOrigin o headers
unfolding check_same_origin
check_same_origin-IsSameOrigin o headers h =
    let (site, rest) =
      fail_if-eq-ok (headers.sec_fetch_site == bytes "cross-site")
        (api_error code_permission_denied reason_cross_origin fixed []) _ h in
    let checked =
      fail_if-ok
        (not (is_empty (trim_suffix b'/' headers.origin))
          && not (trim_suffix b'/' headers.origin == expected_origin o headers))
        _ rest in
    record {
      not_cross = differ headers.sec_fetch_site (bytes "cross-site") site;
      origin =
          elim (origin_check (trim_suffix b'/' headers.origin) (expected_origin o headers)
            checked) [
              | inl e ↦ inl e
              | inr e ↦ inr (origin-cases o headers (trim_suffix b'/' headers.origin) e)
            ];
    }
  where
    fail_if-ok : (b : Bool) (e : ApiError) → fail_if b e ≡ ok tt → b ≡ false
    fail_if-ok true e h = cc
    fail_if-ok false e h = refl

    differ : (s t : Str) → (s == t) ≡ false → s ≢ t
    differ s t h e = cc (h, eq_refl t, ap (λ x. x == t) e)

and-both : (a b : Bool) → (a && b) ≡ true → (a ≡ true) × (b ≡ true)
and-both a b h = ground arith

module _ (fingerprint : Str → Str) where
  -- The session that a row stands for, under the id in the cookie, before its expiry.
  pub record IsLive (rows : List SessionRow) (id : Str) (now : ℕ) (s : Session) : Type 0 where
    pub row : SessionRow
    pub listed : In row rows
    pub same_id : (row.fingerprint == fingerprint id) ≡ true
    pub unexpired : unix_milli now < row.expires_at
    pub read : s ≡ session_of fingerprint id row

  found-IsLive :
      (rows : List SessionRow) (id : Str) (now : ℕ) {s : Session}
      → session fingerprint id now rows ≡ ok s
      → IsLive rows id now s
  unfolding session
  found-IsLive rows id now h = elim (Option-cases (find (is_live fingerprint id now) rows)) [
    | inl e ↦ cc (rw e at h)
    | inr (row, e) ↦
        let (listed, live) = find-In (is_live fingerprint id now) rows e in
        let (same, late) =
          and-both (row.fingerprint == fingerprint id) (ltb (unix_milli now) row.expires_at) live in
        record {
          row = row;
          listed = listed;
          same_id = same;
          unexpired = ltb→lt _ _ late;
          read = sym (ok-injective (rw e at h));
        }
  ]

  -- The caller of a procedure: of one that needs a session, the one whose cookie names a live session.
  abbrev pub IsCaller : Procedure → Headers → ℕ → List SessionRow → Option Session → Type 0
  IsCaller procedure headers now rows caller =
      ((needs_session procedure ≡ false) × (caller ≡ none))
      ⊎ ((id : Str) × (s : Session) × (headers.cookie ≡ some id)
          × (caller ≡ some s)
          × IsLive rows id now s)

module _ (fingerprint : Str → Str) {bao : LoginBao} where
  cookie-IsLive :
      (now : ℕ) (cookie : Option Str) (w : Site bao) {caller : Option Session}
      → (with_cookie fingerprint now cookie w).0 ≡ ok caller
      → (id : Str) × (s : Session) × (cookie ≡ some id)
        × (caller ≡ some s)
        × IsLive fingerprint w.sessions id now s
  cookie-IsLive now none w h = cc
  cookie-IsLive now (some id) w h = elim (Bool-cases (fails w)) [
    | inl e ↦ cc (rw e at h)
    | inr e ↦
        let (s, same, found) = session_result-ok _ (rw e at h) in
        (id, s, refl, same, found-IsLive fingerprint w.sessions id now found)
  ]

  -- A call that the approver service admits is not marked as cross-site by the browser, and its
  -- Origin header, one slash at the end apart, is missing, or is the public origin, or where none
  -- is set the scheme and the Host header; and the call is of a procedure that needs no session,
  -- or is made with a cookie that names a stored session before its expiry, as that session.
  pub authorize_approver-IsCaller :
      (o : ServerOptions) (procedure : Procedure) (headers : Headers) (now : ℕ) (w : Site bao)
      (caller : Option Session)
      → (authorize_approver fingerprint o procedure headers now w).0 ≡ ok caller
      → IsSameOrigin o headers × IsCaller fingerprint procedure headers now w.sessions caller
  unfolding authorize_approver
  authorize_approver-IsCaller o procedure headers now w caller h =
      elim (result_cases (check_same_origin o headers)) [
        | inr (e, f) ↦ cc (rw (f, with_origin) at h)
        | inl f ↦ elim (Bool-cases (needs_session procedure)) [
          | inl g ↦ (
            check_same_origin-IsSameOrigin o headers f,
            inr (cookie-IsLive now headers.cookie w (rw (f, with_origin, g) at h)),
          )
          | inr g ↦ (
            check_same_origin-IsSameOrigin o headers f,
            inl (g, sym (ok-injective (rw (f, with_origin, g) at h))),
          )
        ]
      ]
