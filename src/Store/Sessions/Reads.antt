-- ===== src/Store/Sessions/Reads.antt =====
-- What the other operations on sessions leave for `Session` to read.
use openbao_authorizer.Prelude.{
  ℕ, ◌≡◌, ◌≤◌, refl, sym, ap, ◌∙◌, inl, inr, Bool, true, false, ◌&&◌, not, none, some, List, [],
  ◌∷◌, if◌then◌else◌, ltb, leb, any, find, keep, Bool-cases, arith,
}
use openbao_authorizer.Prelude.Result.{ok, err, ok-injective, fail_if-eq-ok}
use openbao_authorizer.Text.Bytes.{Str, ◌==◌, eq_refl}
use openbao_authorizer.Store.Model.{not_found, unix_milli, from_unix_milli}
use openbao_authorizer.Store.RoundTrip.{find-appended}
use openbao_authorizer.Store.Sessions.{
  Session, SessionRow, put_session, session_row, session, is_live, found_session, delete_session,
  delete_expired_sessions,
}

-- A search that a filter does not disturb.
find-keep :
    {R : Type 0} (p q : R → Bool) (l : List R)
    → ((x : R) → p x ≡ true → q x ≡ true)
    → find p (keep q l) ≡ find p l
find-keep p q [] h = refl
find-keep p q (x ∷ l) h = elim (Bool-cases (p x)) [
  | inl e ↦ ground (arith, find-keep p q l h, h x e)
  | inr e ↦ ground (arith, find-keep p q l h)
]

find-none :
    {R : Type 0} (p q : R → Bool) (l : List R)
    → ((x : R) → q x ≡ true → p x ≡ false)
    → find p (keep q l) ≡ none
find-none p q [] h = refl
find-none p q (x ∷ l) h = elim (Bool-cases (q x)) [
  | inl e ↦ ground (arith, find-none p q l h, h x e)
  | inr e ↦ ground (arith, find-none p q l h)
]

any-and :
    {R : Type 0} (p q : R → Bool) (l : List R) → any p l ≡ false → any (λ x. p x && q x) l ≡ false
any-and p q [] h = refl
any-and p q (x ∷ l) h = ground (arith, any-and p q l)

module _ (fingerprint : Str → Str) where
  -- A session that was stored is read back by its id, with its expiry cut to what the database
  -- keeps, while the time is before that, and is not found from then on.
  pub put_session_then_session :
      (s : Session) (rows rows' : List SessionRow) (now : ℕ)
      → put_session fingerprint s rows ≡ ok rows'
      → session fingerprint s.id now rows' ≡ (
          if ltb (unix_milli now) (unix_milli s.expires_at)
          then ok (record s { expires_at = from_unix_milli (unix_milli s.expires_at) })
          else err not_found)
  unfolding put_session session session_row
  put_session_then_session s rows rows' now h =
      let (complete, rest) = fail_if-eq-ok _ _ _ h in
      let (fresh, stored) = fail_if-eq-ok _ _ _ rest in
      ap (λ t. found_session fingerprint s.id (find (is_live fingerprint s.id now) t))
        (sym (ok-injective stored))
      ∙ (ap (found_session fingerprint s.id) (
            find-appended (is_live fingerprint s.id now) rows (session_row fingerprint s) (
              any-and (λ row. row.fingerprint == fingerprint s.id)
                (λ row. ltb (unix_milli now) row.expires_at) rows fresh))
          ∙ rw (eq_refl (fingerprint s.id))
              (taken (ltb (unix_milli now) (unix_milli s.expires_at))))
    where
      taken :
          (b : Bool)
          → found_session fingerprint s.id (if b then some (session_row fingerprint s) else none)
            ≡ (if b
                then ok (record s { expires_at = from_unix_milli (unix_milli s.expires_at) })
                else err not_found)
      taken true = refl
      taken false = refl

  -- A session that was deleted is not found, at any time.
  pub delete_session_then_session :
      (id : Str) (rows : List SessionRow) (now : ℕ)
      → session fingerprint id now (delete_session fingerprint id rows) ≡ err not_found
  unfolding session delete_session
  delete_session_then_session id rows now = ap (found_session fingerprint id) (
      find-none (is_live fingerprint id now) (λ row. not (row.fingerprint == fingerprint id)) rows
        (λ row e. ground arith))

  -- Deleting the sessions that have expired changes no read at that time or later.
  pub delete_expired_sessions_then_session :
      (id : Str) (rows : List SessionRow) (earlier now : ℕ)
      → unix_milli earlier ≤ unix_milli now
      → session fingerprint id now (delete_expired_sessions earlier rows)
        ≡ session fingerprint id now rows
  unfolding session delete_expired_sessions
  delete_expired_sessions_then_session id rows earlier now h = ap (found_session fingerprint id) (
      find-keep (is_live fingerprint id now) (λ row. not (leb row.expires_at (unix_milli earlier)))
        rows (λ row e. later row.expires_at (row.fingerprint == fingerprint id) e))
    where
      later :
          (n : ℕ) (b : Bool)
          → (b && ltb (unix_milli now) n) ≡ true
          → not (leb n (unix_milli earlier)) ≡ true
      later n b e = ground arith
