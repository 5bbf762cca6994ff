-- ===== src/Store/Subscriptions/Put.antt =====
-- What is stored when a push subscription is stored.
use openbao_authorizer.Prelude.{
  ℕ, ◌≡◌, refl, ◌⊎◌, inl, inr, true, List, [], ◌∷◌, In, here, there, All, In-All, Bool-cases,
}
use openbao_authorizer.Prelude.Result.{ok}
use openbao_authorizer.Text.Bytes.{Str, ◌==◌, eq_refl, eq→≡}
use openbao_authorizer.Store.Rows.{seal, unseal}
use openbao_authorizer.Store.Subscriptions.{
  Subscription, SubscriptionRow, subscription_row, put_subscription, nano_text,
}

module _ (date : ℕ → Str) (fingerprint : Str → Str) where
  -- A row in which a subscription is stored at a time, sealed under the fingerprint of its endpoint.
  pub record IsStored (s : Subscription) (now : ℕ) (row : SubscriptionRow) : Type 0 where
    pub own_fingerprint : row.fingerprint ≡ fingerprint s.endpoint
    pub entity_id : row.entity_id ≡ s.entity_id
    pub expires_at : row.expires_at ≡ nano_text date s.expires_at
    pub updated_at : row.updated_at ≡ nano_text date now
    pub content : unseal row.payload row.fingerprint ≡ ok s

  pub subscription_row-IsStored :
      (s : Subscription) (now : ℕ) → IsStored s now (subscription_row date fingerprint s now)
  unfolding subscription_row seal unseal
  subscription_row-IsStored s now = record {
    own_fingerprint = refl;
    entity_id = refl;
    expires_at = refl;
    updated_at = refl;
    content = rw (eq_refl (fingerprint s.endpoint)) refl;
  }

  module _ (s : Subscription) (now : ℕ) where
    pub In-put_subscription :
        (rows : List SubscriptionRow)
        → In
            (subscription_row date fingerprint s now)
            (put_subscription date fingerprint s now rows)
    unfolding put_subscription
    In-put_subscription [] = here refl
    In-put_subscription (row ∷ rows) =
        elim (Bool-cases (row.fingerprint == fingerprint s.endpoint)) [
          | inl e ↦ rw e (here refl)
          | inr e ↦ rw e (there (In-put_subscription rows))
        ]

    keeps :
        (rows : List SubscriptionRow) (old : SubscriptionRow)
        → In old rows
        → In old (put_subscription date fingerprint s now rows)
          ⊎ (old.fingerprint ≡ fingerprint s.endpoint)
    unfolding put_subscription
    keeps [] old m = elim m [ ]
    keeps (row ∷ rows) old m = elim (Bool-cases (row.fingerprint == fingerprint s.endpoint)) [
      | inl e ↦ rw e (replaced e m)
      | inr e ↦ rw e (passed (keeps rows old) m)
    ]
      where
        replaced :
            (row.fingerprint == fingerprint s.endpoint) ≡ true
            → In old (row ∷ rows)
            → In old (subscription_row date fingerprint s now ∷ rows)
              ⊎ (old.fingerprint ≡ fingerprint s.endpoint)
        replaced e (here same) = inr (rw same (eq→≡ _ _ e))
        replaced e (there later) = inl (there later)

        passed :
            (In old rows
              → In old (put_subscription date fingerprint s now rows)
                ⊎ (old.fingerprint ≡ fingerprint s.endpoint))
            → In old (row ∷ rows)
            → In old (row ∷ put_subscription date fingerprint s now rows)
              ⊎ (old.fingerprint ≡ fingerprint s.endpoint)
        passed rest (here same) = inl (here same)
        passed rest (there later) = elim (rest later) [
          | inl kept ↦ inl (there kept)
          | inr same ↦ inr same
        ]

    -- Every row is kept, but one of the same fingerprint.
    pub put_subscription-keeps :
        (rows : List SubscriptionRow)
        → All
            (λ old.
              In old (put_subscription date fingerprint s now rows)
              ⊎ (old.fingerprint ≡ fingerprint s.endpoint))
            rows
    put_subscription-keeps rows = In-All _ rows (λ old. keeps rows old)

    adds :
        (rows : List SubscriptionRow) (row : SubscriptionRow)
        → In row (put_subscription date fingerprint s now rows)
        → (row ≡ subscription_row date fingerprint s now) ⊎ In row rows
    unfolding put_subscription
    adds [] row (here same) = inl same
    adds [] row (there later) = elim later [ ]
    adds (first ∷ rows) row m = elim (Bool-cases (first.fingerprint == fingerprint s.endpoint)) [
      | inl e ↦ replacing (rw e at m)
      | inr e ↦ passing (adds rows row) (rw e at m)
    ]
      where
        replacing :
            In row (subscription_row date fingerprint s now ∷ rows)
            → (row ≡ subscription_row date fingerprint s now) ⊎ In row (first ∷ rows)
        replacing (here same) = inl same
        replacing (there later) = inr (there later)

        passing :
            (In row (put_subscription date fingerprint s now rows)
              → (row ≡ subscription_row date fingerprint s now) ⊎ In row rows)
            → In row (first ∷ put_subscription date fingerprint s now rows)
            → (row ≡ subscription_row date fingerprint s now) ⊎ In row (first ∷ rows)
        passing rest (here same) = inr (here same)
        passing rest (there later) = elim (rest later) [
          | inl new ↦ inl new
          | inr old ↦ inr (there old)
        ]

    -- Only one row is new.
    pub put_subscription-adds :
        (rows : List SubscriptionRow)
        → All
            (λ row. (row ≡ subscription_row date fingerprint s now) ⊎ In row rows)
            (put_subscription date fingerprint s now rows)
    put_subscription-adds rows = In-All _ _ (λ row. adds rows row)
