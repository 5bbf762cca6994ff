-- ===== src/Store/Subscriptions/Late.antt =====
-- Texts of times within one second.
use openbao_authorizer.Prelude.{
  ℕ, ◌+◌, ◌*◌, ◌/◌, ◌%◌, ◌<◌, ◌≡◌, refl, ap, ap₂, ◌∙◌, true, false, [], ◌∷◌, ◌++◌, eqb, ltb, arith,
}
use openbao_authorizer.Prelude.Result.{ok}
use openbao_authorizer.Text.Bytes.{Str, eq_refl}
use openbao_authorizer.Rules.Model.{second}
use openbao_authorizer.Rules.Capability.{str_lt}
use openbao_authorizer.Store.Rows.{seal, unseal}
use openbao_authorizer.Store.Subscriptions.{
  Subscription, subscription_row, put_subscription, subscriptions, open_rows, nano_text, fraction,
}

str_lt-prefix : (p s t : Str) → str_lt (p ++ s) (p ++ t) ≡ str_lt s t
unfolding str_lt
str_lt-prefix [] s t = refl
str_lt-prefix (b ∷ p) s t = ground (arith, str_lt-prefix p s t)

fraction-later : (n : ℕ) (s : Str) → (eqb n 0) ≡ false → str_lt (fraction n ++ s) (b'Z' ∷ []) ≡ true
unfolding fraction str_lt
fraction-later n s h = rw h refl

module _ (date : ℕ → Str) where
  abbrev text_at : ℕ → ℕ → Str
  text_at t n = date t ++ (fraction n ++ b'Z' ∷ [])

  nano_text-at : (t n : ℕ) → ltb n second ≡ true → nano_text date (t * second + n) ≡ text_at t n
  unfolding nano_text
  nano_text-at t n k =
      let q : (t * second + n) / second ≡ t = ground arith in
      let r : (t * second + n) % second ≡ n = ground arith in ap₂ text_at q r

  -- A time past a whole second reads as earlier than that second.
  text_at-before : (t n : ℕ) → eqb n 0 ≡ false → str_lt (text_at t n) (text_at t 0) ≡ true
  unfolding fraction
  text_at-before t n h =
      str_lt-prefix (date t) (fraction n ++ b'Z' ∷ []) (b'Z' ∷ []) ∙ fraction-later n _ h

  -- A subscription that expires at a whole second is listed throughout the second after, since the
  -- times are compared as texts that leave out zeros at their end.
  pub subscriptions-put_subscription :
      (fingerprint : Str → Str) (s : Subscription) (stored_at t n : ℕ)
      → s.expires_at ≡ t * second
      → (0 < n) × (n < second)
      → subscriptions date (t * second + n) (put_subscription date fingerprint s stored_at [])
        ≡ ok (s ∷ [])
  unfolding subscriptions put_subscription subscription_row open_rows seal unseal
  subscriptions-put_subscription fingerprint s stored_at t n e (h, k) =
      let now = nano_text-at t n (ground arith) in
      let whole : s.expires_at ≡ t * second + 0 = omega (arith, e) in
      let expiry = ap (nano_text date) whole ∙ nano_text-at t 0 refl in
      rw (now) (
        rw (expiry)
          (rw (text_at-before t n (ground arith)) (rw (eq_refl (fingerprint s.endpoint)) refl)))
