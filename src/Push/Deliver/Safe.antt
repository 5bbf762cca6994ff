-- ===== src/Push/Deliver/Safe.antt =====
-- Where hints go, and which subscriptions are dropped.
use openbao_authorizer.Prelude.{
  ℕ, ◌≡◌, ◌≢◌, refl, sym, ap, ◌++◌, any-eq_true, ◌⊎◌, inl, inr, Bool, true, false, ◌&&◌, ◌||◌, not,
  Option, none, some, List, [], ◌∷◌, In, In-keep, All, In-All, All-concat, all, all-In, eqb, ltb,
  leb, Bool-cases, arith, not-eq_false, subst, Option-cases,
}
use openbao_authorizer.Prelude.Result.{Result, ok, err, ok-injective, fail_if-eq-ok}
use openbao_authorizer.Text.Bytes.{Str, bytes, ◌==◌, eq→≡}
use openbao_authorizer.Rules.Pattern.{is_empty}
use openbao_authorizer.Store.Subscriptions.{Subscription, SubscriptionRow, delete_subscription}
use openbao_authorizer.Push.Address.{Ip, is_public_ip}
use openbao_authorizer.Push.Address.Reserved.{IsRoutable, is_public_ip-IsRoutable}
use openbao_authorizer.Push.Endpoint.{
  Outside, EndpointUrl, not_resolved, not_public, validate_endpoint, validate_url, url_not_plain,
  port_not_443, host_not_allowed, check_addresses, plain_host, allowed_host, ends_with,
}
use openbao_authorizer.Push.Deliver.{
  Response, answered, send_error, no_response, PushWorld, Delivery, is_gone, is_valid, valid,
  drop_subscription, deliver, deliver_all, on_response,
}

valid-ok {ℓ κ} : {E : Type ℓ} {A : Type κ} (r : Result E A) → valid r ≡ true → (a : A) × (r ≡ ok a)
valid-ok (ok a) h = (a, refl)
valid-ok (err e) h = cc

check_addresses-IsRoutable :
    (found : Option (List Ip)) {addresses : List Ip}
    → check_addresses found ≡ ok addresses
    → (found ≡ some addresses) × (is_empty addresses ≡ false) × All IsRoutable addresses
check_addresses-IsRoutable none h = cc
check_addresses-IsRoutable (some addresses) h =
    let (any_found, h₁) = fail_if-eq-ok (is_empty addresses) not_resolved _ h in
    let (public, h₂) = fail_if-eq-ok (not (all is_public_ip addresses)) not_public _ h₁ in
    let same = ok-injective h₂ in
    (
      ap some same,
      subst (λ l. is_empty l ≡ false) same any_found,
      subst (All IsRoutable) same (
          In-All IsRoutable addresses (λ ip m.
            is_public_ip-IsRoutable ip (all-In is_public_ip addresses (not-eq_false _ public) m))),
    )

-- A host that is one of the suffixes, or has a dot and one of them at its end.
abbrev pub IsHostOf : List Str → Str → Type 0
IsHostOf suffixes host =
    (suffix : Str) × In suffix suffixes
    × ((host ≡ suffix) ⊎ ((labels : Str) × (host ≡ labels ++ b'.' ∷ suffix)))

ends_with-append :
    (s suffix : Str) → ends_with s suffix ≡ true → (front : Str) × (s ≡ front ++ suffix)
unfolding ends_with
ends_with-append [] suffix h = ([], sym (eq→≡ suffix [] h))
ends_with-append (b ∷ s) suffix h = elim (Bool-cases ((b ∷ s) == suffix)) [
  | inl e ↦ ([], eq→≡ (b ∷ s) suffix e)
  | inr e ↦
      let (front, same) = ends_with-append s suffix (rw e at h) in (b ∷ front, ap (λ t. b ∷ t) same)
]

allowed_host-IsHostOf :
    (suffixes : List Str) (host : Str) → allowed_host suffixes host ≡ true → IsHostOf suffixes host
unfolding allowed_host
allowed_host-IsHostOf suffixes host h =
    let (suffix, m, e) =
      any-eq_true (λ suffix. host == suffix || ends_with host (b'.' ∷ suffix)) suffixes h in
    elim (Bool-cases (host == suffix)) [
      | inl same ↦ (suffix, m, inl (eq→≡ host suffix same))
      | inr other ↦ (suffix, m, inr (ends_with-append host (b'.' ∷ suffix) (rw other at e)))
    ]

module _ (lower_wide : ℕ → ℕ) (out : Outside) (suffixes : List Str) where
  -- An endpoint that hints may go to: an HTTPS URL of an allowed host without user and fragment and on
  -- port 443, and each of the addresses that the host is looked up to is routable.
  pub record IsAllowed (endpoint : Str) : Type 0 where
    pub url : EndpointUrl
    pub parsed : out.parse_url endpoint ≡ some url
    pub https : url.scheme ≡ bytes "https"
    pub has_host : url.hostname ≢ []
    pub no_user : url.has_user ≡ false
    pub no_fragment : url.fragment ≡ []
    pub standard_port : (url.port ≡ []) ⊎ (url.port ≡ bytes "443")
    pub allowed : IsHostOf suffixes (plain_host lower_wide url.hostname)
    pub addresses : List Ip
    pub looked_up : out.lookup (plain_host lower_wide url.hostname) ≡ some addresses
    pub resolved : is_empty addresses ≡ false
    pub routable : All IsRoutable addresses

  is_plain :
      (a b c d : Bool)
      → (not a || b || c || not d) ≡ false
      → (a ≡ true) × (b ≡ false) × (c ≡ false) × (d ≡ true)
  is_plain a b c d h = ground arith

  empty : (s : Str) → is_empty s ≡ true → s ≡ []
  empty [] h = refl
  empty (b ∷ s) h = cc

  filled : (s : Str) → is_empty s ≡ false → s ≢ []
  filled [] h e = cc
  filled (b ∷ s) h e = cc

  port-443 :
      (port : Str)
      → (not (is_empty port) && not (port == bytes "443")) ≡ false
      → (port ≡ []) ⊎ (port ≡ bytes "443")
  port-443 port h = elim (Bool-cases (is_empty port)) [
    | inl e ↦ inl (empty port e)
    | inr e ↦ inr (eq→≡ port (bytes "443") (ground arith))
  ]

  url-IsAllowed :
      (endpoint : Str) (url : EndpointUrl) {addresses : List Ip}
      → out.parse_url endpoint ≡ some url
      → validate_url lower_wide out suffixes (some url) ≡ ok addresses
      → IsAllowed endpoint
  url-IsAllowed endpoint url e h =
      let host = plain_host lower_wide url.hostname in
      let (plain, h₁) =
        fail_if-eq-ok
          (not (url.scheme == bytes "https")
            || is_empty url.hostname
            || url.has_user
            || not (is_empty url.fragment))
          url_not_plain _ h in
      let (port, h₂) =
        fail_if-eq-ok (not (is_empty url.port) && not (url.port == bytes "443")) port_not_443 _
          h₁ in
      let (allowed, h₃) = fail_if-eq-ok (not (allowed_host suffixes host)) host_not_allowed _ h₂ in
      let (looked_up, resolved, routable) = check_addresses-IsRoutable (out.lookup host) h₃ in
      let (scheme, host_given, user, fragment) = is_plain _ _ _ _ plain in
      record {
        url = url;
        parsed = e;
        https = eq→≡ url.scheme (bytes "https") scheme;
        has_host = filled url.hostname host_given;
        no_user = user;
        no_fragment = empty url.fragment fragment;
        standard_port = port-443 url.port port;
        allowed = allowed_host-IsHostOf suffixes host (not-eq_false _ allowed);
        addresses = _;
        looked_up = looked_up;
        resolved = resolved;
        routable = routable;
      }

  validate_endpoint-IsAllowed :
      (endpoint : Str)
      → valid (validate_endpoint lower_wide out suffixes endpoint) ≡ true
      → IsAllowed endpoint
  unfolding validate_endpoint
  validate_endpoint-IsAllowed endpoint h = elim (Option-cases (out.parse_url endpoint)) [
    | inl e ↦ cc (rw (e, validate_url) at h)
    | inr (url, e) ↦
        let (addresses, f) = valid-ok _ (rw (e, validate_url) at h) in
        url-IsAllowed endpoint url e f
  ]

module _ (fingerprint : Str → Str) (world : PushWorld) (lower_wide : ℕ → ℕ) (out : Outside)
    (suffixes : List Str) (listed : List Subscription) (rows : List SubscriptionRow) where
  abbrev allowed_now : Subscription → Bool
  allowed_now s = is_valid fingerprint world lower_wide out suffixes s

  -- A subscription is dropped because its endpoint is not allowed, or its push service says that it is
  -- gone.
  pub record IsDropped (row : SubscriptionRow) : Type 0 where
    pub cause : Subscription
    pub listed_cause : In cause listed
    pub same_endpoint : (row.fingerprint == fingerprint cause.endpoint) ≡ true
    pub reason : (allowed_now cause ≡ false) ⊎ (is_gone (world.respond cause) ≡ true)

  -- Hints went to listed subscriptions with allowed endpoints, and each row is still there or was
  -- dropped for a reason.
  pub record IsSafe (d : Delivery) : Type 0 where
    pub sent : All (λ s. In s listed × IsAllowed lower_wide out suffixes s.endpoint) d.sent
    pub kept : All (λ row. In row d.rows ⊎ IsDropped row) rows

  kept_or_IsDropped :
      (s : Subscription) (d : Delivery) (row : SubscriptionRow)
      → In s listed
      → (allowed_now s ≡ false) ⊎ (is_gone (world.respond s) ≡ true)
      → In row d.rows ⊎ IsDropped row
      → In row (delete_subscription fingerprint s.endpoint d.rows) ⊎ IsDropped row
  unfolding delete_subscription
  kept_or_IsDropped s d row m reason (inr dropped) = inr dropped
  kept_or_IsDropped s d row m reason (inl n) =
      elim (Bool-cases (row.fingerprint == fingerprint s.endpoint)) [
        | inl e ↦ inr (record { cause = s; listed_cause = m; same_endpoint = e; reason = reason })
        | inr e ↦ inl (In-keep _ d.rows n (rw e refl))
      ]

  map-All :
      (P Q : SubscriptionRow → Type 0) (l : List SubscriptionRow)
      → ((row : SubscriptionRow) → P row → Q row)
      → All P l
      → All Q l
  map-All P Q [] f h = tt
  map-All P Q (row ∷ l) f (p, h) = (f row p, map-All P Q l f h)

  drop_subscription-IsSafe :
      (s : Subscription) (d : Delivery)
      → In s listed
      → (allowed_now s ≡ false) ⊎ (is_gone (world.respond s) ≡ true)
      → IsSafe d
      → IsSafe (drop_subscription fingerprint world s.endpoint d)
  unfolding drop_subscription
  drop_subscription-IsSafe s d m reason p = elim (Bool-cases (world.delete_fails s.endpoint)) [
    | inl e ↦ rw e (record { sent = p.sent; kept = p.kept })
    | inr e ↦ rw e (record {
      sent = p.sent;
      kept = map-All _ _ rows (λ row k. kept_or_IsDropped s d row m reason k) p.kept;
    })
  ]

  on_response-IsSafe :
      (s : Subscription) (r : Response) (d : Delivery)
      → In s listed
      → world.respond s ≡ r
      → IsSafe d
      → IsSafe (on_response fingerprint world s r d)
  on_response-IsSafe s send_error d m e p = record { sent = p.sent; kept = p.kept }
  on_response-IsSafe s no_response d m e p = p
  on_response-IsSafe s (answered status) d m e p =
      elim (Bool-cases (eqb status 404 || eqb status 410)) [
        | inl f ↦ rw f (drop_subscription-IsSafe s d m (inr (rw e f)) p)
        | inr f ↦ elim (Bool-cases (ltb status 200 || leb 300 status)) [
          | inl g ↦ rw (f, g) (record { sent = p.sent; kept = p.kept })
          | inr g ↦ rw (f, g) p
        ]
      ]

  deliver-IsSafe :
      (s : Subscription) (d : Delivery)
      → In s listed
      → IsSafe d
      → IsSafe (deliver fingerprint world lower_wide out suffixes s d)
  unfolding deliver
  deliver-IsSafe s d m p = elim (Bool-cases (allowed_now s)) [
    | inl e ↦
        let allowed = validate_endpoint-IsAllowed lower_wide out suffixes s.endpoint e in
        rw e (
          on_response-IsSafe s (world.respond s) _ m refl
            (record { sent = All-concat _ d.sent p.sent (m, allowed); kept = p.kept }))
    | inr e ↦ rw e (drop_subscription-IsSafe s d m (inl e) p)
  ]

  pub deliver_all-IsSafe :
      (todo : List Subscription) (d : Delivery)
      → All (λ s. In s listed) todo
      → IsSafe d
      → IsSafe (deliver_all fingerprint world lower_wide out suffixes todo d)
  unfolding deliver_all
  deliver_all-IsSafe [] d ms p = p
  deliver_all-IsSafe (s ∷ todo) d (m, ms) p = deliver_all-IsSafe todo _ ms (deliver-IsSafe s d m p)
