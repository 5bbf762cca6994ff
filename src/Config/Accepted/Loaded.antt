-- ===== src/Config/Accepted/Loaded.antt =====
-- What `Load` accepts, and what its Grant policy lets `Resolve` accept.
use openbao_authorizer.Prelude.{
  ◌≡◌, refl, ap, Bool, false, ◌&&◌, ◌||◌, not, Option, none, some, List, [], ◌∷◌, All, length, eqb,
  eqb_iff, not-eq_false, arith,
}
use openbao_authorizer.Prelude.Result.{ok, >>=-eq-ok, fail_if-eq-ok, ok-injective}
use openbao_authorizer.Text.Bytes.{Str}
use openbao_authorizer.Text.Unicode.{trim_space}
use openbao_authorizer.Rules.Model.{Runtime}
use openbao_authorizer.Rules.Pattern.{is_empty}
use openbao_authorizer.Config.Model.{
  Host, FileConfig, WebPushConfig, Config, ConfigError, path_required, parse_failed, decode_failed,
  directory_failed, key_invalid, approver_policy_required, public_origin_required,
  web_push_incomplete, encryption_key_file, authorizer_token_file, public_key_file,
  private_key_file, session_ttl, default_session_ttl,
}
use openbao_authorizer.Config.Load.{
  required, decode_key, with_web_push, load_decoded, load, read_file, resolve_path,
}
use openbao_authorizer.Config.Accepted.{
  IsPositive, AreRequesters, IsPolicy, duration_or-IsPositive, load_requesters-AreRequesters,
  load_grants-IsPolicy,
}
use openbao_authorizer.Config.Accepted.Login.{IsSupported, load_approver_login-IsSupported}

required-ok {ℓ} :
    {A : Type ℓ} (o : Option A) (e : ConfigError) {a : A} → required o e ≡ ok a → o ≡ some a
unfolding required
required-ok none e h = absurd (cc h)
required-ok (some a) e h = ap some (ok-injective h)

-- The decoded content of the configuration file.
pub record IsContent (host : Host) (path : Str) (raw : FileConfig) : Type 0 where
  pub body : host.Body
  pub parsed : host.parse_file path ≡ some body
  pub decoded : host.decode_body body ≡ some raw

-- What every accepted configuration has, next to the file that it was read from.
pub record IsAccepted (rt : Runtime) (raw : FileConfig) (config : Config) : Type 0 where
  pub key : length config.encryption_key ≡ 32
  pub approver_policy : is_empty config.approver_policy ≡ false
  pub origin :
      (not raw.server.insecure_cookies && is_empty (trim_space raw.server.public_origin)) ≡ false
  pub session : IsPositive config.session_ttl
  pub pending : IsPositive config.pending_ttl
  pub sign_in : All IsSupported config.approver_login.methods
  pub can_sign_in : is_empty config.approver_login.methods ≡ false
  pub requesters : AreRequesters raw.requesters config.requesters
  pub policy : IsPolicy rt raw.grantable config.grant_policy
  pub push : is_empty config.vapid_subject ≡ is_empty config.push_allowed_hosts

neither : (a b : Bool) → (a || b) ≡ false → a ≡ b
neither a b h = ground arith

module _ (host : Host) (rt : Runtime) where
  decode_key-length : (text : Str) {key : Str} → decode_key host text ≡ ok key → length key ≡ 32
  unfolding decode_key
  decode_key-length text h =
      let (key, _, h₁) = >>=-eq-ok (required (host.decode_base64 text) key_invalid) _ h in
      let (fits, h₂) = fail_if-eq-ok (not (eqb (length key) 32)) key_invalid _ h₁ in
      let e = ok-injective h₂ in rw (← e) ((eqb_iff _ 32).0 (not-eq_false _ fits))

  -- A configuration gets its Web Push settings all together, or stays as it was.
  with_web_push-IsAccepted :
      (base : Str) (raw : FileConfig) (config : Config) (pushes : List WebPushConfig)
      {done : Config}
      → IsAccepted rt raw config
      → with_web_push host base config pushes ≡ ok done
      → IsAccepted rt raw done
  unfolding with_web_push
  with_web_push-IsAccepted base raw config [] a h = let e = ok-injective h in rw (← e) a
  with_web_push-IsAccepted base raw config (push ∷ other ∷ rest) a h = cc
  with_web_push-IsAccepted base raw config (push ∷ []) a h =
      let (public_key, _, h₁) =
        >>=-eq-ok (read_file host (resolve_path host base push.public_key_file) public_key_file) _
          h in
      let (private_key, _, h₂) =
        >>=-eq-ok (read_file host (resolve_path host base push.private_key_file) private_key_file) _
          h₁ in
      let (whole, h₃) =
        fail_if-eq-ok (is_empty push.subject || is_empty push.allowed_host_suffixes)
          web_push_incomplete _ h₂ in
      let e = ok-injective h₃ in
      rw (← e) (record {
        key = a.key;
        approver_policy = a.approver_policy;
        origin = a.origin;
        session = a.session;
        pending = a.pending;
        sign_in = a.sign_in;
        can_sign_in = a.can_sign_in;
        requesters = a.requesters;
        policy = a.policy;
        push = neither _ _ whole;
      })

  load_decoded-IsAccepted :
      (base : Str) (raw : FileConfig) {config : Config}
      → load_decoded host rt base raw ≡ ok config
      → IsAccepted rt raw config
  unfolding load_decoded
  load_decoded-IsAccepted base raw h =
      let (key_text, _, h₁) =
        >>=-eq-ok
          (read_file host (resolve_path host base raw.storage.encryption_key_file)
            encryption_key_file)
          _ h in
      let (key, decoded, h₂) = >>=-eq-ok _ _ h₁ in
      let (token, _, h₃) =
        >>=-eq-ok
          (read_file host (resolve_path host base raw.openbao.authorizer_token_file)
            authorizer_token_file)
          _ h₂ in
      let (named, h₄) =
        fail_if-eq-ok (is_empty (trim_space raw.openbao.approver_policy)) approver_policy_required _
          h₃ in
      let (origin, h₅) =
        fail_if-eq-ok
          (not raw.server.insecure_cookies && is_empty (trim_space raw.server.public_origin))
          public_origin_required _ h₄ in
      let (session, timed, h₆) = >>=-eq-ok _ _ h₅ in
      let (login, signed, h₇) = >>=-eq-ok _ _ h₆ in
      let (rules, matched, h₈) = >>=-eq-ok _ _ h₇ in
      let (grants, granted, h₉) = >>=-eq-ok _ _ h₈ in
      let (_, all_supported, can) =
        load_approver_login-IsSupported host raw.approver_login signed in
      let (policy, pending) = load_grants-IsPolicy rt raw.grants raw.grantable granted in
      with_web_push-IsAccepted base raw _ raw.web_push
        (record {
          key = decode_key-length key_text decoded;
          approver_policy = named;
          origin = origin;
          session =
              duration_or-IsPositive rt raw.server.session_ttl session_ttl default_session_ttl refl
                timed;
          pending = pending;
          sign_in = all_supported;
          can_sign_in = can;
          requesters = (load_requesters-AreRequesters raw.requesters matched).1;
          policy = policy;
          push = refl;
        })
        h₉

  pub load-IsAccepted :
      (path : Str) {config : Config}
      → load host rt path ≡ ok config
      → (raw : FileConfig) × IsContent host path raw × IsAccepted rt raw config
  unfolding load
  load-IsAccepted path h =
      let (_, h₁) = fail_if-eq-ok (is_empty (trim_space path)) path_required _ h in
      let (body, parsed, h₂) = >>=-eq-ok (required (host.parse_file path) parse_failed) _ h₁ in
      let (raw, decoded, h₃) = >>=-eq-ok (required (host.decode_body body) decode_failed) _ h₂ in
      let (base, _, h₄) = >>=-eq-ok (required (host.directory_of path) directory_failed) _ h₃ in
      (
        raw,
        record { body = body; parsed = required-ok _ _ parsed; decoded = required-ok _ _ decoded },
        load_decoded-IsAccepted base raw h₄,
      )
