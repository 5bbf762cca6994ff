-- ===== src/Push/Endpoint.antt =====
-- `New`'s allowlist and credentials, `allowedHost`, `ValidateEndpoint` and `dialContext`.
use openbao_authorizer.Prelude.{
  ℕ, Bool, ◌&&◌, ◌||◌, not, Option, none, some, List, [], ◌∷◌, any, all, keep, map,
}
use openbao_authorizer.Prelude.Result.{Result, ok, err, fail_if, ◌>>=◌, ◌>>◌}
use openbao_authorizer.Text.Bytes.{
  Str, bytes, ◌==◌, trim_suffix, cut_suffix, trim_prefix, has_prefix, without_prefix,
}
use openbao_authorizer.Text.Unicode.{trim_space, to_lower}
use openbao_authorizer.Rules.Pattern.{is_empty}
use openbao_authorizer.Push.Address.{Ip, is_public_ip}

-- net/url.URL, as `ValidateEndpoint` looks at it
pub record EndpointUrl : Type 0 where
  pub scheme : Str
  pub hostname : Str
  pub has_user : Bool
  pub fragment : Str
  pub port : Str

-- One constructor for each error message.
pub data PushError : Type 0 where
  settings_incomplete suffix_required : PushError
  url_unparsed url_not_plain port_not_443 host_not_allowed : PushError
  lookup_failed not_resolved not_public address_unparsed : PushError

-- url.Parse, Resolver.LookupIPAddr and net.SplitHostPort; `none` for an error.
pub record Outside : Type 0 where
  pub parse_url : Str → Option EndpointUrl
  pub lookup : Str → Option (List Ip)
  pub split_host_port : Str → Option (Str × Str)

pub record PushConfig : Type 0 where
  pub public_key : Str
  pub private_key : Str
  pub subject : Str
  pub allowed_host_suffixes : List Str

module _ (lower_wide : ℕ → ℕ) where
  abbrev suffix_of : Str → Str
  suffix_of text = to_lower lower_wide (trim_space (trim_prefix text (bytes ".")))

  -- The suffixes that `New` keeps.
  unfoldable pub allowed_suffixes : List Str → List Str
  unfolding to_lower trim_space has_prefix without_prefix
  allowed_suffixes texts = keep (λ suffix. not (is_empty suffix)) (map suffix_of texts)

  -- `New`'s checks; the allowlist is its result.
  unfoldable pub new_allowlist : PushConfig → Result PushError (List Str)
  unfolding allowed_suffixes
  new_allowlist config = do
    let enabled =
        not (is_empty config.public_key)
        || not (is_empty config.private_key)
        || not (is_empty config.subject)
    fail_if
        (enabled
          && (is_empty config.public_key || is_empty config.private_key || is_empty config.subject))
        settings_incomplete
    fail_if (enabled && is_empty (allowed_suffixes config.allowed_host_suffixes)) suffix_required
    ok (allowed_suffixes config.allowed_host_suffixes)

module _ (lower_wide : ℕ → ℕ) where
  -- The host of an endpoint that is looked up: strings.ToLower(strings.TrimSuffix(host, ".")).
  unfoldable pub plain_host : Str → Str
  unfolding to_lower cut_suffix
  plain_host host = to_lower lower_wide (trim_suffix b'.' host)

-- strings.HasSuffix
unfoldable pub ends_with : Str → Str → Bool
unfolding ◌==◌
ends_with [] suffix = suffix == []
ends_with (b ∷ s) suffix = (b ∷ s) == suffix || ends_with s suffix

unfoldable pub allowed_host : List Str → Str → Bool
unfolding ends_with ◌==◌
allowed_host suffixes host =
    any (λ suffix. host == suffix || ends_with host (b'.' ∷ suffix)) suffixes

abbrev pub check_addresses : Option (List Ip) → Result PushError (List Ip)
check_addresses none = err lookup_failed
check_addresses (some addresses) = do
  fail_if (is_empty addresses) not_resolved
  fail_if (not (all is_public_ip addresses)) not_public
  ok addresses

module _ (lower_wide : ℕ → ℕ) (out : Outside) (suffixes : List Str) where
  abbrev pub validate_url : Option EndpointUrl → Result PushError (List Ip)
  validate_url none = err url_unparsed
  validate_url (some url) = do
    fail_if
        (not (url.scheme == bytes "https")
          || is_empty url.hostname
          || url.has_user
          || not (is_empty url.fragment))
        url_not_plain
    fail_if (not (is_empty url.port) && not (url.port == bytes "443")) port_not_443
    fail_if (not (allowed_host suffixes (plain_host lower_wide url.hostname))) host_not_allowed
    check_addresses (out.lookup (plain_host lower_wide url.hostname))

  -- The addresses, all of them public, that the endpoint's host has.
  unfoldable pub validate_endpoint : Str → Result PushError (List Ip)
  unfolding plain_host allowed_host is_public_ip ◌==◌
  validate_endpoint endpoint = validate_url (out.parse_url endpoint)

  abbrev pub first_address : List Ip → Str → Result PushError (Ip × Str)
  first_address [] port = err not_resolved
  first_address (address ∷ rest) port = ok (address, port)

  abbrev pub dial_parts : Option (Str × Str) → Result PushError (Ip × Str)
  dial_parts none = err address_unparsed
  dial_parts (some (host, port)) = do
    fail_if (not (allowed_host suffixes (plain_host lower_wide host))) host_not_allowed
    addresses ← check_addresses (out.lookup host)
    first_address addresses port

  -- `dialContext`: the address and port that are dialed.
  unfoldable pub dial_target : Str → Result PushError (Ip × Str)
  unfolding plain_host allowed_host is_public_ip
  dial_target address = dial_parts (out.split_host_port address)
