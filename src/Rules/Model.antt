-- ===== src/Rules/Model.antt =====
-- The types of internal/grants/rules.go, and the refusals that `Resolve` words as messages.
use openbao_authorizer.Prelude.{ℕ, List, [], ◌∷◌, Option}
use openbao_authorizer.Prelude.Int.{ℤ}
use openbao_authorizer.Text.Bytes.{Str, bytes}

-- What the code takes from Go's standard library and the model leaves open: unicode.ToLower past
-- ASCII, time.ParseDuration (`none` for an error; a duration is in nanoseconds), json.Marshal of a
-- string and of a list of strings, and the RFC 3339 form of a time in UTC.
pub record Runtime : Type 0 where
  pub lower_wide : ℕ → ℕ
  pub parse_duration : Str → Option ℤ
  pub json_string : Str → Str
  pub json_strings : List Str → Str
  pub format_time : ℕ → Str

-- time.Second
abbrev pub second : ℕ
second = 1_000_000_000

abbrev pub grantable_capabilities : List Str
grantable_capabilities =
    bytes "create"
    ∷ bytes "read"
    ∷ bytes "update"
    ∷ bytes "patch"
    ∷ bytes "delete"
    ∷ bytes "list"
    ∷ []

abbrev pub denied_segments : List Str
denied_segments = bytes "sys" ∷ bytes "auth" ∷ bytes "identity" ∷ bytes "cubbyhole" ∷ []

pub record Rule : Type 0 where
  pub name : Str
  pub path : Str
  pub capabilities : List Str
  pub max_ttl : ℤ
  pub description : Str
  pub discover : Str

pub record Policy : Type 0 where
  pub rules : List Rule
  pub default_ttl : ℤ

pub record ItemInput : Type 0 where
  pub path : Str
  pub capabilities : List Str
  pub ttl : Str

pub record Resolved : Type 0 where
  pub path : Str
  pub capabilities : List Str
  pub ttl : ℤ
  pub rule : Str
  pub max_ttl : ℤ

-- One constructor for each refusal message, with what the message prints.
pub data Refusal : Type 0 where
  path_required path_too_long path_not_concrete path_leading_slash : Refusal
  path_not_utf8 path_bad_character path_bad_segment : Refusal
  capability_required sudo_denied : Refusal
  capability_unknown : Str → Refusal
  segment_denied : Str → Refusal
  ttl_invalid : Str → Refusal
  capabilities_exceed : List Str → Refusal
  no_rule : Refusal
  ttl_exceeds : ℤ → ℤ → Str → Refusal
  duplicate : Refusal
