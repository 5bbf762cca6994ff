-- ===== src/Config/Model.antt =====
-- The types of internal/config/config.go, and what `Load` takes from outside: the HCL library, the
-- file system, base64 and net/url.
use openbao_authorizer.Prelude.{◌*◌, Bool, List, [], ◌∷◌, Option}
use openbao_authorizer.Prelude.Int.{ℤ, pos}
use openbao_authorizer.Text.Bytes.{Str, bytes}
use openbao_authorizer.Rules.Model.{Policy, second}
use openbao_authorizer.Rules.Validate.{RuleError}
use openbao_authorizer.Service.Model.{RequesterRule}

abbrev pub default_grant_ttl : ℤ
default_grant_ttl = pos (72 * 3600 * second)

abbrev pub default_pending_ttl : ℤ
default_pending_ttl = pos (24 * 3600 * second)

abbrev pub default_session_ttl : ℤ
default_session_ttl = pos (168 * 3600 * second)

abbrev pub login_labels : List (Str × Str)
login_labels =
    (bytes "token", bytes "Token")
    ∷ (bytes "userpass", bytes "Username & password")
    ∷ (bytes "ldap", bytes "LDAP")
    ∷ (bytes "github", bytes "GitHub token")
    ∷ (bytes "oidc", bytes "Single sign-on")
    ∷ []

pub record LoginMethod : Type 0 where
  pub method : Str
  pub mount : Str
  pub label : Str
  pub oidc_role : Str

pub record ApproverLogin : Type 0 where
  pub openbao_address : Str
  pub namespace : Str
  pub methods : List LoginMethod

pub record Config : Type 0 where
  pub listen_address : Str
  pub public_origin : Str
  pub insecure_cookies : Bool
  pub session_ttl : ℤ
  pub database_path : Str
  pub encryption_key : Str
  pub openbao_address : Str
  pub openbao_namespace : Str
  pub openbao_authorizer_token : Str
  pub openbao_ca_file : Str
  pub approver_policy : Str
  pub approver_login : ApproverLogin
  pub requesters : List RequesterRule
  pub grant_policy : Policy
  pub pending_ttl : ℤ
  pub static_directory : Str
  pub vapid_public_key : Str
  pub vapid_private_key : Str
  pub vapid_subject : Str
  pub push_allowed_hosts : List Str

pub record ServerConfig : Type 0 where
  pub listen_address : Str
  pub public_origin : Str
  pub insecure_cookies : Bool
  pub static_directory : Str
  pub session_ttl : Str

pub record StorageConfig : Type 0 where
  pub database_path : Str
  pub encryption_key_file : Str

pub record OpenBaoConfig : Type 0 where
  pub address : Str
  pub namespace : Str
  pub ca_file : Str
  pub authorizer_token_file : Str
  pub approver_policy : Str

pub record LoginMethodConfig : Type 0 where
  pub method : Str
  pub mount : Str
  pub label : Str
  pub role : Str

pub record ApproverLoginConfig : Type 0 where
  pub openbao_address : Str
  pub namespace : Str
  pub methods : List LoginMethodConfig

pub record RequesterConfig : Type 0 where
  pub name : Str
  pub token_role : Str
  pub auth_mount : Str

pub record GrantsConfig : Type 0 where
  pub default_ttl : Str
  pub pending_ttl : Str

pub record GrantableConfig : Type 0 where
  pub name : Str
  pub path : Str
  pub capabilities : List Str
  pub max_ttl : Str
  pub description : Str
  pub discover : Str

pub record WebPushConfig : Type 0 where
  pub public_key_file : Str
  pub private_key_file : Str
  pub subject : Str
  pub allowed_host_suffixes : List Str

pub record FileConfig : Type 0 where
  pub server : ServerConfig
  pub storage : StorageConfig
  pub openbao : OpenBaoConfig
  pub approver_login : ApproverLoginConfig
  pub requesters : List RequesterConfig
  pub grants : Option GrantsConfig
  pub grantable : List GrantableConfig
  pub web_push : List WebPushConfig

-- The fields that the error messages of `readFile` and `parsePositiveDuration` name.
pub data Field : Type 0 where
  encryption_key_file authorizer_token_file public_key_file private_key_file : Field
  session_ttl default_ttl pending_ttl : Field
  max_ttl_of_grantable : Str → Field

-- One constructor for each error message.
pub data ConfigError : Type 0 where
  path_required parse_failed decode_failed directory_failed : ConfigError
  key_invalid approver_policy_required : ConfigError
  public_origin_required address_invalid requester_missing : ConfigError
  web_push_repeated web_push_incomplete : ConfigError
  file_required file_unreadable duration_too_short : Field → ConfigError
  method_unknown role_refused requester_repeated requester_selector : Str → ConfigError
  grantable_repeated : Str → ConfigError
  rule_invalid : RuleError → ConfigError

-- net/url.URL, as far as the code looks at it
pub record Url : Type 0 where
  pub scheme : Str
  pub host : Str
  pub hostname : Str

-- hclparse's ParseHCLFile and gohcl's DecodeBody with the environment, filepath.Abs of the file's
-- directory, filepath.IsAbs and filepath.Join, os.ReadFile (`none` for an error), base64's
-- DecodeString and url.Parse.
pub record Host : Type 1 where
  pub Body : Type 0
  pub parse_file : Str → Option Body
  pub decode_body : Body → Option FileConfig
  pub directory_of : Str → Option Str
  pub is_abs : Str → Bool
  pub join_path : Str → Str → Str
  pub read : Str → Option Str
  pub decode_base64 : Str → Option Str
  pub parse_url : Str → Option Url
