-- ===== src/Examples/Config.antt =====
-- The theorems on the configuration at one file.
use openbao_authorizer.Prelude.{◌≡◌, refl, false, none, some, [], ◌∷◌, ◌++◌}
use openbao_authorizer.Prelude.Int.{pos}
use openbao_authorizer.Prelude.Result.{ok}
use openbao_authorizer.Text.Bytes.{Str, bytes, has_prefix, drop_last_set, index_byte}
use openbao_authorizer.Rules.Model.{ItemInput, Resolved}
use openbao_authorizer.Rules.Validate.{validate_rule, check_capabilities}
use openbao_authorizer.Rules.Pattern.{validate_pattern, overlaps_denylist}
use openbao_authorizer.Rules.Resolve.{resolve}
use openbao_authorizer.Config.Model.{
  Host, FileConfig, Config, default_session_ttl, default_grant_ttl, default_pending_ttl,
}
use openbao_authorizer.Config.Login.{
  lookup_text, is_web_address, mount_of, login_method_with, login_method, login_methods,
  load_approver_login,
}
use openbao_authorizer.Config.Policy.{
  requester_rule, requester_rules, load_requesters, parse_positive_duration, duration_or, rule_of,
  grantable_rules, lifetimes, load_grants,
}
use openbao_authorizer.Config.Load.{
  required, resolve_path, read_file, decode_key, with_web_push, load_decoded, load,
}
use openbao_authorizer.Config.Accepted.{IsPositive}
use openbao_authorizer.Config.Accepted.Lifetimes.{load_then_resolve}
use openbao_authorizer.Examples.Data.{computation, plain_runtime, hour}

abbrev raw_file : FileConfig
raw_file = record {
  server = record {
    listen_address = bytes ":8080";
    public_origin = bytes "https://auth.example/";
    insecure_cookies = false;
    static_directory = [];
    session_ttl = [];
  };
  storage = record { database_path = bytes "a.db"; encryption_key_file = bytes "key" };
  openbao = record {
    address = bytes "https://bao.example";
    namespace = [];
    ca_file = [];
    authorizer_token_file = bytes "token";
    approver_policy = bytes "approver";
  };
  approver_login = record {
    openbao_address = bytes "https://bao.example";
    namespace = [];
    methods = [];
  };
  requesters = record { name = bytes "agents"; token_role = bytes "agent"; auth_mount = [] } ∷ [];
  grants = none;
  grantable =
      record {
        name = bytes "app";
        path = bytes "kv/data/app/*";
        capabilities = bytes "list" ∷ bytes "read" ∷ [];
        max_ttl = bytes "1h";
        description = [];
        discover = [];
      }
      ∷ [];
  web_push = [];
}

abbrev host : Host
host = record {
  Body = Str;
  parse_file = λ path. some path;
  decode_body = λ body. some raw_file;
  directory_of = λ path. some (bytes "/etc");
  is_abs = λ path. has_prefix path (bytes "/");
  join_path = λ directory path. directory ++ (bytes "/" ++ path);
  read = λ path. some (bytes "0123456789abcdef0123456789abcdef");
  decode_base64 = λ text. some text;
  parse_url = λ text. some (record {
    scheme = bytes "https";
    host = bytes "bao.example";
    hostname = bytes "bao.example";
  });
}

abbrev loaded : Config
loaded = record {
  listen_address = bytes ":8080";
  public_origin = bytes "https://auth.example";
  insecure_cookies = false;
  session_ttl = default_session_ttl;
  database_path = bytes "/etc/a.db";
  encryption_key = bytes "0123456789abcdef0123456789abcdef";
  openbao_address = bytes "https://bao.example";
  openbao_namespace = [];
  openbao_authorizer_token = bytes "0123456789abcdef0123456789abcdef";
  openbao_ca_file = [];
  approver_policy = bytes "approver";
  approver_login = record {
    openbao_address = bytes "https://bao.example";
    namespace = [];
    methods =
        record { method = bytes "token"; mount = []; label = bytes "Token"; oidc_role = [] } ∷ [];
  };
  requesters = record { name = bytes "agents"; token_role = bytes "agent"; auth_mount = [] } ∷ [];
  grant_policy = record {
    rules =
        record {
          name = bytes "app";
          path = bytes "kv/data/app/*";
          capabilities = bytes "list" ∷ bytes "read" ∷ [];
          max_ttl = pos hour;
          description = [];
          discover = [];
        }
        ∷ [];
    default_ttl = default_grant_ttl;
  };
  pending_ttl = default_pending_ttl;
  static_directory = [];
  vapid_public_key = [];
  vapid_private_key = [];
  vapid_subject = [];
  push_allowed_hosts = [];
}

loads : load host plain_runtime (bytes "a.hcl") ≡ ok loaded
unfolding load load_decoded with_web_push decode_key read_file resolve_path required load_grants
    lifetimes grantable_rules rule_of duration_or parse_positive_duration load_requesters
    requester_rules requester_rule load_approver_login login_methods login_method login_method_with
    mount_of is_web_address lookup_text drop_last_set validate_rule check_capabilities
    validate_pattern overlaps_denylist index_byte computation
loads = refl

abbrev wanted : ItemInput
wanted = record {
  path = bytes "kv/data/app/db";
  capabilities = bytes "read" ∷ [];
  ttl = bytes "30m";
}

abbrev resolved : Resolved
resolved = record {
  path = bytes "kv/data/app/db";
  capabilities = bytes "read" ∷ [];
  ttl = pos 1_800_000_000_000;
  rule = bytes "app";
  max_ttl = pos hour;
}

resolves : resolve plain_runtime loaded.grant_policy wanted ≡ ok resolved
unfolding computation
resolves = refl

load_then_resolve_example : IsPositive resolved.ttl
load_then_resolve_example =
    load_then_resolve host plain_runtime (bytes "a.hcl") wanted loads resolves
