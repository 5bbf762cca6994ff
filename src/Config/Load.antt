-- ===== src/Config/Load.antt =====
-- `Load` and `readFile`.
use openbao_authorizer.Prelude.{
  ◌&&◌, ◌||◌, not, Option, none, some, List, [], ◌∷◌, if◌then◌else◌, length, eqb,
}
use openbao_authorizer.Prelude.Result.{Result, ok, err, fail_if, ◌>>=◌, ◌>>◌}
use openbao_authorizer.Text.Bytes.{Str, trim_suffix}
use openbao_authorizer.Text.Unicode.{trim_space}
use openbao_authorizer.Rules.Model.{Runtime}
use openbao_authorizer.Rules.Pattern.{is_empty}
use openbao_authorizer.Config.Model.{
  Host, FileConfig, WebPushConfig, Config, ConfigError, path_required, parse_failed, decode_failed,
  directory_failed, file_required, file_unreadable, key_invalid, approver_policy_required,
  public_origin_required, web_push_repeated, web_push_incomplete, Field, encryption_key_file,
  authorizer_token_file, public_key_file, private_key_file, session_ttl, default_session_ttl,
}
use openbao_authorizer.Config.Login.{load_approver_login}
use openbao_authorizer.Config.Policy.{load_requesters, load_grants, duration_or}

unfoldable pub required {ℓ} : {A : Type ℓ} → Option A → ConfigError → Result ConfigError A
required none e = err e
required (some a) e = ok a

module _ (host : Host) where
  unfoldable pub resolve_path : Str → Str → Str
  resolve_path base value =
      if is_empty value || host.is_abs value then value else host.join_path base value

  unfoldable pub read_file : Str → Field → Result ConfigError Str
  read_file path field = do
    fail_if (is_empty path) (file_required field)
    contents ← required (host.read path) (file_unreadable field)
    ok (trim_space contents)

  -- The text of the key file, decoded: exactly 32 bytes.
  unfoldable pub decode_key : Str → Result ConfigError Str
  decode_key text = do
    key ← required (host.decode_base64 text) key_invalid
    fail_if (not (eqb (length key) 32)) key_invalid
    ok key

  unfoldable pub with_web_push : Str → Config → List WebPushConfig → Result ConfigError Config
  with_web_push base config [] = ok config
  with_web_push base config (push ∷ []) = do
    public_key ← read_file (resolve_path base push.public_key_file) public_key_file
    private_key ← read_file (resolve_path base push.private_key_file) private_key_file
    fail_if (is_empty push.subject || is_empty push.allowed_host_suffixes) web_push_incomplete
    ok (record config {
      vapid_public_key = public_key;
      vapid_private_key = private_key;
      vapid_subject = push.subject;
      push_allowed_hosts = push.allowed_host_suffixes;
    })
  with_web_push base config (push ∷ other ∷ rest) = err web_push_repeated

  module _ (rt : Runtime) where
    -- `Load` from the decoded file on; `base` is the directory of the file.
    unfoldable pub load_decoded : Str → FileConfig → Result ConfigError Config
    load_decoded base raw = do
      key_text ← read_file (resolve_path base raw.storage.encryption_key_file) encryption_key_file
      key ← decode_key key_text
      token ← read_file (resolve_path base raw.openbao.authorizer_token_file) authorizer_token_file
      fail_if (is_empty (trim_space raw.openbao.approver_policy)) approver_policy_required
      fail_if (not raw.server.insecure_cookies && is_empty (trim_space raw.server.public_origin))
          public_origin_required
      session ← duration_or rt raw.server.session_ttl session_ttl default_session_ttl
      login ← load_approver_login host raw.approver_login
      rules ← load_requesters raw.requesters
      grants ← load_grants rt raw.grants raw.grantable
      with_web_push base
          (record {
            listen_address = raw.server.listen_address;
            public_origin = trim_suffix b'/' raw.server.public_origin;
            insecure_cookies = raw.server.insecure_cookies;
            session_ttl = session;
            database_path = resolve_path base raw.storage.database_path;
            encryption_key = key;
            openbao_address = raw.openbao.address;
            openbao_namespace = raw.openbao.namespace;
            openbao_authorizer_token = token;
            openbao_ca_file = resolve_path base raw.openbao.ca_file;
            approver_policy = trim_space raw.openbao.approver_policy;
            approver_login = login;
            requesters = rules;
            grant_policy = grants.0;
            pending_ttl = grants.1;
            static_directory = resolve_path base raw.server.static_directory;
            vapid_public_key = [];
            vapid_private_key = [];
            vapid_subject = [];
            push_allowed_hosts = [];
          })
          raw.web_push

    unfoldable pub load : Str → Result ConfigError Config
    load path = do
      fail_if (is_empty (trim_space path)) path_required
      body ← required (host.parse_file path) parse_failed
      raw ← required (host.decode_body body) decode_failed
      base ← required (host.directory_of path) directory_failed
      load_decoded base raw
