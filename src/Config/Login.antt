-- ===== src/Config/Login.antt =====
-- `loadApproverLogin`: where and how Approvers sign in.
use openbao_authorizer.Prelude.{
  Bool, false, ◌&&◌, ◌||◌, not, Option, none, some, List, [], ◌∷◌, if◌then◌else◌,
}
use openbao_authorizer.Prelude.Result.{Result, ok, err, fail_if, ◌>>=◌, ◌>>◌}
use openbao_authorizer.Text.Bytes.{
  Str, bytes, ◌==◌, trim_suffix, trim_set, drop_last_set, cut_suffix,
}
use openbao_authorizer.Rules.Pattern.{is_empty}
use openbao_authorizer.Config.Model.{
  Host, Url, ConfigError, address_invalid, method_unknown, role_refused, login_labels, LoginMethod,
  ApproverLogin, ApproverLoginConfig, LoginMethodConfig,
}

-- A map of Go, read at a key.
unfoldable pub lookup_text : List (Str × Str) → Str → Option Str
unfolding ◌==◌
lookup_text [] key = none
lookup_text ((k, value) ∷ rest) key = if k == key then some value else lookup_text rest key

-- The scheme and host that `address` must have.
unfoldable pub is_web_address : Option Url → Bool
unfolding ◌==◌
is_web_address none = false
is_web_address (some url) =
    (url.scheme == bytes "http" || url.scheme == bytes "https") && not (url.host == [])

abbrev pub or_else : Str → Str → Str
or_else value fallback = if is_empty value then fallback else value

unfoldable pub mount_of : LoginMethodConfig → Str
unfolding ◌==◌ drop_last_set
mount_of m =
    let mount = trim_set (bytes "/") m.mount in
    if is_empty mount && not (m.method == bytes "token") then m.method else mount

unfoldable pub login_method_with : LoginMethodConfig → Option Str → Result ConfigError LoginMethod
unfolding ◌==◌ mount_of
login_method_with m none = err (method_unknown m.method)
login_method_with m (some default_label) = do
  fail_if (not (is_empty m.role) && not (m.method == bytes "oidc")) (role_refused m.method)
  ok (record {
    method = m.method;
    mount = mount_of m;
    label = or_else m.label default_label;
    oidc_role = m.role;
  })

unfoldable pub login_method : LoginMethodConfig → Result ConfigError LoginMethod
unfolding login_method_with lookup_text
login_method m = login_method_with m (lookup_text login_labels m.method)

unfoldable pub login_methods : List LoginMethodConfig → Result ConfigError (List LoginMethod)
unfolding login_method
login_methods [] = ok []
login_methods (m ∷ rest) = do
  method ← login_method m
  methods ← login_methods rest
  ok (method ∷ methods)

abbrev pub token_method : LoginMethodConfig
token_method = record { method = bytes "token"; mount = []; label = []; role = [] }

unfoldable pub load_approver_login : Host → ApproverLoginConfig → Result ConfigError ApproverLogin
unfolding login_methods is_web_address cut_suffix
load_approver_login host raw = do
  fail_if (not (is_web_address (host.parse_url raw.openbao_address))) address_invalid
  methods ← login_methods (if is_empty raw.methods then token_method ∷ [] else raw.methods)
  ok (record {
    openbao_address = trim_suffix b'/' raw.openbao_address;
    namespace = raw.namespace;
    methods = methods;
  })
