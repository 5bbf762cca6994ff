-- ===== src/Cred/Environment.antt =====
-- `mergeEnvironment` and `requesterToken`.
use openbao_authorizer.Prelude.{
  ◌≡◌, Bool, false, not, Option, none, some, List, [], ◌∷◌, ◌++◌, In, keep, map, if◌then◌else◌, ◌⊎◌,
}
use openbao_authorizer.Prelude.Result.{Result, ok, err}
use openbao_authorizer.Text.Bytes.{Str, bytes, cut, contains, ◌==◌}
use openbao_authorizer.Text.Unicode.{trim_space}
use openbao_authorizer.Rules.Pattern.{is_empty}
use openbao_authorizer.Cred.Model.{CredError, no_token, token_file_disabled}

unfoldable pub variable_name : Str → Str
variable_name entry = (cut b'=' entry).0

abbrev pub token_variables : List Str
token_variables = bytes "BAO_TOKEN" ∷ bytes "VAULT_TOKEN" ∷ []

-- Not among the names that are replaced or withheld.
unfoldable pub is_kept : List Str → Str → Bool
unfolding variable_name ◌==◌
is_kept mapped entry =
    not (contains (token_variables ++ map variable_name mapped) (variable_name entry))

unfoldable pub merge_environment : List Str → List Str → List Str
unfolding is_kept
merge_environment environment mapped = keep (is_kept mapped) environment ++ mapped

-- What `requesterToken` reads: the environment (an unset variable is empty) and the token file
-- (`none` where the home directory or the file cannot be read).
pub record Surroundings : Type 0 where
  pub getenv : Str → Str
  pub token_file : Option Str

abbrev from_file : Option Str → Result CredError Str
from_file none = err no_token
from_file (some contents) =
    if is_empty (trim_space contents) then err no_token else ok (trim_space contents)

unfoldable pub requester_token : Surroundings → Result CredError Str
requester_token s =
    let bao = trim_space (s.getenv (bytes "BAO_TOKEN")) in
    let vault = trim_space (s.getenv (bytes "VAULT_TOKEN")) in
    if not (is_empty bao)
    then ok bao
    else if not (is_empty vault)
    then ok vault
    else if not (is_empty (s.getenv (bytes "BAO_NO_TOKEN_FILE")))
    then err token_file_disabled
    else from_file s.token_file

-- The environment that a command gets has the mapped values, and of the Requester's environment the
-- variables that are no token and that no mapping sets, each as it was.
abbrev pub IsHandedOver : List Str → List Str → Str → Type 0
IsHandedOver environment mapped entry =
    In entry mapped
    ⊎ (In entry environment
        × (contains token_variables (variable_name entry) ≡ false)
        × (contains (map variable_name mapped) (variable_name entry) ≡ false))
