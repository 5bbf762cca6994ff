-- ===== src/Cred/Model.antt =====
-- Values that OpenBao returns, and the errors of cmd/bao-cred/utils.go.
use openbao_authorizer.Prelude.{Bool}
use openbao_authorizer.Text.Bytes.{Str}

-- A number is the text that `scalar` prints for it.
mutual
  pub data Value : Type 0 where
    null : Value
    text : Str → Value
    flag : Bool → Value
    number : Str → Value
    object : Fields → Value
    array : Values → Value

  pub data Fields : Type 0 where
    object_end : Fields
    field : Str → Value → Fields → Fields

  pub data Values : Type 0 where
    array_end : Values
    value : Value → Values → Values

pub record Mapping : Type 0 where
  pub name : Str
  pub path : Str

-- One constructor for each error message, with what it prints.
pub data CredError : Type 0 where
  path_empty value_has_nul not_scalar path_count command_required : CredError
  empty_segment trailing_escape field_missing traverses_scalar : Str → CredError
  index_invalid : Str → Str → CredError
  mapping_malformed mapping_repeated : Str → CredError
  timeout_not_positive command_with_format command_without_map field_with_format : CredError
  json_with_options template_missing template_with_map : CredError
  format_with_template format_without_map format_unsupported : Str → CredError
  no_token token_file_disabled : CredError
  ttl_negative wait_combined reason_required item_required : CredError
  item_malformed : Str → CredError
  url_required url_malformed url_insecure : CredError
