-- ===== src/Cred/Options.antt =====
-- `parseOptions` and `validateOptions` of the read command.
use openbao_authorizer.Prelude.{
  ℕ, zero, suc, Bool, ◌&&◌, ◌||◌, not, Option, none, some, List, [], ◌∷◌, take, if◌then◌else◌,
}
use openbao_authorizer.Prelude.Int.{ℤ, pos, ltb_ℤ}
use openbao_authorizer.Prelude.Result.{Result, ok, err, fail_if, ◌>>=◌, ◌>>◌}
use openbao_authorizer.Text.Bytes.{Str, bytes, ◌==◌, contains}
use openbao_authorizer.Text.Unicode.{trim_space}
use openbao_authorizer.Rules.Pattern.{is_empty}
use openbao_authorizer.Cred.Model.{
  Mapping, CredError, command_required, path_count, timeout_not_positive, mapping_repeated,
  command_with_format, command_without_map, field_with_format, json_with_options, template_missing,
  template_with_map, format_with_template, format_without_map, format_unsupported,
}
use openbao_authorizer.Cred.Mapping.{parse_mapping}

pub record Options : Type 0 where
  pub path : Str
  pub format : Str
  pub selected_field : Str
  pub template : Str
  pub output : Str
  pub reason : Str
  pub authorizer : Str
  pub timeout : ℤ
  pub quiet : Bool
  pub mappings : List Mapping
  pub command : List Str

unfoldable pub check_repeated : List Str → List Mapping → Result CredError (Unit {0})
unfolding ◌==◌
check_repeated seen [] = ok tt
check_repeated seen (m ∷ rest) = do
  fail_if (contains seen m.name) (mapping_repeated m.name)
  check_repeated (m.name ∷ seen) rest

unfoldable pub check_command : Options → Result CredError (Unit {0})
unfolding ◌==◌
check_command o = do
  fail_if
      (not (is_empty o.output)
        || not (is_empty o.selected_field)
        || not (is_empty o.template)
        || not (o.format == bytes "json"))
      command_with_format
  fail_if (is_empty o.mappings) command_without_map

unfoldable pub check_field : Options → Result CredError (Unit {0})
unfolding ◌==◌
check_field o =
    fail_if
      (not (o.format == bytes "json") || not (is_empty o.template) || not (is_empty o.mappings))
      field_with_format

-- options.format after `if options.template != "" && options.format == "json"`
unfoldable pub effective_format : Options → Str
unfolding ◌==◌
effective_format o =
    if not (is_empty o.template) && o.format == bytes "json" then bytes "template" else o.format

unfoldable pub check_format : Options → Str → Result CredError (Unit {0})
unfolding ◌==◌
check_format o format =
    if format == bytes "json"
    then fail_if (not (is_empty o.template) || not (is_empty o.mappings)) json_with_options
    else if format == bytes "template"
    then (do
      fail_if (is_empty o.template) template_missing
      fail_if (not (is_empty o.mappings)) template_with_map)
    else if format == bytes "dotenv" || format == bytes "shell"
    then (do
      fail_if (not (is_empty o.template)) (format_with_template format)
      fail_if (is_empty o.mappings) (format_without_map format))
    else err (format_unsupported format)

unfoldable pub validate_options : Options → Result CredError (Unit {0})
unfolding check_repeated check_command check_field effective_format check_format
validate_options o = do
  check_repeated [] o.mappings
  if not (is_empty o.command)
      then check_command o
      else if not (is_empty o.selected_field)
      then check_field o
      else check_format o (effective_format o)

unfoldable pub parse_mappings : List Str → Result CredError (List Mapping)
unfolding parse_mapping
parse_mappings [] = ok []
parse_mappings (raw ∷ rest) = do m ← parse_mapping raw; ms ← parse_mappings rest; ok (m ∷ ms)

abbrev drop : ℕ → List Str → List Str
drop n [] = []
drop zero (x ∷ xs) = x ∷ xs
drop (suc n) (x ∷ xs) = drop n xs

abbrev path_error : Option Str → Result CredError Str
path_error none = err path_count
path_error (some path) = ok path

-- The one argument before the dash.
abbrev only : List Str → Option Str
only (path ∷ []) = some path
only _ = none

-- The arguments before "--" and, if there is one, after it; `dash` is cobra's ArgsLenAtDash, `none`
-- for -1.
unfoldable pub parse_options : Options → List Str → List Str → Option ℕ → Result CredError Options
unfolding trim_space parse_mappings validate_options
parse_options opts raw_mappings arguments dash = do
  command ← elim dash [
    | none ↦ ok opts.command
    | some n ↦ if is_empty (drop n arguments) then err command_required else ok (drop n arguments)
  ]
  path ← path_error (only (elim dash [ none ↦ arguments | some n ↦ take n arguments ]))
  fail_if (ltb_ℤ opts.timeout (pos 1)) timeout_not_positive
  mappings ← parse_mappings raw_mappings
  let parsed = record opts {
    path = path;
    reason = trim_space opts.reason;
    mappings = mappings;
    command = command;
  }
  validate_options parsed
  ok parsed
