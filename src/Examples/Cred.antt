-- ===== src/Examples/Cred.antt =====
-- The theorems on the command at small inputs.
use openbao_authorizer.Prelude.{
  ◌≡◌, refl, ◌*◌, true, false, none, some, List, [], ◌∷◌, map, All, arith,
}
use openbao_authorizer.Prelude.Result.{ok}
use openbao_authorizer.Text.Bytes.{Str, bytes, ◌==◌, cut}
use openbao_authorizer.Text.Utf8.{runes, chunks, decode, encode}
use openbao_authorizer.Rules.Model.{second}
use openbao_authorizer.Cred.Model.{Fields, object_end, field, text, object, Mapping}
use openbao_authorizer.Cred.Mapping.{valid_name, resolve_each, resolve_mappings}
use openbao_authorizer.Cred.FieldPath.{
  split_runes, split_path, field_at, step_into, select_from, select_value, scalar,
}
use openbao_authorizer.Cred.FieldPath.RoundTrip.{
  path_of, escape, IsSegment, encode_all, split_path-path_of,
}
use openbao_authorizer.Cred.Render.{render_shell}
use openbao_authorizer.Cred.Render.Shell.{read_script, line}
use openbao_authorizer.Cred.Render.Resolved.{GiveAll, render_shell-GiveAll}
use openbao_authorizer.Cred.Environment.{merge_environment}
use openbao_authorizer.Cred.Request.{GrantRequest, state_pending}
use openbao_authorizer.Cred.Wait.{Attempt, closed, Returned, wait_for_grant_request}
use openbao_authorizer.Cred.Wait.Ends.{IsPacedReturn, wait_for_grant_request-ends}

abbrev secret : Fields
secret =
    field (bytes "data") (object (field (bytes "pass.word") (text (bytes "it's")) object_end))
      object_end

abbrev mappings : List Mapping
mappings = record { name = bytes "PASSWORD"; path = bytes "data.pass\\.word" } ∷ []

names_valid : All (λ m. valid_name m.name ≡ true) mappings
unfolding valid_name
names_valid = (refl, tt)

resolves : resolve_mappings secret mappings ≡ ok (bytes "PASSWORD=it's" ∷ [])
unfolding resolve_mappings resolve_each select_value select_from step_into field_at split_path
    split_runes scalar chunks decode encode ◌==◌
resolves = refl

render_shell-GiveAll_example :
    (pairs : List (Str × Str)) × (read_script line (render_shell (bytes "PASSWORD=it's" ∷ []))
      ≡ some pairs)
    × GiveAll secret mappings pairs
render_shell-GiveAll_example = render_shell-GiveAll secret mappings names_valid resolves

merged :
    merge_environment (bytes "BAO_TOKEN=t" ∷ bytes "HOME=h" ∷ []) (bytes "A=b" ∷ [])
    ≡ bytes "HOME=h" ∷ bytes "A=b" ∷ []
unfolding merge_environment cut ◌==◌
merged = refl

dotted : runes (bytes "data.pass\\.word") ≡ path_of (bytes "data" ∷ bytes "pass.word" ∷ [])
unfolding path_of escape chunks decode
dotted = refl

segments : IsSegment (bytes "data") × All IsSegment (bytes "pass.word" ∷ [])
unfolding encode
segments = (refl, (refl, tt))

split_path-path_of_example :
    split_path (bytes "data.pass\\.word")
    ≡ ok (map encode_all (bytes "data" ∷ bytes "pass.word" ∷ []))
split_path-path_of_example =
    split_path-path_of (bytes "data.pass\\.word") (bytes "data") (bytes "pass.word" ∷ []) refl
      dotted segments

abbrev asked : Str → GrantRequest
asked state = record {
  id = bytes "r1";
  items =
      record {
        id = bytes "i1";
        path = bytes "kv/data/app";
        capabilities = bytes "read" ∷ [];
        ttl = [];
        state = state;
        reason = [];
        expires_at = none;
      }
      ∷ [];
}

abbrev dropped : Attempt
dropped = record { messages = []; ended = closed; ended_at = 0; interrupted = false }

wait_for_grant_request-ends_example :
    (result : Returned) × (wait_for_grant_request
        (2 * second)
        (asked state_pending)
        (dropped ∷ dropped ∷ dropped ∷ [])
      ≡ some result)
    × IsPacedReturn result
wait_for_grant_request-ends_example =
    wait_for_grant_request-ends (2 * second) (asked state_pending) dropped (dropped ∷ dropped ∷ [])
      (omega arith)
