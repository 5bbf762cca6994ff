-- ===== src/Cred/Item.antt =====
-- `parseItem`, the checks of `runRequest` and those on the authorizer's URL.
use openbao_authorizer.Prelude.{
  ℕ, Bool, ◌&&◌, ◌||◌, not, Option, none, some, List, [], ◌∷◌, if◌then◌else◌, eqb, leb,
}
use openbao_authorizer.Prelude.Int.{ℤ, pos, ltb_ℤ}
use openbao_authorizer.Prelude.Result.{Result, ok, err, fail_if, ◌>>=◌, ◌>>◌}
use openbao_authorizer.Text.Bytes.{Str, bytes, ◌==◌}
use openbao_authorizer.Text.Split.{split_by}
use openbao_authorizer.Text.Unicode.{trim_space}
use openbao_authorizer.Rules.Pattern.{is_empty}
use openbao_authorizer.Config.Model.{Url}
use openbao_authorizer.Cred.Model.{
  CredError, timeout_not_positive, wait_combined, reason_required, item_required, item_malformed,
  url_required, url_malformed, url_insecure,
}

-- authorizerv1.PermissionItemInput; `none` for a TTL that is left to the authorizer
pub record PermissionItemInput : Type 0 where
  pub path : Str
  pub capabilities : List Str
  pub ttl : Option ℤ

-- The parts around the last byte `c`, if there is one: strings.LastIndexByte.
unfoldable pub cut_last : ℕ → Str → Option (Str × Str)
cut_last c [] = none
cut_last c (b ∷ s) = elim (cut_last c s) [
  | some (before, after) ↦ some (b ∷ before, after)
  | none ↦ if eqb b c then some ([], s) else none
]

-- The loop over the capabilities.
unfoldable pub parse_capabilities : Str → List Str → Result CredError (List Str)
unfolding trim_space
parse_capabilities raw [] = ok []
parse_capabilities raw (text ∷ rest) = do
  let capability = trim_space text
  fail_if (is_empty capability) (item_malformed raw)
  capabilities ← parse_capabilities raw rest
  ok (capability ∷ capabilities)

unfoldable pub parse_item_parts :
    Str → ℤ → Option (Str × Str) → Result CredError PermissionItemInput
unfolding parse_capabilities trim_space split_by
parse_item_parts raw ttl none = err (item_malformed raw)
parse_item_parts raw ttl (some (before, after)) = do
  let path = trim_space before
  fail_if (is_empty path) (item_malformed raw)
  capabilities ← parse_capabilities raw (split_by b',' after)
  ok (record {
    path = path;
    capabilities = capabilities;
    ttl = if ltb_ℤ (pos 0) ttl then some ttl else none;
  })

unfoldable pub parse_item : Str → ℤ → Result CredError PermissionItemInput
unfolding parse_item_parts cut_last
parse_item raw ttl = parse_item_parts raw ttl (cut_last b'=' raw)

unfoldable pub parse_items : List Str → ℤ → Result CredError (List PermissionItemInput)
unfolding parse_item
parse_items [] ttl = ok []
parse_items (raw ∷ rest) ttl = do
  item ← parse_item raw ttl
  items ← parse_items rest ttl
  ok (item ∷ items)

pub record RequestFlags : Type 0 where
  pub reason : Str
  pub items : List Str
  pub ttl : ℤ
  pub timeout : ℤ
  pub no_wait : Bool
  pub wait_id : Str

-- What `runRequest` is to do once its flags are checked.
pub data Task : Type 0 where
  resume : Str → Task
  file : Str → List PermissionItemInput → Task

unfoldable pub check_flags : RequestFlags → Result CredError Task
unfolding trim_space parse_items ◌==◌
check_flags flags = do
  fail_if (ltb_ℤ flags.timeout (pos 1) || ltb_ℤ flags.ttl (pos 0)) timeout_not_positive
  let reason = trim_space flags.reason
  let id = trim_space flags.wait_id
  if not (is_empty id)
      then (do
        fail_if
            (not (is_empty reason)
              || not (is_empty flags.items)
              || (ltb_ℤ flags.ttl (pos 0) || ltb_ℤ (pos 0) flags.ttl)
              || flags.no_wait)
            wait_combined
        ok (resume id))
      else (do
        fail_if (is_empty reason) reason_required
        fail_if (is_empty flags.items) item_required
        items ← parse_items flags.items flags.ttl
        ok (file reason items))

-- net/url's Parse, strings.EqualFold and net.ParseIP with IsLoopback
pub record Network : Type 0 where
  pub parse_url : Str → Option Url
  pub equal_fold : Str → Str → Bool
  pub is_loopback_ip : Str → Bool

unfoldable pub secure_authorizer_url : Network → Url → Bool
unfolding ◌==◌
secure_authorizer_url net url =
    url.scheme == bytes "https"
    || net.equal_fold url.hostname (bytes "localhost")
    || net.is_loopback_ip url.hostname

abbrev checked : Network → Option Url → Result CredError Url
checked net none = err url_malformed
checked net (some url) = do
  fail_if
      (is_empty url.host || (not (url.scheme == bytes "http") && not (url.scheme == bytes "https")))
      url_malformed
  fail_if (not (secure_authorizer_url net url)) url_insecure
  ok url

-- The checks of `newAuthorizerClient`, with the value of BAO_AUTHORIZER_ADDR.
unfoldable pub authorizer_url : Network → Str → Str → Result CredError Url
unfolding trim_space secure_authorizer_url ◌==◌
authorizer_url net explicit environment = do
  let raw = if is_empty (trim_space explicit) then trim_space environment else trim_space explicit
  fail_if (is_empty raw) url_required
  checked net (net.parse_url raw)

pub data Redirect : Type 0 where
  followed insecure_redirect too_many_redirects : Redirect

-- CheckRedirect, with the number of requests made so far.
unfoldable pub check_redirect : Network → Url → ℕ → Redirect
unfolding secure_authorizer_url
check_redirect net url via =
    if not (secure_authorizer_url net url)
    then insecure_redirect
    else if leb 10 via
    then too_many_redirects
    else followed
