-- ===== src/Service/Discovery.antt =====
-- internal/grants/discover.go: the paths that the catalog of rules shows.
pub mod Requestable
use openbao_authorizer.Prelude.{
  ℕ, ◌+◌, ◌*◌, Bool, true, false, ◌&&◌, ◌||◌, not, Option, none, some, List, [], ◌∷◌, ◌++◌, map,
  if◌then◌else◌, ltb, eqb, keep,
}
use openbao_authorizer.Prelude.Result.{Result, ok, err}
use openbao_authorizer.Text.Bytes.{Str, ◌==◌, has_suffix}
use openbao_authorizer.Text.Split.{split_last}
use openbao_authorizer.Rules.Model.{Runtime, Rule, Policy, Refusal, second}
use openbao_authorizer.Rules.Pattern.{match_pattern}
use openbao_authorizer.Rules.Concrete.{check_concrete_path, denied_segment}
use openbao_authorizer.Rules.Capability.{sort}
use openbao_authorizer.Rules.Resolve.{max_ttl_of}
use openbao_authorizer.Service.Model.{OpenBao, World, BaoError, http, ServiceError, bao_failed}
use openbao_authorizer.Service.Exec.{Exec, pure, calls, continue, ◌>>=◌}

-- discoveryTTL, time.Minute
abbrev pub discovery_ttl : ℕ
discovery_ttl = 60 * second

-- The texts of `discoverError`, with what each prints.
pub data DiscoveryError : Type 0 where
  permission_denied listing_failed : Str → DiscoveryError
  listing_status : Str → ℕ → DiscoveryError

pub record Grantable : Type 0 where
  pub rule : Rule
  pub paths : List Str
  pub discover_error : Option DiscoveryError

pub record Discovery : Type 0 where
  pub paths : List Str
  pub error : Option DiscoveryError
  pub at : ℕ

-- The map of `discoveryCache`; the last entry put for a name is the first.
abbrev pub Cache : Type 0
Cache = List (Str × Discovery)

unfoldable pub cached : Str → Cache → Option Discovery
unfolding ◌==◌
cached name [] = none
cached name ((other, found) ∷ results) = if other == name then some found else cached name results

unfoldable pub discover_error : Str → ServiceError → DiscoveryError
discover_error path (bao_failed (http status)) =
    if eqb status 403 then permission_denied path else listing_status path status
discover_error path e = listing_failed path

abbrev pub passes : Result Refusal (Unit {0}) → Bool
passes (ok done) = true
passes (err refusal) = false

abbrev pub is_none : Option Str → Bool
is_none none = true
is_none (some segment) = false

-- A path that `discoveredPaths` does not skip.
unfoldable pub is_requestable : Runtime → Str → Str → Bool
unfolding match_pattern check_concrete_path denied_segment
is_requestable rt pattern path =
    match_pattern pattern path
    && passes (check_concrete_path path)
    && is_none (denied_segment rt path)

-- slices.Compact
unfoldable pub compact : List Str → List Str
unfolding ◌==◌
compact [] = []
compact (s ∷ []) = s ∷ []
compact (s ∷ t ∷ l) = if s == t then compact (t ∷ l) else s ∷ compact (t ∷ l)

unfoldable pub discovered_paths : Runtime → Str → List Str → List Str
unfolding compact is_requestable split_last sort
discovered_paths rt pattern keys =
    let (directory, last) = split_last pattern in
    compact (
      sort (
        keep (is_requestable rt pattern)
          (map (λ key. directory ++ key) (keep (λ key. not (has_suffix b'/' key)) keys))))

-- The entry that a listing gives.
unfoldable pub found_by : Runtime → Rule → ℕ → Result ServiceError (List Str) → Discovery
unfolding discovered_paths discover_error
found_by rt rule now (ok keys) = record {
  paths = discovered_paths rt rule.path keys;
  error = none;
  at = now;
}
found_by rt rule now (err e) = record {
  paths = [];
  error = some (discover_error rule.discover e);
  at = now;
}

abbrev failed : Result ServiceError (List Str) → Bool
failed (ok keys) = false
failed (err e) = true

-- The lookup in the cache: an entry that is younger than a minute.
unfoldable pub fresh : Str → ℕ → Cache → Option Discovery
unfolding cached
fresh name now cache = elim (cached name cache) [
  | none ↦ none
  | some found ↦ if ltb now (found.at + discovery_ttl) then some found else none
]

-- What a listing leaves in the cache: nothing when the caller went away (`gone`).
unfoldable pub keep_found :
    Rule → Bool → Result ServiceError (List Str) → Discovery → Cache → Discovery × Cache
keep_found rule gone r found cache =
    if failed r && gone
    then (record found { at = 0 }, cache)
    else (found, (rule.name, found) ∷ cache)

-- One entry of the catalog: a rule without `discover` is only shown, with its effective limit.
unfoldable pub grantable_of : Policy → Rule → Option Discovery → Grantable
unfolding max_ttl_of
grantable_of policy rule none = record {
  rule = record rule { max_ttl = max_ttl_of policy rule };
  paths = [];
  discover_error = none;
}
grantable_of policy rule (some found) = record {
  rule = record rule { max_ttl = max_ttl_of policy rule };
  paths = found.paths;
  discover_error = found.error;
}

module _ (rt : Runtime) {bao : OpenBao} where
  -- `discover`: it always returns an entry, and no error.
  unfoldable pub discover :
      Rule → (now : ℕ) → (gone : Bool) → Cache → World bao → (Discovery × Cache) × World bao
  unfolding fresh found_by keep_found
  discover rule now gone cache w = elim (fresh rule.name now cache) [
    | some found ↦ ((found, cache), w)
    | none ↦
        let (keys, w') = calls (bao.list rule.discover) w in
        (keep_found rule gone keys (found_by rt rule now keys) cache, w')
  ]

  -- What a rule's goroutine finds, if the rule has one.
  unfoldable pub look_up :
      Rule → (now : ℕ) → (gone : Bool) → Cache → World bao → (Option Discovery × Cache) × World bao
  unfolding discover ◌==◌
  look_up rule now gone cache w =
      if rule.discover == []
      then ((none, cache), w)
      else let ((found, cache'), w') = discover rule now gone cache w in ((some found, cache'), w')

  -- `Grantables`, its goroutines one after the other; `now` and `gone` are what each finds.
  unfoldable pub grantables :
      Policy
      → (now : Rule → ℕ) → (gone : Rule → Bool) → List Rule
      → Cache
      → World bao
      → (List Grantable × Cache) × World bao
  unfolding look_up grantable_of
  grantables policy now gone [] cache w = (([], cache), w)
  grantables policy now gone (rule ∷ rules) cache w =
      let ((found, cache'), w') = look_up rule (now rule) (gone rule) cache w in
      let ((rest, cache''), w'') = grantables policy now gone rules cache' w' in
      ((grantable_of policy rule found ∷ rest, cache''), w'')
