-- ===== src/Cred/Wait.antt =====
-- `waitForGrantRequest`, `watchGrantRequest` and `reportChanges`: waiting over dropped streams.
pub mod Ends
use openbao_authorizer.Prelude.{
  ℕ, ◌+◌, ◌-◌, ◌*◌, Bool, true, false, ◌&&◌, ◌||◌, not, Option, none, some, List, [], ◌∷◌, ◌++◌,
  if◌then◌else◌, ltb, leb, eqb,
}
use openbao_authorizer.Text.Bytes.{Str, ◌==◌}
use openbao_authorizer.Rules.Model.{second}
use openbao_authorizer.Rules.Pattern.{is_empty}
use openbao_authorizer.Cred.Errors.{WatchError, transient_authorizer_error}
use openbao_authorizer.Cred.Request.{
  GrantItem, GrantRequest, is_pending, pending_count, describe_item,
}

abbrev pub retry_delay : ℕ
retry_delay = second

abbrev pub max_retry_delay : ℕ
max_retry_delay = 30 * second

abbrev pub notice_interval : ℕ
notice_interval = 300 * second

-- What one watch brings: its messages, heartbeats being those with no snapshot, each with the time of
-- its arrival; how and when it ended; and whether the command was interrupted by then. Times are
-- nanoseconds since the waiting began.
pub record Message : Type 0 where
  pub at : ℕ
  pub snapshot : Option GrantRequest

pub data Ended : Type 0 where
  closed : Ended
  failed : WatchError → Ended

pub record Attempt : Type 0 where
  pub messages : List Message
  pub ended : Ended
  pub ended_at : ℕ
  pub interrupted : Bool

-- The progress messages.
pub data Notice : Type 0 where
  item_changed : Str → Notice
  still_waiting : ℕ → Str → Notice
  reconnecting : Ended → ℕ → Notice

pub record Waiting : Type 0 where
  pub request : GrantRequest
  pub seen : List (Str × Str)
  pub delay : ℕ
  pub last_notice : ℕ
  pub notices : List Notice

-- seen[id]; a missing key reads as "".
unfoldable pub seen_state : Str → List (Str × Str) → Str
unfolding ◌==◌
seen_state id [] = []
seen_state id ((key, state) ∷ rest) = if key == id then state else seen_state id rest

unfoldable pub report_item : GrantItem → Waiting → Waiting
unfolding seen_state describe_item ◌==◌
report_item item w = if seen_state item.id w.seen == item.state then w else record w {
  seen = (item.id, item.state) ∷ w.seen;
  notices =
      if is_pending item then w.notices else w.notices ++ item_changed (describe_item item) ∷ [];
}

unfoldable pub report_changes : List GrantItem → Waiting → Waiting
unfolding report_item
report_changes [] w = w
report_changes (item ∷ items) w = report_changes items (report_item item w)

-- if request.ID == "" { request.ID = id }
abbrev named : Str → GrantRequest → GrantRequest
named id r = if is_empty r.id then record r { id = id } else r

abbrev on_snapshot : Str → Option GrantRequest → Waiting → Waiting
on_snapshot id none w = w
on_snapshot id (some next) w = report_changes next.items (record w { request = named id next })

unfoldable pub on_message : ℕ → Waiting → Waiting
unfolding pending_count
on_message at w =
    let pending = pending_count w.request in
    if ltb 0 pending && leb (w.last_notice + notice_interval) at
    then record w {
      delay = retry_delay;
      last_notice = at;
      notices = w.notices ++ still_waiting pending w.request.id ∷ [];
    }
    else record w { delay = retry_delay }

-- The messages of one stream; `id` is the request that it watches.
unfoldable pub receive : Str → List Message → Waiting → Waiting
unfolding report_changes on_message
receive id [] w = w
receive id (m ∷ rest) w = receive id rest (on_message m.at (on_snapshot id m.snapshot w))

-- How the waiting returns: with the request and, where there is one, the error.
pub data Returned : Type 0 where
  without_error interrupted : Waiting → Returned
  refused : Waiting → WatchError → Returned

-- What is done after a watch that did not run into the deadline: return, or wait and reconnect.
pub data Next : Type 0 where
  return : Returned → Next
  reconnect : Waiting → Next

abbrev back_off : Ended → Waiting → Waiting
back_off ended w = record w {
  delay = if ltb max_retry_delay (w.delay * 2) then max_retry_delay else w.delay * 2;
  notices = w.notices ++ reconnecting ended w.delay ∷ [];
}

abbrev on_end : Ended → Waiting → Next
on_end closed w =
    if eqb (pending_count w.request) 0
    then return (without_error w)
    else reconnect (back_off closed w)
on_end (failed e) w =
    if transient_authorizer_error e then reconnect (back_off (failed e) w) else return (refused w e)

unfoldable pub after_watch : ℕ → ℕ → Attempt → Waiting → Next
unfolding transient_authorizer_error pending_count
after_watch timeout now a w =
    if a.interrupted
    then return (interrupted w)
    else if leb timeout now
    then return (without_error w)
    else on_end a.ended w

abbrev later : ℕ → ℕ → ℕ
later a b = if ltb a b then b else a

-- The loop, from the time `now`, over what the watches will bring; `none` where they are used up. The
-- pause after a watch is the delay at its end; a watch that starts past the deadline brings nothing.
unfoldable pub wait_loop : ℕ → ℕ → Waiting → List Attempt → Option Returned
unfolding receive after_watch pending_count
wait_loop timeout now w [] =
    if eqb (pending_count w.request) 0 then some (without_error w) else none
wait_loop timeout now w (a ∷ rest) = elim (eqb (pending_count w.request) 0) [
  | true ↦ some (without_error w)
  | false ↦
      let w' = receive w.request.id (if ltb now timeout then a.messages else []) w in
      elim (after_watch timeout (later now a.ended_at) a w') [
        | return result ↦ some result
        | reconnect w'' ↦ wait_loop timeout (later now a.ended_at + w'.delay) w'' rest
      ]
]

-- The state before the first watch.
unfoldable pub start_waiting : GrantRequest → Waiting
unfolding report_changes
start_waiting r =
    report_changes r.items
      (record { request = r; seen = []; delay = retry_delay; last_notice = 0; notices = [] })

unfoldable pub wait_for_grant_request : ℕ → GrantRequest → List Attempt → Option Returned
unfolding start_waiting wait_loop
wait_for_grant_request timeout r attempts = wait_loop timeout 0 (start_waiting r) attempts
