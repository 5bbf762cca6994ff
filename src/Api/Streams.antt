-- ===== src/Api/Streams.antt =====
-- internal/api/events.go and the live stream of internal/api/approver.go: the bus, `WatchEvents` and
-- `streamWatch`, with every interleaving of the streams and of the handlers that change the tables.
pub mod Current
pub mod Settles
use openbao_authorizer.Prelude.{
  ℕ, zero, suc, ◌+◌, ◌≡◌, Bool, true, false, not, Option, none, some, List, [], ◌∷◌, ◌++◌, map,
  if◌then◌else◌,
}
use openbao_authorizer.Prelude.Result.{Result, ok, err}
use openbao_authorizer.Text.Bytes.{Str}
use openbao_authorizer.Store.Model.{
  StoreError, GrantRequest, Grant, pending_requests, decided_requests,
}
use openbao_authorizer.Store.Rows.{Db}
use openbao_authorizer.Store.Requests.{grant_requests}
use openbao_authorizer.Store.Grants.{active_grants}
use openbao_authorizer.Api.Render.{RequestProto, GrantProto, requests_proto, grants_proto}

-- authorizerv1.DashboardSnapshot
pub record Snapshot : Type 0 where
  pub pending_requests : List RequestProto
  pub decided_requests : List RequestProto
  pub active_grants : List GrantProto

-- Where the handler of a stream is: before its first query, between two queries of a snapshot, or in
-- `wait`.
pub data Phase : Type 0 where
  started waiting : Phase
  read_pending : List RequestProto → Phase
  read_decided : List RequestProto → List RequestProto → Phase

-- One call of `WatchEvents`: whether its channel, of capacity one, holds a wake-up, and the last
-- snapshot sent.
pub record Stream : Type 0 where
  pub woken : Bool
  pub phase : Phase
  pub last : Option Snapshot

-- `Subscribe`, before the first query
abbrev pub subscribed : Stream
subscribed = record { woken = false; phase = started; last = none }

-- `select { case subscriber <- struct{}{}: default: }`: a full channel stays as it is.
abbrev pub wake : Stream → Stream
wake x = record x { woken = true }

unfoldable pub publish_event : List Stream → List Stream
publish_event streams = map wake streams

-- A query that fails ends the stream.
abbrev pub with_read : {A : Type 0} → Result StoreError A → (A → Stream) → Option Stream
with_read (ok a) next = some (next a)
with_read (err e) next = none

-- A stream waits on an empty channel.
abbrev pub idle_in : Phase → Bool → Bool
idle_in waiting false = true
idle_in waiting true = false
idle_in started woken = false
idle_in (read_pending p) woken = false
idle_in (read_decided p d) woken = false

abbrev pub is_idle : Stream → Bool
is_idle x = idle_in x.phase x.woken

abbrev pub then_run : (Stream → Option Stream) → Option Stream → Option Stream
then_run run none = none
then_run run (some x) = run x

-- proto.Equal is a parameter.
module _ (equal : Snapshot → Snapshot → Bool) where
  abbrev pub already_sent : Snapshot → Option Snapshot → Bool
  already_sent s none = false
  already_sent s (some last) = equal s last

  -- The end of a turn of the loop: what was sent already is not sent again.
  unfoldable pub send_snapshot : Snapshot → Stream → Stream
  send_snapshot s x = record x {
    phase = waiting;
    last = if already_sent s x.last then x.last else some s;
  }

  -- The next thing that a stream does when it is its turn, none where it ends or has to wait.
  abbrev pub advance_from : Phase → Db → (now : ℕ) → Stream → Option Stream
  advance_from started db now x =
      with_read (grant_requests pending_requests db)
        (λ p. record x { phase = read_pending (requests_proto p) })
  advance_from (read_pending p) db now x =
      with_read (grant_requests decided_requests db)
        (λ d. record x { phase = read_decided p (requests_proto d) })
  advance_from (read_decided p d) db now x = with_read (active_grants [] now db) (λ a.
      send_snapshot
        (record { pending_requests = p; decided_requests = d; active_grants = grants_proto a true })
        x)
  advance_from waiting db now x =
      if x.woken then some (record x { woken = false; phase = started }) else none

  unfoldable pub advance : Db → (now : ℕ) → Stream → Option Stream
  unfolding grant_requests requests_proto active_grants grants_proto send_snapshot
  advance db now x = advance_from x.phase db now x

  -- A stream runs until it waits on an empty channel.
  unfoldable pub catch_up : (fuel : ℕ) → Db → (now : ℕ) → Stream → Option Stream
  unfolding advance
  catch_up zero db now x = some x
  catch_up (suc fuel) db now x =
      let rest = catch_up fuel db now in
      if is_idle x then some x else then_run rest (advance db now x)

  -- One stream among the others takes its turn, or ends.
  pub data Moves (db : Db) (now : ℕ) : List Stream → List Stream → Type 0 where
    moved :
        {x y : Stream} {xs : List Stream}
        → advance db now x ≡ some y
        → Moves db now (x ∷ xs) (y ∷ xs)
    ended : {x : Stream} {xs : List Stream} → Moves db now (x ∷ xs) xs
    later : {x : Stream} {xs ys : List Stream} → Moves db now xs ys → Moves db now (x ∷ xs) (x ∷ ys)

-- The tables, the handlers that have changed them and not yet called the notifier, and the streams.
pub record Hub : Type 0 where
  pub db : Db
  pub due : ℕ
  pub streams : List Stream

module _ (equal : Snapshot → Snapshot → Bool) where
  -- A handler commits its transaction, and calls the notifier after that; a stream opens; a stream
  -- takes its turn.
  pub data Step (h g : Hub) : Type 0 where
    committed : (db : Db) → g ≡ record h { db = db; due = suc h.due } → Step h g
    notified :
        (n : ℕ)
        → h.due ≡ suc n
        → g ≡ record h { due = n; streams = publish_event h.streams }
        → Step h g
    opened : g ≡ record h { streams = subscribed ∷ h.streams } → Step h g
    turned :
        (now : ℕ) (streams : List Stream)
        → Moves equal h.db now h.streams streams
        → g ≡ record h { streams = streams }
        → Step h g

  pub data Reachable : Hub → Type 0 where
    booted : (db : Db) → Reachable (record { db = db; due = 0; streams = [] })
    stepped : {h g : Hub} → Reachable h → Step h g → Reachable g
