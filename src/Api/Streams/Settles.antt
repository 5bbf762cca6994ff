-- ===== src/Api/Streams/Settles.antt =====
-- How a live stream comes to rest, with the current snapshot sent.
use openbao_authorizer.Prelude.{
  ℕ, zero, suc, ◌+◌, ◌≤◌, ◌≡◌, refl, subst, inl, inr, Bool, true, false, some, List, [], In, All-In,
  if◌then◌else◌, Bool-cases, arith,
}
use openbao_authorizer.Prelude.Result.{ok}
use openbao_authorizer.Store.Model.{GrantRequest, Grant, pending_requests, decided_requests}
use openbao_authorizer.Store.Rows.{Db}
use openbao_authorizer.Store.Requests.{grant_requests}
use openbao_authorizer.Store.Grants.{active_grants}
use openbao_authorizer.Api.Render.{requests_proto, grants_proto}
use openbao_authorizer.Api.Streams.{
  Snapshot, Phase, started, waiting, read_pending, read_decided, Stream, send_snapshot,
  advance_from, is_idle, idle_in, catch_up, Hub, Reachable,
}
use openbao_authorizer.Api.Streams.Current.{
  Shown, CurrentIn, Kept, advance_from-Kept, Reachable-Invariant,
}

-- How many turns a stream still takes before it waits on an empty channel.
abbrev phase_rank : Phase → ℕ
phase_rank waiting = 0
phase_rank (read_decided p d) = 1
phase_rank (read_pending p) = 2
phase_rank started = 3

abbrev rank : Stream → ℕ
rank x = if x.woken then phase_rank x.phase + 4 else phase_rank x.phase

module _ (equal : Snapshot → Snapshot → Bool) (db : Db) (now : ℕ) where
  pub record IsReadable : Type 0 where
    pub pending : List GrantRequest
    pub decided : List GrantRequest
    pub active : List Grant
    pub pending_read : grant_requests pending_requests db ≡ ok pending
    pub decided_read : grant_requests decided_requests db ≡ ok decided
    pub active_read : active_grants [] now db ≡ ok active

  advance_from-some :
      (phase : Phase) (x : Stream)
      → IsReadable
      → idle_in phase x.woken ≡ false
      → (y : Stream) × (advance_from equal phase db now x ≡ some y)
        × (rank y + 1 ≡ (if x.woken then phase_rank phase + 4 else phase_rank phase))
  unfolding send_snapshot
  advance_from-some started x readable h = (
    record x { phase = read_pending (requests_proto readable.pending) },
    rw readable.pending_read refl,
    ground arith,
  )
  advance_from-some (read_pending p) x readable h = (
    record x { phase = read_decided p (requests_proto readable.decided) },
    rw readable.decided_read refl,
    ground arith,
  )
  advance_from-some (read_decided p d) x readable h = (
    send_snapshot equal
        (record {
          pending_requests = p;
          decided_requests = d;
          active_grants = grants_proto readable.active true;
        })
        x,
    rw readable.active_read refl,
    ground arith,
  )
  advance_from-some waiting x readable h = elim (Bool-cases x.woken) [
    | inl e ↦ (record x { woken = false; phase = started }, rw e refl, ground arith)
    | inr e ↦ cc (rw e at h)
  ]

idle-waits :
    (phase : Phase) (woken : Bool)
    → idle_in phase woken ≡ true
    → (phase ≡ waiting) × (woken ≡ false)
idle-waits waiting false h = (refl, refl)
idle-waits waiting true h = cc
idle-waits started woken h = cc
idle-waits (read_pending p) woken h = cc
idle-waits (read_decided p d) woken h = cc

rank-idle :
    (phase : Phase) (woken : Bool)
    → (if woken then phase_rank phase + 4 else phase_rank phase) ≤ 0
    → idle_in phase woken ≡ true
rank-idle waiting false h = refl
rank-idle waiting true h = ground arith
rank-idle started woken h = ground arith
rank-idle (read_pending p) woken h = ground arith
rank-idle (read_decided p d) woken h = ground arith

idle-Shown : (db : Db) (x : Stream) → Kept db x → is_idle x ≡ true → Shown db x
idle-Shown db x kept h =
    let (waits, empty) = idle-waits x.phase x.woken h in
    elim kept [ inl full ↦ cc | inr current ↦ subst (λ phase. CurrentIn phase db x) waits current ]

phase_rank-le : (phase : Phase) → phase_rank phase ≤ 3
phase_rank-le waiting = omega arith
phase_rank-le started = omega arith
phase_rank-le (read_pending p) = omega arith
phase_rank-le (read_decided p d) = omega arith

rank-le : (x : Stream) → rank x ≤ 7
rank-le x = ground (arith, phase_rank-le x.phase)

module _ (equal : Snapshot → Snapshot → Bool)
    (equal-eq_true : (s t : Snapshot) → equal s t ≡ true → s ≡ t) where
  catch_up-Shown :
      (fuel : ℕ) (db : Db) (now : ℕ) (x : Stream)
      → IsReadable equal db now
      → rank x ≤ fuel
      → Kept db x
      → (y : Stream) × (catch_up equal fuel db now x ≡ some y) × (is_idle y ≡ true) × Shown db y
  unfolding catch_up
  catch_up-Shown zero db now x readable h kept =
      let idle = rank-idle x.phase x.woken h in (x, refl, idle, idle-Shown db x kept idle)
  catch_up-Shown (suc fuel) db now x readable h kept = elim (Bool-cases (is_idle x)) [
    | inl e ↦ (x, rw e refl, e, idle-Shown db x kept e)
    | inr e ↦
        let (y, moved_on, ranks) = advance_from-some equal db now x.phase x readable e in
        let (z, ran, idle, shown) =
          catch_up-Shown fuel db now y readable (omega (arith, ranks, h))
            (advance_from-Kept equal equal-eq_true x.phase db now x kept moved_on) in
        (z, rw (e, moved_on) ran, idle, shown)
  ]

  -- However streams, handlers and wake-ups interleave, once no handler has a change to announce,
  -- and if the tables can be read, each open stream of WatchEvents takes at most seven turns until
  -- it waits on an empty channel, and the last snapshot that it sent then shows the tables, with
  -- the Grants active at some time; proto.Equal is assumed to hold of equal messages only.
  pub watch_events-Shown :
      {h : Hub} {x : Stream} (now : ℕ)
      → Reachable equal h
      → h.due ≡ 0
      → In x h.streams
      → IsReadable equal h.db now
      → (y : Stream) × (catch_up equal 7 h.db now x ≡ some y) × (is_idle y ≡ true) × Shown h.db y
  watch_events-Shown {h} {x} now reached settled among readable =
      catch_up-Shown 7 h.db now x readable (rank-le x)
        (elim (Reachable-Invariant equal equal-eq_true reached) [
          | inl (n, e) ↦ ground arith
          | inr kept ↦ All-In _ h.streams kept among
        ])
