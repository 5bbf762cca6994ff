-- ===== src/Cred/Wait/Ends.antt =====
-- The waiting ends, and its delays are bounded.
use openbao_authorizer.Prelude.{
  ℕ, ◌+◌, ◌*◌, ◌≤◌, ◌≡◌, refl, ◌&&◌, Option, none, some, List, [], ◌∷◌, ◌++◌, if◌then◌else◌, ltb,
  leb, eqb, length, Bool-cases, inl, inr, arith, All, All-concat, subst, ◌⊎◌,
}
use openbao_authorizer.Text.Bytes.{Str, ◌==◌}
use openbao_authorizer.Rules.Model.{second}
use openbao_authorizer.Cred.Request.{
  GrantItem, GrantRequest, pending_count, is_pending, describe_item,
}
use openbao_authorizer.Cred.Errors.{transient_authorizer_error}
use openbao_authorizer.Cred.Wait.{
  Attempt, Message, Ended, closed, failed, Waiting, Returned, without_error, interrupted, refused,
  Next, return, reconnect, retry_delay, max_retry_delay, report_item, report_changes, on_message,
  on_snapshot, receive, after_watch, on_end, wait_loop, start_waiting, seen_state, notice_interval,
  wait_for_grant_request, later, back_off, Notice, reconnecting, item_changed, still_waiting,
}

-- A pause that is announced takes from one to thirty seconds.
abbrev pub IsShort : Notice → Type 0
IsShort (item_changed s) = Unit
IsShort (still_waiting n s) = Unit
IsShort (reconnecting e delay) = (retry_delay ≤ delay) × (delay ≤ max_retry_delay)

pub record IsPaced (w : Waiting) : Type 0 where
  pub delay : (retry_delay ≤ w.delay) × (w.delay ≤ max_retry_delay)
  pub notices : All IsShort w.notices

with_notice : (w : Waiting) (n : Notice) → IsShort n → IsPaced w → All IsShort (w.notices ++ n ∷ [])
with_notice w n short p = All-concat IsShort w.notices p.notices short

report_item-IsPaced : (item : GrantItem) (w : Waiting) → IsPaced w → IsPaced (report_item item w)
unfolding report_item
report_item-IsPaced item w p = elim (Bool-cases (seen_state item.id w.seen == item.state)) [
  | inl e ↦ rw e p
  | inr e ↦ elim (Bool-cases (is_pending item)) [
    | inl f ↦ rw (e, f) (record { delay = p.delay; notices = p.notices })
    | inr f ↦
        rw (e, f)
          (record {
            delay = p.delay;
            notices = with_notice w (item_changed (describe_item item)) tt p;
          })
  ]
]

report_changes-IsPaced :
    (items : List GrantItem) (w : Waiting) → IsPaced w → IsPaced (report_changes items w)
unfolding report_changes
report_changes-IsPaced [] w p = p
report_changes-IsPaced (item ∷ items) w p =
    report_changes-IsPaced items (report_item item w) (report_item-IsPaced item w p)

on_snapshot-IsPaced :
    (id : Str) (snapshot : Option GrantRequest) (w : Waiting)
    → IsPaced w
    → IsPaced (on_snapshot id snapshot w)
on_snapshot-IsPaced id none w p = p
on_snapshot-IsPaced id (some next) w p =
    report_changes-IsPaced next.items _ (record { delay = p.delay; notices = p.notices })

on_message-IsPaced : (at : ℕ) (w : Waiting) → IsPaced w → IsPaced (on_message at w)
unfolding on_message
on_message-IsPaced at w p =
    elim (Bool-cases
      (ltb 0 (pending_count w.request) && leb (w.last_notice + notice_interval) at)) [
        | inl e ↦ rw e (record {
          delay = omega arith;
          notices = with_notice w (still_waiting (pending_count w.request) w.request.id) tt p;
        })
        | inr e ↦ rw e (record { delay = omega arith; notices = p.notices })
      ]

receive-IsPaced :
    (id : Str) (messages : List Message) (w : Waiting) → IsPaced w → IsPaced (receive id messages w)
unfolding receive
receive-IsPaced id [] w p = p
receive-IsPaced id (m ∷ rest) w p =
    receive-IsPaced id rest _ (on_message-IsPaced m.at _ (on_snapshot-IsPaced id m.snapshot w p))

pub start_waiting-IsPaced : (r : GrantRequest) → IsPaced (start_waiting r)
unfolding start_waiting
start_waiting-IsPaced r =
    report_changes-IsPaced r.items _ (record { delay = omega arith; notices = tt })

back_off-IsPaced : (ended : Ended) (w : Waiting) → IsPaced w → IsPaced (back_off ended w)
back_off-IsPaced ended w p = record {
  delay = ground arith;
  notices = with_notice w (reconnecting ended w.delay) p.delay p;
}

-- What a return leaves, or the state for the next watch, keeps to the pace.
abbrev pub IsPacedReturn : Returned → Type 0
IsPacedReturn (without_error w) = IsPaced w
IsPacedReturn (interrupted w) = IsPaced w
IsPacedReturn (refused w e) = IsPaced w

abbrev IsPacedNext : Next → Type 0
IsPacedNext (return result) = IsPacedReturn result
IsPacedNext (reconnect w) = IsPaced w

on_end-IsPaced : (ended : Ended) (w : Waiting) → IsPaced w → IsPacedNext (on_end ended w)
on_end-IsPaced closed w p = elim (Bool-cases (eqb (pending_count w.request) 0)) [
  | inl e ↦ rw e p
  | inr e ↦ rw e (back_off-IsPaced closed w p)
]
on_end-IsPaced (failed x) w p = elim (Bool-cases (transient_authorizer_error x)) [
  | inl e ↦ rw e (back_off-IsPaced (failed x) w p)
  | inr e ↦ rw e p
]

after_watch-IsPaced :
    (timeout now : ℕ) (a : Attempt) (w : Waiting)
    → IsPaced w
    → IsPacedNext (after_watch timeout now a w)
unfolding after_watch
after_watch-IsPaced timeout now a w p = elim (Bool-cases a.interrupted) [
  | inl e ↦ rw e p
  | inr e ↦ elim (Bool-cases (leb timeout now)) [
    | inl f ↦ rw (e, f) p
    | inr f ↦ rw (e, f) (on_end-IsPaced a.ended w p)
  ]
]

-- Past the deadline no watch is followed by another.
after_watch-late :
    (timeout now : ℕ) (a : Attempt) (w : Waiting) {w' : Waiting}
    → timeout ≤ now
    → after_watch timeout now a w ≡ reconnect w'
    → ⊥
unfolding after_watch
after_watch-late timeout now a w late h = elim (Bool-cases a.interrupted) [
  | inl e ↦ cc (rw e at h)
  | inr e ↦ elim (Bool-cases (leb timeout now)) [
    | inl f ↦ cc (rw (e, f) at h)
    | inr f ↦ absurd (ground arith)
  ]
]

Next-cases : (n : Next) → ((r : Returned) × (n ≡ return r)) ⊎ ((w : Waiting) × (n ≡ reconnect w))
Next-cases (return r) = inl (r, refl)
Next-cases (reconnect w) = inr (w, refl)

-- What a loop over these watches returns, within the pace.
abbrev ReturnsPaced : ℕ → ℕ → Waiting → List Attempt → Type 0
ReturnsPaced timeout now w attempts =
    (result : Returned) × (wait_loop timeout now w attempts ≡ some result) × IsPacedReturn result

module _ (timeout now : ℕ) (w : Waiting) (a : Attempt) where
  abbrev received : Waiting
  received = receive w.request.id (if ltb now timeout then a.messages else []) w

  received-IsPaced : IsPaced w → IsPaced received
  received-IsPaced p = receive-IsPaced w.request.id (if ltb now timeout then a.messages else []) w p

  -- One round: it returns, or goes on as the rest of the watches does.
  round_returns :
      (rest : List Attempt)
      → IsPaced w
      → ((w' : Waiting)
          → IsPaced w'
          → after_watch timeout (later now a.ended_at) a received ≡ reconnect w'
          → ReturnsPaced timeout (later now a.ended_at + received.delay) w' rest)
      → ReturnsPaced timeout now w (a ∷ rest)
  unfolding wait_loop
  round_returns rest p again = elim (Bool-cases (eqb (pending_count w.request) 0)) [
    | inl e ↦ (without_error w, rw (e, wait_loop) refl, p)
    | inr e ↦
        let paced =
          after_watch-IsPaced timeout (later now a.ended_at) a received (received-IsPaced p) in
        elim (Next-cases (after_watch timeout (later now a.ended_at) a received)) [
          | inl (result, f) ↦
              (result, rw (e, wait_loop) (rw (f, wait_loop) refl), subst IsPacedNext f paced)
          | inr (w', f) ↦
              let (result, h, q) = again w' (subst IsPacedNext f paced) f in
              (result, rw (e, wait_loop) (rw (f, wait_loop) h), q)
        ]
  ]

-- The loop returns, within the pace, if there are enough watches to reach the deadline at one a second.
wait_loop-ends :
    (timeout now : ℕ) (w : Waiting) (a : Attempt) (rest : List Attempt)
    → IsPaced w
    → timeout ≤ now + second * length rest
    → ReturnsPaced timeout now w (a ∷ rest)
wait_loop-ends timeout now w a [] p enough =
    round_returns timeout now w a [] p
      (λ w' p' f. absurd (after_watch-late timeout (later now a.ended_at) a _ (ground arith) f))
wait_loop-ends timeout now w a (b ∷ rest) p enough =
    let paced = (received-IsPaced timeout now w a p).delay in
    round_returns timeout now w a (b ∷ rest) p (λ w' p' f.
      wait_loop-ends timeout (later now a.ended_at + (received timeout now w a).delay) w' b rest p'
        (ground arith))

-- Waiting ends: it returns once there have been as many watches as the timeout has seconds, and
-- one more, whatever they bring; and each pause that is announced takes from one to thirty
-- seconds.
pub wait_for_grant_request-ends :
    (timeout : ℕ) (r : GrantRequest) (a : Attempt) (rest : List Attempt)
    → timeout ≤ second * length rest
    → (result : Returned) × (wait_for_grant_request timeout r (a ∷ rest) ≡ some result)
      × IsPacedReturn result
unfolding wait_for_grant_request
wait_for_grant_request-ends timeout r a rest enough =
    wait_loop-ends timeout 0 (start_waiting r) a rest (start_waiting-IsPaced r) (omega arith)
