-- ===== src/Api/Streams/Current.antt =====
-- A live stream loses no change: what was read is current, or a wake-up is there or on its way.
use openbao_authorizer.Prelude.{
  ℕ, suc, ◌≡◌, refl, sym, subst, ◌⊎◌, inl, inr, Bool, true, Option, none, some, some_inj, List, [],
  ◌∷◌, All, if◌then◌else◌, Bool-cases,
}
use openbao_authorizer.Prelude.Result.{Result, ok, err}
use openbao_authorizer.Store.Model.{
  StoreError, GrantRequest, Grant, pending_requests, decided_requests,
}
use openbao_authorizer.Store.Rows.{Db}
use openbao_authorizer.Store.Requests.{grant_requests}
use openbao_authorizer.Store.Grants.{active_grants}
use openbao_authorizer.Api.Render.{RequestProto, requests_proto, grants_proto}
use openbao_authorizer.Api.Streams.{
  Snapshot, Phase, started, waiting, read_pending, read_decided, Stream, publish_event,
  already_sent, send_snapshot, with_read, advance_from, advance, Moves, moved, ended, later, Hub,
  Step, committed, notified, opened, turned, Reachable, booted, stepped,
}

abbrev Requests : Db → List RequestProto → Type 0
Requests db p =
    (l : List GrantRequest) × (grant_requests pending_requests db ≡ ok l) × (p ≡ requests_proto l)

abbrev Decided : Db → List RequestProto → Type 0
Decided db d =
    (l : List GrantRequest) × (grant_requests decided_requests db ≡ ok l) × (d ≡ requests_proto l)

-- The snapshot shows these tables, with the Grants that were active at some time.
pub record Shows (db : Db) (s : Snapshot) : Type 0 where
  pub pending : List GrantRequest
  pub decided : List GrantRequest
  pub now : ℕ
  pub active : List Grant
  pub pending_read : grant_requests pending_requests db ≡ ok pending
  pub decided_read : grant_requests decided_requests db ≡ ok decided
  pub active_read : active_grants [] now db ≡ ok active
  pub pending_shown : s.pending_requests ≡ requests_proto pending
  pub decided_shown : s.decided_requests ≡ requests_proto decided
  pub active_shown : s.active_grants ≡ grants_proto active true

abbrev pub Shown : Db → Stream → Type 0
Shown db x = (s : Snapshot) × (x.last ≡ some s) × Shows db s

abbrev pub CurrentIn : Phase → Db → Stream → Type 0
CurrentIn started db x = Unit
CurrentIn (read_pending p) db x = Requests db p
CurrentIn (read_decided p d) db x = Requests db p × Decided db d
CurrentIn waiting db x = Shown db x

abbrev pub Kept : Db → Stream → Type 0
Kept db x = (x.woken ≡ true) ⊎ CurrentIn x.phase db x

abbrev pub Invariant : Hub → Type 0
Invariant h = ((n : ℕ) × (h.due ≡ suc n)) ⊎ All (Kept h.db) h.streams

with_read-some :
    {A : Type 0} (r : Result StoreError A) (next : A → Stream) {y : Stream}
    → with_read r next ≡ some y
    → (a : A) × (r ≡ ok a) × (next a ≡ y)
with_read-some (ok a) next h = (a, refl, some_inj h)
with_read-some (err e) next h = cc

module _ (equal : Snapshot → Snapshot → Bool)
    (equal-eq_true : (s t : Snapshot) → equal s t ≡ true → s ≡ t) where
  last-Shows :
      (db : Db) (s : Snapshot) (o : Option Snapshot)
      → Shows db s
      → (u : Snapshot) × ((if already_sent equal s o then o else some s) ≡ some u) × Shows db u
  last-Shows db s none shows = (s, refl, shows)
  last-Shows db s (some t) shows = elim (Bool-cases (equal s t)) [
    | inl e ↦ (t, rw e refl, subst (Shows db) (equal-eq_true s t e) shows)
    | inr e ↦ (s, rw e refl, shows)
  ]

  pub advance_from-Kept :
      (phase : Phase) (db : Db) (now : ℕ) (x : Stream) {y : Stream}
      → (x.woken ≡ true) ⊎ CurrentIn phase db x
      → advance_from equal phase db now x ≡ some y
      → Kept db y
  unfolding send_snapshot
  advance_from-Kept started db now x kept h =
      let (l, e, same) = with_read-some (grant_requests pending_requests db) _ h in
      subst (Kept db) same (inr (l, e, refl))
  advance_from-Kept (read_pending p) db now x kept h =
      let (l, e, same) = with_read-some (grant_requests decided_requests db) _ h in
      subst (Kept db) same (elim kept [ inl w ↦ inl w | inr before ↦ inr (before, (l, e, refl)) ])
  advance_from-Kept (read_decided p d) db now x kept h =
      let (l, e, same) = with_read-some (active_grants [] now db) _ h in
      subst (Kept db) same (elim kept [
        | inl w ↦ inl w
        | inr ((pending, read, shown), (decided, read', shown')) ↦ inr (
            last-Shows db _ x.last (record {
              pending = pending;
              decided = decided;
              now = now;
              active = l;
              pending_read = read;
              decided_read = read';
              active_read = e;
              pending_shown = shown;
              decided_shown = shown';
              active_shown = refl;
            }))
      ])
  advance_from-Kept waiting db now x kept h = elim (Bool-cases x.woken) [
    | inl e ↦ subst (Kept db) (some_inj (rw e at h)) (inr tt)
    | inr e ↦ cc (rw e at h)
  ]

  moves-Kept :
      (db : Db) (now : ℕ) {xs ys : List Stream}
      → Moves equal db now xs ys
      → All (Kept db) xs
      → All (Kept db) ys
  unfolding advance
  moves-Kept db now (moved {x = x} e) (kept, rest) =
      (advance_from-Kept x.phase db now x kept e, rest)
  moves-Kept db now ended (kept, rest) = rest
  moves-Kept db now (later m) (kept, rest) = (kept, moves-Kept db now m rest)

publish_event-Kept : (db : Db) (xs : List Stream) → All (Kept db) (publish_event xs)
unfolding publish_event
publish_event-Kept db [] = tt
publish_event-Kept db (x ∷ xs) = (inl refl, publish_event-Kept db xs)

module _ (equal : Snapshot → Snapshot → Bool)
    (equal-eq_true : (s t : Snapshot) → equal s t ≡ true → s ≡ t) where
  Step-Invariant : {h g : Hub} → Step equal h g → Invariant h → Invariant g
  Step-Invariant {h} (committed db e) i = subst Invariant (sym e) (inl (h.due, refl))
  Step-Invariant {h} (notified n e q) i =
      subst Invariant (sym q) (inr (publish_event-Kept h.db h.streams))
  Step-Invariant (opened q) i =
      subst Invariant (sym q) (elim i [ inl due ↦ inl due | inr kept ↦ inr (inr tt, kept) ])
  Step-Invariant {h} (turned now streams m q) i = subst Invariant (sym q) (elim i [
    | inl due ↦ inl due
    | inr kept ↦ inr (moves-Kept equal equal-eq_true h.db now m kept)
  ])

  pub Reachable-Invariant : {h : Hub} → Reachable equal h → Invariant h
  Reachable-Invariant (booted db) = inr tt
  Reachable-Invariant (stepped r s) = Step-Invariant s (Reachable-Invariant r)
