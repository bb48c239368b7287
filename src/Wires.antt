-- ===== src/Wires.antt =====
-- qnm/wires.py: the split-the-wires engine. Times are microseconds since the epoch; what
-- `strftime` writes and `_parse_utc` reads back is the whole second. A set of tips is a list that
-- `add` keeps free of doubles. `PeerView.last_packet` is never written by the program and is left
-- out. The tick codec is in `Wires.Tick`.
pub mod Tick
pub mod Frames
pub mod Dwell
pub mod Peers
pub mod Payloads
use qnm_node.Base.{
  ℕ, zero, suc, ◌+◌, ◌-◌, ◌*◌, ◌/◌, ◌%◌, ◌^◌, ◌>>=◌, ◌>>◌, refuse_if, ◌≤◌, ◌<◌, ◌≡◌, refl, sym, ap,
  ◌∙◌, ◌≢◌, ◌↔◌, ◌⊎◌, inl, inr, Bool, true, false, ◌&&◌, ◌||◌, not, Option, none, some, List, [],
  ◌∷◌, ◌++◌, map, arith, ltb, leb, nat_beq, nat_beq_iff, ◌==◌, Eq, list_eq, nat_eq, list_beq,
  list_beq_iff, list_beq_refl, beq_refl, beq-false, Text, Bool-cases, Option-cases, codes, length,
  length-append, Result, ok, refuse, Code, is_ok, Act, is_empty, if◌then◌else◌, Dict, get, put,
  get-put, get-put_self, is_some, contains, add, contains-add, contains-append, any, all, keep,
  find,
}
use qnm_node.Base.{
  strip, or_else, wires_fail_closed, two_clocks, pull_only, clock_desync, dwell_cite, equivocation,
  hash_absolute, emit_last, no_unsend, no_splice, rejoin_cite, heartbeat, phoenix_local_wait,
}
use qnm_node.Digest.{Hash, canonical_hash}

abbrev pub dwell_s : ℕ
dwell_s = 777

abbrev pub second : ℕ
second = 1_000_000

abbrev pub zero_hash : Text
zero_hash = codes "0000000000000000000000000000000000000000000000000000000000000000"

pub record Cite : Type 0 where
  pub prev : Text
  pub tip : Text
  pub peer : Text
  pub utc : ℕ
  pub applied : Bool

pub data Status : Type 0 where
  live isolated locked : Status

pub record PeerView : Type 0 where
  pub prev : Option Text
  pub tips : List Text
  pub status : Status
  pub misses : ℕ
  pub suspect : Bool

pub record Island : Type 0 where
  pub tip : Text
  pub spliced : Bool

-- A tick that was emitted: its presence, its tip and its frame.
pub record Emitted : Type 0 where
  pub presence : Text
  pub tip_hash : Text
  pub tick : List ℕ

pub record Wires : Type 0 where
  pub held_prev : Text
  pub lockset : List Text
  pub pending : Option Cite
  pub peers : Dict Text PeerView
  pub islands : Dict Text Island
  pub payloads : Dict Text (List ℕ)
  pub emitted : List Emitted
  pub verified_local : Bool
  pub chain_ok : Bool

-- `Wires()`
unfoldable pub initial : Wires
initial = record {
  held_prev = zero_hash;
  lockset = zero_hash ∷ [];
  pending = none;
  peers = [];
  islands = [];
  payloads = [];
  emitted = [];
  verified_local = false;
  chain_ok = true;
}

-- `Lockset.holds(digest)`
unfoldable pub holds : List Text → Text → Result Bool
holds hashes digest = do d ← canonical_hash digest; ok (contains hashes d)

-- `Lockset.with_hash(digest)`
unfoldable pub with_hash : List Text → Text → Result (List Text)
with_hash hashes digest = do d ← canonical_hash digest; ok (add hashes d)

-- `Lockset.from_iterable(items)`
unfoldable pub from_iterable : List Text → Result (List Text)
from_iterable [] = ok []
from_iterable (item ∷ items) = do
  d ← canonical_hash item
  rest ← from_iterable items
  ok (add rest d)

abbrev holds_or : List Text → Text → Bool
holds_or hashes d = elim (holds hashes d) [ ok b ↦ b | refuse _ ↦ false ]

-- The checks of `cite`, in order: the canonical prev and tip, and the lockset that is to be held.
unfoldable pub check_cite :
    Wires → Text → Text → Option (List Text) → Bool → Result (Text × Text × List Text)
check_cite w prev tip lockset by_clock = do
  refuse_if by_clock clock_desync
  cited_prev ← canonical_hash prev
  new_tip ← canonical_hash tip
  let held : List Text = elim lockset [ none ↦ w.lockset | some hashes ↦ hashes ]
  refuse_if (not (cited_prev == w.held_prev)) wires_fail_closed
  held_there ← holds held cited_prev
  refuse_if (not held_there) wires_fail_closed
  refuse_if (new_tip == cited_prev) wires_fail_closed
  ok (cited_prev, new_tip, held)

-- `cite(prev, tip, peer, lockset, now, authorize_by_clock)`
unfoldable pub cite : Text → Text → Text → Option (List Text) → ℕ → Bool → Act Wires Cite
cite prev tip peer lockset now by_clock w = elim (check_cite w prev tip lockset by_clock) [
  | refuse code ↦ (refuse code, w)
  | ok (cited_prev, new_tip, held) ↦
      let c : Cite = record {
        prev = cited_prev;
        tip = new_tip;
        peer = peer;
        utc = now / second;
        applied = false;
      } in
      (ok c, record w { lockset = held; pending = some c })
]

-- `rejoin(prev, tip, operator, lockset, now, peer)`
unfoldable pub rejoin : Text → Text → Bool → Option (List Text) → ℕ → Text → Act Wires Cite
rejoin prev tip operator lockset now peer w =
    if not operator && not (is_some lockset)
    then (refuse rejoin_cite, w)
    else cite prev tip peer lockset now false w

abbrev arrival : Option Text → Text → Result (Unit {0})
arrival none tip = ok tt
arrival (some arrived) tip = do d ← canonical_hash arrived; refuse_if (not (d == tip)) dwell_cite

-- The last part of `apply_cited`, when the dwell is over.
unfoldable pub take_cited : Cite → Act Wires Bool
take_cited c w = elim (with_hash w.lockset c.tip) [
  | refuse code ↦ (refuse code, record w { held_prev = c.tip })
  | ok hashes ↦ (
    ok true,
    record w { held_prev = c.tip; lockset = hashes; pending = some (record c { applied = true }) },
  )
]

-- `apply_cited(now, arrived_tip)`: whether the cited tip was applied. The elapsed time
-- `now - utc` may be negative; the test is written without the subtraction.
unfoldable pub apply_cited : ℕ → Option Text → Act Wires Bool
unfolding take_cited
apply_cited now arrived w = elim w.pending [
  | none ↦ (refuse wires_fail_closed, w)
  | some c ↦ elim (arrival arrived c.tip) [
    | refuse code ↦ (refuse code, w)
    | ok _ ↦ if ltb now (c.utc * second + dwell_s * second) then (ok false, w) else take_cited c w
  ]
]

-- The name under which `_peer` keeps a view.
unfoldable pub peer_name : Text → Text
peer_name peer = if is_empty (strip peer) then codes "peer" else strip peer

abbrev pub new_view : PeerView
new_view = record { prev = none; tips = []; status = live; misses = 0; suspect = false }

-- `self._peer(peer)`: the view that is kept, or a new one
unfoldable pub view_of : Wires → Text → PeerView
view_of w peer = elim (get w.peers (peer_name peer)) [ some view ↦ view | none ↦ new_view ]

-- The state once a view is written; `_peer` also adds a missing one.
unfoldable pub with_view : Wires → Text → PeerView → Wires
with_view w peer view = record w { peers = put w.peers (peer_name peer) view }

abbrev pub is_ended : Status → Bool
is_ended live = false
is_ended isolated = true
is_ended locked = true

abbrev pub is_prev : Option Text → Text → Bool
is_prev none d = false
is_prev (some p) d = p == d

abbrev pub no_tips : List Text → Bool
no_tips [] = true
no_tips (t ∷ ts) = false

-- `note_peer_tip(peer, prev, tip)`: the status that it reports. A peer that has ended is refused.
unfoldable pub note_peer_tip : Text → Text → Text → Act Wires Status
note_peer_tip peer prev tip w = elim (canonical_hash prev) [
  | refuse code ↦ (refuse code, w)
  | ok cited_prev ↦ elim (canonical_hash tip) [
    | refuse code ↦ (refuse code, w)
    | ok new_tip ↦
        let view : PeerView = view_of w peer in
        if is_ended view.status
        then (refuse equivocation, with_view w peer view)
        else if is_prev view.prev cited_prev
            && not (no_tips view.tips)
            && not (contains view.tips new_tip)
        then (
          ok locked,
          with_view w peer (record view { status = locked; tips = add view.tips new_tip }),
        )
        else (
          ok view.status,
          with_view w peer (record view { prev = some cited_prev; tips = add view.tips new_tip }),
        )
  ]
]

-- `isolate_ambiguous(peer, tips)`: how many tips compete
unfoldable pub isolate_ambiguous : Text → List Text → Act Wires ℕ
isolate_ambiguous peer tips w = elim (from_iterable tips) [
  | refuse code ↦ (refuse code, w)
  | ok unique ↦
      if ltb (length unique) 2
      then (refuse wires_fail_closed, w)
      else (ok (length unique), with_view w peer (record (view_of w peer) { status = isolated }))
]

-- `heartbeat_miss(peer)`
unfoldable pub heartbeat_miss : Text → Act Wires PeerView
heartbeat_miss peer w =
    let view : PeerView = view_of w peer in
    let missed : PeerView = record view {
      misses = view.misses + 1;
      suspect = leb 3 (view.misses + 1) || view.suspect;
    } in
    (ok missed, with_view w peer missed)

-- `apply_last_on_heartbeat_loss(peer)`
unfoldable pub apply_last_on_heartbeat_loss : Text → Act Wires Unit
apply_last_on_heartbeat_loss peer w = (refuse heartbeat, with_view w peer (view_of w peer))

-- `quorum_cannot_outvote(digest, votes, broken)`
unfoldable pub quorum_cannot_outvote : Text → ℕ → Bool → Result (Unit {0})
quorum_cannot_outvote digest votes broken = do
  refuse_if broken hash_absolute
  _ ← canonical_hash digest
  ok tt

-- `mark_verified(chain_ok)`
unfoldable pub mark_verified : Bool → Wires → Wires
mark_verified fine w = record w { chain_ok = fine; verified_local = fine }

-- `keep_island(island_id, tip)`
unfoldable pub keep_island : Text → Text → Act Wires Island
keep_island name tip w = elim (canonical_hash tip) [
  | refuse code ↦ (refuse code, w)
  | ok d ↦
      let isle : Island = record { tip = d; spliced = false } in
      (ok isle, record w { islands = put w.islands name isle })
]

-- `splice`, `unsend`, `push_payload` and `neighbor_phoenix`: whatever is passed, they refuse.
unfoldable pub splice : Act Wires Unit
splice w = (refuse no_splice, w)

unfoldable pub unsend : Act Wires Unit
unsend w = (refuse no_unsend, w)

unfoldable pub push_payload : Act Wires Unit
push_payload w = (refuse pull_only, w)

unfoldable pub neighbor_phoenix : Act Wires Unit
neighbor_phoenix w = (refuse phoenix_local_wait, w)

-- `store_for_pull(body, digest)`
unfoldable pub store_for_pull : Hash → List ℕ → Option Text → Act Wires Text
store_for_pull h body digest w =
    let given : Text = elim digest [
      | none ↦ h.sha256_hex body
      | some d ↦ or_else d (h.sha256_hex body)
    ] in
    elim (canonical_hash given) [
      | refuse code ↦ (refuse code, w)
      | ok tip ↦
          if is_some digest && not (h.sha256_hex body == tip)
          then (refuse wires_fail_closed, w)
          else (ok tip, record w { payloads = put w.payloads tip body })
    ]

-- `pull_payload(digest)`: the tip and how many bytes are behind it
unfoldable pub pull_payload : Hash → Text → Wires → Result (Text × ℕ)
pull_payload h digest w = do
  tip ← canonical_hash digest
  elim (get w.payloads tip) [
    | none ↦ refuse pull_only
    | some body ↦
        if h.sha256_hex body == tip then ok (tip, length body) else refuse wires_fail_closed
  ]

-- `wires_from_disk(root)`, given the row of `wires.json` if the file is there
unfoldable pub wires_from_disk : Option (Text × List Text) → Result Wires
wires_from_disk none = ok initial
wires_from_disk (some (held_prev, lockset)) = do
  let held : Text = or_else held_prev initial.held_prev
  hashes ← from_iterable (if no_tips lockset then held ∷ [] else lockset)
  ok (record initial { held_prev = held; lockset = hashes })
