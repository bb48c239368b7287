-- ===== src/Spiderweb.antt =====
-- qnm/spiderweb.py: a frame goes from node to node along living pair edges. A node is held under the
-- key under which it was attached, and an object is passed as its JSON text. The clock, JSON and the
-- order in which Python walks a set are parameters; a node that is attached has an install root.
pub mod Paths
pub mod Walks
pub mod Ends
pub mod Ways
pub mod Universe
pub mod Routes
pub mod Hops
pub mod Arrives
pub mod Carried
use qnm_node.Base.{
  ℕ, zero, suc, ◌+◌, ◌-◌, ◌*◌, ◌/◌, ◌%◌, ◌^◌, ◌>>=◌, ◌>>◌, refuse_if, ◌≤◌, ◌<◌, ◌≡◌, refl, sym, ap,
  ◌∙◌, ◌≢◌, ◌↔◌, ◌⊎◌, inl, inr, Bool, true, false, ◌&&◌, ◌||◌, not, Option, none, some, List, [],
  ◌∷◌, ◌++◌, map, arith, ltb, leb, nat_beq, nat_beq_iff, ◌==◌, Eq, list_eq, nat_eq, list_beq,
  list_beq_iff, list_beq_refl, beq_refl, beq-false, Text, Bool-cases, Option-cases, Result-cases,
  codes, length, length-append, Result, ok, refuse, Code, is_ok, Act, is_empty, if◌then◌else◌, Dict,
  get, put, get-put, get-put_self, is_some, contains, add, contains-add, contains-append, any, all,
  keep, find,
}
use qnm_node.Base.{
  lower, or_else, no_edges, not_bell, handshake, Json, flag, string, object, Fields, look, continue,
}
use qnm_node.Digest.{Hash}
use qnm_node.Chain.{Core}
use qnm_node.Bearers.{is_on, local_on}
use qnm_node.Pairs.{Pairs, Bind, peers, has_edge}
use qnm_node.Outbox
use qnm_node.Node.{
  State, at_cold, at_isolated, at_phoenix_lock, at_scorched, is_state, Body, deliver_body, hop_body,
  wait_body, Node, on_outbox, write_receipt, root_of, no_root,
}
use qnm_node.Apg.{admit}
use qnm_node.Spiderweb.Paths.{Search, found, nowhere, out_of_fuel, search}
use qnm_node.Base.{◌>>>◌}

abbrev pub Web : Type 0
Web = Dict Text Node

pub record Frame : Type 0 where
  pub src : Text
  pub dest : Text
  pub via : Text
  pub hops : ℕ
  pub hop_max : ℕ
  pub seen : List Text
  pub payload : Fields
  pub frame_id : Text
  pub pair_path : List Text

-- What the clock shows while a node handles a frame: at the receipt, and twice at the outbox.
pub record Readings : Type 0 where
  pub utc : Text
  pub now : Text
  pub now' : Text

-- JSON (`loads`, and `dumps` of the four things that are dumped), the order of a set, the hash of
-- receipts and ids, and the clock at each count of hops.
pub record Python : Type 0 where
  pub loads : Text → Option Json
  pub dumps_core : Text → Text → Fields → Text → Text
  pub dumps_frame : Frame → Text
  pub dumps_wait : Frame → Text → Text
  pub canonical : Core Body → Text
  pub arrange : List Text → List Text
  pub hash : Hash
  pub clock : ℕ → Readings

abbrev pub hop_max_default : ℕ
hop_max_default = 8

-- `state in _NO_EDGES`
unfoldable pub has_no_edges : State → Bool
has_no_edges s =
    is_state s at_cold
    || is_state s at_isolated
    || is_state s at_phoenix_lock
    || is_state s at_scorched

-- `_alive(node)`
unfoldable pub alive : Node → Bool
unfolding has_no_edges
alive n = not (has_no_edges n.state)

-- `attach(node)`
unfoldable pub attach : Node → Act Web Unit
attach n w =
    if no_root n.install_root then (refuse handshake, w) else (ok tt, put w (lower (root_of n)) n)

-- What the node under `k` offers to the search: its peers, if it is attached and alive.
unfoldable pub offers : (List Text → List Text) → Web → Text → Option (List Text)
offers arrange w k = elim (get w k) [
  | none ↦ none
  | some n ↦ if alive n then some (arrange (peers n.pairs)) else none
]

-- The peers of all nodes; the search cannot see more than these.
unfoldable pub universe : Web → List Text
universe [] = []
universe ((k, n) ∷ w) = map lower (peers n.pairs) ++ universe w

abbrev pub way_of : Search → Option (List Text)
way_of (found path) = some path
way_of nowhere = none
way_of out_of_fuel = none

-- `path_roots(src, dest)`
unfoldable pub path_roots : (List Text → List Text) → Web → Text → Text → Option (List Text)
unfolding offers universe
path_roots arrange w src dest =
    if lower src == lower dest then some (lower src ∷ []) else elim (offers arrange w (lower src)) [
      | none ↦ none
      | some peers ↦ way_of (
          search (offers arrange w) (lower dest) (1 + length (universe w)) ((lower src ∷ []) ∷ [])
            (lower src ∷ []))
    ]

abbrev is_true : Option Json → Bool
is_true (some (flag true)) = true
is_true other = false

abbrev is_text : Text → Option Json → Bool
is_text t (some (string s)) = s == t
is_text t other = false

-- `_refuse_physics(payload)`
unfoldable pub refuse_physics : Fields → Result (Unit {0})
refuse_physics payload =
    let op = look payload (codes "op") in
    refuse_if (is_true (look payload (codes "bell_pair")) || is_true (look payload (codes "qubit")))
      not_bell
    >> refuse_if
        (is_text (codes "bell_pair") op
          || is_text (codes "qubit") op
          || is_text (codes "entangle") op)
        not_bell

abbrev pub inner_or : Fields → Option Json → Fields
inner_or all_of (some (object inner)) = inner
inner_or all_of other = all_of

-- `_any_enabled_bearer(node)`
unfoldable pub any_enabled_bearer : Node → Text
any_enabled_bearer n =
    if is_on n.bearers (codes "lan")
    then codes "lan"
    else if is_on n.bearers (codes "operator")
    then codes "operator"
    else codes "local"

-- `int(frame.get("hop_max") or HOP_MAX_DEFAULT)`
unfoldable pub limit : Frame → ℕ
limit frame = if nat_beq frame.hop_max 0 then hop_max_default else frame.hop_max

-- `path[1]`
abbrev pub second : List Text → Text
second [] = []
second (k ∷ []) = []
second (k ∷ j ∷ path) = j

abbrev id_or : Option Bind → Text
id_or none = []
id_or (some b) = b.pair_id

-- Why a frame is dropped, and what `_walk` does with one that is in order.
pub data Drop : Type 0 where
  hop_max_reached loop_seen : Drop

pub data Step : Type 0 where
  deliver : Step
  drop : Drop → Step
  wait : Text → Step
  hop : Text → Text → Text → Step

module _ (py : Python) where
  -- What `_walk` does with a frame whose next hop is known.
  unfoldable pub choose_hop : Web → Node → Frame → Text → Text → Result Step
  unfolding alive
  choose_hop w node frame via nxt =
      if contains frame.seen nxt then ok (drop loop_seen) else elim (get w nxt) [
        | none ↦ ok (wait via)
        | some peer ↦
            if not (has_edge node.pairs nxt)
            then refuse no_edges
            else if not (alive peer)
            then refuse no_edges
            else if not (is_on peer.bearers via) && not (via == local_on)
            then ok (wait via)
            else ok (hop nxt via (id_or (find (λ b. lower b.peer == nxt) node.pairs.memorial)))
      ]

  -- The choice of the next hop of a frame that is not at its end.
  unfoldable pub choose : Web → Text → Node → Frame → Result Step
  unfolding path_roots choose_hop limit any_enabled_bearer
  choose w me node frame =
      let via = or_else frame.via (any_enabled_bearer node) in
      if leb (limit frame) frame.hops
      then ok (drop hop_max_reached)
      else if is_empty via || not (is_on node.bearers via)
      then ok (wait (or_else via (codes "none")))
      else elim (path_roots py.arrange w me (lower frame.dest)) [
        | none ↦ ok (wait via)
        | some path ↦
            if ltb (length path) 2 then ok (wait via) else choose_hop w node frame via (second path)
      ]

  -- `_walk` up to its first write
  unfoldable pub decide : Web → Text → Node → Frame → Result Step
  unfolding choose refuse_physics alive
  decide w me node frame =
      if not (alive node)
      then refuse no_edges
      else admit py.loads (py.dumps_frame frame) >>= λ admitted.
          refuse_physics (inner_or admitted (look admitted (codes "payload")))
          >> (if me == lower frame.dest then ok deliver else choose w me node frame)
