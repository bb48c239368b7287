-- ===== src/Spiderweb/Walks.antt =====
-- qnm/spiderweb.py and `_queue_path_wait` of qnm/node.py: the walk of a frame with its receipts and waits.
use qnm_node.Base.{
  ℕ, zero, suc, ◌+◌, ◌>>=◌, ◌>>◌, false, none, some, List, [], ◌∷◌, ◌++◌, ltb, ◌==◌, list_eq,
  nat_eq, Text, codes, Result, ok, refuse, Act, if◌then◌else◌, get, put, contains,
}
use qnm_node.Base.{lower, no_edges, Fields}
use qnm_node.Outbox
use qnm_node.Node.{deliver_body, hop_body, wait_body, Node, on_outbox, write_receipt}
use qnm_node.Apg.{admit}
use qnm_node.Base.{◌>>>◌}
use qnm_node.Spiderweb.{
  Web, Frame, Python, limit, Drop, loop_seen, deliver, drop, wait, hop, decide, refuse_physics,
}

-- How the walk of a frame ends.
pub data End : Type 0 where
  delivered : Text → Frame → End
  dropped : Drop → ℕ → End
  waits : Text → Text → End
  out_of_hops : End

-- An act of the node under a key.
abbrev pub at_node : {A : Type 0} → Text → Act Node A → Act Web A
at_node k act w = elim (get w k) [
  | none ↦ (refuse no_edges, w)
  | some n ↦ let (result, after) = act n in (result, put w k after)
]

module _ (py : Python) where
  -- `_queue_path_wait(frame, via)`
  unfoldable pub queue_path_wait : Frame → Text → Act Node End
  queue_path_wait frame via =
      let t = py.clock frame.hops in
      on_outbox (
        Outbox.queue py.hash (codes "spiderweb-frame")
          (record { publish = false; json = py.dumps_wait frame via }) t.now t.now')
      >>> λ item.
          write_receipt py.hash py.canonical t.utc (codes "spiderweb_wait") (wait_body item.id via)
          >>> λ _ n. (ok (waits item.id via), n)

  -- The frame for the next node.
  unfoldable pub next_frame : Frame → Text → Text → Text → Frame
  next_frame frame nxt via pair_id = record frame {
    hops = frame.hops + 1;
    via = via;
    seen = frame.seen ++ nxt ∷ [];
    pair_path = frame.pair_path ++ pair_id ∷ [];
  }

  -- `current._write_receipt("spiderweb_deliver", ...)` and `("spiderweb_hop", ...)`
  unfoldable pub deliver_receipt : Frame → Act Node Unit
  deliver_receipt frame =
      write_receipt py.hash py.canonical (py.clock frame.hops).utc (codes "spiderweb_deliver")
        (deliver_body frame.frame_id frame.hops)

  unfoldable pub hop_receipt : Frame → Text → Text → Text → Act Node Unit
  hop_receipt frame nxt via pair_id =
      write_receipt py.hash py.canonical (py.clock frame.hops).utc (codes "spiderweb_hop")
        (hop_body nxt via (frame.hops + 1) pair_id)

  -- `_walk(current, frame)`, with the node under the key `me`, one call for each unit of fuel
  unfoldable pub walk : ℕ → Text → Frame → Act Web End
  unfolding decide next_frame deliver_receipt hop_receipt queue_path_wait
  walk zero me frame w = (ok out_of_hops, w)
  walk (suc fuel) me frame w = elim (get w me) [
    | none ↦ (refuse no_edges, w)
    | some node ↦ elim (decide py w me node frame) [
      | refuse code ↦ (refuse code, w)
      | ok deliver ↦
          (at_node me (deliver_receipt frame) >>> λ _ after. (ok (delivered me frame), after)) w
      | ok (drop why) ↦ (ok (dropped why frame.hops), w)
      | ok (wait via) ↦ at_node me (queue_path_wait frame via) w
      | ok (hop nxt via pair_id) ↦
          (at_node me (hop_receipt frame nxt via pair_id) >>> λ _.
          walk fuel nxt (next_frame frame nxt via pair_id))
            w
    ]
  ]

  abbrev pub start_frame : Text → Text → Text → ℕ → List Text → Fields → Text → Frame
  start_frame src dest via hop_max seen payload fid = record {
    src = src;
    dest = dest;
    via = via;
    hops = 0;
    hop_max = hop_max;
    seen = seen;
    payload = payload;
    frame_id = fid;
    pair_path = [];
  }

  -- `src_k in seen_list and seen_list.count(src_k) > 1`
  unfoldable pub count : Text → List Text → ℕ
  count t [] = 0
  count t (s ∷ seen) = (if s == t then 1 else 0) + count t seen

  -- `seen_list` with the source on it
  abbrev pub with_source : Text → List Text → List Text
  with_source src seen = if contains seen src then seen else seen ++ src ∷ []

  -- The gate and the physics check of `forward`
  unfoldable pub admitted_payload : Text → Result Fields
  admitted_payload payload =
      admit py.loads payload >>= λ admitted. refuse_physics admitted >> ok admitted

  -- `forward` once its frame id is known: the checks of the list of what was seen, and the walk.
  unfoldable pub start_walk : Text → Text → List Text → Frame → Act Web End
  unfolding walk count
  start_walk src fid seen frame w =
      if contains seen fid
      then (ok (dropped loop_seen 0), w)
      else if ltb 1 (count src (seen ++ fid ∷ []))
      then (ok (dropped loop_seen 0), w)
      else walk (1 + limit frame) src frame w

  -- `forward(src, dest, payload, via, hop_max, seen, salt)` of the node that is attached under `src`
  unfoldable pub forward : Text → Text → Text → Text → ℕ → List Text → Text → Act Web End
  unfolding start_walk admitted_payload
  forward src dest payload via hop_max seen salt w = elim (admitted_payload payload) [
    | refuse code ↦ (refuse code, w)
    | ok admitted ↦
        let fid = py.hash.sha256_hex (py.dumps_core src (lower dest) admitted salt) in
        let frame =
          start_frame src (lower dest) via hop_max (with_source src (seen ++ fid ∷ [])) admitted
            fid in
        start_walk src fid seen frame w
  ]
