-- ===== src/Spiderweb/Hops.antt =====
-- qnm/spiderweb.py, `_walk`: what a hop and a delivery need, and that a walk ends.
use qnm_node.Base.{
  ℕ, suc, ◌≤◌, ◌<◌, ◌≡◌, refl, sym, ap, ◌∙◌, ◌≢◌, inl, inr, Bool, true, false, not, none, some,
  List, arith, ◌==◌, list_eq, nat_eq, list_beq_iff, Text, Option-cases, codes, length, Result, ok,
  refuse, Code, Act, if◌then◌else◌, get, put, contains,
}
use qnm_node.Base.{no_edges, look, >>=-eq-ok, lower, or_else, ◌>>>◌, continue}
use qnm_node.Bearers.{is_on}
use qnm_node.Node.{Node}
use qnm_node.Apg.{admit}
use qnm_node.Spiderweb.{
  inner_or, refuse_physics, Web, Frame, Python, alive, path_roots, any_enabled_bearer, limit,
  second, Drop, Step, deliver, drop, wait, hop, choose_hop, choose, decide,
}
use qnm_node.Spiderweb.Walks.{
  delivered, dropped, at_node, queue_path_wait, next_frame, deliver_receipt, hop_receipt, walk,
}

module _ (py : Python) where
  -- What a hop needs: the next node is the second of a way to the destination, it is new to the
  -- frame, attached, alive and can carry the frame, and hops are left.
  pub record IsHop (w : Web) (me : Text) (node : Node) (frame : Frame) (nxt via : Text)
      : Type 0 where
    pub living : alive node ≡ true
    pub below : frame.hops < limit frame
    pub new : contains frame.seen nxt ≡ false
    pub path : List Text
    pub found : path_roots py.arrange w me (lower frame.dest) ≡ some path
    pub long : 2 ≤ length path
    pub is_second : second path ≡ nxt
    pub sent : is_on node.bearers via ≡ true
    pub peer : Node
    pub there : get w nxt ≡ some peer
    pub peer_living : alive peer ≡ true

  choose_hop-hop :
      (w : Web) (node : Node) (frame : Frame) (via nxt nxt' via' pair_id : Text)
      → choose_hop py w node frame via nxt ≡ ok (hop nxt' via' pair_id)
      → (nxt ≡ nxt')
        × (via ≡ via')
        × (contains frame.seen nxt ≡ false)
        × (peer : Node) × (get w nxt ≡ some peer)
        × (alive peer ≡ true)
  unfolding choose_hop
  choose_hop-hop w node frame via nxt nxt' via' pair_id e = elim (Option-cases (get w nxt)) [
    | inl gone ↦ absurd (ground arith)
    | inr (peer, there) ↦ (ground arith, ground arith, ground arith, peer, there, ground arith)
  ]

  choose_hop-deliver :
      (w : Web) (node : Node) (frame : Frame) (via nxt : Text)
      → choose_hop py w node frame via nxt ≢ ok deliver
  unfolding choose_hop
  choose_hop-deliver w node frame via nxt e = elim (Option-cases (get w nxt)) [
    | inl gone ↦ absurd (ground arith)
    | inr (peer, there) ↦ absurd (ground arith)
  ]

  choose-deliver :
      (w : Web) (me : Text) (node : Node) (frame : Frame) → choose py w me node frame ≢ ok deliver
  unfolding choose
  choose-deliver w me node frame e =
      elim (Option-cases (path_roots py.arrange w me (lower frame.dest))) [
        | inl gone ↦ absurd (ground arith)
        | inr (path, there) ↦ absurd (
            ground (
              arith,
              choose_hop-deliver w node frame (or_else frame.via (any_enabled_bearer node))
                  (second path),
            ))
      ]

  passed_guard :
      (c : Bool) (code : Code) (x : Result Step) (s : Step)
      → (if not c then refuse code else x) ≡ ok s
      → (c ≡ true) × (x ≡ ok s)
  passed_guard true code x s e = (refl, e)
  passed_guard false code x s e = absurd (ground arith)

  decide-ok :
      (w : Web) (me : Text) (node : Node) (frame : Frame) (s : Step)
      → decide py w me node frame ≡ ok s
      → (alive node ≡ true)
        × ((if me == lower frame.dest then ok deliver else choose py w me node frame) ≡ ok s)
  unfolding decide
  decide-ok w me node frame s e =
      let g = passed_guard (alive node) _ _ s e in
      let a = >>=-eq-ok (admit py.loads (py.dumps_frame frame)) _ s g.1 in
      let r =
        >>=-eq-ok (refuse_physics (inner_or a.0 (look a.0 (codes "payload"))))
          (λ _. if me == lower frame.dest then ok deliver else choose py w me node frame) s a.2 in
      (g.0, r.2)

  pub decide-deliver :
      (w : Web) (me : Text) (node : Node) (frame : Frame)
      → decide py w me node frame ≡ ok deliver
      → me ≡ lower frame.dest
  decide-deliver w me node frame e = ground (
    arith,
    decide-ok w me node frame deliver e,
    choose-deliver w me node frame,
    list_beq_iff me (lower frame.dest),
  )

  make-IsHop :
      (w : Web) (me : Text) (node : Node) (frame : Frame) (via' : Text) (path : List Text)
      (nxt via pair_id : Text)
      → alive node ≡ true
      → frame.hops < limit frame
      → path_roots py.arrange w me (lower frame.dest) ≡ some path
      → 2 ≤ length path
      → is_on node.bearers via' ≡ true
      → choose_hop py w node frame via' (second path) ≡ ok (hop nxt via pair_id)
      → IsHop w me node frame nxt via
  make-IsHop w me node frame via' path nxt via pair_id living below there long sent e =
      let (same_next, same_via, new, peer, attached, peer_living) =
        choose_hop-hop w node frame via' (second path) nxt via pair_id e in
      record {
        living = living;
        below = below;
        new = ground (arith, ap (contains frame.seen) same_next);
        path = path;
        found = there;
        long = long;
        is_second = same_next;
        sent = ground (arith, ap (is_on node.bearers) same_via);
        peer = peer;
        there = sym (ap (get w) same_next) ∙ attached;
        peer_living = peer_living;
      }

  choose-hop :
      (w : Web) (me : Text) (node : Node) (frame : Frame) (nxt via pair_id : Text)
      → alive node ≡ true
      → choose py w me node frame ≡ ok (hop nxt via pair_id)
      → IsHop w me node frame nxt via
  unfolding choose
  choose-hop w me node frame nxt via pair_id living e =
      elim (Option-cases (path_roots py.arrange w me (lower frame.dest))) [
        | inl gone ↦ absurd (ground arith)
        | inr (path, there) ↦
            let via' = or_else frame.via (any_enabled_bearer node) in
            make-IsHop w me node frame via' path nxt via pair_id living (ground arith) there
              (ground arith) (ground arith) (ground arith)
      ]

  pub decide-hop :
      (w : Web) (me : Text) (node : Node) (frame : Frame) (nxt via pair_id : Text)
      → decide py w me node frame ≡ ok (hop nxt via pair_id)
      → IsHop w me node frame nxt via
  decide-hop w me node frame nxt via pair_id e =
      let (living, f) = decide-ok w me node frame (hop nxt via pair_id) e in
      choose-hop w me node frame nxt via pair_id living (ground arith)

  at_node-get :
      {A : Type 0} (w : Web) (k : Text) (n : Node) (act : Act Node A)
      → get w k ≡ some n
      → at_node k act w ≡ ((act n).0, put w k (act n).1)
  at_node-get w k n act there = rw (at_node, there) refl

  pub walk-hop :
      (fuel : ℕ) (me : Text) (frame : Frame) (w : Web) (node : Node) (nxt via pair_id : Text)
      → get w me ≡ some node
      → decide py w me node frame ≡ ok (hop nxt via pair_id)
      → walk py (suc fuel) me frame w
        ≡ continue
            (λ _. walk py fuel nxt (next_frame py frame nxt via pair_id))
            (
              (hop_receipt py frame nxt via pair_id node).0,
              put w me (hop_receipt py frame nxt via pair_id node).1,
            )
  unfolding walk ◌>>>◌
  walk-hop fuel me frame w node nxt via pair_id there e =
      rw (walk, there, e, ◌>>>◌, at_node-get w me node (hop_receipt py frame nxt via pair_id) there)
        refl

  pub walk-refuse :
      (fuel : ℕ) (me : Text) (frame : Frame) (w : Web) (node : Node) (code : Code)
      → get w me ≡ some node
      → decide py w me node frame ≡ refuse code
      → walk py (suc fuel) me frame w ≡ (refuse code, w)
  unfolding walk
  walk-refuse fuel me frame w node code there e = rw (walk, there, e) refl

  pub walk-deliver :
      (fuel : ℕ) (me : Text) (frame : Frame) (w : Web) (node : Node)
      → get w me ≡ some node
      → decide py w me node frame ≡ ok deliver
      → walk py (suc fuel) me frame w
        ≡ continue
            (λ _ after. (ok (delivered me frame), after))
            ((deliver_receipt py frame node).0, put w me (deliver_receipt py frame node).1)
  unfolding walk ◌>>>◌
  walk-deliver fuel me frame w node there e =
      rw (walk, there, e, ◌>>>◌, at_node-get w me node (deliver_receipt py frame) there) refl

  pub walk-drop :
      (fuel : ℕ) (me : Text) (frame : Frame) (w : Web) (node : Node) (why : Drop)
      → get w me ≡ some node
      → decide py w me node frame ≡ ok (drop why)
      → walk py (suc fuel) me frame w ≡ (ok (dropped why frame.hops), w)
  unfolding walk
  walk-drop fuel me frame w node why there e = rw (walk, there, e) refl

  pub walk-wait :
      (fuel : ℕ) (me : Text) (frame : Frame) (w : Web) (node : Node) (via : Text)
      → get w me ≡ some node
      → decide py w me node frame ≡ ok (wait via)
      → walk py (suc fuel) me frame w
        ≡ ((queue_path_wait py frame via node).0, put w me (queue_path_wait py frame via node).1)
  unfolding walk
  walk-wait fuel me frame w node via there e =
      rw (walk, there, e, at_node-get w me node (queue_path_wait py frame via) there) refl

  pub walk-gone :
      (fuel : ℕ) (me : Text) (frame : Frame) (w : Web)
      → get w me ≡ none
      → walk py (suc fuel) me frame w ≡ (refuse no_edges, w)
  unfolding walk
  walk-gone fuel me frame w gone = rw (walk, gone) refl
