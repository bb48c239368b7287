-- ===== src/Spiderweb/Carried.antt =====
-- qnm/spiderweb.py, `_walk`: a frame that arrives went along living pair edges.
use qnm_node.Base.{
  ℕ, zero, suc, ◌+◌, ◌≤◌, ◌≡◌, refl, sym, ap, ◌∙◌, ◌≢◌, inl, inr, Bool, true, ◌&&◌, not, Option,
  some, List, [], ◌∷◌, ◌++◌, arith, ◌==◌, list_eq, nat_eq, list_beq_iff, Text, Bool-cases,
  Option-cases, length, Result, ok, refuse, Code, Act, get, put, get-put, contains, any,
}
use mathlib.Core.Path.{subst, fun_ext}
use mathlib.Core.List.{append-nil, append_assoc}
use qnm_node.Base.{lower, lower_idem, ◌>>>◌, continue}
use qnm_node.Pairs
use qnm_node.Outbox
use qnm_node.Node.{Node, write_receipt}
use qnm_node.Spiderweb.{Web, Frame, Python, alive, offers, limit, second, Drop, decide}
use qnm_node.Spiderweb.Walks.{
  End, delivered, dropped, queue_path_wait, next_frame, deliver_receipt, hop_receipt, walk,
}
use qnm_node.Spiderweb.Paths.{last, is_way, edge, first}
use qnm_node.Spiderweb.Universe.{IsOrder}
use qnm_node.Spiderweb.Routes.{path_roots-IsFound}
use qnm_node.Spiderweb.Hops.{
  IsHop, decide-deliver, decide-hop, walk-hop, walk-refuse, walk-deliver, walk-drop, walk-wait,
  walk-gone,
}
use qnm_node.Spiderweb.Arrives.{was_refuse, was_deliver, was_drop, was_wait, was_hop, verdict}

-- None of the nodes was seen before, and none comes twice.
unfoldable pub is_fresh : List Text → List Text → Bool
is_fresh seen [] = true
is_fresh seen (k ∷ route) = not (contains seen k) && is_fresh (seen ++ k ∷ []) route

module _ (py : Python) (o : IsOrder py.arrange) where
  -- How a frame came from one node to another.
  pub record IsRoute (w : Web) (me : Text) (frame : Frame) (at : Text) (frame' : Frame)
      : Type 0 where
    pub route : List Text
    pub along : is_way (offers py.arrange w) (me ∷ route) ≡ true
    pub to : last (me ∷ route) ≡ at
    pub marked : frame'.seen ≡ frame.seen ++ route
    pub counted : frame'.hops ≡ frame.hops + length route
    pub fresh : is_fresh frame.seen route ≡ true
    pub within : frame.hops ≤ limit frame → frame'.hops ≤ limit frame

  way-edge :
      (f : Text → Option (List Text)) (path : List Text)
      → is_way f path ≡ true
      → 2 ≤ length path
      → edge f (first path) (second path) ≡ true
  unfolding is_way first
  way-edge f [] a l = absurd (ground arith)
  way-edge f (k ∷ []) a l = absurd (ground arith)
  way-edge f (k ∷ j ∷ path) a l = ground arith

  any-lower : (peers : List Text) (v : Text) → any (λ p. lower p == v) peers ≡ true → lower v ≡ v
  unfolding any
  any-lower [] v e = absurd (ground arith)
  any-lower (p ∷ peers) v e = elim (Bool-cases (lower p == v)) [
    | inl same ↦ rw (sym ((list_beq_iff (lower p) v).0 same)) (lower_idem p)
    | inr other ↦ any-lower peers v (ground arith)
  ]

  edge-lower : (f : Text → Option (List Text)) (u v : Text) → edge f u v ≡ true → lower v ≡ v
  unfolding edge
  edge-lower f u v e = elim (Option-cases (f u)) [
    | inl gone ↦ absurd (ground arith)
    | inr (peers, there) ↦ any-lower peers v (ground arith)
  ]

  offers-put :
      (w : Web) (me k : Text) (n n' : Node)
      → get w me ≡ some n
      → alive n' ≡ alive n
      → Pairs.peers n'.pairs ≡ Pairs.peers n.pairs
      → offers py.arrange (put w me n') k ≡ offers py.arrange w k
  unfolding offers
  offers-put w me k n n' there state pairs = elim (Bool-cases (me == k)) [
    | inl same ↦
        rw (offers, get-put w me k n', same, sym ((list_beq_iff me k).0 same), there, state, pairs)
          refl
    | inr other ↦ rw (offers, get-put w me k n', other) refl
  ]

  hop_receipt-same :
      (frame : Frame) (nxt via pair_id : Text) (n : Node)
      → (alive (hop_receipt py frame nxt via pair_id n).1 ≡ alive n)
        × (Pairs.peers (hop_receipt py frame nxt via pair_id n).1.pairs ≡ Pairs.peers n.pairs)
  unfolding hop_receipt write_receipt alive
  hop_receipt-same frame nxt via pair_id n = (ground arith, ground arith)

  hop-edge :
      (w : Web) (me : Text) (node : Node) (frame : Frame) (nxt via : Text)
      → lower me ≡ me
      → IsHop py w me node frame nxt via
      → edge (offers py.arrange w) me nxt ≡ true
  hop-edge w me node frame nxt via low h =
      let f = path_roots-IsFound py.arrange w o me (lower frame.dest) h.path h.found in
      let e = way-edge (offers py.arrange w) h.path f.along h.long in
      subst (λ k. edge (offers py.arrange w) k nxt ≡ true) (f.from ∙ low)
        (subst (λ k. edge (offers py.arrange w) (first h.path) k ≡ true) h.is_second e)

  is_way-eq :
      (f g : Text → Option (List Text)) (path : List Text)
      → ((k : Text) → f k ≡ g k)
      → is_way f path ≡ true
      → is_way g path ≡ true
  is_way-eq f g path e a = subst (λ h. is_way h path ≡ true) (fun_ext e) a

  home-IsRoute : (w : Web) (me : Text) (frame : Frame) → IsRoute w me frame me frame
  unfolding is_way last is_fresh
  home-IsRoute w me frame = record {
    route = [];
    along = refl;
    to = refl;
    marked = sym (append-nil frame.seen);
    counted = omega arith;
    fresh = refl;
    within = λ l. l;
  }

  step-IsRoute :
      (w : Web) (me : Text) (node : Node) (frame : Frame) (nxt via pair_id at : Text)
      (frame' : Frame)
      → get w me ≡ some node
      → lower me ≡ me
      → IsHop py w me node frame nxt via
      → IsRoute
          (put w me (hop_receipt py frame nxt via pair_id node).1)
          nxt
          (next_frame py frame nxt via pair_id)
          at
          frame'
      → IsRoute w me frame at frame'
  unfolding is_way last is_fresh next_frame limit
  step-IsRoute w me node frame nxt via pair_id at frame' there low h r = record {
    route = nxt ∷ r.route;
    along = ground (
      arith,
      hop-edge w me node frame nxt via low h,
      is_way-eq _ (offers py.arrange w) (nxt ∷ r.route)
          (λ k.
            let (state, pairs) = hop_receipt-same frame nxt via pair_id node in
            offers-put w me k node (hop_receipt py frame nxt via pair_id node).1 there state pairs)
          r.along,
    );
    to = r.to;
    marked = r.marked ∙ append_assoc frame.seen (nxt ∷ []) r.route;
    counted = omega (arith, r.counted);
    fresh = ground (arith, h.new, r.fresh);
    within = λ l. r.within (omega (arith, h.below));
  }

  refuse-ok : {code : Code} {end : End} → refuse code ≢ ok end
  refuse-ok e = absurd (cc)

  dropped-ok :
      (why : Drop) {n : ℕ} {at : Text} {frame : Frame}
      → ◌≢◌ {A = Result End} (ok (dropped why n)) (ok (delivered at frame))
  dropped-ok why e = absurd (cc)

  continue-ok :
      {A : Type 0} (f : A → Act Web End) (r : Result A) (w : Web) (end : End)
      → (continue f (r, w)).0 ≡ ok end
      → (a : A) × ((f a w).0 ≡ ok end)
  continue-ok f (ok a) w end e = (a, e)
  continue-ok f (refuse code) w end e = absurd (cc)

  wait-delivered :
      (frame : Frame) (via : Text) (n : Node) (at : Text) (frame' : Frame)
      → (queue_path_wait py frame via n).0 ≢ ok (delivered at frame')
  unfolding queue_path_wait ◌>>>◌ write_receipt Outbox.queue
  wait-delivered frame via n at frame' e = absurd (ground arith)

  delivered-eq :
      (at at' : Text) (frame frame' : Frame)
      → ◌≡◌ {A = Result End} (ok (delivered at frame)) (ok (delivered at' frame'))
      → (at ≡ at') × (frame ≡ frame')
  delivered-eq at at' frame frame' e = (cc, cc)

  -- A frame that is delivered went from the node where its walk began to its destination over living
  -- pair edges, as the web had them at the start, through nodes that it had not seen, each once. Each
  -- is on its list, each counts one hop, and the hops stay within the limit.
  pub walk-IsRoute :
      (fuel : ℕ) (me : Text) (frame : Frame) (w : Web) (at : Text) (frame' : Frame)
      → lower me ≡ me
      → (walk py fuel me frame w).0 ≡ ok (delivered at frame')
      → IsRoute w me frame at frame' × (at ≡ lower frame.dest)
  unfolding walk
  walk-IsRoute zero me frame w at frame' low e = absurd (cc)
  walk-IsRoute (suc fuel) me frame w at frame' low e = elim (Option-cases (get w me)) [
    | inl gone ↦ absurd (refuse-ok (sym (ap (λ r. r.0) (walk-gone py fuel me frame w gone)) ∙ e))
    | inr (node, there) ↦ elim (verdict (decide py w me node frame)) [
      | was_refuse code d ↦
          absurd
            (refuse-ok (sym (ap (λ r. r.0) (walk-refuse py fuel me frame w node code there d)) ∙ e))
      | was_deliver d ↦
          let (u, e') =
            continue-ok _ (deliver_receipt py frame node).0
              (put w me (deliver_receipt py frame node).1) (delivered at frame')
              (sym (ap (λ r. r.0) (walk-deliver py fuel me frame w node there d)) ∙ e) in
          let (same, same_frame) = delivered-eq me at frame frame' e' in
          subst (λ k. IsRoute w me frame k frame' × (k ≡ lower frame.dest)) same
            (
              subst (λ f. IsRoute w me frame me f) same_frame (home-IsRoute w me frame),
              decide-deliver py w me node frame d,
            )
      | was_drop why d ↦
          absurd (
            dropped-ok why
              (sym (ap (λ r. r.0) (walk-drop py fuel me frame w node why there d)) ∙ e))
      | was_wait via d ↦ absurd (
          wait-delivered frame via node at frame'
            (sym (ap (λ r. r.0) (walk-wait py fuel me frame w node via there d)) ∙ e))
      | was_hop nxt via pair_id d ↦
          let h = decide-hop py w me node frame nxt via pair_id d in
          let (u, e') =
            continue-ok _ (hop_receipt py frame nxt via pair_id node).0
              (put w me (hop_receipt py frame nxt via pair_id node).1) (delivered at frame')
              (sym (ap (λ r. r.0) (walk-hop py fuel me frame w node nxt via pair_id there d))
                ∙ e) in
          let (r, arrived) =
            walk-IsRoute fuel nxt (next_frame py frame nxt via pair_id) _ at frame'
              (edge-lower (offers py.arrange w) me nxt (hop-edge w me node frame nxt via low h))
              e' in
          (step-IsRoute w me node frame nxt via pair_id at frame' there low h r, arrived)
    ]
  ]
