-- ===== src/Spiderweb/Arrives.antt =====
-- qnm/spiderweb.py, `_walk` and `forward`: every walk ends.
use qnm_node.Base.{
  ℕ, zero, suc, ◌+◌, ◌≤◌, ◌<◌, ◌≡◌, refl, ◌≢◌, inl, inr, List, [], ◌∷◌, ◌++◌, arith, list_eq,
  nat_eq, Text, Bool-cases, Option-cases, Result-cases, Result, ok, refuse, Code, Act, get, put,
  contains,
}
use qnm_node.Base.{lower, ◌>>>◌, continue}
use qnm_node.Outbox
use qnm_node.Node.{Node, write_receipt}
use qnm_node.Base.{ltb}
use qnm_node.Spiderweb.{loop_seen}
use qnm_node.Spiderweb.Walks.{start_frame, with_source, start_walk, count}
use qnm_node.Spiderweb.{Web, Frame, Python, limit, Drop, Step, deliver, drop, wait, hop, decide}
use qnm_node.Spiderweb.Walks.{
  End, dropped, out_of_hops, queue_path_wait, next_frame, deliver_receipt, hop_receipt, walk,
  admitted_payload, forward,
}
use qnm_node.Spiderweb.Hops.{
  decide-hop, walk-hop, walk-refuse, walk-deliver, walk-drop, walk-wait, walk-gone,
}

-- What may have been decided.
pub data Verdict (r : Result Step) : Type 0 where
  was_refuse : (code : Code) → r ≡ refuse code → Verdict r
  was_deliver : r ≡ ok deliver → Verdict r
  was_drop : (why : Drop) → r ≡ ok (drop why) → Verdict r
  was_wait : (via : Text) → r ≡ ok (wait via) → Verdict r
  was_hop : (nxt via pair_id : Text) → r ≡ ok (hop nxt via pair_id) → Verdict r

pub verdict : (r : Result Step) → Verdict r
verdict (refuse code) = was_refuse code refl
verdict (ok deliver) = was_deliver refl
verdict (ok (drop why)) = was_drop why refl
verdict (ok (wait via)) = was_wait via refl
verdict (ok (hop nxt via pair_id)) = was_hop nxt via pair_id refl

module _ (py : Python) where
  -- An end that is no lack of fuel.
  abbrev IsEnd : Result End × Web → Type 0
  IsEnd result = result.0 ≢ ok out_of_hops

  wait-ends :
      (frame : Frame) (via : Text) (n : Node) → (queue_path_wait py frame via n).0 ≢ ok out_of_hops
  unfolding queue_path_wait ◌>>>◌ write_receipt Outbox.queue
  wait-ends frame via n e = absurd (ground arith)

  continue-ends :
      {A : Type 0} (f : A → Act Web End) (r : Result A) (w : Web)
      → ((a : A) → IsEnd (f a w))
      → IsEnd (continue f (r, w))
  continue-ends f (ok a) w g = g a
  continue-ends f (refuse code) w g = λ e. absurd (cc)

  next_frame-limit :
      (frame : Frame) (nxt via pair_id : Text)
      → limit (next_frame py frame nxt via pair_id) ≡ limit frame
  unfolding limit next_frame
  next_frame-limit frame nxt via pair_id = refl

  next_frame-hops :
      (frame : Frame) (nxt via pair_id : Text)
      → (next_frame py frame nxt via pair_id).hops ≡ frame.hops + 1
  unfolding next_frame
  next_frame-hops frame nxt via pair_id = refl

  -- A walk ends: one call more than there are hops left is enough.
  pub walk-ends :
      (fuel : ℕ) (me : Text) (frame : Frame) (w : Web)
      → 1 ≤ fuel
      → limit frame < fuel + frame.hops
      → (walk py fuel me frame w).0 ≢ ok out_of_hops
  walk-ends zero me frame w some_fuel enough = absurd (omega arith)
  walk-ends (suc fuel) me frame w some_fuel enough = elim (Option-cases (get w me)) [
    | inl gone ↦ rw (walk-gone py fuel me frame w gone) (λ e. absurd (cc))
    | inr (node, there) ↦ elim (verdict (decide py w me node frame)) [
      | was_refuse code e ↦ rw (walk-refuse py fuel me frame w node code there e) (λ f. absurd (cc))
      | was_deliver e ↦ rw (walk-deliver py fuel me frame w node there e) (
          continue-ends _ (deliver_receipt py frame node).0
            (put w me (deliver_receipt py frame node).1) (λ _ f. absurd (cc)))
      | was_drop why e ↦ rw (walk-drop py fuel me frame w node why there e) (λ f. absurd (cc))
      | was_wait via e ↦
          rw (walk-wait py fuel me frame w node via there e) (wait-ends frame via node)
      | was_hop nxt via pair_id e ↦
          let h = decide-hop py w me node frame nxt via pair_id e in
          let frame' = next_frame py frame nxt via pair_id in
          rw (walk-hop py fuel me frame w node nxt via pair_id there e) (
            continue-ends _ (hop_receipt py frame nxt via pair_id node).0
              (put w me (hop_receipt py frame nxt via pair_id node).1)
              (λ _. walk-ends fuel nxt frame' _ (omega (arith, h.below)) (
                omega (
                  arith,
                  h.below,
                  next_frame-limit frame nxt via pair_id,
                  next_frame-hops frame nxt via pair_id,
                ))))
    ]
  ]

module _ (py : Python) where
  refuse-ends : (code : Code) (w : Web) → IsEnd py (refuse code, w)
  refuse-ends code w e = cc

  dropped-ends : (w : Web) → IsEnd py (ok (dropped loop_seen 0), w)
  dropped-ends w e = cc

  start-ends :
      (src : Text) (frame : Frame) (w : Web)
      → frame.hops ≡ 0
      → (walk py (1 + limit frame) src frame w).0 ≢ ok out_of_hops
  start-ends src frame w from_zero =
      walk-ends py (1 + limit frame) src frame w (omega arith) (omega (arith, from_zero))

  start_walk-ends :
      (src fid : Text) (seen : List Text) (frame : Frame) (w : Web)
      → frame.hops ≡ 0
      → (start_walk py src fid seen frame w).0 ≢ ok out_of_hops
  unfolding start_walk
  start_walk-ends src fid seen frame w from_zero = elim (Bool-cases (contains seen fid)) [
    | inl known ↦ rw (start_walk, known) (dropped-ends w)
    | inr new ↦ elim (Bool-cases (ltb 1 (count py src (seen ++ fid ∷ [])))) [
      | inl twice ↦ rw (start_walk, new, twice) (dropped-ends w)
      | inr once ↦ rw (start_walk, new, once) (start-ends src frame w from_zero)
    ]
  ]

  -- Forwarding a payload always ends: it is refused, delivered, dropped or waiting in an outbox,
  -- whatever the web, the hop limit and what was seen before.
  pub forward-ends :
      (src dest payload via : Text) (hop_max : ℕ) (seen : List Text) (salt : Text) (w : Web)
      → (forward py src dest payload via hop_max seen salt w).0 ≢ ok out_of_hops
  unfolding forward
  forward-ends src dest payload via hop_max seen salt w =
      elim (Result-cases (admitted_payload py payload)) [
        | inr (code, e) ↦ rw (forward, e) (refuse-ends code w)
        | inl (fields, e) ↦
            let fid = py.hash.sha256_hex (py.dumps_core src (lower dest) fields salt) in
            let frame =
              start_frame py src (lower dest) via hop_max (with_source py src (seen ++ fid ∷ []))
                fields fid in
            rw (forward, e) (start_walk-ends src fid seen frame w refl)
      ]
