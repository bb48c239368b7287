-- ===== src/Lan/Counts.antt =====
-- qnsd/lan/session.py: how many fragments a packet goes in.
use qnm_node.Base.{
  Bool, not, ◌>>◌, all, true, refuse_if, lan_malformed, ℕ, ◌*◌, ◌≤◌, ◌≡◌, refl, sym, ◌∙◌, inl, inr,
  false, ◌||◌, List, [], ◌∷◌, arith, ltb, list_eq, nat_eq, Text, Bool-cases, length, Result, ok,
}
use qnm_node.Base.{>>=-eq-ok, lan_quota}
use mathlib.Core.Path.{subst}
use qnm_node.Lan.Fragments.{
  max_fragments, max_reassembly, pieces, or_one_empty, split, Fragment, fragments_from,
  send_fragments, fits,
}
use qnm_node.Lan.Whole.{length-fragments_from}
use qnm_node.Lan.Pieces.{refuse-ok, ok-eq, pieces-bound}

module _ (hash_of : List ℕ → Text) (admits : Fragment → Result (Unit {0}))
    (handle packet_id payload_hash : Text) where
  length-or_one_empty :
      (ps : List (List ℕ)) → length ps ≤ max_fragments → length (or_one_empty ps) ≤ max_fragments
  length-or_one_empty [] l = omega arith
  length-or_one_empty (p ∷ ps) l = l

  length-pieces :
      (raw : List ℕ) (size : ℕ) (ps : List (List ℕ))
      → split raw size ≡ ok ps
      → length ps ≤ max_fragments
  unfolding split
  length-pieces raw size ps e =
      elim (Bool-cases
        (ltb (max_fragments * size) (length raw) || ltb max_reassembly (length raw))) [
          | inl over ↦
              absurd (refuse-ok {code = lan_quota} {a = ps} (sym (rw (split, over) refl) ∙ e))
          | inr fits ↦
              subst (λ qs. length qs ≤ max_fragments) (ok-eq _ ps (sym (rw (split, fits) refl) ∙ e))
                (length-or_one_empty (pieces (length raw) size raw)
                  (pieces-bound (length raw) size max_fragments raw (ground (arith, fits))))
        ]

  sent_all_of :
      (over : Bool) (frags frames : List Fragment)
      → (refuse_if over lan_malformed >> ok frags) ≡ ok frames
      → frags ≡ frames
  sent_all_of true frags frames e = cc
  sent_all_of false frags frames e = cc

  -- A packet that is sent goes in at most 32 fragments.
  pub length-send_fragments :
      (frame_bytes : Fragment → ℕ) (raw : List ℕ) (size : ℕ) (frames : List Fragment)
      → send_fragments handle packet_id payload_hash hash_of frame_bytes size raw ≡ ok frames
      → length frames ≤ max_fragments
  unfolding send_fragments
  length-send_fragments frame_bytes raw size frames e =
      let (ps, cut, sent_all) = >>=-eq-ok (split raw size) _ frames e in
      let frags =
        fragments_from handle packet_id payload_hash hash_of 0 (length ps) (length raw) ps in
      subst (λ fs. length fs ≤ max_fragments)
        (sent_all_of (not (all (fits frame_bytes) frags)) frags frames sent_all)
        (rw
          (length-fragments_from hash_of admits handle packet_id payload_hash 0 (length ps)
            (length raw) ps)
          (length-pieces raw size ps cut))
