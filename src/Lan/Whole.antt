-- ===== src/Lan/Whole.antt =====
-- qnsd/lan/session.py: a packet that is sent in fragments and put together again.
use qnm_node.Base.{
  zero, suc, ap, ◌-◌, all, true, codes, ℕ, ◌+◌, ◌*◌, ◌>>=◌, ◌≤◌, ◌<◌, ◌≡◌, refl, sym, false, ◌||◌,
  none, List, [], ◌∷◌, ◌++◌, arith, ltb, list_eq, nat_eq, beq_refl, Text, length, length-append,
  Result, ok, Dict, get,
}
use mathlib.Core.Path.{subst}
use mathlib.Core.List.{append-nil, append_assoc}
use qnm_node.Lan.Fragments.{
  max_fragments, max_reassembly, pieces, or_one_empty, split, Fragment, join, check_fragment, fill,
  reassemble, fragments_from, send_fragments, receive, first_of, fits,
}
use qnm_node.Lan.Pieces.{
  table, join-pieces, pieces-bound, get-table_past, length-table, put-table_next, slots_from-table,
}

module _ (hash_of : List ℕ → Text) (admits : Fragment → Result (Unit {0}))
    (handle packet_id payload_hash : Text) where
  -- A fragment as it is sent.
  abbrev sent : ℕ → ℕ → ℕ → List ℕ → Fragment
  sent index count total piece = record {
    kind = codes "fragment";
    handle = handle;
    packet_id = packet_id;
    payload_hash = payload_hash;
    index = index;
    count = count;
    total = total;
    sha256 = hash_of piece;
    body = piece;
  }

  check_fragment-sent :
      (index count total : ℕ) (first piece : List ℕ) (slots : Dict ℕ (List ℕ))
      → admits (sent index count total piece) ≡ ok tt
      → index < count
      → get slots index ≡ none
      → check_fragment hash_of admits handle
          (sent 0 count total first)
          (sent index count total piece)
          slots
        ≡ ok tt
  unfolding check_fragment
  check_fragment-sent index count total first piece slots a l fresh =
      rw
        (
          check_fragment,
          a,
          beq_refl handle,
          beq_refl packet_id,
          beq_refl payload_hash,
          beq_refl (hash_of piece),
          fresh,
        )
        (ground (arith, l))

  -- Every fragment of the packet is admitted.
  abbrev AllAdmitted : ℕ → ℕ → ℕ → List (List ℕ) → Type 0
  AllAdmitted index count total [] = Unit {0}
  AllAdmitted index count total (p ∷ ps) =
      (admits (sent index count total p) ≡ ok tt) × AllAdmitted (index + 1) count total ps

  fill-sent :
      (count total : ℕ) (first : List ℕ) (ps qs : List (List ℕ))
      → AllAdmitted (length ps) count total qs
      → length ps + length qs ≤ count
      → fill hash_of admits handle
          (sent 0 count total first)
          (fragments_from handle packet_id payload_hash hash_of (length ps) count total qs)
          (table 0 ps)
        ≡ ok (table 0 (ps ++ qs))
  unfolding fill fragments_from
  fill-sent count total first ps [] a l = rw (append-nil ps) refl
  fill-sent count total first ps (q ∷ qs) a l =
      rw
        (
          fill,
          check_fragment-sent (length ps) count total first q (table 0 ps) a.0 (omega (arith, l))
              (get-table_past 0 (length ps) ps (omega arith)),
          put-table_next ps q,
        )
        (subst
          (λ t.
            fill hash_of admits handle (sent 0 count total first)
              (fragments_from handle packet_id payload_hash hash_of (length ps + 1) count total qs)
              (table 0 (ps ++ q ∷ []))
            ≡ ok (table 0 t))
          (append_assoc ps (q ∷ []) qs)
          (subst
            (λ m.
              fill hash_of admits handle (sent 0 count total first)
                (fragments_from handle packet_id payload_hash hash_of m count total qs)
                (table 0 (ps ++ q ∷ []))
              ≡ ok (table 0 (ps ++ q ∷ [] ++ qs)))
            (length-append ps (q ∷ []))
            (fill-sent count total first (ps ++ q ∷ []) qs
              (subst (λ m. AllAdmitted m count total qs) (sym (length-append ps (q ∷ []))) a.1)
              (omega (arith, l, length-append ps (q ∷ []))))))

  fill-all :
      (count total : ℕ) (first : List ℕ) (rest : List (List ℕ))
      → AllAdmitted 0 count total (first ∷ rest)
      → length (first ∷ rest) ≤ count
      → fill hash_of admits handle
          (sent 0 count total first)
          (sent 0 count total first
            ∷ fragments_from handle packet_id payload_hash hash_of (0 + 1) count total rest)
          []
        ≡ ok (table 0 (first ∷ rest))
  unfolding fragments_from table
  fill-all count total first rest a l =
      fill-sent count total first [] (first ∷ rest) a (omega (arith, l))

  in_bounds :
      (raw : List ℕ)
      → 1 ≤ length raw
      → length raw ≤ max_reassembly
      → (ltb (length raw) 1 || ltb max_reassembly (length raw)) ≡ false
  in_bounds raw some_byte small = ground (arith, some_byte, small)

  pub length-fragments_from :
      (index count total : ℕ) (ps : List (List ℕ))
      → length (fragments_from handle packet_id payload_hash hash_of index count total ps)
        ≡ length ps
  unfolding fragments_from
  length-fragments_from index count total [] = refl
  length-fragments_from index count total (p ∷ ps) =
      omega (arith, length-fragments_from (index + 1) count total ps)

  first_of-all : (n : ℕ) (frames : List Fragment) → length frames ≡ n → first_of n frames ≡ frames
  unfolding first_of
  first_of-all zero [] l = refl
  first_of-all zero (f ∷ fs) l = absurd (omega arith)
  first_of-all (suc n) [] l = absurd (omega arith)
  first_of-all (suc n) (f ∷ fs) l = ap (λ t. f ∷ t) (first_of-all n fs (omega arith))

  counted :
      (rest : List (List ℕ)) (frames : List Fragment)
      → length (rest) + 1 ≤ max_fragments
      → length frames ≡ length rest
      → ((ltb (suc (length rest)) 1 || ltb max_fragments (suc (length rest))) ≡ false)
        × (ltb (suc (length frames)) (suc (length rest)) ≡ false)
  counted rest frames few l = (ground (arith, few), ground (arith, l))

  -- The fragments of a packet, put together again, are the packet, if it has a byte and every
  -- fragment is admitted; and there are no more of them than the receiver takes.
  receive-pieces :
      (raw first : List ℕ) (rest : List (List ℕ))
      → AllAdmitted 0 (length (first ∷ rest)) (length raw) (first ∷ rest)
      → join (first ∷ rest) ≡ raw
      → 1 ≤ length raw
      → length raw ≤ max_reassembly
      → length rest + 1 ≤ max_fragments
      → receive hash_of admits handle (
          fragments_from handle packet_id payload_hash hash_of 0
            (length (first ∷ rest))
            (length raw)
            (first ∷ rest))
        ≡ ok raw
  unfolding receive reassemble fragments_from
  receive-pieces raw first rest a whole some_byte small few =
      let later =
        fragments_from handle packet_id payload_hash hash_of (0 + 1) (length (first ∷ rest))
          (length raw) rest in
      let l = length-fragments_from (0 + 1) (length (first ∷ rest)) (length raw) rest in
      let c = counted rest later few l in
      rw
        (
          receive,
          beq_refl (codes "fragment"),
          c.0,
          c.1,
          first_of-all (length (first ∷ rest) - 1) later (omega (arith, l)),
          reassemble,
          in_bounds raw some_byte small,
          fill-all (length (first ∷ rest)) (length raw) first rest a (omega arith),
          length-table 0 (first ∷ rest),
          slots_from-table [] (first ∷ rest),
          whole,
        )
        (ground arith)

  join-not_empty :
      (ps : List (List ℕ))
      → 1 ≤ length (join ps)
      → (p : List ℕ) × (qs : List (List ℕ)) × (ps ≡ p ∷ qs)
  unfolding join
  join-not_empty [] l = absurd (omega arith)
  join-not_empty (p ∷ qs) l = (p, qs, refl)

  roomy :
      (raw : List ℕ) (size : ℕ)
      → length raw ≤ max_fragments * size
      → length raw ≤ max_reassembly
      → (ltb (max_fragments * size) (length raw) || ltb max_reassembly (length raw)) ≡ false
  roomy raw size fits small = ground (arith, fits, small)

  or_pieces :
      (raw : List ℕ) (size : ℕ)
      → 1 ≤ length raw
      → ◌≡◌ {A = Result (List (List ℕ))}
          (ok (or_one_empty (pieces (length raw) size raw)))
          (ok (pieces (length raw) size raw))
  unfolding pieces
  or_pieces [] size l = absurd (omega arith)
  or_pieces (b ∷ raw) size l = refl

  split-ok :
      (raw : List ℕ) (size : ℕ)
      → length raw ≤ max_fragments * size
      → length raw ≤ max_reassembly
      → 1 ≤ size
      → 1 ≤ length raw
      → (split raw size ≡ ok (pieces (length raw) size raw))
        × (join (pieces (length raw) size raw) ≡ raw)
  unfolding split
  split-ok raw size fits small s l = (
    rw (split, roomy raw size fits small) (or_pieces raw size l),
    join-pieces (length raw) size raw s (omega arith),
  )

  -- A packet of at least one byte that fits the caps, and whose frames do, is sent, in fragments, and
  -- the receiver that admits each of them puts the packet together again, byte for byte.
  pub receive-send_fragments :
      (frame_bytes : Fragment → ℕ) (raw : List ℕ) (size : ℕ)
      → 1 ≤ size
      → 1 ≤ length raw
      → length raw ≤ max_fragments * size
      → length raw ≤ max_reassembly
      → AllAdmitted 0
          (length (pieces (length raw) size raw))
          (length raw)
          (pieces (length raw) size raw)
      → all (fits frame_bytes) (
          fragments_from handle packet_id payload_hash hash_of 0
            (length (pieces (length raw) size raw))
            (length raw)
            (pieces (length raw) size raw))
        ≡ true
      → (send_fragments handle packet_id payload_hash hash_of frame_bytes size raw
          >>= receive hash_of admits handle)
        ≡ ok raw
  unfolding send_fragments
  receive-send_fragments frame_bytes raw size s l fits_caps small a framed =
      let (sent_pieces, whole) = split-ok raw size fits_caps small s l in
      let (p, qs, same) = join-not_empty (pieces (length raw) size raw) (rw whole l) in
      let few = pieces-bound (length raw) size max_fragments raw fits_caps in
      rw (send_fragments, sent_pieces, framed, same)
        (receive-pieces raw p qs (subst (λ ps. AllAdmitted 0 (length ps) (length raw) ps) same a)
          (subst (λ ps. join ps ≡ raw) same whole) l small
          (omega (arith, subst (λ ps. length ps ≤ max_fragments) same few)))
