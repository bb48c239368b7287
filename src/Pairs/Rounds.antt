-- ===== src/Pairs/Rounds.antt =====
-- qnm/pairs.py: OFFER, ACCEPT and SEAL run through on two memorials (`handshake_seal` without the
-- guards of the two nodes, which are modelled with the nodes).
use qnm_node.Base.{
  ℕ, ◌/◌, ◌%◌, ◌<◌, ◌≡◌, refl, ◌≢◌, ◌⊎◌, inl, inr, true, false, List, [], ◌∷◌, arith, list_eq,
  nat_eq, list_beq_iff, list_beq_refl, Text, Option-cases, ok, is_empty, all,
}
use qnm_node.Base.{none, some, ◌++◌, find, lower, lower_idem, is_hex, or_else}
use qnm_node.Bytes.{to_hex, hex_digit, IsBytes, from_hex-to_hex}
use qnm_node.Digest.{Hash, strip-hex}
use qnm_node.Pairs.{
  text, absent, nonce_bytes, canon_pair_parts, hash_parts, compute_pair_id, Handshake, Bind, Pairs,
  offered, accepted, get_bind, remember_pair, offer, accept, seal, other_end, seal_row, store_bind,
}
use qnm_node.Pairs.Identity.{compute_pair_id-digest, digest-not-empty, seal-pair_id}

is_hex-hex_digit : (n : ℕ) → n < 16 → is_hex (hex_digit n) ≡ true
unfolding is_hex hex_digit
is_hex-hex_digit n h = ground arith

all-to_hex : (bs : List ℕ) → IsBytes bs → all is_hex (to_hex bs) ≡ true
unfolding all to_hex
all-to_hex [] h = refl
all-to_hex (b ∷ bs) h =
    ground (arith, is_hex-hex_digit (b / 16), is_hex-hex_digit (b % 16), all-to_hex bs h.1)

-- A row that was added is found where no row had its id.
get_bind-added :
    (rows : List Bind) (row : Bind)
    → get_bind rows row.pair_id ≡ none
    → get_bind (rows ++ row ∷ []) row.pair_id ≡ some row
unfolding get_bind find
get_bind-added [] row new = ground (arith, list_beq_refl row.pair_id)
get_bind-added (r ∷ rows) row new = ground (arith, get_bind-added rows row)

get_bind-store_bind :
    (row : Bind) (p : Pairs)
    → is_empty row.pair_id ≡ false
    → get_bind p.memorial row.pair_id ≡ none
    → get_bind (store_bind row p).1.memorial row.pair_id ≡ some row
unfolding store_bind remember_pair
get_bind-store_bind row p there new =
    rw (store_bind, remember_pair, there, new) (get_bind-added p.memorial row new)

-- A nonce that was sent as text is read back.
pub nonce_bytes-to_hex :
    (drawn bs : List ℕ) → IsBytes bs → nonce_bytes drawn (text (to_hex bs)) ≡ ok bs
unfolding nonce_bytes
nonce_bytes-to_hex drawn bs h =
    ground (arith, strip-hex (to_hex bs) (all-to_hex bs h), from_hex-to_hex bs h)

-- The pair_id of two roots and two drawn nonces.
unfoldable pub pair_id_of : Hash → Text → Text → List ℕ → List ℕ → Text
pair_id_of h a b na nb = hash_parts h (canon_pair_parts (lower a) (lower b) na nb)

compute_pair_id-drawn :
    (h : Hash) (a b : Text) (na nb : List ℕ)
    → IsBytes na
    → IsBytes nb
    → compute_pair_id h (lower a) (lower b) (text (to_hex na)) (text (to_hex nb))
      ≡ ok (pair_id_of h a b na nb)
unfolding compute_pair_id pair_id_of
compute_pair_id-drawn h a b na nb ha hb =
    rw (nonce_bytes-to_hex [] na ha) (rw (nonce_bytes-to_hex [] nb hb) refl)

module _ (h : Hash) (a b : Text) (na nb : List ℕ) (now now' via via' : Text) (ha : IsBytes na)
    (hb : IsBytes nb) (a_there : is_empty a ≡ false) (b_there : is_empty b ≡ false)
    (distinct : lower a ≢ lower b) where
  abbrev the_offer : Handshake
  the_offer = record {
    phase = offered;
    root_a = lower a;
    root_b = lower b;
    nonce_a = to_hex na;
    nonce_b = [];
    via = via;
    pair_id = [];
    utc = now;
  }

  abbrev the_accept : Handshake
  the_accept = record {
    phase = accepted;
    root_a = lower (lower a);
    root_b = lower b;
    nonce_a = to_hex na;
    nonce_b = to_hex nb;
    via = or_else via' via;
    pair_id = pair_id_of h a b na nb;
    utc = now';
  }

  offer-granted : (p : Pairs) → (offer na now a b absent via p).0 ≡ ok the_offer
  unfolding offer nonce_bytes
  offer-granted p = ground (arith, list_beq_iff (lower a) (lower b))

  accept-granted : (q : Pairs) → (accept h nb now' the_offer b absent via' q).0 ≡ ok the_accept
  unfolding accept nonce_bytes
  accept-granted q = rw lower_idem (
      ground (
        arith,
        lower_idem a,
        lower_idem b,
        list_beq_refl (lower b),
        list_beq_iff (lower b) (lower a),
        compute_pair_id-drawn h a b na nb ha hb,
      ))

  abbrev the_id : Text
  the_id = pair_id_of h a b na nb

  the_id-computed :
      compute_pair_id h
        (lower (lower (lower a)))
        (lower (lower b))
        (text (to_hex na))
        (text (to_hex nb))
      ≡ ok the_id
  the_id-computed =
      rw (lower_idem (lower a))
        (rw (lower_idem a) (rw (lower_idem b) (compute_pair_id-drawn h a b na nb ha hb)))

  the_id-there : is_empty the_id ≡ false
  the_id-there = digest-not-empty the_id (
      compute_pair_id-digest h (lower a) (lower b) _ _ the_id
        (compute_pair_id-drawn h a b na nb ha hb))

  other_end-granted :
      (me : Text)
      → (lower me ≡ lower a) ⊎ (lower me ≡ lower b)
      → (peer : Text) × (other_end (lower me) (lower the_accept.root_a) (lower the_accept.root_b)
          ≡ ok peer)
  unfolding other_end
  other_end-granted me (inl e) =
      (lower (lower b), ground (arith, lower_idem (lower a), lower_idem a, list_beq_refl (lower a)))
  other_end-granted me (inr e) = (
    lower (lower (lower a)),
    ground (
      arith,
      lower_idem (lower a),
      lower_idem a,
      lower_idem b,
      list_beq_refl (lower b),
      list_beq_iff (lower b) (lower a),
    ),
  )

  -- Sealing the accepted handshake is granted to either root, on any memorial, and leaves the bind in
  -- it.
  seal-granted :
      (now'' me via'' : Text) (p : Pairs)
      → (lower me ≡ lower a) ⊎ (lower me ≡ lower b)
      → (row : Bind) × ((seal h now'' the_accept me via'' p).0 ≡ ok row)
        × (get_bind (seal h now'' the_accept me via'' p).1.memorial the_id ≡ some row)
  unfolding seal remember_pair
  seal-granted now'' me via'' p side =
      let (peer, e) = other_end-granted me side in
      rw the_id-computed (
        rw e (elim (Option-cases (get_bind p.memorial the_id)) [
          | inr (row, f) ↦ (row, rw f refl, rw f f)
          | inl f ↦ (
            seal_row now'' via'' the_id peer the_accept,
            rw f (unfold store_bind seal_row in ground (arith, the_id-there)),
            rw f (
                unfold seal_row in
                get_bind-store_bind (seal_row now'' via'' the_id peer the_accept) p the_id-there f),
          )
        ]))

  -- OFFER, ACCEPT and SEAL between two roots that are not empty and differ by more than the case of
  -- their letters, each with the nonce that it drew, are all granted, and both memorials, whatever
  -- they held, then hold a bind with the pair_id of the ACCEPT, which is the one that SEAL answers with.
  pub handshake_agrees :
      (t u bearer_a bearer_b : Text) (p q p' q' : Pairs)
      → (o : Handshake) × (ac : Handshake) × (row_a : Bind) × (row_b : Bind) × ((offer na now a b
            absent via p).0
          ≡ ok o)
        × ((accept h nb now' o b absent via' q).0 ≡ ok ac)
        × ((seal h t ac a bearer_a p').0 ≡ ok row_a)
        × ((seal h u ac b bearer_b q').0 ≡ ok row_b)
        × (get_bind (seal h t ac a bearer_a p').1.memorial ac.pair_id ≡ some row_a)
        × (get_bind (seal h u ac b bearer_b q').1.memorial ac.pair_id ≡ some row_b)
        × (row_a.pair_id ≡ ac.pair_id)
        × (row_b.pair_id ≡ ac.pair_id)
  handshake_agrees t u bearer_a bearer_b p q p' q' =
      let (row_a, ea, ka) = seal-granted t a bearer_a p' (inl refl) in
      let (row_b, eb, kb) = seal-granted u b bearer_b q' (inr refl) in
      (
        the_offer,
        the_accept,
        row_a,
        row_b,
        offer-granted p,
        accept-granted q,
        ea,
        eb,
        ka,
        kb,
        cc (seal-pair_id h t the_accept a bearer_a p' row_a ea, the_id-computed),
        cc (seal-pair_id h u the_accept b bearer_b q' row_b eb, the_id-computed),
      )
