-- ===== src/Pairs/Identity.antt =====
-- qnm/pairs.py: the identity of a bind, what it depends on, and the one that `seal` stores.
use qnm_node.Base.{
  ℕ, ◌>>=◌, ◌≡◌, refl, sym, ap, ◌∙◌, ◌≢◌, true, false, some, List, [], ◌∷◌, arith, ◌==◌, list_eq,
  nat_eq, list_beq_iff, Text, Result, ok, refuse, Code, is_empty,
}
use qnm_node.Base.{lower, lower_idem, text_gt_total, text_gt_asymm, handshake, find-some}
use qnm_node.Digest.{Hash, is_digest}
use qnm_node.Pairs.{
  Nonce, text, absent, raw, nonce_bytes, canon_pair_parts, hash_parts, compute_pair_id, Handshake,
  Bind, Pairs, get_bind, remember_pair, seal, other_end, seal_row, store_bind,
}

-- The two orders of the roots give the same parts, unless the roots are spelled alike.
canon_pair_parts_comm :
    (a b : Text) (na nb : List ℕ)
    → lower a ≢ lower b
    → canon_pair_parts a b na nb ≡ canon_pair_parts b a nb na
unfolding canon_pair_parts
canon_pair_parts_comm a b na nb h = ground (
  arith,
  text_gt_total (lower a) (lower b),
  text_gt_asymm (lower a) (lower b),
  text_gt_asymm (lower b) (lower a),
)

nonce_refusal :
    (drawn : List ℕ) (n : Nonce) (c : Code) → nonce_bytes drawn n ≡ refuse c → c ≡ handshake
unfolding nonce_bytes
nonce_refusal drawn absent c e = cc
nonce_refusal drawn (raw bytes) c e = cc
nonce_refusal drawn (text t) c e = ground arith

-- Two results that refuse alike may be taken in either order.
binds_swap :
    (m n : Result (List ℕ)) (f g : List ℕ → List ℕ → Text)
    → ((c d : Code) → m ≡ refuse c → n ≡ refuse d → c ≡ d)
    → ((x y : List ℕ) → f x y ≡ g x y)
    → (m >>= λ x. n >>= λ y. ok (f x y)) ≡ (n >>= λ y. m >>= λ x. ok (g x y))
binds_swap (ok x) (ok y) f g same e = ap ok (e x y)
binds_swap (ok x) (refuse d) f g same e = refl
binds_swap (refuse c) (ok y) f g same e = refl
binds_swap (refuse c) (refuse d) f g same e = ap refuse (same c d refl refl)

-- Both sides of a bind compute the same pair_id, each from its own end, when the roots differ by more
-- than the case of their letters. Where a nonce is refused, it is refused on both sides.
pub compute_pair_id_comm :
    (h : Hash) (a b : Text) (na nb : Nonce)
    → lower a ≢ lower b
    → compute_pair_id h a b na nb ≡ compute_pair_id h b a nb na
unfolding compute_pair_id
compute_pair_id_comm h a b na nb d =
    binds_swap (nonce_bytes [] na) (nonce_bytes [] nb)
      (λ x y. hash_parts h (canon_pair_parts a b x y))
      (λ x y. hash_parts h (canon_pair_parts b a y x))
      (λ c c' e e'. nonce_refusal [] na c e ∙ sym (nonce_refusal [] nb c' e'))
      (λ x y. ap (hash_parts h) (canon_pair_parts_comm a b x y d))

-- The case of the roots' letters does not matter.
pub compute_pair_id-lower :
    (h : Hash) (a b : Text) (na nb : Nonce)
    → compute_pair_id h (lower a) (lower b) na nb ≡ compute_pair_id h a b na nb
unfolding compute_pair_id canon_pair_parts
compute_pair_id-lower h a b na nb = simp lower_idem

pub digest-not-empty : (d : Text) → is_digest d ≡ true → is_empty d ≡ false
digest-not-empty [] e = cc
digest-not-empty (c ∷ d) e = refl

-- A pair_id that was computed is a digest, so it is never empty.
pub compute_pair_id-digest :
    (h : Hash) (a b : Text) (na nb : Nonce) (d : Text)
    → compute_pair_id h a b na nb ≡ ok d
    → is_digest d ≡ true
unfolding compute_pair_id hash_parts
compute_pair_id-digest h a b na nb d e = grind (arith, h.sha256_hex-IsDigest)

get_bind-pair_id :
    (rows : List Bind) (id : Text) (b : Bind) → get_bind rows id ≡ some b → b.pair_id ≡ id
unfolding get_bind
get_bind-pair_id rows id b e =
    (list_beq_iff b.pair_id id).0 (find-some (λ b. b.pair_id == id) rows b e)

-- A seal that is granted answers with the pair_id of the handshake's roots and nonces, whatever the
-- bearer, also where the memorial held the bind already.
pub seal-pair_id :
    (h : Hash) (now : Text) (hs : Handshake) (me via : Text) (p : Pairs) (row : Bind)
    → (seal h now hs me via p).0 ≡ ok row
    → compute_pair_id h (lower hs.root_a) (lower hs.root_b) (text hs.nonce_a) (text hs.nonce_b)
      ≡ ok row.pair_id
unfolding seal store_bind seal_row other_end remember_pair
seal-pair_id h now hs me via p row e = grind (arith, get_bind-pair_id)
