-- ===== src/Wires/Frames.antt =====
-- qnm/wires.py: packing and unpacking of a tick, and when two clocks would share a socket.
use qnm_node.Base.{
  ℕ, zero, suc, ◌+◌, ◌*◌, ◌<◌, ◌≡◌, refl, sym, ap, ◌∙◌, ◌↔◌, true, false, ◌&&◌, ◌||◌, some, List,
  [], ◌∷◌, ◌++◌, arith, leb, nat_beq, ◌==◌, list_eq, nat_eq, list_beq, list_beq_iff, list_beq_refl,
  Text, codes, length, length-append, ok, all,
}
use qnm_node.Base.{is_hex}
use mathlib.Core.List.{append-nil}
use qnm_node.Bytes.{from_hex, to_hex, utf8, nibble, hex_digit}
use qnm_node.Digest.{Hash, is_digest, canonical_hash, canonical_hash-digest}
use qnm_node.Wires.Tick.{
  tick_magic, tick_bytes, take, drop, digest_bytes, pack_tick, unpack_tick, refuse_shared_socket,
}

take-append : (n : ℕ) (xs ys : List ℕ) → length xs ≡ n → take n (xs ++ ys) ≡ xs
take-append zero [] ys e = refl
take-append zero (x ∷ xs) ys e = ground arith
take-append (suc n) [] ys e = ground arith
take-append (suc n) (x ∷ xs) ys e = ap (λ (r : List ℕ). x ∷ r) (take-append n xs ys (ground arith))

drop-append : (n : ℕ) (xs ys : List ℕ) → length xs ≡ n → drop n (xs ++ ys) ≡ ys
drop-append zero [] ys e = refl
drop-append zero (x ∷ xs) ys e = ground arith
drop-append (suc n) [] ys e = ground arith
drop-append (suc n) (x ∷ xs) ys e = drop-append n xs ys (ground arith)

digit :
    (c : ℕ)
    → is_hex c ≡ true
    → (nibble c < 16) × (hex_digit (nibble c) ≡ c) × ((nat_beq c 32 || leb 9 c && leb c 13) ≡ false)
unfolding nibble hex_digit is_hex
digit c x = ground arith

-- Hexadecimal text of even length decodes to half as many bytes, which encode to it again.
decode :
    (n : ℕ) (s : Text)
    → all is_hex s ≡ true
    → length s ≡ n + n
    → (bs : List ℕ) × (from_hex s ≡ some bs) × (length bs ≡ n) × (to_hex bs ≡ s)
unfolding from_hex to_hex all
decode zero [] x e = ([], refl, refl, refl)
decode zero (c ∷ s) x e = ground arith
decode (suc n) [] x e = ground arith
decode (suc n) (c ∷ []) x e = ground arith
decode (suc n) (c ∷ d ∷ s) x e =
    let (bs, f, l, g) = decode n s (ground arith) (ground arith) in
    (
      (nibble c * 16 + nibble d) ∷ bs,
      ground (arith, digit c, digit d, f),
      ground arith,
      ground (arith, digit c, digit d, g),
    )

digest_bytes_lem :
    (d : Text) → is_digest d ≡ true → (length (digest_bytes d) ≡ 32) × (to_hex (digest_bytes d) ≡ d)
digest_bytes_lem d x =
    let (bs, f, l, g) = decode 32 d (ground arith) (ground arith) in
    (ground (arith, f, l), ground (arith, f, g))

frame_parts :
    (a b : List ℕ)
    → length a ≡ 32
    → length b ≡ 32
    → (length (tick_magic ++ a ++ b) ≡ tick_bytes)
      × (take 4 (tick_magic ++ a ++ b) ≡ tick_magic)
      × (take 32 (drop 4 (tick_magic ++ a ++ b)) ≡ a)
      × (take 32 (drop 36 (tick_magic ++ a ++ b)) ≡ b)
frame_parts a b l m = (
  ground (arith, length-append a b, l, m),
  refl,
  take-append 32 a b l,
  ap (take 32) (drop-append 32 a b l ∙ sym (append-nil b)) ∙ take-append 32 b [] m,
)

-- A canonical tip packs, with any presence, to a frame of 68 bytes, which unpacks to the hash of the
-- presence and to that tip.
pub unpack_tick-pack_tick :
    (h : Hash) (presence tip_hash tip : Text)
    → canonical_hash tip_hash ≡ ok tip
    → (frame : List ℕ) × (pack_tick h presence tip_hash ≡ ok frame)
      × (length frame ≡ tick_bytes)
      × (unpack_tick frame
          ≡ ok (record { presence = h.sha256_hex (utf8 presence); tip_hash = tip }))
unfolding pack_tick unpack_tick
unpack_tick-pack_tick h presence tip_hash tip e =
    let first =
      digest_bytes_lem (h.sha256_hex (utf8 presence)) (h.sha256_hex-IsDigest (utf8 presence)) in
    let second = digest_bytes_lem tip (canonical_hash-digest tip_hash tip e) in
    let a = digest_bytes (h.sha256_hex (utf8 presence)) in
    let b = digest_bytes tip in
    let parts = frame_parts a b first.0 second.0 in
    (
      tick_magic ++ a ++ b,
      ground (arith, e, parts.0),
      parts.0,
      ground
          (arith, parts.0, parts.1, parts.2, parts.3, first.1, second.1, list_beq_refl tick_magic),
    )

never_both : (c a b : Text) → (a == b) ≡ false → ((c == a) && (c == b)) ≡ false
never_both c a b d = ground (arith, list_beq_iff c a, list_beq_iff c b, list_beq_iff a b)

-- A clock is admitted on a socket exactly as the half-second clock on the tick socket or the dwell
-- clock on the dwell socket, or as neither clock on neither socket.
pub refuse_shared_socket_iff :
    (clock socket : Text)
    → (refuse_shared_socket clock socket ≡ ok tt) ↔ (
        ((clock == codes "tick_0.5_1s") ≡ (socket == codes "tick_socket"))
        × ((clock == codes "dwell_777s") ≡ (socket == codes "dwell_socket")))
unfolding refuse_shared_socket list_beq
refuse_shared_socket_iff clock socket = ground (
  arith,
  never_both clock (codes "tick_0.5_1s") (codes "dwell_777s") refl,
  never_both socket (codes "tick_socket") (codes "dwell_socket") refl,
)
