-- ===== src/Digest.antt =====
-- qnm/wires.py `canonical_hash`, and `hashlib.sha256` as a parameter of whatever hashes.
use mathlib.Core.List.{reverse, reverse-cons, reverse-reverse}
use qnm_node.Base.{
  ℕ, ◌≡◌, refl, Bool, true, ◌&&◌, ◌||◌, not, [], ◌∷◌, ◌++◌, arith, nat_beq, Text, length,
  strip_left, is_space, all, lower, strip, is_hex, is_hex-lower_code, Result, ok, refuse,
  wires_fail_closed, if◌then◌else◌,
}

abbrev pub hash_len : ℕ
hash_len = 64

-- 64 lower-case hexadecimal digits.
abbrev pub is_digest : Text → Bool
is_digest d = nat_beq (length d) hash_len && all is_hex d

-- `canonical_hash(value)`
unfoldable pub canonical_hash : Text → Result Text
canonical_hash value =
    let digest = lower (strip value) in
    if not (nat_beq (length digest) hash_len) || not (all is_hex digest)
    then refuse wires_fail_closed
    else ok digest

-- `hashlib.sha256(data).hexdigest()`: always 64 lower-case hexadecimal digits.
pub record Hash : Type 0 where
  pub sha256_hex : Text → Text
  pub sha256_hex-IsDigest : (raw : Text) → is_digest (sha256_hex raw) ≡ true

-- Whatever is accepted comes back as a digest.
pub canonical_hash-digest : (v d : Text) → canonical_hash v ≡ ok d → is_digest d ≡ true
unfolding canonical_hash
canonical_hash-digest v d h = ground arith

lower-hex : (s : Text) → all is_hex s ≡ true → lower s ≡ s
unfolding lower all
lower-hex [] h = refl
lower-hex (c ∷ s) h = ground (arith, is_hex-lower_code c, lower-hex s)

strip_left-hex : (s : Text) → all is_hex s ≡ true → strip_left s ≡ s
unfolding strip_left all is_space is_hex
strip_left-hex [] h = refl
strip_left-hex (c ∷ s) h = ground arith

all-append : (s t : Text) → all is_hex (s ++ t) ≡ (all is_hex s && all is_hex t)
unfolding all
all-append [] t = refl
all-append (c ∷ s) t = ground (arith, all-append s t)

all-reverse : (s : Text) → all is_hex s ≡ true → all is_hex (reverse s) ≡ true
unfolding all
all-reverse [] h = refl
all-reverse (c ∷ s) h =
    rw reverse-cons (ground (arith, all-append (reverse s) (c ∷ []), all-reverse s))

pub strip-hex : (s : Text) → all is_hex s ≡ true → strip s ≡ s
unfolding strip
strip-hex s h =
    rw (strip_left-hex s h) (rw (strip_left-hex (reverse s) (all-reverse s h)) (reverse-reverse s))

-- A digest is canonical already.
pub canonical_hash_self : (d : Text) → is_digest d ≡ true → canonical_hash d ≡ ok d
unfolding canonical_hash
canonical_hash_self d h =
    let hex : all is_hex d ≡ true = ground arith in
    rw (strip-hex d hex) (rw (lower-hex d hex) (ground arith))
