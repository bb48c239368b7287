-- ===== src/Light/Codec.antt =====
-- qnsd/light/codec.py: decoding what was encoded gives the payload to `loads` again.
use qnm_node.Base.{
  ◌>>=◌, Result, ok, ℕ, ◌+◌, ◌*◌, ◌/◌, ◌%◌, ◌<◌, ◌≡◌, refl, ap, ◌∙◌, true, false, ◌||◌, not, List,
  [], ◌∷◌, ◌++◌, arith, ltb, ◌==◌, list_eq, nat_eq, list_beq, list_beq_refl, beq_refl, codes,
  length, length-append, all,
}
use qnm_node.Bytes.{
  IsBytes, take, drop, to_bytes4, from_bytes-to_bytes4, take-append, drop-append, take-all,
}
use qnm_node.Digest.{Hash}
use qnm_node.Base.{is_hex}
use mathlib.Core.Path.{subst}
use qnm_node.Light.{
  preamble, bytes_to_bits, shift_in, bits_to_bytes, Raw, as_bytes, digits, as_bits, plus_48, photon,
  Given, payload_of, encode_payload, encode, decode_body, decode,
}

-- Zeros and ones.
abbrev IsBinary : List ℕ → Type 0
IsBinary [] = Unit {0}
IsBinary (b ∷ bits) = (b < 2) × IsBinary bits

digits-plus_48 : (bits : List ℕ) → IsBinary bits → digits (plus_48 bits) ≡ bits
unfolding digits plus_48
digits-plus_48 [] i = refl
digits-plus_48 (b ∷ bits) i = ground (arith, i.0, digits-plus_48 bits i.1)

bytes_to_bits-IsBinary : (bs : List ℕ) → IsBinary (bytes_to_bits bs)
unfolding bytes_to_bits
bytes_to_bits-IsBinary [] = tt
bytes_to_bits-IsBinary (b ∷ bs) = (
  omega arith,
  (
    omega arith,
    (
      omega arith,
      (
        omega arith,
        (omega arith, (omega arith, (omega arith, (omega arith, bytes_to_bits-IsBinary bs)))),
      ),
    ),
  ),
)

bit_in : (value bit : ℕ) → bit < 2 → shift_in value bit ≡ 2 * value + bit
unfolding shift_in
bit_in value bit l = ground (arith, l)

-- The eight bits of a byte give the byte back.
shift_in-byte :
    (b : ℕ)
    → b < 256
    → shift_in
        (shift_in
          (shift_in
            (shift_in
              (shift_in
                (shift_in (shift_in (shift_in 0 (b / 128 % 2)) (b / 64 % 2)) (b / 32 % 2))
                (b / 16 % 2))
              (b / 8 % 2))
            (b / 4 % 2))
          (b / 2 % 2))
        (b % 2)
      ≡ b
shift_in-byte b l =
    rw
      (
        bit_in 0 (b / 128 % 2) (omega arith),
        bit_in _ (b / 64 % 2) (omega arith),
        bit_in _ (b / 32 % 2) (omega arith),
        bit_in _ (b / 16 % 2) (omega arith),
        bit_in _ (b / 8 % 2) (omega arith),
        bit_in _ (b / 4 % 2) (omega arith),
        bit_in _ (b / 2 % 2) (omega arith),
        bit_in _ (b % 2) (omega arith),
      )
      (omega arith)

bits_to_bytes-bytes_to_bits : (bs : List ℕ) → IsBytes bs → bits_to_bytes (bytes_to_bits bs) ≡ bs
unfolding bits_to_bytes bytes_to_bits
bits_to_bytes-bytes_to_bits [] i = refl
bits_to_bytes-bytes_to_bits (b ∷ bs) i =
    cc (shift_in-byte b i.0, bits_to_bytes-bytes_to_bits bs i.1)

append-IsBytes : (xs ys : List ℕ) → IsBytes xs → IsBytes ys → IsBytes (xs ++ ys)
append-IsBytes [] ys i j = j
append-IsBytes (x ∷ xs) ys i j = (i.0, append-IsBytes xs ys i.1 j)

hex-IsBytes : (d : List ℕ) → all is_hex d ≡ true → IsBytes d
unfolding all is_hex
hex-IsBytes [] h = tt
hex-IsBytes (c ∷ d) h = (ground (arith, h), hex-IsBytes d (ground arith))

module _ (hash : Hash) where
  digest-length : (payload : List ℕ) → length (hash.sha256_hex payload) ≡ 64
  digest-length payload = ground (arith, hash.sha256_hex-IsDigest payload)

  digest-IsBytes : (payload : List ℕ) → IsBytes (hash.sha256_hex payload)
  digest-IsBytes payload =
      hex-IsBytes (hash.sha256_hex payload) (ground (arith, hash.sha256_hex-IsDigest payload))

  head4 : (n : ℕ) (rest : List ℕ) → take 4 (to_bytes4 n ++ rest) ≡ to_bytes4 n
  unfolding take to_bytes4
  head4 n rest = refl

  tail4 : (n : ℕ) (rest : List ℕ) → drop 4 (to_bytes4 n ++ rest) ≡ rest
  unfolding drop to_bytes4
  tail4 n rest = refl

  take64 : (d : List ℕ) → length d ≡ 64 → take 64 d ≡ d
  take64 d l = subst (λ n. take n d ≡ d) l (take-all d)

  long_enough :
      (payload : List ℕ)
      → ltb (length (to_bytes4 (length payload) ++ (payload ++ hash.sha256_hex payload))) (4 + 64)
        ≡ false
  unfolding to_bytes4
  long_enough payload =
      ground (arith, digest-length payload, length-append payload (hash.sha256_hex payload))

  has_preamble :
      (bits : List ℕ)
      → (ltb (length (preamble ++ bits)) 16 || not (take 16 (preamble ++ bits) == preamble)) ≡ false
  unfolding take list_beq
  has_preamble bits = ground arith

  encoded-IsBytes :
      (payload : List ℕ)
      → IsBytes payload
      → IsBytes (to_bytes4 (length payload) ++ (payload ++ hash.sha256_hex payload))
  unfolding to_bytes4
  encoded-IsBytes payload i = (
    omega arith,
    (
      omega arith,
      (
        omega arith,
        (omega arith, append-IsBytes payload (hash.sha256_hex payload) i (digest-IsBytes payload)),
      ),
    ),
  )

  append-IsBinary : (xs ys : List ℕ) → IsBinary xs → IsBinary ys → IsBinary (xs ++ ys)
  append-IsBinary [] ys i j = j
  append-IsBinary (x ∷ xs) ys i j = (i.0, append-IsBinary xs ys i.1 j)

  bits-IsBinary : (xs : List ℕ) → all (λ b. ltb b 2) xs ≡ true → IsBinary xs
  unfolding all
  bits-IsBinary [] h = tt
  bits-IsBinary (b ∷ xs) h = (ground (arith, h), bits-IsBinary xs (ground (arith, h)))

  preamble-IsBinary : IsBinary preamble
  unfolding all
  preamble-IsBinary = bits-IsBinary preamble refl

  body_bits :
      (body : List ℕ)
      → IsBytes body
      → bits_to_bytes (drop 16 (preamble ++ bytes_to_bits body)) ≡ body
  unfolding drop
  body_bits body i = bits_to_bytes-bytes_to_bits body i

  bits_of :
      (bits : List ℕ)
      → IsBinary bits
      → as_bits (as_bytes (codes "OOK:" ++ plus_48 (preamble ++ bits))) ≡ preamble ++ bits
  unfolding as_bits take drop
  bits_of bits i =
      rw (list_beq_refl (codes "OOK:"))
        (digits-plus_48 (preamble ++ bits) (append-IsBinary preamble bits preamble-IsBinary i))

module _ {Photon Row : Type 0} (hash : Hash) (dumps : Photon → Result (List ℕ))
    (loads_dict : Row → Result Photon) (loads : List ℕ → Result Photon) where
  decode_body-encoded :
      (payload : List ℕ)
      → length payload < 4294967296
      → decode_body hash dumps loads_dict loads
          (to_bytes4 (length payload) ++ (payload ++ hash.sha256_hex payload))
        ≡ (loads payload >>= λ p. ok (photon p (hash.sha256_hex payload)))
  unfolding decode_body
  decode_body-encoded payload small =
      rw
        (
          decode_body,
          head4 hash (length payload) (payload ++ hash.sha256_hex payload),
          tail4 hash (length payload) (payload ++ hash.sha256_hex payload),
          from_bytes-to_bytes4 (length payload) small,
          take-append payload (hash.sha256_hex payload),
          drop-append payload (hash.sha256_hex payload),
          take64 hash (hash.sha256_hex payload) (digest-length hash payload),
          beq_refl (hash.sha256_hex payload),
          long_enough hash payload,
        )
        refl

  decode-bits :
      (raw : Raw) (bits : List ℕ)
      → as_bits raw ≡ preamble ++ bits
      → decode hash dumps loads_dict loads raw
        ≡ decode_body hash dumps loads_dict loads (bits_to_bytes (drop 16 (preamble ++ bits)))
  unfolding decode
  decode-bits raw bits e = rw (decode, e, has_preamble hash bits) refl

  decode-payload :
      (payload : List ℕ)
      → IsBytes payload
      → length payload < 4294967296
      → decode hash dumps loads_dict loads (as_bytes (encode_payload hash payload))
        ≡ (loads payload >>= λ p. ok (photon p (hash.sha256_hex payload)))
  unfolding encode_payload
  decode-payload payload i small =
      let body = to_bytes4 (length payload) ++ (payload ++ hash.sha256_hex payload) in
      decode-bits (as_bytes (encode_payload hash payload)) (bytes_to_bits body)
        (bits_of hash (bytes_to_bits body) (bytes_to_bits-IsBinary body))
      ∙ ap (decode_body hash dumps loads_dict loads)
          (body_bits hash body (encoded-IsBytes hash payload i))
      ∙ decode_body-encoded payload small

  -- What `dumps` gives for a photon or a dict, fewer than 2 ^ 32 bytes, comes out of the bits that
  -- `encode` makes of it unchanged: decoding them gives what `loads` makes of exactly those bytes, with
  -- their digest, or its refusal.
  pub decode-encode :
      (given : Given Photon Row) (payload : List ℕ)
      → payload_of hash dumps loads_dict loads given ≡ ok payload
      → IsBytes payload
      → length payload < 4294967296
      → (encode hash dumps loads_dict loads given >>= λ raw.
          decode hash dumps loads_dict loads (as_bytes raw))
        ≡ (loads payload >>= λ p. ok (photon p (hash.sha256_hex payload)))
  unfolding encode
  decode-encode given payload e i small = rw (encode, e) (decode-payload payload i small)
