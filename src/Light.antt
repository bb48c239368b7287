-- ===== src/Light.antt =====
-- qnsd/light/codec.py: a photon as on-off keyed bits. What a photon is, and `dumps` and `loads` of
-- qnsd/photon.py, which read and write JSON, are parameters; both may refuse.
pub mod Codec
use qnm_node.Base.{
  ℕ, zero, suc, ◌+◌, ◌-◌, ◌*◌, ◌/◌, ◌%◌, ◌^◌, ◌>>=◌, ◌>>◌, refuse_if, ◌≤◌, ◌<◌, ◌≡◌, refl, sym, ap,
  ◌∙◌, ◌≢◌, ◌↔◌, ◌⊎◌, inl, inr, Bool, true, false, ◌&&◌, ◌||◌, not, Option, none, some, List, [],
  ◌∷◌, ◌++◌, map, arith, ltb, leb, nat_beq, nat_beq_iff, ◌==◌, Eq, list_eq, nat_eq, list_beq,
  list_beq_iff, list_beq_refl, beq_refl, beq-false, Text, Bool-cases, Option-cases, Result-cases,
  codes, length, length-append, Result, ok, refuse, Code, is_ok, Act, is_empty, if◌then◌else◌, Dict,
  get, put, get-put, get-put_self, is_some, contains, add, contains-add, contains-append, any, all,
  keep, find,
}
use qnm_node.Bytes.{take, drop, to_bytes4, from_bytes}
use qnm_node.Digest.{Hash}

-- `PREAMBLE_BITS`
abbrev pub preamble : List ℕ
preamble = 1 ∷ 0 ∷ 1 ∷ 0 ∷ 1 ∷ 0 ∷ 1 ∷ 0 ∷ 1 ∷ 1 ∷ 1 ∷ 1 ∷ 0 ∷ 0 ∷ 0 ∷ 0 ∷ []

-- `_bytes_to_bits(data)`
unfoldable pub bytes_to_bits : List ℕ → List ℕ
bytes_to_bits [] = []
bytes_to_bits (b ∷ data_left) =
    (b / 128 % 2)
    ∷ (b / 64 % 2)
    ∷ (b / 32 % 2)
    ∷ (b / 16 % 2)
    ∷ (b / 8 % 2)
    ∷ (b / 4 % 2)
    ∷ (b / 2 % 2)
    ∷ (b % 2)
    ∷ bytes_to_bits data_left

-- `value = (value << 1) | (1 if bit else 0)`
unfoldable pub shift_in : ℕ → ℕ → ℕ
shift_in value bit = 2 * value + (if nat_beq bit 0 then 0 else 1)

-- `_bits_to_bytes(bits)`, which leaves out an unfinished byte at the end
unfoldable pub bits_to_bytes : List ℕ → List ℕ
unfolding shift_in
bits_to_bytes (a ∷ b ∷ c ∷ d ∷ e ∷ f ∷ g ∷ h ∷ bits) =
    shift_in
      (shift_in (shift_in (shift_in (shift_in (shift_in (shift_in (shift_in 0 a) b) c) d) e) f) g) h
    ∷ bits_to_bytes bits
bits_to_bytes bits = []

-- What `decode` is given: bytes, or a list or tuple of bits.
pub data Raw : Type 0 where
  as_bytes as_list : List ℕ → Raw

-- `[1 if ch == 49 else 0 for ch in raw]`
unfoldable pub digits : List ℕ → List ℕ
digits [] = []
digits (c ∷ raw) = (if nat_beq c 49 then 1 else 0) ∷ digits raw

unfoldable pub ones : List ℕ → List ℕ
ones [] = []
ones (b ∷ bits) = (if nat_beq b 0 then 0 else 1) ∷ ones bits

-- `_as_bits(raw)`
unfoldable pub as_bits : Raw → List ℕ
unfolding take drop digits ones
as_bits (as_list bits) = ones bits
as_bits (as_bytes raw) =
    if take 4 raw == codes "OOK:"
    then digits (drop 4 raw)
    else if take 16 raw == preamble
    then raw
    else digits raw

unfoldable pub plus_48 : List ℕ → List ℕ
plus_48 [] = []
plus_48 (b ∷ bits) = (48 + b) ∷ plus_48 bits

-- What `decode` reports: a photon with the digest, or a probe with or without the detail of a hash
-- mismatch.
pub data Reading (Photon : Type 0) : Type 0 where
  photon : Photon → List ℕ → Reading Photon
  probe mismatch : Reading Photon

-- What `encode` is given: a photon, or a dict of its fields.
pub data Given (Photon Row : Type 0) : Type 0 where
  as_photon : Photon → Given Photon Row
  as_dict : Row → Given Photon Row

-- The bits of a payload, from the preamble to the digest.
unfoldable pub encode_payload : Hash → List ℕ → List ℕ
unfolding bytes_to_bits to_bytes4 plus_48
encode_payload hash payload =
    codes "OOK:"
    ++ plus_48 (
        preamble
        ++ bytes_to_bits (to_bytes4 (length payload) ++ (payload ++ hash.sha256_hex payload)))

-- `dumps` of a photon, `loads` of a dict and `loads` of bytes
module _ {Photon Row : Type 0} (hash : Hash) (dumps : Photon → Result (List ℕ))
    (loads_dict : Row → Result Photon) (loads : List ℕ → Result Photon) where
  -- `dumps(photon if isinstance(photon, Photon) else loads(photon))`
  unfoldable pub payload_of : Given Photon Row → Result (List ℕ)
  payload_of (as_photon p) = dumps p
  payload_of (as_dict row) = loads_dict row >>= dumps

  -- `encode(photon)`
  unfoldable pub encode : Given Photon Row → Result (List ℕ)
  unfolding payload_of encode_payload
  encode given = payload_of given >>= λ payload. ok (encode_payload hash payload)

  -- `decode(raw)` once the bits are read to bytes
  unfoldable pub decode_body : List ℕ → Result (Reading Photon)
  unfolding take drop from_bytes
  decode_body body =
      let size = from_bytes 0 (take 4 body) in
      let payload = take size (drop 4 body) in
      let digest = take 64 (drop size (drop 4 body)) in
      if ltb (length body) (4 + 64)
      then ok probe
      else if not (digest == hash.sha256_hex payload)
      then ok mismatch
      else (loads payload >>= λ p. ok (photon p digest))

  -- `decode(raw)`
  unfoldable pub decode : Raw → Result (Reading Photon)
  unfolding as_bits bits_to_bytes decode_body
  decode raw =
      let bits = as_bits raw in
      if ltb (length bits) 16 || not (take 16 bits == preamble)
      then ok probe
      else decode_body (bits_to_bytes (drop 16 bits))

  -- `bits_without_preamble(photon)`
  unfoldable pub bits_without_preamble : Given Photon Row → Result (List ℕ)
  unfolding bytes_to_bits plus_48 payload_of
  bits_without_preamble given =
      payload_of given >>= λ payload. ok (codes "OOK:" ++ plus_48 (bytes_to_bits payload))
