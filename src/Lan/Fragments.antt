-- ===== src/Lan/Fragments.antt =====
-- qnsd/lan/session.py, `_split`, `_reassemble` and the start of `_serve_one`: a packet goes in fragments.
-- A frame is taken as parsed; how many bytes its JSON has is the parameter `frame_bytes`. The signature check of a
-- fragment (qnsd/lan/sign.py), base 64 and the check of its keys are one parameter, `admits`, and the
-- body is modelled as decoded; the constants are those of qnsd/lan/contract.py.
use qnm_node.Base.{
  ℕ, ◌-◌, ◌&&◌, all, codes, zero, suc, ◌+◌, ◌*◌, ◌>>=◌, ◌>>◌, refuse_if, Bool, false, ◌||◌, not,
  Option, none, some, List, [], ◌∷◌, ◌++◌, ltb, leb, nat_beq, ◌==◌, list_eq, nat_eq, Text, length,
  Result, ok, refuse, if◌then◌else◌, Dict, get, put,
}
use qnm_node.Bytes.{take, drop}
use qnm_node.Base.{lan_unavailable, lan_quota, lan_fork, lan_malformed, lan_identity, lan_refused}

abbrev pub max_fragments : ℕ
max_fragments = 32

abbrev pub max_frame : ℕ
max_frame = 65536

abbrev pub max_reassembly : ℕ
max_reassembly = 262144

-- The pieces `raw[index : index + size]` for each index of the range, one for each unit of fuel; the
-- length of `raw` is enough fuel, since a piece has at least one byte.
unfoldable pub pieces : ℕ → ℕ → List ℕ → List (List ℕ)
unfolding take drop
pieces fuel size [] = []
pieces zero size (b ∷ raw) = []
pieces (suc fuel) size (b ∷ raw) = take size (b ∷ raw) ∷ pieces fuel size (drop size (b ∷ raw))

abbrev pub or_one_empty : List (List ℕ) → List (List ℕ)
or_one_empty [] = [] ∷ []
or_one_empty (p ∷ ps) = p ∷ ps

-- `_split(raw, size)`
unfoldable pub split : List ℕ → ℕ → Result (List (List ℕ))
unfolding pieces
split raw size =
    if ltb (max_fragments * size) (length raw) || ltb max_reassembly (length raw)
    then refuse lan_quota
    else ok (or_one_empty (pieces (length raw) size raw))

pub record Fragment : Type 0 where
  pub kind : Text
  pub handle : Text
  pub packet_id : Text
  pub payload_hash : Text
  pub index : ℕ
  pub count : ℕ
  pub total : ℕ
  pub sha256 : Text
  pub body : List ℕ

-- `b"".join(...)`
unfoldable pub join : List (List ℕ) → List ℕ
join [] = []
join (p ∷ ps) = p ++ join ps

-- `slots[index] for index in range(count)` from `index` on
unfoldable pub slots_from : Dict ℕ (List ℕ) → ℕ → ℕ → List (List ℕ)
slots_from slots index zero = []
slots_from slots index (suc n) = elim (get slots index) [
  | none ↦ slots_from slots (index + 1) n
  | some piece ↦ piece ∷ slots_from slots (index + 1) n
]

abbrev is_other : Option (List ℕ) → List ℕ → Bool
is_other none piece = false
is_other (some prior) piece = not (prior == piece)

module _ (hash_of : List ℕ → Text) (admits : Fragment → Result (Unit {0})) where
  -- The checks of one fragment against the first, in order.
  unfoldable pub check_fragment : Text → Fragment → Fragment → Dict ℕ (List ℕ) → Result (Unit {0})
  check_fragment peer_handle first frame slots =
      admits frame
      >> refuse_if (not (frame.handle == peer_handle)) lan_identity
      >> refuse_if (not (nat_beq frame.count first.count) || not (nat_beq frame.total first.total))
          lan_fork
      >> refuse_if
          (not (frame.packet_id == first.packet_id)
            || not (frame.payload_hash == first.payload_hash))
          lan_fork
      >> refuse_if (leb first.count frame.index) lan_malformed
      >> refuse_if (not (hash_of frame.body == frame.sha256)) lan_refused
      >> refuse_if (is_other (get slots frame.index) frame.body) lan_fork

  -- `for frame in frames: ...`, which fills the slots
  unfoldable pub fill : Text → Fragment → List Fragment → Dict ℕ (List ℕ) → Result (Dict ℕ (List ℕ))
  unfolding check_fragment
  fill peer_handle first [] slots = ok slots
  fill peer_handle first (frame ∷ frames) slots =
      check_fragment peer_handle first frame slots
      >> fill peer_handle first frames (put slots frame.index frame.body)

  -- `_reassemble(frames, peer_handle)`, of the first frame and the others
  unfoldable pub reassemble : Text → Fragment → List Fragment → Result (List ℕ)
  unfolding fill join slots_from
  reassemble peer_handle first frames =
      refuse_if (ltb first.total 1 || ltb max_reassembly first.total) lan_quota
      >> (fill peer_handle first (first ∷ frames) [] >>= λ slots.
          refuse_if (not (nat_beq (length slots) first.count)) lan_malformed
          >> (let raw = join (slots_from slots 0 first.count) in
              refuse_if (not (nat_beq (length raw) first.total)) lan_malformed >> ok raw))

-- The frames that are read after the first.
unfoldable pub first_of : ℕ → List Fragment → List Fragment
first_of zero frames = []
first_of (suc n) [] = []
first_of (suc n) (frame ∷ frames) = frame ∷ first_of n frames

-- The fragments of `send_envelope`, with their numbers from `index` on.
unfoldable pub fragments_from :
    Text → Text → Text → (List ℕ → Text) → ℕ → ℕ → ℕ → List (List ℕ) → List Fragment
fragments_from handle packet_id payload_hash hash_of index count total [] = []
fragments_from handle packet_id payload_hash hash_of index count total (piece ∷ rest) =
    let frag : Fragment = record {
      kind = codes "fragment";
      handle = handle;
      packet_id = packet_id;
      payload_hash = payload_hash;
      index = index;
      count = count;
      total = total;
      sha256 = hash_of piece;
      body = piece;
    } in
    frag ∷ fragments_from handle packet_id payload_hash hash_of (index + 1) count total rest

-- What `encode_frame` allows.
abbrev pub fits : (Fragment → ℕ) → Fragment → Bool
fits frame_bytes frag = leb 1 (frame_bytes frag) && leb (frame_bytes frag) max_frame

-- The fragments that `send_envelope` writes for the packet `raw`. A fragment whose frame exceeds the
-- cap is refused by `write_frame`; those before it have gone out then, which the result does not say.
unfoldable pub send_fragments :
    Text → Text → Text → (List ℕ → Text) → (Fragment → ℕ) → ℕ → List ℕ → Result (List Fragment)
unfolding split fragments_from
send_fragments handle packet_id payload_hash hash_of frame_bytes size raw = split raw size >>= λ ps.
    let frags =
      fragments_from handle packet_id payload_hash hash_of 0 (length ps) (length raw) ps in
    refuse_if (not (all (fits frame_bytes) frags)) lan_malformed >> ok frags

-- The start of `_serve_one`, up to the packet: it reads a frame and then as many as that one counts. Where
-- the frames end before, the connection is closed.
unfoldable pub receive :
    (List ℕ → Text) → (Fragment → Result (Unit {0})) → Text → List Fragment → Result (List ℕ)
unfolding reassemble
receive hash_of admits peer_handle [] = refuse lan_unavailable
receive hash_of admits peer_handle (first ∷ frames) =
    refuse_if (not (first.kind == codes "fragment")) lan_malformed
    >> refuse_if (ltb first.count 1 || ltb max_fragments first.count) lan_quota
    >> refuse_if (ltb (suc (length frames)) first.count) lan_unavailable
    >> reassemble hash_of admits peer_handle first (first_of (first.count - 1) frames)
