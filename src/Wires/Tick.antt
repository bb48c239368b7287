-- ===== src/Wires/Tick.antt =====
-- qnm/wires.py: the fixed-size tick frame, and what may stand on the tick plane.
use qnm_node.Base.{
  ℕ, zero, suc, ◌>>=◌, ◌>>◌, refuse_if, Bool, true, false, ◌&&◌, ◌||◌, not, Option, none, some,
  List, [], ◌∷◌, ◌++◌, nat_beq, ◌==◌, list_eq, nat_eq, Text, codes, length, Result, ok, refuse, Act,
  if◌then◌else◌, contains, any, keep,
}
use qnm_node.Base.{
  tick_size as tick_size_refused, tick_plane, two_clocks, emit_last, wires_fail_closed,
}
use qnm_node.Bytes.{from_hex, to_hex, utf8}
use qnm_node.Digest.{Hash, canonical_hash}
use qnm_node.Wires.{Wires, Emitted}

-- b"QNT1"
abbrev pub tick_magic : List ℕ
tick_magic = codes "QNT1"

abbrev pub tick_bytes : ℕ
tick_bytes = 68

abbrev pub take : ℕ → List ℕ → List ℕ
take zero xs = []
take (suc n) [] = []
take (suc n) (x ∷ xs) = x ∷ take n xs

abbrev pub drop : ℕ → List ℕ → List ℕ
drop zero xs = xs
drop (suc n) [] = []
drop (suc n) (x ∷ xs) = drop n xs

-- `bytes.fromhex` of a digest, which never fails
abbrev pub digest_bytes : Text → List ℕ
digest_bytes d = elim (from_hex d) [ none ↦ [] | some bytes ↦ bytes ]

-- `pack_tick(presence, tip_hash)`
unfoldable pub pack_tick : Hash → Text → Text → Result (List ℕ)
pack_tick h presence tip_hash = do
  tip ← canonical_hash tip_hash
  let frame : List ℕ = tick_magic ++ digest_bytes (h.sha256_hex (utf8 presence)) ++ digest_bytes tip
  refuse_if (not (nat_beq (length frame) tick_bytes)) tick_size_refused
  ok frame

-- What `unpack_tick` reads: the hash of the presence and the tip.
pub record Tick : Type 0 where
  pub presence : Text
  pub tip_hash : Text

-- `unpack_tick(frame)`
unfoldable pub unpack_tick : List ℕ → Result Tick
unpack_tick frame =
    if not (nat_beq (length frame) tick_bytes)
    then refuse tick_size_refused
    else if not (take 4 frame == tick_magic)
    then refuse wires_fail_closed
    else ok (record {
      presence = to_hex (take 32 (drop 4 frame));
      tip_hash = to_hex (take 32 (drop 36 frame));
    })

-- A tick that arrives as a JSON object: its keys, its plane if it names one, and its two fields.
pub record TickObject : Type 0 where
  pub keys : List Text
  pub plane : Option Text
  pub presence : Text
  pub tip_hash : Text

abbrev pub tick_keys : List Text
tick_keys = codes "presence" ∷ codes "tip_hash" ∷ codes "plane" ∷ []

abbrev is_tick_plane : Option Text → Bool
is_tick_plane none = true
is_tick_plane (some plane) = plane == codes "tick"

abbrev pub tick_forbidden : List Text
tick_forbidden =
    codes "body"
    ∷ codes "diff"
    ∷ codes "file"
    ∷ codes "payload"
    ∷ codes "bytes"
    ∷ codes "blob"
    ∷ codes "content"
    ∷ codes "data"
    ∷ []

abbrev no_keys : List Text → Bool
no_keys [] = true
no_keys (k ∷ ks) = false

-- `admit_tick(raw)` for a JSON object; a forbidden key and any other extra key are refused alike.
unfoldable pub admit_object : Hash → TickObject → Result Tick
admit_object h raw = do
  let extra : List Text = keep (λ k. not (contains tick_keys k)) raw.keys
  refuse_if (any (λ k. contains tick_forbidden k) extra) tick_plane
  refuse_if (not (no_keys extra)) tick_plane
  refuse_if (not (is_tick_plane raw.plane)) tick_plane
  frame ← pack_tick h raw.presence raw.tip_hash
  unpack_tick frame

-- `admit_tick(raw)` for bytes
unfoldable pub admit_bytes : List ℕ → Result Tick
admit_bytes raw = if take 4 raw == tick_magic then unpack_tick raw else refuse tick_plane

-- `refuse_shared_socket(clock, socket)`
unfoldable pub refuse_shared_socket : Text → Text → Result (Unit {0})
refuse_shared_socket clock socket = do
  let on_tick : Bool = socket == codes "tick_socket"
  let on_dwell : Bool = socket == codes "dwell_socket"
  let by_tick : Bool = clock == codes "tick_0.5_1s"
  let by_dwell : Bool = clock == codes "dwell_777s"
  refuse_if
      (by_tick && on_dwell
        || by_dwell && on_tick
        || (on_tick || on_dwell) && not (by_tick || by_dwell))
      two_clocks
  refuse_if (by_tick && not on_tick) two_clocks
  refuse_if (by_dwell && not on_dwell) two_clocks

-- `emit_tick(presence, tip_hash)`
unfoldable pub emit_tick : Hash → Text → Text → Act Wires Emitted
emit_tick h presence tip_hash w =
    if not w.chain_ok || not w.verified_local
    then (refuse emit_last, w)
    else elim (canonical_hash tip_hash) [
      | refuse code ↦ (refuse code, w)
      | ok tip ↦ elim (pack_tick h presence tip) [
        | refuse code ↦ (refuse code, w)
        | ok frame ↦
            let rec : Emitted = record { presence = presence; tip_hash = tip; tick = frame } in
            (ok rec, record w { emitted = w.emitted ++ rec ∷ [] })
      ]
    ]
