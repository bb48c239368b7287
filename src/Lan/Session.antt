-- ===== src/Lan/Session.antt =====
-- qnsd/lan/session.py: what the receiver of a packet checks, stores and answers, and how the sender reads
-- the answers; with qnsd/lan/ledger.py, the sequence of packets of each peer. Cryptography, JSON, the
-- parsing of a date (none where it raises) and the key sets are parameters or by construction. What is
-- written to the socket is a list of messages.
use qnm_node.Base.{
  Bool, true, false, ℕ, ◌+◌, ◌>>=◌, ◌>>◌, refuse_if, ◌||◌, not, Option, none, some, List, [], ◌∷◌,
  ◌++◌, ltb, nat_beq, ◌==◌, list_eq, nat_eq, Text, codes, length, Result, ok, refuse, Code, Act,
  if◌then◌else◌, Dict, get, put,
}
use qnm_node.Base.{
  pair_eq, lan_fork, lan_malformed, lan_identity, lan_expired, lan_clock, lan_version,
  lan_unavailable, photon_refused, ◌>>>◌,
}
use qnm_node.Digest.{Hash}
use qnm_node.Chain.{genesis_prev}
use qnm_node.Fed.Receipts.{classify_link}
use qnm_node.Lan.Receipts.{Core, Receipt}
use qnm_node.Lan.Receipts as Receipts

abbrev pub clock_skew : ℕ
clock_skew = 120

-- `check_clock(created_utc, expiry_utc, now)`, in seconds
unfoldable pub check_clock : Option ℕ → Option ℕ → ℕ → Result (Unit {0})
check_clock none expiry moment = refuse lan_malformed
check_clock (some created) none moment = refuse lan_malformed
check_clock (some created) (some expiry) moment =
    refuse_if (ltb expiry created) lan_expired
    >> refuse_if (ltb (moment + clock_skew) created) lan_clock
    >> refuse_if (ltb (expiry + clock_skew) moment) lan_expired

-- `ACK_LEVELS`, in order
pub data Level : Type 0 where
  received verified stored : Level

abbrev pub level_rank : Level → ℕ
level_rank received = 0
level_rank verified = 1
level_rank stored = 2

-- `require_ack_level(seen, level)`
unfoldable pub require_ack_level : List Level → Level → Result (Unit {0})
require_ack_level seen level =
    refuse_if (not (nat_beq (length seen) (level_rank level))) lan_malformed

-- `SeqLedger`: the rows on disk, the tips and what was seen.
pub record SeqLedger : Type 0 where
  pub file : List (Text × ℕ × Text × Text)
  pub tips : Dict Text (ℕ × Text)
  pub seen : Dict (Text × ℕ) Text

-- `_classify(handle, seq, prev, digest)`, and `preview`, which is only that
unfoldable pub preview : Text → ℕ → Text → Text → SeqLedger → Result (Unit {0})
preview handle seq prev digest l =
    classify_link (get l.seen (handle, seq)) (get l.tips handle) seq prev digest

-- `_remember(row)`
unfoldable pub remember : Text → ℕ → Text → SeqLedger → SeqLedger
remember handle seq digest l = record l {
  seen = put l.seen (handle, seq) digest;
  tips = put l.tips handle (seq, digest);
}

-- `accept(handle, seq, prev, digest)`
unfoldable pub accept : Text → ℕ → Text → Text → Act SeqLedger Unit
unfolding preview remember
accept handle seq prev digest l = elim (preview handle seq prev digest l) [
  | refuse code ↦ (refuse code, l)
  | ok _ ↦ (
    ok tt,
    remember handle seq digest (record l { file = l.file ++ (handle, seq, prev, digest) ∷ [] }),
  )
]

pub record Envelope : Type 0 where
  pub v : Text
  pub kind : Text
  pub packet_id : Text
  pub payload_hash : Text
  pub src_handle : Text
  pub dst_handle : Text
  pub created : Option ℕ
  pub expiry : Option ℕ
  pub created_utc : Text
  pub alg : Text
  pub session : Text
  -- whether `enc` has no other fields, and whether `body` is an object
  pub enc_exact : Bool
  pub has_body : Bool
  -- of the body: its place in the sequence of the peer, and `envelope_id(body)`
  pub seq : ℕ
  pub prev : Text
  pub body_id : Text

-- What `open_envelope` gives: the inner kind and the JSON of the photon.
pub record Opened : Type 0 where
  pub kind : Text
  pub photon : Text

-- What `loads` gives: the photon, with `photon_id(photon)` and the hash of its payload.
pub record Inner : Type 0 where
  pub photon_id : Text
  pub computed_id : Text
  pub payload_digest : Text
  pub src : Text
  pub dst : Text
  pub hop : ℕ

pub data Message : Type 0 where
  ack : Level → (from to packet_id payload_hash prev : Text) → Message
  outcome : (code : Code) (handle packet_id payload_hash : Text) → Message

pub record Server : Type 0 where
  pub handle : Text
  pub inbox : Dict Text Text
  pub ledger : SeqLedger
  pub receipts : List Receipt
  pub out : List Message

-- Signature checks, decryption, `loads` of qnsd/photon.py (none where it raises), the hash of an ack,
-- receipts, and the clock. No check but `loads` refuses with the code `photon_refused`.
pub record Crypto : Type 0 where
  pub verify_document : Envelope → Result (Unit {0})
  pub open_envelope : Envelope → Result Opened
  pub loads : Text → Option Inner
  pub verify_message : Message → Result (Unit {0})
  pub ack_hash : Message → Text
  pub hash : Hash
  pub canonical : Core → Text
  pub sign : Core → Text → Text
  pub now : ℕ
  pub now_utc : Text

abbrev pub is_photon_refusal : Code → Bool
is_photon_refusal photon_refused = true
is_photon_refusal code = false

-- Who signs a message.
abbrev pub signer_of : Message → Text
signer_of (ack level from to packet_id payload_hash prev) = from
signer_of (outcome code handle packet_id payload_hash) = handle

module _ (c : Crypto) where
  -- `loads(photon)`, which raises a `QNSRefuse`
  unfoldable pub load_photon : Text → Result Inner
  load_photon json = elim (c.loads json) [ none ↦ refuse photon_refused | some inner ↦ ok inner ]

  -- `_verify_packet(node, peer, envelope)`
  unfoldable pub verify_packet : Text → Text → Envelope → Result (Unit {0})
  unfolding check_clock load_photon
  verify_packet handle peer e =
      refuse_if (not (e.src_handle == peer) || not (e.dst_handle == handle)) lan_identity
      >> refuse_if
          (not (e.alg == codes "x25519-hkdf-sha256-aes-256-gcm")
            || not (e.session == codes "tls1.3"))
          lan_version
      >> refuse_if (not e.enc_exact) lan_malformed
      >> c.verify_document e
      >> check_clock e.created e.expiry c.now
      >> refuse_if (not e.has_body) lan_malformed
      >> (c.open_envelope e >>= λ opened.
          refuse_if (not (opened.kind == codes "qns-photon")) lan_malformed
          >> (load_photon opened.photon >>= λ inner.
              refuse_if
                (not (inner.photon_id == e.packet_id) || not (inner.computed_id == e.packet_id))
                lan_fork
              >> refuse_if (not (inner.payload_digest == e.payload_hash)) lan_fork
              >> refuse_if (not (inner.src == peer) || not (inner.dst == handle)) lan_identity))

  -- The receipt that `_store_packet` asks for.
  unfoldable pub receipt_for : Text → Text → Envelope → Inner → Core
  receipt_for handle peer e inner = record {
    handle = handle;
    packet_id = e.packet_id;
    payload_hash = e.payload_hash;
    prev = [];
    from_handle = peer;
    to_handle = handle;
    hop = inner.hop + 1;
    sent_utc = e.created_utc;
    received_utc = c.now_utc;
    outcome = codes "ok";
  }

  -- The end of `_store_packet`: the sequence and the receipt, after the packet was written.
  unfoldable pub record_packet : Text → Envelope → Inner → Act Server Unit
  unfolding accept receipt_for
  record_packet peer e inner s =
      let (result, ledger) = accept peer e.seq e.prev e.body_id s.ledger in
      elim result [
        | refuse code ↦ (refuse code, record s { ledger = ledger })
        | ok _ ↦ (
          ok tt,
          record s {
            ledger = ledger;
            receipts =
                (Receipts.append c.hash c.canonical c.sign (receipt_for s.handle peer e inner)
                  s.receipts).1;
          },
        )
      ]

  -- `loads(open_envelope(...)["photon"])`
  unfoldable pub open_photon : Envelope → Result Inner
  unfolding load_photon
  open_photon e = c.open_envelope e >>= λ opened. load_photon opened.photon

  -- `_store_packet(node, peer, envelope, prev_ack)`
  unfoldable pub store_packet : Text → Envelope → Act Server Unit
  unfolding preview record_packet open_photon
  store_packet peer e s = elim (get s.inbox e.packet_id) [
    | some existing ↦ if not (existing == e.payload_hash) then (refuse lan_fork, s) else (ok tt, s)
    | none ↦ elim (preview peer e.seq e.prev e.body_id s.ledger >> open_photon e) [
      | refuse code ↦ (refuse code, s)
      | ok inner ↦
          record_packet peer e inner (record s { inbox = put s.inbox e.packet_id e.payload_hash })
    ]
  ]

  -- `write_frame(sock, message)`
  unfoldable pub write : Message → Act Server Message
  write m s = (ok m, record s { out = s.out ++ m ∷ [] })

  -- `_ack(...)` at a level
  abbrev pub ack_for : Server → Text → Envelope → Level → Text → Message
  ack_for s peer e level prev = ack level s.handle peer e.packet_id e.payload_hash prev

  -- An answer of `verify_packet` as an act.
  abbrev pub check : Result (Unit {0}) → Act Server Unit
  check r s = (r, s)

  -- The body of the `try` of `_serve_one`
  unfoldable pub serve_steps : Text → Envelope → Act Server Unit
  unfolding ◌>>>◌ verify_packet store_packet write
  serve_steps peer e =
      check (
        refuse_if (not (e.v == codes "QNS-PACKET-1.0")) lan_version
        >> refuse_if (not (e.kind == codes "packet")) lan_malformed)
      >>> λ _ s.
          (write (ack_for s peer e received genesis_prev) >>> λ first.
          check (verify_packet s.handle peer e) >>> λ _.
          write (ack_for s peer e verified (c.ack_hash first)) >>> λ second.
          store_packet peer e >>> λ _.
          write (ack_for s peer e stored (c.ack_hash second)) >>> λ _ t. (ok tt, t))
            s

  -- `except LanRefuse: _write_outcome(...); raise`. The refusal of `loads` is no `LanRefuse`: it is not
  -- answered, and the connection is closed.
  unfoldable pub answer : Envelope → Result (Unit {0}) × Server → Result (Unit {0}) × Server
  answer e (ok _, s) = (ok tt, s)
  answer e (refuse code, s) = if is_photon_refusal code then (refuse code, s) else (
    refuse code,
    record s { out = s.out ++ outcome code s.handle e.packet_id e.payload_hash ∷ [] },
  )

  -- `_serve_one(sock, node, peer)` once the envelope is put together: a refusal
  -- that is a `LanRefuse` is answered by an outcome.
  unfoldable pub serve_one : Text → Envelope → Act Server Unit
  unfolding serve_steps answer
  serve_one peer e s = answer e (serve_steps peer e s)

  -- The loop of `send_envelope` over the answers until the connection is closed, of the sender `handle` about a packet sent to `peer`
  unfoldable pub await_stored :
      Text → Text → Text → Text → List Level → List Message → Result (List Level)
  unfolding require_ack_level
  await_stored handle peer packet_id payload_hash seen [] = refuse lan_unavailable
  await_stored handle peer packet_id payload_hash seen (outcome code signer p q ∷ messages) =
      c.verify_message (outcome code signer p q)
      >> refuse_if (not (signer == peer)) lan_identity
      >> refuse code
  await_stored handle peer packet_id payload_hash seen (ack level from to p q prev ∷ messages) =
      let after = await_stored handle peer packet_id payload_hash (seen ++ level ∷ []) messages in
      c.verify_message (ack level from to p q prev)
      >> refuse_if (not (from == peer) || not (to == handle)) lan_identity
      >> refuse_if (not (p == packet_id) || not (q == payload_hash)) lan_fork
      >> require_ack_level seen level
      >> (if nat_beq (level_rank level) 2 then ok (seen ++ level ∷ []) else after)
