-- ===== src/Lan/Serving.antt =====
-- qnsd/lan/session.py: how the service of a packet ends, and what it leaves in the inbox.
use qnm_node.Base.{
  ◌>>◌, refuse_if, ◌≡◌, refl, ap, ◌∙◌, inl, inr, not, some, List, [], ◌∷◌, ◌++◌, arith, ◌==◌,
  list_eq, nat_eq, list_beq_iff, Text, Bool-cases, Option-cases, Result-cases, codes, Result, ok,
  refuse, Code, Dict, get, put, get-put_self,
}
use qnm_node.Base.{lan_malformed, lan_version, ◌>>>◌}
use qnm_node.Chain.{genesis_prev}
use qnm_node.Lan.Session.{
  received, verified, stored, preview, Envelope, Inner, Message, Server, Crypto, verify_packet,
  open_photon, record_packet, store_packet, write, ack_for, serve_steps,
}

module _ (c : Crypto) where
  -- What the tests of an envelope's form say.
  abbrev pub shape : Envelope → Result (Unit {0})
  shape e =
      refuse_if (not (e.v == codes "QNS-PACKET-1.0")) lan_version
      >> refuse_if (not (e.kind == codes "packet")) lan_malformed

  -- What storing leaves alone.
  pub record IsKept (s t : Server) : Type 0 where
    pub same_handle : t.handle ≡ s.handle
    pub same_out : t.out ≡ s.out

  record_packet-IsKept :
      (peer : Text) (e : Envelope) (inner : Inner) (s : Server)
      → IsKept s (record_packet c peer e inner s).1
  unfolding record_packet
  record_packet-IsKept peer e inner s = record {
    same_handle = ground arith;
    same_out = ground arith;
  }

  record_packet-inbox :
      (peer : Text) (e : Envelope) (inner : Inner) (s : Server)
      → (record_packet c peer e inner s).1.inbox ≡ s.inbox
  unfolding record_packet
  record_packet-inbox peer e inner s = ground arith

  record_same : (inbox : Dict Text Text) (s : Server) → IsKept s (record s { inbox = inbox })
  record_same inbox s = record { same_handle = refl; same_out = refl }

  pub store_packet-IsKept :
      (peer : Text) (e : Envelope) (s : Server) → IsKept s (store_packet c peer e s).1
  unfolding store_packet
  store_packet-IsKept peer e s = elim (Option-cases (get s.inbox e.packet_id)) [
    | inr (existing, there) ↦
        rw (store_packet, there) (record { same_handle = ground arith; same_out = ground arith })
    | inl new ↦
        elim (Result-cases (preview peer e.seq e.prev e.body_id s.ledger >> open_photon c e)) [
          | inr (code, shut) ↦
              rw (store_packet, new, shut) (record { same_handle = refl; same_out = refl })
          | inl (inner, opened) ↦
              let r =
                record_packet-IsKept peer e inner
                  (record s { inbox = put s.inbox e.packet_id e.payload_hash }) in
              rw (store_packet, new, opened)
                (record { same_handle = r.same_handle; same_out = r.same_out })
        ]
  ]

  pub store_packet-inbox :
      (peer : Text) (e : Envelope) (s : Server) (u : Unit {0})
      → (store_packet c peer e s).0 ≡ ok u
      → get (store_packet c peer e s).1.inbox e.packet_id ≡ some e.payload_hash
  unfolding store_packet
  store_packet-inbox peer e s u done = elim (Option-cases (get s.inbox e.packet_id)) [
    | inr (existing, there) ↦ elim (Bool-cases (existing == e.payload_hash)) [
      | inl same ↦
          rw (store_packet, there, same)
            (there ∙ ap some ((list_beq_iff existing e.payload_hash).0 same))
      | inr other ↦ absurd (ground (arith, done, there, other))
    ]
    | inl new ↦
        elim (Result-cases (preview peer e.seq e.prev e.body_id s.ledger >> open_photon c e)) [
          | inr (code, shut) ↦ absurd (ground (arith, done, new, shut))
          | inl (inner, opened) ↦
              rw
                (
                  store_packet,
                  new,
                  opened,
                  record_packet-inbox peer e inner
                      (record s { inbox = put s.inbox e.packet_id e.payload_hash }),
                )
                (get-put_self s.inbox e.packet_id e.payload_hash)
        ]
  ]

  -- The answers, one after the other.
  abbrev pub first_ack : Server → Text → Envelope → Message
  first_ack s peer e = ack_for c s peer e received genesis_prev

  abbrev pub second_ack : Server → Text → Envelope → Message
  second_ack s peer e = ack_for c s peer e verified (c.ack_hash (first_ack s peer e))

  abbrev pub third_ack : Server → Text → Envelope → Message
  third_ack s peer e = ack_for c s peer e stored (c.ack_hash (second_ack s peer e))

  abbrev pub said : Server → List Message → Server
  said s ms = record s { out = ms }

  abbrev pub first_said : Text → Envelope → Server → Server
  first_said peer e s = said s (s.out ++ first_ack s peer e ∷ [])

  abbrev pub second_said : Text → Envelope → Server → Server
  second_said peer e s = said s (s.out ++ first_ack s peer e ∷ [] ++ second_ack s peer e ∷ [])

  pub serve_steps-shape :
      (peer : Text) (e : Envelope) (s : Server) (code : Code)
      → shape e ≡ refuse code
      → serve_steps c peer e s ≡ (refuse code, s)
  unfolding serve_steps ◌>>>◌
  serve_steps-shape peer e s code f = rw (serve_steps, ◌>>>◌, f) refl

  pub serve_steps-verify :
      (peer : Text) (e : Envelope) (s : Server) (code : Code)
      → shape e ≡ ok tt
      → verify_packet c s.handle peer e ≡ refuse code
      → serve_steps c peer e s ≡ (refuse code, first_said peer e s)
  unfolding serve_steps ◌>>>◌ write
  serve_steps-verify peer e s code f v = rw (serve_steps, ◌>>>◌, f, v) refl

  pub serve_steps-store :
      (peer : Text) (e : Envelope) (s : Server) (code : Code)
      → shape e ≡ ok tt
      → verify_packet c s.handle peer e ≡ ok tt
      → (store_packet c peer e (second_said peer e s)).0 ≡ refuse code
      → serve_steps c peer e s ≡ (refuse code, (store_packet c peer e (second_said peer e s)).1)
  unfolding serve_steps ◌>>>◌ write get
  serve_steps-store peer e s code f v g = rw (serve_steps, ◌>>>◌, f, v, g) refl

  pub serve_steps-done :
      (peer : Text) (e : Envelope) (s : Server)
      → shape e ≡ ok tt
      → verify_packet c s.handle peer e ≡ ok tt
      → (store_packet c peer e (second_said peer e s)).0 ≡ ok tt
      → let t = (store_packet c peer e (second_said peer e s)).1 in
        serve_steps c peer e s ≡ (ok tt, said t (t.out ++ third_ack s peer e ∷ []))
  unfolding serve_steps ◌>>>◌ write get
  serve_steps-done peer e s f v g = rw (serve_steps, ◌>>>◌, f, v, g) refl
