-- ===== src/Lan/Agree.antt =====
-- qnsd/lan/session.py: what the sender of a packet learns of what the receiver did with it.
use qnm_node.Base.{lan_unavailable, Bool-cases, sym, true, false, arith}
use qnm_node.Base.{
  ◌≡◌, refl, ap, ◌∙◌, inl, inr, some, List, [], ◌∷◌, ◌++◌, nat_beq, nat_beq_iff, list_eq, nat_eq,
  list_beq_refl, Text, Result-cases, length, Result, ok, refuse, Code, if◌then◌else◌, get,
}
use qnm_node.Chain.{genesis_prev}
use qnm_node.Lan.Session.{
  Level, received, verified, stored, level_rank, require_ack_level, Envelope, Message, ack, outcome,
  Server, Crypto, is_photon_refusal, signer_of, verify_packet, store_packet, serve_steps, answer,
  serve_one, await_stored,
}
use qnm_node.Lan.Serving.{
  shape, store_packet-IsKept, store_packet-inbox, first_ack, second_ack, third_ack, first_said,
  second_said, serve_steps-shape, serve_steps-verify, serve_steps-store, serve_steps-done,
}

-- What an end of the serving comes to for the sender.
unfoldable pub told : Result (Unit {0}) → Result (List Level)
told (ok _) = ok (received ∷ verified ∷ stored ∷ [])
told (refuse code) = if is_photon_refusal code then refuse lan_unavailable else refuse code

told-silent :
    (code : Code) → is_photon_refusal code ≡ true → told (refuse code) ≡ refuse lan_unavailable
unfolding told
told-silent code e = rw e refl

told-spoken : (code : Code) → is_photon_refusal code ≡ false → told (refuse code) ≡ refuse code
unfolding told
told-spoken code e = rw e refl

module _ (c : Crypto) where
  -- What the sender makes of each answer about its packet.
  await-outcome :
      (handle peer p q : Text) (seen : List Level) (code : Code) (ms : List Message)
      → c.verify_message (outcome code peer p q) ≡ ok tt
      → await_stored c handle peer p q seen (outcome code peer p q ∷ ms) ≡ refuse code
  unfolding await_stored
  await-outcome handle peer p q seen code ms v = rw (await_stored, v, list_beq_refl peer) refl

  await-ack :
      (handle peer p q prev : Text) (seen : List Level) (level : Level) (ms : List Message)
      → c.verify_message (ack level peer handle p q prev) ≡ ok tt
      → length seen ≡ level_rank level
      → await_stored c handle peer p q seen (ack level peer handle p q prev ∷ ms) ≡ (
          if nat_beq (level_rank level) 2
          then ok (seen ++ level ∷ [])
          else await_stored c handle peer p q (seen ++ level ∷ []) ms)
  unfolding await_stored require_ack_level
  await-ack handle peer p q prev seen level ms v l =
      rw
        (
          await_stored,
          v,
          list_beq_refl peer,
          list_beq_refl handle,
          list_beq_refl p,
          list_beq_refl q,
          require_ack_level,
          l,
          (nat_beq_iff (level_rank level) (level_rank level)).1 refl,
        )
        refl

  -- The sender's view of the answers so far.
  abbrev sees : Text → Envelope → Server → List Message → Result (List Level)
  sees peer e s ms = await_stored c peer s.handle e.packet_id e.payload_hash [] ms

  module _ (peer : Text) (e : Envelope) (s : Server)
      (verifies : (m : Message) → signer_of m ≡ s.handle → c.verify_message m ≡ ok tt) where
    sees-first :
        (ms : List Message)
        → sees peer e s (first_ack c s peer e ∷ ms)
          ≡ await_stored c peer s.handle e.packet_id e.payload_hash (received ∷ []) ms
    sees-first ms =
        await-ack peer s.handle e.packet_id e.payload_hash genesis_prev [] received ms
          (verifies _ refl) refl

    sees-second :
        (ms : List Message)
        → sees peer e s (first_ack c s peer e ∷ second_ack c s peer e ∷ ms)
          ≡ await_stored c peer s.handle e.packet_id e.payload_hash (received ∷ verified ∷ []) ms
    sees-second ms =
        sees-first (second_ack c s peer e ∷ ms)
        ∙ await-ack peer s.handle e.packet_id e.payload_hash _ (received ∷ []) verified ms
            (verifies _ refl) refl

    sees-third :
        sees peer e s (first_ack c s peer e ∷ second_ack c s peer e ∷ third_ack c s peer e ∷ [])
        ≡ ok (received ∷ verified ∷ stored ∷ [])
    sees-third =
        sees-second (third_ack c s peer e ∷ [])
        ∙ await-ack peer s.handle e.packet_id e.payload_hash _ (received ∷ verified ∷ []) stored []
            (verifies _ refl) refl

    abbrev refused : Code → Message
    refused code = outcome code s.handle e.packet_id e.payload_hash

    -- The sender's view of an end of the serving.
    Agrees : Result (Unit {0}) × Server → Type 0
    Agrees r = sees peer e s (answer c e r).1.out ≡ told (answer c e r).0

    Agrees-refused :
        (t : Server) (code : Code) (said_before : List Message)
        → t.handle ≡ s.handle
        → t.out ≡ said_before
        → sees peer e s (said_before ++ refused code ∷ []) ≡ refuse code
        → sees peer e s said_before ≡ refuse lan_unavailable
        → Agrees (refuse code, t)
    unfolding Agrees answer
    Agrees-refused t code said_before same_handle same_out sees_it closed =
        elim (Bool-cases (is_photon_refusal code)) [
          | inl silent ↦ rw (answer, silent, same_out) (closed ∙ sym (told-silent code silent))
          | inr spoken ↦
              rw (answer, spoken, same_handle, same_out) (sees_it ∙ sym (told-spoken code spoken))
        ]

    sees-nothing :
        (seen : List Level)
        → await_stored c peer s.handle e.packet_id e.payload_hash seen [] ≡ refuse lan_unavailable
    unfolding await_stored
    sees-nothing seen = refl

    Agrees-done :
        (t : Server)
        → t.out ≡ first_ack c s peer e ∷ second_ack c s peer e ∷ third_ack c s peer e ∷ []
        → Agrees (ok tt, t)
    unfolding Agrees answer told
    Agrees-done t same_out = rw same_out sees-third

    serve_steps-Agrees : s.out ≡ [] → Agrees (serve_steps c peer e s)
    serve_steps-Agrees quiet = elim (Result-cases (shape c e)) [
      | inr (code, f) ↦ rw (serve_steps-shape c peer e s code f) (
          Agrees-refused s code [] refl quiet
            (await-outcome peer s.handle e.packet_id e.payload_hash [] code [] (verifies _ refl))
            (sees-nothing []))
      | inl (u, f) ↦ elim (Result-cases (verify_packet c s.handle peer e)) [
        | inr (code, v) ↦ rw (serve_steps-verify c peer e s code f v) (
            Agrees-refused (first_said c peer e s) code (first_ack c s peer e ∷ []) refl
              (rw quiet refl)
              (sees-first (refused code ∷ [])
                ∙ await-outcome peer s.handle e.packet_id e.payload_hash (received ∷ []) code []
                    (verifies _ refl))
              (sees-first [] ∙ sees-nothing _))
        | inl (u', v) ↦
            let k = store_packet-IsKept c peer e (second_said c peer e s) in
            let spoken = k.same_out ∙ rw quiet refl in
            elim (Result-cases (store_packet c peer e (second_said c peer e s)).0) [
              | inr (code, g) ↦ rw (serve_steps-store c peer e s code f v g) (
                  Agrees-refused (store_packet c peer e (second_said c peer e s)).1 code
                    (first_ack c s peer e ∷ second_ack c s peer e ∷ []) k.same_handle spoken
                    (sees-second (refused code ∷ [])
                      ∙ await-outcome peer s.handle e.packet_id e.payload_hash
                          (received ∷ verified ∷ []) code [] (verifies _ refl))
                    (sees-second [] ∙ sees-nothing _))
              | inl (u'', g) ↦
                  rw (serve_steps-done c peer e s f v g)
                    (Agrees-done _ (ap (λ ms. ms ++ third_ack c s peer e ∷ []) spoken))
            ]
      ]
    ]

    -- The sender learns what the receiver did: for a packet that is served from the start of the
    -- answers, it reads the refusal that ended the serving or, if none did, the three levels in order; but of a
    -- refusal of `loads` it learns only that the connection is closed. What the receiver signs is taken
    -- to verify, and no deadline to pass.
    pub await_stored-serve_one :
        s.out ≡ []
        → await_stored c peer s.handle e.packet_id e.payload_hash [] (serve_one c peer e s).1.out
          ≡ told (serve_one c peer e s).0
    unfolding serve_one Agrees
    await_stored-serve_one quiet = serve_steps-Agrees quiet

  module _ (peer : Text) (e : Envelope) (s : Server) where
    -- An end of the serving without a refusal has the packet in the inbox.
    HasIt : Result (Unit {0}) × Server → Type 0
    HasIt r =
        (u : Unit {0})
        → (answer c e r).0 ≡ ok u
        → get (answer c e r).1.inbox e.packet_id ≡ some e.payload_hash

    refused-HasIt : (code : Code) (t : Server) → HasIt (refuse code, t)
    unfolding HasIt answer
    refused-HasIt code t u done = elim (Bool-cases (is_photon_refusal code)) [
      | inl silent ↦ absurd (ground (arith, done, silent))
      | inr spoken ↦ absurd (ground (arith, done, spoken))
    ]

    done-HasIt : (t : Server) → get t.inbox e.packet_id ≡ some e.payload_hash → HasIt (ok tt, t)
    unfolding HasIt answer
    done-HasIt t there u done = there

    serve_steps-HasIt : HasIt (serve_steps c peer e s)
    serve_steps-HasIt = elim (Result-cases (shape c e)) [
      | inr (code, f) ↦ rw (serve_steps-shape c peer e s code f) (refused-HasIt code s)
      | inl (u, f) ↦ elim (Result-cases (verify_packet c s.handle peer e)) [
        | inr (code, v) ↦
            rw (serve_steps-verify c peer e s code f v) (refused-HasIt code (first_said c peer e s))
        | inl (u', v) ↦ elim (Result-cases (store_packet c peer e (second_said c peer e s)).0) [
          | inr (code, g) ↦
              rw (serve_steps-store c peer e s code f v g)
                (refused-HasIt code (store_packet c peer e (second_said c peer e s)).1)
          | inl (u'', g) ↦
              rw (serve_steps-done c peer e s f v g)
                (done-HasIt _ (store_packet-inbox c peer e (second_said c peer e s) u'' g))
        ]
      ]
    ]

    -- A packet that is served without a refusal is in the inbox with its hash.
    pub serve_one-inbox :
        (u : Unit {0})
        → (serve_one c peer e s).0 ≡ ok u
        → get (serve_one c peer e s).1.inbox e.packet_id ≡ some e.payload_hash
    unfolding serve_one HasIt
    serve_one-inbox = serve_steps-HasIt
