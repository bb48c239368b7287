-- ===== src/Checks/Lans.antt =====
-- Runs of the properties of the LAN session, its frames and receipts, and of the light codec.
use qnm_node.Base.{
  get, list_beq, ◌>>>◌, ℕ, ◌>>=◌, ◌≡◌, refl, all, refuse, photon_refused, nat_beq, if◌then◌else◌,
  Bool, true, Option, some, List, [], ◌∷◌, ◌++◌, arith, list_eq, nat_eq, Text, codes, Result, ok,
}
use qnm_node.Chain
use qnm_node.Bytes.{to_bytes4, take, drop}
use qnm_node.Checks.{toy, digest_a, digest_b}
use qnm_node.Light.{decode, encode, as_bytes, photon, as_dict, payload_of}
use qnm_node.Light.Codec.{decode-encode}
use qnm_node.Lan.Fragments.{Fragment, fragments_from, pieces, send_fragments, receive}
use qnm_node.Lan.Whole.{receive-send_fragments}
use qnm_node.Lan.Frames.{encode_frame, read_frame, stream, read_frame-encode_frame}
use qnm_node.Lan.Receipts.{Core, Receipt, verify, append, write_row, append-clean}
use qnm_node.Lan.Receipts
use qnm_node.Lan.Session.{
  Envelope, Inner, Opened, Server, Crypto, serve_one, await_stored, serve_steps, answer,
  verify_packet, check_clock, load_photon, open_photon, store_packet, record_packet, preview,
  accept, write,
}
use qnm_node.Lan.Agree.{told, await_stored-serve_one, serve_one-inbox}
use qnm_node.Fed.Receipts.{classify_link}

abbrev short : List ℕ
short = 123 ∷ 200 ∷ 125 ∷ []

-- A photon that is its own JSON, refused where the JSON does not start with a brace.
abbrev braced : List ℕ → Result (List ℕ)
braced [] = refuse photon_refused
braced (b ∷ bs) = if nat_beq b 123 then ok (b ∷ bs) else refuse photon_refused

decode-encode_example :
    (encode toy ok braced braced (as_dict short) >>= λ raw.
    decode toy ok braced braced (as_bytes raw))
    ≡ ok (photon short (toy.sha256_hex short))
unfolding payload_of
decode-encode_example =
    decode-encode toy ok braced braced (as_dict short) short refl
      (omega arith, (omega arith, (omega arith, tt))) (omega arith)

abbrev any_fragment : Fragment → Result (Unit {0})
any_fragment f = ok tt

abbrev first_byte : List ℕ → Text
first_byte [] = []
first_byte (b ∷ bs) = b ∷ []

receive-send_fragments_example :
    (send_fragments (codes "ana") (codes "p1") (codes "h1") first_byte (λ f. 400) 2 short
      >>= receive first_byte any_fragment (codes "ana"))
    ≡ ok short
unfolding pieces take drop fragments_from all
receive-send_fragments_example =
    receive-send_fragments first_byte any_fragment (codes "ana") (codes "p1") (codes "h1")
      (λ f. 400) short 2 (omega arith) (omega arith) (omega arith) (omega arith) (refl, (refl, tt))
      refl

abbrev chunks : List (List ℕ)
chunks = (0 ∷ 0 ∷ []) ∷ (0 ∷ []) ∷ (3 ∷ 123 ∷ []) ∷ (200 ∷ 125 ∷ 9 ∷ []) ∷ []

abbrev as_it_is : List ℕ → Option (List ℕ)
as_it_is raw = some raw

written : encode_frame short ≡ ok (0 ∷ 0 ∷ 0 ∷ 3 ∷ short)
unfolding encode_frame to_bytes4
written = refl

arrived : stream chunks ≡ 0 ∷ 0 ∷ 0 ∷ 3 ∷ short ++ 9 ∷ []
unfolding stream
arrived = refl

read_frame-encode_frame_example :
    (left : List (List ℕ)) × (read_frame as_it_is chunks ≡ (ok short, left))
    × (stream left ≡ 9 ∷ [])
read_frame-encode_frame_example =
    read_frame-encode_frame as_it_is short (0 ∷ 0 ∷ 0 ∷ 3 ∷ short) (9 ∷ []) short chunks written
      refl (omega arith, (omega arith, (omega arith, (omega arith, tt)))) arrived

abbrev hop_core : Core
hop_core = record {
  handle = codes "bo";
  packet_id = codes "p1";
  payload_hash = codes "h1";
  prev = [];
  from_handle = codes "ana";
  to_handle = codes "bo";
  hop = 1;
  sent_utc = [];
  received_utc = [];
  outcome = codes "ok";
}

abbrev prev_text : Core → Text
prev_text c = c.prev

abbrev no_sig : Core → Text → Text
no_sig c hash = []

abbrev always : Receipt → Bool
always row = true

no_rows : verify toy prev_text no_sig always [] ≡ []
unfolding verify Receipts.verify_from
no_rows = refl

append-clean_example :
    verify toy prev_text no_sig always (append toy prev_text no_sig hop_core []).1 ≡ []
append-clean_example = append-clean toy prev_text no_sig always hop_core [] (λ k. refl) no_rows

abbrev packet : Envelope
packet = record {
  v = codes "QNS-PACKET-1.0";
  kind = codes "packet";
  packet_id = codes "p1";
  payload_hash = codes "h1";
  src_handle = codes "ana";
  dst_handle = codes "bo";
  created = some 100;
  expiry = some 200;
  created_utc = [];
  alg = codes "x25519-hkdf-sha256-aes-256-gcm";
  session = codes "tls1.3";
  enc_exact = true;
  has_body = true;
  seq = 1;
  prev = Chain.genesis_prev;
  body_id = digest_a;
}

abbrev opened : Opened
opened = record { kind = codes "qns-photon"; photon = [] }

abbrev loaded : Inner
loaded = record {
  photon_id = codes "p1";
  computed_id = codes "p1";
  payload_digest = codes "h1";
  src = codes "ana";
  dst = codes "bo";
  hop = 0;
}

abbrev trusting : Crypto
trusting = record {
  verify_document = λ e. ok tt;
  open_envelope = λ e. ok opened;
  loads = λ json. some loaded;
  verify_message = λ m. ok tt;
  ack_hash = λ m. digest_b;
  hash = toy;
  canonical = prev_text;
  sign = no_sig;
  now = 150;
  now_utc = [];
}

abbrev idle : Server
idle = record {
  handle = codes "bo";
  inbox = [];
  ledger = record { file = []; tips = []; seen = [] };
  receipts = [];
  out = [];
}

await_stored-serve_one_example :
    await_stored trusting
      (codes "ana")
      (codes "bo")
      (codes "p1")
      (codes "h1")
      []
      (serve_one trusting (codes "ana") packet idle).1.out
    ≡ told (serve_one trusting (codes "ana") packet idle).0
await_stored-serve_one_example =
    await_stored-serve_one trusting (codes "ana") packet idle (λ m by. refl) refl

served : (serve_one trusting (codes "ana") packet idle).0 ≡ ok tt
unfolding serve_one serve_steps answer verify_packet check_clock load_photon open_photon
    store_packet record_packet preview accept write classify_link get list_beq ◌>>>◌
served = refl

serve_one-inbox_example :
    get (serve_one trusting (codes "ana") packet idle).1.inbox (codes "p1") ≡ some (codes "h1")
serve_one-inbox_example = serve_one-inbox trusting (codes "ana") packet idle tt served
