-- ===== src/Pairs.antt =====
-- qnm/pairs.py and the pair ledger of qnm/memorial.py. A bind is a row of the memorial; the rows of
-- `_pending` are kept as the program keeps them. Flags that are constant in every record (that a
-- bind is no Bell pair, the author, the specs) are not carried.
pub mod Identity
pub mod Rounds
pub mod Ledger
use qnm_node.Base.{
  ℕ, zero, suc, ◌+◌, ◌-◌, ◌*◌, ◌/◌, ◌%◌, ◌^◌, ◌>>=◌, ◌>>◌, refuse_if, ◌≤◌, ◌<◌, ◌≡◌, refl, sym, ap,
  ◌∙◌, ◌≢◌, ◌↔◌, ◌⊎◌, inl, inr, Bool, true, false, ◌&&◌, ◌||◌, not, Option, none, some, List, [],
  ◌∷◌, ◌++◌, map, arith, ltb, leb, nat_beq, nat_beq_iff, ◌==◌, Eq, list_eq, nat_eq, list_beq,
  list_beq_iff, list_beq_refl, beq_refl, beq-false, Text, Bool-cases, Option-cases, codes, length,
  length-append, Result, ok, refuse, Code, is_ok, Act, is_empty, if◌then◌else◌, Dict, get, put,
  get-put, get-put_self, is_some, contains, add, contains-add, contains-append, any, all, keep,
  find,
}
use qnm_node.Base.{lower, strip, text_gt, or_else, split_off, handshake, pair_cut}
use qnm_node.Bytes.{from_hex, to_hex, utf8}
use qnm_node.Digest.{Hash}

-- `_root_bytes(root)`
unfoldable pub root_bytes : Text → List ℕ
root_bytes root =
    let text = lower (strip root) in
    if nat_beq (length text) 64
    then elim (from_hex text) [ some bytes ↦ bytes | none ↦ utf8 text ]
    else utf8 text

-- What a caller may pass as a nonce: nothing, bytes or text.
pub data Nonce : Type 0 where
  absent : Nonce
  raw : List ℕ → Nonce
  text : Text → Nonce

-- `_nonce_bytes(nonce)`; `drawn` is what `secrets.token_bytes` returns.
unfoldable pub nonce_bytes : List ℕ → Nonce → Result (List ℕ)
nonce_bytes drawn absent = ok drawn
nonce_bytes drawn (raw bytes) = ok bytes
nonce_bytes drawn (text t) = elim (from_hex (strip t)) [
  | some bytes ↦ ok bytes
  | none ↦ refuse handshake
]

-- `_canon_pair_parts(root_a, root_b, nonce_a, nonce_b)`
unfoldable pub canon_pair_parts : Text → Text → List ℕ → List ℕ → Text × Text × List ℕ × List ℕ
canon_pair_parts root_a root_b nonce_a nonce_b =
    if text_gt (lower root_a) (lower root_b)
    then (lower root_b, lower root_a, nonce_b, nonce_a)
    else (lower root_a, lower root_b, nonce_a, nonce_b)

unfoldable pub hash_parts : Hash → Text × Text × List ℕ × List ℕ → Text
hash_parts h (ra, rb, na, nb) = h.sha256_hex (root_bytes ra ++ root_bytes rb ++ na ++ nb)

-- `compute_pair_id(root_a, root_b, nonce_a, nonce_b)`; no caller passes an absent nonce.
unfoldable pub compute_pair_id : Hash → Text → Text → Nonce → Nonce → Result Text
unfolding hash_parts
compute_pair_id h root_a root_b nonce_a nonce_b = do
  na ← nonce_bytes [] nonce_a
  nb ← nonce_bytes [] nonce_b
  ok (hash_parts h (canon_pair_parts root_a root_b na nb))

pub data Phase : Type 0 where
  offered accepted sealed : Phase

-- An OFFER, an ACCEPT or a SEAL as it travels: the fields that the program reads.
pub record Handshake : Type 0 where
  pub phase : Phase
  pub root_a : Text
  pub root_b : Text
  pub nonce_a : Text
  pub nonce_b : Text
  pub via : Text
  pub pair_id : Text
  pub utc : Text

-- A row of `pair_memorial.jsonl`.
pub record Bind : Type 0 where
  pub pair_id : Text
  pub peer : Text
  pub root_a : Text
  pub root_b : Text
  pub nonce_a : Text
  pub nonce_b : Text
  pub bearer_id : Text
  pub utc : Text

pub record Pairs : Type 0 where
  pub memorial : List Bind
  pub pending : Dict Text Handshake

-- `get(pair_id)` on the memorial
unfoldable pub get_bind : List Bind → Text → Option Bind
get_bind rows pair_id = find (λ b. b.pair_id == pair_id) rows

-- `ids()`
unfoldable pub ids : Pairs → List Text
ids p = map (λ b. b.pair_id) p.memorial

-- `peers()`, in the order of the rows
unfoldable pub peers : Pairs → List Text
peers p = map (λ b. b.peer) (keep (λ b. not (is_empty b.peer)) p.memorial)

-- `has_edge(peer_root)`
unfoldable pub has_edge : Pairs → Text → Bool
has_edge p root = any (λ b. lower b.peer == lower root) p.memorial

-- `Memorial.remember_pair(record)`
unfoldable pub remember_pair : Bind → Act (List Bind) Bind
unfolding get_bind
remember_pair row rows =
    if is_empty row.pair_id then (refuse handshake, rows) else elim (get_bind rows row.pair_id) [
      | some existing ↦ (ok existing, rows)
      | none ↦ (ok row, rows ++ row ∷ [])
    ]

abbrev after_forget : List Bind → List Bind × Option Bind → Option Bind × List Bind
after_forget rows (kept, none) = (none, rows)
after_forget rows (kept, some removed) = (some removed, kept)

-- `Memorial.forget_pair(pair_id)`
unfoldable pub forget_pair : Text → List Bind → Option Bind × List Bind
forget_pair pair_id rows = after_forget rows (split_off (λ b. b.pair_id == pair_id) rows)

-- `Memorial.forget_all_pairs()`
unfoldable pub forget_all_pairs : List Bind → ℕ × List Bind
forget_all_pairs rows = (length rows, [])

-- `offer(root_a, peer_root, nonce_a, via)`
unfoldable pub offer : List ℕ → Text → Text → Text → Nonce → Text → Act Pairs Handshake
offer drawn now root_a peer_root nonce via p =
    if is_empty root_a || is_empty peer_root || lower root_a == lower peer_root
    then (refuse handshake, p)
    else elim (nonce_bytes drawn nonce) [
      | refuse code ↦ (refuse code, p)
      | ok na ↦
          let rec : Handshake = record {
            phase = offered;
            root_a = lower root_a;
            root_b = lower peer_root;
            nonce_a = to_hex na;
            nonce_b = [];
            via = via;
            pair_id = [];
            utc = now;
          } in
          let key : Text =
            codes "offer:" ++ rec.root_a ++ codes ":" ++ rec.root_b ++ codes ":" ++ rec.nonce_a in
          (ok rec, record p { pending = put p.pending key rec })
    ]

abbrev is_offered : Phase → Bool
is_offered offered = true
is_offered accepted = false
is_offered sealed = false

-- `accept(offer, root_b, nonce_b, via)`
unfoldable pub accept : Hash → List ℕ → Text → Handshake → Text → Nonce → Text → Act Pairs Handshake
accept h drawn now o root_b nonce via p =
    if not (is_offered o.phase)
    then (refuse handshake, p)
    else if not (lower root_b == lower o.root_b)
    then (refuse handshake, p)
    else if lower root_b == lower o.root_a
    then (refuse handshake, p)
    else elim (nonce_bytes drawn nonce) [
      | refuse code ↦ (refuse code, p)
      | ok nb ↦
          elim (compute_pair_id h (lower o.root_a) (lower root_b) (text o.nonce_a)
            (text (to_hex nb))) [
              | refuse code ↦ (refuse code, p)
              | ok pair_id ↦
                  let rec : Handshake = record {
                    phase = accepted;
                    root_a = lower o.root_a;
                    root_b = lower root_b;
                    nonce_a = o.nonce_a;
                    nonce_b = to_hex nb;
                    via = or_else via o.via;
                    pair_id = pair_id;
                    utc = now;
                  } in
                  (ok rec, record p { pending = put p.pending (codes "accept:" ++ pair_id) rec })
            ]
    ]

-- The other end of a handshake, as `seal` finds it.
unfoldable pub other_end : Text → Text → Text → Result Text
other_end me root_a root_b =
    if me == root_a then ok root_b else if me == root_b then ok root_a else refuse handshake

-- The row that `seal` writes for a new bind.
unfoldable pub seal_row : Text → Text → Text → Text → Handshake → Bind
seal_row now via pair_id peer hs = record {
  pair_id = pair_id;
  peer = peer;
  root_a = lower hs.root_a;
  root_b = lower hs.root_b;
  nonce_a = hs.nonce_a;
  nonce_b = hs.nonce_b;
  bearer_id = or_else via hs.via;
  utc = now;
}

unfoldable pub store_bind : Bind → Act Pairs Bind
store_bind row p =
    let (result, rows) = remember_pair row p.memorial in (result, record p { memorial = rows })

-- `seal(handshake, self_root, via)`
unfoldable pub seal : Hash → Text → Handshake → Text → Text → Act Pairs Bind
seal h now hs self_root via p =
    if is_offered hs.phase
    then (refuse handshake, p)
    else elim (compute_pair_id h (lower hs.root_a) (lower hs.root_b) (text hs.nonce_a)
        (text hs.nonce_b)) [
          | refuse code ↦ (refuse code, p)
          | ok pair_id ↦ elim (other_end (lower self_root) (lower hs.root_a) (lower hs.root_b)) [
            | refuse code ↦ (refuse code, p)
            | ok peer ↦ elim (get_bind p.memorial pair_id) [
              | some existing ↦ (ok existing, p)
              | none ↦ store_bind (seal_row now via pair_id peer hs) p
            ]
          ]
        ]

-- `cut(pair_id)`, which returns how many binds remain
unfoldable pub cut : Text → Act Pairs ℕ
cut pair_id p =
    let (removed, rows) = forget_pair pair_id p.memorial in
    elim removed [
      | none ↦ (refuse pair_cut, record p { memorial = rows })
      | some _ ↦ (ok (length rows), record p { memorial = rows })
    ]

-- `cut_all()`, which returns how many binds were cut
unfoldable pub cut_all : Act Pairs ℕ
cut_all p =
    let (n, rows) = forget_all_pairs p.memorial in (ok n, record { memorial = rows; pending = [] })
