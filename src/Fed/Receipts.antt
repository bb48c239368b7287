-- ===== src/Fed/Receipts.antt =====
-- qnm/fedmesh/chain.py: the ledger of receipts of each handle. A sequence number below 0 is refused
-- as 0 is. The check of an anchor's signature (`verify_anchor_crypto`) is a parameter.
use qnm_node.Base.{
  ℕ, ◌+◌, ◌>>◌, ◌≡◌, ◌↔◌, Bool, true, false, not, Option, none, some, List, [], ◌∷◌, ◌++◌, arith,
  ltb, nat_beq, ◌==◌, list_eq, nat_eq, list_beq_iff, Text, Result, ok, refuse, Act, if◌then◌else◌,
  Dict, get, put,
}
use qnm_node.Base.{fed_gap, fed_replay, fed_fork, pair_eq}
use qnm_node.Chain.{genesis_prev}

pub record Anchor : Type 0 where
  pub handle : Text
  pub seq : ℕ
  pub prev : Text
  pub hash : Text
  pub signed : Text

abbrev is_genesis : Text → Bool
is_genesis prev = prev == genesis_prev

-- `classify_link(seen, tip_seq, tip_hash, seq, prev, digest)`
unfoldable pub classify_link : Option Text → Option (ℕ × Text) → ℕ → Text → Text → Result (Unit {0})
classify_link seen tip seq prev digest = if ltb seq 1 then refuse fed_gap else elim seen [
  | some known ↦ if known == digest then refuse fed_replay else refuse fed_fork
  | none ↦ elim tip [
    | none ↦
        if not (nat_beq seq 1)
        then refuse fed_gap
        else if not (is_genesis prev)
        then refuse fed_fork
        else ok tt
    | some (tip_seq, tip_hash) ↦
        if nat_beq seq (tip_seq + 1)
        then if not (prev == tip_hash) then refuse fed_fork else ok tt
        else if ltb (tip_seq + 1) seq
        then refuse fed_gap
        else refuse fed_fork
  ]
]

pub record Ledger : Type 0 where
  pub file : List Anchor
  pub tips : Dict Text (ℕ × Text)
  pub seen : Dict (Text × ℕ) Text
  pub anchors : Dict Text (List Anchor)

abbrev pub empty_ledger : Ledger
empty_ledger = record { file = []; tips = []; seen = []; anchors = [] }

-- `tip(handle)`
unfoldable pub tip : Ledger → Text → ℕ × Text
tip l handle = elim (get l.tips handle) [ none ↦ (0, genesis_prev) | some row ↦ row ]

-- `prefix(handle)`
unfoldable pub prefix : Ledger → Text → List Anchor
prefix l handle = elim (get l.anchors handle) [ none ↦ [] | some rows ↦ rows ]

-- What `_accept` writes for an anchor that it takes.
unfoldable pub enter : Anchor → Ledger → Ledger
unfolding prefix
enter a l = record l {
  tips = put l.tips a.handle (a.seq, a.hash);
  seen = put l.seen (a.handle, a.seq) a.hash;
  anchors = put l.anchors a.handle (prefix l a.handle ++ a ∷ []);
}

module _ (verify_anchor : Anchor → Result (Unit {0})) where
  -- The tests of `_accept`.
  unfoldable pub admits : Anchor → Ledger → Result (Unit {0})
  admits a l =
      verify_anchor a
      >> classify_link (get l.seen (a.handle, a.seq)) (get l.tips a.handle) a.seq a.prev a.hash

  -- `_accept(anchor, persist)`
  unfoldable pub accept : Bool → Anchor → Act Ledger Anchor
  unfolding admits enter
  accept persist a l = elim (admits a l) [
    | refuse code ↦ (refuse code, l)
    | ok _ ↦ (ok a, enter a (if persist then record l { file = l.file ++ a ∷ [] } else l))
  ]

  -- `submit(anchor)`
  unfoldable pub submit : Anchor → Act Ledger Anchor
  unfolding accept
  submit a = accept true a

  -- `_load`, which stops at the first refusal
  unfoldable pub load_rows : List Anchor → Act Ledger Unit
  unfolding accept
  load_rows [] l = (ok tt, l)
  load_rows (a ∷ rows) l = elim (accept false a l).0 [
    | refuse code ↦ (refuse code, (accept false a l).1)
    | ok _ ↦ load_rows rows (accept false a l).1
  ]

  -- Requests in their order; a refusal ends only its own request.
  unfoldable pub submit_all : List Anchor → Ledger → Ledger
  unfolding submit
  submit_all [] l = l
  submit_all (a ∷ rows) l = submit_all rows (submit a l).1

-- An anchor is admitted exactly when it is the next one of its handle: its number is new and follows
-- the tip's, and its prev is the tip's hash, where a handle without a tip stands at 0 and genesis.
pub classify_link_iff :
    (seen : Option Text) (last : Option (ℕ × Text)) (seq : ℕ) (prev digest : Text)
    → (classify_link seen last seq prev digest ≡ ok tt) ↔ (
        (seen ≡ none)
        × (seq ≡ (elim last [ none ↦ 0 | some (n, d) ↦ n ]) + 1)
        × (prev ≡ (elim last [ none ↦ genesis_prev | some (n, d) ↦ d ])))
unfolding classify_link
classify_link_iff none none seq prev digest = ground (arith, list_beq_iff prev genesis_prev)
classify_link_iff none (some (n, d)) seq prev digest = ground (arith, list_beq_iff prev d)
classify_link_iff (some known) last seq prev digest = ground arith
