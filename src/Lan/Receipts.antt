-- ===== src/Lan/Receipts.antt =====
-- qnsd/lan/receipts.py: the receipts of hops, chained for each packet. JSON, and the signature of a
-- document with its check (qnsd/lan/sign.py), are parameters; the fields that are constant are not
-- carried, so the tests of the key sets hold by construction.
use qnm_node.Base.{
  ℕ, ◌≡◌, refl, sym, inl, inr, Bool, true, ◌&&◌, not, Option, none, some, List, [], ◌∷◌, ◌++◌,
  arith, ◌==◌, list_eq, nat_eq, list_beq_iff, list_beq_refl, Text, Bool-cases, Option-cases, codes,
  ok, Act, if◌then◌else◌, Dict, get, put, get-put, any, find,
}
use mathlib.Core.List.{reverse}
use qnm_node.Base.{or_else}
use qnm_node.Chain.{genesis_prev}
use qnm_node.Digest.{Hash}

-- What is hashed of a receipt.
pub record Core : Type 0 where
  pub handle : Text
  pub packet_id : Text
  pub payload_hash : Text
  pub prev : Text
  pub from_handle : Text
  pub to_handle : Text
  pub hop : ℕ
  pub sent_utc : Text
  pub received_utc : Text
  pub outcome : Text

pub record Receipt : Type 0 where
  pub core : Core
  pub hash : Text
  pub sig : Text

abbrev stored_for : Text → Text → Receipt → Bool
stored_for packet_id payload_hash row =
    row.core.packet_id == packet_id
    && row.core.payload_hash == payload_hash
    && row.core.outcome == codes "ok"

abbrev is_of : Text → Receipt → Bool
is_of packet_id row = row.core.packet_id == packet_id && row.core.outcome == codes "ok"

-- The loop of `prev_for`.
unfoldable pub prev_from : Text → List Receipt → Text → Text
prev_from packet_id [] prev = prev
prev_from packet_id (row ∷ rows) prev =
    prev_from packet_id rows
      (if row.core.packet_id == packet_id then or_else row.hash prev else prev)

-- `prev_for(packet_id)`
unfoldable pub prev_for : Text → List Receipt → Text
unfolding prev_from
prev_for packet_id rows = prev_from packet_id rows genesis_prev

-- `has_stored(packet_id, payload_hash)`
unfoldable pub has_stored : Text → Text → List Receipt → Bool
has_stored packet_id payload_hash rows = any (stored_for packet_id payload_hash) rows

-- What `verify` reports of a row.
pub data Fault : Type 0 where
  bad_hash bad_prev bad_sig : Fault

abbrev or_genesis : Option Text → Text
or_genesis none = genesis_prev
or_genesis (some prev) = prev

module _ (h : Hash) (canonical : Core → Text) (sign : Core → Text → Text) where
  -- `receipt_hash(body)`
  unfoldable pub receipt_hash : Core → Text
  receipt_hash c = h.sha256_hex (canonical c)

  -- The receipt that `append` writes.
  unfoldable pub write_row : Core → Receipt
  unfolding receipt_hash
  write_row c = record { core = c; hash = receipt_hash c; sig = sign c (receipt_hash c) }

  -- The rest of `append`, once nothing is stored that answers the call.
  unfoldable pub append_row : Core → Act (List Receipt) Receipt
  unfolding prev_for write_row
  append_row c rows =
      let row = write_row (record c { prev = prev_for c.packet_id rows }) in
      (ok row, rows ++ row ∷ [])

  -- `append(...)`, given the core but for its `prev`
  unfoldable pub append : Core → Act (List Receipt) Receipt
  unfolding has_stored append_row
  append c rows =
      if has_stored c.packet_id c.payload_hash rows && c.outcome == codes "ok"
      then elim (find (is_of c.packet_id) (reverse rows)) [
        | some row ↦ (ok row, rows)
        | none ↦ append_row c rows
      ]
      else append_row c rows

  module _ (verifies : Receipt → Bool) where
    -- `verify`, from a row on, with the last hash of each packet
    unfoldable pub verify_from : Dict Text Text → List Receipt → List Fault
    unfolding receipt_hash
    verify_from last [] = []
    verify_from last (row ∷ rows) =
        let after_fault = verify_from last rows in
        let after_row = verify_from (put last row.core.packet_id row.hash) rows in
        if not (row.hash == receipt_hash row.core)
        then bad_hash ∷ after_fault
        else (if row.core.prev == or_genesis (get last row.core.packet_id)
            then []
            else bad_prev ∷ [])
          ++ ((if verifies row then [] else bad_sig ∷ []) ++ after_row)

    -- `verify()`
    unfoldable pub verify : List Receipt → List Fault
    unfolding verify_from
    verify rows = verify_from [] rows

    -- The last hash of each packet after rows that are in order.
    last_after : Dict Text Text → List Receipt → Dict Text Text
    last_after last [] = last
    last_after last (row ∷ rows) = last_after (put last row.core.packet_id row.hash) rows

    full : (c : Core) (prev : Text) → or_else (receipt_hash c) prev ≡ receipt_hash c
    unfolding receipt_hash
    full c prev = ground (arith, h.sha256_hex-IsDigest (canonical c))

    -- A row without a fault, and what follows it.
    record IsSound (last : Dict Text Text) (row : Receipt) (rows : List Receipt) : Type 0 where
      hash_ok : row.hash ≡ receipt_hash row.core
      prev_ok : (row.core.prev == or_genesis (get last row.core.packet_id)) ≡ true
      sig_ok : verifies row ≡ true
      rest_ok : verify_from (put last row.core.packet_id row.hash) rows ≡ []

    clean-IsSound :
        (last : Dict Text Text) (row : Receipt) (rows : List Receipt)
        → verify_from last (row ∷ rows) ≡ []
        → IsSound last row rows
    unfolding verify_from
    clean-IsSound last row rows e = record {
      hash_ok = ground (arith, e, list_beq_iff row.hash (receipt_hash row.core));
      prev_ok = ground (arith, e);
      sig_ok = ground (arith, e);
      rest_ok = ground (arith, e);
    }

    IsSound-clean :
        (last : Dict Text Text) (row : Receipt) (rows : List Receipt)
        → IsSound last row rows
        → verify_from last (row ∷ rows) ≡ []
    unfolding verify_from
    IsSound-clean last row rows s = ground (
      arith,
      s.hash_ok,
      s.prev_ok,
      s.sig_ok,
      s.rest_ok,
      list_beq_refl (receipt_hash row.core),
      list_beq_iff row.hash (receipt_hash row.core),
    )

    verify-append :
        (last : Dict Text Text) (rows : List Receipt) (r : Receipt)
        → verify_from last rows ≡ []
        → verify_from (last_after last rows) (r ∷ []) ≡ []
        → verify_from last (rows ++ r ∷ []) ≡ []
    unfolding last_after
    verify-append last [] r e f = f
    verify-append last (row ∷ rows) r e f =
        let s = clean-IsSound last row rows e in
        IsSound-clean last row (rows ++ r ∷ []) (record {
          hash_ok = s.hash_ok;
          prev_ok = s.prev_ok;
          sig_ok = s.sig_ok;
          rest_ok = verify-append (put last row.core.packet_id row.hash) rows r s.rest_ok f;
        })

    last-put :
        (last : Dict Text Text) (row : Receipt) (id prev : Text)
        → row.hash ≡ receipt_hash row.core
        → or_genesis (get last id) ≡ prev
        → or_genesis (get (put last row.core.packet_id row.hash) id)
          ≡ (if row.core.packet_id == id then or_else row.hash prev else prev)
    last-put last row id prev same e =
        rw (get-put last row.core.packet_id id row.hash)
          (elim (Bool-cases (row.core.packet_id == id)) [
            | inl here ↦ rw (here, same) (sym (full row.core prev))
            | inr other ↦ rw other e
          ])

    last-prev :
        (last : Dict Text Text) (rows : List Receipt) (id prev : Text)
        → verify_from last rows ≡ []
        → or_genesis (get last id) ≡ prev
        → or_genesis (get (last_after last rows) id) ≡ prev_from id rows prev
    unfolding last_after prev_from
    last-prev last [] id prev e f = f
    last-prev last (row ∷ rows) id prev e f =
        let s = clean-IsSound last row rows e in
        last-prev (put last row.core.packet_id row.hash) rows id _ s.rest_ok
          (last-put last row id prev s.hash_ok f)

    no_last : (id : Text) → or_genesis (get [] id) ≡ genesis_prev
    unfolding get
    no_last id = refl

    nothing_left : (last : Dict Text Text) → verify_from last [] ≡ []
    unfolding verify_from
    nothing_left last = refl

    append_row-clean :
        (c : Core) (rows : List Receipt)
        → ((k : Core) → verifies (write_row k) ≡ true)
        → verify rows ≡ []
        → verify (append_row c rows).1 ≡ []
    unfolding append_row verify prev_for write_row
    append_row-clean c rows signs e =
        let core = record c { prev = prev_for c.packet_id rows } in
        verify-append [] rows (write_row core) e (
          IsSound-clean (last_after [] rows) (write_row core) [] (record {
            hash_ok = refl;
            prev_ok =
                rw (last-prev [] rows c.packet_id genesis_prev e (no_last c.packet_id))
                  (list_beq_refl (prev_from c.packet_id rows genesis_prev));
            sig_ok = signs core;
            rest_ok = nothing_left (put (last_after [] rows) c.packet_id (receipt_hash core));
          }))

    -- Appending, whether it writes a receipt or answers with one that is stored, keeps receipts without
    -- fault, provided what is signed is verified.
    pub append-clean :
        (c : Core) (rows : List Receipt)
        → ((k : Core) → verifies (write_row k) ≡ true)
        → verify rows ≡ []
        → verify (append c rows).1 ≡ []
    unfolding append
    append-clean c rows signs e =
        elim (Bool-cases (has_stored c.packet_id c.payload_hash rows && c.outcome == codes "ok")) [
          | inl stored ↦ elim (Option-cases (find (is_of c.packet_id) (reverse rows))) [
            | inl missing ↦ rw (append, stored, missing) (append_row-clean c rows signs e)
            | inr (row, there) ↦ rw (append, stored, there) e
          ]
          | inr unstored ↦ rw (append, unstored) (append_row-clean c rows signs e)
        ]
