-- ===== src/Checks/Chains.antt =====
-- Runs of the properties of the chain, the wires, the pairs, the tethers and the outbox.
use qnm_node.Base.{
  all, strip, strip_left, is_space, any, ◌==◌, if◌then◌else◌, Option, ℕ, ◌*◌, ◌≡◌, refl, ◌≢◌, ◌⊎◌,
  ◌↔◌, ◌==◌, list_eq, nat_eq, arith, Bool, true, false, Option, none, some, List, [], ◌∷◌, ◌++◌,
  Text, codes, length, Result, ok, refuse, is_ok, lower, any, is_empty, contains, list_beq, ap, get,
}
use qnm_node.Base
use qnm_node.Digest.{canonical_hash_self}
use qnm_node.Chain.{
  Chain, Link, load, empty_chain, is_boundary, split_lines, parse_lines, append, verify,
}
use qnm_node.Chain.Seal.{run, run_restart, run_errors, IsNumbered}
use qnm_node.Chain.Tamper.{Clash, texts, tip-determines-texts}
use qnm_node.Bearers
use qnm_node.Bearers.{IsGuarded, set-IsGuarded, initial-IsGuarded}
use qnm_node.Tethers
use qnm_node.Tethers.{IsClean, cut-declare, declare-IsClean}
use qnm_node.Pairs.{Pairs, absent, Handshake, Bind, offer, accept, seal, get_bind}
use qnm_node.Pairs.Rounds.{handshake_agrees}
use qnm_node.Wires
use qnm_node.Wires.{
  Wires, Cite, cite, apply_cited, second, store_for_pull, pull_payload, note_peer_tip,
  isolate_ambiguous, heartbeat_miss, apply_last_on_heartbeat_loss, view_of, new_view, live, locked,
}
use qnm_node.Wires.Dwell.{Takes, apply_cited-Takes, cite-IsHeld, initial-IsHeld}
use qnm_node.Wires.Peers.{has_ended, ended_stays}
use qnm_node.Wires.Payloads.{pull-store}
use qnm_node.Wires.Tick.{pack_tick, unpack_tick, tick_bytes}
use qnm_node.Wires.Frames.{unpack_tick-pack_tick}
use qnm_node.Bytes.{utf8}
use qnm_node.Checks.{toy, prev_of, digest_a, digest_b, digest_a-IsDigest, digest_b-IsDigest}

abbrev asked : List (Text × Text × Text)
asked =
    (codes "boot", codes "a", codes "t1")
    ∷ (codes "mesh_complete", codes "b", codes "t2")
    ∷ (codes "bearer", codes "c", codes "t3")
    ∷ []

-- Rows as their bodies between bars.
abbrev as_row : Link Text → Text
as_row l = codes "{" ++ l.body ++ codes "}"

abbrev whole : Chain Text
whole = run toy prev_of asked empty_chain

-- `json.loads` of those rows.
abbrev back_of : List (Link Text) → Text → Option (Link Text)
back_of [] text = none
back_of (l ∷ ls) text = if as_row l == text then some l else back_of ls text

run_restart_example :
    (load as_row (back_of whole.file) whole.file ≡ some whole)
    × ((verify toy prev_of whole).errors ≡ [])
    × IsNumbered 0 whole.links
unfolding run any all is_boundary strip strip_left is_space append list_beq
run_restart_example =
    run_restart toy prev_of as_row (back_of whole.file) asked (refl, (refl, tt)) refl

-- A body with U+2028 in it: its row is two lines, and the file is not read again.
abbrev broken : Chain Text
broken = run toy prev_of ((codes "boot", 97 ∷ 8232 ∷ 98 ∷ [], codes "t1") ∷ []) empty_chain

restart_broken : load as_row (back_of broken.file) broken.file ≡ none
unfolding load run split_lines parse_lines strip strip_left is_space append list_beq
restart_broken = refl

abbrev kept : Chain Text
kept = whole

kept-fine : (verify toy prev_of kept).errors ≡ []
kept-fine = run_errors toy prev_of asked

tip-determines-texts_example :
    (texts toy prev_of kept.links ≡ texts toy prev_of kept.links)
    ⊎ Clash toy prev_of kept.links kept.links
tip-determines-texts_example =
    tip-determines-texts toy prev_of (λ a b e. e) kept kept kept-fine kept-fine refl refl

apart : lower (codes "aa") ≢ lower (codes "bb")
unfolding lower Base.lower_code
apart e = ground arith

abbrev no_binds : Pairs
no_binds = record { memorial = []; pending = [] }

handshake_agrees_example :
    (o : Handshake) × (ac : Handshake) × (row_a : Bind) × (row_b : Bind) × ((offer
        (1 ∷ [])
        (codes "t1")
        (codes "aa")
        (codes "bb")
        absent
        (codes "lan")
        no_binds).0
      ≡ ok o)
    × ((accept toy (2 ∷ []) (codes "t2") o (codes "bb") absent (codes "lan") no_binds).0 ≡ ok ac)
    × ((seal toy (codes "t3") ac (codes "aa") (codes "lan") no_binds).0 ≡ ok row_a)
    × ((seal toy (codes "t4") ac (codes "bb") (codes "bt") no_binds).0 ≡ ok row_b)
    × (get_bind (seal toy (codes "t3") ac (codes "aa") (codes "lan") no_binds).1.memorial ac.pair_id
        ≡ some row_a)
    × (get_bind (seal toy (codes "t4") ac (codes "bb") (codes "bt") no_binds).1.memorial ac.pair_id
        ≡ some row_b)
    × (row_a.pair_id ≡ ac.pair_id)
    × (row_b.pair_id ≡ ac.pair_id)
handshake_agrees_example =
    handshake_agrees toy (codes "aa") (codes "bb") (1 ∷ []) (2 ∷ []) (codes "t1") (codes "t2")
      (codes "lan") (codes "lan") (omega arith, tt) (omega arith, tt) refl refl apart (codes "t3")
      (codes "t4") (codes "lan") (codes "bt") no_binds no_binds no_binds no_binds

set-IsGuarded_example : IsGuarded (Bearers.set (codes "lan") true Bearers.initial).1
set-IsGuarded_example = set-IsGuarded (codes "lan") true Bearers.initial initial-IsGuarded

abbrev tethered : Result Tethers.Tether × Tethers.Tethers
tethered = Tethers.declare toy (codes "a") (codes "b") (codes "t") (codes "t") []

declare-IsClean_example : IsClean tethered.1
declare-IsClean_example = declare-IsClean toy (codes "a") (codes "b") (codes "t") (codes "t") [] tt

abbrev cited : Wires
cited = (cite Wires.zero_hash digest_a (codes "p") none 5000000 true Wires.initial).1

apply_cited-Takes_example :
    ((apply_cited (800 * second) none cited).1 ≡ cited)
    ⊎ Takes (800 * second) cited (apply_cited (800 * second) none cited).1
apply_cited-Takes_example = apply_cited-Takes (800 * second) none cited (
    cite-IsHeld Wires.zero_hash digest_a (codes "p") none 5000000 true Wires.initial initial-IsHeld)

abbrev stored : Result Text × Wires
stored = store_for_pull toy (1 ∷ 2 ∷ []) none Wires.initial

stored_ok : stored.0 ≡ ok digest_a
unfolding store_for_pull
stored_ok = ground (arith, canonical_hash_self digest_a digest_a-IsDigest)

pull-store_example : pull_payload toy digest_a stored.1 ≡ ok (digest_a, 2)
pull-store_example = pull-store toy (1 ∷ 2 ∷ []) none Wires.initial digest_a stored_ok

unpack_tick-pack_tick_example :
    (frame : List ℕ) × (pack_tick toy (codes "live") digest_b ≡ ok frame)
    × (length frame ≡ tick_bytes)
    × (unpack_tick frame
        ≡ ok (record { presence = toy.sha256_hex (utf8 (codes "live")); tip_hash = digest_b }))
unpack_tick-pack_tick_example =
    unpack_tick-pack_tick toy (codes "live") digest_b digest_b
      (canonical_hash_self digest_b digest_b-IsDigest)

abbrev shut : Wires
shut = record Wires.initial {
  peers =
      (
        codes "p",
        record { prev = none; tips = []; status = Wires.isolated; misses = 0; suspect = false },
      )
      ∷ [];
}

shut_ended : has_ended shut (codes "p") ≡ true
unfolding view_of Wires.peer_name get list_beq Base.strip Base.strip_left Base.is_space
    Wires.initial
shut_ended = refl

ended_stays_example :
    (has_ended (note_peer_tip (codes "p") digest_a digest_b shut).1 (codes "p") ≡ true)
    × (has_ended (isolate_ambiguous (codes "p") [] shut).1 (codes "p") ≡ true)
    × (has_ended (heartbeat_miss (codes "p") shut).1 (codes "p") ≡ true)
    × (has_ended (apply_last_on_heartbeat_loss (codes "p") shut).1 (codes "p") ≡ true)
ended_stays_example = ended_stays (codes "p") (codes "p") digest_a digest_b [] shut shut_ended
