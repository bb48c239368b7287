-- ===== src/Checks/Meshes.antt =====
-- Runs of the properties of the federation's ledger and guard, the via stack and the LAN queue.
use qnm_node.Base.{
  ℕ, ◌+◌, ◌∷◌, ◌≤◌, ◌<◌, ◌≡◌, refl, ◌⊎◌, ◌&&◌, not, Bool, true, false, Option, none, some, List, [],
  ◌++◌, Text, codes, Result, ok, refuse, list_beq, arith, find, any, is_some, if◌then◌else◌,
  contains, get, nat_eq, list_eq, pair_eq, pair_beq, nat_beq, ◌==◌,
}
use qnm_node.Base
use qnm_node.Chain.{genesis_prev}
use qnm_node.Fed.Receipts.{Anchor, Ledger, empty_ledger, submit, submit_all, prefix, tip}
use qnm_node.Fed.Receipts
use qnm_node.Fed.Runs.{IsRun, submit_all-IsRun, submit-submit}
use qnm_node.Fed.Runs
use qnm_node.Fed.Guard.{
  PeerGuard, IsWithin, check, check-IsWithin, check-note_failure, note_failure, minute,
}
use qnm_node.Fed.Guard
use qnm_node.Walker.{
  Photon, Policy, World, went_out, did_not, walk, walk_on, via_order, emitted, Outcome, waiting,
}
use qnm_node.Walker
use qnm_node.Walker.Stack.{
  IsNext, walk-IsNext, sent, walk-walk, walk-forced, only_class, walk_on-first, takes, ending,
  last_of,
}
use qnm_node.Retries.{Item, append, append-capped, load, weight, max_queue_items, max_queue_bytes}
use qnm_node.Checks.{digest_a, digest_b}

abbrev signed : Anchor → Result (Unit {0})
signed a = ok tt

abbrev first : Anchor
first = record { handle = codes "ana"; seq = 1; prev = genesis_prev; hash = digest_a; signed = [] }

abbrev forked : Anchor
forked = record first { hash = digest_b }

none-IsRun : (i : Text) → IsRun empty_ledger i
unfolding prefix tip get Runs.runs_on Runs.end_of
none-IsRun i = record { runs = refl; ends = refl }

submit_all-IsRun_example :
    IsRun (submit_all signed (first ∷ forked ∷ []) empty_ledger) (codes "ana")
submit_all-IsRun_example =
    submit_all-IsRun signed (first ∷ forked ∷ []) empty_ledger (codes "ana") none-IsRun

taken : (submit signed first empty_ledger).0 ≡ ok first
unfolding submit Receipts.accept Receipts.admits Receipts.classify_link get list_beq
taken = refl

submit-submit_example :
    submit signed forked (submit signed first empty_ledger).1
    ≡ (refuse Base.fed_fork, (submit signed first empty_ledger).1)
unfolding list_beq
submit-submit_example = submit-submit signed first forked empty_ledger tt taken refl refl refl

abbrev calm : PeerGuard
calm = record { quarantine = []; hits = []; fails = (codes "p", 2) ∷ []; open_until = [] }

calm-IsWithin : IsWithin calm (codes "p")
unfolding get Guard.total Base.length
calm-IsWithin = record { few = omega arith; small = omega arith }

check-IsWithin_example : IsWithin (check (codes "p") 1000 5 calm).1 (codes "p")
check-IsWithin_example = check-IsWithin (codes "p") 1000 5 calm (codes "p") calm-IsWithin

two_fails : 2 ≤ Guard.or_zero (get calm.fails (codes "p"))
unfolding get list_beq
two_fails = omega arith

unheld : contains calm.quarantine (codes "p") ≡ false
unfolding contains
unheld = refl

check-note_failure_example :
    check (codes "p") 10 1000 (note_failure (codes "p") 5 calm)
    ≡ (refuse Base.fed_breaker, note_failure (codes "p") 5 calm)
check-note_failure_example =
    check-note_failure (codes "p") 5 1000 10 calm unheld two_fails (omega arith)

abbrev world : World
world = record {
  is_absent = λ name. not (name == codes "qns");
  emit = λ p name. went_out;
  sanitize = λ p. ok tt;
  photon_hash = λ p. digest_b;
  print = λ n. codes "n";
}

abbrev photon : Photon
photon = record {
  magic = codes "QNS1";
  ver = codes "1.3";
  photon_id = digest_a;
  src = codes "a";
  dst = codes "b";
  via = [];
  via_in = [];
  via_out = [];
  translate = false;
  hop = 0;
  hop_max = some 8;
  seen = [];
}

abbrev always : Policy
always = record { force_via = none; hop_max = 8 }

abbrev forced : Policy
forced = record { force_via = some (codes "qns"); hop_max = 8 }

abbrev gone : Photon
gone = record photon {
  via = codes "qns";
  via_in = codes "qns";
  via_out = codes "qns";
  hop = 1;
  seen = digest_a ∷ [];
}

went : sent (walk world (codes "LIVE") always [] true none photon) ≡ some gone
unfolding walk Walker.order_of Walker.classes Walker.is_loop Walker.token_of Walker.walk_on
    Walker.leave Walker.translate_apply contains list_beq
went = refl

walk-walk_example : sent (walk world (codes "LIVE") forced [] true none gone) ≡ none
walk-walk_example =
    walk-walk world world (codes "LIVE") (codes "LIVE") always forced [] [] true true none none
      photon gone refl went

went_forced : walk world (codes "LIVE") forced [] true none photon ≡ ok (emitted (codes "qns") gone)
unfolding walk Walker.order_of Walker.classes Walker.is_loop Walker.token_of Walker.walk_on
    Walker.leave Walker.translate_apply contains list_beq
went_forced = refl

walk-forced_example : codes "qns" ≡ only_class (codes "LIVE") (codes "qns")
walk-forced_example =
    walk-forced world (codes "LIVE") forced [] true none photon (codes "qns") (codes "qns")
      (emitted (codes "qns") gone) refl went_forced refl

walk_on-first_example :
    walk_on world false photon [] (codes "local") via_order
    ≡ (elim (find (takes world photon) via_order) [
      | some name ↦ ending world photon [] name
      | none ↦ ok (waiting (last_of (codes "local") via_order))
    ])
walk_on-first_example = walk_on-first world photon [] (codes "local") via_order

abbrev row : Item
row = record {
  packet_id = codes "p";
  expiry = some 50;
  next_attempt = none;
  attempts = 0;
  state = codes "queued";
  last_outcome = [];
  last_code = [];
  nbytes = 10;
}

append-capped_example :
    (load (append row []).1 ≤ max_queue_items) × (weight (append row []).1 ≤ max_queue_bytes)
unfolding load weight
append-capped_example = append-capped row [] (omega arith) (omega arith)

walk-IsNext_example : IsNext photon gone × (0 < 8)
walk-IsNext_example = walk-IsNext world (codes "LIVE") always [] true none photon gone refl went
