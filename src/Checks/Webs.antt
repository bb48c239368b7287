-- ===== src/Checks/Webs.antt =====
-- Runs of the properties of the spiderweb, the waits, the relay spool and what is sanitized.
use qnm_node.Base.{
  ◌≡◌, refl, ◌≢◌, ◌↔◌, true, false, some, [], ◌∷◌, arith, list_eq, nat_eq, list_beq, Text, codes,
  ok, get, put, is_some, contains, any, keep, find,
}
use qnm_node.Base.{
  string, object, Fields, no_field, field, look, keys, ◌>>>◌, lower, lower_code, strip, strip_left,
  is_space,
}
use qnm_node.Chain
use qnm_node.Pairs.{Bind, peers, has_edge}
use qnm_node.Bearers.{is_on}
use qnm_node.Bearers
use qnm_node.Bytes.{utf8}
use qnm_node.Node.{Node, at_local, write_receipt}
use qnm_node.Checks.{toy, prev_of, fresh}
use qnm_node.Apg.{admit, scan_raw, is_poison, stands_in, starts_with, refuse_forbidden_values}
use qnm_node.Spiderweb.{
  Web, Frame, Python, alive, has_no_edges, offers, universe, path_roots, refuse_physics,
  any_enabled_bearer, limit, choose, choose_hop, decide,
}
use qnm_node.Spiderweb.Walks.{
  delivered, out_of_hops, next_frame, deliver_receipt, hop_receipt, walk, forward,
}
use qnm_node.Spiderweb.Paths.{Reach, search, scan, last}
use qnm_node.Spiderweb.Routes.{path_roots_iff}
use qnm_node.Spiderweb.Arrives.{forward-ends}
use qnm_node.Spiderweb.Carried.{IsRoute, walk-IsRoute}
use qnm_node.Sanitize.{
  sanitize_via_payload, sanitize_via_payload-clean, is_banned, walk_strings, in_object, as_key,
}
use qnm_node.Waits.{Payload, do_queue, do_cut, do_restart, run, promised, both, run-both}
use qnm_node.Fed.Spool.{Spool, total, Envelope, post, poll, read, path, is_alnum}
use qnm_node.Fed.Quota.{
  IsSound, do_post, do_poll, run_all, run_all-IsSound, distinct, holds, polled, poll-post,
}

abbrev bind_to : Text → Bind
bind_to peer = record {
  pair_id = codes "p1";
  peer = peer;
  root_a = [];
  root_b = [];
  nonce_a = [];
  nonce_b = [];
  bearer_id = [];
  utc = [];
}

abbrev living : Text → Text → Node
living root peer = record fresh {
  state = at_local;
  install_root = some root;
  pairs = record { memorial = bind_to peer ∷ []; pending = [] };
}

-- Two nodes that are paired.
abbrev web : Web
web = (codes "a", living (codes "a") (codes "b")) ∷ (codes "b", living (codes "b") (codes "a")) ∷ []

abbrev python : Python
python = record {
  loads = λ t. some (object no_field);
  dumps_core = λ src dest payload salt. src;
  dumps_frame = λ f. codes "{}";
  dumps_wait = λ f via. via;
  canonical = prev_of;
  arrange = λ xs. xs;
  hash = toy;
  clock = λ n. record { utc = []; now = []; now' = [] };
}

path_roots_iff_example :
    (is_some (path_roots (λ xs. xs) web (codes "a") (codes "b")) ≡ true)
    ↔ Reach (offers (λ xs. xs) web) (lower (codes "a")) (lower (codes "b"))
path_roots_iff_example = path_roots_iff (λ xs. xs) web (λ xs x. refl) (codes "a") (codes "b")

forward-ends_example :
    (forward python (codes "a") (codes "b") (codes "{}") [] 0 [] [] web).0 ≢ ok out_of_hops
forward-ends_example = forward-ends python (codes "a") (codes "b") (codes "{}") [] 0 [] [] web

abbrev frame : Frame
frame = record {
  src = codes "a";
  dest = codes "b";
  via = codes "local";
  hops = 0;
  hop_max = 8;
  seen = codes "a" ∷ [];
  payload = no_field;
  frame_id = [];
  pair_path = [];
}

abbrev frame_there : Frame
frame_there = record frame {
  hops = 1;
  seen = codes "a" ∷ codes "b" ∷ [];
  pair_path = codes "p1" ∷ [];
}

crossed : (walk python 2 (codes "a") frame web).0 ≡ ok (delivered (codes "b") frame_there)
unfolding walk decide alive has_no_edges get put list_beq admit scan_raw is_poison any stands_in
    starts_with lower lower_code utf8 strip strip_left is_space refuse_physics look choose
    choose_hop any_enabled_bearer is_on path_roots offers universe search scan last limit contains
    has_edge peers keep find write_receipt next_frame hop_receipt deliver_receipt ◌>>>◌
    refuse_forbidden_values Bearers.initial Chain.append
crossed = refl

low : lower (codes "a") ≡ codes "a"
unfolding lower lower_code
low = refl

walk-IsRoute_example :
    IsRoute python (λ xs x. refl) web (codes "a") frame (codes "b") frame_there
    × (codes "b" ≡ lower (codes "b"))
walk-IsRoute_example =
    walk-IsRoute python (λ xs x. refl) 2 (codes "a") frame web (codes "b") frame_there low crossed

abbrev note : Fields
note = field (codes "note") (string (codes "hi")) no_field

passed : sanitize_via_payload note ≡ ok note
unfolding sanitize_via_payload is_banned walk_strings any contains list_beq lower lower_code keys
passed = refl

sanitize_via_payload-clean_example : (is_banned (codes "note") ≡ false) × (note ≡ note)
sanitize_via_payload-clean_example =
    sanitize_via_payload-clean note note (codes "note") passed (in_object as_key)

abbrev a_wait : Payload
a_wait = record { publish = false; waiting = true; json = codes "{}" }

run-both_example :
    run toy
      (do_queue (codes "qns-wait") a_wait [] [] ∷ do_restart ∷ do_cut (codes "x") ∷ [])
      (both [])
    ≡ both (
        promised toy
          (do_queue (codes "qns-wait") a_wait [] [] ∷ do_restart ∷ do_cut (codes "x") ∷ [])
          [])
run-both_example =
    run-both toy (do_queue (codes "qns-wait") a_wait [] [] ∷ do_restart ∷ do_cut (codes "x") ∷ [])
      []

abbrev empty_spool : Spool
empty_spool = record { quota_bytes = 10; ttl = 5; files = [] }

empty-IsSound : (file : Text) → IsSound empty_spool file
unfolding get total distinct
empty-IsSound file = record { within = omega arith; once = refl }

run_all-IsSound_example :
    IsSound
      (run_all
        (do_post (record { to = codes "bo"; id = codes "e1"; json = codes "{}" }) 1
          ∷ do_poll (codes "bo") 9
          ∷ [])
        empty_spool)
      (codes "bo")
run_all-IsSound_example =
    run_all-IsSound
      (do_post (record { to = codes "bo"; id = codes "e1"; json = codes "{}" }) 1
        ∷ do_poll (codes "bo") 9
        ∷ [])
      empty_spool (codes "bo") empty-IsSound

abbrev letter : Envelope
letter = record { to = codes "bo"; id = codes "e1"; json = codes "{}" }

taken : (post letter 1 empty_spool).0 ≡ ok (codes "e1")
unfolding post get total read path is_alnum keep any utf8
taken = refl

poll-post_example :
    holds letter (polled (poll (codes "bo") 5 (post letter 1 empty_spool).1).0) ≡ true
poll-post_example = poll-post letter 1 5 empty_spool (codes "e1") taken (omega arith)
