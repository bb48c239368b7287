-- ===== src/Checks/Nodes.antt =====
-- Runs of the properties of the node, its lock, its wait and its score.
use qnm_node.Base.{
  lower, lower_code, ℕ, ◌≤◌, ◌≡◌, refl, ◌⊎◌, ◌↔◌, ◌&&◌, ◌||◌, not, inl, Bool, true, false, Option,
  some, List, [], ◌∷◌, Text, codes, length, Result, ok, refuse, is_ok, contains, all, list_beq,
  arith, leb, or_else, any, list_eq, nat_eq, if◌then◌else◌,
}
use qnm_node.Base
use qnm_node.Chain
use qnm_node.Bearers.{drop_all_except_local}
use qnm_node.Tethers
use qnm_node.Pairs
use qnm_node.Phoenix.{score_local, local_posture}
use qnm_node.Boot
use qnm_node.Boot.{Lock, do_install, do_scorch}
use qnm_node.Node
use qnm_node.Node.{Node, at_cold, at_local, at_phoenix_lock, at_isolated, at_scorched, rank}
use qnm_node.Node.Life.{nowhere, boot, isolate, scorch}
use qnm_node.Node.Life
use qnm_node.Node.Acts.{
  Op, do_boot, do_isolate, do_scorch, do_set_bearer, do_degrade, perform, live_through,
}
use qnm_node.Node.Forward.{live_through-forward}
use qnm_node.Node.Dead.{IsUntouched, IsAshes, perform-dead, scorch-IsAshes, isolate_lem}
use qnm_node.Node.Quiet.{IsQuiet, live_through-IsQuiet}
use qnm_node.Checks.{toy, prev_of, fresh}

abbrev life : List Op
life =
    do_boot (1 ∷ []) (2 ∷ []) [] nowhere (codes "t0") (codes "t1") false
    ∷ do_set_bearer (codes "operator") true (codes "t2")
    ∷ do_isolate (codes "tamper") (codes "t3")
    ∷ do_scorch (codes "operator") (codes "t4") (codes "t5")
    ∷ []

live_through-forward_example : rank at_cold ≤ rank (live_through toy prev_of life fresh).state
live_through-forward_example = live_through-forward toy prev_of life fresh

live_through-IsQuiet_example : IsQuiet (live_through toy prev_of life fresh)
live_through-IsQuiet_example =
    live_through-IsQuiet toy prev_of life fresh
      (record { unpaired = λ _. refl; scorched_unpaired = λ _. refl })

abbrev ended : Node
ended = record fresh { state = at_scorched }

perform-dead_example :
    IsUntouched ended (perform toy prev_of (do_degrade (codes "fault") (codes "t")) ended).1
perform-dead_example =
    perform-dead toy prev_of (do_degrade (codes "fault") (codes "t")) ended refl refl

abbrev lock : Lock
lock = record {
  identity = codes "Aziel Eliab";
  install_root = toy.sha256_hex (1 ∷ 2 ∷ []);
  entropy_sha256 = toy.sha256_hex (1 ∷ []);
  nonce_sha256 = toy.sha256_hex (2 ∷ []);
  genesis_sha256 = [];
  created_utc = codes "t0";
  scorched = false;
}

abbrev waiting : Node
waiting = record fresh { state = at_phoenix_lock; lock = some lock }

scorched_ok : is_ok (scorch toy prev_of (codes "operator") (codes "t") (codes "t") waiting).0 ≡ true
unfolding scorch Life.burn_out Life.enter_wait Life.scorch_lock Life.burn Boot.mark_scorched
    Base.◌>>>◌ Node.require_not_scorched Node.advance Node.forward Node.write_receipt Node.has_geo
    contains lower lower_code Chain.append Chain.is_forbidden_kind any list_beq
scorched_ok = refl

scorch-IsAshes_example :
    IsAshes toy prev_of fresh.bearers
      (scorch toy prev_of (codes "operator") (codes "t") (codes "t") waiting).1
scorch-IsAshes_example =
    scorch-IsAshes toy prev_of (codes "operator") (codes "t") (codes "t") waiting scorched_ok

abbrev running : Node
running = record fresh { state = at_local; lock = some lock }

isolated_ok : is_ok (isolate toy prev_of (codes "tamper") (codes "t") running).0 ≡ true
unfolding isolate Life.enter_isolated Base.◌>>>◌ Node.require_not_scorched Node.advance Node.forward
    Node.write_receipt Node.has_geo contains lower lower_code Chain.append Chain.is_forbidden_kind
    any list_beq Pairs.cut_all Pairs.forget_all_pairs Tethers.drop_all
isolated_ok = refl

isolate_lem_example :
    ((isolate toy prev_of (codes "tamper") (codes "t") running).1.state ≡ at_isolated)
    × ((isolate toy prev_of (codes "tamper") (codes "t") running).1.pairs.memorial ≡ [])
    × ((isolate toy prev_of (codes "tamper") (codes "t") running).1.tethers ≡ [])
    × ((isolate toy prev_of (codes "tamper") (codes "t") running).1.bearers
        ≡ drop_all_except_local running.bearers)
isolate_lem_example = isolate_lem toy prev_of (codes "tamper") (codes "t") running isolated_ok

-- Another installation, a scorch and one more installation.
abbrev asked : List Boot.Call
asked = do_install (3 ∷ []) (4 ∷ []) [] (codes "t9") ∷ do_scorch ∷ do_install [] [] [] [] ∷ []

scored : score_local true 7 false false false [] ≡ ok (17, local_posture)
unfolding score_local any contains
scored = refl
