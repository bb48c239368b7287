-- ===== src/Node/Dead.antt =====
-- qnm/node.py: what a scorch and an isolation leave, and what the modelled acts no longer change on
-- a scorched node.
use qnm_node.Base.{
  ◌≡◌, refl, inl, inr, Bool, true, false, ◌||◌, [], arith, list_eq, nat_eq, Text, Option-cases,
  is_ok, Act, any,
}
use qnm_node.Base.{◌>>>◌}
use qnm_node.Digest.{Hash}
use qnm_node.Chain.{Core}
use qnm_node.Node.Acts.{
  do_boot, do_set_bearer, do_site_ping, do_heal, do_account_resurrect, do_degrade, do_isolate,
  do_check_tamper, do_arm_phoenix, do_enable_fabric, do_persist_transfer, do_scorch,
  do_declare_tether, do_cut_tether, do_pair_offer, do_pair_accept, do_pair_seal, do_pair_cut,
  do_cut_outbox, do_queue_outbox,
}
use qnm_node.Node.{
  State, at_cold, at_local, at_live, at_degraded, at_isolated, at_phoenix_lock, at_scorched, Body,
  Node, is_state, forward, advance, require_not_scorched, require_active, require_pairable,
  write_receipt, is_scorched_lock,
}
use qnm_node.Node.Life.{
  boot, set_bearer, heal, account_resurrect, degrade, enter_isolated, isolate, check_tamper,
  arm_phoenix, enter_wait, burn, scorch_lock, burn_out, scorch,
}
use qnm_node.Node.Acts.{
  declare_tether, cut_tether, pair_offer, pair_accept, pair_seal, pair_cut, queue_outbox,
  cut_outbox, enable_fabric, persist_transfer, Op, perform,
}
use qnm_node.Pairs
use qnm_node.Tethers
use qnm_node.Bearers.{Bearers, drop_all_except_local}
use qnm_node.Outbox
use qnm_node.Boot.{mark_scorched}
use qnm_node.Pairs.{Nonce, Handshake}

-- No more life: the state is SCORCHED, or the lock on disk is.
abbrev pub is_dead : Node → Bool
is_dead n = is_state n.state at_scorched || is_scorched_lock n.lock

abbrev pub is_ping : Op → Bool
is_ping (do_site_ping present utc) = true
is_ping op = false

-- What an act leaves alone.
pub record IsUntouched (n m : Node) : Type 0 where
  pub same_pairs : m.pairs ≡ n.pairs
  pub same_bearers : m.bearers ≡ n.bearers
  pub same_tethers : m.tethers ≡ n.tethers
  pub same_outbox : m.outbox ≡ n.outbox
  pub same_chain : m.chain ≡ n.chain
  pub same_lock : m.lock ≡ n.lock

guard-dead :
    {A : Type 0} (f : Unit → Act Node A) (n : Node)
    → is_dead n ≡ true
    → IsUntouched n ((require_not_scorched >>> f) n).1
unfolding ◌>>>◌ require_not_scorched
guard-dead f n d = ground arith

pub is_state_lock : (s : State) → is_state s at_phoenix_lock ≡ true → s ≡ at_phoenix_lock
is_state_lock at_cold e = ground arith
is_state_lock at_local e = ground arith
is_state_lock at_live e = ground arith
is_state_lock at_degraded e = ground arith
is_state_lock at_isolated e = ground arith
is_state_lock at_phoenix_lock e = refl
is_state_lock at_scorched e = ground arith

module _ (h : Hash) (canonical : Core Body → Text) where
  -- After an isolation that is granted, its receipt included, the node is ISOLATED, it has no pair bind
  -- and no tether, and its bearers are those of before with all but the local one dropped.
  pub isolate_lem :
      (reason utc : Text) (n : Node)
      → is_ok (isolate h canonical reason utc n).0 ≡ true
      → ((isolate h canonical reason utc n).1.state ≡ at_isolated)
        × ((isolate h canonical reason utc n).1.pairs.memorial ≡ [])
        × ((isolate h canonical reason utc n).1.tethers ≡ [])
        × ((isolate h canonical reason utc n).1.bearers ≡ drop_all_except_local n.bearers)
  unfolding isolate enter_isolated ◌>>>◌ require_not_scorched advance forward any write_receipt
      Pairs.cut_all Pairs.forget_all_pairs Tethers.drop_all
  isolate_lem reason utc n e = ground arith

  -- Once a node is dead, none of the modelled acts (`Op`) but a site ping, which writes a receipt,
  -- changes its pairs, bearers, tethers, outbox, chain or lock.
  pub perform-dead :
      (op : Op) (n : Node)
      → is_ping op ≡ false
      → is_dead n ≡ true
      → IsUntouched n (perform h canonical op n).1
  unfolding perform boot set_bearer heal account_resurrect degrade isolate check_tamper arm_phoenix
      scorch declare_tether cut_tether pair_offer pair_accept pair_seal pair_cut queue_outbox
      cut_outbox enable_fabric persist_transfer ◌>>>◌ require_not_scorched require_active
      require_pairable
  perform-dead (do_boot entropy nonce genesis from now utc seen) n p d = ground arith
  perform-dead (do_set_bearer name on utc) n p d = ground arith
  perform-dead (do_site_ping present utc) n p d = ground arith
  perform-dead do_heal n p d = ground arith
  perform-dead do_account_resurrect n p d = ground arith
  perform-dead (do_degrade reason utc) n p d = ground arith
  perform-dead (do_isolate reason utc) n p d = ground arith
  perform-dead (do_check_tamper utc) n p d = ground arith
  perform-dead (do_arm_phoenix utc) n p d = ground arith
  perform-dead (do_enable_fabric tip payload now now' utc) n p d = ground arith
  perform-dead (do_persist_transfer tip payload now now' utc) n p d = ground arith
  perform-dead (do_scorch reason now utc) n p d = ground arith
  perform-dead (do_declare_tether src dst now now' utc) n p d = ground arith
  perform-dead (do_cut_tether src dst utc) n p d = ground arith
  perform-dead (do_pair_offer drawn now peer nonce via utc) n p d = ground arith
  perform-dead (do_pair_accept drawn now offer nonce via utc) n p d = ground arith
  perform-dead (do_pair_seal now handshake via utc) n p d = ground arith
  perform-dead (do_pair_cut pair_id utc) n p d = ground arith
  perform-dead (do_cut_outbox item utc) n p d = ground arith
  perform-dead (do_queue_outbox kind payload now now' utc) n p d = ground arith

  -- What a scorch leaves, given the bearers before it.
  pub record IsAshes (bearers : Bearers) (n : Node) : Type 0 where
    pub on_disk : is_scorched_lock n.lock ≡ true
    pub ended : n.state ≡ at_scorched
    pub no_pairs : n.pairs.memorial ≡ []
    pub no_tethers : n.tethers ≡ []
    pub no_items : n.outbox ≡ []
    pub local_only : n.bearers ≡ drop_all_except_local bearers

  burn_out-IsAshes :
      (reason now utc : Text) (n : Node)
      → n.state ≡ at_phoenix_lock
      → is_ok (burn_out h canonical reason now utc n).0 ≡ true
      → IsAshes n.bearers (burn_out h canonical reason now utc n).1
  unfolding burn_out burn scorch_lock mark_scorched ◌>>>◌ advance forward any write_receipt
      Pairs.cut_all Pairs.forget_all_pairs Tethers.clear Outbox.clear
  burn_out-IsAshes reason now utc n w e = elim (Option-cases n.lock) [
    | inl missing ↦ ground arith
    | inr (lock, found) ↦ ground arith
  ]

  enter_wait_lem :
      (n : Node)
      → is_ok (enter_wait h canonical n).0 ≡ true
      → ((enter_wait h canonical n).1.state ≡ at_phoenix_lock)
        × ((enter_wait h canonical n).1.bearers ≡ n.bearers)
  unfolding enter_wait advance
  enter_wait_lem n e = ground (arith, is_state_lock n.state)

  -- After a scorch that is granted the node is SCORCHED, in memory and on disk, and has no pair bind,
  -- tether or outbox item, and no bearer but the local one.
  pub scorch-IsAshes :
      (reason now utc : Text) (n : Node)
      → is_ok (scorch h canonical reason now utc n).0 ≡ true
      → IsAshes n.bearers (scorch h canonical reason now utc n).1
  unfolding scorch ◌>>>◌ require_not_scorched
  scorch-IsAshes reason now utc n e =
      ground (arith, enter_wait_lem n, burn_out-IsAshes reason now utc (enter_wait h canonical n).1)
