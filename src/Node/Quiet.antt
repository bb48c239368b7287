-- ===== src/Node/Quiet.antt =====
-- qnm/node.py: the pair binds of a node that is isolated, waiting or scorched.
use qnm_node.Base.{
  ℕ, ◌≤◌, ◌≡◌, refl, inl, inr, Bool, true, Option, none, some, List, [], ◌∷◌, arith, list_eq,
  nat_eq, Text, Bool-cases, Option-cases, Result-cases, codes, any,
}
use qnm_node.Base.{◌>>>◌, continue, Act}
use qnm_node.Outbox.{Payload}
use qnm_node.Digest.{Hash}
use qnm_node.Chain.{Core}
use qnm_node.Node.Acts.{
  do_boot, do_set_bearer, do_site_ping, do_heal, do_account_resurrect, do_degrade, do_isolate,
  do_check_tamper, do_arm_phoenix, do_enable_fabric, do_persist_transfer, do_scorch,
  do_declare_tether, do_cut_tether, do_pair_offer, do_pair_accept, do_pair_seal, do_pair_cut,
  do_cut_outbox, do_queue_outbox,
}
use qnm_node.Boot.{Lock}
use qnm_node.Node.{
  rank, Body, Node, forward, advance, require_not_scorched, require_active, require_pairable,
  write_receipt, is_scorched_lock,
}
use qnm_node.Node.Life.{
  From, nowhere, the_lock, elsewhere, boot_lock, boot_with, boot, after_switch, set_bearer,
  site_ping, heal, account_resurrect, degrade, enter_isolated, isolate, check_tamper, arm_phoenix,
  enter_wait, burn, scorch_lock, burn_out, scorch,
}
use qnm_node.Node.Acts.{
  declare_tether, cut_tether, pair_offer, pair_accept, pair_seal, pair_cut, queue_outbox,
  cut_outbox, enable_fabric, arm, persist_transfer, Op, perform, live_through,
}
use qnm_node.Pairs
use qnm_node.Tethers
use qnm_node.Boot.{mark_scorched, install}
use qnm_node.Pairs.{Nonce, Handshake}
use qnm_node.Base.{split_off}
use qnm_node.Node.Dead.{is_dead, is_state_lock}

cut_empty :
    (pair_id : Text) (p : Pairs.Pairs) → p.memorial ≡ [] → (Pairs.cut pair_id p).1.memorial ≡ []
unfolding Pairs.cut Pairs.forget_pair split_off
cut_empty pair_id p e = rw e refl

-- A node past DEGRADED, or with a scorched lock, has no pair bind.
pub record IsQuiet (n : Node) : Type 0 where
  pub unpaired : 4 ≤ rank n.state → n.pairs.memorial ≡ []
  pub scorched_unpaired : is_scorched_lock n.lock ≡ true → n.pairs.memorial ≡ []

module _ (h : Hash) (canonical : Core Body → Text) where
  isolate-IsQuiet :
      (reason utc : Text) (n : Node) → IsQuiet n → IsQuiet (isolate h canonical reason utc n).1
  unfolding isolate enter_isolated ◌>>>◌ require_not_scorched advance forward any write_receipt
      Pairs.cut_all Pairs.forget_all_pairs Tethers.drop_all
  isolate-IsQuiet reason utc n q = ground arith

  burn_out-IsQuiet :
      (reason now utc : Text) (n : Node) → IsQuiet (burn_out h canonical reason now utc n).1
  unfolding burn_out burn scorch_lock mark_scorched ◌>>>◌ advance write_receipt Pairs.cut_all
      Pairs.forget_all_pairs
  burn_out-IsQuiet reason now utc n = elim (Option-cases n.lock) [
    | inl missing ↦ ground arith
    | inr (lock, found) ↦ ground arith
  ]

  arm_phoenix-IsQuiet :
      (utc : Text) (n : Node) → IsQuiet n → IsQuiet (arm_phoenix h canonical utc n).1
  unfolding arm_phoenix ◌>>>◌ require_not_scorched advance write_receipt Pairs.cut_all
      Pairs.forget_all_pairs
  arm_phoenix-IsQuiet utc n q = ground arith

  scorch-IsQuiet :
      (reason now utc : Text) (n : Node)
      → IsQuiet n
      → IsQuiet (scorch h canonical reason now utc n).1
  unfolding scorch ◌>>>◌ require_not_scorched enter_wait advance forward any
  scorch-IsQuiet reason now utc n q = elim (Bool-cases (is_dead n)) [
    | inl dead ↦ ground arith
    | inr alive ↦
        ground (
          arith,
          is_state_lock n.state,
          burn_out-IsQuiet reason now utc (enter_wait h canonical n).1,
        )
  ]

  boot_with-IsQuiet :
      (utc : Text) (seen : Bool) (lock : Lock) (n : Node)
      → IsQuiet n
      → IsQuiet (boot_with h canonical utc seen lock n).1
  unfolding boot_with ◌>>>◌ advance forward any write_receipt
  boot_with-IsQuiet utc seen lock n q = ground arith

  -- Booting writes a scorched lock only where there is one.
  boot_lock-lock :
      (entropy nonce genesis : List ℕ) (now : Text) (from : From) (disk : Option Lock)
      → is_scorched_lock (boot_lock h entropy nonce genesis now from disk).1 ≡ is_scorched_lock disk
  unfolding boot_lock install
  boot_lock-lock entropy nonce genesis now from (some lock) = refl
  boot_lock-lock entropy nonce genesis now nowhere none = refl
  boot_lock-lock entropy nonce genesis now the_lock none = refl
  boot_lock-lock entropy nonce genesis now elsewhere none = refl

  boot-IsQuiet :
      (entropy nonce genesis : List ℕ) (from : From) (now utc : Text) (seen : Bool) (n : Node)
      → IsQuiet n
      → IsQuiet (boot h canonical entropy nonce genesis from now utc seen n).1
  unfolding boot
  boot-IsQuiet entropy nonce genesis from now utc seen n q =
      elim (Result-cases (boot_lock h entropy nonce genesis now from n.lock).0) [
        | inl (lock, found) ↦ ground (
          arith,
          boot_lock-lock entropy nonce genesis now from n.lock,
          boot_with-IsQuiet utc seen lock
              (record n { lock = (boot_lock h entropy nonce genesis now from n.lock).1 }),
        )
        | inr (code, missing) ↦ ground (arith, boot_lock-lock entropy nonce genesis now from n.lock)
      ]

  set_bearer-IsQuiet :
      (name : Text) (on : Bool) (utc : Text) (n : Node)
      → IsQuiet n
      → IsQuiet (set_bearer h canonical name on utc n).1
  unfolding set_bearer after_switch ◌>>>◌ require_not_scorched advance forward any write_receipt
  set_bearer-IsQuiet name on utc n q = ground arith

  degrade-IsQuiet :
      (reason utc : Text) (n : Node) → IsQuiet n → IsQuiet (degrade h canonical reason utc n).1
  unfolding degrade ◌>>>◌ require_not_scorched advance forward any write_receipt
  degrade-IsQuiet reason utc n q = ground arith

  pair_cut-IsQuiet :
      (pair_id utc : Text) (n : Node) → IsQuiet n → IsQuiet (pair_cut h canonical pair_id utc n).1
  unfolding pair_cut ◌>>>◌ require_not_scorched write_receipt
  pair_cut-IsQuiet pair_id utc n q = ground (arith, cut_empty pair_id n.pairs)

  pair_offer-IsQuiet :
      (drawn : List ℕ) (now peer : Text) (nonce : Nonce) (via utc : Text) (n : Node)
      → IsQuiet n
      → IsQuiet (pair_offer h canonical drawn now peer nonce via utc n).1
  unfolding pair_offer ◌>>>◌ require_pairable require_not_scorched write_receipt
  pair_offer-IsQuiet drawn now peer nonce via utc n q = ground arith

  pair_accept-IsQuiet :
      (drawn : List ℕ) (now : Text) (offer : Handshake) (nonce : Nonce) (via utc : Text) (n : Node)
      → IsQuiet n
      → IsQuiet (pair_accept h canonical drawn now offer nonce via utc n).1
  unfolding pair_accept ◌>>>◌ require_pairable require_not_scorched write_receipt
  pair_accept-IsQuiet drawn now offer nonce via utc n q = ground arith

  pair_seal-IsQuiet :
      (now : Text) (handshake : Handshake) (via utc : Text) (n : Node)
      → IsQuiet n
      → IsQuiet (pair_seal h canonical now handshake via utc n).1
  unfolding pair_seal ◌>>>◌ require_pairable require_not_scorched write_receipt
  pair_seal-IsQuiet now handshake via utc n q = ground arith

  after-IsQuiet :
      {A B : Type 0} (m : Act Node A) (f : A → Act Node B) (n : Node)
      → IsQuiet (m n).1
      → ((a : A) (k : Node) → IsQuiet k → IsQuiet (f a k).1)
      → IsQuiet ((m >>> f) n).1
  unfolding ◌>>>◌
  after-IsQuiet m f n q r = elim (Result-cases (m n).0) [
    | inl (a, e) ↦ rw (continue, e) (r a (m n).1 q)
    | inr (code, e) ↦ rw (continue, e) q
  ]

  persist_transfer-IsQuiet :
      (tip : Text) (payload : Payload) (now now' utc : Text) (n : Node)
      → IsQuiet n
      → IsQuiet (persist_transfer h canonical tip payload now now' utc n).1
  unfolding persist_transfer ◌>>>◌ require_not_scorched write_receipt
  persist_transfer-IsQuiet tip payload now now' utc n q = ground arith

  arm-IsQuiet : (utc : Text) (n : Node) → IsQuiet n → IsQuiet (arm h canonical utc n).1
  unfolding arm ◌>>>◌ write_receipt
  arm-IsQuiet utc n q = ground arith

  guard-IsQuiet : (n : Node) → IsQuiet n → IsQuiet (require_not_scorched n).1
  unfolding require_not_scorched
  guard-IsQuiet n q = ground arith

  enable_fabric-IsQuiet :
      (tip : Text) (payload : Payload) (now now' utc : Text) (n : Node)
      → IsQuiet n
      → IsQuiet (enable_fabric h canonical tip payload now now' utc n).1
  unfolding enable_fabric
  enable_fabric-IsQuiet tip payload now now' utc n q =
      after-IsQuiet require_not_scorched _ n (guard-IsQuiet n q) (λ _ k r.
        after-IsQuiet (arm h canonical utc) _ k (arm-IsQuiet utc k r)
          (λ _ l. persist_transfer-IsQuiet tip payload now now' utc l))

  perform-IsQuiet : (op : Op) (n : Node) → IsQuiet n → IsQuiet (perform h canonical op n).1
  unfolding perform site_ping heal account_resurrect check_tamper declare_tether cut_tether
      queue_outbox cut_outbox enable_fabric arm persist_transfer ◌>>>◌ require_active
      require_not_scorched write_receipt
  perform-IsQuiet (do_boot entropy nonce genesis from now utc seen) n q =
      boot-IsQuiet entropy nonce genesis from now utc seen n q
  perform-IsQuiet (do_set_bearer name on utc) n q = set_bearer-IsQuiet name on utc n q
  perform-IsQuiet (do_site_ping present utc) n q = ground arith
  perform-IsQuiet do_heal n q = q
  perform-IsQuiet do_account_resurrect n q = q
  perform-IsQuiet (do_degrade reason utc) n q = degrade-IsQuiet reason utc n q
  perform-IsQuiet (do_isolate reason utc) n q = isolate-IsQuiet reason utc n q
  perform-IsQuiet (do_check_tamper utc) n q =
      ground (arith, isolate-IsQuiet (codes "chain_hash_mismatch") utc n)
  perform-IsQuiet (do_arm_phoenix utc) n q = arm_phoenix-IsQuiet utc n q
  perform-IsQuiet (do_enable_fabric tip payload now now' utc) n q =
      enable_fabric-IsQuiet tip payload now now' utc n q
  perform-IsQuiet (do_persist_transfer tip payload now now' utc) n q =
      persist_transfer-IsQuiet tip payload now now' utc n q
  perform-IsQuiet (do_scorch reason now utc) n q = scorch-IsQuiet reason now utc n q
  perform-IsQuiet (do_declare_tether src dst now now' utc) n q = ground arith
  perform-IsQuiet (do_cut_tether src dst utc) n q = ground arith
  perform-IsQuiet (do_pair_offer drawn now peer nonce via utc) n q =
      pair_offer-IsQuiet drawn now peer nonce via utc n q
  perform-IsQuiet (do_pair_accept drawn now offer nonce via utc) n q =
      pair_accept-IsQuiet drawn now offer nonce via utc n q
  perform-IsQuiet (do_pair_seal now handshake via utc) n q =
      pair_seal-IsQuiet now handshake via utc n q
  perform-IsQuiet (do_pair_cut pair_id utc) n q = pair_cut-IsQuiet pair_id utc n q
  perform-IsQuiet (do_cut_outbox item utc) n q = ground arith
  perform-IsQuiet (do_queue_outbox kind payload now now' utc) n q = ground arith

  -- Over any history from a node that keeps no pair bind past DEGRADED nor under a scorched lock, it
  -- keeps none.
  pub live_through-IsQuiet :
      (ops : List Op) (n : Node) → IsQuiet n → IsQuiet (live_through h canonical ops n)
  unfolding live_through
  live_through-IsQuiet [] n q = q
  live_through-IsQuiet (op ∷ ops) n q =
      live_through-IsQuiet ops (perform h canonical op n).1 (perform-IsQuiet op n q)
