-- ===== src/Node/Forward.antt =====
-- qnm/node.py: the state of a node goes forward only.
use qnm_node.Base.{
  ℕ, ◌≤◌, ◌≡◌, inl, inr, Bool, true, ◌||◌, List, [], ◌∷◌, arith, list_eq, nat_eq, Text, Bool-cases,
  codes, Result, ok, refuse, Act, any,
}
use qnm_node.Base.{◌>>>◌, continue}
use qnm_node.Digest.{Hash}
use qnm_node.Chain.{Core}
use qnm_node.Node.Acts.{
  do_boot, do_set_bearer, do_site_ping, do_heal, do_account_resurrect, do_degrade, do_isolate,
  do_check_tamper, do_arm_phoenix, do_enable_fabric, do_persist_transfer, do_scorch,
  do_declare_tether, do_cut_tether, do_pair_offer, do_pair_accept, do_pair_seal, do_pair_cut,
  do_cut_outbox, do_queue_outbox,
}
use qnm_node.Phoenix
use qnm_node.Outbox.{Payload}
use qnm_node.Boot.{Lock}
use qnm_node.Node.{
  State, at_cold, at_local, at_live, at_degraded, at_isolated, at_phoenix_lock, at_scorched, rank,
  Body, boot_body, Node, is_state, forward, advance, require_not_scorched, require_active,
  require_pairable, write_receipt,
}
use qnm_node.Node.Life.{
  From, boot_with, boot, after_switch, set_bearer, site_ping, heal, account_resurrect, degrade,
  enter_isolated, isolate, check_tamper, arm_phoenix, enter_wait, burn, scorch_lock, burn_out,
  scorch,
}
use qnm_node.Node.Acts.{
  declare_tether, cut_tether, pair_offer, pair_accept, pair_seal, pair_cut, queue_outbox,
  cut_outbox, enable_fabric, persist_transfer, arm, Op, perform, live_through,
}

-- An act after which the state stands no earlier.
abbrev Rises : {A : Type 0} → Act Node A → Type 0
Rises m = (n : Node) → rank n.state ≤ rank (m n).1.state

continue-Rises :
    {A B : Type 0} (f : A → Act Node B) (r : Result A) (n : Node)
    → ((a : A) → Rises (f a))
    → rank n.state ≤ rank (continue f (r, n)).1.state
continue-Rises f (ok a) n g = g a n
continue-Rises f (refuse c) n g = omega arith

>>>-Rises :
    {A B : Type 0} (m : Act Node A) (f : A → Act Node B)
    → Rises m
    → ((a : A) → Rises (f a))
    → Rises (m >>> f)
unfolding ◌>>>◌
>>>-Rises m f r g n = let a = r n in let b = continue-Rises f (m n).0 (m n).1 g in omega arith

forward-rank : (s dest : State) → any (is_state dest) (forward s) ≡ true → rank s ≤ rank dest
unfolding forward any
forward-rank at_cold dest e = omega arith
forward-rank at_local dest e = ground arith
forward-rank at_live dest e = ground arith
forward-rank at_degraded dest e = ground arith
forward-rank at_isolated dest e = ground arith
forward-rank at_phoenix_lock dest e = ground arith
forward-rank at_scorched dest e = ground arith

advance-Rises : (dest : State) → Rises (advance dest)
unfolding advance
advance-Rises dest n = ground (arith, forward-rank n.state dest)

rank_max : (s : State) → rank s ≤ 6
rank_max at_cold = omega arith
rank_max at_local = omega arith
rank_max at_live = omega arith
rank_max at_degraded = omega arith
rank_max at_isolated = omega arith
rank_max at_phoenix_lock = omega arith
rank_max at_scorched = omega arith

require_not_scorched-Rises : Rises require_not_scorched
unfolding require_not_scorched
require_not_scorched-Rises n = ground (arith, rank_max n.state)

require_active-Rises : Rises require_active
unfolding require_active
require_active-Rises = >>>-Rises _ _ require_not_scorched-Rises (λ _ n. ground arith)

require_pairable-Rises : Rises require_pairable
unfolding require_pairable
require_pairable-Rises = >>>-Rises _ _ require_not_scorched-Rises (λ _ n. ground arith)

module _ (h : Hash) (canonical : Core Body → Text) where
  receipt-Rises : (utc kind : Text) (body : Body) → Rises (write_receipt h canonical utc kind body)
  unfolding write_receipt
  receipt-Rises utc kind body n = ground arith

  degrade-Rises : (reason utc : Text) → Rises (degrade h canonical reason utc)
  unfolding degrade
  degrade-Rises reason utc = >>>-Rises _ _ require_not_scorched-Rises (λ _.
      >>>-Rises _ _ (λ n. ground (arith, advance-Rises at_degraded n))
        (λ _ n. receipt-Rises utc _ _ n))

  enter_isolated-Rises : Rises (enter_isolated h canonical)
  unfolding enter_isolated
  enter_isolated-Rises n = ground (arith, advance-Rises at_isolated n)

  isolate-Rises : (reason utc : Text) → Rises (isolate h canonical reason utc)
  unfolding isolate
  isolate-Rises reason utc = >>>-Rises _ _ require_not_scorched-Rises (λ _.
      >>>-Rises _ _ enter_isolated-Rises (λ _.
        >>>-Rises _ _ (λ n. omega arith)
          (λ _.
            >>>-Rises _ _ (λ n. omega arith)
              (λ _. >>>-Rises _ _ (λ n. omega arith) (λ _ n. receipt-Rises utc _ _ n)))))

  boot_with-Rises :
      (utc : Text) (seen : Bool) (lock : Lock) → Rises (boot_with h canonical utc seen lock)
  unfolding boot_with
  boot_with-Rises utc seen lock =
      >>>-Rises _ _ (λ n. omega arith)
        (λ _.
          >>>-Rises _ _ (λ n. ground (arith, advance-Rises at_local n))
            (λ _ n.
              ground
                (arith, receipt-Rises utc (codes "boot") (boot_body lock.install_root n.state) n)))

  boot-Rises :
      (entropy nonce genesis : List ℕ) (from : From) (now utc : Text) (seen : Bool)
      → Rises (boot h canonical entropy nonce genesis from now utc seen)
  unfolding boot
  boot-Rises entropy nonce genesis from now utc seen n =
      grind (arith, rank_max n.state, boot_with-Rises utc seen)

  after_switch-Rises : (name : Text) (on : Bool) → Rises (after_switch h canonical name on)
  unfolding after_switch
  after_switch-Rises name on =
      >>>-Rises _ _ (λ n. ground (arith, advance-Rises at_live n))
        (λ _ n. ground (arith, advance-Rises at_degraded n))

  set_bearer-Rises :
      (name : Text) (on : Bool) (utc : Text) → Rises (set_bearer h canonical name on utc)
  unfolding set_bearer
  set_bearer-Rises name on utc = >>>-Rises _ _ require_not_scorched-Rises (λ _ n.
      elim (Bool-cases (is_state n.state at_isolated || is_state n.state at_phoenix_lock)) [
        | inl shut ↦ rw shut (omega arith)
        | inr unshut ↦ rw unshut (
            >>>-Rises _ _ (λ m. omega arith)
              (λ _. >>>-Rises _ _ (after_switch-Rises name on) (λ _ m. receipt-Rises utc _ _ m)) n)
      ])

  check_tamper-Rises : (utc : Text) → Rises (check_tamper h canonical utc)
  unfolding check_tamper
  check_tamper-Rises utc n = ground (arith, isolate-Rises (codes "chain_hash_mismatch") utc n)

  arm_phoenix-Rises : (utc : Text) → Rises (arm_phoenix h canonical utc)
  unfolding arm_phoenix
  arm_phoenix-Rises utc = >>>-Rises _ _ require_not_scorched-Rises (λ _.
      >>>-Rises _ _ (λ n. omega arith)
        (λ _. >>>-Rises _ _ (advance-Rises at_phoenix_lock) (λ _.
          >>>-Rises _ _ (λ n. omega arith)
            (λ _. >>>-Rises _ _ (λ n. omega arith) (λ _ n. receipt-Rises utc _ _ n)))))

  scorch-Rises : (reason now utc : Text) → Rises (scorch h canonical reason now utc)
  unfolding scorch enter_wait burn_out burn scorch_lock
  scorch-Rises reason now utc = >>>-Rises _ _ require_not_scorched-Rises (λ _.
      >>>-Rises _ _
        (λ n.
          ground
            (arith, advance-Rises at_phoenix_lock (record n { phoenix = Phoenix.arm n.phoenix })))
        (λ _.
          >>>-Rises _ _ (λ n. omega arith)
            (λ _.
              >>>-Rises _ _ (λ n. omega arith)
                (λ _. >>>-Rises _ _ (advance-Rises at_scorched) (λ _ n. receipt-Rises utc _ _ n)))))

  part-Rises :
      {A : Type 0} (guard : Act Node Unit) (act : Act Node A) (last : A → Act Node Unit)
      → Rises guard
      → Rises act
      → ((a : A) → Rises (last a))
      → Rises (guard >>> λ _. act >>> last)
  part-Rises guard act last r s t = >>>-Rises _ _ r (λ _. >>>-Rises _ _ s t)

  persist_transfer-Rises :
      (tip : Text) (payload : Payload) (now now' utc : Text)
      → Rises (persist_transfer h canonical tip payload now now' utc)
  unfolding persist_transfer
  persist_transfer-Rises tip payload now now' utc =
      part-Rises _ _ _ require_not_scorched-Rises (λ n. omega arith) (λ _. receipt-Rises utc _ _)

  -- No act, whether it is granted or refused, moves the state back in the order of the states.
  pub perform-forward :
      (op : Op) (n : Node) → rank n.state ≤ rank (perform h canonical op n).1.state
  unfolding perform site_ping heal account_resurrect declare_tether cut_tether pair_offer
      pair_accept pair_seal pair_cut queue_outbox cut_outbox enable_fabric arm
  perform-forward (do_boot entropy nonce genesis from now utc seen) =
      boot-Rises entropy nonce genesis from now utc seen
  perform-forward (do_set_bearer name on utc) = set_bearer-Rises name on utc
  perform-forward (do_site_ping present utc) = receipt-Rises utc _ _
  perform-forward do_heal = λ n. omega arith
  perform-forward do_account_resurrect = λ n. omega arith
  perform-forward (do_degrade reason utc) = degrade-Rises reason utc
  perform-forward (do_isolate reason utc) = isolate-Rises reason utc
  perform-forward (do_check_tamper utc) = check_tamper-Rises utc
  perform-forward (do_arm_phoenix utc) = arm_phoenix-Rises utc
  perform-forward (do_enable_fabric tip payload now now' utc) =
      >>>-Rises _ _ require_not_scorched-Rises (λ _.
        >>>-Rises _ _ (>>>-Rises _ _ (λ n. omega arith) (λ _. receipt-Rises utc _ _))
          (λ _. persist_transfer-Rises tip payload now now' utc))
  perform-forward (do_persist_transfer tip payload now now' utc) =
      persist_transfer-Rises tip payload now now' utc
  perform-forward (do_scorch reason now utc) = scorch-Rises reason now utc
  perform-forward (do_declare_tether src dst now now' utc) =
      part-Rises _ _ _ require_active-Rises (λ n. omega arith) (λ _. receipt-Rises utc _ _)
  perform-forward (do_cut_tether src dst utc) =
      part-Rises _ _ _ require_not_scorched-Rises (λ n. omega arith) (λ _. receipt-Rises utc _ _)
  perform-forward (do_pair_offer drawn now peer nonce via utc) =
      >>>-Rises _ _ require_pairable-Rises
        (λ _ n. >>>-Rises _ _ (λ m. omega arith) (λ _. receipt-Rises utc _ _) n)
  perform-forward (do_pair_accept drawn now offer nonce via utc) =
      >>>-Rises _ _ require_pairable-Rises
        (λ _ n. >>>-Rises _ _ (λ m. omega arith) (λ _. receipt-Rises utc _ _) n)
  perform-forward (do_pair_seal now handshake via utc) =
      >>>-Rises _ _ require_pairable-Rises
        (λ _ n. >>>-Rises _ _ (λ m. omega arith) (λ _. receipt-Rises utc _ _) n)
  perform-forward (do_pair_cut pair_id utc) =
      part-Rises _ _ _ require_not_scorched-Rises (λ n. omega arith) (λ _. receipt-Rises utc _ _)
  perform-forward (do_cut_outbox item utc) =
      part-Rises _ _ _ require_not_scorched-Rises (λ n. omega arith) (λ _. receipt-Rises utc _ _)
  perform-forward (do_queue_outbox kind payload now now' utc) =
      part-Rises _ _ _ require_active-Rises (λ n. omega arith) (λ _. receipt-Rises utc _ _)

  -- After any history the state of a node stands no earlier in the order of the states than before it.
  pub live_through-forward :
      (ops : List Op) (n : Node) → rank n.state ≤ rank (live_through h canonical ops n).state
  unfolding live_through
  live_through-forward [] n = omega arith
  live_through-forward (op ∷ ops) n =
      let first = perform-forward op n in
      let rest = live_through-forward ops (perform h canonical op n).1 in omega arith
