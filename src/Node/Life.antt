-- ===== src/Node/Life.antt =====
-- qnm/node.py: the acts of a node's life, `boot` to `scorch`, its tethers, pairs and outbox.
use qnm_node.Base.{
  ℕ, ◌>>=◌, Bool, true, false, ◌&&◌, ◌||◌, not, Option, none, some, List, ◌==◌, list_eq, nat_eq,
  Text, codes, Result, ok, refuse, Act, if◌then◌else◌, any,
}
use qnm_node.Base.{◌>>>◌, no_auto_heal, state_locked, scorched, no_account, tamper_isolate}
use qnm_node.Digest.{Hash}
use qnm_node.Chain
use qnm_node.Bearers
use qnm_node.Tethers
use qnm_node.Pairs
use qnm_node.Outbox
use qnm_node.Phoenix
use qnm_node.Chain.{Core}
use qnm_node.Pairs.{Nonce, Handshake}
use qnm_node.Outbox.{Payload}
use qnm_node.Boot.{Lock, mark_scorched, install, resume}
use qnm_node.Node.{
  at_cold, at_local, at_live, at_degraded, at_isolated, at_phoenix_lock, at_scorched, Body,
  boot_body, bearer_body, ping_body, degrade_body, isolate_body, arm_body, scorch_body, Node,
  forward, is_state, advance, is_scorched_lock, require_not_scorched, root_of, on_pairs, on_tethers,
  on_bearers, update, write_receipt,
}

-- Which path `boot` is asked to resume from, if any.
pub data From : Type 0 where
  nowhere the_lock elsewhere : From

unfoldable pub is_elsewhere : From → Bool
is_elsewhere nowhere = false
is_elsewhere the_lock = false
is_elsewhere elsewhere = true

-- The record that `boot` goes on with: of the lock, or of a first installation.
unfoldable pub boot_lock :
    Hash → List ℕ → List ℕ → List ℕ → Text → From → Option Lock → Result Lock × Option Lock
unfolding is_elsewhere
boot_lock h entropy nonce genesis now from (some lock) =
    (resume (is_elsewhere from) (some lock), some lock)
boot_lock h entropy nonce genesis now nowhere none = install h entropy nonce genesis now none
boot_lock h entropy nonce genesis now the_lock none = (resume false none, none)
boot_lock h entropy nonce genesis now elsewhere none = (resume true none, none)

module _ (h : Hash) (canonical : Core Body → Text) where
  abbrev pub receipt : Text → Text → Body → Act Node Unit
  receipt utc kind body = write_receipt h canonical utc kind body

  -- `boot`, once a record was found; `reexpanded` says that the sidecar file is there
  unfoldable pub boot_with : Text → Bool → Lock → Act Node Unit
  boot_with utc reexpanded lock =
      update (λ n. record n { install_root = some lock.install_root }) >>> λ _.
      (λ n. if is_state n.state at_cold then advance at_local n else (ok tt, n)) >>> λ _ n.
      if reexpanded
      then (ok tt, n)
      else receipt utc (codes "boot") (boot_body lock.install_root n.state) n

  -- `boot(entropy, nonce, genesis, resume_from)`
  unfoldable pub boot : List ℕ → List ℕ → List ℕ → From → Text → Text → Bool → Act Node Unit
  unfolding boot_lock boot_with
  boot entropy nonce genesis from now utc reexpanded n =
      if is_state n.state at_scorched
      then (refuse scorched, n)
      else if is_scorched_lock n.lock
      then (
        refuse no_account,
        record n {
          install_root = elim n.lock [ none ↦ n.install_root | some lock ↦ some lock.install_root ];
          state = at_scorched;
        },
      )
      else let (found, disk) = boot_lock h entropy nonce genesis now from n.lock in
        elim found [
          | refuse code ↦ (refuse code, record n { lock = disk })
          | ok lock ↦ boot_with utc reexpanded lock (record n { lock = disk })
        ]

  -- What `set_bearer` does to the state once the switch has moved.
  unfoldable pub after_switch : Text → Bool → Act Node Unit
  after_switch name on =
      (λ n.
        if name == codes "operator" && on && is_state n.state at_local
        then advance at_live n
        else (ok tt, n))
      >>> λ _ n.
          if name == codes "operator" && not on && is_state n.state at_live
          then advance at_degraded n
          else (ok tt, n)

  -- `set_bearer(name, on)`
  unfoldable pub set_bearer : Text → Bool → Text → Act Node Unit
  unfolding after_switch
  set_bearer name on utc = require_not_scorched >>> λ _ n.
      if is_state n.state at_isolated || is_state n.state at_phoenix_lock
      then (refuse state_locked, n)
      else (on_bearers (Bearers.set name on) >>> λ _. after_switch name on >>> λ _ m.
            receipt utc (codes "bearer") (bearer_body name on m.state) m)
          n

  -- `site_ping(url)`, unless the configuration forbids it
  unfoldable pub site_ping : Bool → Text → Act Node Unit
  site_ping url_present utc = receipt utc (codes "site_ping_ignored") (ping_body url_present)

  -- `heal()`, and the `account_...` acts
  unfoldable pub heal : Act Node Unit
  heal n = (refuse no_auto_heal, n)

  unfoldable pub account_resurrect : Act Node Unit
  account_resurrect n = (refuse no_account, n)

  -- `degrade(reason)`
  unfoldable pub degrade : Text → Text → Act Node Unit
  degrade reason utc = require_not_scorched >>> λ _.
      (λ n.
        if is_state n.state at_local || is_state n.state at_live
        then advance at_degraded n
        else (ok tt, n))
      >>> λ _ n. receipt utc (codes "degrade") (degrade_body reason n.state) n

  -- The part of `isolate` that moves the state.
  unfoldable pub enter_isolated : Act Node Unit
  enter_isolated n =
      if is_state n.state at_phoenix_lock
      then (refuse state_locked, n)
      else if is_state n.state at_isolated
      then (ok tt, n)
      else if not (any (is_state at_isolated) (forward n.state))
      then (refuse tamper_isolate, n)
      else advance at_isolated n

  -- `isolate(reason)`
  unfoldable pub isolate : Text → Text → Act Node Unit
  unfolding enter_isolated
  isolate reason utc = require_not_scorched >>> λ _. enter_isolated >>> λ _.
      update (λ n. record n { bearers = Bearers.drop_all_except_local n.bearers }) >>> λ _.
      on_pairs Pairs.cut_all >>> λ pairs_cut. on_tethers Tethers.drop_all >>> λ tethers_cut n.
      receipt utc (codes "tamper_isolate") (isolate_body reason n.state pairs_cut tethers_cut) n

  -- `check_tamper()`
  unfoldable pub check_tamper : Text → Act Node Unit
  unfolding isolate
  check_tamper utc n =
      if not (Chain.verify h canonical n.chain).fine
      then isolate (codes "chain_hash_mismatch") utc n
      else (ok tt, n)

  -- `arm_phoenix()`
  unfoldable pub arm_phoenix : Text → Act Node Unit
  arm_phoenix utc = require_not_scorched >>> λ _.
      update (λ n. record n { phoenix = Phoenix.arm n.phoenix }) >>> λ _.
      advance at_phoenix_lock >>> λ _.
      update (λ n. record n { bearers = Bearers.drop_all_except_local n.bearers }) >>> λ _.
      on_pairs Pairs.cut_all >>> λ pairs_cut. receipt utc (codes "phoenix_arm") (arm_body pairs_cut)

  -- The part of `scorch` that waits first.
  unfoldable pub enter_wait : Act Node Unit
  enter_wait n =
      if is_state n.state at_phoenix_lock
      then (ok tt, n)
      else advance at_phoenix_lock (record n { phoenix = Phoenix.arm n.phoenix })

  -- What `scorch` writes to the memorial, and what it then empties.
  unfoldable pub burn : Text → Text → Node → Node
  burn reason now n = record n {
    memory = some (record {
      install_root = root_of n;
      reason = reason;
      utc = now;
      pairs_cut = Pairs.ids n.pairs;
    });
    pairs = (Pairs.cut_all n.pairs).1;
    outbox = Outbox.clear n.outbox;
    tethers = Tethers.clear n.tethers;
    bearers = Bearers.drop_all_except_local n.bearers;
  }

  unfoldable pub scorch_lock : Act Node Unit
  scorch_lock n =
      let (result, disk) = mark_scorched n.lock in (result >>= λ _. ok tt, record n { lock = disk })

  -- The rest of `scorch`, which burns everything.
  unfoldable pub burn_out : Text → Text → Text → Act Node Unit
  unfolding burn scorch_lock
  burn_out reason now utc = update (burn reason now) >>> λ _. scorch_lock >>> λ _.
      advance at_scorched >>> λ _. receipt utc (codes "scorch") (scorch_body reason)

  -- `scorch(reason)`
  unfoldable pub scorch : Text → Text → Text → Act Node Unit
  unfolding enter_wait burn_out
  scorch reason now utc = require_not_scorched >>> λ _. enter_wait >>> λ _. burn_out reason now utc
