-- ===== src/Node/Acts.antt =====
-- qnm/node.py: the acts on a node's tethers, pairs, outbox and fabric; and each modelled act as one step.
use qnm_node.Base.{ℕ, Bool, List, [], ◌∷◌, list_eq, nat_eq, Text, codes, Act}
use qnm_node.Base.{◌>>>◌}
use qnm_node.Digest.{Hash}
use qnm_node.Bearers
use qnm_node.Tethers
use qnm_node.Pairs
use qnm_node.Outbox
use qnm_node.Chain.{Core}
use qnm_node.Pairs.{Nonce, Handshake}
use qnm_node.Outbox.{Payload}
use qnm_node.Node.{
  Body, tether_body, pair_body, outbox_body, fabric_body, persist_body, Node, require_not_scorched,
  require_active, require_pairable, root_of, on_pairs, on_tethers, on_outbox, update,
}
use qnm_node.Node.Life.{
  From, receipt, boot, set_bearer, site_ping, heal, account_resurrect, degrade, isolate,
  check_tamper, arm_phoenix, scorch,
}

module _ (h : Hash) (canonical : Core Body → Text) where
  -- `declare_tether(src, dst)` and `cut_tether(src, dst)`
  unfoldable pub declare_tether : Text → Text → Text → Text → Text → Act Node Unit
  declare_tether src dst now now' utc = require_active >>> λ _.
      on_tethers (Tethers.declare h src dst now now') >>> λ _.
      receipt h canonical utc (codes "tether_declare") (tether_body src dst)

  unfoldable pub cut_tether : Text → Text → Text → Act Node Unit
  cut_tether src dst utc = require_not_scorched >>> λ _. on_tethers (Tethers.cut src dst) >>> λ _.
      receipt h canonical utc (codes "tether_cut") (tether_body src dst)

  -- `pair_offer(peer_root, nonce, via)`
  unfoldable pub pair_offer : List ℕ → Text → Text → Nonce → Text → Text → Act Node Unit
  pair_offer drawn now peer_root nonce via utc = require_pairable >>> λ _ n.
      (on_pairs (Pairs.offer drawn now (root_of n) peer_root nonce via) >>> λ _.
      receipt h canonical utc (codes "pair_offer") (pair_body peer_root via))
        n

  -- `pair_accept(offer, nonce, via)`
  unfoldable pub pair_accept : List ℕ → Text → Handshake → Nonce → Text → Text → Act Node Unit
  pair_accept drawn now offer nonce via utc = require_pairable >>> λ _ n.
      (on_pairs (Pairs.accept h drawn now offer (root_of n) nonce via) >>> λ rec.
      receipt h canonical utc (codes "pair_accept") (pair_body rec.pair_id via))
        n

  -- `pair_seal(handshake, via)`
  unfoldable pub pair_seal : Text → Handshake → Text → Text → Act Node Unit
  pair_seal now handshake via utc = require_pairable >>> λ _ n.
      (on_pairs (Pairs.seal h now handshake (root_of n) via) >>> λ rec.
      receipt h canonical utc (codes "pair_seal") (pair_body rec.pair_id rec.bearer_id))
        n

  -- `pair_cut(pair_id)`
  unfoldable pub pair_cut : Text → Text → Act Node Unit
  pair_cut pair_id utc = require_not_scorched >>> λ _. on_pairs (Pairs.cut pair_id) >>> λ _.
      receipt h canonical utc (codes "pair_cut") (pair_body pair_id [])

  -- `queue_outbox(kind, payload)` and `cut_outbox(item_id)`
  unfoldable pub queue_outbox : Text → Payload → Text → Text → Text → Act Node Unit
  queue_outbox kind payload now now' utc = require_active >>> λ _.
      on_outbox (Outbox.queue h kind payload now now') >>> λ item.
      receipt h canonical utc (codes "outbox_queue") (outbox_body item.id kind)

  unfoldable pub cut_outbox : Text → Text → Act Node Unit
  cut_outbox item_id utc = require_not_scorched >>> λ _. on_outbox (Outbox.cut item_id) >>> λ _.
      receipt h canonical utc (codes "outbox_cut") (outbox_body item_id [])

  -- The vault is not carried. That `persist_transfer` reads the tip, queues what the vault answers
  -- and writes its receipt is; the payload it queues, with the tip and the devices, is an argument.
  unfoldable pub persist_transfer : Text → Payload → Text → Text → Text → Act Node Unit
  persist_transfer tip payload now now' utc = require_not_scorched >>> λ _.
      on_outbox (Outbox.queue h (codes "persist-transfer") payload now now') >>> λ item.
      receipt h canonical utc (codes "persist_transfer") (persist_body tip)

  -- `Fabric.enable(node)`, as far as it touches the node
  unfoldable pub arm : Text → Act Node Unit
  arm utc = update (λ n. record n { bearers = Bearers.arm_fabric n.bearers }) >>> λ _.
      receipt h canonical utc (codes "fabric_enable") fabric_body

  -- `enable_fabric()`, with the tip that the vault gives to the bytes of the chain's file
  unfoldable pub enable_fabric : Text → Payload → Text → Text → Text → Act Node Unit
  unfolding arm persist_transfer
  enable_fabric tip payload now now' utc =
      require_not_scorched >>> λ _. arm utc >>> λ _. persist_transfer tip payload now now' utc

-- The acts that are modelled, with what each is called with.
pub data Op : Type 0 where
  do_boot : List ℕ → List ℕ → List ℕ → From → Text → Text → Bool → Op
  do_set_bearer : Text → Bool → Text → Op
  do_site_ping : Bool → Text → Op
  do_heal do_account_resurrect : Op
  do_degrade do_isolate : Text → Text → Op
  do_check_tamper do_arm_phoenix : Text → Op
  do_enable_fabric do_persist_transfer : Text → Payload → Text → Text → Text → Op
  do_scorch : Text → Text → Text → Op
  do_declare_tether : Text → Text → Text → Text → Text → Op
  do_cut_tether : Text → Text → Text → Op
  do_pair_offer : List ℕ → Text → Text → Nonce → Text → Text → Op
  do_pair_accept : List ℕ → Text → Handshake → Nonce → Text → Text → Op
  do_pair_seal : Text → Handshake → Text → Text → Op
  do_pair_cut do_cut_outbox : Text → Text → Op
  do_queue_outbox : Text → Payload → Text → Text → Text → Op

module _ (h : Hash) (canonical : Core Body → Text) where
  unfoldable pub perform : Op → Act Node Unit
  perform (do_boot entropy nonce genesis from now utc seen) =
      boot h canonical entropy nonce genesis from now utc seen
  perform (do_set_bearer name on utc) = set_bearer h canonical name on utc
  perform (do_site_ping present utc) = site_ping h canonical present utc
  perform do_heal = heal h canonical
  perform do_account_resurrect = account_resurrect h canonical
  perform (do_degrade reason utc) = degrade h canonical reason utc
  perform (do_isolate reason utc) = isolate h canonical reason utc
  perform (do_check_tamper utc) = check_tamper h canonical utc
  perform (do_arm_phoenix utc) = arm_phoenix h canonical utc
  perform (do_enable_fabric tip payload now now' utc) =
      enable_fabric h canonical tip payload now now' utc
  perform (do_persist_transfer tip payload now now' utc) =
      persist_transfer h canonical tip payload now now' utc
  perform (do_scorch reason now utc) = scorch h canonical reason now utc
  perform (do_declare_tether src dst now now' utc) = declare_tether h canonical src dst now now' utc
  perform (do_cut_tether src dst utc) = cut_tether h canonical src dst utc
  perform (do_pair_offer drawn now peer nonce via utc) =
      pair_offer h canonical drawn now peer nonce via utc
  perform (do_pair_accept drawn now offer nonce via utc) =
      pair_accept h canonical drawn now offer nonce via utc
  perform (do_pair_seal now handshake via utc) = pair_seal h canonical now handshake via utc
  perform (do_pair_cut pair_id utc) = pair_cut h canonical pair_id utc
  perform (do_cut_outbox item utc) = cut_outbox h canonical item utc
  perform (do_queue_outbox kind payload now now' utc) =
      queue_outbox h canonical kind payload now now' utc

  -- A history of acts; a refusal ends only its own act.
  unfoldable pub live_through : List Op → Node → Node
  unfolding perform
  live_through [] n = n
  live_through (op ∷ ops) n = live_through ops (perform op n).1
