-- ===== src/Node.antt =====
-- qnm/node.py: the life of a node. Its state goes forward only, and each act is guarded by it and by
-- the lock on disk. Of the parts that a node owns this holds the ones its life touches: the bearers,
-- the pair binds, the tethers, the outbox, the wait, the lock and the chain of receipts. A receipt is
-- a link of the chain; its copies under data/receipts and its anchor in the federation mesh, which are made after the link, and the
-- part of `boot` that seats the tip, are not carried. The clock's readings are arguments.
pub mod Life
pub mod Acts
pub mod Forward
pub mod Dead
pub mod Quiet
use qnm_node.Base.{
  ℕ, zero, suc, ◌+◌, ◌-◌, ◌*◌, ◌/◌, ◌%◌, ◌^◌, ◌>>=◌, ◌>>◌, refuse_if, ◌≤◌, ◌<◌, ◌≡◌, refl, sym, ap,
  ◌∙◌, ◌≢◌, ◌↔◌, ◌⊎◌, inl, inr, Bool, true, false, ◌&&◌, ◌||◌, not, Option, none, some, List, [],
  ◌∷◌, ◌++◌, map, arith, ltb, leb, nat_beq, nat_beq_iff, ◌==◌, Eq, list_eq, nat_eq, list_beq,
  list_beq_iff, list_beq_refl, beq_refl, beq-false, Text, Bool-cases, Option-cases, Result-cases,
  codes, length, length-append, Result, ok, refuse, Code, is_ok, Act, is_empty, if◌then◌else◌, Dict,
  get, put, get-put, get-put_self, is_some, contains, add, contains-add, contains-append, any, all,
  keep, find,
}
use qnm_node.Base.{
  ◌>>>◌, continue, no_auto_heal, state_locked, scorched, no_account, tamper_isolate, no_edges,
  handshake, or_else, no_public_geo, lower, lower_code,
}
use qnm_node.Digest.{Hash}
use qnm_node.Chain.{Chain, Core, append, verify}
use qnm_node.Bearers.{Bearers, arm_fabric, drop_all_except_local}
use qnm_node.Tethers.{Tethers}
use qnm_node.Pairs.{Pairs, ids}
use qnm_node.Outbox.{Outbox}
use qnm_node.Phoenix.{Phoenix}
use qnm_node.Boot.{Lock, mark_scorched, install, resume}

-- `STATES`
pub data State : Type 0 where
  at_cold at_local at_live at_degraded at_isolated at_phoenix_lock at_scorched : State

-- The body of each receipt that is modelled.
pub data Body : Type 0 where
  boot_body : Text → State → Body
  bearer_body : Text → Bool → State → Body
  ping_body : Bool → Body
  degrade_body : Text → State → Body
  isolate_body : Text → State → ℕ → ℕ → Body
  arm_body : ℕ → Body
  scorch_body : Text → Body
  tether_body : Text → Text → Body
  pair_body : Text → Text → Body
  outbox_body : Text → Text → Body
  fabric_body : Body
  persist_body : Text → Body
  deliver_body : Text → ℕ → Body
  hop_body : Text → Text → ℕ → Text → Body
  wait_body : Text → Text → Body

-- `data/witness/memorial.json`, which `Memorial.write` leaves behind
pub record Memory : Type 0 where
  pub install_root : Text
  pub reason : Text
  pub utc : Text
  pub pairs_cut : List Text

pub record Node : Type 0 where
  pub state : State
  pub install_root : Option Text
  pub lock : Option Lock
  pub bearers : Bearers
  pub tethers : Tethers
  pub pairs : Pairs
  pub outbox : Outbox
  pub phoenix : Phoenix
  pub memory : Option Memory
  pub chain : Chain Body

-- `_FORWARD`
unfoldable pub forward : State → List State
forward at_cold = at_local ∷ []
forward at_local = at_live ∷ at_degraded ∷ at_isolated ∷ at_phoenix_lock ∷ at_scorched ∷ []
forward at_live = at_degraded ∷ at_isolated ∷ at_phoenix_lock ∷ at_scorched ∷ []
forward at_degraded = at_isolated ∷ at_phoenix_lock ∷ at_scorched ∷ []
forward at_isolated = at_phoenix_lock ∷ at_scorched ∷ []
forward at_phoenix_lock = at_scorched ∷ []
forward at_scorched = []

-- The place of a state in `STATES`, which tells states apart.
abbrev pub rank : State → ℕ
rank at_cold = 0
rank at_local = 1
rank at_live = 2
rank at_degraded = 3
rank at_isolated = 4
rank at_phoenix_lock = 5
rank at_scorched = 6

abbrev pub is_state : State → State → Bool
is_state s t = nat_beq (rank s) (rank t)

-- `_advance(dest)`
unfoldable pub advance : State → Act Node Unit
unfolding forward
advance dest n =
    if is_state dest n.state
    then (ok tt, n)
    else if not (any (is_state dest) (forward n.state))
    then (refuse no_auto_heal, n)
    else (ok tt, record n { state = dest })

abbrev pub is_scorched_lock : Option Lock → Bool
is_scorched_lock none = false
is_scorched_lock (some lock) = lock.scorched

-- `_require_not_scorched()`, which also takes over a scorched lock from the disk
unfoldable pub require_not_scorched : Act Node Unit
require_not_scorched n =
    if is_state n.state at_scorched
    then (refuse scorched, n)
    else if is_scorched_lock n.lock
    then (refuse no_account, record n { state = at_scorched })
    else (ok tt, n)

-- `_require_active()`
unfoldable pub require_active : Act Node Unit
require_active = require_not_scorched >>> λ _ n.
    if is_state n.state at_cold || is_state n.state at_isolated || is_state n.state at_phoenix_lock
    then (refuse state_locked, n)
    else (ok tt, n)

abbrev pub no_root : Option Text → Bool
no_root none = true
no_root (some root) = is_empty root

-- `_require_pairable()`
unfoldable pub require_pairable : Act Node Unit
require_pairable = require_not_scorched >>> λ _ n.
    if is_state n.state at_cold || is_state n.state at_isolated || is_state n.state at_phoenix_lock
    then (refuse no_edges, n)
    else if no_root n.install_root
    then (refuse handshake, n)
    else (ok tt, n)

-- `self.install_root or ""`
abbrev pub root_of : Node → Text
root_of n = elim n.install_root [ none ↦ [] | some root ↦ root ]

-- Running an act of a part of the node.
module _ {A : Type 0} where
  abbrev pub on_pairs : Act Pairs A → Act Node A
  on_pairs act n = let (result, after) = act n.pairs in (result, record n { pairs = after })

  abbrev pub on_tethers : Act Tethers A → Act Node A
  on_tethers act n = let (result, after) = act n.tethers in (result, record n { tethers = after })

  abbrev pub on_bearers : Act Bearers A → Act Node A
  on_bearers act n = let (result, after) = act n.bearers in (result, record n { bearers = after })

  abbrev pub on_outbox : Act Outbox A → Act Node A
  on_outbox act n = let (result, after) = act n.outbox in (result, record n { outbox = after })

abbrev pub update : (Node → Node) → Act Node Unit
update f n = (ok tt, f n)

abbrev pub done : Act Node Unit
done n = (ok tt, n)

-- `PUBLIC_GEO_KEYS`
abbrev pub public_geo_keys : List Text
public_geo_keys =
    codes "geo"
    ∷ codes "geohash"
    ∷ codes "lat"
    ∷ codes "lon"
    ∷ codes "latitude"
    ∷ codes "longitude"
    ∷ codes "location"
    ∷ codes "user"
    ∷ codes "user_id"
    ∷ codes "userid"
    ∷ codes "ip"
    ∷ codes "client_ip"
    ∷ []

-- The keys of each body.
abbrev pub body_keys : Body → List Text
body_keys (boot_body root s) = codes "install_root" ∷ codes "state" ∷ []
body_keys (bearer_body name on s) = codes "name" ∷ codes "on" ∷ codes "state" ∷ []
body_keys (ping_body present) = codes "url_present" ∷ []
body_keys (degrade_body reason s) = codes "reason" ∷ codes "state" ∷ []
body_keys (isolate_body reason s pairs_cut tethers_cut) =
    codes "reason" ∷ codes "state" ∷ codes "pairs_cut" ∷ codes "tethers_cut" ∷ []
body_keys (arm_body pairs_cut) = codes "waiting" ∷ codes "controller_hunt" ∷ codes "pairs_cut" ∷ []
body_keys (scorch_body reason) = codes "reason" ∷ codes "memorial" ∷ []
body_keys (tether_body src dst) = codes "src" ∷ codes "dst" ∷ codes "residue" ∷ []
body_keys (pair_body pair_id via) =
    codes "peer"
    ∷ codes "via"
    ∷ codes "pair_id"
    ∷ codes "bearer_id"
    ∷ codes "marriage_license"
    ∷ codes "medium_independent"
    ∷ codes "operator"
    ∷ []
body_keys (outbox_body id kind) = codes "id" ∷ codes "kind" ∷ []
body_keys fabric_body =
    codes "enabled"
    ∷ codes "channels_on"
    ∷ codes "channels_on_means"
    ∷ codes "radios"
    ∷ codes "radios_status"
    ∷ codes "live_rf_mesh"
    ∷ codes "az_generator"
    ∷ []
body_keys (persist_body tip) = codes "tip" ∷ codes "devices" ∷ codes "erased" ∷ []
body_keys (deliver_body frame_id hops) = codes "frame_id" ∷ codes "hops" ∷ []
body_keys (hop_body to via hops pair_id) =
    codes "to" ∷ codes "via" ∷ codes "hops" ∷ codes "pair_id" ∷ []
body_keys (wait_body id via) = codes "id" ∷ codes "via" ∷ codes "death" ∷ codes "bind_remains" ∷ []

-- `public_receipt_has_geo(body)`; no value of a body is a mapping with other keys than these.
unfoldable pub has_geo : Body → Bool
has_geo body = any (λ key. contains public_geo_keys (lower key)) (body_keys body)

-- `_write_receipt(kind, body)` up to the link of the chain
unfoldable pub write_receipt : Hash → (Core Body → Text) → Text → Text → Body → Act Node Unit
unfolding has_geo
write_receipt h canonical utc kind body n =
    if has_geo body
    then (refuse no_public_geo, n)
    else let (result, after) = append h canonical kind body utc n.chain in
      (result >>= λ _. ok tt, record n { chain = after })

-- No body of an act that is modelled is refused.
pub has_geo-none : (body : Body) → has_geo body ≡ false
unfolding has_geo any contains lower lower_code list_beq
has_geo-none (boot_body root s) = refl
has_geo-none (bearer_body name on s) = refl
has_geo-none (ping_body present) = refl
has_geo-none (degrade_body reason s) = refl
has_geo-none (isolate_body reason s pairs_cut tethers_cut) = refl
has_geo-none (arm_body pairs_cut) = refl
has_geo-none (scorch_body reason) = refl
has_geo-none (tether_body src dst) = refl
has_geo-none (pair_body pair_id via) = refl
has_geo-none (outbox_body id kind) = refl
has_geo-none fabric_body = refl
has_geo-none (persist_body tip) = refl
has_geo-none (deliver_body frame_id hops) = refl
has_geo-none (hop_body to via hops pair_id) = refl
has_geo-none (wait_body id via) = refl
