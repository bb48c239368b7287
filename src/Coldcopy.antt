-- ===== src/Coldcopy.antt =====
-- qnm/coldcopy.py: the vault of bodies under their hash, and the replicas by their named hosts. The
-- clock's reading and the fixed fields of a row are left out.
pub mod Held
pub mod Stored
use qnm_node.Base.{
  ℕ, ◌+◌, ◌>>=◌, ◌>>◌, refuse_if, ◌≡◌, refl, inl, inr, Bool, true, false, ◌&&◌, ◌||◌, not, Option,
  none, some, List, [], ◌∷◌, ◌++◌, arith, ltb, leb, nat_beq, ◌==◌, list_eq, nat_eq, list_beq_iff,
  list_beq_refl, Text, Bool-cases, codes, length, Result, ok, refuse, Act, is_empty, if◌then◌else◌,
  Dict, get, put, get-put_self, is_some, contains, add, contains-add, any, all, lower, strip,
}
use qnm_node.Base.{
  named_hosts, no_vpn, cold_missing, cold_pin, no_creator, no_one_tunnel, wires_fail_closed,
}
use qnm_node.Apg.{stands_in}
use qnm_node.Digest.{Hash, canonical_hash}
use qnm_node.Nolie.{is_tunnel_host}

-- `FORBIDDEN_HOSTS`
abbrev pub forbidden_hosts : List Text
forbidden_hosts =
    codes "*"
    ∷ codes "+"
    ∷ codes "any"
    ∷ codes "hydra"
    ∷ codes "unmarked"
    ∷ codes "vpn"
    ∷ codes "tor"
    ∷ codes "mixnet"
    ∷ codes "onion"
    ∷ codes "conceal"
    ∷ []

-- `DEVICE_CLASSES`
abbrev pub device_classes : List Text
device_classes =
    codes "laptop"
    ∷ codes "phone"
    ∷ codes "apple-watch"
    ∷ codes "phone-watch"
    ∷ codes "radio"
    ∷ codes "bluetooth"
    ∷ []

-- `[A-Za-z]`
unfoldable pub is_letter : ℕ → Bool
is_letter c = leb b'A' c && leb c b'Z' || leb b'a' c && leb c b'z'

-- `[A-Za-z0-9._-]`
unfoldable pub is_host_code : ℕ → Bool
unfolding is_letter
is_host_code c =
    is_letter c || leb b'0' c && leb c b'9' || nat_beq c b'.' || nat_beq c b'_' || nat_beq c b'-'

-- `NAMED_HOST_RE.match(host)`, of a text without a newline at its end.
unfoldable pub is_host_name : Text → Bool
unfolding is_letter is_host_code
is_host_name [] = false
is_host_name (c ∷ s) = is_letter c && all is_host_code s && leb (length s) 63

-- `_named_host(name)`
unfoldable pub named_host : Text → Result Text
unfolding is_host_name
named_host name =
    let host = strip name in
    let lowered = lower host in
    refuse_if (is_empty host || contains forbidden_hosts lowered) named_hosts
    >> refuse_if (stands_in (codes "vpn") lowered || stands_in (codes "conceal") lowered) no_vpn
    >> refuse_if (stands_in (codes "hydra") lowered) named_hosts
    >> refuse_if (not (is_host_name host)) named_hosts
    >> ok host

-- A row of replicas.jsonl.
pub record Replica : Type 0 where
  pub tip : Text
  pub host : Text
  pub kind : Text

pub record Cold : Type 0 where
  pub objects : Dict Text (List ℕ)
  pub replicas : List Replica
  pub pins : List (Text × Text)
  pub origin_alive : Bool
  pub worker_alive : Bool
  pub dns_alive : Bool

-- `{row["host"] for row in self.replicas() if row.get("tip") == tip}`
unfoldable pub hosts_of : Text → List Replica → List Text
hosts_of tip [] = []
hosts_of tip (r ∷ rows) =
    let rest = hosts_of tip rows in if r.tip == tip then add rest r.host else rest

-- The tests of `_place`.
unfoldable pub may_place : Text → Text → List Replica → Result (Unit {0})
unfolding hosts_of
may_place tip host rows =
    let after = add (hosts_of tip rows) host in
    refuse_if (is_tunnel_host host && all (λ h. h == host) after) no_one_tunnel
    >> refuse_if
        (not (nat_beq (length after) 0) && all is_tunnel_host after && nat_beq (length after) 1)
        no_one_tunnel

-- `_place(digest, host, kind=kind)`
unfoldable pub place : Text → Text → Text → Act Cold Replica
unfolding may_place
place tip host kind c = elim (may_place tip host c.replicas) [
  | refuse code ↦ (refuse code, c)
  | ok _ ↦
      let row : Replica = record { tip = tip; host = host; kind = kind } in
      (ok row, record c { replicas = c.replicas ++ row ∷ [] })
]

-- `_require_object(digest)`
unfoldable pub require_object : Text → Cold → Result Text
require_object digest c = do
  tip ← canonical_hash digest
  refuse_if (not (is_some (get c.objects tip))) cold_missing
  ok tip

-- What `store` and `transfer` do with the host that is asked for.
unfoldable pub place_on : Text → Text → (Text → Text) → Act Cold Replica
unfolding named_host place
place_on tip host kind c = elim (named_host host) [
  | refuse code ↦ (refuse code, c)
  | ok name ↦ place tip name (kind name) c
]

-- `kind` of `transfer`
unfoldable pub kind_of : Text → Text
kind_of host = if contains device_classes host then codes "device-vault" else codes "mesh-vault"

-- `transfer(digest, host)`
unfoldable pub transfer : Text → Text → Act Cold Replica
unfolding require_object place_on kind_of
transfer digest host c = elim (require_object digest c) [
  | refuse code ↦ (refuse code, c)
  | ok tip ↦ place_on tip host kind_of c
]

-- `pin_public(digest, kind=kind)`
unfoldable pub pin_public : Text → Text → Act Cold (Text × Text)
pin_public digest kind c = elim (canonical_hash digest) [
  | refuse code ↦ (refuse code, c)
  | ok tip ↦
      if not (kind == codes "tip" || kind == codes "receipt")
      then (refuse cold_pin, c)
      else (ok (kind, tip), record c { pins = c.pins ++ (kind, tip) ∷ [] })
]

-- `pull_origin()`
unfoldable pub pull_origin : Cold → Cold
pull_origin c = record c { origin_alive = false; worker_alive = false; dns_alive = false }

-- `hosts_for(digest)`
unfoldable pub hosts_for : Text → Cold → Result (List Text)
unfolding hosts_of
hosts_for digest c = do
  tip ← canonical_hash digest
  let hosts = hosts_of tip c.replicas
  ok (if is_some (get c.objects tip) then add hosts (codes "local") else hosts)

-- `replica_count(digest)`
unfoldable pub replica_count : Text → Cold → Result ℕ
unfolding hosts_for
replica_count digest c = hosts_for digest c >>= (λ hosts. ok (length hosts))

-- `expensive_to_erase(digest)["ok"]`
unfoldable pub expensive_to_erase : ℕ → Text → Cold → Result Bool
unfolding replica_count
expensive_to_erase replica_n digest c = replica_count digest c >>= (λ n. ok (leb replica_n n))

module _ (h : Hash) where
  -- `leaf.write_bytes(raw)` where the leaf is not there yet
  unfoldable pub write_leaf : List ℕ → Cold → Cold
  write_leaf raw c =
      if is_some (get c.objects (h.sha256_hex raw))
      then c
      else record c { objects = put c.objects (h.sha256_hex raw) raw }

  -- `store(body, host=host)`: the body is written before the host is looked at.
  unfoldable pub store : List ℕ → Text → Act Cold Replica
  unfolding write_leaf place_on
  store raw host c =
      place_on (h.sha256_hex raw) host (λ name. codes "local-vault") (write_leaf raw c)

  -- What was read from the vault is hashed again.
  unfoldable pub hashes_to : Text → Option (List ℕ) → Result Text
  hashes_to tip none = refuse cold_missing
  hashes_to tip (some raw) = refuse_if (not (h.sha256_hex raw == tip)) wires_fail_closed >> ok tip

  -- `verify(digest, require_creator=creator)`
  unfoldable pub verify : Text → Bool → Cold → Result Text
  unfolding require_object hashes_to
  verify digest creator c = do
    refuse_if creator no_creator
    tip ← require_object digest c
    hashes_to tip (get c.objects tip)
