-- ===== src/Checks.antt =====
-- Concrete data on which the properties are run: a small hash, a canonical form, a node.
pub mod Chains
pub mod Nodes
pub mod Meshes
pub mod Lans
pub mod Webs
pub mod Vaults
use qnm_node.Base.{
  ℕ, ◌≡◌, refl, Bool, true, false, Option, none, some, List, [], ◌∷◌, ◌%◌, nat_beq, Text, codes,
  length, all, is_hex, if◌then◌else◌,
}
use qnm_node.Digest.{Hash, is_digest}
use qnm_node.Chain.{Core, Chain, empty_chain}
use qnm_node.Bearers
use qnm_node.Phoenix
use qnm_node.Pairs.{Pairs}
use qnm_node.Node.{Node, Body, at_cold}

abbrev pub digest_a : Text
digest_a = codes "aaaaaaaaaaaaaaaaaaaaaaaaaaaaaaaaaaaaaaaaaaaaaaaaaaaaaaaaaaaaaaaa"

abbrev pub digest_b : Text
digest_b = codes "bbbbbbbbbbbbbbbbbbbbbbbbbbbbbbbbbbbbbbbbbbbbbbbbbbbbbbbbbbbbbbbb"

abbrev pub pick : Bool → Text
pick true = digest_a
pick false = digest_b

pub pick-IsDigest : (b : Bool) → is_digest (pick b) ≡ true
unfolding all is_hex
pick-IsDigest true = refl
pick-IsDigest false = refl

pub digest_a-IsDigest : is_digest digest_a ≡ true
digest_a-IsDigest = pick-IsDigest true

pub digest_b-IsDigest : is_digest digest_b ≡ true
digest_b-IsDigest = pick-IsDigest false

-- Texts of even and of odd length hash to two digests.
abbrev pub toy : Hash
toy = record {
  sha256_hex = λ raw. pick (nat_beq (length raw % 2) 0);
  sha256_hex-IsDigest = λ raw. pick-IsDigest (nat_beq (length raw % 2) 0);
}

abbrev pub prev_of : {B : Type 0} → Core B → Text
prev_of c = c.prev

abbrev pub fresh : Node
fresh = record {
  state = at_cold;
  install_root = none;
  lock = none;
  bearers = Bearers.initial;
  tethers = [];
  pairs = record { memorial = []; pending = [] };
  outbox = [];
  phoenix = Phoenix.initial;
  memory = none;
  chain = empty_chain;
}
