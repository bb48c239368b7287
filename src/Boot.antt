-- ===== src/Boot.antt =====
-- qnm/boot.py: the install root and the lock of an installation. The state is the lock file, if any.
use qnm_node.Base.{
  ℕ, Bool, true, false, Option, none, some, List, [], ◌∷◌, ◌++◌, ◌==◌, list_eq, nat_eq, Text,
  Result, ok, refuse, Act, is_empty, if◌then◌else◌,
}
use qnm_node.Base.{resume_lock_only, identity_refused}
use qnm_node.Digest.{Hash}
use qnm_node.Chain.{author}

-- The record in `data/locks/install.lock`.
pub record Lock : Type 0 where
  pub identity : Text
  pub install_root : Text
  pub entropy_sha256 : Text
  pub nonce_sha256 : Text
  pub genesis_sha256 : Text
  pub created_utc : Text
  pub scorched : Bool

abbrev pub Disk : Type 0
Disk = Option Lock

-- `compute_install_root(entropy, nonce, genesis)`; without a genesis it adds no bytes.
unfoldable pub compute_install_root : Hash → List ℕ → List ℕ → List ℕ → Text
compute_install_root h entropy nonce genesis = h.sha256_hex (entropy ++ nonce ++ genesis)

-- `install(root, entropy, nonce, genesis)`, with the bytes given or drawn
unfoldable pub install : Hash → List ℕ → List ℕ → List ℕ → Text → Act Disk Lock
unfolding compute_install_root
install h entropy nonce genesis now (some lock) = (refuse resume_lock_only, some lock)
install h entropy nonce genesis now none =
    let rec : Lock = record {
      identity = author;
      install_root = compute_install_root h entropy nonce genesis;
      entropy_sha256 = h.sha256_hex entropy;
      nonce_sha256 = h.sha256_hex nonce;
      genesis_sha256 = if is_empty genesis then [] else h.sha256_hex genesis;
      created_utc = now;
      scorched = false;
    } in
    (ok rec, some rec)

-- `resume(root, from_path)`: `elsewhere` says that a path was given which is not the lock's
unfoldable pub resume : Bool → Disk → Result Lock
resume true disk = refuse resume_lock_only
resume false none = refuse resume_lock_only
resume false (some lock) = if lock.identity == author then ok lock else refuse identity_refused

-- `mark_scorched(root)`
unfoldable pub mark_scorched : Act Disk Lock
mark_scorched none = (refuse resume_lock_only, none)
mark_scorched (some lock) =
    (ok (record lock { scorched = true }), some (record lock { scorched = true }))

-- What may be asked of an installation afterwards: another installation, or the mark of a scorch.
pub data Call : Type 0 where
  do_install : List ℕ → List ℕ → List ℕ → Text → Call
  do_scorch : Call

abbrev pub is_scorch : Call → Bool
is_scorch (do_install entropy nonce genesis now) = false
is_scorch do_scorch = true

unfoldable pub perform : Hash → Call → Disk → Disk
unfolding install mark_scorched
perform h (do_install entropy nonce genesis now) disk = (install h entropy nonce genesis now disk).1
perform h do_scorch disk = (mark_scorched disk).1

unfoldable pub run_calls : Hash → List Call → Disk → Disk
unfolding perform
run_calls h [] disk = disk
run_calls h (call ∷ calls) disk = run_calls h calls (perform h call disk)
