-- ===== src/Coldcopy/Stored.antt =====
-- qnm/coldcopy.py: what was stored verifies.
use qnm_node.Base.{
  [], ◌≡◌, refl, ap, ◌∙◌, inl, inr, true, false, some, List, list_eq, nat_eq, list_beq_refl, Text,
  ℕ, Option-cases, Bool, Result-cases, ok, get, get-put_self,
}
use qnm_node.Digest.{Hash, is_digest, canonical_hash_self}
use qnm_node.Coldcopy.{
  hashes_to, Cold, may_place, place, place_on, require_object, named_host, write_leaf, store,
  verify,
}

-- Every object of the vault has its hash for a name.
abbrev pub IsVault : Hash → Cold → Type 0
IsVault h c = (tip : Text) (raw : List ℕ) → get c.objects tip ≡ some raw → h.sha256_hex raw ≡ tip

place-objects : (tip host kind : Text) (c : Cold) → (place tip host kind c).1.objects ≡ c.objects
unfolding place
place-objects tip host kind c = elim (Result-cases (may_place tip host c.replicas)) [
  | inl (_, e) ↦ rw (place, e) refl
  | inr (code, e) ↦ rw (place, e) refl
]

place_on-objects :
    (tip host : Text) (kind : Text → Text) (c : Cold)
    → (place_on tip host kind c).1.objects ≡ c.objects
unfolding place_on place
place_on-objects tip host kind c = elim (Result-cases (named_host host)) [
  | inl (name, e) ↦ rw (place_on, e) (place-objects tip name (kind name) c)
  | inr (code, e) ↦ rw (place_on, e) refl
]

verify-found :
    (h : Hash) (tip : Text) (there : List ℕ) (c : Cold)
    → is_digest tip ≡ true
    → get c.objects tip ≡ some there
    → h.sha256_hex there ≡ tip
    → verify h tip false c ≡ ok tip
unfolding verify require_object hashes_to
verify-found h tip there c d found named =
    let hashed : hashes_to h tip (some there) ≡ ok tip =
      rw (hashes_to, named, list_beq_refl tip) refl in
    rw (verify, canonical_hash_self tip d, found) (ap (hashes_to h tip) found ∙ hashed)

verify-leaf :
    (h : Hash) (raw : List ℕ) (c : Cold)
    → IsVault h c
    → verify h (h.sha256_hex raw) false (write_leaf h raw c) ≡ ok (h.sha256_hex raw)
unfolding write_leaf
verify-leaf h raw c vault = elim (Option-cases (get c.objects (h.sha256_hex raw))) [
  | inl new ↦
      verify-found h (h.sha256_hex raw) raw (write_leaf h raw c) (h.sha256_hex-IsDigest raw)
        (rw (write_leaf, new) (get-put_self c.objects (h.sha256_hex raw) raw)) refl
  | inr (there, known) ↦
      verify-found h (h.sha256_hex raw) there (write_leaf h raw c) (h.sha256_hex-IsDigest raw)
        (rw (write_leaf, known) known) (vault (h.sha256_hex raw) there known)
]

verify-same :
    (h : Hash) (digest : Text) (c d : Cold)
    → c.objects ≡ d.objects
    → verify h digest false c ≡ verify h digest false d
unfolding verify require_object
verify-same h digest c d e = rw (verify, require_object, e) refl

-- A body that `store` was given verifies under its hash, in a vault where every object has its hash
-- for a name, whether the host was accepted or refused.
pub verify-store :
    (h : Hash) (raw : List ℕ) (host : Text) (c : Cold)
    → IsVault h c
    → verify h (h.sha256_hex raw) false (store h raw host c).1 ≡ ok (h.sha256_hex raw)
unfolding store
verify-store h raw host c vault =
    verify-same h (h.sha256_hex raw) (store h raw host c).1 (write_leaf h raw c)
      (place_on-objects (h.sha256_hex raw) host _ (write_leaf h raw c))
    ∙ verify-leaf h raw c vault

pub nothing-IsVault :
    (h : Hash) (pins : List (Text × Text)) (o w d : Bool)
    → IsVault h record {
      objects = [];
      replicas = [];
      pins = pins;
      origin_alive = o;
      worker_alive = w;
      dns_alive = d;
    }
unfolding get
nothing-IsVault h pins o w d tip raw found = cc
