-- ===== src/Fed/Objects.antt =====
-- qnm/fedmesh/objects.py: objects under their hash, and the signed refs to them. `verify_ref` of
-- qnm/fedmesh/wire.py is a parameter.
use qnm_node.Base.{
  ℕ, ◌>>=◌, ◌>>◌, ◌≡◌, refl, sym, ap, ◌∙◌, inl, inr, Bool, not, Option, none, some, List, [], ◌∷◌,
  ◌++◌, arith, ◌==◌, list_eq, nat_eq, list_beq_iff, list_beq_refl, Text, Bool-cases, Option-cases,
  Result, ok, refuse, Act, if◌then◌else◌, Dict, get, put, get-put_self, is_some,
}
use mathlib.Core.Path.{subst}
use qnm_node.Base.{>>=-eq-ok, pair_eq, fed_fetch, fed_tamper}
use qnm_node.Digest.{Hash}
use qnm_node.Chain.{genesis_prev}
use qnm_node.Fed.Receipts.{classify_link}

-- The files of the store, by their names.
abbrev pub Store : Type 0
Store = Dict Text (List ℕ)

fetched : (a b : List ℕ) → ◌≡◌ {A = Result (List ℕ)} (ok a) (ok b) → a ≡ b
fetched a b e = cc

same_digest : (a b : Text) → ◌≡◌ {A = Result Text} (ok a) (ok b) → a ≡ b
same_digest a b e = cc

module _ (h : Hash) where
  -- `get(digest)`
  unfoldable pub fetch : Text → Store → Result (List ℕ)
  fetch digest s = elim (get s digest) [
    | none ↦ refuse fed_fetch
    | some bytes ↦ if not (h.sha256_hex bytes == digest) then refuse fed_tamper else ok bytes
  ]

  -- `has(digest)`
  unfoldable pub has : Text → Store → Bool
  has digest s = is_some (get s digest)

  -- `put(data)`: what is there is checked, not written again.
  unfoldable pub keep_object : List ℕ → Act Store Text
  unfolding fetch
  keep_object bytes s =
      let digest = h.sha256_hex bytes in
      elim (get s digest) [
        | none ↦ (ok digest, put s digest bytes)
        | some there ↦ (fetch digest s >>= (λ _. ok digest), s)
      ]

  -- What is fetched has the hash that it was asked for by.
  fetch-hash :
      (digest : Text) (s : Store) (bytes : List ℕ)
      → fetch digest s ≡ ok bytes
      → h.sha256_hex bytes ≡ digest
  unfolding fetch
  fetch-hash digest s bytes e = elim (Option-cases (get s digest)) [
    | inl gone ↦ absurd (ground (arith, e, gone))
    | inr (there, found) ↦ elim (Bool-cases (h.sha256_hex there == digest)) [
      | inl same ↦
          sym (ap h.sha256_hex (fetched there bytes (sym (rw (fetch, found, same) refl) ∙ e)))
          ∙ (list_beq_iff (h.sha256_hex there) digest).0 same
      | inr other ↦ absurd (ground (arith, e, found, other))
    ]
  ]

  keep_object-new :
      (bytes : List ℕ) (s : Store)
      → get s (h.sha256_hex bytes) ≡ none
      → keep_object bytes s ≡ (ok (h.sha256_hex bytes), put s (h.sha256_hex bytes) bytes)
  unfolding keep_object
  keep_object-new bytes s new = rw (keep_object, new) refl

  keep_object-known :
      (bytes : List ℕ) (s : Store) (there : List ℕ)
      → get s (h.sha256_hex bytes) ≡ some there
      → keep_object bytes s ≡ (fetch (h.sha256_hex bytes) s >>= (λ _. ok (h.sha256_hex bytes)), s)
  unfolding keep_object
  keep_object-known bytes s there known = rw (keep_object, known) refl

  -- An object that was put is fetched, byte for byte, by the hash that `put` returned, provided no
  -- other bytes have its hash.
  pub fetch-keep_object :
      (bytes : List ℕ) (s : Store) (digest : Text)
      → ((b : List ℕ) → h.sha256_hex b ≡ h.sha256_hex bytes → b ≡ bytes)
      → (keep_object bytes s).0 ≡ ok digest
      → fetch digest (keep_object bytes s).1 ≡ ok bytes
  unfolding fetch
  fetch-keep_object bytes s digest alone e = elim (Option-cases (get s (h.sha256_hex bytes))) [
    | inl new ↦
        let named =
          same_digest (h.sha256_hex bytes) digest
            (sym (ap (λ r. r.0) (keep_object-new bytes s new)) ∙ e) in
        rw (keep_object-new bytes s new) (
          subst (λ d. fetch d (put s (h.sha256_hex bytes) bytes) ≡ ok bytes) named
            (rw
              (fetch, get-put_self s (h.sha256_hex bytes) bytes, list_beq_refl (h.sha256_hex bytes))
              refl))
    | inr (there, known) ↦
        let (b, found, named) =
          >>=-eq-ok (fetch (h.sha256_hex bytes) s) _ digest
            (sym (ap (λ r. r.0) (keep_object-known bytes s there known)) ∙ e) in
        let same = same_digest (h.sha256_hex bytes) digest named in
        rw (keep_object-known bytes s there known) (
          subst (λ d. fetch d s ≡ ok bytes) same
            (found ∙ ap (λ t. ok t) (alone b (fetch-hash (h.sha256_hex bytes) s b found))))
  ]

pub record Update : Type 0 where
  pub handle : Text
  pub ref : Text
  pub seq : ℕ
  pub prev : Text
  pub hash : Text
  pub object : Text
  pub sig : Text

pub record RefLog : Type 0 where
  pub file : List Update
  pub tips : Dict (Text × Text) (ℕ × Text × Text)
  pub seen : Dict (Text × (Text × ℕ)) Text

abbrev link_of : Option (ℕ × Text × Text) → Option (ℕ × Text)
link_of none = none
link_of (some (seq, hash, object)) = some (seq, hash)

abbrev or_zero : Option (ℕ × Text) → ℕ × Text
or_zero none = (0, genesis_prev)
or_zero (some link) = link

-- `tip(handle, ref)`
unfoldable pub tip : Text → Text → RefLog → ℕ × Text
tip handle ref l = or_zero (link_of (get l.tips (handle, ref)))

-- What `_accept` remembers.
unfoldable pub remember : Update → RefLog → RefLog
remember u l = record l {
  seen = put l.seen (u.handle, (u.ref, u.seq)) u.hash;
  tips = put l.tips (u.handle, u.ref) (u.seq, u.hash, u.object);
}

module _ (verify_ref : Update → Result (Unit {0})) where
  -- The tests of `_accept`.
  unfoldable pub admits : Update → RefLog → Result (Unit {0})
  admits u l =
      verify_ref u
      >> classify_link (get l.seen (u.handle, (u.ref, u.seq)))
          (link_of (get l.tips (u.handle, u.ref))) u.seq u.prev u.hash

  -- `apply(update)`
  unfoldable pub apply : Update → Act RefLog Update
  unfolding admits remember
  apply u l = elim (admits u l) [
    | refuse code ↦ (refuse code, l)
    | ok _ ↦ (ok u, remember u (record l { file = l.file ++ u ∷ [] }))
  ]
