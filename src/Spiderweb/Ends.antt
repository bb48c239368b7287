-- ===== src/Spiderweb/Ends.antt =====
-- qnm/spiderweb.py, `path_roots`: the search for a way ends, and finds one exactly when there is one.
use qnm_node.Base.{
  ℕ, zero, suc, ◌+◌, ◌≤◌, ◌≡◌, refl, sym, ◌⊎◌, inl, inr, Bool, true, false, ◌||◌, Option, none,
  some, List, [], ◌∷◌, ◌++◌, arith, ◌==◌, list_eq, nat_eq, list_beq_iff, beq_refl, Text, Bool-cases,
  Option-cases, if◌then◌else◌, contains, contains-append, any, all,
}
use qnm_node.Base.{lower, any-append}
use qnm_node.Spiderweb.Paths.{last, Scan, hit, more, nowhere, scan, search, edge, Reach, here, step}

-- Some way in the queue ends at `x`.
unfoldable pub pending : List (List Text) → Text → Bool
pending q x = any (λ path. last path == x) q

-- All that the node under `x` offers was seen.
unfoldable pub closed_in : (Text → Option (List Text)) → List Text → Text → Bool
closed_in offers seen x = elim (offers x) [
  | none ↦ true
  | some peers ↦ all (λ p. contains seen (lower p)) peers
]

-- How many entries of a list of peers were not seen.
unfoldable pub unseen : List Text → List Text → ℕ
unseen [] seen = 0
unseen (u ∷ us) seen = (if contains seen u then 0 else 1) + unseen us seen

unseen_mono : (us seen : List Text) (x : Text) → unseen us (seen ++ x ∷ []) ≤ unseen us seen
unfolding unseen
unseen_mono [] seen x = omega arith
unseen_mono (u ∷ us) seen x = ground (arith, contains-append seen (x ∷ []) u, unseen_mono us seen x)

-- One more node seen, one entry less to see.
pub unseen-drops :
    (us seen : List Text) (x : Text)
    → contains us x ≡ true
    → contains seen x ≡ false
    → unseen us (seen ++ x ∷ []) + 1 ≤ unseen us seen
unfolding unseen contains
unseen-drops [] seen x m h = ground arith
unseen-drops (u ∷ us) seen x m h = elim (Bool-cases (u == x)) [
  | inl same ↦
      rw ((list_beq_iff u x).0 same, contains-append seen (x ∷ []) x, h)
        (ground (arith, unseen_mono us seen x, beq_refl x))
  | inr other ↦ ground (arith, contains-append seen (x ∷ []) u, unseen-drops us seen x)
]

pub all-of :
    {A : Type 0} (p q : A → Bool) (xs : List A)
    → ((x : A) → p x ≡ true → q x ≡ true)
    → all p xs ≡ true
    → all q xs ≡ true
unfolding all
all-of p q [] imp h = refl
all-of p q (x ∷ xs) imp h = ground (arith, imp x, all-of p q xs imp)

module _ (offers : Text → Option (List Text)) (dest : Text) where
  -- What the loop over the peers of one node leaves behind when it found no way.
  record IsScanned (path peers : List Text) (q : List (List Text)) (seen : List Text)
      (q' : List (List Text)) (seen' : List Text) : Type 0 where
    kept : (x : Text) → contains seen x ≡ true → contains seen' x ≡ true
    queued : (x : Text) → pending q x ≡ true → pending q' x ≡ true
    fresh : (x : Text) → contains seen' x ≡ true → (contains seen x || pending q' x) ≡ true
    all_seen : all (λ p. contains seen' (lower p)) peers ≡ true
    missed : contains seen dest ≡ false → contains seen' dest ≡ false

  pub last-append : (path : List Text) (x : Text) → last (path ++ x ∷ []) ≡ x
  unfolding last
  last-append [] x = refl
  last-append (k ∷ []) x = refl
  last-append (k ∷ j ∷ path) x = last-append (j ∷ path) x

  contains-append_one :
      (xs : List Text) (x y : Text) → contains (xs ++ x ∷ []) y ≡ (contains xs y || x == y)
  unfolding contains
  contains-append_one xs x y = ground (arith, contains-append xs (x ∷ []) y)

  pending-append :
      (path : List Text) (q : List (List Text)) (x y : Text)
      → pending (q ++ (path ++ x ∷ []) ∷ []) y ≡ (pending q y || x == y)
  unfolding pending any
  pending-append path q x y =
      rw (any-append (λ p. last p == y) q ((path ++ x ∷ []) ∷ []), last-append path x)
        (ground arith)

  scan-IsScanned :
      (path peers : List Text) (q : List (List Text)) (seen : List Text) (q' : List (List Text))
      (seen' : List Text)
      → scan offers dest path peers q seen ≡ more q' seen'
      → IsScanned path peers q seen q' seen'
  unfolding scan all
  scan-IsScanned path [] q seen q' seen' e = record {
    kept = λ x m. ground arith;
    queued = λ x m. ground arith;
    fresh = λ x m. ground arith;
    all_seen = refl;
    missed = λ m. ground arith;
  }
  scan-IsScanned path (p ∷ rest) q seen q' seen' e = elim (Bool-cases (contains seen (lower p))) [
    | inl known ↦
        let r = scan-IsScanned path rest q seen q' seen' (ground arith) in
        record {
          kept = r.kept;
          queued = r.queued;
          fresh = r.fresh;
          all_seen = ground (arith, r.all_seen, r.kept (lower p) known);
          missed = r.missed;
        }
    | inr new ↦ elim (Bool-cases (lower p == dest)) [
      | inl arrived ↦ absurd (ground arith)
      | inr onward ↦
          let r =
            scan-IsScanned path rest (q ++ (path ++ lower p ∷ []) ∷ []) (seen ++ lower p ∷ []) q'
              seen' (ground arith) in
          record {
            kept = λ x m. r.kept x (ground (arith, contains-append seen (lower p ∷ []) x));
            queued = λ x m. r.queued x (ground (arith, pending-append path q (lower p) x));
            fresh = λ x m. ground (
              arith,
              r.fresh x,
              contains-append_one seen (lower p) x,
              pending-append path q (lower p) x,
              r.queued x,
            );
            all_seen = ground (
              arith,
              r.all_seen,
              r.kept (lower p) (
                  ground (arith, contains-append_one seen (lower p) (lower p), beq_refl (lower p))),
            );
            missed = λ m. r.missed (ground (arith, contains-append_one seen (lower p) dest));
          }
    ]
  ]

  -- Each node seen waits in the queue, or all that it offers was seen.
  abbrev IsFrontier : List (List Text) → List Text → Type 0
  IsFrontier q seen =
      (x : Text) → contains seen x ≡ true → (pending q x || closed_in offers seen x) ≡ true

  closed_in-kept :
      (seen seen' : List Text) (x : Text)
      → ((y : Text) → contains seen y ≡ true → contains seen' y ≡ true)
      → closed_in offers seen x ≡ true
      → closed_in offers seen' x ≡ true
  unfolding closed_in
  closed_in-kept seen seen' x k c = elim (Option-cases (offers x)) [
    | inl none_there ↦ rw (closed_in, none_there) refl
    | inr (peers, there) ↦
        rw (closed_in, there)
          (all-of (λ p. contains seen (lower p)) (λ p. contains seen' (lower p)) peers
            (λ p. k (lower p)) (ground arith))
  ]

  scan-closed_in :
      (path peers : List Text) (q : List (List Text)) (seen : List Text) (q' : List (List Text))
      (seen' : List Text) (x : Text)
      → offers (last path) ≡ some peers
      → IsScanned path peers q seen q' seen'
      → (last path == x) ≡ true
      → closed_in offers seen' x ≡ true
  unfolding closed_in
  scan-closed_in path peers q seen q' seen' x there r same =
      rw (sym ((list_beq_iff (last path) x).0 same), closed_in, there) r.all_seen

  scan-IsFrontier :
      (path peers : List Text) (q : List (List Text)) (seen : List Text) (q' : List (List Text))
      (seen' : List Text)
      → offers (last path) ≡ some peers
      → IsScanned path peers q seen q' seen'
      → IsFrontier (path ∷ q) seen
      → IsFrontier q' seen'
  unfolding pending any
  scan-IsFrontier path peers q seen q' seen' there r f x m = ground (
    arith,
    r.fresh x m,
    f x,
    r.queued x,
    scan-closed_in path peers q seen q' seen' x there r,
    closed_in-kept seen seen' x r.kept,
  )

  gone-closed_in :
      (path seen : List Text) (x : Text)
      → offers (last path) ≡ none
      → (last path == x) ≡ true
      → closed_in offers seen x ≡ true
  unfolding closed_in
  gone-closed_in path seen x gone same =
      rw (sym ((list_beq_iff (last path) x).0 same), closed_in, gone) refl

  drop-IsFrontier :
      (path : List Text) (q : List (List Text)) (seen : List Text)
      → offers (last path) ≡ none
      → IsFrontier (path ∷ q) seen
      → IsFrontier q seen
  unfolding pending any
  drop-IsFrontier path q seen gone f x m = ground (arith, f x, gone-closed_in path seen x gone)

  any-all :
      (seen peers : List Text) (v : Text)
      → all (λ p. contains seen (lower p)) peers ≡ true
      → any (λ p. lower p == v) peers ≡ true
      → contains seen v ≡ true
  unfolding any all
  any-all seen [] v a e = absurd (ground arith)
  any-all seen (p ∷ peers) v a e = elim (Bool-cases (lower p == v)) [
    | inl same ↦ rw (sym ((list_beq_iff (lower p) v).0 same)) (ground arith)
    | inr other ↦ any-all seen peers v (ground arith) (ground arith)
  ]

  edge-closed_in :
      (seen : List Text) (u v : Text)
      → closed_in offers seen u ≡ true
      → edge offers u v ≡ true
      → contains seen v ≡ true
  unfolding closed_in edge
  edge-closed_in seen u v c e = elim (Option-cases (offers u)) [
    | inl gone ↦ absurd (ground arith)
    | inr (peers, there) ↦ any-all seen peers v (ground arith) (ground arith)
  ]

  Reach-seen :
      (seen : List Text) (src v : Text)
      → IsFrontier [] seen
      → contains seen src ≡ true
      → Reach offers src v
      → contains seen v ≡ true
  unfolding pending any
  Reach-seen seen src _ f m here = m
  Reach-seen seen src v f m (step {u} r e) =
      edge-closed_in seen u v (ground (arith, f u (Reach-seen seen src u f m r))) e

  pub Scan-cases :
      (s : Scan)
      → ((way : List Text) × (s ≡ hit way))
        ⊎ ((q : List (List Text)) × (seen : List Text) × (s ≡ more q seen))
  Scan-cases (hit way) = inl (way, refl)
  Scan-cases (more q seen) = inr (q, seen, refl)

  -- A search that finds nothing leaves nothing out.
  pub search-nowhere :
      (fuel : ℕ) (q : List (List Text)) (seen : List Text) (src : Text)
      → search offers dest fuel q seen ≡ nowhere
      → IsFrontier q seen
      → contains seen src ≡ true
      → contains seen dest ≡ false
      → ¬ Reach offers src dest
  unfolding search
  search-nowhere fuel [] seen src e f m missed r =
      absurd (ground (arith, Reach-seen seen src dest f m r))
  search-nowhere zero (path ∷ q) seen src e f m missed r = absurd (ground arith)
  search-nowhere (suc fuel) (path ∷ q) seen src e f m missed r =
      elim (Option-cases (offers (last path))) [
        | inl gone ↦
            search-nowhere fuel q seen src (ground arith) (drop-IsFrontier path q seen gone f) m
              missed r
        | inr (peers, there) ↦ elim (Scan-cases (scan offers dest path peers q seen)) [
          | inl (way, e') ↦ absurd (ground arith)
          | inr (q', seen', e') ↦
              let s = scan-IsScanned path peers q seen q' seen' e' in
              search-nowhere fuel q' seen' src (ground arith)
                (scan-IsFrontier path peers q seen q' seen' there s f) (s.kept src m)
                (s.missed missed) r
        ]
      ]
