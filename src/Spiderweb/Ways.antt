-- ===== src/Spiderweb/Ways.antt =====
-- qnm/spiderweb.py, `path_roots`: enough fuel for the search, and the ways that it finds.
use qnm_node.Base.{
  ℕ, zero, suc, ◌+◌, ◌≤◌, ◌≡◌, refl, sym, ◌∙◌, ◌≢◌, inl, inr, Bool, true, ◌&&◌, Option, none, some,
  List, [], ◌∷◌, ◌++◌, arith, ◌==◌, list_eq, nat_eq, list_beq_iff, beq_refl, Text, Bool-cases,
  Option-cases, length, length-append, contains, any, all,
}
use qnm_node.Base.{lower}
use qnm_node.Spiderweb.Paths.{
  last, Scan, hit, more, found, out_of_fuel, scan, search, edge, is_way, first,
}
use qnm_node.Spiderweb.Ends.{unseen, unseen-drops, all-of, Scan-cases, last-append}
use mathlib.Core.Path.{subst}

all-append :
    {A : Type 0} (p : A → Bool) (xs ys : List A) → all p (xs ++ ys) ≡ (all p xs && all p ys)
unfolding all
all-append p [] ys = refl
all-append p (x ∷ xs) ys = ground (arith, all-append p xs ys)

module _ (offers : Text → Option (List Text)) (dest : Text) where
  -- Everything that a node may offer stands in the list.
  abbrev pub IsUniverse : List Text → Type 0
  IsUniverse us =
      (k : Text) (peers : List Text)
      → offers k ≡ some peers
      → all (λ p. contains us (lower p)) peers ≡ true

  scan-measure :
      (us path peers : List Text) (q : List (List Text)) (seen : List Text) (q' : List (List Text))
      (seen' : List Text)
      → all (λ p. contains us (lower p)) peers ≡ true
      → scan offers dest path peers q seen ≡ more q' seen'
      → length q' + unseen us seen' ≤ length q + unseen us seen
  unfolding scan all
  scan-measure us path [] q seen q' seen' a e = ground arith
  scan-measure us path (p ∷ rest) q seen q' seen' a e =
      elim (Bool-cases (contains seen (lower p))) [
        | inl known ↦ scan-measure us path rest q seen q' seen' (ground arith) (ground arith)
        | inr new ↦ elim (Bool-cases (lower p == dest)) [
          | inl arrived ↦ absurd (ground arith)
          | inr onward ↦
              let r =
                scan-measure us path rest (q ++ (path ++ lower p ∷ []) ∷ []) (seen ++ lower p ∷ [])
                  q' seen' (ground arith) (ground arith) in
              let l = length-append q ((path ++ lower p ∷ []) ∷ []) in
              let d = unseen-drops us seen (lower p) (ground arith) new in omega (arith, r, l, d)
        ]
      ]

  -- One unit of fuel for each entry that was not seen and each way in the queue is enough.
  pub search-ends :
      (us : List Text) (fuel : ℕ) (q : List (List Text)) (seen : List Text)
      → IsUniverse us
      → length q + unseen us seen ≤ fuel
      → search offers dest fuel q seen ≢ out_of_fuel
  unfolding search
  search-ends us fuel [] seen u b e = absurd (ground arith)
  search-ends us zero (path ∷ q) seen u b e = absurd (ground arith)
  search-ends us (suc fuel) (path ∷ q) seen u b e = elim (Option-cases (offers (last path))) [
    | inl gone ↦ search-ends us fuel q seen u (ground arith) (ground arith)
    | inr (peers, there) ↦ elim (Scan-cases offers dest (scan offers dest path peers q seen)) [
      | inl (way, e') ↦ absurd (ground arith)
      | inr (q', seen', e') ↦
          search-ends us fuel q' seen' u
            (ground
              (arith, scan-measure us path peers q seen q' seen' (u (last path) peers there) e'))
            (ground arith)
    ]
  ]

  -- A way from `src`.
  abbrev is_trail : Text → List Text → Bool
  is_trail src path = is_way offers path && first path == src

  way-append :
      (path : List Text) (x : Text)
      → is_way offers path ≡ true
      → edge offers (last path) x ≡ true
      → is_way offers (path ++ x ∷ []) ≡ true
  unfolding is_way last
  way-append [] x w e = absurd (ground arith)
  way-append (k ∷ []) x w e = ground arith
  way-append (k ∷ j ∷ path) x w e = ground (arith, way-append (j ∷ path) x)

  trail-append :
      (src : Text) (path : List Text) (x : Text)
      → is_trail src path ≡ true
      → edge offers (last path) x ≡ true
      → is_trail src (path ++ x ∷ []) ≡ true
  unfolding is_way first
  trail-append src [] x w e = absurd (ground arith)
  trail-append src (k ∷ path) x w e = ground (arith, way-append (k ∷ path) x)

  -- Every peer of a node that a list names is an edge away from it.
  abbrev all_edges : List Text → List Text → Bool
  all_edges path peers = all (λ p. edge offers (last path) (lower p)) peers

  all-any : (peers : List Text) → all (λ p. any (λ r. lower r == lower p) peers) peers ≡ true
  unfolding all any
  all-any [] = refl
  all-any (p ∷ peers) = ground (
    arith,
    beq_refl (lower p),
    all-of (λ r. any (λ s. lower s == lower r) peers)
        (λ r. any (λ s. lower s == lower r) (p ∷ peers)) peers (λ r m. ground arith)
        (all-any peers),
  )

  offered-all_edges :
      (path peers : List Text) → offers (last path) ≡ some peers → all_edges path peers ≡ true
  unfolding edge
  offered-all_edges path peers there = rw (edge, there) (all-any peers)

  -- What the loop over the peers of one node gives out of ways that start at `src`.
  IsScan : Text → Scan → Type 0
  IsScan src (hit way) = (is_trail src way ≡ true) × (last way ≡ dest)
  IsScan src (more q seen) = all (is_trail src) q ≡ true

  scan-IsScan :
      (src : Text) (path peers : List Text) (q : List (List Text)) (seen : List Text)
      → all_edges path peers ≡ true
      → is_trail src path ≡ true
      → all (is_trail src) q ≡ true
      → IsScan src (scan offers dest path peers q seen)
  unfolding scan all IsScan
  scan-IsScan src path [] q seen a w t = t
  scan-IsScan src path (p ∷ rest) q seen a w t = elim (Bool-cases (contains seen (lower p))) [
    | inl known ↦ rw (scan, known) (scan-IsScan src path rest q seen (ground arith) w t)
    | inr new ↦ elim (Bool-cases (lower p == dest)) [
      | inl arrived ↦
          rw (scan, new, arrived)
            (
              trail-append src path (lower p) w (ground arith),
              rw (last-append offers dest path (lower p)) ((list_beq_iff (lower p) dest).0 arrived),
            )
      | inr onward ↦
          rw (scan, new, onward)
            (scan-IsScan src path rest (q ++ (path ++ lower p ∷ []) ∷ []) (seen ++ lower p ∷ [])
              (ground arith) w
              (rw (all-append (is_trail src) q ((path ++ lower p ∷ []) ∷ []), t)
                (ground (arith, trail-append src path (lower p)))))
    ]
  ]

  all_head :
      (src : Text) (path : List Text) (q : List (List Text))
      → all (is_trail src) (path ∷ q) ≡ true
      → is_trail src path ≡ true
  unfolding all
  all_head src path q t = ground arith

  all_tail :
      (src : Text) (path : List Text) (q : List (List Text))
      → all (is_trail src) (path ∷ q) ≡ true
      → all (is_trail src) q ≡ true
  unfolding all
  all_tail src path q t = ground arith

  found_way :
      (src : Text) (path peers : List Text) (q : List (List Text)) (seen way way' : List Text)
      → scan offers dest path peers q seen ≡ hit way'
      → way' ≡ way
      → IsScan src (scan offers dest path peers q seen)
      → (is_trail src way ≡ true) × (last way ≡ dest)
  unfolding IsScan
  found_way src path peers q seen way way' e same s = rw (sym same) (subst (IsScan src) e s)

  more_ways :
      (src : Text) (path peers : List Text) (q : List (List Text)) (seen : List Text)
      (q' : List (List Text)) (seen' : List Text)
      → scan offers dest path peers q seen ≡ more q' seen'
      → IsScan src (scan offers dest path peers q seen)
      → all (is_trail src) q' ≡ true
  unfolding IsScan
  more_ways src path peers q seen q' seen' e s = subst (IsScan src) e s

  search_gone :
      (fuel : ℕ) (path : List Text) (q : List (List Text)) (seen : List Text)
      → offers (last path) ≡ none
      → search offers dest (suc fuel) (path ∷ q) seen ≡ search offers dest fuel q seen
  unfolding search
  search_gone fuel path q seen gone = rw (search, gone) refl

  search_hit :
      (fuel : ℕ) (path : List Text) (q : List (List Text)) (seen peers way : List Text)
      → offers (last path) ≡ some peers
      → scan offers dest path peers q seen ≡ hit way
      → search offers dest (suc fuel) (path ∷ q) seen ≡ found way
  unfolding search
  search_hit fuel path q seen peers way there e = rw (search, there, e) refl

  search_more :
      (fuel : ℕ) (path : List Text) (q : List (List Text)) (seen peers : List Text)
      (q' : List (List Text)) (seen' : List Text)
      → offers (last path) ≡ some peers
      → scan offers dest path peers q seen ≡ more q' seen'
      → search offers dest (suc fuel) (path ∷ q) seen ≡ search offers dest fuel q' seen'
  unfolding search
  search_more fuel path q seen peers q' seen' there e = rw (search, there, e) refl

  found-eq : (a b : List Text) → found a ≡ found b → a ≡ b
  found-eq a b e = cc

  -- A way that is found starts at `src`, goes along edges and ends at `dest`.
  pub search-found :
      (src : Text) (fuel : ℕ) (q : List (List Text)) (seen way : List Text)
      → all (is_trail src) q ≡ true
      → search offers dest fuel q seen ≡ found way
      → (is_trail src way ≡ true) × (last way ≡ dest)
  unfolding search
  search-found src fuel [] seen way t e = absurd (cc)
  search-found src zero (path ∷ q) seen way t e = absurd (cc)
  search-found src (suc fuel) (path ∷ q) seen way t e = elim (Option-cases (offers (last path))) [
    | inl gone ↦
        search-found src fuel q seen way (all_tail src path q t)
          (sym (search_gone fuel path q seen gone) ∙ e)
    | inr (peers, there) ↦
        let s =
          scan-IsScan src path peers q seen (offered-all_edges path peers there)
            (all_head src path q t) (all_tail src path q t) in
        elim (Scan-cases offers dest (scan offers dest path peers q seen)) [
          | inl (way', e') ↦
              found_way src path peers q seen way way' e'
                (found-eq way' way (sym (search_hit fuel path q seen peers way' there e') ∙ e)) s
          | inr (q', seen', e') ↦
              search-found src fuel q' seen' way (more_ways src path peers q seen q' seen' e' s)
                (sym (search_more fuel path q seen peers q' seen' there e') ∙ e)
        ]
  ]
