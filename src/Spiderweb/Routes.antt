-- ===== src/Spiderweb/Routes.antt =====
-- qnm/spiderweb.py, `path_roots` on a web of nodes: it finds a way exactly when one exists.
use qnm_node.Base.{
  ◌+◌, ◌≡◌, refl, sym, ap, ◌∙◌, ◌≢◌, ◌↔◌, ◌⊎◌, inl, inr, true, false, ◌&&◌, ◌||◌, none, some, List,
  [], ◌∷◌, arith, ◌==◌, list_eq, nat_eq, list_beq_iff, beq_refl, Text, Bool-cases, Option-cases,
  length, get, is_some, contains, any, all,
}
use mathlib.Core.Path.{subst}
use qnm_node.Base.{lower}
use qnm_node.Pairs.{peers}
use qnm_node.Spiderweb.{Web, alive, offers, universe, path_roots, way_of}
use qnm_node.Spiderweb.Paths.{
  last, Search, found, nowhere, out_of_fuel, search, edge, Reach, here, step, is_way, first,
}
use qnm_node.Spiderweb.Ends.{pending, closed_in, search-nowhere}
use qnm_node.Spiderweb.Ways.{IsUniverse, search-ends, search-found}
use qnm_node.Spiderweb.Universe.{
  IsOrder, some-list, none-some, universe-get, all-members, unseen-length,
}

module _ (arrange : List Text → List Text) (w : Web) (o : IsOrder arrange) where
  web-IsUniverse : IsUniverse (offers arrange w) [] (universe w)
  unfolding offers
  web-IsUniverse k there e = elim (Option-cases (get w k)) [
    | inl gone ↦ absurd (ground arith)
    | inr (n, found_there) ↦ elim (Bool-cases (alive n)) [
      | inl living ↦
          all-members (λ p. contains (universe w) (lower p)) there (peers n.pairs)
            (λ x c.
              sym (o (peers n.pairs) x)
              ∙ rw (some-list (arrange (peers n.pairs)) there (ground arith)) c)
            (universe-get w k n found_there)
      | inr dead ↦ absurd (ground arith)
    ]
  ]

  start-trail :
      (src : Text)
      → all (λ path. is_way (offers arrange w) path && first path == src) ((src ∷ []) ∷ []) ≡ true
  unfolding all is_way first
  start-trail src = ground (arith, beq_refl src)

  start-pending :
      (src x : Text)
      → contains (src ∷ []) x ≡ true
      → (pending ((src ∷ []) ∷ []) x || closed_in (offers arrange w) (src ∷ []) x) ≡ true
  unfolding contains pending any last
  start-pending src x m = ground arith

  start-seen : (src : Text) → contains (src ∷ []) src ≡ true
  unfolding contains
  start-seen src = ground (arith, beq_refl src)

  start-missed : (src dest : Text) → (src == dest) ≡ false → contains (src ∷ []) dest ≡ false
  unfolding contains
  start-missed src dest other = ground arith

  -- The search for a way over the web: what its result says.
  pub record IsFound (src dest : Text) (path : List Text) : Type 0 where
    pub along : is_way (offers arrange w) path ≡ true
    pub from : first path ≡ src
    pub to : last path ≡ dest

  Search-cases :
      (s : Search) → ((path : List Text) × (s ≡ found path)) ⊎ ((s ≡ nowhere) ⊎ (s ≡ out_of_fuel))
  Search-cases (found path) = inl (path, refl)
  Search-cases nowhere = inr (inl refl)
  Search-cases out_of_fuel = inr (inr refl)

  -- The search that `path_roots` makes from a living node.
  searched : Text → Text → Search
  searched src dest =
      search (offers arrange w) dest (1 + length (universe w)) ((src ∷ []) ∷ []) (src ∷ [])

  searched-ends : (src dest : Text) → searched src dest ≢ out_of_fuel
  unfolding searched
  searched-ends src dest =
      search-ends (offers arrange w) dest (universe w) (1 + length (universe w)) ((src ∷ []) ∷ [])
        (src ∷ []) web-IsUniverse (omega (arith, unseen-length (universe w) (src ∷ [])))

  searched-found :
      (src dest : Text) (path : List Text) → searched src dest ≡ found path → IsFound src dest path
  unfolding searched
  searched-found src dest path e =
      let r =
        search-found (offers arrange w) dest src (1 + length (universe w)) ((src ∷ []) ∷ [])
          (src ∷ []) path (start-trail src) e in
      record {
        along = ground arith;
        from = (list_beq_iff (first path) src).0 (ground arith);
        to = r.1;
      }

  searched-nowhere :
      (src dest : Text)
      → (src == dest) ≡ false
      → searched src dest ≡ nowhere
      → ¬ Reach (offers arrange w) src dest
  unfolding searched
  searched-nowhere src dest other e =
      search-nowhere (offers arrange w) dest (1 + length (universe w)) ((src ∷ []) ∷ []) (src ∷ [])
        src e (λ x m. start-pending src x m) (start-seen src) (start-missed src dest other)

  edge-offers : (u v : Text) → edge (offers arrange w) u v ≡ true → offers arrange w u ≢ none
  unfolding edge
  edge-offers u v e gone = absurd (ground arith)

  -- From a node that offers nothing, nothing else is reached.
  Reach-stuck :
      (src dest : Text)
      → offers arrange w src ≡ none
      → Reach (offers arrange w) src dest
      → src ≡ dest
  Reach-stuck src _ gone here = refl
  Reach-stuck src dest gone (step {u} r e) =
      let same = Reach-stuck src u gone r in absurd (edge-offers u dest e (rw (sym same) gone))

  path_roots-living :
      (src dest : Text) (peers_there : List Text)
      → (lower src == lower dest) ≡ false
      → offers arrange w (lower src) ≡ some peers_there
      → path_roots arrange w src dest ≡ way_of (searched (lower src) (lower dest))
  unfolding path_roots searched
  path_roots-living src dest peers_there other there = rw (path_roots, other, there) refl

  path_roots-home :
      (src dest : Text)
      → (lower src == lower dest) ≡ true
      → path_roots arrange w src dest ≡ some (lower src ∷ [])
  unfolding path_roots
  path_roots-home src dest same = rw (path_roots, same) refl

  path_roots-dead :
      (src dest : Text)
      → (lower src == lower dest) ≡ false
      → offers arrange w (lower src) ≡ none
      → path_roots arrange w src dest ≡ none
  unfolding path_roots
  path_roots-dead src dest other gone = rw (path_roots, other, gone) refl

  home-IsFound : (src dest : Text) → src ≡ dest → IsFound src dest (src ∷ [])
  unfolding is_way first last
  home-IsFound src dest same = record { along = refl; from = refl; to = same }

  searched-IsFound :
      (src dest : Text) (path : List Text)
      → way_of (searched src dest) ≡ some path
      → IsFound src dest path
  searched-IsFound src dest path e = elim (Search-cases (searched src dest)) [
    | inl (way, e') ↦
        rw (sym (some-list way path (sym (ap way_of e') ∙ e))) (searched-found src dest way e')
    | inr (inl e') ↦ absurd (none-some path (sym (ap way_of e') ∙ e))
    | inr (inr e') ↦ absurd (searched-ends src dest e')
  ]

  nowhere-Reach :
      (src dest : Text)
      → (src == dest) ≡ false
      → Reach (offers arrange w) src dest
      → is_some (way_of (searched src dest)) ≡ true
  nowhere-Reach src dest other r = elim (Search-cases (searched src dest)) [
    | inl (way, e') ↦ rw e' refl
    | inr (inl e') ↦ absurd (searched-nowhere src dest other e' r)
    | inr (inr e') ↦ absurd (searched-ends src dest e')
  ]

  Reach-way :
      (src : Text) (path : List Text)
      → is_way (offers arrange w) path ≡ true
      → Reach (offers arrange w) src (first path)
      → Reach (offers arrange w) src (last path)
  unfolding is_way first last
  Reach-way src [] a r = absurd (ground arith)
  Reach-way src (k ∷ []) a r = r
  Reach-way src (k ∷ j ∷ path) a r = Reach-way src (j ∷ path) (ground arith) (step r (ground arith))

  IsFound-Reach :
      (src dest : Text) (path : List Text)
      → IsFound src dest path
      → Reach (offers arrange w) src dest
  IsFound-Reach src dest path f =
      subst (Reach (offers arrange w) src) f.to
        (Reach-way src path f.along (subst (Reach (offers arrange w) src) (sym f.from) here))

  -- The way that `path_roots` finds starts at the source, goes along living pair edges and ends at
  -- the destination, in whatever order the peers are looked at.
  pub path_roots-IsFound :
      (src dest : Text) (path : List Text)
      → path_roots arrange w src dest ≡ some path
      → IsFound (lower src) (lower dest) path
  path_roots-IsFound src dest path e = elim (Bool-cases (lower src == lower dest)) [
    | inl same ↦
        rw (sym (some-list _ path (sym (path_roots-home src dest same) ∙ e)))
          (home-IsFound (lower src) (lower dest) ((list_beq_iff (lower src) (lower dest)).0 same))
    | inr other ↦ elim (Option-cases (offers arrange w (lower src))) [
      | inl gone ↦ absurd (none-some path (sym (path_roots-dead src dest other gone) ∙ e))
      | inr (there, living) ↦
          searched-IsFound (lower src) (lower dest) path
            (sym (path_roots-living src dest there other living) ∙ e)
    ]
  ]

  Reach-path_roots :
      (src dest : Text)
      → Reach (offers arrange w) (lower src) (lower dest)
      → is_some (path_roots arrange w src dest) ≡ true
  Reach-path_roots src dest r = elim (Bool-cases (lower src == lower dest)) [
    | inl same ↦ rw (path_roots-home src dest same) refl
    | inr other ↦ elim (Option-cases (offers arrange w (lower src))) [
      | inl gone ↦ absurd (
          ground (
            arith,
            list_beq_iff (lower src) (lower dest),
            Reach-stuck (lower src) (lower dest) gone r,
          ))
      | inr (there, living) ↦
          rw (path_roots-living src dest there other living)
            (nowhere-Reach (lower src) (lower dest) other r)
    ]
  ]

  -- `path_roots` finds a way exactly when the destination is reached from the source over living
  -- pair edges, in whatever order the peers are looked at.
  pub path_roots_iff :
      (src dest : Text)
      → (is_some (path_roots arrange w src dest) ≡ true)
        ↔ Reach (offers arrange w) (lower src) (lower dest)
  path_roots_iff src dest = (
    λ e. elim (Option-cases (path_roots arrange w src dest)) [
      | inl gone ↦ absurd (ground arith)
      | inr (path, there) ↦
          IsFound-Reach (lower src) (lower dest) path (path_roots-IsFound src dest path there)
    ],
    Reach-path_roots src dest,
  )
