-- ===== src/Spiderweb/Paths.antt =====
-- qnm/spiderweb.py, `path_roots`: the search for a way from node to node over pair edges. The
-- peers that a node offers are a parameter, so that the search is over any web: `offers k` is none
-- when no living node is attached under `k`.
use qnm_node.Base.{
  ℕ, zero, suc, ◌≡◌, Bool, true, false, ◌&&◌, Option, none, some, List, [], ◌∷◌, ◌++◌, ◌==◌,
  list_eq, nat_eq, Text, contains, any,
}
use qnm_node.Base.{lower}

-- `path[-1]`
unfoldable pub last : List Text → Text
last [] = []
last (k ∷ []) = k
last (k ∷ j ∷ path) = last (j ∷ path)

-- How the loop over the peers of one node ends: with the way found, or with the queue and the set
-- `seen` for the next round.
pub data Scan : Type 0 where
  hit : List Text → Scan
  more : List (List Text) → List Text → Scan

pub data Search : Type 0 where
  found : List Text → Search
  nowhere out_of_fuel : Search

module _ (offers : Text → Option (List Text)) (dest : Text) where
  -- `for peer in cur.pairs.peers(): ...`
  unfoldable pub scan : List Text → List Text → List (List Text) → List Text → Scan
  scan path [] q seen = more q seen
  scan path (peer ∷ rest) q seen = elim (contains seen (lower peer)) [
    | true ↦ scan path rest q seen
    | false ↦ elim (lower peer == dest) [
      | true ↦ hit (path ++ lower peer ∷ [])
      | false ↦ scan path rest (q ++ (path ++ lower peer ∷ []) ∷ []) (seen ++ lower peer ∷ [])
    ]
  ]

  -- `while q: ...`, one round for each unit of fuel
  unfoldable pub search : ℕ → List (List Text) → List Text → Search
  unfolding scan last
  search fuel [] seen = nowhere
  search zero (path ∷ q) seen = out_of_fuel
  search (suc fuel) (path ∷ q) seen = elim (offers (last path)) [
    | none ↦ search fuel q seen
    | some peers ↦ elim (scan path peers q seen) [
      | hit way ↦ found way
      | more q' seen' ↦ search fuel q' seen'
    ]
  ]

-- An edge of the web: a living node under `u` has a pair with `v`.
unfoldable pub edge : (Text → Option (List Text)) → Text → Text → Bool
edge offers u v = elim (offers u) [ none ↦ false | some peers ↦ any (λ p. lower p == v) peers ]

-- The nodes that are reached from `src` over the edges.
pub data Reach (offers : Text → Option (List Text)) (src : Text) : Text → Type 0 where
  here : Reach offers src src
  step : {u v : Text} → Reach offers src u → edge offers u v ≡ true → Reach offers src v

-- A way along edges, with at least one node.
unfoldable pub is_way : (Text → Option (List Text)) → List Text → Bool
is_way offers [] = false
is_way offers (k ∷ []) = true
is_way offers (k ∷ j ∷ path) = edge offers k j && is_way offers (j ∷ path)

-- The first node of a way.
unfoldable pub first : List Text → Text
first [] = []
first (k ∷ path) = k
