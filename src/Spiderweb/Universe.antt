-- ===== src/Spiderweb/Universe.antt =====
-- qnm/spiderweb.py: all that a search over a web of nodes can see.
use qnm_node.Base.{
  ◌≤◌, ◌≡◌, refl, sym, ◌≢◌, inl, inr, Bool, true, none, some, List, [], ◌∷◌, ◌++◌, map, arith, ◌==◌,
  list_eq, nat_eq, beq_refl, Text, Bool-cases, length, get, contains, contains-append, all,
}
use qnm_node.Base.{lower, all-contains}
use qnm_node.Node.{Node}
use qnm_node.Pairs.{peers}
use qnm_node.Spiderweb.{Web, universe}
use qnm_node.Spiderweb.Ends.{unseen, all-of}

-- What `arrange` may do to the members of a set: put them into some order.
abbrev pub IsOrder : (List Text → List Text) → Type 0
IsOrder arrange = (xs : List Text) (x : Text) → contains (arrange xs) x ≡ contains xs x

contains-weaken :
    (a b : List Text) (x : Text)
    → (contains b x ≡ true → contains (a ++ b) x ≡ true)
      × (contains a x ≡ true → contains (a ++ b) x ≡ true)
contains-weaken a b x = ground (arith, contains-append a b x)

all-map :
    (us xs : List Text)
    → ((x : Text) → contains (map lower xs) x ≡ true → contains us x ≡ true)
    → all (λ p. contains us (lower p)) xs ≡ true
unfolding all contains
all-map us [] h = refl
all-map us (x ∷ xs) h = ground (
  arith,
  h (lower x) (ground (arith, beq_refl (lower x))),
  all-map us xs (λ y m. h y (ground arith)),
)

some-eq : (m n : Node) → some m ≡ some n → m ≡ n
some-eq m n e = cc

pub some-list : (a b : List Text) → some a ≡ some b → a ≡ b
some-list a b e = cc

pub none-some : (a : List Text) → none ≢ some a
none-some a e = absurd (cc)

pub universe-get :
    (w : Web) (k : Text) (n : Node)
    → get w k ≡ some n
    → all (λ p. contains (universe w) (lower p)) (peers n.pairs) ≡ true
unfolding get universe
universe-get [] k n e = absurd (cc)
universe-get ((j, m) ∷ w) k n e = elim (Bool-cases (j == k)) [
  | inl same ↦ rw (sym (some-eq m n (ground arith))) (
      all-map (universe ((j, m) ∷ w)) (peers m.pairs)
        (λ x c. (contains-weaken (map lower (peers m.pairs)) (universe w) x).1 c))
  | inr other ↦
      all-of (λ p. contains (universe w) (lower p))
        (λ p. contains (universe ((j, m) ∷ w)) (lower p)) (peers n.pairs)
        (λ p c. (contains-weaken (map lower (peers m.pairs)) (universe w) (lower p)).0 c)
        (universe-get w k n (ground arith))
]

-- If one list has no member but another's, a test that holds throughout the other holds throughout it.
pub all-members :
    (p : Text → Bool) (xs ys : List Text)
    → ((x : Text) → contains xs x ≡ true → contains ys x ≡ true)
    → all p ys ≡ true
    → all p xs ≡ true
unfolding all contains
all-members p [] ys h a = refl
all-members p (x ∷ xs) ys h a = ground (
  arith,
  all-contains p ys x (h x (ground (arith, beq_refl x))) a,
  all-members p xs ys (λ y m. h y (ground arith)) a,
)

pub unseen-length : (us seen : List Text) → unseen us seen ≤ length us
unfolding unseen
unseen-length [] seen = omega arith
unseen-length (u ∷ us) seen = ground (arith, unseen-length us seen)
