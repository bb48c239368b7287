-- ===== src/Fed/Guard.antt =====
-- qnm/fedmesh/peers.py: the budget and the circuit breaker of each peer. Moments are whole
-- nanoseconds from the start of the clock.
use qnm_node.Base.{
  ℕ, ◌+◌, ◌≤◌, ◌<◌, ◌≡◌, inl, inr, Bool, false, ◌||◌, Option, none, some, List, [], ◌∷◌, ◌++◌,
  arith, ltb, leb, ◌==◌, list_eq, nat_eq, Text, Bool-cases, length, length-append, ok, refuse, Act,
  if◌then◌else◌, Dict, get, put, get-put, get-put_self, contains, keep,
}
use qnm_node.Base.{fed_quarantine, fed_breaker, fed_peer_quota}

abbrev pub minute : ℕ
minute = 60000000000

abbrev pub per_minute : ℕ
per_minute = 30

abbrev pub byte_budget : ℕ
byte_budget = 256000

abbrev pub breaker_threshold : ℕ
breaker_threshold = 3

pub record PeerGuard : Type 0 where
  pub quarantine : List Text
  pub hits : Dict Text (List (ℕ × ℕ))
  pub fails : Dict Text ℕ
  pub open_until : Dict Text ℕ

abbrev pub or_zero : Option ℕ → ℕ
or_zero none = 0
or_zero (some n) = n

abbrev pub or_none : Option (List (ℕ × ℕ)) → List (ℕ × ℕ)
or_none none = []
or_none (some rows) = rows

-- `moment - stamp < 60.0`
abbrev pub is_recent : ℕ → ℕ × ℕ → Bool
is_recent moment (stamp, size) = ltb moment (stamp + minute)

-- `sum(size for _, size in window)`
unfoldable pub total : List (ℕ × ℕ) → ℕ
total [] = 0
total ((stamp, size) ∷ rows) = size + total rows

-- `note_failure(peer, now)`
unfoldable pub note_failure : Text → ℕ → PeerGuard → PeerGuard
note_failure peer moment g =
    let count : ℕ = or_zero (get g.fails peer) + 1 in
    record g {
      fails = put g.fails peer count;
      open_until =
          if leb breaker_threshold count
          then put g.open_until peer (moment + minute)
          else g.open_until;
    }

-- The hits of a peer that count at this moment.
unfoldable pub window : Text → ℕ → PeerGuard → List (ℕ × ℕ)
window peer moment g = keep (is_recent moment) (or_none (get g.hits peer))

-- `check(peer, nbytes, now)`
unfoldable pub check : Text → ℕ → ℕ → Act PeerGuard Unit
unfolding window note_failure
check peer nbytes moment g =
    if contains g.quarantine peer
    then (refuse fed_quarantine, g)
    else if ltb moment (or_zero (get g.open_until peer))
    then (refuse fed_breaker, g)
    else if leb per_minute (length (window peer moment g))
        || ltb byte_budget (total (window peer moment g) + nbytes)
    then (refuse fed_peer_quota, note_failure peer moment g)
    else (
      ok tt,
      record g { hits = put g.hits peer (window peer moment g ++ (moment, nbytes) ∷ []) },
    )

-- The hits that are kept of a peer are within its budget.
pub record IsWithin (g : PeerGuard) (peer : Text) : Type 0 where
  pub few : length (or_none (get g.hits peer)) ≤ per_minute
  pub small : total (or_none (get g.hits peer)) ≤ byte_budget

total-append : (xs ys : List (ℕ × ℕ)) → total (xs ++ ys) ≡ total xs + total ys
unfolding total
total-append [] ys = omega arith
total-append ((stamp, size) ∷ xs) ys = ground (arith, total-append xs ys)

-- If the hits that are kept of a peer are at most 30 and at most 256000 bytes, they are so after a
-- check of any peer, granted or refused.
pub check-IsWithin :
    (peer : Text) (nbytes moment : ℕ) (g : PeerGuard) (k : Text)
    → IsWithin g k
    → IsWithin (check peer nbytes moment g).1 k
unfolding check note_failure total
check-IsWithin peer nbytes moment g k w = elim (Bool-cases (peer == k)) [
  | inl same ↦ ground (
    arith,
    get-put g.hits peer k (window peer moment g ++ (moment, nbytes) ∷ []),
    total-append (window peer moment g) ((moment, nbytes) ∷ []),
    length-append (window peer moment g) ((moment, nbytes) ∷ []),
  )
  | inr other ↦
      ground (arith, get-put g.hits peer k (window peer moment g ++ (moment, nbytes) ∷ []))
]

-- When two failures or more are noted of a peer that is not in quarantine and one more is noted, every
-- check of that peer until a minute after it is refused by the breaker and changes nothing.
pub check-note_failure :
    (peer : Text) (moment now nbytes : ℕ) (g : PeerGuard)
    → contains g.quarantine peer ≡ false
    → 2 ≤ or_zero (get g.fails peer)
    → now < moment + minute
    → check peer nbytes now (note_failure peer moment g)
      ≡ (refuse fed_breaker, note_failure peer moment g)
unfolding check note_failure
check-note_failure peer moment now nbytes g q f t =
    ground (arith, get-put_self g.open_until peer (moment + minute))

-- A check of one peer never changes what another peer has left.
pub check-check :
    (peer other : Text) (nbytes nbytes' moment moment' : ℕ) (g : PeerGuard)
    → (peer == other) ≡ false
    → (check other nbytes' moment' (check peer nbytes moment g).1).0
      ≡ (check other nbytes' moment' g).0
unfolding check note_failure window
check-check peer other nbytes nbytes' moment moment' g d = ground (
  arith,
  get-put g.hits peer other (window peer moment g ++ (moment, nbytes) ∷ []),
  get-put g.open_until peer other (moment + minute),
)
