-- ===== src/Phoenix.antt =====
-- qnm/phoenix.py: waiting locally, and the chatter that is admitted; and qnm/score.py.
use qnm_node.Base.{
  ℕ, ◌+◌, ◌>>◌, refuse_if, ◌≤◌, ◌≡◌, refl, sym, ◌↔◌, ◌⊎◌, inl, Bool, true, false, ◌&&◌, ◌||◌, not,
  Option, none, some, List, [], ◌∷◌, arith, leb, ◌==◌, list_eq, nat_eq, list_beq, list_beq_iff,
  Text, codes, Result, ok, refuse, Code, Act, if◌then◌else◌, contains, any, all,
}
use qnm_node.Base.{
  phoenix_local_wait, no_neighbor, no_majority, chatter_refused, no_lie_to_live, score_no_views,
  or_else, all-contains,
}

pub record Phoenix : Type 0 where
  pub armed : Bool
  pub waiting_local : Bool
  pub last_good_tip : Option Text
  pub last_good_bytes : Option Text

unfoldable pub initial : Phoenix
initial = record {
  armed = false;
  waiting_local = false;
  last_good_tip = none;
  last_good_bytes = none;
}

-- `arm()`
unfoldable pub arm : Phoenix → Phoenix
arm p = record p { armed = true; waiting_local = true }

-- `remember_good(tip, chain_digest)`
unfoldable pub remember_good : Text → Text → Phoenix → Phoenix
remember_good tip chain_digest p = record p {
  last_good_tip = some tip;
  last_good_bytes = some chain_digest;
}

-- `hunt_controller()`, `neighbor_heal(...)`, `vote_to_fix(...)` and the three `lie_to_...(...)`: they
-- refuse, whatever is passed.
pub data Plea : Type 0 where
  hunt_controller neighbor_heal vote_to_fix : Plea
  lie_to_stay_alive lie_to_adapt lie_to_prevent_death : Plea

abbrev plea_code : Plea → Code
plea_code hunt_controller = phoenix_local_wait
plea_code neighbor_heal = no_neighbor
plea_code vote_to_fix = no_majority
plea_code lie_to_stay_alive = no_lie_to_live
plea_code lie_to_adapt = no_lie_to_live
plea_code lie_to_prevent_death = no_lie_to_live

unfoldable pub plead : Plea → Act Phoenix Unit
plead plea p = (refuse (plea_code plea), p)

-- A message of a neighbor: its keys, and the values of those that are read.
pub record Message : Type 0 where
  pub keys : List Text
  pub status : Text
  pub tip_hash : Text
  pub tip : Text
  pub plane : Option Text

abbrev pub chatter_keys : List Text
chatter_keys = codes "status" ∷ codes "tip_hash" ∷ codes "tip" ∷ codes "plane" ∷ codes "peer" ∷ []

abbrev pub chatter_forbidden : List Text
chatter_forbidden =
    codes "body"
    ∷ codes "diff"
    ∷ codes "file"
    ∷ codes "payload"
    ∷ codes "should_be"
    ∷ codes "should"
    ∷ codes "advice"
    ∷ codes "vote"
    ∷ codes "votes"
    ∷ codes "majority"
    ∷ codes "fix"
    ∷ codes "vote_to_fix"
    ∷ []

abbrev pub allowed_status : List Text
allowed_status = codes "live" ∷ codes "locked" ∷ codes "isolated" ∷ []

-- A key that makes `banned` non-empty: an extra key, or a forbidden one.
abbrev is_banned : Text → Bool
is_banned k = not (contains chatter_keys k) || contains chatter_forbidden k

abbrev is_chatter_plane : Option Text → Bool
is_chatter_plane none = true
is_chatter_plane (some plane) = plane == codes "tick"

-- What of a message is passed on.
pub record Heard : Type 0 where
  pub status : Text
  pub tip_hash : Text

-- `admit_chatter(message)`
unfoldable pub admit_chatter : Message → Result Heard
admit_chatter m = do
  refuse_if (any is_banned m.keys) chatter_refused
  refuse_if (not (contains allowed_status m.status)) chatter_refused
  refuse_if (not (is_chatter_plane m.plane)) chatter_refused
  ok (record { status = m.status; tip_hash = or_else m.tip_hash m.tip })

abbrev pub score_banned : List Text
score_banned =
    codes "views"
    ∷ codes "downloads"
    ∷ codes "ranking"
    ∷ codes "lattice_online"
    ∷ codes "mesh_complete"
    ∷ []

pub data Posture : Type 0 where
  scorched_posture phoenix_posture isolated_posture degraded_posture local_posture : Posture

-- `score_local(...)`; `extra` is the list of the extra keys
unfoldable pub score_local : Bool → ℕ → Bool → Bool → Bool → List Text → Result (ℕ × Posture)
score_local chain_ok chain_length isolated phoenix scorched extra = do
  refuse_if (any (λ k. contains extra k) score_banned) score_no_views
  ok (
      if scorched
      then (0, scorched_posture)
      else if phoenix
      then (1, phoenix_posture)
      else if isolated
      then (2, isolated_posture)
      else if not chain_ok
      then (3, degraded_posture)
      else ((if leb (10 + chain_length) 100 then 10 + chain_length else 100), local_posture))

apart : all (λ k. not (contains chatter_forbidden k)) chatter_keys ≡ true
unfolding all contains list_beq
apart = refl

not-true : (b : Bool) → not b ≡ true → b ≡ false
not-true true h = sym h
not-true false h = refl

not_forbidden : (k : Text) → contains chatter_keys k ≡ true → contains chatter_forbidden k ≡ false
not_forbidden k m =
    not-true _ (all-contains (λ k. not (contains chatter_forbidden k)) chatter_keys k m apart)

is_chatter_plane_iff :
    (p : Option Text) → (is_chatter_plane p ≡ true) ↔ ((p ≡ none) ⊎ (p ≡ some (codes "tick")))
is_chatter_plane_iff none = ((λ e. inl refl), (λ e. refl))
is_chatter_plane_iff (some plane) = ground (arith, list_beq_iff plane (codes "tick"))

no_banned : (keys : List Text) → any is_banned keys ≡ not (all (contains chatter_keys) keys)
unfolding any all
no_banned [] = refl
no_banned (k ∷ keys) = ground (arith, no_banned keys, not_forbidden k)

-- Chatter is admitted exactly when it has no key but the five, none of the forbidden ones, one of the
-- three statuses, and no plane or the tick plane; what is passed on is then its status and tip.
pub admit_chatter_iff :
    (m : Message) (heard : Heard)
    → (admit_chatter m ≡ ok heard) ↔ (
        (all (contains chatter_keys) m.keys ≡ true)
        × (contains allowed_status m.status ≡ true)
        × ((m.plane ≡ none) ⊎ (m.plane ≡ some (codes "tick")))
        × (heard ≡ record { status = m.status; tip_hash = or_else m.tip_hash m.tip }))
unfolding admit_chatter
admit_chatter_iff m heard = ground (arith, no_banned m.keys, is_chatter_plane_iff m.plane)

-- A score that is granted is at most 100, and it is 10 or more exactly when the node is neither scorched nor
-- waiting nor isolated and its chain verifies.
pub score_local-bounds :
    (chain_ok : Bool) (n : ℕ) (isolated phoenix scorched : Bool) (extra : List Text) (value : ℕ)
    (posture : Posture)
    → score_local chain_ok n isolated phoenix scorched extra ≡ ok (value, posture)
    → (value ≤ 100) × ((leb 10 value) ≡ (chain_ok && not isolated && not phoenix && not scorched))
unfolding score_local
score_local-bounds chain_ok n isolated phoenix scorched extra value posture e = ground arith
