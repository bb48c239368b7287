-- ===== src/Walker/Stack.antt =====
-- qnsd/walker.py: which class a walk ends on, and that a photon that a walk sent is dropped by
-- every walk it comes to after that.
use qnm_node.Base.{
  if◌then◌else◌, ◌+◌, ◌<◌, ◌≡◌, refl, ◌⊎◌, inl, inr, Bool, true, false, ◌&&◌, not, Option, none,
  some, List, [], ◌∷◌, ◌++◌, arith, ◌==◌, list_eq, nat_eq, list_beq_refl, Text, codes, Result, ok,
  refuse, is_empty, is_some, contains, contains-append, find,
}
use qnm_node.Base.{or_else}
use qnm_node.Walker.{
  Photon, Policy, World, went_out, was_probe, did_not, Outcome, emitted, probed, waiting, hop_drop,
  loop_drop, classes, translate_apply, start_from, order_of, token_of, leave, walk_on, limit,
  is_loop, walk,
}

-- The photon that an outcome sends out, if any.
abbrev pub sent : Result Outcome → Option Photon
sent (ok (emitted name out)) = some out
sent (ok (probed name)) = none
sent (ok (waiting name)) = none
sent (ok hop_drop) = none
sent (ok loop_drop) = none
sent (refuse code) = none

-- What stays and what moves when a photon with an id is sent.
pub record IsNext (p out : Photon) : Type 0 where
  pub same_id : out.photon_id ≡ p.photon_id
  pub one_hop : out.hop ≡ p.hop + 1
  pub marked : out.seen ≡ p.seen ++ p.photon_id ∷ []

leave-IsNext :
    (world : World) (p : Photon) (via_from name : Text) (out : Photon)
    → is_empty p.photon_id ≡ false
    → sent (leave world p via_from name) ≡ some out
    → IsNext p out
unfolding leave translate_apply token_of
leave-IsNext world p via_from name out full e = ground arith

walk_on-IsNext :
    (world : World) (restricted : Bool) (p : Photon) (via_from last : Text) (order : List Text)
    (out : Photon)
    → is_empty p.photon_id ≡ false
    → sent (walk_on world restricted p via_from last order) ≡ some out
    → IsNext p out
unfolding walk_on
walk_on-IsNext world restricted p via_from last [] out full e = ground arith
walk_on-IsNext world restricted p via_from last (name ∷ order) out full e = ground (
  arith,
  walk_on-IsNext world restricted p via_from name order out,
  leave-IsNext world p via_from name out,
)

-- Sending a photon that has an id keeps the id, counts one hop, appends the id to what was seen, and
-- is done only below the hop limit.
pub walk-IsNext :
    (world : World) (state : Text) (pol : Policy) (via_in : Text) (living : Bool)
    (start : Option Text) (p out : Photon)
    → is_empty p.photon_id ≡ false
    → sent (walk world state pol via_in living start p) ≡ some out
    → IsNext p out × (p.hop < limit p pol)
unfolding walk
walk-IsNext world state pol via_in living start p out full e = ground (
  arith,
  walk_on-IsNext world (is_some pol.force_via) p (or_else via_in (or_else p.via_in p.via))
      (codes "local") (order_of state pol start) out,
)

is_loop-next :
    (world : World) (p out : Photon)
    → is_empty p.photon_id ≡ false
    → IsNext p out
    → is_loop world out ≡ true
unfolding is_loop token_of contains
is_loop-next world p out full n =
    let here : contains out.seen out.photon_id ≡ true =
      rw (n.marked, n.same_id)
        (ground (
          arith,
          contains-append p.seen (p.photon_id ∷ []) p.photon_id,
          list_beq_refl p.photon_id,
        )) in
    ground (arith, n.same_id, here)

-- A photon with an id that was sent is never sent again, by whatever node, state, policy and adapters.
pub walk-walk :
    (world again : World) (state state' : Text) (pol pol' : Policy) (via_in via_in' : Text)
    (living living' : Bool) (start start' : Option Text) (p out : Photon)
    → is_empty p.photon_id ≡ false
    → sent (walk world state pol via_in living start p) ≡ some out
    → sent (walk again state' pol' via_in' living' start' out) ≡ none
unfolding walk
walk-walk world again state state' pol pol' via_in via_in' living living' start start' p out full
      e =
    ground (
      arith,
      is_loop-next again p out full
          (walk-IsNext world state pol via_in living start p out full e).0,
    )

-- The first class of the order that is there and whose emission goes out or is a probe.
abbrev pub takes : World → Photon → Text → Bool
takes world p name =
    not (world.is_absent name)
    && elim (world.emit p name) [ went_out ↦ true | was_probe ↦ true | did_not ↦ false ]

abbrev pub ending : World → Photon → Text → Text → Result Outcome
ending world p via_from name = elim (world.emit p name) [
  | went_out ↦ leave world p via_from name
  | was_probe ↦ ok (probed name)
  | did_not ↦ ok (waiting name)
]

abbrev pub last_of : Text → List Text → Text
last_of last [] = last
last_of last (name ∷ order) = last_of name order

-- Without a forced class the walk ends on the first class that takes the photon, and where none does
-- it waits on the last one tried.
pub walk_on-first :
    (world : World) (p : Photon) (via_from last : Text) (order : List Text)
    → walk_on world false p via_from last order ≡ (elim (find (takes world p) order) [
      | some name ↦ ending world p via_from name
      | none ↦ ok (waiting (last_of last order))
    ])
unfolding walk_on find
walk_on-first world p via_from last [] = refl
walk_on-first world p via_from last (name ∷ order) =
    ground (arith, walk_on-first world p via_from name order)

-- The class that an outcome names.
abbrev pub via_of : Outcome → Option Text
via_of (emitted name out) = some name
via_of (probed name) = some name
via_of (waiting name) = some name
via_of hop_drop = none
via_of loop_drop = none

leave-via :
    (world : World) (p : Photon) (via_from f name : Text) (o : Outcome)
    → leave world p via_from f ≡ ok o
    → via_of o ≡ some name
    → name ≡ f
unfolding leave translate_apply
leave-via world p via_from f name o e v = ground arith

walk_on-one :
    (world : World) (p : Photon) (via_from last f name : Text) (o : Outcome)
    → walk_on world true p via_from last (f ∷ []) ≡ ok o
    → via_of o ≡ some name
    → name ≡ f
unfolding walk_on
walk_on-one world p via_from last f name o e v = ground (arith, leave-via world p via_from f name o)

-- The one class of a walk under a forced class: that class, but the local one in COLD.
abbrev pub only_class : Text → Text → Text
only_class state force = if state == codes "COLD" then codes "local" else force

order_of-forced :
    (state : Text) (pol : Policy) (start : Option Text) (f : Text)
    → pol.force_via ≡ some f
    → (order_of state pol start ≡ []) ⊎ (order_of state pol start ≡ only_class state f ∷ [])
unfolding order_of classes start_from contains
order_of-forced state pol none f e = ground arith
order_of-forced state pol (some start) f e = ground arith

-- Under a forced class nothing goes out, is probed or waits on any other class, but in COLD, where the
-- only class is the local one, whatever class is forced.
pub walk-forced :
    (world : World) (state : Text) (pol : Policy) (via_in : Text) (living : Bool)
    (start : Option Text) (p : Photon) (force name : Text) (o : Outcome)
    → pol.force_via ≡ some force
    → walk world state pol via_in living start p ≡ ok o
    → via_of o ≡ some name
    → name ≡ only_class state force
unfolding walk
walk-forced world state pol via_in living start p force name o f e v =
    elim (order_of-forced state pol start force f) [
      | inl empty ↦ ground arith
      | inr only ↦ ground (
        arith,
        walk_on-one world p (or_else via_in (or_else p.via_in p.via)) (codes "local")
            (only_class state force) name o,
      )
    ]
