-- ===== src/Wires/Dwell.antt =====
-- qnm/wires.py: what `apply_cited` takes, and when.
use qnm_node.Base.{
  ℕ, ◌+◌, ◌*◌, ◌/◌, ◌≤◌, ◌<◌, ◌≡◌, refl, ◌⊎◌, inl, inr, Bool, true, false, Option, none, some, List,
  arith, ltb, ◌==◌, list_eq, nat_eq, list_beq, list_beq_iff, list_beq_refl, Text, Bool-cases,
  Option-cases, Result-cases, ok, if◌then◌else◌, contains, add, contains-add, all,
}
use qnm_node.Base.{is_hex}
use qnm_node.Digest.{is_digest, canonical_hash, canonical_hash-digest, canonical_hash_self}
use qnm_node.Wires.{
  Wires, Cite, second, dwell_s, holds, with_hash, check_cite, cite, apply_cited, initial,
}

-- The held tip is in the lockset, and a tip that waits for its dwell is a digest.
pub record IsHeld (w : Wires) : Type 0 where
  pub digest : is_digest w.held_prev ≡ true
  pub in_lockset : contains w.lockset w.held_prev ≡ true
  pub cited : (c : Cite) → w.pending ≡ some c → is_digest c.tip ≡ true

pub initial-IsHeld : IsHeld initial
unfolding initial contains list_beq all is_hex
initial-IsHeld = record { digest = refl; in_lockset = refl; cited = λ c e. cc }

-- What a cite that passes the checks has shown.
check_cite-ok :
    (w : Wires) (prev tip : Text) (lockset : Option (List Text)) (by_clock : Bool) (p t : Text)
    (held : List Text)
    → check_cite w prev tip lockset by_clock ≡ ok (p, t, held)
    → (by_clock ≡ false)
      × (canonical_hash prev ≡ ok w.held_prev)
      × (p ≡ w.held_prev)
      × (canonical_hash tip ≡ ok t)
      × ((t == w.held_prev) ≡ false)
      × (contains held w.held_prev ≡ true)
unfolding check_cite holds
check_cite-ok w prev tip lockset by_clock p t held e =
    ground (arith, list_beq_iff p w.held_prev, canonical_hash-digest prev p, canonical_hash_self p)

-- Once the dwell is over, applying takes the cited tip and locks it in; before, it changes nothing.
apply_cited_lem :
    (now : ℕ) (w : Wires) (c : Cite)
    → w.pending ≡ some c
    → is_digest c.tip ≡ true
    → apply_cited now none w ≡ (
        if ltb now (c.utc * second + dwell_s * second) then (ok false, w) else (
          ok true,
          record w {
            held_prev = c.tip;
            lockset = add w.lockset c.tip;
            pending = some (record c { applied = true });
          },
        ))
unfolding apply_cited with_hash
apply_cited_lem now w c e d = ground (arith, canonical_hash_self c.tip d)

-- The cite that waits after a cite that was granted.
pending-cite :
    (prev tip peer : Text) (lockset : Option (List Text)) (now : ℕ) (by_clock : Bool) (w : Wires)
    (c : Cite)
    → (cite prev tip peer lockset now by_clock w).0 ≡ ok c
    → ((cite prev tip peer lockset now by_clock w).1.pending ≡ some c)
      × (c.utc ≡ now / second)
      × (c.prev ≡ w.held_prev)
      × (canonical_hash tip ≡ ok c.tip)
      × ((c.tip == w.held_prev) ≡ false)
      × ((cite prev tip peer lockset now by_clock w).1.held_prev ≡ w.held_prev)
unfolding cite
pending-cite prev tip peer lockset now by_clock w c e =
    elim (Result-cases (check_cite w prev tip lockset by_clock)) [
      | inr (code, f) ↦ absurd (ground arith)
      | inl ((p, t, held), f) ↦
          let facts = check_cite-ok w prev tip lockset by_clock p t held f in ground arith
    ]

IsHeld-check :
    (w : Wires) (prev tip : Text) (lockset : Option (List Text)) (by_clock : Bool) (p t : Text)
    (held : List Text) (c : Cite)
    → IsHeld w
    → check_cite w prev tip lockset by_clock ≡ ok (p, t, held)
    → c.tip ≡ t
    → IsHeld (record w { lockset = held; pending = some c })
IsHeld-check w prev tip lockset by_clock p t held c i f e =
    let facts = check_cite-ok w prev tip lockset by_clock p t held f in
    record {
      digest = i.digest;
      in_lockset = facts.5;
      cited = λ c' e'. ground (arith, canonical_hash-digest tip t);
    }

pub cite-IsHeld :
    (prev tip peer : Text) (lockset : Option (List Text)) (now : ℕ) (by_clock : Bool) (w : Wires)
    → IsHeld w
    → IsHeld (cite prev tip peer lockset now by_clock w).1
unfolding cite
cite-IsHeld prev tip peer lockset now by_clock w i =
    elim (Result-cases (check_cite w prev tip lockset by_clock)) [
      | inr (code, f) ↦ rw (f, cite) i
      | inl ((p, t, held), f) ↦
          rw (f, cite) (IsHeld-check w prev tip lockset by_clock p t held _ i f refl)
    ]

-- Applying changes nothing, or it takes the tip of the waiting cite, whose dwell is over, into the
-- held tip and the lockset.
abbrev pub Takes : ℕ → Wires → Wires → Type 0
Takes now w w' =
    (c : Cite) × (w.pending ≡ some c)
    × (c.utc * second + dwell_s * second ≤ now)
    × (w' ≡ record w {
      held_prev = c.tip;
      lockset = add w.lockset c.tip;
      pending = some (record c { applied = true });
    })

apply_arrived :
    (now : ℕ) (arrived : Option Text) (w : Wires)
    → ((apply_cited now arrived w).1 ≡ w)
      ⊎ ((apply_cited now arrived w).1 ≡ (apply_cited now none w).1)
unfolding apply_cited
apply_arrived now none w = inr refl
apply_arrived now (some tip) w = ground arith

apply_nothing : (now : ℕ) (w : Wires) → w.pending ≡ none → (apply_cited now none w).1 ≡ w
unfolding apply_cited
apply_nothing now w e = ground arith

apply_none-Takes :
    (now : ℕ) (w : Wires)
    → IsHeld w
    → ((apply_cited now none w).1 ≡ w) ⊎ Takes now w (apply_cited now none w).1
apply_none-Takes now w i = elim (Option-cases w.pending) [
  | inl e ↦ inl (apply_nothing now w e)
  | inr (c, e) ↦ elim (Bool-cases (ltb now (c.utc * second + dwell_s * second))) [
    | inl early ↦ inl (ground (arith, apply_cited_lem now w c e (i.cited c e)))
    | inr due ↦ inr (c, e, ground arith, ground (arith, apply_cited_lem now w c e (i.cited c e)))
  ]
]

-- From held wires, `apply_cited` changes nothing, or at least 777 seconds have passed since the time
-- that the waiting cite carries, and it takes exactly that cite: its tip becomes the held tip and
-- joins the lockset, and the cite is marked applied.
pub apply_cited-Takes :
    (now : ℕ) (arrived : Option Text) (w : Wires)
    → IsHeld w
    → ((apply_cited now arrived w).1 ≡ w) ⊎ Takes now w (apply_cited now arrived w).1
apply_cited-Takes now arrived w i = elim (apply_arrived now arrived w) [
  | inl same ↦ inl same
  | inr as_none ↦ rw as_none (apply_none-Takes now w i)
]

Takes-IsHeld : (now : ℕ) (w w' : Wires) → IsHeld w → Takes now w w' → IsHeld w'
Takes-IsHeld now w w' i (c, e, due, f) = rw f (record {
  digest = i.cited c e;
  in_lockset = rw contains-add (rw list_beq_refl refl);
  cited = λ c' e'. let d = i.cited c e in ground arith;
})

pub apply_cited-IsHeld :
    (now : ℕ) (arrived : Option Text) (w : Wires) → IsHeld w → IsHeld (apply_cited now arrived w).1
apply_cited-IsHeld now arrived w i = elim (apply_cited-Takes now arrived w i) [
  | inl same ↦ rw same i
  | inr took ↦ Takes-IsHeld now w (apply_cited now arrived w).1 i took
]

-- A cite that is granted at `now`, and applied at `later`: until 777 seconds after the whole second
-- of the cite nothing happens; from then on the cited tip is held, and it is in the lockset.
pub apply-cite :
    (prev tip peer : Text) (lockset : Option (List Text)) (now later : ℕ) (by_clock : Bool)
    (w : Wires) (c : Cite)
    → IsHeld w
    → (cite prev tip peer lockset now by_clock w).0 ≡ ok c
    → (later < now / second * second + dwell_s * second
        → apply_cited later none (cite prev tip peer lockset now by_clock w).1
          ≡ (ok false, (cite prev tip peer lockset now by_clock w).1))
      × (now / second * second + dwell_s * second ≤ later
          → ((apply_cited later none (cite prev tip peer lockset now by_clock w).1).0 ≡ ok true)
            × ((apply_cited later none (cite prev tip peer lockset now by_clock w).1).1.held_prev
                ≡ c.tip)
            × (contains
                  (apply_cited later none (cite prev tip peer lockset now by_clock w).1).1.lockset
                  c.tip
                ≡ true))
apply-cite prev tip peer lockset now later by_clock w c i e =
    let w' = (cite prev tip peer lockset now by_clock w).1 in
    let facts = pending-cite prev tip peer lockset now by_clock w c e in
    let applied = apply_cited_lem later w' c facts.0 (canonical_hash-digest tip c.tip facts.3) in
    (
      λ early. ground arith,
      λ due. ground (arith, contains-add w'.lockset c.tip c.tip, list_beq_refl c.tip),
    )
