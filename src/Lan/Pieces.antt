-- ===== src/Lan/Pieces.antt =====
-- qnsd/lan/session.py: the pieces that a packet is cut into, and the slots that they fill.
use qnm_node.Base.{
  ℕ, zero, suc, ◌+◌, ◌*◌, ◌≤◌, ◌≡◌, refl, ap, ◌≢◌, none, some, List, [], ◌∷◌, ◌++◌, arith, list_eq,
  nat_eq, length, length-append, Result, ok, refuse, Code, Dict, get, put,
}
use mathlib.Core.Path.{subst}
use mathlib.Core.List.{append_assoc}
use qnm_node.Bytes.{drop, take-drop, length-drop}
use qnm_node.Lan.Fragments.{pieces, join, slots_from}

pub refuse-ok : {A : Type 0} {code : Code} {a : A} → ◌≢◌ {A = Result A} (refuse code) (ok a)
refuse-ok e = absurd (cc)

pub ok-eq : {A : Type 0} (a b : A) → ◌≡◌ {A = Result A} (ok a) (ok b) → a ≡ b
ok-eq a b e = cc

-- The pieces, put together, are the whole.
pub join-pieces :
    (fuel size : ℕ) (raw : List ℕ)
    → 1 ≤ size
    → length raw ≤ fuel
    → join (pieces fuel size raw) ≡ raw
unfolding pieces join
join-pieces fuel size [] s l = refl
join-pieces zero size (b ∷ raw) s l = absurd (omega arith)
join-pieces (suc fuel) size (b ∷ raw) s l =
    rw (join-pieces fuel size (drop size (b ∷ raw)) s (omega (arith, length-drop size (b ∷ raw))))
      (take-drop size (b ∷ raw))

-- The pieces are at most as many as the cap allows.
pub pieces-bound :
    (fuel size k : ℕ) (raw : List ℕ) → length raw ≤ k * size → length (pieces fuel size raw) ≤ k
unfolding pieces
pieces-bound fuel size k [] l = omega arith
pieces-bound zero size k (b ∷ raw) l = omega arith
pieces-bound (suc fuel) size zero (b ∷ raw) l = absurd (omega arith)
pieces-bound (suc fuel) size (suc k) (b ∷ raw) l = omega (
  arith,
  pieces-bound fuel size k (drop size (b ∷ raw)) (omega (arith, length-drop size (b ∷ raw))),
)

-- The slots after pieces were filled in from a number on.
unfoldable pub table : ℕ → List (List ℕ) → Dict ℕ (List ℕ)
table i [] = []
table i (p ∷ ps) = (i, p) ∷ table (i + 1) ps

put-table :
    (i : ℕ) (ps : List (List ℕ)) (p : List ℕ)
    → put (table i ps) (i + length ps) p ≡ table i (ps ++ p ∷ [])
unfolding table put
put-table i [] p = ground arith
put-table i (q ∷ ps) p = ground (arith, put-table (i + 1) ps p)

pub get-table_past : (i k : ℕ) (ps : List (List ℕ)) → i + length ps ≤ k → get (table i ps) k ≡ none
unfolding table get
get-table_past i k [] l = refl
get-table_past i k (p ∷ ps) l = ground (arith, get-table_past (i + 1) k ps)

get-table :
    (i : ℕ) (ps qs : List (List ℕ)) (p : List ℕ)
    → get (table i (ps ++ p ∷ qs)) (i + length ps) ≡ some p
unfolding table get
get-table i [] qs p = ground arith
get-table i (q ∷ ps) qs p = ground (arith, get-table (i + 1) ps qs p)

pub length-table : (i : ℕ) (ps : List (List ℕ)) → length (table i ps) ≡ length ps
unfolding table
length-table i [] = refl
length-table i (p ∷ ps) = omega (arith, length-table (i + 1) ps)

pub put-table_next :
    (ps : List (List ℕ)) (p : List ℕ) → put (table 0 ps) (length ps) p ≡ table 0 (ps ++ p ∷ [])
put-table_next ps p =
    subst (λ k. put (table 0 ps) k p ≡ table 0 (ps ++ p ∷ [])) (omega arith) (put-table 0 ps p)

slot-table :
    (ps qs : List (List ℕ)) (p : List ℕ) → get (table 0 (ps ++ p ∷ qs)) (length ps) ≡ some p
slot-table ps qs p =
    subst (λ k. get (table 0 (ps ++ p ∷ qs)) k ≡ some p) (omega arith) (get-table 0 ps qs p)

pub slots_from-table :
    (ps qs : List (List ℕ)) → slots_from (table 0 (ps ++ qs)) (length ps) (length qs) ≡ qs
unfolding slots_from
slots_from-table ps [] = refl
slots_from-table ps (q ∷ qs) =
    rw (slots_from, slot-table ps qs q)
      (ap (λ t. q ∷ t)
        (subst (λ m. slots_from (table 0 (ps ++ q ∷ qs)) m (length qs) ≡ qs)
          (length-append ps (q ∷ []))
          (subst (λ t. slots_from (table 0 t) (length (ps ++ q ∷ [])) (length qs) ≡ qs)
            (append_assoc ps (q ∷ []) qs) (slots_from-table (ps ++ q ∷ []) qs))))
