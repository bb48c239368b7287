-- ===== src/Coldcopy/Held.antt =====
-- qnm/coldcopy.py: on which hosts the replicas of a tip lie, and which host names are accepted.
use qnm_node.Base.{
  ◌>>◌, ◌≡◌, refl, sym, ◌∙◌, inl, inr, Bool, true, false, ◌&&◌, ◌||◌, not, List, [], ◌∷◌, ◌++◌,
  arith, ◌==◌, list_eq, nat_eq, list_beq_iff, list_beq_refl, Text, ℕ, strip, Bool-cases,
  Result-cases, codes, Result, ok, refuse, contains, add, any, all, lower,
}
use qnm_node.Base.{any-append, refuse_if, Code, no_one_tunnel, named_hosts, no_vpn}
use mathlib.Core.Path.{subst}
use qnm_node.Digest.{Hash}
use qnm_node.Apg.{stands_in}
use qnm_node.Nolie.{is_tunnel_host}
use qnm_node.Coldcopy.{
  Replica, Cold, hosts_of, may_place, place, place_on, require_object, transfer, pin_public,
  named_host, write_leaf, store, pull_origin,
}

-- A row of this tip, on a host that is no tunnel.
unfoldable pub is_open : Text → Replica → Bool
is_open tip r = r.tip == tip && not (is_tunnel_host r.host)

abbrev pub is_of : Text → Replica → Bool
is_of tip r = r.tip == tip

-- A tip that has a replica has one outside every tunnel.
unfoldable pub IsHeld : List Replica → Type 0
unfolding is_open
IsHeld rows = (tip : Text) → (not (any (is_of tip) rows) || any (is_open tip) rows) ≡ true

held_open :
    (t : Text) (rows : List Replica)
    → IsHeld rows
    → any (is_of t) rows ≡ true
    → any (is_open t) rows ≡ true
unfolding IsHeld
held_open t rows held known = ground (arith, held t, known)

refused_ok : {A : Type 0} {a : A} {code : Code} → ◌≡◌ {A = Result A} (refuse code) (ok a) → ⊥
refused_ok e = cc

passed : (b : Bool) (code : Code) (u : Unit {0}) → refuse_if b code ≡ ok u → b ≡ false
passed true code u e = cc
passed false code u e = refl

hosts_of-none :
    (tip : Text) (rows : List Replica) → any (is_of tip) rows ≡ false → hosts_of tip rows ≡ []
unfolding any hosts_of
hosts_of-none tip [] h = refl
hosts_of-none tip (r ∷ rows) h = ground (arith, hosts_of-none tip rows)

-- The first replica of a tip is refused on a tunnel.
may_place-known :
    (tip host : Text) (rows : List Replica)
    → is_tunnel_host host ≡ true
    → may_place tip host rows ≡ ok tt
    → any (is_of tip) rows ≡ true
unfolding may_place add contains all
may_place-known tip host rows tunnel e = elim (Bool-cases (any (is_of tip) rows)) [
  | inl known ↦ known
  | inr new ↦
      let refused : may_place tip host rows ≡ refuse no_one_tunnel =
        rw (may_place, hosts_of-none tip rows new, tunnel, list_beq_refl host) refl in
      absurd (refused_ok (sym refused ∙ e))
]

-- Where a tip gets its first row, that row is of it.
newest :
    (t : Text) (row : Replica) (rows : List Replica)
    → any (is_of t) (rows ++ row ∷ []) ≡ true
    → any (is_of t) rows ≡ false
    → (row.tip == t) ≡ true
unfolding any
newest t row rows known new = ground (arith, any-append (is_of t) rows (row ∷ []), known, new)

held_new :
    (t : Text) (row : Replica) (rows : List Replica)
    → IsHeld rows
    → may_place row.tip row.host rows ≡ ok tt
    → any (is_of t) (rows ++ row ∷ []) ≡ true
    → any (is_open t) (rows ++ row ∷ []) ≡ true
unfolding IsHeld any is_open
held_new t row rows held e known = elim (Bool-cases (any (is_of t) rows)) [
  | inl old ↦ rw (any-append (is_open t) rows (row ∷ []), held_open t rows held old) refl
  | inr new ↦
      let same = newest t row rows known new in
      elim (Bool-cases (is_tunnel_host row.host)) [
        | inl tunnel ↦
            let there =
              subst (λ d. any (is_of d) rows ≡ true) ((list_beq_iff row.tip t).0 same)
                (may_place-known row.tip row.host rows tunnel e) in
            absurd (ground (arith, there, new))
        | inr free ↦ rw (any-append (is_open t) rows (row ∷ []), same, free) (ground arith)
      ]
]

pub nothing-IsHeld : IsHeld []
unfolding IsHeld any
nothing-IsHeld t = refl

placed-IsHeld :
    (row : Replica) (rows : List Replica)
    → IsHeld rows
    → may_place row.tip row.host rows ≡ ok tt
    → IsHeld (rows ++ row ∷ [])
unfolding IsHeld
placed-IsHeld row rows held e t = elim (Bool-cases (any (is_of t) (rows ++ row ∷ []))) [
  | inl known ↦ rw (known, held_new t row rows held e known) refl
  | inr new ↦ rw new refl
]

-- Placing keeps it so.
pub place-IsHeld :
    (tip host kind : Text) (c : Cold)
    → IsHeld c.replicas
    → IsHeld (place tip host kind c).1.replicas
unfolding place IsHeld
place-IsHeld tip host kind c held t = elim (Result-cases (may_place tip host c.replicas)) [
  | inl (tt, e) ↦ rw (place, e) (placed-IsHeld _ c.replicas held e t)
  | inr (code, e) ↦ rw (place, e) (held t)
]

pub place_on-IsHeld :
    (tip host : Text) (kind : Text → Text) (c : Cold)
    → IsHeld c.replicas
    → IsHeld (place_on tip host kind c).1.replicas
unfolding place_on
place_on-IsHeld tip host kind c held = elim (Result-cases (named_host host)) [
  | inl (name, e) ↦ rw (place_on, e) (place-IsHeld tip name (kind name) c held)
  | inr (code, e) ↦ rw (place_on, e) held
]

pub transfer-IsHeld :
    (digest host : Text) (c : Cold) → IsHeld c.replicas → IsHeld (transfer digest host c).1.replicas
unfolding transfer
transfer-IsHeld digest host c held = elim (Result-cases (require_object digest c)) [
  | inl (tip, e) ↦ rw (transfer, e) (place_on-IsHeld tip host _ c held)
  | inr (code, e) ↦ rw (transfer, e) held
]

-- Four tests before a value: where the value comes back, the middle two were passed.
four_tests :
    {A : Type 0} (k1 k2 k3 k4 : Code) (v w : A) (a b c d : Bool)
    → (refuse_if a k1 >> refuse_if b k2 >> refuse_if c k3 >> refuse_if d k4 >> ok v) ≡ ok w
    → ((b || c) ≡ false) × (v ≡ w)
four_tests k1 k2 k3 k4 v w true b c d e = cc
four_tests k1 k2 k3 k4 v w false true c d e = cc
four_tests k1 k2 k3 k4 v w false false true d e = cc
four_tests k1 k2 k3 k4 v w false false false true e = cc
four_tests k1 k2 k3 k4 v w false false false false e = (refl, cc)

abbrev conceals : Text → Bool
conceals lowered =
    (stands_in (codes "vpn") lowered || stands_in (codes "conceal") lowered)
    || stands_in (codes "hydra") lowered

-- A host name that is accepted speaks of no VPN, no concealment and no hydra.
pub named_host-clean :
    (name host : Text) → named_host name ≡ ok host → conceals (lower host) ≡ false
unfolding named_host
named_host-clean name host e =
    let (clean, same) =
      four_tests named_hosts no_vpn named_hosts named_hosts (strip name) host _ _ _ _ e in
    subst (λ h. conceals (lower h) ≡ false) same clean

-- The calls that change the vault.
pub data Call : Type 0 where
  do_store : (raw : List ℕ) (host : Text) → Call
  do_transfer : (digest host : Text) → Call
  do_pin : (digest kind : Text) → Call
  do_pull : Call

unfoldable pub perform : Hash → Call → Cold → Cold
perform h (do_store raw host) c = (store h raw host c).1
perform h (do_transfer digest host) c = (transfer digest host c).1
perform h (do_pin digest kind) c = (pin_public digest kind c).1
perform h do_pull c = pull_origin c

unfoldable pub run_all : Hash → List Call → Cold → Cold
run_all h [] c = c
run_all h (call ∷ calls) c = run_all h calls (perform h call c)

write_leaf-replicas :
    (h : Hash) (raw : List ℕ) (c : Cold) → (write_leaf h raw c).replicas ≡ c.replicas
unfolding write_leaf
write_leaf-replicas h raw c = ground arith

pin_public-replicas :
    (digest kind : Text) (c : Cold) → (pin_public digest kind c).1.replicas ≡ c.replicas
unfolding pin_public
pin_public-replicas digest kind c = ground arith

perform-IsHeld :
    (h : Hash) (call : Call) (c : Cold) → IsHeld c.replicas → IsHeld (perform h call c).replicas
unfolding perform store pull_origin
perform-IsHeld h (do_store raw host) c held =
    place_on-IsHeld (h.sha256_hex raw) host _ (write_leaf h raw c)
      (subst IsHeld (sym (write_leaf-replicas h raw c)) held)
perform-IsHeld h (do_transfer digest host) c held = transfer-IsHeld digest host c held
perform-IsHeld h (do_pin digest kind) c held =
    subst IsHeld (sym (pin_public-replicas digest kind c)) held
perform-IsHeld h do_pull c held = held

-- Whatever is called on the vault, in whatever order, a tip that has a replica has one on a host that
-- is no tunnel, where that held at the start.
pub run_all-IsHeld :
    (h : Hash) (calls : List Call) (c : Cold)
    → IsHeld c.replicas
    → IsHeld (run_all h calls c).replicas
unfolding run_all
run_all-IsHeld h [] c held = held
run_all-IsHeld h (call ∷ calls) c held =
    run_all-IsHeld h calls (perform h call c) (perform-IsHeld h call c held)
