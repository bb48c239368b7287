-- ===== src/Tethers.antt =====
-- qnm/tethers.py: declared corridors between two names, one JSON row for each.
use qnm_node.Base.{
  ℕ, ◌≡◌, Bool, false, ◌&&◌, ◌||◌, not, Option, none, some, List, [], ◌∷◌, ◌++◌, arith, ◌==◌,
  list_eq, nat_eq, list_beq_iff, list_beq_refl, Text, codes, length, Result, ok, refuse, Act,
  is_empty, if◌then◌else◌, any, keep,
}
use qnm_node.Base.{
  tether_clean, split_off, split_off-kept, split_off-removed, keep-append_new, any-keep-not,
  any-append, any-of-keep,
}
use qnm_node.Base.{no_neighbor}
use qnm_node.Digest.{Hash}

pub record Tether : Type 0 where
  pub id : Text
  pub src : Text
  pub dst : Text
  pub utc : Text

-- The rows of `declared.jsonl`.
abbrev pub Tethers : Type 0
Tethers = List Tether

-- `item.get("src") == src and item.get("dst") == dst`
abbrev pub joins : Text → Text → Tether → Bool
joins src dst t = t.src == src && t.dst == dst

-- `declare(src, dst)`; the clock is read once for the id and once for the row.
unfoldable pub declare : Hash → Text → Text → Text → Text → Act Tethers Tether
declare h src dst now now' ts =
    if is_empty src || is_empty dst || src == dst
    then (refuse tether_clean, ts)
    else if any (joins src dst) ts
    then (refuse tether_clean, ts)
    else let item : Tether = record {
      id = h.sha256_hex (src ++ codes "|" ++ dst ++ codes "|" ++ now);
      src = src;
      dst = dst;
      utc = now';
    } in
      (ok item, ts ++ item ∷ [])

abbrev settle : Text → Text → Tethers → List Tether × Option Tether → Result ℕ × Tethers
settle src dst ts (kept, none) = (refuse tether_clean, ts)
settle src dst ts (kept, some removed) =
    if any (joins src dst) kept then (refuse tether_clean, kept) else (ok (length kept), kept)

-- `cut(src, dst)`, which returns how many tethers remain
unfoldable pub cut : Text → Text → Act Tethers ℕ
cut src dst ts = settle src dst ts (split_off (joins src dst) ts)

-- `drop_all()`, which returns how many tethers were cut
unfoldable pub drop_all : Act Tethers ℕ
drop_all ts = (ok (length ts), [])

-- `clear()`
unfoldable pub clear : Tethers → Tethers
clear ts = []

-- `neighbor_rewire(...)`
unfoldable pub neighbor_rewire : Act Tethers Unit
neighbor_rewire ts = (refuse no_neighbor, ts)

-- No tether joins a name to itself or to an empty name, and no two join the same names in the same
-- direction.
abbrev pub IsClean : Tethers → Type 0
IsClean [] = Unit
IsClean (t ∷ ts) =
    (is_empty t.src ≡ false)
    × (is_empty t.dst ≡ false)
    × ((t.src == t.dst) ≡ false)
    × (any (joins t.src t.dst) ts ≡ false)
    × IsClean ts

-- Cutting: with such a tether, exactly the others remain, in order, and their number is returned;
-- without one, the cut is refused and nothing changes. The residue check never fires.
pub cut_lem :
    (src dst : Text) (ts : Tethers)
    → cut src dst ts ≡ (
        if any (joins src dst) ts
        then (
          ok (length (keep (λ t. not (joins src dst t)) ts)),
          keep (λ t. not (joins src dst t)) ts,
        )
        else (refuse tether_clean, ts))
unfolding cut
cut_lem src dst ts = ground (
  arith,
  split_off-kept (joins src dst) ts,
  split_off-removed (joins src dst) ts,
  any-keep-not (joins src dst) ts,
)

-- A tether that was just declared is cut again without residue: the rows are those of before.
pub cut-declare :
    (h : Hash) (src dst now now' : Text) (ts : Tethers) (t : Tether)
    → (declare h src dst now now' ts).0 ≡ ok t
    → cut src dst (declare h src dst now now' ts).1 ≡ (ok (length ts), ts)
unfolding declare any
cut-declare h src dst now now' ts t e = rw cut_lem (
    ground (
      arith,
      list_beq_refl src,
      list_beq_refl dst,
      any-append (joins src dst) ts (t ∷ []),
      keep-append_new (joins src dst) ts t,
    ))

joins_comm : (t u : Tether) → joins t.src t.dst u ≡ joins u.src u.dst t
joins_comm t u = ground (
  arith,
  list_beq_iff t.src u.src,
  list_beq_iff u.src t.src,
  list_beq_iff t.dst u.dst,
  list_beq_iff u.dst t.dst,
)

IsClean-append :
    (ts : Tethers) (t : Tether)
    → IsClean ts
    → IsClean (t ∷ [])
    → any (joins t.src t.dst) ts ≡ false
    → IsClean (ts ++ t ∷ [])
unfolding any
IsClean-append [] t c d h = d
IsClean-append (u ∷ ts) t c d h =
    ground
      (arith, joins_comm t u, any-append (joins u.src u.dst) ts (t ∷ []), IsClean-append ts t c.4 d)

IsClean-keep : (p : Tether → Bool) (ts : Tethers) → IsClean ts → IsClean (keep p ts)
unfolding keep
IsClean-keep p [] c = tt
IsClean-keep p (t ∷ ts) c =
    ground (arith, IsClean-keep p ts c.4, any-of-keep (joins t.src t.dst) p ts c.3)

-- Declaring, granted or refused, keeps the tethers clean: none joins a name to itself or to an empty
-- name, and no two join the same names in the same direction.
pub declare-IsClean :
    (h : Hash) (src dst now now' : Text) (ts : Tethers)
    → IsClean ts
    → IsClean (declare h src dst now now' ts).1
unfolding declare any
declare-IsClean h src dst now now' ts c = ground (
  arith,
  IsClean-append ts
      (record {
        id = h.sha256_hex (src ++ codes "|" ++ dst ++ codes "|" ++ now);
        src = src;
        dst = dst;
        utc = now';
      })
      c,
)

-- Cutting, granted or refused, keeps the tethers clean.
pub cut-IsClean : (src dst : Text) (ts : Tethers) → IsClean ts → IsClean (cut src dst ts).1
cut-IsClean src dst ts c =
    rw cut_lem (ground (arith, IsClean-keep (λ t. not (joins src dst t)) ts c))
