-- ===== src/Pairs/Ledger.antt =====
-- qnm/memorial.py and qnm/pairs.py: the ledger of living binds.
use qnm_node.Base.{
  ◌≡◌, refl, Bool, false, not, none, some, List, [], ◌∷◌, ◌++◌, arith, ◌==◌, list_eq, nat_eq,
  list_beq_iff, list_beq_refl, Text, length, ok, refuse, if◌then◌else◌, is_some, any, keep, find,
}
use qnm_node.Base.{
  lower, pair_cut, find-append, any-append, split_off-kept, split_off-removed, any-keep-not,
}
use qnm_node.Digest.{Hash}
use qnm_node.Pairs.{
  seal_row, Handshake, Bind, Pairs, text, compute_pair_id, get_bind, remember_pair, forget_pair,
  forget_all_pairs, seal, store_bind, cut, cut_all, has_edge,
}
use qnm_node.Pairs.Identity.{seal-pair_id}

-- The rows with another pair_id.
abbrev pub others : Text → List Bind → List Bind
others id rows = keep (λ b. not (b.pair_id == id)) rows

abbrev pub holds : Text → List Bind → Bool
holds id rows = any (λ b. b.pair_id == id) rows

-- No two rows have one pair_id.
abbrev pub IsUnique : List Bind → Type 0
IsUnique [] = Unit
IsUnique (b ∷ rows) = (holds b.pair_id rows ≡ false) × IsUnique rows

-- Cutting a bind that is held leaves exactly the other rows, in order, and answers with their number;
-- cutting one that is not held is refused and changes nothing.
pub cut_lem :
    (id : Text) (p : Pairs)
    → cut id p ≡ (
        if holds id p.memorial
        then (ok (length (others id p.memorial)), record p { memorial = others id p.memorial })
        else (refuse pair_cut, p))
unfolding cut forget_pair
cut_lem id p = ground (
  arith,
  split_off-kept (λ b. b.pair_id == id) p.memorial,
  split_off-removed (λ b. b.pair_id == id) p.memorial,
)

get_bind-holds : (rows : List Bind) (id : Text) → is_some (get_bind rows id) ≡ holds id rows
unfolding get_bind find any
get_bind-holds [] id = refl
get_bind-holds (b ∷ rows) id = ground (arith, get_bind-holds rows id)

-- After a cut, granted or refused, the bind is gone.
pub get_bind-cut : (id : Text) (p : Pairs) → get_bind (cut id p).1.memorial id ≡ none
get_bind-cut id p = rw cut_lem (
    ground (
      arith,
      get_bind-holds p.memorial id,
      get_bind-holds (others id p.memorial) id,
      any-keep-not (λ (b : Bind). b.pair_id == id) p.memorial,
    ))

holds_comm : (b c : Bind) → (c.pair_id == b.pair_id) ≡ (b.pair_id == c.pair_id)
holds_comm b c = ground (arith, list_beq_iff c.pair_id b.pair_id, list_beq_iff b.pair_id c.pair_id)

IsUnique-append :
    (rows : List Bind) (b : Bind)
    → IsUnique rows
    → holds b.pair_id rows ≡ false
    → IsUnique (rows ++ b ∷ [])
unfolding any
IsUnique-append [] b u h = (refl, tt)
IsUnique-append (c ∷ rows) b u h = ground (
  arith,
  holds_comm c b,
  any-append (λ (r : Bind). r.pair_id == c.pair_id) rows (b ∷ []),
  IsUnique-append rows b u.1,
)

-- Remembering a bind keeps the memorial free of doubles, whether it is new, known or refused.
pub remember_pair-IsUnique :
    (b : Bind) (rows : List Bind) → IsUnique rows → IsUnique (remember_pair b rows).1
unfolding remember_pair
remember_pair-IsUnique b rows u =
    ground (arith, get_bind-holds rows b.pair_id, IsUnique-append rows b u)

-- Sealing keeps the memorial free of doubles.
pub seal-IsUnique :
    (h : Hash) (now : Text) (hs : Handshake) (me via : Text) (p : Pairs)
    → IsUnique p.memorial
    → IsUnique (seal h now hs me via p).1.memorial
unfolding seal store_bind
seal-IsUnique h now hs me via p u = grind (arith, remember_pair-IsUnique)

remembered :
    (b : Bind) (rows : List Bind) (row : Bind)
    → (remember_pair b rows).0 ≡ ok row
    → get_bind (remember_pair b rows).1 b.pair_id ≡ some row
unfolding remember_pair get_bind find
remembered b rows row e = ground (
  arith,
  find-append (λ (c : Bind). c.pair_id == b.pair_id) rows (b ∷ []),
  list_beq_refl b.pair_id,
)

stored :
    (now via id peer : Text) (hs : Handshake) (p : Pairs) (row : Bind)
    → (store_bind (seal_row now via id peer hs) p).0 ≡ ok row
    → get_bind (store_bind (seal_row now via id peer hs) p).1.memorial id ≡ some row
unfolding store_bind seal_row
stored now via id peer hs p row e = remembered (seal_row now via id peer hs) p.memorial row e

-- A bind whose seal was granted is what the memorial holds under its pair_id.
pub get_bind-seal :
    (h : Hash) (now : Text) (hs : Handshake) (me via : Text) (p : Pairs) (row : Bind) (id : Text)
    → (seal h now hs me via p).0 ≡ ok row
    → compute_pair_id h (lower hs.root_a) (lower hs.root_b) (text hs.nonce_a) (text hs.nonce_b)
      ≡ ok id
    → get_bind (seal h now hs me via p).1.memorial id ≡ some row
unfolding seal
get_bind-seal h now hs me via p row id e f = grind (arith, stored)

-- A seal that may go ahead, on a memorial that holds the bind, answers with it and writes nothing.
seal_known :
    (h : Hash) (now now' : Text) (hs : Handshake) (me via via' : Text) (p q : Pairs) (row : Bind)
    (id : Text)
    → (seal h now hs me via p).0 ≡ ok row
    → compute_pair_id h (lower hs.root_a) (lower hs.root_b) (text hs.nonce_a) (text hs.nonce_b)
      ≡ ok id
    → get_bind q.memorial id ≡ some row
    → seal h now' hs me via' q ≡ (ok row, q)
unfolding seal
seal_known h now now' hs me via via' p q row id e f g = ground arith

-- Sealing the same handshake again, at another time and over another bearer, answers with the row of
-- the first seal and writes nothing.
pub seal-seal :
    (h : Hash) (now now' : Text) (hs : Handshake) (me via via' : Text) (p : Pairs) (row : Bind)
    → (seal h now hs me via p).0 ≡ ok row
    → seal h now' hs me via' (seal h now hs me via p).1 ≡ (ok row, (seal h now hs me via p).1)
seal-seal h now now' hs me via via' p row e =
    let f = seal-pair_id h now hs me via p row e in
    seal_known h now now' hs me via via' p (seal h now hs me via p).1 row row.pair_id e f
      (get_bind-seal h now hs me via p row row.pair_id e f)

-- After `cut_all` no root has an edge.
pub has_edge-cut_all : (p : Pairs) (root : Text) → has_edge (cut_all p).1 root ≡ false
unfolding has_edge cut_all forget_all_pairs any
has_edge-cut_all p root = refl
