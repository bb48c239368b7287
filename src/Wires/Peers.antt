-- ===== src/Wires/Peers.antt =====
-- qnm/wires.py: what the node remembers of its peers. A peer that is found to equivocate
-- ends, and stays ended; not every equivocation is found.
use qnm_node.Base.{
  ◌≡◌, refl, ap, ◌∙◌, ◌≢◌, Bool, true, false, ◌&&◌, not, some, List, [], ◌∷◌, arith, ◌==◌, list_eq,
  nat_eq, list_beq_iff, list_beq_refl, Text, ok, refuse, if◌then◌else◌, get-put, contains, add,
  contains-add,
}
use qnm_node.Base.{equivocation}
use qnm_node.Digest.{canonical_hash}
use qnm_node.Wires.{
  Wires, PeerView, live, locked, is_ended, new_view, no_tips, is_prev, peer_name, view_of,
  with_view, note_peer_tip, isolate_ambiguous, heartbeat_miss, apply_last_on_heartbeat_loss,
}

-- A view that is written is read back, and no other view changes.
view_of-with_view :
    (w : Wires) (p q : Text) (view : PeerView)
    → view_of (with_view w p view) q ≡ (if peer_name p == peer_name q then view else view_of w q)
unfolding view_of with_view
view_of-with_view w p q view = ground (arith, get-put w.peers (peer_name p) (peer_name q) view)

abbrev pub has_ended : Wires → Text → Bool
has_ended w q = is_ended (view_of w q).status

view_of_eq : (w : Wires) (p q : Text) → peer_name p ≡ peer_name q → view_of w p ≡ view_of w q
unfolding view_of
view_of_eq w p q e = rw (e, view_of) refl

-- Writing a view that has ended if the old one had keeps every ended peer ended.
with_view-ended :
    (w : Wires) (p q : Text) (view : PeerView)
    → (has_ended w p ≡ true → is_ended view.status ≡ true)
    → has_ended w q ≡ true
    → has_ended (with_view w p view) q ≡ true
with_view-ended w p q view keeps h = ground (
  arith,
  view_of-with_view w p q view,
  list_beq_iff (peer_name p) (peer_name q),
  view_of_eq w p q,
)

note-ended :
    (p prev tip q : Text) (w : Wires)
    → has_ended w q ≡ true
    → has_ended (note_peer_tip p prev tip w).1 q ≡ true
unfolding note_peer_tip
note-ended p prev tip q w h = grind (arith, with_view-ended)

isolate-ended :
    (p q : Text) (tips : List Text) (w : Wires)
    → has_ended w q ≡ true
    → has_ended (isolate_ambiguous p tips w).1 q ≡ true
unfolding isolate_ambiguous
isolate-ended p q tips w h = grind (arith, with_view-ended)

heartbeat-ended :
    (p q : Text) (w : Wires) → has_ended w q ≡ true → has_ended (heartbeat_miss p w).1 q ≡ true
unfolding heartbeat_miss
heartbeat-ended p q w h = grind (arith, with_view-ended)

last-ended :
    (p q : Text) (w : Wires)
    → has_ended w q ≡ true
    → has_ended (apply_last_on_heartbeat_loss p w).1 q ≡ true
unfolding apply_last_on_heartbeat_loss
last-ended p q w h = with_view-ended w p q (view_of w p) (λ e. e) h

-- No operation on any peer revives a peer that was isolated or locked.
pub ended_stays :
    (p q prev tip : Text) (tips : List Text) (w : Wires)
    → has_ended w q ≡ true
    → (has_ended (note_peer_tip p prev tip w).1 q ≡ true)
      × (has_ended (isolate_ambiguous p tips w).1 q ≡ true)
      × (has_ended (heartbeat_miss p w).1 q ≡ true)
      × (has_ended (apply_last_on_heartbeat_loss p w).1 q ≡ true)
ended_stays p q prev tip tips w h = (
  note-ended p prev tip q w h,
  isolate-ended p q tips w h,
  heartbeat-ended p q w h,
  last-ended p q w h,
)

-- The view that `note_peer_tip` writes for a peer that has not ended, given canonical hashes.
noted : PeerView → Text → Text → PeerView
noted view d t =
    if is_prev view.prev d && not (no_tips view.tips) && not (contains view.tips t)
    then record view { status = locked; tips = add view.tips t }
    else record view { prev = some d; tips = add view.tips t }

note_lem :
    (p prev tip d t : Text) (w : Wires)
    → canonical_hash prev ≡ ok d
    → canonical_hash tip ≡ ok t
    → note_peer_tip p prev tip w ≡ (
        if has_ended w p
        then (refuse equivocation, with_view w p (view_of w p))
        else (ok (noted (view_of w p) d t).status, with_view w p (noted (view_of w p) d t)))
unfolding note_peer_tip noted
note_lem p prev tip d t w e f = ground arith

view_of-note :
    (p prev tip d t : Text) (w : Wires)
    → canonical_hash prev ≡ ok d
    → canonical_hash tip ≡ ok t
    → has_ended w p ≡ false
    → view_of (note_peer_tip p prev tip w).1 p ≡ noted (view_of w p) d t
view_of-note p prev tip d t w e f g = ground (
  arith,
  note_lem p prev tip d t w e f,
  view_of-with_view w p p (noted (view_of w p) d t),
  list_beq_refl (peer_name p),
)

no_tips-add : (ts : List Text) (t : Text) → no_tips (add ts t) ≡ false
unfolding add contains
no_tips-add [] t = refl
no_tips-add (u ∷ ts) t = ground arith

noted_twice :
    (view : PeerView) (d t u : Text)
    → (noted view d t).status ≡ live
    → t ≢ u
    → contains view.tips u ≡ false
    → (noted (noted view d t) d u).status ≡ locked
unfolding noted
noted_twice view d t u e ne new =
    ground (
      arith,
      list_beq_refl d,
      no_tips-add view.tips t,
      contains-add view.tips t u,
      list_beq_iff t u,
    )

noted_prev :
    (view : PeerView) (d t : Text)
    → is_prev view.prev d ≡ false
    → noted view d t ≡ record view { prev = some d; tips = add view.tips t }
unfolding noted
noted_prev view d t e = ground arith

-- A live peer that names two tips over one prev, one after the other, the second new, is locked, and
-- from then on whatever canonical hashes it names it is refused.
pub equivocation_ends :
    (p prev t u d t' u' later tip r s : Text) (w : Wires)
    → canonical_hash prev ≡ ok d
    → canonical_hash t ≡ ok t'
    → canonical_hash u ≡ ok u'
    → (note_peer_tip p prev t w).0 ≡ ok live
    → t' ≢ u'
    → contains (view_of w p).tips u' ≡ false
    → canonical_hash later ≡ ok r
    → canonical_hash tip ≡ ok s
    → ((note_peer_tip p prev u (note_peer_tip p prev t w).1).0 ≡ ok locked)
      × ((note_peer_tip p later tip (note_peer_tip p prev u (note_peer_tip p prev t w).1).1).0
          ≡ refuse equivocation)
equivocation_ends p prev t u d t' u' later tip r s w ep et eu first ne new el es =
    let w1 = (note_peer_tip p prev t w).1 in
    let w2 = (note_peer_tip p prev u w1).1 in
    let start : has_ended w p ≡ false = ground (arith, note_lem p prev t d t' w ep et) in
    let seen : view_of w1 p ≡ noted (view_of w p) d t' = view_of-note p prev t d t' w ep et start in
    let alive : (noted (view_of w p) d t').status ≡ live =
      ground (arith, note_lem p prev t d t' w ep et) in
    let caught : (noted (view_of w1 p) d u').status ≡ locked =
      rw seen (noted_twice (view_of w p) d t' u' alive ne new) in
    let still : has_ended w1 p ≡ false = ground (arith, alive) in
    (
      ground (arith, note_lem p prev u d u' w1 ep eu),
      ground (arith, note_lem p later tip r s w2 el es, view_of-note p prev u d u' w1 ep eu still),
    )

-- Equivocation is seen only against the last prev: a peer that names another prev in between may name
-- two tips over one prev and stay live.
pub equivocation_missed :
    (p a b t u v da db t' u' v' : Text) (w : Wires)
    → canonical_hash a ≡ ok da
    → canonical_hash b ≡ ok db
    → canonical_hash t ≡ ok t'
    → canonical_hash u ≡ ok u'
    → canonical_hash v ≡ ok v'
    → view_of w p ≡ new_view
    → da ≢ db
    → (view_of (note_peer_tip p a v (note_peer_tip p b u (note_peer_tip p a t w).1).1).1 p).status
      ≡ live
equivocation_missed p a b t u v da db t' u' v' w ea eb et eu ev fresh ne =
    let w1 = (note_peer_tip p a t w).1 in
    let w2 = (note_peer_tip p b u w1).1 in
    let start : has_ended w p ≡ false = ground arith in
    let v1 : view_of w1 p ≡ record new_view { prev = some da; tips = add [] t' } =
      view_of-note p a t da t' w ea et start ∙ rw fresh (noted_prev new_view da t' refl) in
    let v2 : view_of w2 p ≡ record new_view { prev = some db; tips = add (add [] t') u' } =
      view_of-note p b u db u' w1 eb eu (ground arith)
      ∙ rw v1 (noted_prev _ db u' (ground (arith, list_beq_iff da db))) in
    let v3 : view_of (note_peer_tip p a v w2).1 p
        ≡ record new_view { prev = some da; tips = add (add (add [] t') u') v' } =
      view_of-note p a v da v' w2 ea ev (ground arith)
      ∙ rw v2 (noted_prev _ da v' (ground (arith, list_beq_iff db da))) in
    ap (λ (view : PeerView). view.status) v3
