-- ===== src/Walker.antt =====
-- qnsd/walker.py with qnsd/translate.py: a photon walks the via stack. What an adapter finds and what
-- its emission reports are parameters of a walk, as are the payload scan of qnsd/sanitize.py and the
-- hash of qnsd/photon.py. A photon is carried without its pair, payload and time.
pub mod Stack
use qnm_node.Base.{
  ℕ, zero, suc, ◌+◌, ◌-◌, ◌*◌, ◌/◌, ◌%◌, ◌^◌, ◌>>=◌, ◌>>◌, refuse_if, ◌≤◌, ◌<◌, ◌≡◌, refl, sym, ap,
  ◌∙◌, ◌≢◌, ◌↔◌, ◌⊎◌, inl, inr, Bool, true, false, ◌&&◌, ◌||◌, not, Option, none, some, List, [],
  ◌∷◌, ◌++◌, map, arith, ltb, leb, nat_beq, nat_beq_iff, ◌==◌, Eq, list_eq, nat_eq, list_beq,
  list_beq_iff, list_beq_refl, beq_refl, beq-false, Text, Bool-cases, Option-cases, Result-cases,
  codes, length, length-append, Result, ok, refuse, Code, is_ok, Act, is_empty, if◌then◌else◌, Dict,
  get, put, get-put, get-put_self, is_some, contains, add, contains-add, contains-append, any, all,
  keep, find,
}
use qnm_node.Base.{photon_refused, qns_pair_cut, qns_no_emit, or_else}

pub record Photon : Type 0 where
  pub magic : Text
  pub ver : Text
  pub photon_id : Text
  pub src : Text
  pub dst : Text
  pub via : Text
  pub via_in : Text
  pub via_out : Text
  pub translate : Bool
  pub hop : ℕ
  pub hop_max : Option ℕ
  pub seen : List Text

abbrev pub hop_max_default : ℕ
hop_max_default = 8

abbrev pub via_order : List Text
via_order =
    codes "lan"
    ∷ codes "wifi"
    ∷ codes "plc"
    ∷ codes "bt"
    ∷ codes "rf"
    ∷ codes "gps"
    ∷ codes "nfc"
    ∷ codes "light"
    ∷ codes "qns"
    ∷ codes "operator"
    ∷ codes "local"
    ∷ []

-- The policy: `force_via`, if it is set, and `hop_max`
pub record Policy : Type 0 where
  pub force_via : Option Text
  pub hop_max : ℕ

-- What an emission reports: it went out, it was a probe, or one of the kinds after which the walk
-- goes on (PERM, FAIL, ABSENT, HOOK-PENDING, REFUSED).
pub data Kind : Type 0 where
  went_out was_probe did_not : Kind

-- The adapters as they are during a walk, the scan of the payload, and `photon_id(body)`.
pub record World : Type 0 where
  pub is_absent : Text → Bool
  pub emit : Photon → Text → Kind
  pub sanitize : Photon → Result (Unit {0})
  pub photon_hash : Photon → Text
  -- `str(hop)`
  pub print : ℕ → Text

-- How a walk ends.
pub data Outcome : Type 0 where
  emitted : Text → Photon → Outcome
  probed waiting : Text → Outcome
  hop_drop loop_drop : Outcome

-- `ViaStack.classes(state, policy)`
unfoldable pub classes : Text → Policy → List Text
classes state pol =
    if state == codes "COLD"
    then codes "local" ∷ []
    else if state == codes "ISOLATED" || state == codes "PHOENIX_LOCK" || state == codes "SCORCHED"
    then []
    else elim pol.force_via [ some via ↦ via ∷ [] | none ↦ via_order ]

abbrev or_default : Option ℕ → ℕ
or_default none = hop_max_default
or_default (some n) = if nat_beq n 0 then hop_max_default else n

-- `translate.apply(photon, via_in, via_out)`
unfoldable pub translate_apply : World → Photon → Text → Text → Result Photon
translate_apply world p from to = do
  let prior : Text = or_else p.photon_id (world.photon_hash p)
  refuse_if (not (p.magic == codes "QNS1")) photon_refused
  refuse_if (not (p.ver == codes "1.3")) photon_refused
  ok (record p {
    photon_id = prior;
    via = to;
    via_in = from;
    via_out = to;
    translate = not (from == to);
    hop_max = some (or_default p.hop_max);
  })

-- `order[order.index(start_at):]`
unfoldable pub start_from : Text → List Text → List Text
start_from name [] = []
start_from name (v ∷ vs) = if v == name then v ∷ vs else start_from name vs

unfoldable pub order_of : Text → Policy → Option Text → List Text
unfolding classes start_from
order_of state pol none = classes state pol
order_of state pol (some name) =
    if contains (classes state pol) name
    then start_from name (classes state pol)
    else classes state pol

-- `photon_id or me`
unfoldable pub token_of : World → Photon → Text
token_of world p = or_else p.photon_id (p.src ++ codes ":" ++ world.print p.hop)

-- The photon that an emission over `name` leaves with.
unfoldable pub leave : World → Photon → Text → Text → Result Outcome
unfolding translate_apply token_of
leave world p via_from name = do
  out ← translate_apply world p (or_else via_from name) name
  ok (
      emitted name
        (record out { hop = p.hop + 1; seen = p.seen ++ token_of world p ∷ []; via = name }))

-- The loop of `walk`: `last` is the class that was tried last.
unfoldable pub walk_on : World → Bool → Photon → Text → Text → List Text → Result Outcome
unfolding leave
walk_on world restricted p via_from last [] = ok (waiting last)
walk_on world restricted p via_from last (name ∷ order) =
    let rest = walk_on world restricted p via_from name order in
    let pass = if restricted then ok (waiting name) else rest in
    if world.is_absent name then pass else elim (world.emit p name) [
      | went_out ↦ leave world p via_from name
      | was_probe ↦ ok (probed name)
      | did_not ↦ pass
    ]

abbrev limit : Photon → Policy → ℕ
limit p pol = elim p.hop_max [ some n ↦ n | none ↦ pol.hop_max ]

-- The tests for a loop.
unfoldable pub is_loop : World → Photon → Bool
unfolding token_of
is_loop world p =
    contains p.seen (token_of world p)
    || not (is_empty p.dst) && contains p.seen p.dst && ltb 0 p.hop
    || contains p.seen (p.via ++ codes ":" ++ world.print p.hop) && not (is_empty p.via)

abbrev no_classes : List Text → Bool
no_classes [] = true
no_classes (v ∷ vs) = false

-- `ViaStack.walk(photon, ctx, policy, via_in, pairs_living, start_at)`
unfoldable pub walk : World → Text → Policy → Text → Bool → Option Text → Photon → Result Outcome
unfolding order_of is_loop walk_on
walk world state pol via_in living start p = do
  world.sanitize p
  refuse_if (not living) qns_pair_cut
  if leb (limit p pol) p.hop
      then ok hop_drop
      else if is_loop world p
      then ok loop_drop
      else refuse_if (no_classes (order_of state pol start)) qns_no_emit
        >> walk_on world (is_some pol.force_via) p (or_else via_in (or_else p.via_in p.via))
            (codes "local") (order_of state pol start)
