-- ===== src/Retries.antt =====
-- qnsd/lan/queue.py: the durable queue of the LAN daemon. Moments are whole seconds; a time that is
-- missing or does not parse is `none`. The jitter is the random number in millionths.
use qnm_node.Base.{
  ℕ, ◌+◌, ◌-◌, ◌*◌, ◌/◌, ◌^◌, ◌≤◌, ◌<◌, ◌≡◌, refl, inl, inr, Bool, true, false, ◌&&◌, ◌||◌, not,
  Option, none, some, List, [], ◌∷◌, ◌++◌, arith, ltb, leb, ◌==◌, list_eq, nat_eq, list_beq, Text,
  Option-cases, codes, ok, refuse, Act, if◌then◌else◌, is_some, any, all, find,
}
use native.Mathlib.Nat.{mul-le-mul_right, pow-le-pow_right}
use qnm_node.Base.{lan_quota}

pub record Item : Type 0 where
  pub packet_id : Text
  pub expiry : Option ℕ
  pub next_attempt : Option ℕ
  pub attempts : ℕ
  pub state : Text
  pub last_outcome : Text
  pub last_code : Text
  pub nbytes : ℕ

abbrev pub max_queue_items : ℕ
max_queue_items = 64

abbrev pub max_queue_bytes : ℕ
max_queue_bytes = 1048576

abbrev pub retry_budget : ℕ
retry_budget = 8

abbrev pub retry_cap_s : ℕ
retry_cap_s = 60

abbrev pub is_active : Item → Bool
is_active i = i.state == codes "queued" || i.state == codes "waiting"

-- `sum(int(row.get("nbytes") or 0) for row in active)`
unfoldable pub weight : List Item → ℕ
weight [] = 0
weight (i ∷ items) = (if is_active i then i.nbytes else 0) + weight items

-- `len(active)`
unfoldable pub load : List Item → ℕ
load [] = 0
load (i ∷ items) = (if is_active i then 1 else 0) + load items

-- `get(packet_id)`
unfoldable pub get_item : Text → List Item → Option Item
get_item packet_id items = find (λ i. i.packet_id == packet_id && is_active i) items

-- `append(item)`
unfoldable pub append : Item → Act (List Item) Item
unfolding weight load
append item items =
    if leb max_queue_items (load items) || ltb max_queue_bytes (weight items + item.nbytes)
    then (refuse lan_quota, items)
    else (ok item, items ++ item ∷ [])

abbrev pub is_past : ℕ → Option ℕ → Bool
is_past moment none = false
is_past moment (some t) = ltb t moment

abbrev pub is_due : ℕ → Option ℕ → Bool
is_due moment none = true
is_due moment (some t) = leb t moment

abbrev expired : Item → Item
expired i = record i {
  state = codes "expired";
  last_outcome = codes "permanent";
  last_code = codes "QNS-LAN-EXPIRED";
}

-- One round of the loop of `ready`: the row as it is left, and whether it is due.
unfoldable pub visit : ℕ → Item → Item × Bool
visit moment i =
    if not (is_active i) || not (is_some i.expiry)
    then (i, false)
    else if is_past moment i.expiry
    then (expired i, false)
    else (i, is_due moment i.next_attempt)

-- `ready(now)`: the rows that are due, and the rows as they are left
unfoldable pub ready : ℕ → List Item → List Item × List Item
unfolding visit
ready moment [] = ([], [])
ready moment (i ∷ items) =
    let (due, after) = ready moment items in
    let (left, now) = visit moment i in ((if now then left ∷ due else due), left ∷ after)

-- `mark(packet_id, state, outcome, code)`
unfoldable pub mark : Text → Text → Text → Text → List Item → List Item
mark packet_id state outcome code [] = []
mark packet_id state outcome code (i ∷ items) =
    (if i.packet_id == packet_id
      then record i { state = state; last_outcome = outcome; last_code = code }
      else i)
    ∷ mark packet_id state outcome code items

pub data Verdict : Type 0 where
  retry spent missing : Verdict

abbrev least : ℕ → ℕ → ℕ
least a b = if leb a b then a else b

-- `min(RETRY_CAP_S, RETRY_BASE_S * (2 ** (attempts - 1))) * (0.5 + random / 2)`, in microseconds
unfoldable pub delay : ℕ → ℕ → ℕ
delay attempts jitter = least retry_cap_s (2 ^ (attempts - 1)) * (500000 + jitter / 2)

-- What `schedule_retry` makes of the row; `now` is in microseconds.
unfoldable pub try_again : ℕ → ℕ → Item → Verdict × Item
unfolding delay
try_again now jitter i =
    if leb retry_budget (i.attempts + 1)
    then (
      spent,
      record i {
        attempts = i.attempts + 1;
        state = codes "refused";
        last_outcome = codes "permanent";
        last_code = codes "QNS-LAN-RETRY";
      },
    )
    else (
      retry,
      record i {
        attempts = i.attempts + 1;
        state = codes "waiting";
        next_attempt = some ((now + delay (i.attempts + 1) jitter) / 1000000);
        last_outcome = codes "temporary";
      },
    )

-- `schedule_retry(packet_id)`
unfoldable pub schedule_retry : ℕ → ℕ → Text → List Item → Verdict × List Item
unfolding try_again
schedule_retry now jitter packet_id [] = (missing, [])
schedule_retry now jitter packet_id (i ∷ items) =
    let (verdict, rest) = schedule_retry now jitter packet_id items in
    let (own, changed) = try_again now jitter i in
    if i.packet_id == packet_id then (own, changed ∷ items) else (verdict, i ∷ rest)

weight-append : (xs ys : List Item) → weight (xs ++ ys) ≡ weight xs + weight ys
unfolding weight
weight-append [] ys = omega arith
weight-append (x ∷ xs) ys = ground (arith, weight-append xs ys)

load-append : (xs ys : List Item) → load (xs ++ ys) ≡ load xs + load ys
unfolding load
load-append [] ys = omega arith
load-append (x ∷ xs) ys = ground (arith, load-append xs ys)

one : (item : Item) → (load (item ∷ []) ≤ 1) × (weight (item ∷ []) ≤ item.nbytes)
unfolding load weight
one item = ground arith

-- Appending, granted or refused, keeps the active rows within 64 and within a mebibyte.
pub append-capped :
    (item : Item) (items : List Item)
    → load items ≤ max_queue_items
    → weight items ≤ max_queue_bytes
    → (load (append item items).1 ≤ max_queue_items)
      × (weight (append item items).1 ≤ max_queue_bytes)
unfolding append
append-capped item items few small =
    ground (arith, weight-append items (item ∷ []), load-append items (item ∷ []), one item)

-- A due row is active, has an expiry that is not past, and is not planned for later.
pub ready-due :
    (moment : ℕ) (items : List Item)
    → all
        (λ i.
          is_active i
          && is_some i.expiry
          && not (is_past moment i.expiry)
          && is_due moment i.next_attempt)
        (ready moment items).0
      ≡ true
unfolding ready visit all
ready-due moment [] = refl
ready-due moment (i ∷ items) = ground (arith, ready-due moment items)

visit-visit : (moment : ℕ) (i : Item) → visit moment (visit moment i).0 ≡ visit moment i
unfolding visit list_beq
visit-visit moment i = ground arith

visit-current :
    (moment : ℕ) (i : Item)
    → (is_active (visit moment i).0 && is_past moment (visit moment i).0.expiry) ≡ false
unfolding visit list_beq
visit-current moment i = elim (Option-cases i.expiry) [
  | inl no_time ↦ ground arith
  | inr (t, found) ↦ ground arith
]

-- What is left after collecting the due rows has no active row whose expiry is past, and collecting
-- again at that moment finds the same rows and changes nothing.
pub ready-ready :
    (moment : ℕ) (items : List Item)
    → (any (λ i. is_active i && is_past moment i.expiry) (ready moment items).1 ≡ false)
      × (ready moment (ready moment items).1 ≡ ready moment items)
unfolding ready any
ready-ready moment [] = (refl, refl)
ready-ready moment (i ∷ items) =
    let (none_past, same) = ready-ready moment items in
    (ground (arith, visit-current moment i, none_past), rw (visit-visit moment i, same) refl)

-- From the first attempt on and with a jitter below one, the delay of a retry is at least half a
-- second and less than a minute.
pub delay-bounds :
    (attempts jitter : ℕ)
    → 1 ≤ attempts
    → jitter < 1000000
    → (500000 ≤ delay attempts jitter) × (delay attempts jitter < 60000000)
unfolding delay
delay-bounds attempts jitter some_tries small =
    let base : ℕ = least retry_cap_s (2 ^ (attempts - 1)) in
    let positive : 1 ≤ 2 ^ (attempts - 1) =
      pow-le-pow_right {n = 2} (omega arith) {i = 0} {j = attempts - 1} (omega arith) in
    let low : 1 ≤ base = ground (arith, positive) in
    let high : base ≤ 60 = ground arith in
    let floor = mul-le-mul_right (500000 + jitter / 2) low in
    let ceiling = mul-le-mul_right (500000 + jitter / 2) high in (omega arith, omega arith)
