-- ===== src/Waits.antt =====
-- qnsd/outbox.py: the visible outbox and the lock file beside it, from which a wait survives a restart.
-- An item carries its payload as JSON with the two keys that the code reads.
use qnm_node.Base.{
  ℕ, ◌≡◌, refl, inl, inr, Bool, true, false, ◌||◌, not, Option, none, some, List, [], ◌∷◌, ◌++◌,
  arith, ◌==◌, list_eq, nat_eq, list_beq_refl, Text, Bool-cases, codes, length, Result, ok, refuse,
  Act, if◌then◌else◌, any, all, keep,
}
use qnm_node.Base.{anon_no_publish, outbox_cut, split_off, split_off-kept, split_off-removed}
use qnm_node.Digest.{Hash}

pub record Payload : Type 0 where
  pub publish : Bool
  pub waiting : Bool
  pub json : Text

pub record Item : Type 0 where
  pub id : Text
  pub kind : Text
  pub payload : Payload
  pub utc : Text
  pub waiting : Bool

-- `data/outbox/visible.jsonl` and `data/locks/wait.jsonl`
pub record Outbox : Type 0 where
  pub visible : List Item
  pub lock : List Item

-- `waits()`
unfoldable pub waits : Outbox → List Item
waits o = keep (λ i. i.waiting) o.visible

-- `_append(item)` and `_rewrite(items)`
unfoldable pub append_item : Item → Outbox → Outbox
append_item i o = record { visible = o.visible ++ i ∷ []; lock = o.lock ++ i ∷ [] }

unfoldable pub rewrite : List Item → Outbox → Outbox
rewrite items o = record { visible = items; lock = items }

-- The item of `queue(kind, payload)`; the clock is read once for the id and once for the row.
unfoldable pub new_item : Hash → Text → Payload → Text → Text → Item
new_item h kind body now now' = record {
  id = h.sha256_hex (kind ++ codes ":" ++ now ++ codes ":" ++ body.json);
  kind = kind;
  payload = body;
  utc = now';
  waiting = body.waiting || kind == codes "qns-wait";
}

abbrev is_publish : Text → Payload → Bool
is_publish kind body =
    body.publish || kind == codes "publish" || kind == codes "anon-broadcast-publish"

-- `queue(kind, payload)`
unfoldable pub queue : Hash → Text → Payload → Text → Text → Act Outbox Item
unfolding append_item new_item
queue h kind body now now' o =
    let item = new_item h kind body now now' in
    if is_publish kind body then (refuse anon_no_publish, o) else (ok item, append_item item o)

-- `wait_photon(photon, via, reason)`, of the JSON of its payload
unfoldable pub wait_photon : Hash → Text → Text → Text → Act Outbox Item
unfolding queue
wait_photon h json now now' =
    queue h (codes "qns-wait") (record { publish = false; waiting = true; json = json }) now now'

abbrev has_id : Text → Item → Bool
has_id item_id i = i.id == item_id

abbrev settle : Outbox → List Item × Option Item → Result ℕ × Outbox
settle o (kept, none) = (refuse outbox_cut, o)
settle o (kept, some removed) = (ok (length kept), rewrite kept o)

-- `cut(item_id)`, which returns how many items remain
unfoldable pub cut : Text → Act Outbox ℕ
unfolding rewrite
cut item_id o = settle o (split_off (has_id item_id) o.visible)

-- `clear()`
unfoldable pub clear : Outbox → Outbox
unfolding rewrite
clear o = rewrite [] o

abbrev no_items : List Item → Bool
no_items [] = true
no_items (i ∷ items) = false

-- The items of the lock that are not visible.
unfoldable pub missing : Outbox → List Item
missing o = keep (λ i. not (any (has_id i.id) o.visible)) o.lock

-- `_reconcile_from_locks()`, which a restart runs
unfoldable pub reconcile : Outbox → Outbox
unfolding missing rewrite
reconcile o =
    if no_items o.lock
    then o
    else if not (no_items (missing o))
    then rewrite (o.visible ++ missing o) o
    else if no_items o.visible
    then rewrite o.lock o
    else o

-- `resume_from_locks()`
unfoldable pub resume_from_locks : Outbox → List Item × Outbox
unfolding reconcile waits
resume_from_locks o = (waits (reconcile o), reconcile o)

-- The calls that write, and a restart.
pub data Call : Type 0 where
  do_queue : Text → Payload → Text → Text → Call
  do_cut : Text → Call
  do_clear do_restart : Call

unfoldable pub run : Hash → List Call → Outbox → Outbox
unfolding queue cut clear reconcile
run h [] o = o
run h (do_queue kind body now now' ∷ calls) o = run h calls (queue h kind body now now' o).1
run h (do_cut item_id ∷ calls) o = run h calls (cut item_id o).1
run h (do_clear ∷ calls) o = run h calls (clear o)
run h (do_restart ∷ calls) o = run h calls (reconcile o)

-- What the outbox promises: one list, in which a queued item comes last, a cut takes every item with
-- the id away, and a restart does nothing.
unfoldable pub promised : Hash → List Call → List Item → List Item
promised h [] items = items
promised h (do_queue kind body now now' ∷ calls) items =
    promised h calls
      (if is_publish kind body then items else items ++ new_item h kind body now now' ∷ [])
promised h (do_cut item_id ∷ calls) items =
    promised h calls (keep (λ i. not (has_id item_id i)) items)
promised h (do_clear ∷ calls) items = promised h calls []
promised h (do_restart ∷ calls) items = promised h calls items

-- Both files hold the items.
abbrev pub both : List Item → Outbox
both items = record { visible = items; lock = items }

all_more :
    (j : Item) (seen items : List Item)
    → all (λ i. any (has_id i.id) seen) items ≡ true
    → all (λ i. any (has_id i.id) (j ∷ seen)) items ≡ true
unfolding all any
all_more j seen [] a = refl
all_more j seen (i ∷ items) a = ground (arith, all_more j seen items)

any_self : (items : List Item) → all (λ i. any (has_id i.id) items) items ≡ true
unfolding all any
any_self [] = refl
any_self (i ∷ items) = ground (arith, list_beq_refl i.id, all_more i items items (any_self items))

no-missing :
    (seen items : List Item)
    → all (λ i. any (has_id i.id) seen) items ≡ true
    → keep (λ i. not (any (has_id i.id) seen)) items ≡ []
unfolding all keep
no-missing seen [] a = refl
no-missing seen (i ∷ items) a = ground (arith, no-missing seen items)

reconcile-both : (items : List Item) → reconcile (both items) ≡ both items
unfolding reconcile missing
reconcile-both [] = refl
reconcile-both (i ∷ items) =
    rw (reconcile, missing, no-missing (i ∷ items) (i ∷ items) (any_self (i ∷ items))) refl

queue-both :
    (h : Hash) (kind : Text) (body : Payload) (now now' : Text) (items : List Item)
    → (queue h kind body now now' (both items)).1
      ≡ both (if is_publish kind body then items else items ++ new_item h kind body now now' ∷ [])
unfolding queue append_item
queue-both h kind body now now' items = elim (Bool-cases (is_publish kind body)) [
  | inl shut ↦ rw (queue, shut) refl
  | inr fine ↦ rw (queue, fine) refl
]

keep_none :
    (p : Item → Bool) (items : List Item)
    → any p items ≡ false
    → keep (λ i. not (p i)) items ≡ items
unfolding any keep
keep_none p [] h = refl
keep_none p (i ∷ items) h = ground (arith, keep_none p items)

cut-both :
    (item_id : Text) (items : List Item)
    → (cut item_id (both items)).1 ≡ both (keep (λ i. not (has_id item_id i)) items)
unfolding cut rewrite
cut-both item_id items = ground (
  arith,
  split_off-kept (has_id item_id) items,
  split_off-removed (has_id item_id) items,
  keep_none (has_id item_id) items,
)

-- The two files together are one list: whatever is queued, cut and cleared in whatever order, with
-- restarts anywhere, both files end with the items that the promised list has.
pub run-both :
    (h : Hash) (calls : List Call) (items : List Item)
    → run h calls (both items) ≡ both (promised h calls items)
unfolding run promised clear
run-both h [] items = refl
run-both h (do_queue kind body now now' ∷ calls) items =
    rw (queue-both h kind body now now' items) (run-both h calls _)
run-both h (do_cut item_id ∷ calls) items = rw (cut-both item_id items) (run-both h calls _)
run-both h (do_clear ∷ calls) items = run-both h calls []
run-both h (do_restart ∷ calls) items = rw (reconcile-both items) (run-both h calls items)
