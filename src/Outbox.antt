-- ===== src/Outbox.antt =====
-- qnm/outbox.py: the visible outbox. An item carries its payload as canonical JSON text and the one
-- key of it that the code reads.
use qnm_node.Base.{
  ℕ, ◌≡◌, Bool, false, ◌||◌, not, Option, none, some, List, [], ◌∷◌, ◌++◌, arith, ◌==◌, list_eq,
  nat_eq, list_beq_refl, Text, codes, length, Result, ok, refuse, Act, if◌then◌else◌, any, keep,
}
use qnm_node.Base.{
  anon_no_publish, outbox_cut, split_off, split_off-kept, split_off-removed, keep-append_new,
  any-append,
}
use qnm_node.Digest.{Hash}

-- A payload: whether its key `publish` is true, and its JSON.
pub record Payload : Type 0 where
  pub publish : Bool
  pub json : Text

pub record Item : Type 0 where
  pub id : Text
  pub kind : Text
  pub payload : Payload
  pub utc : Text

abbrev pub Outbox : Type 0
Outbox = List Item

-- `queue(kind, payload)`; the clock is read once for the id and once for the row.
unfoldable pub queue : Hash → Text → Payload → Text → Text → Act Outbox Item
queue h kind body now now' items =
    if body.publish || kind == codes "publish" || kind == codes "anon-broadcast-publish"
    then (refuse anon_no_publish, items)
    else let item : Item = record {
      id = h.sha256_hex (kind ++ codes ":" ++ now ++ codes ":" ++ body.json);
      kind = kind;
      payload = body;
      utc = now';
    } in
      (ok item, items ++ item ∷ [])

abbrev has_id : Text → Item → Bool
has_id item_id i = i.id == item_id

abbrev settle : Outbox → List Item × Option Item → Result ℕ × Outbox
settle items (kept, none) = (refuse outbox_cut, items)
settle items (kept, some removed) = (ok (length kept), kept)

-- `cut(item_id)`, which returns how many items remain
unfoldable pub cut : Text → Act Outbox ℕ
cut item_id items = settle items (split_off (has_id item_id) items)

-- `clear()`
unfoldable pub clear : Outbox → Outbox
clear items = []

-- Cutting: with such an item, exactly the others remain, in order, and their number is returned;
-- without one, the cut is refused and nothing changes.
pub cut_lem :
    (item_id : Text) (items : Outbox)
    → cut item_id items ≡ (
        if any (has_id item_id) items
        then (
          ok (length (keep (λ i. not (has_id item_id i)) items)),
          keep (λ i. not (has_id item_id i)) items,
        )
        else (refuse outbox_cut, items))
unfolding cut
cut_lem item_id items =
    ground (arith, split_off-kept (has_id item_id) items, split_off-removed (has_id item_id) items)

-- An item that was queued under an id that is new is cut again: the items are those of before.
pub cut-queue :
    (h : Hash) (kind : Text) (body : Payload) (now now' : Text) (items : Outbox) (item : Item)
    → (queue h kind body now now' items).0 ≡ ok item
    → any (has_id item.id) items ≡ false
    → cut item.id (queue h kind body now now' items).1 ≡ (ok (length items), items)
unfolding queue any
cut-queue h kind body now now' items item e fresh = rw cut_lem (
    ground (
      arith,
      list_beq_refl item.id,
      any-append (has_id item.id) items (item ∷ []),
      keep-append_new (has_id item.id) items item,
    ))
