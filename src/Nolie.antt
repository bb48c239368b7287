-- ===== src/Nolie.antt =====
-- qnm/nolie.py: published tips, the refusal of acts that would rewrite or lie, and receipts that still
-- hash. `json.dumps` is a parameter.
use qnm_node.Base.{
  ℕ, ◌>>◌, ◌≡◌, Bool, true, false, ◌||◌, not, Option, none, some, List, [], ◌∷◌, ◌++◌, arith,
  nat_beq, ◌==◌, list_eq, nat_eq, Text, codes, length, Result, ok, refuse, Act, is_empty,
  if◌then◌else◌, contains, contains-append, any, all,
}
use qnm_node.Base.{
  lower, strip, Json, null, flag, number, string, array, object, no_item, item, Fields, no_field,
  field, look, keys, no_rewrite, no_rewrite_key, no_lie_to_live, no_one_tunnel, wires_fail_closed,
  no_voice, receipt_hash_mismatch,
}
use qnm_node.Apg.{stands_in}
use qnm_node.Digest.{Hash}

abbrev pub tunnel_hosts : List Text
tunnel_hosts =
    codes "tunnel"
    ∷ codes "one-tunnel"
    ∷ codes "one_tunnel"
    ∷ codes "cloudflare"
    ∷ codes "cf-tunnel"
    ∷ codes "cloudflared"
    ∷ codes "public-tunnel"
    ∷ codes "worker-tunnel"
    ∷ codes "cf_tunnel"
    ∷ []

abbrev pub lie_to_live_keys : List Text
lie_to_live_keys =
    codes "lie"
    ∷ codes "lie_to_stay_alive"
    ∷ codes "lie_to_live"
    ∷ codes "lie_to_adapt"
    ∷ codes "lie_to_prevent_death"
    ∷ codes "fake_tip"
    ∷ codes "false_receipt"
    ∷ codes "false_emit"
    ∷ codes "mutate_to_heal"
    ∷ codes "rewrite_to_heal"
    ∷ []

-- `REWRITE_KEYS - {"rewrite_key", "apply_rewrite_key", "new_tip"}`
abbrev pub plain_rewrite_keys : List Text
plain_rewrite_keys = codes "rewrite" ∷ codes "mutate" ∷ codes "replace_tip" ∷ []

-- `bool(value)` of what `get` gives
abbrev pub truthy : Option Json → Bool
truthy none = false
truthy (some null) = false
truthy (some (flag b)) = b
truthy (some (number n)) = not (n == codes "0" || n == codes "0.0" || n == codes "-0.0")
truthy (some (string s)) = not (is_empty s)
truthy (some (array no_item)) = false
truthy (some (array (item v rest))) = true
truthy (some (object no_field)) = false
truthy (some (object (field k v rest))) = true

-- `name.replace("_", "-")`
unfoldable pub dashed : Text → Text
dashed [] = []
dashed (c ∷ s) = (if nat_beq c b'_' then b'-' else c) ∷ dashed s

-- `is_tunnel_host(name)`
unfoldable pub is_tunnel_host : Text → Bool
unfolding dashed
is_tunnel_host name =
    let host = dashed (lower (strip name)) in
    contains tunnel_hosts host || stands_in (codes "tunnel") host

-- `published()`, of the tips in the order of the rows
unfoldable pub published : List Text → List Text → List Text
published tips [] = tips
published tips (tip ∷ rows) =
    let as_is = published tips rows in
    let with_tip = published (tips ++ tip ∷ []) rows in
    if is_empty tip || contains tips tip then as_is else with_tip

-- `publish(tip)` on the tips of the rows of `published.jsonl`
unfoldable pub publish : Text → Act (List Text) Text
publish tip rows =
    if not (nat_beq (length tip) 64)
    then (refuse wires_fail_closed, rows)
    else (ok tip, rows ++ tip ∷ [])

-- `is_published(tip)`
unfoldable pub is_published : Text → List Text → Bool
unfolding published
is_published tip rows = contains (published [] rows) tip

-- The methods that only refuse: `rewrite_published`, `mutate_published`, `rewrite_key`, the lies, `require_voice`, `one_tunnel`
unfoldable pub rewrite_published : Result (Unit {0})
rewrite_published = refuse no_rewrite

unfoldable pub rewrite_key : Result (Unit {0})
rewrite_key = refuse no_rewrite_key

unfoldable pub lie : Result (Unit {0})
lie = refuse no_lie_to_live

unfoldable pub require_voice : Result (Unit {0})
require_voice = refuse no_voice

unfoldable pub one_tunnel : Result (Unit {0})
one_tunnel = refuse no_one_tunnel

abbrev is_true : Option Json → Bool
is_true (some (flag true)) = true
is_true other = false

abbrev when : Bool → Result (Unit {0}) → Result (Unit {0})
when true act = act
when false act = ok tt

abbrev has_key : List Text → Fields → Bool
has_key banned payload = any (contains banned) (keys payload)

-- `refuse_payload(payload)`; the three lies are refused with one code
unfoldable pub refuse_payload : Fields → Result (Unit {0})
unfolding rewrite_published rewrite_key lie require_voice one_tunnel
refuse_payload p =
    when (has_key lie_to_live_keys p || is_true (look p (codes "lie"))) lie
    >> when (truthy (look p (codes "rewrite_key")) || truthy (look p (codes "apply_rewrite_key")))
        rewrite_key
    >> when (has_key plain_rewrite_keys p) rewrite_published
    >> when
        (truthy (look p (codes "require_voice"))
          || truthy (look p (codes "voice_confirm"))
          || truthy (look p (codes "voice")))
        require_voice
    >> when (truthy (look p (codes "one_tunnel")) || truthy (look p (codes "all_on_tunnel")))
        one_tunnel

-- A receipt without its own hash and its anchor.
unfoldable pub hashed_part : Fields → Fields
hashed_part no_field = no_field
hashed_part (field k v rest) =
    let left = hashed_part rest in
    if k == codes "receipt_hash" || k == codes "identity_anchor" then left else field k v left

abbrev text_of : Option Json → Text
text_of (some (string s)) = s
text_of (some (number n)) = n
text_of other = []

module _ (h : Hash) (dumps : Fields → Text) where
  -- `receipt_digest(receipt)`
  unfoldable pub receipt_digest : Fields → Text
  unfolding hashed_part
  receipt_digest r = h.sha256_hex (dumps (hashed_part r))

  abbrev pub still_hashes : Fields → Bool
  still_hashes r = text_of (look r (codes "receipt_hash")) == receipt_digest r

  -- `verify_without_voice(receipts, require_voice, voice_confirm)`, which returns their number
  unfoldable pub verify_without_voice : List Fields → Bool → Bool → Result ℕ
  unfolding require_voice receipt_digest
  verify_without_voice receipts voice confirm =
      when (voice || confirm) require_voice
      >> (if all still_hashes receipts then ok (length receipts) else refuse receipt_hash_mismatch)

published-append :
    (tips rows : List Text) (tip t : Text)
    → contains (published tips rows) t ≡ true
    → contains (published tips (rows ++ tip ∷ [])) t ≡ true
unfolding published
published-append tips [] tip t m = ground (arith, m, contains-append tips (tip ∷ []) t)
published-append tips (row ∷ rows) tip t m =
    ground
      (arith, m, published-append tips rows tip t, published-append (tips ++ row ∷ []) rows tip t)

-- A tip that is published stays published whatever is published after it, granted or refused.
pub publish-is_published :
    (t tip : Text) (rows : List Text)
    → is_published t rows ≡ true
    → is_published t (publish tip rows).1 ≡ true
unfolding is_published publish
publish-is_published t tip rows m = ground (arith, m, published-append [] rows tip t)
