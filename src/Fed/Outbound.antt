-- ===== src/Fed/Outbound.antt =====
-- qnm/fedmesh/policy.py: what may leave the node. `canonical` is a parameter.
use qnm_node.Base.{
  ◌≡◌, refl, inl, inr, Bool, true, false, ◌&&◌, ◌||◌, not, Option, none, some, List, [], ◌∷◌, ◌++◌,
  arith, leb, ◌==◌, list_eq, nat_eq, Text, Bool-cases, codes, length, Result, ok, refuse, is_empty,
  if◌then◌else◌, is_some, contains, add, any,
}
use qnm_node.Base.{
  Json, null, flag, number, string, array, object, Items, no_item, item, Fields, no_field, field,
  look, fed_policy,
}
use qnm_node.Apg.{stands_in}

abbrev pub raw_keys : List Text
raw_keys =
    codes "text"
    ∷ codes "plaintext"
    ∷ codes "content"
    ∷ codes "content_b64"
    ∷ codes "password"
    ∷ codes "passphrase"
    ∷ codes "sign_seed"
    ∷ codes "box_seed"
    ∷ codes "private"
    ∷ codes "private_key"
    ∷ codes "file_bytes"
    ∷ []

abbrev pub light_kinds : List Text
light_kinds =
    codes "ref"
    ∷ codes "digest"
    ∷ codes "peers"
    ∷ codes "rollup"
    ∷ codes "rollup-sign"
    ∷ codes "fetch"
    ∷ codes "receipt"
    ∷ codes "delivery"
    ∷ codes "ack"
    ∷ codes "register"
    ∷ codes "multisig"
    ∷ codes "hop"
    ∷ codes "hop-exit"
    ∷ codes "blind"
    ∷ codes "advisory"
    ∷ codes "quarantine"
    ∷ codes "island"
    ∷ codes "airlock"
    ∷ codes "airgap"
    ∷ codes "vouch"
    ∷ codes "isolation"
    ∷ codes "appeal"
    ∷ codes "mirror-restore"
    ∷ []

unfoldable mutual
  -- `_walk_keys(value, found)`
  pub walk_keys : Json → List Text
  walk_keys (object fields) = walk_fields fields
  walk_keys (array items) = walk_items items
  walk_keys null = []
  walk_keys (flag b) = []
  walk_keys (number n) = []
  walk_keys (string s) = []

  pub walk_fields : Fields → List Text
  walk_fields no_field = []
  walk_fields (field k v rest) =
      (if contains raw_keys k then k ∷ [] else []) ++ walk_keys v ++ walk_fields rest

  pub walk_items : Items → List Text
  walk_items no_item = []
  walk_items (item v rest) = walk_keys v ++ walk_items rest

-- `hold(text)` of the set `sensitive`
unfoldable pub hold : Text → List Text → List Text
hold text sensitive = if leb 4 (length text) then add sensitive text else sensitive

-- `str(payload.get("kind") or "")`; a list or object that is not empty prints as a text that is no
-- kind, for which a bracket stands.
abbrev kind_of : Option Json → Text
kind_of none = []
kind_of (some null) = []
kind_of (some (flag b)) = if b then codes "True" else []
kind_of (some (number n)) =
    if n == codes "0" || n == codes "0.0" || n == codes "-0.0" then [] else n
kind_of (some (string s)) = s
kind_of (some (array no_item)) = []
kind_of (some (array (item v rest))) = codes "["
kind_of (some (object no_field)) = []
kind_of (some (object (field k v rest))) = codes "{"

abbrev is_string : Text → Option Json → Bool
is_string t (some (string s)) = s == t
is_string t other = false

abbrev none_left : List Text → Bool
none_left [] = true
none_left (k ∷ ks) = false

-- The kind of a payload, which decides the rest of `guard`.
unfoldable pub guard_kind : Fields → Bool → Result Fields
guard_kind payload share =
    let kind = kind_of (look payload (codes "kind")) in
    if kind == codes "msg"
    then (if not share
        then refuse fed_policy
        else if not (is_some (look payload (codes "ciphertext")))
        then refuse fed_policy
        else ok payload)
    else if contains light_kinds kind
        || is_string (codes "box-bind") (look payload (codes "purpose"))
        || is_some (look payload (codes "sign_pub"))
    then ok payload
    else if is_some (look payload (codes "ok")) && is_empty kind
    then ok payload
    else refuse fed_policy

-- `guard(payload, share)`
unfoldable pub guard : (Fields → Text) → List Text → Fields → Bool → Result Fields
unfolding guard_kind walk_keys
guard canonical sensitive payload share =
    if any (λ secret. stands_in secret (canonical payload)) sensitive
    then refuse fed_policy
    else if not (none_left (walk_fields payload))
    then refuse fed_policy
    else guard_kind payload share

-- A key stands in a value, at any depth.
mutual
  pub data HasKey : Text → Json → Type 0 where
    in_object : {k : Text} {fields : Fields} → HasKeyField k fields → HasKey k (object fields)
    in_array : {k : Text} {items : Items} → HasKeyItem k items → HasKey k (array items)

  pub data HasKeyField : Text → Fields → Type 0 where
    as_key : {k : Text} {v : Json} {rest : Fields} → HasKeyField k (field k v rest)
    as_value : {t k : Text} {v : Json} {rest : Fields} → HasKey t v → HasKeyField t (field k v rest)
    further :
        {t k : Text} {v : Json} {rest : Fields}
        → HasKeyField t rest
        → HasKeyField t (field k v rest)

  pub data HasKeyItem : Text → Items → Type 0 where
    at_head : {t : Text} {v : Json} {rest : Items} → HasKey t v → HasKeyItem t (item v rest)
    at_tail : {t : Text} {v : Json} {rest : Items} → HasKeyItem t rest → HasKeyItem t (item v rest)

kept_out :
    (k : Text)
    → none_left (if contains raw_keys k then k ∷ [] else []) ≡ true
    → contains raw_keys k ≡ false
kept_out k e = elim (Bool-cases (contains raw_keys k)) [
  | inl raw ↦ absurd (ground (arith, e, raw))
  | inr fine ↦ fine
]

append-empty :
    (xs ys : List Text)
    → none_left (xs ++ ys) ≡ true
    → (none_left xs ≡ true) × (none_left ys ≡ true)
append-empty [] ys e = (refl, e)
append-empty (x ∷ xs) ys e = absurd (cc)

mutual
  unfolding walk_keys

  HasKey-raw :
      (k : Text) (v : Json)
      → HasKey k v
      → none_left (walk_keys v) ≡ true
      → contains raw_keys k ≡ false
  HasKey-raw k _ (in_object {fields = f} o) e = HasKeyField-raw k f o e
  HasKey-raw k _ (in_array {items = i} o) e = HasKeyItem-raw k i o e

  HasKeyField-raw :
      (k : Text) (fields : Fields)
      → HasKeyField k fields
      → none_left (walk_fields fields) ≡ true
      → contains raw_keys k ≡ false
  HasKeyField-raw k no_field o e = elim o [ ]
  HasKeyField-raw k (field _ v rest) as_key e =
      kept_out k (append-empty _ (walk_keys v) (append-empty _ (walk_fields rest) e).0).0
  HasKeyField-raw k (field j v rest) (as_value o) e =
      HasKey-raw k v o (append-empty _ (walk_keys v) (append-empty _ (walk_fields rest) e).0).1
  HasKeyField-raw k (field j v rest) (further o) e =
      HasKeyField-raw k rest o (append-empty _ (walk_fields rest) e).1

  HasKeyItem-raw :
      (k : Text) (items : Items)
      → HasKeyItem k items
      → none_left (walk_items items) ≡ true
      → contains raw_keys k ≡ false
  HasKeyItem-raw k no_item o e = elim o [ ]
  HasKeyItem-raw k (item v rest) (at_head o) e =
      HasKey-raw k v o (append-empty (walk_keys v) (walk_items rest) e).0
  HasKeyItem-raw k (item v rest) (at_tail o) e =
      HasKeyItem-raw k rest o (append-empty (walk_keys v) (walk_items rest) e).1

walk-object :
    (fields : Fields)
    → none_left (walk_fields fields) ≡ true
    → none_left (walk_keys (object fields)) ≡ true
unfolding walk_keys
walk-object fields e = e

-- What passes the guard has no raw key at any depth, and its canonical form contains no text that is held.
pub guard-clean :
    (canonical : Fields → Text) (sensitive : List Text) (payload passed : Fields) (share : Bool)
    (k : Text)
    → guard canonical sensitive payload share ≡ ok passed
    → HasKey k (object payload)
    → (contains raw_keys k ≡ false)
      × (any (λ secret. stands_in secret (canonical payload)) sensitive ≡ false)
unfolding guard
guard-clean canonical sensitive payload passed share k e o =
    elim (Bool-cases (any (λ secret. stands_in secret (canonical payload)) sensitive)) [
      | inl held ↦ absurd (ground (arith, e, held))
      | inr free ↦ elim (Bool-cases (none_left (walk_fields payload))) [
        | inl clean ↦ (HasKey-raw k (object payload) o (walk-object payload clean), free)
        | inr raw ↦ absurd (ground (arith, e, free, raw))
      ]
    ]
