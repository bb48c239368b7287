-- ===== src/Sanitize.antt =====
-- qnsd/sanitize.py: what a payload must not carry on the via plane.
use qnm_node.Base.{
  ◌>>=◌, ◌≡◌, inl, inr, Bool, true, false, ◌||◌, Option, none, some, List, [], ◌∷◌, ◌++◌, arith,
  list_eq, nat_eq, Text, Bool-cases, codes, Result, ok, refuse, if◌then◌else◌, contains, any,
}
use qnm_node.Base.{
  any-append, lower, Json, null, flag, number, string, array, object, Items, no_item, item, Fields,
  no_field, field, scalar, keys, via_sanitize, look,
}

-- `BANNED_KEYS`
abbrev pub banned_keys : List Text
banned_keys =
    codes "sticky_via"
    ∷ codes "az_generator"
    ∷ codes "call_az_generator"
    ∷ codes "node_gate"
    ∷ codes "mesh_enable"
    ∷ codes "enable_mesh"
    ∷ codes "mesh_complete"
    ∷ codes "lattice_online"
    ∷ codes "lumen"
    ∷ codes "mandible"
    ∷ codes "public_qnsd"
    ∷ codes "qnsd_proxy"
    ∷ codes "public_qnsd_proxy"
    ∷ codes "remote_bearer"
    ∷ codes "rewrite_key"
    ∷ codes "miragegrid_call"
    ∷ codes "back_gate"
    ∷ codes "geohash"
    ∷ codes "lat"
    ∷ codes "lon"
    ∷ codes "latitude"
    ∷ codes "longitude"
    ∷ codes "user"
    ∷ codes "user_id"
    ∷ codes "client_ip"
    ∷ []

-- `BANNED_VALUES`
abbrev pub banned_values : List Text
banned_values =
    codes "lumen" ∷ codes "mandible" ∷ codes "lattice_online" ∷ codes "mesh_complete" ∷ []

unfoldable mutual
  -- `_walk_strings(obj)`
  pub walk_strings : Json → List Text
  walk_strings (object fields) = walk_fields fields
  walk_strings (array items) = walk_items items
  walk_strings null = codes "None" ∷ []
  walk_strings (flag b) = scalar (flag b) ∷ []
  walk_strings (number n) = n ∷ []
  walk_strings (string s) = s ∷ []

  pub walk_fields : Fields → List Text
  walk_fields no_field = []
  walk_fields (field k v rest) = k ∷ walk_strings v ++ walk_fields rest

  pub walk_items : Items → List Text
  walk_items no_item = []
  walk_items (item v rest) = walk_strings v ++ walk_items rest

-- The test of a token.
unfoldable pub is_banned : Text → Bool
is_banned token = contains banned_values (lower token) || contains banned_keys (lower token)

-- `sanitize_via_payload(payload)`
unfoldable pub sanitize_via_payload : Fields → Result Fields
unfolding walk_strings is_banned
sanitize_via_payload body =
    if any (λ key. contains banned_keys (lower key)) (keys body)
    then refuse via_sanitize
    else if any is_banned (walk_strings (object body))
    then refuse via_sanitize
    else ok body

-- `{"payload": inner} if inner not in (None, "") else {}`
abbrev wrap : Option Json → Fields
wrap none = no_field
wrap (some null) = no_field
wrap (some (string [])) = no_field
wrap (some inner) = field (codes "payload") inner no_field

-- `inner` itself, if it is an object
abbrev inner_fields : Option Json → Fields
inner_fields (some (object fields)) = fields
inner_fields other = wrap other

-- `sanitize_photon(photon)`
unfoldable pub sanitize_photon : Fields → Result Fields
sanitize_photon photon =
    sanitize_via_payload (inner_fields (look photon (codes "payload"))) >>= λ _.
    if any (λ key. contains banned_keys (lower key)) (keys photon)
    then refuse via_sanitize
    else ok photon

-- Where a token stands in a value: as a key or as a scalar, at any depth.
mutual
  pub data Occurs : Text → Json → Type 0 where
    in_object : {t : Text} {fields : Fields} → OccursField t fields → Occurs t (object fields)
    in_array : {t : Text} {items : Items} → OccursItem t items → Occurs t (array items)
    as_null : Occurs (codes "None") null
    as_flag : {b : Bool} → Occurs (scalar (flag b)) (flag b)
    as_number : {n : Text} → Occurs n (number n)
    as_string : {s : Text} → Occurs s (string s)

  pub data OccursField : Text → Fields → Type 0 where
    as_key : {k : Text} {v : Json} {rest : Fields} → OccursField k (field k v rest)
    as_value : {t k : Text} {v : Json} {rest : Fields} → Occurs t v → OccursField t (field k v rest)
    further :
        {t k : Text} {v : Json} {rest : Fields}
        → OccursField t rest
        → OccursField t (field k v rest)

  pub data OccursItem : Text → Items → Type 0 where
    at_head : {t : Text} {v : Json} {rest : Items} → Occurs t v → OccursItem t (item v rest)
    at_tail : {t : Text} {v : Json} {rest : Items} → OccursItem t rest → OccursItem t (item v rest)

mutual
  unfolding walk_strings any

  Occurs-any :
      (p : Text → Bool) (t : Text) (v : Json)
      → Occurs t v
      → p t ≡ true
      → any p (walk_strings v) ≡ true
  Occurs-any p t _ (in_object o) h = OccursField-any p t _ o h
  Occurs-any p t _ (in_array o) h = OccursItem-any p t _ o h
  Occurs-any p _ _ as_null h = ground arith
  Occurs-any p _ _ as_flag h = ground arith
  Occurs-any p _ _ as_number h = ground arith
  Occurs-any p _ _ as_string h = ground arith

  OccursField-any :
      (p : Text → Bool) (t : Text) (fields : Fields)
      → OccursField t fields
      → p t ≡ true
      → any p (walk_fields fields) ≡ true
  OccursField-any p t _ as_key h = ground arith
  OccursField-any p t (field k v rest) (as_value o) h =
      ground (arith, any-append p (walk_strings v) (walk_fields rest), Occurs-any p t v o h)
  OccursField-any p t (field k v rest) (further o) h =
      ground (arith, any-append p (walk_strings v) (walk_fields rest), OccursField-any p t rest o h)

  OccursItem-any :
      (p : Text → Bool) (t : Text) (items : Items)
      → OccursItem t items
      → p t ≡ true
      → any p (walk_items items) ≡ true
  OccursItem-any p t no_item o h = elim o [ ]
  OccursItem-any p t (item v rest) (at_head o) h =
      ground (arith, any-append p (walk_strings v) (walk_items rest), Occurs-any p t v o h)
  OccursItem-any p t (item v rest) (at_tail o) h =
      ground (arith, any-append p (walk_strings v) (walk_items rest), OccursItem-any p t rest o h)

-- In a payload that passes, no key and no scalar at any depth is a banned key or a banned value, in
-- whatever case it is written.
pub sanitize_via_payload-clean :
    (body passed : Fields) (t : Text)
    → sanitize_via_payload body ≡ ok passed
    → Occurs t (object body)
    → (is_banned t ≡ false) × (passed ≡ body)
unfolding sanitize_via_payload
sanitize_via_payload-clean body passed t e o = elim (Bool-cases (is_banned t)) [
  | inl bad ↦ absurd (ground (arith, Occurs-any is_banned t (object body) o bad))
  | inr good ↦ ground arith
]
