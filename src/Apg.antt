-- ===== src/Apg.antt =====
-- qnm/apg.py: the poison gate. `json.loads` is a parameter; the list of past refusals, which is only
-- reported, is not kept. What is refused is decided on the text, so bytes are modelled as decoded.
use qnm_node.Base.{
  ℕ, ◌*◌, ◌>>=◌, ◌>>◌, refuse_if, Bool, true, false, ◌&&◌, ◌||◌, Option, some, List, [], ◌∷◌, ltb,
  nat_beq, ◌==◌, list_eq, nat_eq, Text, codes, length, Result, ok, refuse, is_empty, if◌then◌else◌,
  contains, any,
}
use qnm_node.Base.{
  lower, strip, Json, string, object, Fields, no_field, field, look, score_no_views, apg_poison,
  apg_refuse,
}
use qnm_node.Bytes.{utf8}

abbrev pub poison_markers : List Text
poison_markers =
    codes "lumen"
    ∷ codes "mandible"
    ∷ codes "lattice_online"
    ∷ codes "mesh_complete"
    ∷ codes "account_resurrect"
    ∷ codes "account_restore"
    ∷ codes "account_create"
    ∷ codes "controller_hunt"
    ∷ codes "hunt_controller"
    ∷ codes "scorch_remote"
    ∷ codes "anon-broadcast/publish"
    ∷ codes "anon_broadcast_publish"
    ∷ []

abbrev pub max_ingress_bytes : ℕ
max_ingress_bytes = 64 * 1024

-- `FORBIDDEN_LIVE_SYMBOLS`
abbrev pub forbidden_live_symbols : List Text
forbidden_live_symbols =
    codes "Lumen" ∷ codes "Mandible" ∷ codes "lattice_online" ∷ codes "mesh_complete" ∷ []

unfoldable pub starts_with : Text → Text → Bool
starts_with [] s = true
starts_with (m ∷ mark) [] = false
starts_with (m ∷ mark) (c ∷ s) = nat_beq m c && starts_with mark s

-- A marker stands somewhere in the text.
unfoldable pub stands_in : Text → Text → Bool
unfolding starts_with
stands_in mark [] = is_empty mark
stands_in mark (c ∷ s) = starts_with mark (c ∷ s) || stands_in mark s

-- `_POISON_RE.search(text)`, in any case
unfoldable pub is_poison : Text → Bool
is_poison text = any (λ mark. stands_in mark (lower text)) poison_markers

-- `scan_raw(raw)`
unfoldable pub scan_raw : Text → Result (Unit {0})
scan_raw raw =
    refuse_if (ltb max_ingress_bytes (length (utf8 raw))) apg_poison
    >> refuse_if (is_poison raw) apg_poison

-- A text is a live symbol; `str` of any other value is none.
abbrev pub is_live_symbol : Json → Bool
is_live_symbol (string s) = contains forbidden_live_symbols s
is_live_symbol other = false

abbrev is_score : Option Json → Bool
is_score (some (string s)) = s == codes "score"
is_score other = false

-- `_refuse_forbidden_values(payload)`, over the items that are left
unfoldable pub refuse_forbidden_values : Fields → Fields → Result (Unit {0})
refuse_forbidden_values payload no_field = ok tt
refuse_forbidden_values payload (field key value rest) =
    refuse_if (contains forbidden_live_symbols key || is_live_symbol value) apg_poison
    >> refuse_if (key == codes "views" && is_score (look payload (codes "op"))) score_no_views
    >> refuse_forbidden_values payload rest

abbrev object_of : Option Json → Result Fields
object_of (some (object fields)) = ok fields
object_of other = refuse apg_refuse

-- `admit(raw)`; `loads` is `none` where `json.loads` raises
unfoldable pub admit : (Text → Option Json) → Text → Result Fields
unfolding scan_raw refuse_forbidden_values
admit loads raw =
    scan_raw raw
    >> (if is_empty (strip raw)
        then ok no_field
        else object_of (loads raw) >>= λ payload.
            refuse_forbidden_values payload payload >> ok payload)
