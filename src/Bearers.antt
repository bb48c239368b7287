-- ===== src/Bearers.antt =====
-- qnm/bearers.py: the switchboard of send paths. `on` is the dict `_on`. What the operating system's
-- radio probe says is only reported to the caller, so it is not part of the state.
use qnm_node.Base.{
  ◌≡◌, refl, Bool, true, false, ◌&&◌, ◌||◌, not, Option, none, some, List, [], ◌∷◌, arith, ◌==◌,
  list_eq, nat_eq, list_beq, list_beq_iff, Text, codes, ok, refuse, Code, is_ok, Act, if◌then◌else◌,
  Dict, get, put, get-put, is_some, contains,
}
use qnm_node.Base.{apg_poison, radio_off, bearer_off}

pub record Bearers : Type 0 where
  pub fabric_armed : Bool
  pub on : Dict Text Bool

abbrev pub local_on : Text
local_on = codes "local"

abbrev pub fabric_arm : List Text
fabric_arm = codes "lan" ∷ codes "radio" ∷ codes "wifi" ∷ codes "bt" ∷ []

-- `Bearers()`
unfoldable pub initial : Bearers
initial = record {
  fabric_armed = false;
  on =
      (local_on, true)
      ∷ (codes "operator", false)
      ∷ (codes "lan", false)
      ∷ (codes "radio", false)
      ∷ (codes "remote", false)
      ∷ (codes "wifi", false)
      ∷ (codes "bt", false)
      ∷ [];
}

abbrev pub or_false : Option Bool → Bool
or_false none = false
or_false (some b) = b

-- `is_on(name)`
unfoldable pub is_on : Bearers → Text → Bool
is_on b name = or_false (get b.on name)

unfoldable pub put_all : List Text → Bool → Dict Text Bool → Dict Text Bool
put_all [] v d = d
put_all (name ∷ names) v d = put_all names v (put d name v)

-- `arm_fabric()`
unfoldable pub arm_fabric : Bearers → Bearers
unfolding put_all
arm_fabric b = record { fabric_armed = true; on = put_all fabric_arm true b.on }

-- The checks of `set`, in order; `none` when the switch may move.
unfoldable pub set_refusal : Text → Bool → Bearers → Option Code
set_refusal name on b =
    if name == codes "Lumen"
      || name == codes "Mandible"
      || name == codes "lumen"
      || name == codes "mandible"
    then some apg_poison
    else if name == codes "radio" && on && not b.fabric_armed
    then some radio_off
    else if (name == codes "wifi" || name == codes "bt") && on && not b.fabric_armed
    then some radio_off
    else if name == codes "remote" && on
    then some bearer_off
    else if not (is_some (get b.on name))
    then some bearer_off
    else if name == local_on && not on
    then some bearer_off
    else none

-- `set(name, on)`, which returns the new position of the switch
unfoldable pub set : Text → Bool → Act Bearers Bool
unfolding set_refusal
set name on b = elim (set_refusal name on b) [
  | some code ↦ (refuse code, b)
  | none ↦ (ok on, record b { on = put b.on name on })
]

unfoldable pub drop_entries : Dict Text Bool → Dict Text Bool
drop_entries [] = []
drop_entries ((name, v) ∷ d) = (name, (if name == local_on then v else false)) ∷ drop_entries d

-- `drop_all_except_local()`
unfoldable pub drop_all_except_local : Bearers → Bearers
unfolding drop_entries
drop_all_except_local b = record b { on = drop_entries b.on }

get-drop_entries :
    (d : Dict Text Bool) (k : Text)
    → or_false (get (drop_entries d) k) ≡ (if k == local_on then or_false (get d k) else false)
unfolding get drop_entries
get-drop_entries [] k = ground arith
get-drop_entries ((i, w) ∷ d) k = ground (
  arith,
  list_beq_iff i k,
  list_beq_iff i local_on,
  list_beq_iff k local_on,
  get-drop_entries d k,
)

-- After a drop the local bearer is as it was, and every other bearer is off.
pub is_on-drop_all_except_local :
    (b : Bearers) (name : Text)
    → is_on (drop_all_except_local b) name ≡ (if name == local_on then is_on b name else false)
unfolding is_on drop_all_except_local
is_on-drop_all_except_local b name = get-drop_entries b.on name

-- A successful switch moves that switch alone, and a refused one moves nothing.
pub is_on-set :
    (name : Text) (v : Bool) (b : Bearers) (k : Text)
    → is_on (set name v b).1 k ≡ (if is_ok (set name v b).0 && name == k then v else is_on b k)
unfolding is_on set
is_on-set name v b k = ground (arith, get-put b.on name k v)

armed-set : (name : Text) (v : Bool) (b : Bearers) → (set name v b).1.fabric_armed ≡ b.fabric_armed
unfolding set
armed-set name v b = ground arith

-- What a switch that may move says of its arguments.
set_refusal-none :
    (name : Text) (v : Bool) (b : Bearers)
    → set_refusal name v b ≡ none
    → (v ≡ false → (name == local_on) ≡ false)
      × (v ≡ true → (name == codes "remote") ≡ false)
      × (v ≡ true → b.fabric_armed ≡ false → (name == codes "radio") ≡ false)
      × (v ≡ true → b.fabric_armed ≡ false → (name == codes "wifi") ≡ false)
      × (v ≡ true → b.fabric_armed ≡ false → (name == codes "bt") ≡ false)
unfolding set_refusal
set_refusal-none name true b h = ground arith
set_refusal-none name false b h = ground arith

-- What every operation keeps: the local bearer is on, the remote bearer is off, and the radio bearers
-- are off until the fabric is armed.
pub record IsGuarded (b : Bearers) : Type 0 where
  pub local_kept : is_on b local_on ≡ true
  pub remote_off : is_on b (codes "remote") ≡ false
  pub radio_needs : b.fabric_armed ≡ false → is_on b (codes "radio") ≡ false
  pub wifi_needs : b.fabric_armed ≡ false → is_on b (codes "wifi") ≡ false
  pub bt_needs : b.fabric_armed ≡ false → is_on b (codes "bt") ≡ false

pub initial-IsGuarded : IsGuarded initial
unfolding initial is_on get list_beq
initial-IsGuarded = record {
  local_kept = refl;
  remote_off = refl;
  radio_needs = λ _. refl;
  wifi_needs = λ _. refl;
  bt_needs = λ _. refl;
}

is_on-put_all :
    (names : List Text) (d : Dict Text Bool) (k : Text)
    → or_false (get (put_all names true d) k) ≡ (contains names k || or_false (get d k))
unfolding put_all contains
is_on-put_all [] d k = refl
is_on-put_all (name ∷ names) d k =
    ground (arith, is_on-put_all names (put d name true) k, get-put d name k true)

-- Arming the fabric turns on exactly the four fabric bearers.
pub is_on-arm_fabric :
    (b : Bearers) (k : Text) → is_on (arm_fabric b) k ≡ (contains fabric_arm k || is_on b k)
unfolding is_on arm_fabric
is_on-arm_fabric b k = is_on-put_all fabric_arm b.on k

-- Switching, granted or refused, keeps the local bearer on, the remote one off, and the radio ones off
-- until the fabric is armed.
pub set-IsGuarded :
    (name : Text) (v : Bool) (b : Bearers) → IsGuarded b → IsGuarded (set name v b).1
unfolding set
set-IsGuarded name v b g = ground (
  arith,
  set_refusal-none name v b,
  armed-set name v b,
  is_on-set name v b local_on,
  is_on-set name v b (codes "remote"),
  is_on-set name v b (codes "radio"),
  is_on-set name v b (codes "wifi"),
  is_on-set name v b (codes "bt"),
)

pub arm_fabric-IsGuarded : (b : Bearers) → IsGuarded b → IsGuarded (arm_fabric b)
unfolding arm_fabric contains list_beq
arm_fabric-IsGuarded b g =
    ground (arith, is_on-arm_fabric b local_on, is_on-arm_fabric b (codes "remote"))

pub drop-IsGuarded : (b : Bearers) → IsGuarded b → IsGuarded (drop_all_except_local b)
unfolding list_beq
drop-IsGuarded b g = ground (
  arith,
  is_on-drop_all_except_local b local_on,
  is_on-drop_all_except_local b (codes "remote"),
  is_on-drop_all_except_local b (codes "radio"),
  is_on-drop_all_except_local b (codes "wifi"),
  is_on-drop_all_except_local b (codes "bt"),
)
