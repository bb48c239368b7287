-- ===== src/Base/Jsons.antt =====
-- What `json.loads` gives, as the program walks it. A number is kept as Python prints it.
use mathlib.Core.Bool.{Bool, true, false}
use mathlib.Core.Option.{Option, none, some}
use mathlib.Core.List.{List, [], ◌∷◌}
use qnm_node.Base.Texts.{Text, codes}
use qnm_node.Base.Equality.{◌==◌, list_eq, nat_eq}
use qnm_node.Base.Tests.{if◌then◌else◌}

mutual
  pub data Json : Type 0 where
    null : Json
    flag : Bool → Json
    number string : Text → Json
    array : Items → Json
    object : Fields → Json

  pub data Items : Type 0 where
    no_item : Items
    item : Json → Items → Items

  pub data Fields : Type 0 where
    no_field : Fields
    field : Text → Json → Fields → Fields

-- `str(value)` of what is neither an object nor an array
abbrev pub scalar : Json → Text
scalar null = codes "None"
scalar (flag true) = codes "True"
scalar (flag false) = codes "False"
scalar (number n) = n
scalar (string s) = s
scalar (array items) = []
scalar (object fields) = []

-- `d.get(key)`
unfoldable pub look : Fields → Text → Option Json
look no_field key = none
look (field k v rest) key = if k == key then some v else look rest key

-- `list(d)`
unfoldable pub keys : Fields → List Text
keys no_field = []
keys (field k v rest) = k ∷ keys rest
