-- ===== src/Fed/Roles.antt =====
-- qnm/fedmesh/access.py: which role may call which route. `json.loads` is a parameter.
use qnm_node.Base.{
  ◌>>=◌, ◌≡◌, ◌&&◌, List, [], ◌∷◌, ◌++◌, arith, ◌==◌, list_eq, nat_eq, Text, codes, Result, ok,
  refuse, if◌then◌else◌, contains, contains-append,
}
use qnm_node.Base.{fed_role}

-- `ROLES`
pub data Role : Type 0 where
  admin developer guest : Role

abbrev pub guest_get : List Text
guest_get =
    codes "/local/state"
    ∷ codes "/local/receipts"
    ∷ codes "/local/outbox"
    ∷ codes "/local/pairs"
    ∷ codes "/local/wires"
    ∷ codes "/local/vault"
    ∷ codes "/local/nolie"
    ∷ codes "/local/fabric"
    ∷ codes "/local/bitmesh"
    ∷ codes "/local/unkillability"
    ∷ codes "/local/channels"
    ∷ codes "/local/phy"
    ∷ codes "/local/planes"
    ∷ codes "/local/surface"
    ∷ codes "/local/redline"
    ∷ codes "/local/fedmesh"
    ∷ codes "/local/design"
    ∷ []

abbrev pub guest_ops : List Text
guest_ops =
    codes "message"
    ∷ codes "file"
    ∷ codes "inbox"
    ∷ codes "poll"
    ∷ codes "unlock"
    ∷ codes "fetch"
    ∷ codes "trust"
    ∷ codes "design_status"
    ∷ codes "mirror_status"
    ∷ codes "mirror_serve"
    ∷ []

abbrev pub developer_only : List Text
developer_only =
    codes "task"
    ∷ codes "edge"
    ∷ codes "rollup"
    ∷ codes "push_rollup"
    ∷ codes "put"
    ∷ codes "push"
    ∷ codes "share"
    ∷ codes "sync"
    ∷ codes "sign_rollup"
    ∷ codes "airlock_promote"
    ∷ codes "pull_hops"
    ∷ codes "pull_blinds"
    ∷ codes "design_challenge"
    ∷ codes "design_unlock"
    ∷ codes "design_put"
    ∷ codes "design_move"
    ∷ codes "design_preview"
    ∷ codes "design_publish"
    ∷ codes "appeal"
    ∷ []

abbrev pub developer_ops : List Text
developer_ops = guest_ops ++ developer_only

abbrev allowed_ops : Role → List Text
allowed_ops developer = developer_ops
allowed_ops other = guest_ops

-- `authorize(actor, method, route, body)`; `op` is what `_op(body)` gives
unfoldable pub authorize : Role → Text → Text → Result Text → Result (Unit {0})
authorize admin method route op = ok tt
authorize role method route op =
    if method == codes "GET" && contains guest_get route
    then ok tt
    else if route == codes "/local/fedmesh" && method == codes "POST"
    then (op >>= λ name. if contains (allowed_ops role) name then ok tt else refuse fed_role)
    else refuse fed_role

-- Whatever a guest may call a developer may call, and whatever a developer may call the admin may.
pub authorize-rises :
    (method route : Text) (op : Result Text)
    → (authorize guest method route op ≡ ok tt → authorize developer method route op ≡ ok tt)
      × (authorize developer method route op ≡ ok tt → authorize admin method route op ≡ ok tt)
unfolding authorize
authorize-rises method route (refuse code) = ground arith
authorize-rises method route (ok name) =
    ground (arith, contains-append guest_ops (developer_only) name)
