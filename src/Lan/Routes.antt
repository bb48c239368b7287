-- ===== src/Lan/Routes.antt =====
-- qnsd/lan/peers.py, router.py: the pinned peers and the choice of a route. The checks of a card and of a
-- certificate, and the parsing of an address, are parameters; fields that only identify a card are not carried.
use qnm_node.Base.{
  ℕ, zero, suc, ◌+◌, ◌>>◌, refuse_if, ◌≡◌, Bool, true, false, ◌&&◌, ◌||◌, not, Option, none, some,
  List, [], ◌∷◌, ◌++◌, map, arith, ◌==◌, list_eq, nat_eq, Text, codes, Result, ok, refuse, Act,
  if◌then◌else◌, Dict, get, put, contains, contains-append, any, keep,
}
use qnm_node.Base.{lan_identity, or_else}

pub record Peer : Type 0 where
  pub handle : Text
  pub cert_pem : Text
  pub cert_sha256 : Text
  pub addresses : List Text
  pub is_active : Bool
  pub last_success_utc : Text
  pub revocation : Option (Text × Text)
  pub route_state : Text

abbrev pub Directory : Type 0
Directory = Dict Text Peer

-- `get(handle)`
unfoldable pub get_peer : Directory → Text → Result Peer
get_peer d handle = elim (get d handle) [ none ↦ refuse lan_identity | some row ↦ ok row ]

-- `active()`
unfoldable pub active : Directory → List Peer
active d = keep (λ row. row.is_active) (map (λ (k, row). row) d)

-- What `add` needs of a card and its certificate.
pub record Pin : Type 0 where
  pub handle : Text
  pub common_name : Text
  pub cert_pem : Text
  pub cert_sha256 : Text
  pub bound : Result (Unit {0})
  pub address : Result (Text × Text)

-- `add(card, cert_pem, address)`
unfoldable pub add_peer : Pin → Act Directory Text
add_peer p d =
    elim (p.bound >> refuse_if (not (p.common_name == p.handle)) lan_identity >> p.address) [
      | refuse code ↦ (refuse code, d)
      | ok (host, port) ↦ (
        ok p.handle,
        put d p.handle (record {
          handle = p.handle;
          cert_pem = p.cert_pem;
          cert_sha256 = p.cert_sha256;
          addresses = (host ++ codes ":" ++ port) ∷ [];
          is_active = true;
          last_success_utc = [];
          revocation = none;
          route_state = codes "DISCOVERED";
        }),
      )
    ]

-- `str(reason or "operator")[:80]`
unfoldable pub cut_reason : ℕ → Text → Text
cut_reason zero s = []
cut_reason (suc n) [] = []
cut_reason (suc n) (c ∷ s) = c ∷ cut_reason n s

-- `revoke(handle, reason)`
unfoldable pub revoke : Text → Text → Text → Act Directory Text
unfolding get_peer cut_reason
revoke handle reason utc d = elim (get_peer d handle) [
  | refuse code ↦ (refuse code, d)
  | ok row ↦ (
    ok handle,
    put d handle (record row {
      is_active = false;
      revocation = some (utc, cut_reason 80 (or_else reason (codes "operator")));
      route_state = codes "DISCOVERED";
    }),
  )
]

abbrev change : Text → (Peer → Peer) → Directory → Directory
change handle f d = elim (get d handle) [ none ↦ d | some row ↦ put d handle (f row) ]

-- `set_state(handle, state)` and `mark_success(handle, utc)`
unfoldable pub set_state : Text → Text → Directory → Directory
set_state handle state d = change handle (λ row. record row { route_state = state }) d

unfoldable pub mark_success : Text → Text → Directory → Directory
mark_success handle utc d =
    change handle (λ row. record row { last_success_utc = utc; route_state = codes "ACKNOWLEDGED" })
      d

module _ (parse : Text → Result (Text × Text)) where
  abbrev with_host : Result (Text × Text) → List Text → List Text
  with_host (refuse code) hosts = hosts
  with_host (ok (host, port)) hosts = host ∷ hosts

  unfoldable pub hosts_of : List Text → List Text
  hosts_of [] = []
  hosts_of (address ∷ rest) = with_host (parse address) (hosts_of rest)

  -- `approved_host_set()`
  unfoldable pub approved_host_set : Directory → List Text
  unfolding hosts_of
  approved_host_set [] = []
  approved_host_set ((k, row) ∷ d) =
      let rest = approved_host_set d in
      if row.is_active then hosts_of row.addresses ++ rest else rest

  approved-some :
      (d : Directory) (host : Text)
      → contains (approved_host_set d) host ≡ true
      → any
          (λ row. row.is_active && contains (hosts_of row.addresses) host)
          (map (λ (k, row). row) d)
        ≡ true
  unfolding approved_host_set contains any
  approved-some [] host m = absurd (ground arith)
  approved-some ((k, row) ∷ d) host m = ground (
    arith,
    approved-some d host,
    contains-append (hosts_of row.addresses) (approved_host_set d) host,
  )

-- What an attempt on a route says (`SendResult`), and the capabilities of an adapter that are read.
pub record Sent : Type 0 where
  pub outcome : Text
  pub security : Bool
  pub ack_level : Text

pub record Adapter : Type 0 where
  pub enabled : Bool
  pub revoked : Bool
  pub send : Sent

-- `_eligible(cap)`
unfoldable pub eligible : Adapter → Bool
eligible a = a.enabled && not a.revoked

abbrev pub is_barred : Sent → Bool
is_barred r = r.security || r.outcome == codes "refused" || r.outcome == codes "permanent"

abbrev pub is_stored : Sent → Bool
is_stored r = r.outcome == codes "ok" && r.ack_level == codes "stored"

-- `dispatch(packet)`: the result, and how many adapters were asked to send
unfoldable pub dispatch_from : Sent → List Adapter → Sent × ℕ
unfolding eligible
dispatch_from last [] = (last, 0)
dispatch_from last (a ∷ rest) =
    let (skipped, m) = dispatch_from last rest in
    let (later, n) = dispatch_from a.send rest in
    if not (eligible a)
    then (skipped, m)
    else if is_barred a.send || is_stored a.send
    then (a.send, 1)
    else (later, n + 1)

abbrev pub absent : Sent
absent = record { outcome = codes "absent"; security = false; ack_level = [] }

unfoldable pub dispatch : List Adapter → Sent × ℕ
unfolding dispatch_from
dispatch adapters = dispatch_from absent adapters

dispatch_from-barred :
    (last : Sent) (adapters : List Adapter)
    → is_barred last ≡ false
    → is_barred (dispatch_from last adapters).0 ≡ true
    → any (λ a. eligible a && is_barred a.send) adapters ≡ true
unfolding dispatch_from any
dispatch_from-barred last [] l b = absurd (ground (arith, l, b))
dispatch_from-barred last (a ∷ rest) l b =
    ground (arith, l, b, dispatch_from-barred last rest, dispatch_from-barred a.send rest)

-- An adapter that ends the dispatch.
abbrev pub stops : Adapter → Bool
stops a = eligible a && (is_barred a.send || is_stored a.send)

-- Once an eligible adapter refuses for security or for good, or stores the packet, no adapter after
-- it is asked and none changes the result.
pub dispatch_from-append :
    (last : Sent) (adapters lower_routes : List Adapter)
    → any stops adapters ≡ true
    → dispatch_from last (adapters ++ lower_routes) ≡ dispatch_from last adapters
unfolding dispatch_from any
dispatch_from-append last [] lower_routes s = absurd (ground (arith, s))
dispatch_from-append last (a ∷ rest) lower_routes s = ground (
  arith,
  s,
  dispatch_from-append last rest lower_routes,
  dispatch_from-append a.send rest lower_routes,
)
