-- ===== src/Base/Outcomes.antt =====
-- A refusal (`QNMRefuse`, `QNSRefuse`, `LanRefuse`) by its code, and results that may be refusals.
-- The detail text of a refusal is for people and is not carried.
use mathlib.Core.Path.{◌≡◌, refl}
use mathlib.Core.Logic.{◌⊎◌, inl, inr}
use mathlib.Core.Bool.{Bool, true, false}

pub data Code : Type 0 where
  no_auto_heal resume_lock_only identity_refused scorched no_account state_locked : Code
  tamper_isolate apg_poison apg_refuse score_no_views no_rewrite no_rewrite_key : Code
  radio_off bearer_off phoenix_local_wait no_neighbor no_majority chatter_refused : Code
  no_lie_to_live tether_clean anon_no_publish outbox_cut no_public_geo : Code
  wires_fail_closed tick_size two_clocks tick_plane pull_only clock_desync dwell_cite : Code
  equivocation hash_absolute emit_last no_unsend no_splice rejoin_cite heartbeat : Code
  handshake no_edges pair_cut not_bell : Code
  fed_gap fed_replay fed_fork fed_quarantine fed_breaker fed_peer_quota fed_role : Code
  fed_tamper fed_quota fed_fetch fed_policy no_voice receipt_hash_mismatch : Code
  qns_pair_cut qns_no_emit sticky_via via_unknown via_sanitize photon_refused : Code
  lan_quota lan_fork lan_malformed lan_identity lan_refused lan_expired lan_clock lan_version : Code
  lan_unavailable lan_timeout : Code
  named_hosts no_vpn cold_missing cold_pin no_live_sync no_creator no_one_tunnel : Code

-- What a call gives: the exception's code, or the value that is returned.
pub data Result {κ} (V : Type κ) : Type κ where
  refuse : (code : Code) → Result V
  ok : (value : V) → Result V

infixl 5 ◌>>=◌
-- The next statement, unless an exception was raised.
abbrev pub ◌>>=◌ {κ μ} : {V : Type κ} {W : Type μ} → Result V → (next : V → Result W) → Result W
refuse code >>= next = refuse code
ok value >>= next = next value

infixl 5 ◌>>◌
abbrev pub ◌>>◌ {μ} : {W : Type μ} → Result (Unit {0}) → (next : Result W) → Result W
first >> next = first >>= (λ ignored. next)

-- `if c: raise QNMRefuse(code)`
abbrev pub refuse_if : Bool → Code → Result (Unit {0})
refuse_if true c = refuse c
refuse_if false c = ok tt

abbrev pub is_ok {ℓ} : {A : Type ℓ} → Result A → Bool
is_ok (ok a) = true
is_ok (refuse c) = false

-- A method that changes its object: what was written before a refusal stays written.
abbrev pub Act : Type 0 → Type 0 → Type 0
Act S A = S → Result A × S

-- One method after another on one object: a refusal ends the chain and keeps what was written.
abbrev pub continue : {A B S : Type 0} → (A → Act S B) → Result A × S → Result B × S
continue f (ok a, s) = f a s
continue f (refuse c, s) = (refuse c, s)

infixl 5 ◌>>>◌
unfoldable pub ◌>>>◌ : {A B S : Type 0} → Act S A → (A → Act S B) → Act S B
(m >>> f) s = continue f (m s)

pub >>=-eq-ok {ℓ κ} :
    {A : Type ℓ} {B : Type κ} (m : Result A) (f : A → Result B) (b : B)
    → (m >>= f) ≡ ok b
    → (a : A) × (m ≡ ok a) × (f a ≡ ok b)
>>=-eq-ok (ok a) f b h = (a, refl, h)
>>=-eq-ok (refuse c) f b h = cc

-- To split on a computed result and keep the equation.
pub Result-cases {ℓ} :
    {A : Type ℓ} (r : Result A) → ((a : A) × (r ≡ ok a)) ⊎ ((c : Code) × (r ≡ refuse c))
Result-cases (ok a) = inl (a, refl)
Result-cases (refuse c) = inr (c, refl)
