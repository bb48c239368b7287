-- ===== src/Wires/Payloads.antt =====
-- qnm/wires.py: payloads are kept for pulling, under the hash of their bytes.
use qnm_node.Base.{
  ℕ, length, ap, ◌∙◌, Bool-cases, ◌==◌, ◌≡◌, ◌≢◌, inl, inr, Option, none, some, List, ◌∷◌, arith,
  list_eq, nat_eq, list_beq_iff, Text, Option-cases, Result-cases, ok, refuse, get, get-put_self,
}
use qnm_node.Base.{wires_fail_closed, or_else}
use mathlib.Core.Path.{subst}
use qnm_node.Digest.{Hash, canonical_hash, canonical_hash-digest, canonical_hash_self}
use qnm_node.Wires.{Wires, store_for_pull, pull_payload}

-- Bytes whose store is granted, with their digest or with none given, can be pulled under the tip that the
-- store answered with, and the pull reports that tip and their number.
pub pull-store :
    (h : Hash) (body : List ℕ) (digest : Option Text) (w : Wires) (tip : Text)
    → (store_for_pull h body digest w).0 ≡ ok tip
    → pull_payload h tip (store_for_pull h body digest w).1 ≡ ok (tip, length body)
unfolding store_for_pull pull_payload
pull-store h body none w tip e = elim (Result-cases (canonical_hash (h.sha256_hex body))) [
  | inl (t, f) ↦ ground (
    arith,
    f,
    canonical_hash_self (h.sha256_hex body) (h.sha256_hex-IsDigest body),
    get-put_self w.payloads t body,
    list_beq_iff (h.sha256_hex body) t,
  )
  | inr (code, f) ↦ ground arith
]
pull-store h body (some d) w tip e =
    elim (Result-cases (canonical_hash (or_else d (h.sha256_hex body)))) [
      | inl (t, f) ↦ ground (
        arith,
        f,
        canonical_hash_self t (canonical_hash-digest (or_else d (h.sha256_hex body)) t f),
        get-put_self w.payloads t body,
        list_beq_iff (h.sha256_hex body) t,
      )
      | inr (code, f) ↦ ground arith
    ]

-- A pull that is granted is of kept bytes whose hash is the canonical digest asked for, and reports
-- their number.
pub pull_payload-hash :
    (h : Hash) (digest : Text) (w : Wires) (tip : Text) (n : ℕ)
    → pull_payload h digest w ≡ ok (tip, n)
    → (body : List ℕ) × (get w.payloads tip ≡ some body)
      × (h.sha256_hex body ≡ tip)
      × (length body ≡ n)
      × (canonical_hash digest ≡ ok tip)
unfolding pull_payload
pull_payload-hash h digest w tip n e = elim (Result-cases (canonical_hash digest)) [
  | inl (t, f) ↦ elim (Option-cases (get w.payloads t)) [
    | inl g ↦ absurd (ground (arith, e, f, g))
    | inr (b, g) ↦ elim (Bool-cases (h.sha256_hex b == t)) [
      | inl same ↦
          let named : t ≡ tip = ground (arith, e, f, g, same) in
          let counted : length b ≡ n = ground (arith, e, f, g, same) in
          (
            b,
            subst (λ d. get w.payloads d ≡ some b) named g,
            (list_beq_iff (h.sha256_hex b) t).0 same ∙ named,
            counted,
            f ∙ ap (λ d. ok d) named,
          )
      | inr other ↦ absurd (ground (arith, e, f, g, other))
    ]
  ]
  | inr (code, f) ↦ absurd (ground (arith, e, f))
]

-- Storing with a digest that is not the hash of the bytes is refused and keeps nothing.
pub store_mismatch :
    (h : Hash) (body : List ℕ) (c : ℕ) (d tip : Text) (w : Wires)
    → canonical_hash (c ∷ d) ≡ ok tip
    → h.sha256_hex body ≢ tip
    → store_for_pull h body (some (c ∷ d)) w ≡ (refuse wires_fail_closed, w)
unfolding store_for_pull
store_mismatch h body c d tip w e ne = ground (arith, list_beq_iff (h.sha256_hex body) tip)
