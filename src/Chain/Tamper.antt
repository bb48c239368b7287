-- ===== src/Chain/Tamper.antt =====
-- qnm/chain.py: tamper evidence. Two chains that `verify` accepts, that end in the same tip
-- and are of one length hold the same texts, or two different texts of theirs at one place have one hash.
use qnm_node.Base.{
  ◌≡◌, refl, ap, ◌≢◌, ◌⊎◌, inl, inr, List, [], ◌∷◌, map, arith, ◌==◌, list_eq, nat_eq, list_beq_iff,
  Text, Bool-cases, length,
}
use qnm_node.Digest.{Hash}
use qnm_node.Chain.{Core, Link, Chain, genesis_prev, none_left, tip_from, tip, core_of, verify}
use qnm_node.Chain.Seal.{Linked, verify_from-Linked}

module _ {Body : Type 0} (h : Hash) (canonical : Core Body → Text) where
  -- The canonical JSON of each link, which is what the chain commits to.
  abbrev pub texts : List (Link Body) → List Text
  texts = map (λ l. canonical (core_of l))

  -- At one place the two chains hold different texts with one hash.
  abbrev pub Clash : List (Link Body) → List (Link Body) → Type 0
  Clash [] ys = ⊥
  Clash (x ∷ xs) [] = ⊥
  Clash (x ∷ xs) (y ∷ ys) =
      ((canonical (core_of x) ≢ canonical (core_of y))
        × (h.sha256_hex (canonical (core_of x)) ≡ h.sha256_hex (canonical (core_of y))))
      ⊎ Clash xs ys

  module _ (canonical-prev : (a b : Core Body) → canonical a ≡ canonical b → a.prev ≡ b.prev) where
    same_or_Clash :
        (p q : Text) (xs ys : List (Link Body))
        → Linked h canonical p xs
        → Linked h canonical q ys
        → length xs ≡ length ys
        → tip_from p xs ≡ tip_from q ys
        → ((p ≡ q) × (texts xs ≡ texts ys)) ⊎ Clash xs ys
    unfolding tip_from core_of
    same_or_Clash p q [] [] a b n t = inl (t, refl)
    same_or_Clash p q [] (y ∷ ys) a b n t = absurd (omega arith)
    same_or_Clash p q (x ∷ xs) [] a b n t = absurd (omega arith)
    same_or_Clash p q (x ∷ xs) (y ∷ ys) a b n t =
        elim (same_or_Clash x.hash y.hash xs ys a.2 b.2 (omega arith) t) [
          | inr found ↦ inr (inr found)
          | inl same ↦ elim (Bool-cases (canonical (core_of x) == canonical (core_of y))) [
            | inl eq ↦
                let e = (list_beq_iff (canonical (core_of x)) (canonical (core_of y))).0 eq in
                inl (cc (a.1, b.1, canonical-prev (core_of x) (core_of y) e), cc (e, same.1))
            | inr ne ↦ inr (
                inl (
                  λ e. cc ((list_beq_iff (canonical (core_of x)) (canonical (core_of y))).1 e),
                  cc (a.0, b.0, same.0),
                ))
          ]
        ]

    -- Two chains that `verify` accepts, of one length and with one tip, hold the same canonical
    -- texts link by link, or at one place in them stand two different canonical texts with one hash. The
    -- canonical text of a link is assumed to determine its `prev`.
    pub tip-determines-texts :
        (c d : Chain Body)
        → (verify h canonical c).errors ≡ []
        → (verify h canonical d).errors ≡ []
        → length c.links ≡ length d.links
        → tip c ≡ tip d
        → (texts c.links ≡ texts d.links) ⊎ Clash c.links d.links
    unfolding verify tip none_left
    tip-determines-texts c d v w n t =
        elim (same_or_Clash genesis_prev genesis_prev c.links d.links
          ((verify_from-Linked h canonical 0 genesis_prev c.links).0 (ap none_left v))
          ((verify_from-Linked h canonical 0 genesis_prev d.links).0 (ap none_left w)) n t) [
            | inl same ↦ inl same.1
            | inr found ↦ inr found
          ]
