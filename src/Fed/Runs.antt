-- ===== src/Fed/Runs.antt =====
-- qnm/fedmesh/chain.py: the receipts of each handle run on from genesis.
use qnm_node.Base.{
  ℕ, ◌+◌, ◌≤◌, ◌≡◌, refl, sym, inl, inr, Bool, true, ◌&&◌, none, some, List, [], ◌∷◌, ◌++◌, arith,
  nat_beq, ◌==◌, list_eq, nat_eq, list_beq_iff, Text, Bool-cases, Result-cases, Result, ok, refuse,
  Code, if◌then◌else◌, get, get-put, get-put_self,
}
use qnm_node.Base.{fed_replay, fed_fork, pair_eq}
use qnm_node.Chain.{genesis_prev}
use qnm_node.Fed.Receipts.{
  Anchor, Ledger, classify_link, classify_link_iff, tip, prefix, enter, admits, accept, submit,
  submit_all,
}

-- The rows run on from this number and hash: each has the next number and names the last hash.
unfoldable pub runs_on : ℕ → Text → List Anchor → Bool
runs_on n prev [] = true
runs_on n prev (a ∷ rows) = nat_beq a.seq (n + 1) && a.prev == prev && runs_on a.seq a.hash rows

-- Where rows end that start after this number and hash.
unfoldable pub end_of : ℕ → Text → List Anchor → ℕ × Text
end_of n prev [] = (n, prev)
end_of n prev (a ∷ rows) = end_of a.seq a.hash rows

runs_on-append :
    (n : ℕ) (prev : Text) (rows : List Anchor) (a : Anchor)
    → runs_on n prev rows ≡ true
    → a.seq ≡ (end_of n prev rows).0 + 1
    → a.prev ≡ (end_of n prev rows).1
    → runs_on n prev (rows ++ a ∷ []) ≡ true
unfolding runs_on end_of
runs_on-append n prev [] a r s p = ground (arith, list_beq_iff a.prev prev)
runs_on-append n prev (b ∷ rows) a r s p = ground (arith, runs_on-append b.seq b.hash rows a)

end_of-append :
    (n : ℕ) (prev : Text) (rows : List Anchor) (a : Anchor)
    → end_of n prev (rows ++ a ∷ []) ≡ (a.seq, a.hash)
unfolding end_of
end_of-append n prev [] a = refl
end_of-append n prev (b ∷ rows) a = end_of-append b.seq b.hash rows a

-- The receipts of each handle run on from genesis, and its tip is where they end.
pub record IsRun (l : Ledger) (handle : Text) : Type 0 where
  pub runs : runs_on 0 genesis_prev (prefix l handle) ≡ true
  pub ends : tip l handle ≡ end_of 0 genesis_prev (prefix l handle)

prefix-enter :
    (a : Anchor) (l : Ledger) (k : Text)
    → prefix (enter a l) k ≡ (if a.handle == k then prefix l a.handle ++ a ∷ [] else prefix l k)
unfolding prefix enter
prefix-enter a l k = ground (arith, get-put l.anchors a.handle k (prefix l a.handle ++ a ∷ []))

tip-enter :
    (a : Anchor) (l : Ledger) (k : Text)
    → tip (enter a l) k ≡ (if a.handle == k then (a.seq, a.hash) else tip l k)
unfolding tip enter
tip-enter a l k = ground (arith, get-put l.tips a.handle k (a.seq, a.hash))

module _ (verify_anchor : Anchor → Result (Unit {0})) where
  admits_lem :
      (a : Anchor) (l : Ledger) (u : Unit {0})
      → admits verify_anchor a l ≡ ok u
      → (get l.seen (a.handle, a.seq) ≡ none)
        × (a.seq ≡ (tip l a.handle).0 + 1)
        × (a.prev ≡ (tip l a.handle).1)
  unfolding admits tip
  admits_lem a l u e = elim (Result-cases (verify_anchor a)) [
    | inl (v, f) ↦ ground (
      arith,
      classify_link_iff (get l.seen (a.handle, a.seq)) (get l.tips a.handle) a.seq a.prev a.hash,
    )
    | inr (code, f) ↦ ground arith
  ]

  enter-IsRun :
      (a : Anchor) (l : Ledger) (k : Text)
      → a.seq ≡ (tip l a.handle).0 + 1
      → a.prev ≡ (tip l a.handle).1
      → IsRun l k
      → IsRun l a.handle
      → IsRun (enter a l) k
  enter-IsRun a l k s p r own = elim (Bool-cases (a.handle == k)) [
    | inl same ↦ record {
      runs =
          rw (prefix-enter a l k, same)
            (runs_on-append 0 genesis_prev (prefix l a.handle) a own.runs (ground (arith, own.ends))
              (ground (arith, own.ends)));
      ends =
          rw (prefix-enter a l k, tip-enter a l k, same)
            (sym (end_of-append 0 genesis_prev (prefix l a.handle) a));
    }
    | inr other ↦ record {
      runs = rw (prefix-enter a l k, other) r.runs;
      ends = rw (prefix-enter a l k, tip-enter a l k, other) r.ends;
    }
  ]

  same_rows :
      (l : Ledger) (f : List Anchor) (k : Text) → IsRun l k → IsRun (record l { file = f }) k
  unfolding prefix tip
  same_rows l f k r = record { runs = r.runs; ends = r.ends }

  seen-enter : (a : Anchor) (l : Ledger) → get (enter a l).seen (a.handle, a.seq) ≡ some a.hash
  unfolding enter
  seen-enter a l = get-put_self l.seen (a.handle, a.seq) a.hash

  admits-seen :
      (b : Anchor) (l : Ledger) (known : Text) (u : Unit {0})
      → get l.seen (b.handle, b.seq) ≡ some known
      → 1 ≤ b.seq
      → verify_anchor b ≡ ok u
      → admits verify_anchor b l ≡ refuse (if known == b.hash then fed_replay else fed_fork)
  unfolding admits classify_link
  admits-seen b l known u seen positive signed = ground arith

  submit-granted :
      (a : Anchor) (l : Ledger) (u : Unit {0})
      → admits verify_anchor a l ≡ ok u
      → submit verify_anchor a l ≡ (ok a, enter a (record l { file = l.file ++ a ∷ [] }))
  unfolding submit accept admits
  submit-granted a l u e = ground arith

  submit-refused :
      (a : Anchor) (l : Ledger) (code : Code)
      → admits verify_anchor a l ≡ refuse code
      → submit verify_anchor a l ≡ (refuse code, l)
  unfolding submit accept admits
  submit-refused a l code e = ground arith

  -- A request, taken or refused, keeps the receipts of every handle running on from genesis.
  pub submit-IsRun :
      (a : Anchor) (l : Ledger) (k : Text)
      → ((i : Text) → IsRun l i)
      → IsRun (submit verify_anchor a l).1 k
  unfolding tip
  submit-IsRun a l k r = elim (Result-cases (admits verify_anchor a l)) [
    | inl (u, e) ↦
        let facts = admits_lem a l u e in
        rw (submit-granted a l u e) (
          enter-IsRun a (record l { file = l.file ++ a ∷ [] }) k facts.1 facts.2
            (same_rows l (l.file ++ a ∷ []) k (r k))
            (same_rows l (l.file ++ a ∷ []) a.handle (r a.handle)))
    | inr (code, e) ↦ rw (submit-refused a l code e) (r k)
  ]

  -- Whatever is submitted in whatever order to a ledger in which the receipts of every handle run on
  -- from genesis, each with the next number and the last hash, and its tip is the last of them, that
  -- is so of every handle after it.
  pub submit_all-IsRun :
      (rows : List Anchor) (l : Ledger) (k : Text)
      → ((i : Text) → IsRun l i)
      → IsRun (submit_all verify_anchor rows l) k
  unfolding submit_all
  submit_all-IsRun [] l k r = r k
  submit_all-IsRun (a ∷ rows) l k r =
      submit_all-IsRun rows (submit verify_anchor a l).1 k (λ i. submit-IsRun a l i r)

  -- Right after an anchor was taken, one under its handle and number whose signature is in order is
  -- refused, as a replay if the hash is the same and as a fork if it is another, and changes nothing.
  pub submit-submit :
      (a b : Anchor) (l : Ledger) (u : Unit {0})
      → (submit verify_anchor a l).0 ≡ ok a
      → b.handle ≡ a.handle
      → b.seq ≡ a.seq
      → verify_anchor b ≡ ok u
      → submit verify_anchor b (submit verify_anchor a l).1
        ≡ (refuse (if a.hash == b.hash then fed_replay else fed_fork), (submit verify_anchor a l).1)
  submit-submit a b l u e same_handle same_seq signed =
      elim (Result-cases (admits verify_anchor a l)) [
        | inl (v, f) ↦
            let facts = admits_lem a l v f in
            let after = enter a (record l { file = l.file ++ a ∷ [] }) in
            rw (submit-granted a l v f) (
              submit-refused b after _ (
                admits-seen b after a.hash u
                  (rw (same_handle, same_seq) (seen-enter a (record l { file = l.file ++ a ∷ [] })))
                  (ground (arith, facts.1)) signed))
        | inr (code, f) ↦ absurd (ground (arith, submit-refused a l code f))
      ]
