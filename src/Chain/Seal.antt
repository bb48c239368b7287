-- ===== src/Chain/Seal.antt =====
-- qnm/chain.py: what `verify` accepts, and that every history of `append` is accepted.
use qnm_node.Base.{Bool, false, not, any, all, is_empty, strip, Option, some}
use qnm_node.Base.{
  ℕ, suc, ◌+◌, ◌≡◌, refl, sym, ap, ◌∙◌, ◌↔◌, inl, inr, true, ◌&&◌, List, [], ◌∷◌, ◌++◌, arith,
  list_eq, nat_eq, list_beq_iff, list_beq_refl, Text, Bool-cases, length,
}
use mathlib.Core.List.{append-nil, append_assoc}
use native.Mathlib.Nat.{add-zero}
use qnm_node.Digest.{Hash}
use qnm_node.Chain.{
  Core, Link, Chain, Fault, none_left, genesis_prev, empty_chain, is_forbidden_kind, tip_from, tip,
  is_boundary, split_lines, written, parse_lines, load, core_of, append, make_link, faults_at,
  verify_from, verify,
}

none_left-append : (xs ys : List Fault) → none_left (xs ++ ys) ≡ (none_left xs && none_left ys)
unfolding none_left
none_left-append [] ys = refl
none_left-append (x ∷ xs) ys = refl

module _ {Body : Type 0} where
  pub tip_from-append :
      (prev : Text) (ls : List (Link Body)) (l : Link Body) → tip_from prev (ls ++ l ∷ []) ≡ l.hash
  unfolding tip_from
  tip_from-append prev [] l = refl
  tip_from-append prev (k ∷ ls) l = tip_from-append k.hash ls l

  -- The sequence numbers count up from n + 1.
  abbrev pub IsNumbered : ℕ → List (Link Body) → Type 0
  IsNumbered n [] = Unit
  IsNumbered n (l ∷ ls) = (l.seq ≡ n + 1) × IsNumbered (n + 1) ls

  pub IsNumbered-append :
      (n : ℕ) (ls : List (Link Body)) (l : Link Body)
      → IsNumbered n ls
      → l.seq ≡ n + length ls + 1
      → IsNumbered n (ls ++ l ∷ [])
  IsNumbered-append n [] l h e = (omega arith, tt)
  IsNumbered-append n (k ∷ ls) l h e = (h.0, IsNumbered-append (n + 1) ls l h.1 (omega arith))

module _ {Body : Type 0} (h : Hash) (canonical : Core Body → Text) where
  -- Every hash is that of its own core, and every `prev` is the hash before it.
  abbrev pub Linked : Text → List (Link Body) → Type 0
  Linked prev [] = Unit
  Linked prev (l ∷ ls) =
      (l.hash ≡ h.sha256_hex (canonical (core_of l))) × (l.prev ≡ prev) × Linked l.hash ls

  faults_at-none :
      (i : ℕ) (prev : Text) (l : Link Body)
      → (none_left (faults_at h canonical i prev l) ≡ true)
        ↔ ((l.hash ≡ h.sha256_hex (canonical (core_of l))) × (l.prev ≡ prev))
  unfolding faults_at none_left
  faults_at-none i prev l =
      ground (
        arith,
        list_beq_iff l.hash (h.sha256_hex (canonical (core_of l))),
        list_beq_iff l.prev prev,
      )

  pub verify_from-Linked :
      (i : ℕ) (prev : Text) (ls : List (Link Body))
      → (none_left (verify_from h canonical i prev ls) ≡ true) ↔ Linked prev ls
  unfolding verify_from
  verify_from-Linked i prev [] = (λ _. tt, λ _. unfold none_left in refl)
  verify_from-Linked i prev (l ∷ ls) =
      rw (none_left-append (faults_at h canonical i prev l))
        (ground (arith, faults_at-none i prev l, verify_from-Linked (i + 1) l.hash ls))

  -- The faults of a longer chain are the old ones and those of the last link.
  verify_from-append :
      (i : ℕ) (prev : Text) (ls : List (Link Body)) (l : Link Body)
      → verify_from h canonical i prev (ls ++ l ∷ [])
        ≡ verify_from h canonical i prev ls
          ++ faults_at h canonical (i + length ls) (tip_from prev ls) l
  unfolding verify_from tip_from
  verify_from-append i prev [] l = rw (append-nil, add-zero) refl
  verify_from-append i prev (k ∷ ls) l = rw (verify_from-append (i + 1) k.hash ls l) (
      rw (let e : i + 1 + length ls ≡ i + suc (length ls) = omega arith in e)
        (sym (append_assoc (faults_at h canonical i prev k) _ _)))

  -- A link made on these links has no fault on top of them.
  faults_at-make_link :
      (i : ℕ) (ls : List (Link Body)) (kind : Text) (body : Body) (utc : Text)
      → faults_at h canonical i (tip_from genesis_prev ls) (make_link h canonical ls kind body utc)
        ≡ []
  unfolding faults_at make_link core_of
  faults_at-make_link i ls kind body utc = simp list_beq_refl

  -- An append, refused or not, neither hides a fault nor makes one.
  pub verify-append :
      (kind : Text) (body : Body) (utc : Text) (c : Chain Body)
      → (verify h canonical (append h canonical kind body utc c).1).errors
        ≡ (verify h canonical c).errors
  unfolding verify append tip
  verify-append kind body utc c = elim (Bool-cases (is_forbidden_kind kind)) [
    | inl refused ↦ rw refused refl
    | inr fresh ↦ rw fresh (
        verify_from-append 0 genesis_prev c.links (make_link h canonical c.links kind body utc)
        ∙ rw faults_at-make_link (append-nil _))
  ]

-- What every history of appends keeps: the file holds the links in memory, they are linked, and
-- they are numbered from 1.
module _ {Body : Type 0} (h : Hash) (canonical : Core Body → Text) where
  pub record IsSound (c : Chain Body) : Type 0 where
    pub on_disk : c.file ≡ c.links
    pub linked : (verify h canonical c).errors ≡ []
    pub numbered : IsNumbered 0 c.links

  pub empty_chain-IsSound : IsSound empty_chain
  unfolding verify
  empty_chain-IsSound = record { on_disk = refl; linked = refl; numbered = tt }

  append-on_disk :
      (kind : Text) (body : Body) (utc : Text) (c : Chain Body)
      → c.file ≡ c.links
      → (append h canonical kind body utc c).1.file ≡ (append h canonical kind body utc c).1.links
  unfolding append
  append-on_disk kind body utc c e = ground arith

  append-IsNumbered :
      (kind : Text) (body : Body) (utc : Text) (c : Chain Body)
      → IsNumbered 0 c.links
      → IsNumbered 0 (append h canonical kind body utc c).1.links
  unfolding append make_link
  append-IsNumbered kind body utc c n = elim (Bool-cases (is_forbidden_kind kind)) [
    | inl refused ↦ rw refused n
    | inr fresh ↦ rw fresh (IsNumbered-append 0 c.links _ n (omega arith))
  ]

  -- Any append keeps the chain sound, whether it returns or refuses.
  pub append-IsSound :
      (kind : Text) (body : Body) (utc : Text) (c : Chain Body)
      → IsSound c
      → IsSound (append h canonical kind body utc c).1
  append-IsSound kind body utc c s = record {
    on_disk = append-on_disk kind body utc c s.on_disk;
    linked = verify-append h canonical kind body utc c ∙ s.linked;
    numbered = append-IsNumbered kind body utc c s.numbered;
  }

  -- A history of requests, each with the clock's reading; a refusal ends only its own request.
  unfoldable pub run : List (Text × Body × Text) → Chain Body → Chain Body
  run [] c = c
  run ((kind, body, utc) ∷ rs) c = run rs (append h canonical kind body utc c).1

  pub run-IsSound :
      (rs : List (Text × Body × Text)) (c : Chain Body) → IsSound c → IsSound (run rs c)
  unfolding run
  run-IsSound [] c s = s
  run-IsSound ((kind, body, utc) ∷ rs) c s = run-IsSound rs _ (append-IsSound kind body utc c s)

pub run_errors :
    {Body : Type 0} (h : Hash) (canonical : Core Body → Text) (rs : List (Text × Body × Text))
    → (verify h canonical (run h canonical rs empty_chain)).errors ≡ []
run_errors h canonical rs =
    (run-IsSound h canonical rs empty_chain (empty_chain-IsSound h canonical)).linked

-- Reading back what was written.
-- A line that `splitlines` keeps whole and that `_load` does not skip.
abbrev pub is_line : Text → Bool
is_line text = not (any is_boundary text) && not (is_empty (strip text))

split_lines-append :
    (t rest : Text)
    → any is_boundary t ≡ false
    → split_lines (t ++ 10 ∷ rest) ≡ t ∷ split_lines rest
unfolding split_lines any is_boundary
split_lines-append [] rest h = refl
split_lines-append (c ∷ t) rest h = ground (arith, split_lines-append t rest)

module _ {Body : Type 0} (h : Hash) (canonical : Core Body → Text) (dumps : Link Body → Text)
    (loads : Text → Option (Link Body)) where
  -- Each row is read back by `json.loads` as it was.
  abbrev pub ReadBack : List (Link Body) → Type 0
  ReadBack [] = Unit {0}
  ReadBack (l ∷ ls) = (loads (dumps l) ≡ some l) × ReadBack ls

  parse_lines-written :
      (ls : List (Link Body))
      → ReadBack ls
      → all (λ l. is_line (dumps l)) ls ≡ true
      → parse_lines dumps loads (split_lines (written dumps loads ls)) ≡ some ls
  unfolding parse_lines written split_lines all
  parse_lines-written [] back whole = refl
  parse_lines-written (l ∷ ls) back whole =
      rw (split_lines-append (dumps l) (written dumps loads ls) (ground (arith, whole)))
        (ground (arith, back.0, whole, parse_lines-written ls back.1))

  load_lem :
      (c : Chain Body)
      → c.file ≡ c.links
      → ReadBack c.file
      → all (λ l. is_line (dumps l)) c.file ≡ true
      → load dumps loads c.file ≡ some c
  unfolding load
  load_lem c e back whole =
      rw (load, parse_lines-written c.file back whole)
        (ap (λ (ls : List (Link Body)). some (record c { links = ls })) e)

  -- After any history from an empty chain, `verify` reports no error, the links are numbered from 1,
  -- and a restart that loads the file gives the same chain back; provided that each row
  -- that was written is read back by `json.loads` as it was, is not blank, and holds no line boundary
  -- of `splitlines`.
  pub run_restart :
      (rs : List (Text × Body × Text))
      → ReadBack (run h canonical rs empty_chain).file
      → all (λ l. is_line (dumps l)) (run h canonical rs empty_chain).file ≡ true
      → (load dumps loads (run h canonical rs empty_chain).file
          ≡ some (run h canonical rs empty_chain))
        × ((verify h canonical (run h canonical rs empty_chain)).errors ≡ [])
        × IsNumbered 0 (run h canonical rs empty_chain).links
  run_restart rs back whole =
      let s = run-IsSound h canonical rs empty_chain (empty_chain-IsSound h canonical) in
      (load_lem (run h canonical rs empty_chain) s.on_disk back whole, s.linked, s.numbered)
