-- ===== src/Base/Stores.antt =====
-- The loop with which every JSONL store of the program drops rows: it walks the rows, keeps those
-- that fail the test in order, and remembers the last row that passes it.
use mathlib.Core.Path.{◌≡◌, refl}
use mathlib.Core.Bool.{Bool, true, false, not}
use mathlib.Core.Option.{Option, none, some}
use mathlib.Core.List.{List, [], ◌∷◌, ◌++◌}
use native.Mathlib.Omega.{arith}
use qnm_node.Base.Tests.{if◌then◌else◌}
use qnm_node.Base.Lists.{any, keep}
use qnm_node.Base.Dicts.{is_some}

module _ {ℓ} {A : Type ℓ} where
  abbrev later_or : Option A → A → Option A
  later_or none a = some a
  later_or (some b) a = some b

  unfoldable pub split_off : (A → Bool) → List A → List A × Option A
  split_off p [] = ([], none)
  split_off p (x ∷ xs) =
      let (kept, removed) = split_off p xs in
      if p x then (kept, later_or removed x) else (x ∷ kept, removed)

  pub split_off-kept : (p : A → Bool) (xs : List A) → (split_off p xs).0 ≡ keep (λ x. not (p x)) xs
  unfolding split_off keep
  split_off-kept p [] = refl
  split_off-kept p (x ∷ xs) = ground (arith, split_off-kept p xs)

  pub split_off-removed : (p : A → Bool) (xs : List A) → is_some (split_off p xs).1 ≡ any p xs
  unfolding split_off any
  split_off-removed p [] = refl
  split_off-removed p (x ∷ xs) = ground (arith, split_off-removed p xs)

  -- What is removed passes the test.
  pub split_off-passes :
      (p : A → Bool) (xs : List A) (r : A) → (split_off p xs).1 ≡ some r → p r ≡ true
  unfolding split_off
  split_off-passes p [] r h = cc
  split_off-passes p (x ∷ xs) r h = ground (arith, split_off-passes p xs r)

  -- Dropping what was just added at the end gives the old rows back.
  pub keep-append_new :
      (p : A → Bool) (xs : List A) (x : A)
      → any p xs ≡ false
      → p x ≡ true
      → keep (λ y. not (p y)) (xs ++ x ∷ []) ≡ xs
  unfolding keep any
  keep-append_new p [] x h e = ground arith
  keep-append_new p (y ∷ ys) x h e = ground (arith, keep-append_new p ys x)
