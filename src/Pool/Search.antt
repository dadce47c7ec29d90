-- ===== src/Pool/Search.antt =====
-- A loop of pool_foreach that returns at the first element that passes a test.
use vppsb.Common.{
  ℕ, ◌≡◌, Bool, true, false, Option, none, some, List, [], ◌∷◌, arith, if◌then◌else◌, Option-cases,
  inl, inr, ◌∙◌, ap,
}
use vppsb.Pool.{PoolLib, has, is_some}

module _ (lib : PoolLib) {A : Type 0} where
  open lib use {Pool, elt, indexes, has-indexes}

  here_or : ℕ → (A → Bool) → Option A → Option (ℕ × A) → Option (ℕ × A)
  here_or i test none rest = rest
  here_or i test (some a) rest = if test a then some (i, a) else rest

  find_in : (A → Bool) → Pool A → List ℕ → Option (ℕ × A)
  unfolding here_or
  find_in test p [] = none
  find_in test p (i ∷ is) = here_or i test (elt p i) (find_in test p is)

  -- The first element that passes the test, in the order of the loop.
  unfoldable pub find : (A → Bool) → Pool A → Option (ℕ × A)
  unfolding find_in
  find test p = find_in test p (indexes p)

  find_in_found :
      (test : A → Bool) (p : Pool A) (is : List ℕ) {i : ℕ} {a : A}
      → find_in test p is ≡ some (i, a)
      → (elt p i ≡ some a) × (test a ≡ true)
  unfolding find_in
  find_in_found test p [] e = cc
  find_in_found test p (j ∷ is) {i} {a} e = ground (arith, find_in_found test p is {i = i} {a = a})

  find_in-none :
      (test : A → Bool) (p : Pool A) (is : List ℕ) (i : ℕ) (a : A)
      → find_in test p is ≡ none
      → has i is ≡ true
      → elt p i ≡ some a
      → test a ≡ false
  unfolding find_in
  find_in-none test p [] i a e h s = cc
  find_in-none test p (j ∷ is) i a e h s = ground (arith, find_in-none test p is i a)

  -- What is found is an element that passes.
  pub find_found :
      (test : A → Bool) (p : Pool A) {i : ℕ} {a : A}
      → find test p ≡ some (i, a)
      → (elt p i ≡ some a) × (test a ≡ true)
  unfolding find
  find_found test p = find_in_found test p (indexes p)

  -- If nothing is found no element passes.
  pub find-none :
      (test : A → Bool) (p : Pool A) (i : ℕ) (a : A)
      → find test p ≡ none
      → elt p i ≡ some a
      → test a ≡ false
  unfolding find
  find-none test p i a e s =
      find_in-none test p (indexes p) i a e (has-indexes p i ∙ ap is_some s) s

  -- Something is found exactly where an element passes.
  pub find-some :
      (test : A → Bool) (p : Pool A) (i : ℕ) (a : A)
      → elt p i ≡ some a
      → test a ≡ true
      → (j : ℕ) × (b : A) × (find test p ≡ some (j, b)) × (elt p j ≡ some b) × (test b ≡ true)
  find-some test p i a s t = elim (Option-cases (find test p)) [
    | inl e ↦ cc (find-none test p i a e s)
    | inr w ↦ let f = find_found test p {i = w.0.0} {a = w.0.1} w.1 in (w.0.0, w.0.1, w.1, f.0, f.1)
  ]
