-- ===== src/Pool.antt =====
-- Pools of vppinfra, which is not part of the repository: an interface with what its users rely on.
-- A pool keeps elements at indices; `pool_get` picks a free index, `pool_put` frees one, and
-- `pool_foreach` visits each element once.
pub mod Slots
pub mod Search
use vppsb.Common.{
  ℕ, ◌≡◌, Bool, true, false, ◌||◌, Option, none, some, List, [], ◌∷◌, ◌==◌, if◌then◌else◌,
}

abbrev pub is_some {ℓ} : {A : Type ℓ} → Option A → Bool
is_some none = false
is_some (some _) = true

abbrev pub has : ℕ → List ℕ → Bool
has i [] = false
has i (j ∷ is) = j == i || has i is

abbrev pub IsDistinct : List ℕ → Type 0
IsDistinct [] = Unit {0}
IsDistinct (i ∷ is) = (has i is ≡ false) × IsDistinct is

-- `fresh` is the index that pool_get gives next; `write` fills it, or changes an element.
pub record PoolLib : Type 1 where
  pub Pool : Type 0 → Type 0
  pub empty : (A : Type 0) → Pool A
  pub elt : {A : Type 0} → Pool A → ℕ → Option A
  pub indexes : {A : Type 0} → Pool A → List ℕ
  pub fresh : {A : Type 0} → Pool A → ℕ
  pub write : {A : Type 0} → Pool A → ℕ → A → Pool A
  pub put : {A : Type 0} → Pool A → ℕ → Pool A
  pub elt-empty : (A : Type 0) (i : ℕ) → elt (empty A) i ≡ none
  pub elt-fresh : {A : Type 0} (p : Pool A) → elt p (fresh p) ≡ none
  pub elt-write :
      {A : Type 0} (p : Pool A) (i j : ℕ) (a : A)
      → elt (write p i a) j ≡ (if i == j then some a else elt p j)
  pub elt-put :
      {A : Type 0} (p : Pool A) (i j : ℕ) → elt (put p i) j ≡ (if i == j then none else elt p j)
  pub has-indexes : {A : Type 0} (p : Pool A) (i : ℕ) → has i (indexes p) ≡ is_some (elt p i)
  pub indexes-IsDistinct : {A : Type 0} (p : Pool A) → IsDistinct (indexes p)
