-- ===== src/Pool/Slots.antt =====
-- A pool as a list of slots that are never used again: the interface of pools can be met.
use vppsb.Common.{
  ℕ, zero, suc, ◌≡◌, refl, ◌∙◌, false, Option, none, some, List, [], ◌∷◌, arith, ◌==◌,
  if◌then◌else◌, length, get_or, set, map,
}
use vppsb.Pool.{PoolLib, has, is_some, IsDistinct}

module _ {A : Type 0} where
  abbrev pub fill : List (Option A) → ℕ → A → List (Option A)
  fill [] zero a = some a ∷ []
  fill [] (suc i) a = none ∷ fill [] i a
  fill (x ∷ xs) zero a = some a ∷ xs
  fill (x ∷ xs) (suc i) a = x ∷ fill xs i a

  abbrev pub live : List (Option A) → List ℕ
  live [] = []
  live (none ∷ xs) = map suc (live xs)
  live (some a ∷ xs) = 0 ∷ map suc (live xs)

  pub get_or-length : (xs : List (Option A)) → get_or xs (length xs) none ≡ none
  get_or-length [] = refl
  get_or-length (x ∷ xs) = get_or-length xs

  pub get_or-fill :
      (xs : List (Option A)) (i j : ℕ) (a : A)
      → get_or (fill xs i a) j none ≡ (if i == j then some a else get_or xs j none)
  get_or-fill [] zero zero a = refl
  get_or-fill [] zero (suc j) a = ground arith
  get_or-fill [] (suc i) zero a = ground arith
  get_or-fill [] (suc i) (suc j) a = ground (arith, get_or-fill [] i j a)
  get_or-fill (x ∷ xs) zero zero a = refl
  get_or-fill (x ∷ xs) zero (suc j) a = ground arith
  get_or-fill (x ∷ xs) (suc i) zero a = ground arith
  get_or-fill (x ∷ xs) (suc i) (suc j) a = ground (arith, get_or-fill xs i j a)

  pub get_or-clear :
      (xs : List (Option A)) (i j : ℕ)
      → get_or (set xs i none) j none ≡ (if i == j then none else get_or xs j none)
  get_or-clear [] i j = ground arith
  get_or-clear (x ∷ xs) zero zero = refl
  get_or-clear (x ∷ xs) zero (suc j) = ground arith
  get_or-clear (x ∷ xs) (suc i) zero = ground arith
  get_or-clear (x ∷ xs) (suc i) (suc j) = ground (arith, get_or-clear xs i j)

has-map-suc : (i : ℕ) (is : List ℕ) → has (suc i) (map suc is) ≡ has i is
has-map-suc i [] = refl
has-map-suc i (j ∷ is) = ground (arith, has-map-suc i is)

has_zero-map-suc : (is : List ℕ) → has 0 (map suc is) ≡ false
has_zero-map-suc [] = refl
has_zero-map-suc (j ∷ is) = ground (arith, has_zero-map-suc is)

IsDistinct-map-suc : (is : List ℕ) → IsDistinct is → IsDistinct (map suc is)
IsDistinct-map-suc [] d = tt
IsDistinct-map-suc (i ∷ is) d = (has-map-suc i is ∙ d.0, IsDistinct-map-suc is d.1)

pub has-live :
    {A : Type 0} (xs : List (Option A)) (i : ℕ) → has i (live xs) ≡ is_some (get_or xs i none)
has-live [] i = refl
has-live (none ∷ xs) zero = has_zero-map-suc (live xs)
has-live (none ∷ xs) (suc i) = has-map-suc i (live xs) ∙ has-live xs i
has-live (some a ∷ xs) zero = ground arith
has-live (some a ∷ xs) (suc i) = ground (arith, has-map-suc i (live xs), has-live xs i)

pub live-IsDistinct : {A : Type 0} (xs : List (Option A)) → IsDistinct (live xs)
live-IsDistinct [] = tt
live-IsDistinct (none ∷ xs) = IsDistinct-map-suc (live xs) (live-IsDistinct xs)
live-IsDistinct (some a ∷ xs) =
    (has_zero-map-suc (live xs), IsDistinct-map-suc (live xs) (live-IsDistinct xs))

abbrev pub slots : PoolLib
slots = record {
  Pool = λ A. List (Option A);
  empty = λ A. [];
  elt = λ p i. get_or p i none;
  indexes = λ p. live p;
  fresh = λ p. length p;
  write = λ p i a. fill p i a;
  put = λ p i. set p i none;
  elt-empty = λ A i. refl;
  elt-fresh = λ p. get_or-length p;
  elt-write = λ p i j a. get_or-fill p i j a;
  elt-put = λ p i j. get_or-clear p i j;
  has-indexes = λ p i. has-live p i;
  indexes-IsDistinct = λ p. live-IsDistinct p;
}
