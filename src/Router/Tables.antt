-- ===== src/Router/Tables.antt =====
-- The tables of router/router/tap_inject.c, seen as maps between interfaces and taps.
use vppsb.Common.{
  ℕ, zero, suc, ◌+◌, ◌-◌, ◌<◌, ◌≤◌, ◌≡◌, refl, ◌∙◌, List, [], ◌∷◌, ◌++◌, arith, ◌==◌, if◌then◌else◌,
  no_index, length, get_or, set, replicate, length-append,
}
use vppsb.Router.{
  Main, validate, insert_tap, lookup_tap_fd, lookup_sw_if_index_from_tap_fd,
  lookup_sw_if_index_from_tap_if_index,
}

get_or-replicate : (n i d : ℕ) → get_or (replicate n d) i d ≡ d
get_or-replicate zero i d = refl
get_or-replicate (suc n) zero d = refl
get_or-replicate (suc n) (suc i) d = get_or-replicate n i d

get_or-append_fill : (xs : List ℕ) (n i d : ℕ) → get_or (xs ++ replicate n d) i d ≡ get_or xs i d
get_or-append_fill [] n i d = get_or-replicate n i d
get_or-append_fill (x ∷ xs) n zero d = refl
get_or-append_fill (x ∷ xs) n (suc i) d = get_or-append_fill xs n i d

length-replicate : (n d : ℕ) → length (replicate n d) ≡ n
length-replicate zero d = refl
length-replicate (suc n) d = omega (arith, length-replicate n d)

pub get_or-validate :
    (v : List ℕ) (i j : ℕ) → get_or (validate v i) j no_index ≡ get_or v j no_index
unfolding validate
get_or-validate v i j = ground (arith, get_or-append_fill v (i + 1 - length v) j no_index)

pub length-validate : (v : List ℕ) (i : ℕ) → i < length (validate v i)
unfolding validate
length-validate v i = ground (
  arith,
  length-append v (replicate (i + 1 - length v) no_index),
  length-replicate (i + 1 - length v) no_index,
)

pub length-validate_le : (v : List ℕ) (i : ℕ) → length v ≤ length (validate v i)
unfolding validate
length-validate_le v i = ground (arith, length-append v (replicate (i + 1 - length v) no_index))

pub get_or_any : (xs : List ℕ) (i d e : ℕ) → i < length xs → get_or xs i d ≡ get_or xs i e
get_or_any [] i d e h = absurd (omega arith)
get_or_any (x ∷ xs) zero d e h = refl
get_or_any (x ∷ xs) (suc i) d e h = get_or_any xs i d e (omega arith)

pub get_or-set :
    (xs : List ℕ) (i j v d : ℕ)
    → i < length xs
    → get_or (set xs i v) j d ≡ (if i == j then v else get_or xs j d)
get_or-set [] i j v d h = absurd (omega arith)
get_or-set (x ∷ xs) zero zero v d h = refl
get_or-set (x ∷ xs) zero (suc j) v d h = ground arith
get_or-set (x ∷ xs) (suc i) zero v d h = ground arith
get_or-set (x ∷ xs) (suc i) (suc j) v d h = ground (arith, get_or-set xs i j v d (omega arith))

get_or-set-validate :
    (v : List ℕ) (i j x : ℕ)
    → get_or (set (validate v i) i x) j no_index ≡ (if i == j then x else get_or v j no_index)
get_or-set-validate v i j x =
    rw (get_or-set (validate v i) i j x no_index (length-validate v i), get_or-validate v i j)

-- The maps that the tables stand for.
abbrev pub fd_at : Main → ℕ → ℕ
fd_at m sw = get_or m.sw_if_index_to_tap_fd sw no_index

abbrev pub if_at : Main → ℕ → ℕ
if_at m sw = get_or m.sw_if_index_to_tap_if_index sw no_index

abbrev pub sw_at : Main → ℕ → ℕ
sw_at m fd = get_or m.tap_fd_to_sw_if_index fd no_index

-- The lookups read the maps, and leave them as they are.
pub lookup_tap_fd_lem :
    (m : Main) (sw sw' : ℕ)
    → ((lookup_tap_fd m sw).1 ≡ fd_at m sw) × (fd_at (lookup_tap_fd m sw).0 sw' ≡ fd_at m sw')
unfolding lookup_tap_fd
lookup_tap_fd_lem m sw sw' = (
  get_or_any (validate m.sw_if_index_to_tap_fd sw) sw 0 no_index
        (length-validate m.sw_if_index_to_tap_fd sw)
      ∙ get_or-validate m.sw_if_index_to_tap_fd sw sw,
  get_or-validate m.sw_if_index_to_tap_fd sw sw',
)

-- After a tap is inserted each of the maps has the new entry, and its other entries as before.
pub insert_tap_lem :
    (m : Main) (sw fd tif : ℕ)
    → ((sw' : ℕ) → fd_at (insert_tap m sw fd tif) sw' ≡ (if sw == sw' then fd else fd_at m sw'))
      × ((sw' : ℕ) → if_at (insert_tap m sw fd tif) sw' ≡ (if sw == sw' then tif else if_at m sw'))
      × ((fd' : ℕ) → sw_at (insert_tap m sw fd tif) fd' ≡ (if fd == fd' then sw else sw_at m fd'))
      × ((tif' : ℕ)
          → lookup_sw_if_index_from_tap_if_index (insert_tap m sw fd tif) tif'
            ≡ (if tif == tif' then sw else lookup_sw_if_index_from_tap_if_index m tif'))
unfolding insert_tap lookup_sw_if_index_from_tap_if_index
insert_tap_lem m sw fd tif = (
  λ sw'. get_or-set-validate m.sw_if_index_to_tap_fd sw sw' fd,
  λ sw'. get_or-set-validate m.sw_if_index_to_tap_if_index sw sw' tif,
  λ fd'. get_or-set-validate m.tap_fd_to_sw_if_index fd fd' sw,
  λ tif'. ground arith,
)

pub lookup_sw_if_index_from_tap_fd_lem :
    (m : Main) (fd : ℕ)
    → ((lookup_sw_if_index_from_tap_fd m fd).1 ≡ sw_at m fd)
      × ((lookup_sw_if_index_from_tap_fd m fd).0.rx_buffers ≡ m.rx_buffers)
unfolding lookup_sw_if_index_from_tap_fd
lookup_sw_if_index_from_tap_fd_lem m fd = (
  get_or_any (validate m.tap_fd_to_sw_if_index fd) fd 0 no_index
        (length-validate m.tap_fd_to_sw_if_index fd)
      ∙ get_or-validate m.tap_fd_to_sw_if_index fd fd,
  refl,
)
