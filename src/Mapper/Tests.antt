-- ===== src/Mapper/Tests.antt =====
-- Runs of netlink/librtnl/mapper.c, and its theorems at concrete inputs.
use vppsb.Common.{ℕ, zero, suc, get_or, ◌≡◌, refl, false, none, some, [], ◌∷◌, arith, ok}
use vppsb.Pool.Search.{find}
use vppsb.Pool.Slots.{slots}
use vppsb.Mapper.{Mapping, Ns, get_by_ifindex, getmap, add_del_in}
use vppsb.Mapper.Laws.{IsMap, add_del_in-IsMap}

abbrev one_map : Ns slots
one_map = record {
  nsname = [];
  mappings = some (record { linux_ifindex = 4; sw_if_index = 1 }) ∷ [];
  netns_handle = 0;
  v4fib_index = 0;
  v6fib_index = 0;
}

only :
    (i j : ℕ) (a b : Mapping)
    → get_or one_map.mappings i none ≡ some a
    → get_or one_map.mappings j none ≡ some b
    → i ≡ j
only zero zero a b p q = refl
only zero (suc j) a b p q = ground arith
only (suc i) j a b p q = ground arith

one_map-IsMap : IsMap slots one_map
one_map-IsMap = record { one = λ i j a b p q e. only i j a b p q }

add_del_in-IsMap_example : IsMap slots (add_del_in slots one_map [] 5 2 false).0.0
add_del_in-IsMap_example = add_del_in-IsMap slots one_map [] 5 2 false one_map-IsMap

added : (add_del_in slots one_map [] 5 2 false).1 ≡ ok
unfolding add_del_in getmap get_by_ifindex find
added = refl
