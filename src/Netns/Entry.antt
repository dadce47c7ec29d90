-- ===== src/Netns/Entry.antt =====
-- The tables of attributes of netlink/librtnl/netns.c, and the routines that compare the memory of
-- an entry with attributes and that write attributes to it.
pub mod Memory
pub mod Update
use vppsb.Common.{
  ℕ, zero, suc, ◌+◌, ◌-◌, Bool, true, false, ◌&&◌, Option, none, some, List, [], ◌∷◌, ◌++◌, ltb,
  ◌==◌, if◌then◌else◌, Bytes, byte_at, length, take, drop, replicate, Ret, ok, fail,
}
use Prim.Native.Nat.{bit_and, bit_xor}
use vppsb.Netns.Attrs.{Attrs, rta_payload, rta_data}

-- rtnl_mapping_t
pub record Mapping : Type 0 where
  pub type : ℕ
  pub unique : Bool
  pub offset : ℕ
  pub size : ℕ

abbrev pub row : ℕ → Bool → ℕ → ℕ → Mapping
row t u o s = record { type = t; unique = u; offset = o; size = s }

-- The offsets are those of ns_link_t, ns_route_t, ns_addr_t and ns_neigh_t on a 64-bit host.
abbrev pub ns_ifmap : List Mapping
ns_ifmap =
    row 1 false 16 6
    ∷ row 2 false 22 6
    ∷ row 3 false 28 16
    ∷ row 10 false 48 4
    ∷ row 4 false 44 4
    ∷ row 6 false 52 16
    ∷ []

abbrev pub rta_encap : ℕ
rta_encap = 22

abbrev pub ns_routemap : List Mapping
ns_routemap =
    row 1 true 12 16
    ∷ row 2 true 28 16
    ∷ row 18 true 44 16
    ∷ row 5 true 88 16
    ∷ row 3 true 76 4
    ∷ row 4 true 80 4
    ∷ row 7 false 60 16
    ∷ row 15 false 84 4
    ∷ row 6 false 104 4
    ∷ row 12 false 108 32
    ∷ row rta_encap true 140 28
    ∷ []

abbrev pub ns_addrmap : List Mapping
ns_addrmap =
    row 1 true 8 16
    ∷ row 2 true 24 16
    ∷ row 3 false 40 16
    ∷ row 4 false 56 16
    ∷ row 5 false 72 16
    ∷ row 6 false 88 16
    ∷ []

abbrev pub ns_neighmap : List Mapping
ns_neighmap = row 1 true 12 16 ∷ row 2 false 28 6 ∷ row 4 false 36 4 ∷ row 3 false 40 16 ∷ []

-- `n` bytes read at an address; what lies behind the known memory reads as 0.
pub copy : ℕ → Bytes → Bytes
copy zero src = []
copy (suc n) [] = 0 ∷ copy n []
copy (suc n) (b ∷ src) = b ∷ copy n src

-- memcpy to an offset of a memory.
pub blit : ℕ → Bytes → Bytes → Bytes
blit off bs mem = take off mem ++ (bs ++ drop (off + length bs) mem)

abbrev pub bytes_eq : Bytes → Bytes → Bool
bytes_eq [] [] = true
bytes_eq [] (y ∷ ys) = false
bytes_eq (x ∷ xs) [] = false
bytes_eq (x ∷ xs) (y ∷ ys) = x == y && bytes_eq xs ys

-- The memory of a field.
abbrev pub field_at : Mapping → Bytes → Bytes
field_at m mem = copy m.size (drop m.offset mem)

-- What a field has to hold to agree with its attribute.
abbrev pub padded : ℕ → Bytes → Bytes
padded size rta = copy (rta_payload rta) (rta_data rta) ++ replicate (size - rta_payload rta) 0

-- The int of rtnl_entry_match: 0, 1 or -1.
pub data Match : Type 0 where
  differs matches too_long : Match

-- What an `if` makes of it: -1 is true.
abbrev pub is_nonzero : Match → Bool
is_nonzero differs = false
is_nonzero matches = true
is_nonzero too_long = true

abbrev match_row : Mapping → Option Bytes → Bytes → Match
match_row m none entry =
    if bytes_eq (field_at m entry) (replicate m.size 0) then matches else differs
match_row m (some rta) entry =
    if ltb m.size (rta_payload rta)
    then too_long
    else if bytes_eq (field_at m entry) (padded m.size rta)
    then matches
    else differs

-- The comparison of the attribute's bytes and of the zeros behind them is one of the whole field.
pub entry_match : Bytes → Attrs → List Mapping → Match
entry_match entry rtas [] = matches
entry_match entry rtas (m ∷ map) =
    let rest = entry_match entry rtas map in
    if m.unique
    then elim (match_row m (rtas m.type) entry) [
      | matches ↦ rest
      | differs ↦ differs
      | too_long ↦ too_long
    ]
    else rest

-- One attribute written to its field; `none` is the return value -1.
pub set_row : Mapping → Option Bytes → Bool → Bytes → Option Bytes
unfolding blit
set_row m none init entry = some (if init then blit m.offset (replicate m.size 0) entry else entry)
set_row m (some rta) init entry =
    if m.type == rta_encap
    then if ltb m.size (rta_payload (rta_data rta))
      then none
      else some (blit m.offset (copy m.size (rta_data (rta_data rta))) entry)
    else if ltb m.size (rta_payload rta)
    then none
    else some (blit m.offset (padded m.size rta) entry)

-- The loop stops at an attribute that is too long, and keeps what it wrote before it.
pub entry_set : Bytes → Attrs → List Mapping → Bool → Bytes × Ret
entry_set entry rtas [] init = (entry, ok)
entry_set entry rtas (m ∷ map) init = elim (set_row m (rtas m.type) init entry) [
  | some entry' ↦ entry_set entry' rtas map init
  | none ↦ (entry, fail 1)
]

-- The bytes agree where the mask has ones.
abbrev pub mask_byte : ℕ → ℕ → ℕ → Bool
mask_byte a b m = bit_and (bit_xor a b) m == 0

-- The first bytes of two structs, as many as the mask has.
abbrev pub mask_match : Bytes → Bytes → Bytes → Bool
mask_match xs ys [] = true
mask_match xs ys (m ∷ ms) =
    mask_byte (byte_at xs 0) (byte_at ys 0) m && mask_match (drop 1 xs) (drop 1 ys) ms
