-- ===== src/Netns/Attrs.antt =====
-- The attributes of a message: rtnl_parse_rtattr of netlink/librtnl/netns.c. An attribute is given
-- by the bytes from its header to the end of the receive buffer, since the code keeps a pointer.
use vppsb.Common.{
  ℕ, zero, suc, Bool, ◌&&◌, Option, none, some, ltb, leb, ◌==◌, if◌then◌else◌, align4, sub_size,
  Bytes, le16_at, length, drop,
}

-- The array `db`: the attribute of each type, or NULL.
abbrev pub Attrs : Type 0
Attrs = ℕ → Option Bytes

abbrev pub no_attrs : Attrs
no_attrs t = none

abbrev pub put_attr : Attrs → ℕ → Bytes → Attrs
put_attr db t rta u = if t == u then some rta else db u

abbrev pub rta_len : Bytes → ℕ
rta_len rta = le16_at rta 0

abbrev pub rta_type : Bytes → ℕ
rta_type rta = le16_at rta 2

-- RTA_PAYLOAD and RTA_DATA.
abbrev pub rta_payload : Bytes → ℕ
rta_payload rta = sub_size (rta_len rta) 4

abbrev pub rta_data : Bytes → Bytes
rta_data rta = drop 4 rta

-- RTA_OK where the length is a size_t.
abbrev pub rta_ok : Bytes → ℕ → Bool
rta_ok rta len = leb 4 len && leb 4 (rta_len rta) && leb (rta_len rta) len

abbrev store : ℕ → Attrs → Bytes → Attrs
store max db rta = if leb (rta_type rta) max then put_attr db (rta_type rta) rta else db

-- `mismatch` is the return value -1; `overrun` is a header that lies behind the receive buffer.
pub data Parsed : Type 0 where
  parsed : Attrs → Parsed
  mismatch overrun out_of_fuel : Parsed

abbrev at_end : ℕ → Attrs → Parsed
at_end len db = if len == 0 then parsed db else mismatch

-- The rounds of the loop; RTA_NEXT subtracts the aligned length from `len`, which wraps.
pub parse_rtattr : ℕ → ℕ → Attrs → Bytes → ℕ → Parsed
parse_rtattr zero max db rta len = out_of_fuel
parse_rtattr (suc fuel) max db rta len =
    let rest =
      parse_rtattr fuel max (store max db rta) (drop (align4 (rta_len rta)) rta)
        (sub_size len (align4 (rta_len rta))) in
    if leb 4 len && ltb (length rta) 4
    then overrun
    else if rta_ok rta len
    then rest
    else at_end len db
