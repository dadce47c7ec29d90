-- ===== src/Netns/Kinds.antt =====
-- The four kinds of objects of netlink/librtnl/netns.c: what tells them apart in the handlers.
use vppsb.Common.{ℕ, Bool, ◌&&◌, List, [], ◌∷◌, ◌==◌, Bytes, le32_at, replicate}
use vppsb.Netns.Attrs.{Attrs}
use vppsb.Netns.Entry.{
  Mapping, ns_ifmap, ns_routemap, ns_addrmap, ns_neighmap, is_nonzero, entry_match, mask_match,
}

-- netns_type_t
pub data ObjType : Type 0 where
  link route addr neigh : ObjType

-- An object: its memory, which begins with the struct of the message, and `last_updated`. Of a link
-- the memory ends before `stats`, which is not written.
pub record Object : Type 0 where
  pub mem : Bytes
  pub last_updated : ℕ

-- What a handler uses of its kind: the notification type, the size of the message's struct, the
-- highest attribute, the message that deletes, the table, the test of the search, and the memory of
-- a new object, given what pool_get leaves in it.
pub record Kind : Type 0 where
  pub type : ObjType
  pub head : ℕ
  pub max : ℕ
  pub del : ℕ
  pub rows : List Mapping
  pub is_same : Bytes → Attrs → Object → Bool
  pub blank : Bytes → Bytes

-- ns_get_link: the index alone, at offset 4 of struct ifinfomsg.
abbrev pub get_link : Bytes → Attrs → Object → Bool
get_link head rtas o = le32_at head 4 == le32_at o.mem 4

-- family, dst_len, src_len, tos, table, protocol, scope, type, flags: all but tos, scope and flags.
abbrev pub route_mask : Bytes
route_mask = 255 ∷ 255 ∷ 255 ∷ 0 ∷ 255 ∷ 255 ∷ 0 ∷ 255 ∷ 0 ∷ 0 ∷ 0 ∷ 0 ∷ []

abbrev pub get_route : Bytes → Attrs → Object → Bool
get_route head rtas o =
    mask_match o.mem head route_mask && is_nonzero (entry_match o.mem rtas ns_routemap)

-- family, prefixlen, flags, scope, index.
abbrev pub addr_mask : Bytes
addr_mask = 255 ∷ 255 ∷ 0 ∷ 0 ∷ 0 ∷ 0 ∷ 0 ∷ 0 ∷ []

abbrev pub get_addr : Bytes → Attrs → Object → Bool
get_addr head rtas o =
    mask_match o.mem head addr_mask && is_nonzero (entry_match o.mem rtas ns_addrmap)

-- family, three bytes of padding and the int `ifindex`, whose mask is the number 0xff: the mask ends
-- with these 8 bytes, the size of the pointer `&msg` on a 64-bit host.
abbrev pub neigh_mask : Bytes
neigh_mask = 255 ∷ 0 ∷ 0 ∷ 0 ∷ 255 ∷ 0 ∷ 0 ∷ 0 ∷ []

abbrev pub get_neigh : Bytes → Attrs → Object → Bool
get_neigh head rtas o =
    mask_match o.mem head neigh_mask && is_nonzero (entry_match o.mem rtas ns_neighmap)

-- The highest attributes, of the kernel headers that the code is built with, are parameters.
abbrev pub link_kind : ℕ → Kind
link_kind max = record {
  type = link;
  head = 16;
  max = max;
  del = 17;
  rows = ns_ifmap;
  is_same = get_link;
  blank = λ stale. stale;
}

abbrev pub route_kind : ℕ → Kind
route_kind max = record {
  type = route;
  head = 12;
  max = max;
  del = 25;
  rows = ns_routemap;
  is_same = get_route;
  blank = λ stale. replicate 168 0;
}

abbrev pub addr_kind : ℕ → Kind
addr_kind max = record {
  type = addr;
  head = 8;
  max = max;
  del = 21;
  rows = ns_addrmap;
  is_same = get_addr;
  blank = λ stale. replicate 104 0;
}

abbrev pub neigh_kind : ℕ → Kind
neigh_kind max = record {
  type = neigh;
  head = 12;
  max = max;
  del = 29;
  rows = ns_neighmap;
  is_same = get_neigh;
  blank = λ stale. replicate 56 0;
}
