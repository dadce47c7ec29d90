-- ===== src/Netns/Store.antt =====
-- ns_rcv_link, ns_rcv_route, ns_rcv_addr and ns_rcv_neigh of netlink/librtnl/netns.c: one handler,
-- given what tells the four kinds apart.
pub mod Links
use vppsb.Common.{
  ℕ, ◌+◌, Bool, true, false, Option, none, some, ltb, ◌==◌, if◌then◌else◌, Ret, ok, fail, sub_size,
  align4, Bytes, length, take, drop,
}
use vppsb.Pool.{PoolLib}
use vppsb.Pool.Search.{find}
use vppsb.Netns.Attrs.{
  Attrs, no_attrs, Parsed, parsed, mismatch, overrun, out_of_fuel, parse_rtattr,
}
use vppsb.Netns.Entry.{blit, entry_set}
use vppsb.Netns.Kinds.{ObjType, Object, Kind}

-- A message: its header's type and length, and the bytes behind the header, up to the end of the
-- receive buffer.
pub record Msg : Type 0 where
  pub nlmsg_len : ℕ
  pub nlmsg_type : ℕ
  pub payload : Bytes

-- What netns_notify is called with; `is_del` tells NETNS_F_DEL from NETNS_F_ADD.
pub record Notice : Type 0 where
  pub obj : Object
  pub type : ObjType
  pub is_del : Bool

-- How a handler ends: `faults` is a read behind the receive buffer.
pub data Outcome (P : Type 0) : Type 0 where
  faults : Outcome P
  returns : Ret → P → Option Notice → Outcome P

-- The attributes of a message of kind `k`; more rounds than bytes are never needed.
pub attrs_of : Kind → Msg → Parsed
attrs_of k msg =
    let datalen = sub_size msg.nlmsg_len 16 in
    if ltb (align4 k.head) datalen
    then parse_rtattr (length msg.payload + 2) k.max no_attrs (drop (align4 k.head) msg.payload)
        (sub_size datalen (align4 k.head))
    else parsed no_attrs

module _ (lib : PoolLib) where
  open lib use {Pool, fresh, write, put}

  -- A found object is set again, a new one is initialised; then the message's struct is stored and
  -- the subscribers are told. What rtnl_entry_set returns is not looked at.
  pub saved : Kind → Msg → ℕ → Attrs → ℕ → Bytes → Bool → Pool Object → Outcome (Pool Object)
  saved k msg now rtas i mem init p = returns ok (write p i obj) (some notice)
    where
      obj : Object
      obj = record {
        mem = blit 0 (take k.head msg.payload) (entry_set mem rtas k.rows init).0;
        last_updated = now;
      }

      notice : Notice
      notice = record { obj = obj; type = k.type; is_del = false }

  pub removed : Kind → Option (ℕ × Object) → Pool Object → Outcome (Pool Object)
  removed k none p = returns (fail 1) p none
  removed k (some (i, o)) p =
      returns ok (put p i) (some (record { obj = o; type = k.type; is_del = true }))

  pub stored :
      Kind → Msg → ℕ → Bytes → Attrs → Option (ℕ × Object) → Pool Object → Outcome (Pool Object)
  unfolding saved
  stored k msg now stale rtas none p = saved k msg now rtas (fresh p) (k.blank stale) true p
  stored k msg now stale rtas (some (i, o)) p = saved k msg now rtas i o.mem false p

  pub rcv_attrs : Kind → Msg → ℕ → Bytes → Parsed → Pool Object → Outcome (Pool Object)
  unfolding removed stored
  rcv_attrs k msg now stale (parsed rtas) p =
      let found = find lib (k.is_same (take k.head msg.payload) rtas) p in
      if msg.nlmsg_type == k.del then removed k found p else stored k msg now stale rtas found p
  rcv_attrs k msg now stale mismatch p = returns (fail 1) p none
  rcv_attrs k msg now stale overrun p = faults
  rcv_attrs k msg now stale out_of_fuel p = faults

  -- `stale` is what the memory of a new element holds, `now` the time.
  pub rcv : Kind → Msg → ℕ → Bytes → Pool Object → Outcome (Pool Object)
  unfolding rcv_attrs
  rcv k msg now stale p =
      if ltb (sub_size msg.nlmsg_len 16) k.head
      then returns (fail 1) p none
      else rcv_attrs k msg now stale (attrs_of k msg) p
