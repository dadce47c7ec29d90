-- ===== src/Netns/Handles.antt =====
-- The namespaces and subscribers of netlink/librtnl/netns.c: netns_open, netns_getns, netns_notify,
-- netns_callme and ns_recv_rtnl. A subscriber's callback is a call in a list, with its arguments.
pub mod Opens
use vppsb.Common.{
  ℕ, ◌+◌, ◌%◌, ◌^◌, Bool, true, false, ◌&&◌, ◌||◌, Option, none, some, List, [], ◌∷◌, ◌++◌, ltb,
  ◌==◌, if◌then◌else◌, Bytes, length, map, ok, Ret,
}
use vppsb.Pool.{PoolLib}
use vppsb.Pool.Search.{find}
use vppsb.Netns.Entry.{bytes_eq}
use vppsb.Netns.Kinds.{
  ObjType, link, route, addr, neigh, Object, Kind, link_kind, route_kind, addr_kind, neigh_kind,
}
use vppsb.Netns.Store.{Msg, Notice, Outcome, faults, returns, rcv}

-- netns_handle_t; `notify` tells whether there is a callback.
pub record Handle : Type 0 where
  pub notify : Bool
  pub opaque : ℕ
  pub netns_index : ℕ

-- A call of a subscriber's callback.
pub record Call : Type 0 where
  pub notice : Notice
  pub opaque : ℕ

module _ (lib : PoolLib) where
  open lib use {Pool, empty, elt, indexes, fresh, write, put}

  -- netns_p
  pub record Netns : Type 0 where
    pub name : Bytes
    pub links : Pool Object
    pub routes : Pool Object
    pub addresses : Pool Object
    pub neighbors : Pool Object
    pub rtnl_handle : ℕ
    pub subscriber_count : ℕ

  -- netns_main_t
  pub record Main : Type 0 where
    pub netnss : Pool Netns
    pub handles : Pool Handle

  call_of : ℕ → Notice → Option Handle → List Call
  call_of idx n none = []
  call_of idx n (some h) =
      if h.netns_index == idx && h.notify then record { notice = n; opaque = h.opaque } ∷ [] else []

  calls_of : ℕ → Notice → List ℕ → Pool Handle → List Call
  unfolding call_of
  calls_of idx n [] hs = []
  calls_of idx n (i ∷ is) hs = call_of idx n (elt hs i) ++ calls_of idx n is hs

  pub netns_notify : ℕ → Notice → Main → List Call
  unfolding calls_of
  netns_notify idx n m = calls_of idx n (indexes m.handles) m.handles

  abbrev pub objects : ObjType → Netns → Pool Object
  objects link ns = ns.links
  objects route ns = ns.routes
  objects addr ns = ns.addresses
  objects neigh ns = ns.neighbors

  abbrev set_objects : ObjType → Pool Object → Netns → Netns
  set_objects link p ns = record ns { links = p }
  set_objects route p ns = record ns { routes = p }
  set_objects addr p ns = record ns { addresses = p }
  set_objects neigh p ns = record ns { neighbors = p }

  -- The highest attribute of each kind is a constant of the kernel's headers.
  abbrev kind_of : (ObjType → ℕ) → ObjType → Kind
  kind_of max link = link_kind (max link)
  kind_of max route = route_kind (max route)
  kind_of max addr = addr_kind (max addr)
  kind_of max neigh = neigh_kind (max neigh)

  -- RTM_NEWLINK and RTM_DELLINK are 16 and 17, and so on in steps of four.
  abbrev pub type_of : ℕ → Option ObjType
  type_of t =
      if t == 24 || t == 25
      then some route
      else if t == 16 || t == 17
      then some link
      else if t == 20 || t == 21
      then some addr
      else if t == 28 || t == 29
      then some neigh
      else none

  told : ℕ → Option Notice → Main → List Call
  unfolding netns_notify
  told idx none m = []
  told idx (some n) m = netns_notify idx n m

  received : ObjType → ℕ → Netns → Outcome (Pool Object) → Main → Option (Main × List Call)
  unfolding told
  received t idx ns faults m = none
  received t idx ns (returns r p notice) m =
      some (record m { netnss = write m.netnss idx (set_objects t p ns) }, told idx notice m)

  -- `none` is a read behind the receive buffer, or of a namespace that is not there.
  pub recv_rtnl : (ObjType → ℕ) → Msg → ℕ → Bytes → ℕ → Main → Option (Main × List Call)
  unfolding received
  recv_rtnl max msg now stale idx m = elim (elt m.netnss idx) [
    | none ↦ none
    | some ns ↦ elim (type_of msg.nlmsg_type) [
      | none ↦ some (m, [])
      | some t ↦ received t idx ns (rcv lib (kind_of max t) msg now stale (objects t ns)) m
    ]
  ]

  abbrev new_netns : Bytes → ℕ → Netns
  new_netns name handle = record {
    name = name;
    links = empty Object;
    routes = empty Object;
    addresses = empty Object;
    neighbors = empty Object;
    rtnl_handle = handle;
    subscriber_count = 0;
  }

  -- `opens` is what rtnl_stream_open returns; RTNL_NETNS_NAMELEN is 128. A namespace that is not
  -- opened is put back at once.
  pub netns_get : Bytes → Option ℕ → Main → Main × Option (ℕ × Netns)
  netns_get name opens m = elim (find lib (λ (ns : Netns). bytes_eq name ns.name) m.netnss) [
    | some (i, ns) ↦ (m, some (i, ns))
    | none ↦ if ltb 128 (length name) then (m, none) else elim opens [
      | none ↦ (
        record m { netnss = put (write netnss (fresh netnss) (new_netns name 0)) (fresh netnss) },
        none,
      )
      | some h ↦ (
        record m { netnss = write netnss (fresh netnss) (new_netns name h) },
        some (fresh netnss, new_netns name h),
      )
    ]
  ]
    where
      open m use {netnss}

  -- `subscriber_count` is a u32.
  subscribed : Bool → ℕ → Main × Option (ℕ × Netns) → Main × Option ℕ
  subscribed notify opaque (m, none) = (m, none)
  subscribed notify opaque (m, some (i, ns)) = (
    record m {
      netnss = write netnss i (record ns { subscriber_count = (ns.subscriber_count + 1) % 2 ^ 32 });
      handles =
          write handles (fresh handles)
            (record { notify = notify; opaque = opaque; netns_index = i });
    },
    some (fresh handles),
  )
    where
      open m use {netnss, handles}

  -- The handle, or `none` for ~0.
  unfoldable pub netns_open : Bytes → Bool → ℕ → Option ℕ → Main → Main × Option ℕ
  unfolding netns_get subscribed
  netns_open name notify opaque opens m = subscribed notify opaque (netns_get name opens m)

  -- `none` is a handle that is not there.
  pub netns_getns : ℕ → Main → Option Netns
  netns_getns handle m = elim (elt m.handles handle) [
    | none ↦ none
    | some h ↦ elt m.netnss h.netns_index
  ]

  calls_for : Bool → ℕ → ObjType → List ℕ → Pool Object → List Call
  calls_for del opaque t [] p = []
  calls_for del opaque t (i ∷ is) p =
      let rest = calls_for del opaque t is p in
      elim (elt p i) [
        | none ↦ rest
        | some o ↦
            record { notice = record { obj = o; type = t; is_del = del }; opaque = opaque } ∷ rest
      ]

  abbrev all_of : Bool → ℕ → Netns → ObjType → List Call
  all_of del opaque ns t = calls_for del opaque t (indexes (objects t ns)) (objects t ns)

  pub netns_callme : ℕ → Bool → Main → Option (List Call)
  unfolding calls_for
  netns_callme handle del m = elim (elt m.handles handle) [
    | none ↦ none
    | some h ↦ elim (elt m.netnss h.netns_index) [
      | none ↦ none
      | some ns ↦ some (
          if h.notify
          then all_of del h.opaque ns neigh
            ++ all_of del h.opaque ns route
            ++ all_of del h.opaque ns addr
            ++ all_of del h.opaque ns link
          else [])
    ]
  ]
