-- ===== src/Mapper.antt =====
-- netlink/librtnl/mapper.c: which VPP interface stands for a linux interface of a namespace.
-- What netns.c does for it is a parameter: the handle that netns_open returns, and the routes that
-- a namespace has.

pub mod Laws
mod Tests
use vppsb.Common.{
  ℕ, Bool, true, false, ◌&&◌, not, Option, none, some, List, [], ◌∷◌, ◌++◌, leb, ◌==◌,
  if◌then◌else◌, Ret, ok, fail, no_index, Bytes, byte_at, le32_at, take, drop,
}
use vppsb.Pool.{PoolLib}
use vppsb.Pool.Search.{find}
use vppsb.Netns.Entry.{bytes_eq}

-- mapper_map_t
pub record Mapping : Type 0 where
  pub linux_ifindex : ℕ
  pub sw_if_index : ℕ

-- A call of fib_table_entry_path_add. The next hop's interface is that of the mapping.
pub record PathAdd : Type 0 where
  pub fib_index : ℕ
  pub is_ip6 : Bool
  pub fp_len : ℕ
  pub fp_addr : Bytes
  pub next_hop : Bytes
  pub sw_if_index : ℕ

pub data Effect : Type 0 where
  path_add : PathAdd → Effect
  set_fib6 : ℕ → ℕ → Effect
  set_fib4 : ℕ → ℕ → Effect
  close_netns : ℕ → Effect

-- The fields of ns_route_t that the mapper reads, at their offsets.
abbrev pub rtm_family : Bytes → ℕ
rtm_family route = byte_at route 0

abbrev pub rtm_dst_len : Bytes → ℕ
rtm_dst_len route = byte_at route 1

abbrev pub route_dst : Bytes → Bytes
route_dst route = drop 12 route

abbrev pub route_oif : Bytes → ℕ
route_oif route = le32_at route 80

abbrev pub route_gateway : Bytes → Bytes
route_gateway route = drop 88 route

module _ (lib : PoolLib) where
  open lib use {Pool, empty, elt, indexes, fresh, write, put}

  -- mapper_ns_t
  pub record Ns : Type 0 where
    pub nsname : Bytes
    pub mappings : Pool Mapping
    pub netns_handle : ℕ
    pub v4fib_index : ℕ
    pub v6fib_index : ℕ

  pub get_by_ifindex : Ns → ℕ → Option (ℕ × Mapping)
  get_by_ifindex ns ifindex = find lib (λ map. ifindex == map.linux_ifindex) ns.mappings

  abbrev pub path_of : Ns → Bytes → Mapping → List Effect
  path_of ns route map =
      if rtm_family route == 10
      then if leb 8 (rtm_dst_len route) && byte_at (route_dst route) 0 == 0xff
        then []
        else path_add (record {
          fib_index = ns.v6fib_index;
          is_ip6 = true;
          fp_len = rtm_dst_len route;
          fp_addr = take 16 (route_dst route);
          next_hop = take 16 (route_gateway route);
          sw_if_index = map.sw_if_index;
        })
          ∷ []
      else path_add (record {
        fib_index = ns.v4fib_index;
        is_ip6 = false;
        fp_len = rtm_dst_len route;
        fp_addr = take 4 (route_dst route);
        next_hop = take 4 (route_gateway route);
        sw_if_index = map.sw_if_index;
      })
        ∷ []

  -- `del` is read by the log message alone.
  pub add_del_route : Ns → Bytes → Bool → List Effect
  add_del_route ns route del = elim (get_by_ifindex ns (route_oif route)) [
    | none ↦ []
    | some (i, map) ↦ path_of ns route map
  ]

  -- The callback: `is_route` for NETNS_TYPE_ROUTE, and the flags NETNS_F_DEL and NETNS_F_ADD.
  pub netns_notify_cb : Ns → Bytes → Bool → Bool → Bool → List Effect
  netns_notify_cb ns route is_route f_del f_add =
      if not is_route
      then []
      else if f_del
      then add_del_route ns route true
      else if f_add
      then add_del_route ns route false
      else []

  -- The loop over the routes of the namespace which leave through an interface.
  pub each_route : Ns → ℕ → Bool → List Bytes → List Effect
  each_route ns ifindex del [] = []
  each_route ns ifindex del (route ∷ routes) =
      (if route_oif route == ifindex then add_del_route ns route del else [])
      ++ each_route ns ifindex del routes

  pub delmap : Ns → List Bytes → ℕ → Mapping → Ns × List Effect
  delmap ns routes i map =
      (record ns { mappings = put mappings i }, each_route ns map.linux_ifindex true routes)
    where
      open ns use {mappings}

  pub created : Ns → List Bytes → ℕ → ℕ → Ns × List Effect
  created ns routes sw_if_index linux_ifindex =
      let map : Mapping = record { linux_ifindex = linux_ifindex; sw_if_index = sw_if_index } in
      let ns' = record ns { mappings = write mappings (fresh mappings) map } in
      (
        ns',
        set_fib6 sw_if_index ns.v6fib_index
            ∷ set_fib4 sw_if_index ns.v4fib_index
            ∷ each_route ns' linux_ifindex false routes,
      )
    where
      open ns use {mappings}

  -- The mapping, its index, and whether it was made; `none` is NULL.
  pub getmap : Ns → List Bytes → ℕ → ℕ → Bool → (Ns × List Effect) × Option (ℕ × Mapping)
  unfolding created
  getmap ns routes sw_if_index linux_ifindex create = elim (get_by_ifindex ns linux_ifindex) [
    | some (i, map) ↦
        if sw_if_index == map.sw_if_index then ((ns, []), some (i, map)) else ((ns, []), none)
    | none ↦
        if create
        then (
          created ns routes sw_if_index linux_ifindex,
          some (
            fresh ns.mappings,
            record { linux_ifindex = linux_ifindex; sw_if_index = sw_if_index },
          ),
        )
        else ((ns, []), none)
  ]

  abbrev unmapped : Ns × List Effect → Ns × List Effect → Ns × List Effect
  unmapped r d = (d.0, r.1 ++ d.1)

  abbrev new_ns : Bytes → ℕ → ℕ → ℕ → Ns
  new_ns nsname v4fib_index v6fib_index handle = record {
    nsname = nsname;
    mappings = empty Mapping;
    netns_handle = handle;
    v4fib_index = v4fib_index;
    v6fib_index = v6fib_index;
  }

  -- mapper_add_del on a namespace that is in use.
  pub add_del_in : Ns → List Bytes → ℕ → ℕ → Bool → (Ns × List Effect) × Ret
  unfolding getmap delmap
  add_del_in ns routes linux_ifindex sw_if_index del =
      let (r, map) = getmap ns routes sw_if_index linux_ifindex (not del) in
      elim map [
        | none ↦ (r, fail 1)
        | some (i, m) ↦ if del then (unmapped r (delmap r.0 routes i m), ok) else (r, ok)
      ]

  abbrev Namespaces : Type 0
  Namespaces = Pool Ns

  or_no_index : Option (ℕ × Ns) → ℕ
  or_no_index none = no_index
  or_no_index (some (i, ns)) = i

  pub get_ns : Namespaces → Bytes → ℕ
  unfolding or_no_index
  get_ns nss nsname = or_no_index (find lib (λ ns. bytes_eq nsname ns.nsname) nss)

  pub add_del : Namespaces → List Bytes → ℕ → ℕ → ℕ → Bool → (Namespaces × List Effect) × Ret
  unfolding add_del_in
  add_del nss routes nsindex linux_ifindex sw_if_index del = elim (elt nss nsindex) [
    | none ↦ ((nss, []), fail 1)
    | some ns ↦
        let (r, ret) = add_del_in ns routes linux_ifindex sw_if_index del in
        ((write nss nsindex r.0, r.1), ret)
  ]

  -- `opens` is the handle that netns_open returns. The index is that of a namespace that was made.
  pub add_ns : Namespaces → Bytes → ℕ → ℕ → Option ℕ → (Namespaces × Option ℕ) × Ret
  unfolding get_ns
  add_ns nss nsname v4fib_index v6fib_index opens =
      let i = fresh nss in
      let ns = λ (handle : ℕ). new_ns nsname v4fib_index v6fib_index handle in
      if not (get_ns nss nsname == no_index) then ((nss, none), fail 1) else elim opens [
        | none ↦ ((put (write nss i (ns no_index)) i, none), fail 1)
        | some handle ↦ ((write nss i (ns handle), some i), ok)
      ]

  -- The indices are collected before the first mapping is deleted.
  pub delmaps : List ℕ → Ns → List Bytes → Ns × List Effect
  unfolding delmap
  delmaps [] ns routes = (ns, [])
  delmaps (i ∷ is) ns routes = elim (elt ns.mappings i) [
    | none ↦ delmaps is ns routes
    | some map ↦
        let (ns', log) = delmap ns routes i map in
        let (ns'', log') = delmaps is ns' routes in (ns'', log ++ log')
  ]

  pub del_ns : Namespaces → List Bytes → ℕ → (Namespaces × List Effect) × Ret
  unfolding delmaps
  del_ns nss routes nsindex = elim (elt nss nsindex) [
    | none ↦ ((nss, []), fail 1)
    | some ns ↦
        let (ns', log) = delmaps (indexes ns.mappings) ns routes in
        ((put nss nsindex, log ++ close_netns ns'.netns_handle ∷ []), ok)
  ]
