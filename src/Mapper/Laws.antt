-- ===== src/Mapper/Laws.antt =====
-- What the operations of netlink/librtnl/mapper.c do to the mappings of a namespace.
use vppsb.Common.{
  ℕ, ◌≡◌, ◌≢◌, refl, inl, inr, Bool, true, false, Option, none, some, List, [], arith, ◌==◌, ==_iff,
  ok, fail, Bytes, Bool-cases,
}
use vppsb.Pool.{PoolLib}
use vppsb.Pool.Search.{find_found, find-none}
use vppsb.Mapper.{Mapping, Ns, get_by_ifindex, delmap, created, getmap, add_del_in}

module _ (lib : PoolLib) where
  open lib use {Pool, elt, fresh, write, put, elt-fresh, elt-write, elt-put}

  -- A namespace maps an interface: some element of the pool says so.
  abbrev pub Maps : Ns lib → ℕ → ℕ → Type 0
  Maps ns linux sw =
      (i : ℕ) × (elt ns.mappings i ≡ some (record { linux_ifindex = linux; sw_if_index = sw }))

  -- Each linux interface has one mapping.
  pub record IsMap (ns : Ns lib) : Type 0 where
    pub one :
        (i j : ℕ) (a b : Mapping)
        → elt ns.mappings i ≡ some a
        → elt ns.mappings j ≡ some b
        → a.linux_ifindex ≡ b.linux_ifindex
        → i ≡ j

  get_found :
      (ns : Ns lib) (linux i : ℕ) (m : Mapping)
      → get_by_ifindex lib ns linux ≡ some (i, m)
      → (elt ns.mappings i ≡ some m) × (linux ≡ m.linux_ifindex)
  unfolding get_by_ifindex
  get_found ns linux i m e =
      let f = find_found lib (λ (map : Mapping). linux == map.linux_ifindex) ns.mappings e in
      (f.0, (==_iff linux m.linux_ifindex).0 f.1)

  get_none :
      (ns : Ns lib) (linux : ℕ)
      → get_by_ifindex lib ns linux ≡ none
      → (i : ℕ) (m : Mapping) → elt ns.mappings i ≡ some m
      → linux ≢ m.linux_ifindex
  unfolding get_by_ifindex
  get_none ns linux e i m s q =
      ground (
        arith,
        find-none lib (λ (map : Mapping). linux == map.linux_ifindex) ns.mappings i m e s,
        q,
      )

  created-IsMap :
      (ns : Ns lib) (routes : List Bytes) (sw linux : ℕ)
      → IsMap ns
      → get_by_ifindex lib ns linux ≡ none
      → IsMap (created lib ns routes sw linux).0
  unfolding created
  created-IsMap ns routes sw linux u e = record {
    one = λ i j a b p q s. ground (
      arith,
      elt-write ns.mappings (fresh ns.mappings) i
          (record { linux_ifindex = linux; sw_if_index = sw }),
      elt-write ns.mappings (fresh ns.mappings) j
          (record { linux_ifindex = linux; sw_if_index = sw }),
      get_none ns linux e i a,
      get_none ns linux e j b,
      u.one i j a b,
    );
  }

  delmap-IsMap :
      (ns : Ns lib) (routes : List Bytes) (k : ℕ) (m : Mapping)
      → IsMap ns
      → IsMap (delmap lib ns routes k m).0
  unfolding delmap
  delmap-IsMap ns routes k m u = record {
    one = λ i j a b p q s.
        ground (arith, elt-put ns.mappings k i, elt-put ns.mappings k j, u.one i j a b);
  }

  -- What add_del_in returns, by what the lookup finds.
  made :
      (ns : Ns lib) (routes : List Bytes) (linux sw : ℕ)
      → get_by_ifindex lib ns linux ≡ none
      → add_del_in lib ns routes linux sw false ≡ (created lib ns routes sw linux, ok)
  unfolding add_del_in getmap
  made ns routes linux sw e = ground (arith, e)

  missing :
      (ns : Ns lib) (routes : List Bytes) (linux sw : ℕ)
      → get_by_ifindex lib ns linux ≡ none
      → add_del_in lib ns routes linux sw true ≡ ((ns, []), fail 1)
  unfolding add_del_in getmap
  missing ns routes linux sw e = ground (arith, e)

  other :
      (ns : Ns lib) (routes : List Bytes) (linux sw : ℕ) (del : Bool) (i : ℕ) (m : Mapping)
      → get_by_ifindex lib ns linux ≡ some (i, m)
      → (sw == m.sw_if_index) ≡ false
      → add_del_in lib ns routes linux sw del ≡ ((ns, []), fail 1)
  unfolding add_del_in getmap
  other ns routes linux sw del i m e t = ground (arith, e, t)

  kept :
      (ns : Ns lib) (routes : List Bytes) (linux sw i : ℕ) (m : Mapping)
      → get_by_ifindex lib ns linux ≡ some (i, m)
      → (sw == m.sw_if_index) ≡ true
      → add_del_in lib ns routes linux sw false ≡ ((ns, []), ok)
  unfolding add_del_in getmap
  kept ns routes linux sw i m e t = ground (arith, e, t)

  dropped :
      (ns : Ns lib) (routes : List Bytes) (linux sw i : ℕ) (m : Mapping)
      → get_by_ifindex lib ns linux ≡ some (i, m)
      → (sw == m.sw_if_index) ≡ true
      → add_del_in lib ns routes linux sw true ≡ (delmap lib ns routes i m, ok)
  unfolding add_del_in getmap
  dropped ns routes linux sw i m e t = ground (arith, e, t)

  -- Adding and deleting mappings keeps one mapping for each linux interface.
  pub add_del_in-IsMap :
      (ns : Ns lib) (routes : List Bytes) (linux sw : ℕ) (del : Bool)
      → IsMap ns
      → IsMap (add_del_in lib ns routes linux sw del).0.0
  add_del_in-IsMap ns routes linux sw del u = go (get_by_ifindex lib ns linux) refl del
    where
      go :
          (o : Option (ℕ × Mapping))
          → get_by_ifindex lib ns linux ≡ o
          → (del : Bool) → IsMap (add_del_in lib ns routes linux sw del).0.0
      go none e false = rw (made ns routes linux sw e) (created-IsMap ns routes sw linux u e)
      go none e true = rw (missing ns routes linux sw e) u
      go (some (i, m)) e del = elim (Bool-cases (sw == m.sw_if_index)) [
        | inr t ↦ rw (other ns routes linux sw del i m e t) u
        | inl t ↦ same i m e t del
      ]
        where
          same :
              (i : ℕ) (m : Mapping)
              → get_by_ifindex lib ns linux ≡ some (i, m)
              → (sw == m.sw_if_index) ≡ true
              → (del : Bool) → IsMap (add_del_in lib ns routes linux sw del).0.0
          same i m e t false = rw (kept ns routes linux sw i m e t) u
          same i m e t true = rw (dropped ns routes linux sw i m e t) (delmap-IsMap ns routes i m u)

  created_at :
      (ns : Ns lib) (routes : List Bytes) (sw linux : ℕ)
      → elt (created lib ns routes sw linux).0.mappings (fresh ns.mappings)
        ≡ some (record { linux_ifindex = linux; sw_if_index = sw })
  unfolding created
  created_at ns routes sw linux = ground (
    arith,
    elt-write ns.mappings (fresh ns.mappings) (fresh ns.mappings)
        (record { linux_ifindex = linux; sw_if_index = sw }),
  )

  found_at :
      (ns : Ns lib) (linux sw i : ℕ) (m : Mapping)
      → get_by_ifindex lib ns linux ≡ some (i, m)
      → (sw == m.sw_if_index) ≡ true
      → elt ns.mappings i ≡ some (record { linux_ifindex = linux; sw_if_index = sw })
  found_at ns linux sw i m e t = grind (
    arith,
    (get_found ns linux i m e).0,
    (get_found ns linux i m e).1,
    (==_iff sw m.sw_if_index).0 t,
  )

  -- Where the addition of a mapping is reported as done, the namespace has the mapping.
  add-Maps :
      (ns : Ns lib) (routes : List Bytes) (linux sw : ℕ)
      → (add_del_in lib ns routes linux sw false).1 ≡ ok
      → Maps (add_del_in lib ns routes linux sw false).0.0 linux sw
  add-Maps ns routes linux sw = go (get_by_ifindex lib ns linux) refl
    where
      go :
          (o : Option (ℕ × Mapping))
          → get_by_ifindex lib ns linux ≡ o
          → (add_del_in lib ns routes linux sw false).1 ≡ ok
          → Maps (add_del_in lib ns routes linux sw false).0.0 linux sw
      go none e h =
          rw (made ns routes linux sw e) (fresh ns.mappings, created_at ns routes sw linux)
      go (some (i, m)) e h = elim (Bool-cases (sw == m.sw_if_index)) [
        | inr t ↦ cc (other ns routes linux sw false i m e t)
        | inl t ↦ rw (kept ns routes linux sw i m e t) (i, found_at ns linux sw i m e t)
      ]
