-- ===== src/Netns/Handles/Opens.antt =====
-- What netns_open of netlink/librtnl/netns.c gives a subscriber.
use vppsb.Common.{
  ℕ, ◌+◌, ◌%◌, ◌^◌, ◌≡◌, ◌≢◌, refl, sym, ap, ◌∙◌, Bool, true, Option, none, some, Bytes, arith,
}
use vppsb.Pool.{PoolLib}
use vppsb.Pool.Search.{find, find_found}
use vppsb.Netns.Entry.{bytes_eq}
use vppsb.Netns.Entry.Update.{bytes_eq_refl}
use vppsb.Netns.Handles.{Netns, Main, netns_get, subscribed, netns_open, netns_getns}

module _ (lib : PoolLib) where
  open lib use {Pool, elt, fresh, write, put, elt-fresh, elt-write, elt-put}

  -- The subscribers of the first namespace of a name, none if there is no such namespace.
  abbrev pub count_before : Bytes → Main lib → ℕ
  count_before name m = elim (find lib (λ (ns : Netns lib). bytes_eq name ns.name) m.netnss) [
    | none ↦ 0
    | some (i, ns) ↦ ns.subscriber_count
  ]

  -- What netns_get finds or makes has the name and the count; no handle changes.
  netns_get-name :
      (name : Bytes) (opens : Option ℕ) (m : Main lib)
      → ((netns_get lib name opens m).0.handles ≡ m.handles)
        × ((i : ℕ) (ns : Netns lib)
            → (netns_get lib name opens m).1 ≡ some (i, ns)
            → (bytes_eq name ns.name ≡ true) × (ns.subscriber_count ≡ count_before name m))
  unfolding netns_get
  netns_get-name name opens m =
      go (find lib (λ (ns : Netns lib). bytes_eq name ns.name) m.netnss) refl
    where
      go :
          (o : Option (ℕ × Netns lib))
          → find lib (λ (ns : Netns lib). bytes_eq name ns.name) m.netnss ≡ o
          → ((netns_get lib name opens m).0.handles ≡ m.handles)
            × ((i : ℕ) (ns : Netns lib)
                → (netns_get lib name opens m).1 ≡ some (i, ns)
                → (bytes_eq name ns.name ≡ true) × (ns.subscriber_count ≡ count_before name m))
      go (some (i, ns)) e =
          let f = find_found lib (λ (ns : Netns lib). bytes_eq name ns.name) m.netnss e in
          rw (netns_get, e) (refl, λ i' ns' q. (ground (arith, q, f.1), ground (arith, e, q)))
      go none e =
          rw (netns_get, e)
            (
              ground arith,
              λ i' ns' q. (ground (arith, q, bytes_eq_refl name), ground (arith, e, q)),
            )

  subscribed_lem :
      (name : Bytes) (notify : Bool) (opaque i handle : ℕ) (ns : Netns lib) (m : Main lib)
      → bytes_eq name ns.name ≡ true
      → (subscribed lib notify opaque (m, some (i, ns))).1 ≡ some handle
      → let m' = (subscribed lib notify opaque (m, some (i, ns))).0 in
        (elt m.handles handle ≡ none)
        × ((ns' : Netns lib) × (netns_getns lib handle m' ≡ some ns')
            × (bytes_eq name ns'.name ≡ true)
            × (ns'.subscriber_count ≡ (ns.subscriber_count + 1) % 2 ^ 32))
        × ((j : ℕ) → j ≢ handle → elt m'.handles j ≡ elt m.handles j)
  unfolding subscribed netns_getns
  subscribed_lem name notify opaque i handle ns m b e = (
    ground (arith, e, elt-fresh m.handles),
    (
      record ns { subscriber_count = (ns.subscriber_count + 1) % 2 ^ 32 },
      ground (
        arith,
        e,
        elt-write m.handles (fresh m.handles) (fresh m.handles)
            (record { notify = notify; opaque = opaque; netns_index = i }),
        elt-write m.netnss i i
            (record ns { subscriber_count = (ns.subscriber_count + 1) % 2 ^ 32 }),
      ),
      b,
      refl,
    ),
    λ j n. ground (
      arith,
      e,
      n,
      elt-write m.handles (fresh m.handles) j
          (record { notify = notify; opaque = opaque; netns_index = i }),
    ),
  )

  -- A handle that is opened is new, and leads to a namespace of the given name, whose subscriber
  -- count is one more, modulo 2^32, than that of the first namespace of the name before, or than
  -- none if there was no namespace of the name; every other handle is as it was.
  pub netns_open_lem :
      (name : Bytes) (notify : Bool) (opaque handle : ℕ) (opens : Option ℕ) (m : Main lib)
      → (netns_open lib name notify opaque opens m).1 ≡ some handle
      → let m' = (netns_open lib name notify opaque opens m).0 in
        (elt m.handles handle ≡ none)
        × ((ns : Netns lib) × (netns_getns lib handle m' ≡ some ns)
            × (bytes_eq name ns.name ≡ true)
            × (ns.subscriber_count ≡ (count_before name m + 1) % 2 ^ 32))
        × ((j : ℕ) → j ≢ handle → elt m'.handles j ≡ elt m.handles j)
  unfolding netns_open subscribed
  netns_open_lem name notify opaque handle opens m =
      go (netns_get lib name opens m) (netns_get-name name opens m)
    where
      go :
          (r : Main lib × Option (ℕ × Netns lib))
          → (r.0.handles ≡ m.handles)
            × ((i : ℕ) (ns : Netns lib)
                → r.1 ≡ some (i, ns)
                → (bytes_eq name ns.name ≡ true) × (ns.subscriber_count ≡ count_before name m))
          → (subscribed lib notify opaque r).1 ≡ some handle
          → let m' = (subscribed lib notify opaque r).0 in
            (elt m.handles handle ≡ none)
            × ((ns : Netns lib) × (netns_getns lib handle m' ≡ some ns)
                × (bytes_eq name ns.name ≡ true)
                × (ns.subscriber_count ≡ (count_before name m + 1) % 2 ^ 32))
            × ((j : ℕ) → j ≢ handle → elt m'.handles j ≡ elt m.handles j)
      go (m1, none) g e = cc
      go (m1, some (i, ns)) g e =
          let s = subscribed_lem name notify opaque i handle ns m1 (g.1 i ns refl).0 e in
          (
            ap (λ hs. elt hs handle) (sym g.0) ∙ s.0,
            (s.1.0, s.1.1, s.1.2, s.1.3 ∙ ap (λ c. (c + 1) % 2 ^ 32) (g.1 i ns refl).1),
            λ j n. s.2 j n ∙ ap (λ hs. elt hs j) g.0,
          )
