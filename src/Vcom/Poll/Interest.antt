-- ===== src/Vcom/Poll/Interest.antt =====
-- The interest sets of vcl-ldpreload/src/libvcl-ldpreload/vcom_socket.c as a finite map: from an epoll
-- instance and a descriptor to the events that are waited for.
use vppsb.Common.{
  ℕ, ◌≡◌, refl, true, ◌&&◌, Option, none, some, List, arith, ◌==◌, inl, if◌then◌else◌,
}
use vppsb.Pool.{PoolLib}
use vppsb.Vcom.{Rv, ret, err, enoent, eexist, einval, FdType, Event, Item, Epoll, Main}
use vppsb.Vcom.Poll.{VecLib, Op, add, mod_, del, other, entered, modified, removed, ctl_vepitem}
use vppsb.Vcom.Poll.Indexed.{IsIndexed, there, ctl_new, ctl_refuses, ctl_modifies, ctl_removes}

abbrev pub event_of : Option Item → Option Event
event_of none = none
event_of (some it) = some it.event

-- What epoll_ctl(2) promises for one descriptor: the new entry and the result.
abbrev pub ctl_entry : Op → Event → Option Event → Option Event × Rv
ctl_entry add ev none = (some ev, ret 0)
ctl_entry add ev (some old) = (some old, err eexist)
ctl_entry mod_ ev none = (none, err enoent)
ctl_entry mod_ ev (some old) = (some ev, ret 0)
ctl_entry del ev none = (none, err enoent)
ctl_entry del ev (some old) = (none, ret 0)
ctl_entry other ev o = (o, err einval)

module _ (lib : PoolLib) (vec : VecLib) where
  open lib use {elt, fresh, write, put, elt-fresh, elt-write, elt-put}

  abbrev pub item_at : Main lib → Option ℕ → Option Event
  item_at m none = none
  item_at m (some i) = event_of (elt m.vepitems i)

  -- The interest of an epoll instance in a descriptor.
  abbrev pub interest : Main lib → ℕ → ℕ → Option Event
  interest m e f = item_at m (m.epitemidx_by_epfdfd e f)

  abbrev pub Updates : Main lib → ℕ → ℕ → Option Event → Main lib → Type 0
  Updates m epfd fd o m' =
      (e f : ℕ) → interest m' e f ≡ (if epfd == e && fd == f then o else interest m e f)

  module _ (ei : ℕ) (ep : Epoll) (epfd fd : ℕ) (type : FdType) (event : Event) (m : Main lib)
      (x : IsIndexed lib vec m) where
    entered-Updates :
        m.epitemidx_by_epfdfd epfd fd ≡ none
        → Updates m epfd fd (some event) (entered lib vec epfd fd type event m)
    entered-Updates h e f = go (m.epitemidx_by_epfdfd e f) refl
      where
        go :
            (o : Option ℕ)
            → m.epitemidx_by_epfdfd e f ≡ o
            → interest (entered lib vec epfd fd type event m) e f
              ≡ (if epfd == e && fd == f then some event else interest m e f)
        go none q = ground (
          arith,
          q,
          elt-write m.vepitems (fresh m.vepitems) (fresh m.vepitems)
              (record { epfd = epfd; fd = fd; type = type; event = event }),
        )
        go (some i) q = ground (
          arith,
          q,
          h,
          x.keyed e f i q,
          elt-fresh m.vepitems,
          elt-write m.vepitems (fresh m.vepitems) (fresh m.vepitems)
              (record { epfd = epfd; fd = fd; type = type; event = event }),
          elt-write m.vepitems (fresh m.vepitems) i
              (record { epfd = epfd; fd = fd; type = type; event = event }),
        )

    modified-Updates :
        (i : ℕ) (it : Item)
        → m.epitemidx_by_epfdfd epfd fd ≡ some i
        → elt m.vepitems i ≡ some it
        → Updates m epfd fd (some event) (modified lib vec i event (some it) m)
    modified-Updates i it h s e f = go (m.epitemidx_by_epfdfd e f) refl
      where
        go :
            (o : Option ℕ)
            → m.epitemidx_by_epfdfd e f ≡ o
            → interest (modified lib vec i event (some it) m) e f
              ≡ (if epfd == e && fd == f then some event else interest m e f)
        go none q = ground (arith, q, h)
        go (some j) q = ground (
          arith,
          q,
          h,
          s,
          x.keyed e f j q,
          x.keyed epfd fd i h,
          elt-write m.vepitems i j (record it { event = event }),
        )

    removed-Updates :
        (i : ℕ) (it : Item) (v w : List ℕ)
        → m.epitemidx_by_epfdfd epfd fd ≡ some i
        → elt m.vepitems i ≡ some it
        → Updates m epfd fd none (removed lib vec true ei ep epfd fd i (some v) (some w) m).0
    unfolding removed
    removed-Updates i it v w h s e f = go (m.epitemidx_by_epfdfd e f) refl
      where
        go :
            (o : Option ℕ)
            → m.epitemidx_by_epfdfd e f ≡ o
            → interest (removed lib vec true ei ep epfd fd i (some v) (some w) m).0 e f
              ≡ (if epfd == e && fd == f then none else interest m e f)
        go none q = ground (arith, q, h)
        go (some j) q =
            ground (arith, q, h, s, x.keyed e f j q, x.keyed epfd fd i h, elt-put m.vepitems i j)

  -- In a state whose tables of items agree, every operation on an interest set returns what
  -- epoll_ctl(2) promises for the entry of that instance and that descriptor, makes of that entry
  -- what it promises, and leaves every other entry of every instance alone.
  pub ctl_vepitem-Updates :
      (ei : ℕ) (ep : Epoll) (epfd : ℕ) (op : Op) (fd : ℕ) (type : FdType) (event : Event)
      (m : Main lib)
      → IsIndexed lib vec m
      → ((ctl_vepitem lib vec true ei ep epfd op fd type event m).1
          ≡ (ctl_entry op event (interest m epfd fd)).1)
        × Updates m epfd fd
            (ctl_entry op event (interest m epfd fd)).0
            (ctl_vepitem lib vec true ei ep epfd op fd type event m).0
  unfolding removed
  ctl_vepitem-Updates ei ep epfd op fd type event m x = go op (m.epitemidx_by_epfdfd epfd fd) refl
    where
      M : Op → Main lib × Rv
      M op = ctl_vepitem lib vec true ei ep epfd op fd type event m

      same : (o : Option Event) → interest m epfd fd ≡ o → Updates m epfd fd o m
      same o q e f = ground (arith, q)

      go :
          (op : Op) (o : Option ℕ)
          → m.epitemidx_by_epfdfd epfd fd ≡ o
          → ((M op).1 ≡ (ctl_entry op event (interest m epfd fd)).1)
            × Updates m epfd fd (ctl_entry op event (interest m epfd fd)).0 (M op).0
      go add none h =
          rw (ctl_new lib vec ei ep epfd fd type event m h, h)
            (refl, entered-Updates ei ep epfd fd type event m x h)
      go add (some i) h =
          let t = there lib vec m epfd fd i x h in
          rw (ctl_refuses lib vec ei ep epfd fd type event m add (ground (arith, h)), h, t.3.item)
            (refl, same _ (rw (h, t.3.item) refl))
      go mod_ none h =
          rw (ctl_refuses lib vec ei ep epfd fd type event m mod_ (ground (arith, h)), h)
            (refl, same _ (rw (h) refl))
      go mod_ (some i) h =
          let t = there lib vec m epfd fd i x h in
          rw (ctl_modifies lib vec ei ep epfd fd type event m i t.0 h t.3.item, h, t.3.item)
            (refl, modified-Updates ei ep epfd fd type event m x i t.0 h t.3.item)
      go del none h =
          rw (ctl_refuses lib vec ei ep epfd fd type event m del (ground (arith, h)), h)
            (refl, same _ (rw (h) refl))
      go del (some i) h =
          let t = there lib vec m epfd fd i x h in
          rw (ctl_removes lib vec ei ep epfd fd type event m i t.0 t.1 t.2 h t.3, h, t.3.item)
            (refl, removed-Updates ei ep epfd fd type event m x i t.0 t.1 t.2 h t.3.item)
      go other o h =
          rw (ctl_refuses lib vec ei ep epfd fd type event m other (inl refl)) (refl, same _ refl)
