-- ===== src/Vcom/Close/Leaves.antt =====
-- What vcom_socket_close_vsock of vcl-ldpreload/src/libvcl-ldpreload/vcom_socket.c leaves of the epoll
-- instances.
use vppsb.Common.{
  ℕ, ◌≡◌, refl, ap, ◌∙◌, Bool, true, false, ◌&&◌, ◌||◌, Option, none, some, List, [], ◌∷◌, arith,
  if◌then◌else◌,
}
use vppsb.Pool.{PoolLib, has, IsDistinct}
use vppsb.Vcom.{Rv, Item, Main}
use vppsb.Vcom.Poll.{VecLib, vec_of}
use vppsb.Vcom.Poll.Indexed.{IsIndexed, SameTables, SameTables-IsIndexed}
use vppsb.Vcom.Close.{item_left, items_left}
use vppsb.Vcom.Close.Epolls.{after_leave, IsEpollKeyed, epoll_of}
use vppsb.Vcom.Close.Members.{
  is_member, item_left-epoll_of, item_left-IsEpollKeyed, item_left-SameTables, item_left-vsockets,
  item_left-sockidx_by_fd,
}

module _ (lib : PoolLib) (closes : ℕ → Rv) where
  open lib use {Pool, elt}

  abbrev any_member : Pool Item → ℕ → ℕ → List ℕ → Bool
  any_member items q fd [] = false
  any_member items q fd (i ∷ is) = is_member q fd (elt items i) || any_member items q fd is

  any_member-one :
      (items : Pool Item) (q fd k : ℕ)
      → ((i : ℕ) → is_member q fd (elt items i) ≡ true → k ≡ i)
      → (is : List ℕ) → any_member items q fd is ≡ (is_member q fd (elt items k) && has k is)
  any_member-one items q fd k u [] = ground arith
  any_member-one items q fd k u (i ∷ is) = ground (arith, u i, any_member-one items q fd k u is)

  any_member-no :
      (items : Pool Item) (q fd : ℕ)
      → ((i : ℕ) → is_member q fd (elt items i) ≡ false)
      → (is : List ℕ) → any_member items q fd is ≡ false
  any_member-no items q fd u [] = refl
  any_member-no items q fd u (i ∷ is) = ground (arith, u i, any_member-no items q fd u is)

  items_left-epoll_of :
      (vec : VecLib) (items : Pool Item) (q fd : ℕ)
      → ((i j : ℕ)
          → is_member q fd (elt items i) ≡ true
          → is_member q fd (elt items j) ≡ true
          → i ≡ j)
      → (is : List ℕ) (m : Main lib) → IsDistinct is
      → m.vepitems ≡ items
      → IsEpollKeyed lib closes m
      → epoll_of lib closes (items_left lib closes fd is m) q ≡ (
          if any_member items q fd is
          then after_leave (epoll_of lib closes m q)
          else epoll_of lib closes m q)
  unfolding items_left
  items_left-epoll_of vec items q fd u [] m d e k = refl
  items_left-epoll_of vec items q fd u (i ∷ is) m d e k = ground (
    arith,
    item_left-epoll_of lib closes fd (elt m.vepitems i) m k q,
    ap (λ p. elt p i) e,
    alone,
    items_left-epoll_of vec items q fd u is (item_left lib closes fd (elt m.vepitems i) m) d.1
        ((item_left-SameTables lib closes fd (elt m.vepitems i) m k vec).0 ∙ e)
        (item_left-IsEpollKeyed lib closes fd (elt m.vepitems i) m k),
  )
    where
      alone : is_member q fd (elt items i) ≡ true → any_member items q fd is ≡ false
      alone h = ground (arith, any_member-one items q fd i (λ j. u i j h) is, d.0)

  -- The items of a descriptor do not touch the sockets.
  pub items_left-sockets :
      (fd : ℕ) (is : List ℕ) (m : Main lib)
      → IsEpollKeyed lib closes m
      → ((items_left lib closes fd is m).vsockets ≡ m.vsockets)
        × ((items_left lib closes fd is m).sockidx_by_fd ≡ m.sockidx_by_fd)
  unfolding items_left
  items_left-sockets fd [] m k = (refl, refl)
  items_left-sockets fd (i ∷ is) m k =
      let r =
        items_left-sockets fd is (item_left lib closes fd (elt m.vepitems i) m)
          (item_left-IsEpollKeyed lib closes fd (elt m.vepitems i) m k) in
      (
        r.0 ∙ item_left-vsockets lib closes fd (elt m.vepitems i) m k,
        r.1 ∙ item_left-sockidx_by_fd lib closes fd (elt m.vepitems i) m k,
      )

  pub items_left-IsEpollKeyed :
      (fd : ℕ) (is : List ℕ) (m : Main lib)
      → IsEpollKeyed lib closes m
      → IsEpollKeyed lib closes (items_left lib closes fd is m)
  unfolding items_left
  items_left-IsEpollKeyed fd [] m k = k
  items_left-IsEpollKeyed fd (i ∷ is) m k =
      items_left-IsEpollKeyed fd is (item_left lib closes fd (elt m.vepitems i) m)
        (item_left-IsEpollKeyed lib closes fd (elt m.vepitems i) m k)

  pub items_left-SameTables :
      (vec : VecLib) (fd : ℕ) (is : List ℕ) (m : Main lib)
      → IsEpollKeyed lib closes m
      → SameTables lib vec m (items_left lib closes fd is m)
  unfolding items_left
  items_left-SameTables vec fd [] m k = (refl, refl, refl, refl)
  items_left-SameTables vec fd (i ∷ is) m k =
      let s = item_left-SameTables lib closes fd (elt m.vepitems i) m k vec in
      let r =
        items_left-SameTables vec fd is (item_left lib closes fd (elt m.vepitems i) m)
          (item_left-IsEpollKeyed lib closes fd (elt m.vepitems i) m k) in
      (r.0 ∙ s.0, r.1 ∙ s.1, r.2 ∙ s.2, r.3 ∙ s.3)

  pub items_left-IsIndexed :
      (vec : VecLib) (fd : ℕ) (is : List ℕ) (m : Main lib)
      → IsEpollKeyed lib closes m
      → IsIndexed lib vec m
      → IsIndexed lib vec (items_left lib closes fd is m)
  unfolding items_left
  items_left-IsIndexed vec fd [] m k x = x
  items_left-IsIndexed vec fd (i ∷ is) m k x =
      items_left-IsIndexed vec fd is (item_left lib closes fd (elt m.vepitems i) m)
        (item_left-IsEpollKeyed lib closes fd (elt m.vepitems i) m k)
        (SameTables-IsIndexed lib vec m (item_left lib closes fd (elt m.vepitems i) m)
          (item_left-SameTables lib closes fd (elt m.vepitems i) m k vec) x)

  abbrev pub registers_at : Main lib → ℕ → ℕ → Option ℕ → Bool
  registers_at m q fd none = false
  registers_at m q fd (some i) = is_member q fd (elt m.vepitems i)

  -- Whether the socket is in the set of the epoll instance.
  abbrev pub registers : Main lib → ℕ → ℕ → Bool
  registers m q fd = registers_at m q fd (m.epitemidx_by_epfdfd q fd)

  module _ (vec : VecLib) (m : Main lib) (x : IsIndexed lib vec m) (q fd : ℕ) where
    member_index :
        (i : ℕ) → is_member q fd (elt m.vepitems i) ≡ true → m.epitemidx_by_epfdfd q fd ≡ some i
    member_index i h = go (elt m.vepitems i) refl
      where
        go : (o : Option Item) → elt m.vepitems i ≡ o → m.epitemidx_by_epfdfd q fd ≡ some i
        go none s = ground (arith, s, h)
        go (some it) s = ground (arith, s, h, x.listed i it s)

    any_member-registers :
        any_member m.vepitems q fd (vec_of (m.epitemidxs_by_fd fd)) ≡ registers m q fd
    any_member-registers = go (m.epitemidx_by_epfdfd q fd) refl
      where
        go :
            (o : Option ℕ)
            → m.epitemidx_by_epfdfd q fd ≡ o
            → any_member m.vepitems q fd (vec_of (m.epitemidxs_by_fd fd)) ≡ registers m q fd
        go none n = rw (n) (
            any_member-no m.vepitems q fd (λ i. ground (arith, n, member_index i))
              (vec_of (m.epitemidxs_by_fd fd)))
        go (some k) n = ground (
          arith,
          n,
          x.keyed q fd k n,
          x.by_fd fd k,
          any_member-one m.vepitems q fd k (λ i h. ground (arith, n, member_index i h))
              (vec_of (m.epitemidxs_by_fd fd)),
        )

  -- The loop that the close of a socket ends with, over all items of the socket.
  pub items_left-leaves :
      (vec : VecLib) (m : Main lib)
      → IsIndexed lib vec m
      → IsEpollKeyed lib closes m
      → (fd q : ℕ)
      → epoll_of lib closes (items_left lib closes fd (vec_of (m.epitemidxs_by_fd fd)) m) q ≡ (
          if registers m q fd
          then after_leave (epoll_of lib closes m q)
          else epoll_of lib closes m q)
  items_left-leaves vec m x k fd q = ground (
    arith,
    any_member-registers vec m x q fd,
    items_left-epoll_of vec m.vepitems q fd same (vec_of (m.epitemidxs_by_fd fd)) m
        (x.fd_distinct fd) refl k,
  )
    where
      same :
          (i j : ℕ)
          → is_member q fd (elt m.vepitems i) ≡ true
          → is_member q fd (elt m.vepitems j) ≡ true
          → i ≡ j
      same i j h h' = ground (arith, member_index vec m x q fd i h, member_index vec m x q fd j h')
