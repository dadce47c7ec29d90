-- ===== src/Vcom/Close/Members.antt =====
-- The loop of vcom_socket_close_vsock in vcl-ldpreload/src/libvcl-ldpreload/vcom_socket.c over the
-- items of a descriptor, and what it leaves of each epoll instance.
use vppsb.Common.{
  ℕ, ◌≡◌, refl, Bool, true, false, ◌&&◌, Option, none, some, arith, ◌==◌, if◌then◌else◌, no_index,
  Bool-cases, inl, inr, ◌⊎◌,
}
use vppsb.Pool.{PoolLib}
use vppsb.Vcom.{
  Rv, ebadf, Item, Epoll, Main, refused, bound, check_epoll, epoll_checked, get_vepoll,
}
use vppsb.Vcom.Poll.{VecLib}
use vppsb.Vcom.Poll.Indexed.{SameTables}
use vppsb.Vcom.Close.{is_socket, left, item_left}
use vppsb.Vcom.Close.Epolls.{
  after_leave, IsEpollKeyed, epoll_of, left-epoll_of, left-IsEpollKeyed, left-SameTables,
  left-vsockets, left-sockidx_by_fd,
}

-- An item of the epoll instance `q` for the socket `fd`.
abbrev pub is_member : ℕ → ℕ → Option Item → Bool
is_member q fd none = false
is_member q fd (some it) = it.epfd == q && it.fd == fd && is_socket it.type

module _ (lib : PoolLib) (closes : ℕ → Rv) where
  open lib use {elt, write, put, elt-write, elt-put}

  -- The epoll instance that the lookup of `q` finds.
  record IsFound (m : Main lib) (q i : ℕ) (e : Epoll) : Type 0 where
    index : m.epollidx_by_epfd e.epfd ≡ some i
    epoll : elt m.vepolls i ≡ some e
    epfd_at : e.epfd ≡ q
    vep_at : (e.vep_idx == no_index) ≡ false
    got : get_vepoll lib m q ≡ bound i e

  abbrev Lookup : Main lib → ℕ → Type 0
  Lookup m q =
      ((after_leave (epoll_of lib closes m q) ≡ epoll_of lib closes m q)
        × (get_vepoll lib m q ≡ refused ebadf))
      ⊎ ((i : ℕ) × (e : Epoll) × IsFound m q i e)

  get_vepoll-Lookup : (m : Main lib) (q : ℕ) → IsEpollKeyed lib closes m → Lookup m q
  unfolding get_vepoll check_epoll epoll_checked
  get_vepoll-Lookup m q k = go (m.epollidx_by_epfd q) refl
    where
      at :
          (i : ℕ) (o : Option Epoll)
          → m.epollidx_by_epfd q ≡ some i
          → elt m.vepolls i ≡ o
          → Lookup m q
      at i none h s = ground (arith, k q i h, s)
      at i (some e) h s = by (Bool-cases (e.vep_idx == no_index))
        where
          by : ((e.vep_idx == no_index) ≡ true) ⊎ ((e.vep_idx == no_index) ≡ false) → Lookup m q
          by (inl v) = inl (ground (arith, h, k q i h, s, v), ground (arith, h, k q i h, s, v))
          by (inr v) = inr (
            i,
            e,
            record {
              index = ground (arith, h, k q i h, s);
              epoll = s;
              epfd_at = ground (arith, k q i h, s);
              vep_at = v;
              got = ground (arith, h, k q i h, s, v);
            },
          )

      go : (o : Option ℕ) → m.epollidx_by_epfd q ≡ o → Lookup m q
      go none h = inl (ground (arith, h), ground (arith, h))
      go (some i) h = at i (elt m.vepolls i) h refl

  -- What holds of the state, and of the state that `left` ends in, holds after an item.
  item_left-elim :
      (fd : ℕ) (o : Option Item) (m : Main lib) (P : Main lib → Type 0)
      → IsEpollKeyed lib closes m
      → P m
      → ((i : ℕ) (e : Epoll)
          → m.epollidx_by_epfd e.epfd ≡ some i
          → elt m.vepolls i ≡ some e
          → P (left lib closes i e m))
      → P (item_left lib closes fd o m)
  unfolding item_left
  item_left-elim fd none m P k n l = n
  item_left-elim fd (some it) m P k n l =
      go (it.fd == fd && is_socket it.type) (get_vepoll-Lookup m it.epfd k)
    where
      go :
          (b : Bool)
          → Lookup m it.epfd
          → P (
              if b
              then elim (get_vepoll lib m it.epfd) [
                | refused n ↦ m
                | bound i e ↦ left lib closes i e m
              ]
              else m)
      go false c = n
      go true (inl c) = rw (c.1) n
      go true (inr (i, e, f)) = rw (f.got) (l i e f.index f.epoll)

  pub item_left-epoll_of :
      (fd : ℕ) (o : Option Item) (m : Main lib)
      → IsEpollKeyed lib closes m
      → (q : ℕ)
      → epoll_of lib closes (item_left lib closes fd o m) q ≡ (
          if is_member q fd o
          then after_leave (epoll_of lib closes m q)
          else epoll_of lib closes m q)
  unfolding item_left
  item_left-epoll_of fd none m k q = refl
  item_left-epoll_of fd (some it) m k q = go (get_vepoll-Lookup m it.epfd k)
    where
      go :
          Lookup m it.epfd
          → epoll_of lib closes (item_left lib closes fd (some it) m) q ≡ (
              if is_member q fd (some it)
              then after_leave (epoll_of lib closes m q)
              else epoll_of lib closes m q)
      go (inl c) = ground (arith, c.0, c.1)
      go (inr (i, e, f)) = ground (
        arith,
        f.index,
        f.epoll,
        f.epfd_at,
        f.got,
        left-epoll_of lib closes i e m k f.index f.epoll f.vep_at q,
      )

  module _ (fd : ℕ) (o : Option Item) (m : Main lib) (k : IsEpollKeyed lib closes m) where
    pub item_left-IsEpollKeyed : IsEpollKeyed lib closes (item_left lib closes fd o m)
    item_left-IsEpollKeyed =
        item_left-elim fd o m (IsEpollKeyed lib closes) k k
          (λ i e h s. left-IsEpollKeyed lib closes i e m k h s)

    pub item_left-SameTables : (vec : VecLib) → SameTables lib vec m (item_left lib closes fd o m)
    item_left-SameTables vec =
        item_left-elim fd o m (SameTables lib vec m) k (refl, refl, refl, refl)
          (λ i e h s. left-SameTables lib closes i e m k h s vec)

    pub item_left-vsockets : (item_left lib closes fd o m).vsockets ≡ m.vsockets
    item_left-vsockets =
        item_left-elim fd o m (λ m'. m'.vsockets ≡ m.vsockets) k refl
          (λ i e h s. left-vsockets lib closes i e m k h s)

    pub item_left-sockidx_by_fd : (item_left lib closes fd o m).sockidx_by_fd ≡ m.sockidx_by_fd
    item_left-sockidx_by_fd =
        item_left-elim fd o m (λ m'. m'.sockidx_by_fd ≡ m.sockidx_by_fd) k refl
          (λ i e h s. left-sockidx_by_fd lib closes i e m k h s)
