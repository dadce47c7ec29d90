-- ===== src/Vcom/Close/Sockets.antt =====
-- The close of a socket in vcl-ldpreload/src/libvcl-ldpreload/vcom_socket.c: what it leaves of the
-- sockets, of the epoll instances and of the tables of items.
use vppsb.Common.{
  ℕ, ◌≡◌, refl, ◌∙◌, Bool, true, false, ◌&&◌, Option, none, some, arith, ◌==◌, if◌then◌else◌,
}
use vppsb.Pool.{PoolLib}
use vppsb.Vcom.{
  Rv, Main, Socket, Checked, refused, bound, is_bound, ebadf, check_socket, socket_checked,
  is_vcom_fd,
}
use vppsb.Vcom.Poll.{VecLib, vec_of}
use vppsb.Vcom.Poll.Indexed.{IsIndexed, SameTables}
use vppsb.Vcom.Close.{items_left, socket_dropped, socket_closed, close_vsock}
use vppsb.Vcom.Close.Epolls.{after_leave, IsEpollKeyed, epoll_of}
use vppsb.Vcom.Close.Leaves.{
  items_left-sockets, items_left-SameTables, items_left-leaves, registers,
}

abbrev pub is_socket_of : ℕ → Option Socket → Bool
is_socket_of fd none = false
is_socket_of fd (some s) = s.fd == fd && is_bound s.type

same_sockets-check_socket :
    (lib : PoolLib) (m m' : Main lib)
    → (m'.vsockets ≡ m.vsockets) × (m'.sockidx_by_fd ≡ m.sockidx_by_fd)
    → (g : ℕ) → check_socket lib m' g ≡ check_socket lib m g
unfolding check_socket
same_sockets-check_socket lib m m' (v, i) g = rw (v, i) refl

module _ (lib : PoolLib) (closes : ℕ → Rv) where
  open lib use {elt, put, elt-put}

  -- The sockets stand at the indices of their descriptors.
  abbrev pub IsSocketKeyed : Main lib → Type 0
  IsSocketKeyed m =
      (fd i : ℕ) → m.sockidx_by_fd fd ≡ some i → is_socket_of fd (elt m.vsockets i) ≡ true

  module _ (vec : VecLib) (m : Main lib) (x : IsIndexed lib vec m) (s : IsSocketKeyed m)
      (k : IsEpollKeyed lib closes m) where
    -- What the close of a socket is, where the descriptor is one.
    close_vsock-bound :
        (fd i : ℕ) (so : Socket)
        → check_socket lib m fd ≡ bound i so
        → (close_vsock lib closes fd m).0
          ≡ items_left lib closes fd
              (vec_of (m.epitemidxs_by_fd fd))
              (socket_dropped lib closes fd i so m)
    unfolding close_vsock socket_closed
    close_vsock-bound fd i so c = ground (arith, c)

    dropped-IsIndexed :
        (fd i : ℕ) (so : Socket) → IsIndexed lib vec (socket_dropped lib closes fd i so m)
    dropped-IsIndexed fd i so = record {
      keyed = x.keyed;
      listed = x.listed;
      by_epfd = x.by_epfd;
      by_fd = x.by_fd;
      epfd_distinct = x.epfd_distinct;
      fd_distinct = x.fd_distinct;
    }

    epoll_of-close_vsock :
        (fd : ℕ)
        → is_vcom_fd lib m fd ≡ true
        → (q : ℕ)
        → epoll_of lib closes (close_vsock lib closes fd m).0 q ≡ (
            if registers lib closes m q fd
            then after_leave (epoll_of lib closes m q)
            else epoll_of lib closes m q)
    unfolding is_vcom_fd
    epoll_of-close_vsock fd h q = go (check_socket lib m fd) refl
      where
        go :
            (c : Checked Socket)
            → check_socket lib m fd ≡ c
            → epoll_of lib closes (close_vsock lib closes fd m).0 q ≡ (
                if registers lib closes m q fd
                then after_leave (epoll_of lib closes m q)
                else epoll_of lib closes m q)
        go (refused n) e = ground (arith, e, h)
        go (bound i so) e = rw (close_vsock-bound fd i so e) (
            items_left-leaves lib closes vec (socket_dropped lib closes fd i so m)
              (dropped-IsIndexed fd i so) k fd q)

    close_vsock-SameTables :
        (fd : ℕ) → is_vcom_fd lib m fd ≡ true → SameTables lib vec m (close_vsock lib closes fd m).0
    unfolding is_vcom_fd
    close_vsock-SameTables fd h = go (check_socket lib m fd) refl
      where
        go :
            (c : Checked Socket)
            → check_socket lib m fd ≡ c
            → SameTables lib vec m (close_vsock lib closes fd m).0
        go (refused n) e = ground (arith, e, h)
        go (bound i so) e = rw (close_vsock-bound fd i so e) (
            items_left-SameTables lib closes vec fd (vec_of (m.epitemidxs_by_fd fd))
              (socket_dropped lib closes fd i so m) k)

    -- Where the tables agree, closing a socket takes away each epoll instance that waits to be closed,
    -- has an index of VPP, holds an item of the socket and has a count of 1, and lowers the count of
    -- each other such instance by one, modulo 2^32. Every other epoll instance stays as it is, and so do
    -- the items, those of the socket too, and the tables that find them.
    pub close_vsock-epoll_of :
        (fd : ℕ)
        → is_vcom_fd lib m fd ≡ true
        → ((q : ℕ)
            → epoll_of lib closes (close_vsock lib closes fd m).0 q ≡ (
                if registers lib closes m q fd
                then after_leave (epoll_of lib closes m q)
                else epoll_of lib closes m q))
          × SameTables lib vec m (close_vsock lib closes fd m).0
    close_vsock-epoll_of fd h = (epoll_of-close_vsock fd h, close_vsock-SameTables fd h)

    dropped-check_socket :
        (fd i : ℕ) (so : Socket)
        → check_socket lib m fd ≡ bound i so
        → (g : ℕ)
        → check_socket lib (socket_dropped lib closes fd i so m) g
          ≡ (if fd == g then refused ebadf else check_socket lib m g)
    unfolding check_socket socket_checked
    dropped-check_socket fd i so c g = go (m.sockidx_by_fd fd) refl (m.sockidx_by_fd g) refl
      where
        go :
            (o : Option ℕ)
            → m.sockidx_by_fd fd ≡ o
            → (p : Option ℕ) → m.sockidx_by_fd g ≡ p
            → check_socket lib (socket_dropped lib closes fd i so m) g
              ≡ (if fd == g then refused ebadf else check_socket lib m g)
        go o h none h' = ground (arith, h')
        go none h (some j) h' = ground (arith, h, c)
        go (some i') h (some j) h' =
            ground (arith, h, h', c, s fd i' h, s g j h', elt-put m.vsockets i j)

    -- Closing a socket ends what its descriptor stands for, and leaves every other socket alone.
    pub close_vsock-check_socket :
        (fd : ℕ)
        → is_vcom_fd lib m fd ≡ true
        → (g : ℕ)
        → check_socket lib (close_vsock lib closes fd m).0 g
          ≡ (if fd == g then refused ebadf else check_socket lib m g)
    unfolding is_vcom_fd
    close_vsock-check_socket fd h g = go (check_socket lib m fd) refl
      where
        go :
            (c : Checked Socket)
            → check_socket lib m fd ≡ c
            → check_socket lib (close_vsock lib closes fd m).0 g
              ≡ (if fd == g then refused ebadf else check_socket lib m g)
        go (refused n) e = ground (arith, e, h)
        go (bound i so) e = rw (close_vsock-bound fd i so e) (
            same_sockets-check_socket lib (socket_dropped lib closes fd i so m)
              (items_left lib closes fd (vec_of (m.epitemidxs_by_fd fd))
                (socket_dropped lib closes fd i so m))
              (items_left-sockets lib closes fd (vec_of (m.epitemidxs_by_fd fd))
                (socket_dropped lib closes fd i so m) k)
              g
            ∙ dropped-check_socket fd i so e g)
