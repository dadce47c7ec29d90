-- ===== src/Vcom/Calls/Kept.antt =====
-- Every call on the sockets and epoll instances of
-- vcl-ldpreload/src/libvcl-ldpreload/vcom_socket.c keeps its tables in agreement.
use vppsb.Common.{ℕ, ◌≡◌, refl, true, false, some, List, arith, inl, inr}
use vppsb.Pool.{PoolLib}
use vppsb.Vcom.{
  Rv, emit, Effect, vppcom_bound, FdType, Socket, Event, Item, Epoll, Main, bound, check_epoll,
  check_socket, is_vcom_fd, is_vcom_epfd,
}
use vppsb.Vcom.Poll.{VecLib, Op, vec_of, ctl_vepitem}
use vppsb.Vcom.Poll.Indexed.{SameTables, SameTables-IsIndexed, ctl_vepitem-IsIndexed}
use vppsb.Vcom.Open.{registered, epoll_registered}
use vppsb.Vcom.Poll.Cases.{found-elt, Counts, ctl_vepitem-Counts, epoll_ctl-elim}
use vppsb.Vcom.Open.Cases.{socket-elim, epoll_create1-elim}
use vppsb.Vcom.Open.Accept.Cases.{accept_flags-elim}
use vppsb.Vcom.Close.{socket_dropped, items_left, epoll_dropped, with_epoll}
use vppsb.Vcom.Close.Epolls.{IsEpollKeyed}
use vppsb.Vcom.Close.Leaves.{items_left-sockets, items_left-IsEpollKeyed, items_left-IsIndexed}
use vppsb.Vcom.Close.Cases.{check_socket-bound, check_epoll-bound, close-elim}
use vppsb.Vcom.Calls.{
  Reach, fresh, by_socket, by_epoll_create, by_accept, by_epoll_ctl, by_close, IsWellFormed,
  initial,
}

module _ (lib : PoolLib) (vec : VecLib) (closes : ℕ → Rv) where
  open lib use {elt, write, put, elt-fresh, elt-write, elt-put}

  -- Before the first call no descriptor is VPP's.
  pub initial-is_vcom_fd : (fd : ℕ) → is_vcom_fd lib (initial lib vec closes) fd ≡ false
  unfolding is_vcom_fd check_socket
  initial-is_vcom_fd fd = refl

  pub initial-is_vcom_epfd : (epfd : ℕ) → is_vcom_epfd lib (initial lib vec closes) epfd ≡ false
  unfolding is_vcom_epfd check_epoll
  initial-is_vcom_epfd epfd = refl

  -- A state that has the tables, the sockets and the epoll instances of another.
  logged-IsWellFormed :
      (m m' : Main lib)
      → SameTables lib vec m m'
      → (m'.vsockets ≡ m.vsockets)
      → (m'.sockidx_by_fd ≡ m.sockidx_by_fd)
      → (m'.vepolls ≡ m.vepolls)
      → (m'.epollidx_by_epfd ≡ m.epollidx_by_epfd)
      → IsWellFormed lib vec closes m
      → IsWellFormed lib vec closes m'
  logged-IsWellFormed m m' t a b c d w = record {
    indexed = SameTables-IsIndexed lib vec m m' t w.indexed;
    sockets = rw (a, b) w.sockets;
    epolls = rw (c, d) w.epolls;
  }

  registered-IsWellFormed :
      (fd sid : ℕ) (m : Main lib)
      → IsWellFormed lib vec closes m
      → IsWellFormed lib vec closes (registered lib fd sid m)
  registered-IsWellFormed fd sid m w = record {
    indexed = SameTables-IsIndexed lib vec m _ (refl, refl, refl, refl) w.indexed;
    sockets = λ g j h. ground (
      arith,
      w.sockets g j,
      elt-fresh m.vsockets,
      elt-write m.vsockets (lib.fresh m.vsockets) j
          (record { fd = fd; sid = sid; type = vppcom_bound }),
    );
    epolls = w.epolls;
  }

  epoll_registered-IsWellFormed :
      (epfd vep_idx flags : ℕ) (m : Main lib)
      → IsWellFormed lib vec closes m
      → IsWellFormed lib vec closes (epoll_registered lib epfd vep_idx flags m)
  epoll_registered-IsWellFormed epfd vep_idx flags m w = record {
    indexed = SameTables-IsIndexed lib vec m _ (refl, refl, refl, refl) w.indexed;
    sockets = w.sockets;
    epolls = λ q j h. ground (
      arith,
      w.epolls q j,
      elt-fresh m.vepolls,
      elt-write m.vepolls (lib.fresh m.vepolls) j (record {
        epfd = epfd;
        vep_idx = vep_idx;
        type = vppcom_bound;
        flags = flags;
        count = 0;
        close = false;
      }),
    );
  }

  emit-IsWellFormed :
      (e : Effect) (m : Main lib)
      → IsWellFormed lib vec closes m
      → IsWellFormed lib vec closes (emit lib e m)
  emit-IsWellFormed e m w =
      logged-IsWellFormed m (emit lib e m) (refl, refl, refl, refl) refl refl refl refl w

  Counts-IsEpollKeyed :
      (ei : ℕ) (e : Epoll) (m m' : Main lib)
      → Counts lib vec ei e m m'
      → elt m.vepolls ei ≡ some e
      → IsEpollKeyed lib closes m
      → IsEpollKeyed lib closes m'
  Counts-IsEpollKeyed ei e m m' (a, b, c, inl d) s k = rw (c, d) k
  Counts-IsEpollKeyed ei e m m' (a, b, c, inr (n, d)) s k =
      rw (c, d)
        (λ q j h. ground (arith, s, h, k q j h, elt-write m.vepolls ei j (record e { count = n })))

  ctl_vepitem-IsWellFormed :
      (ei : ℕ) (e : Epoll) (epfd : ℕ) (op : Op) (fd : ℕ) (type : FdType) (event : Event)
      (m : Main lib)
      → elt m.vepolls ei ≡ some e
      → IsWellFormed lib vec closes m
      → IsWellFormed lib vec closes (ctl_vepitem lib vec true ei e epfd op fd type event m).0
  ctl_vepitem-IsWellFormed ei e epfd op fd type event m s w =
      let c = ctl_vepitem-Counts lib vec ei e m true epfd op fd type event in
      record {
        indexed = ctl_vepitem-IsIndexed lib vec ei e epfd op fd type event m w.indexed;
        sockets = rw (c.0, c.1) w.sockets;
        epolls =
            Counts-IsEpollKeyed ei e m (ctl_vepitem lib vec true ei e epfd op fd type event m).0 c s
              w.epolls;
      }

  socket_dropped-IsWellFormed :
      (fd i : ℕ) (s : Socket) (m : Main lib)
      → check_socket lib m fd ≡ bound i s
      → IsWellFormed lib vec closes m
      → IsWellFormed lib vec closes (socket_dropped lib closes fd i s m)
  socket_dropped-IsWellFormed fd i s m c w =
      let h = check_socket-bound lib m fd i s c in
      record {
        indexed = SameTables-IsIndexed lib vec m _ (refl, refl, refl, refl) w.indexed;
        sockets = λ g j r.
            ground (arith, r, h.0, h.1, w.sockets fd i h.0, w.sockets g j, elt-put m.vsockets i j);
        epolls = w.epolls;
      }

  epoll_dropped-IsWellFormed :
      (fd i : ℕ) (e : Epoll) (m : Main lib)
      → check_epoll lib m fd ≡ bound i e
      → IsWellFormed lib vec closes m
      → IsWellFormed lib vec closes (epoll_dropped lib closes fd i e m)
  epoll_dropped-IsWellFormed fd i e m c w =
      let h = check_epoll-bound lib m fd i e c in
      record {
        indexed = SameTables-IsIndexed lib vec m _ (refl, refl, refl, refl) w.indexed;
        sockets = w.sockets;
        epolls = λ q j r.
            ground (arith, r, h.0, h.1, w.epolls fd i h.0, w.epolls q j, elt-put m.vepolls i j);
      }

  with_epoll-IsWellFormed :
      (fd i : ℕ) (e : Epoll) (m : Main lib)
      → check_epoll lib m fd ≡ bound i e
      → IsWellFormed lib vec closes m
      → IsWellFormed lib vec closes (with_epoll lib closes i (record e { close = true }) m)
  with_epoll-IsWellFormed fd i e m c w =
      let h = check_epoll-bound lib m fd i e c in
      record {
        indexed = SameTables-IsIndexed lib vec m _ (refl, refl, refl, refl) w.indexed;
        sockets = w.sockets;
        epolls = λ q j r. ground (
          arith,
          r,
          h.0,
          h.1,
          w.epolls fd i h.0,
          w.epolls q j,
          elt-write m.vepolls i j (record e { close = true }),
        );
      }

  items_left-IsWellFormed :
      (fd : ℕ) (is : List ℕ) (m : Main lib)
      → IsWellFormed lib vec closes m
      → IsWellFormed lib vec closes (items_left lib closes fd is m)
  items_left-IsWellFormed fd is m w =
      let s = items_left-sockets lib closes fd is m w.epolls in
      record {
        indexed = items_left-IsIndexed lib closes vec fd is m w.epolls w.indexed;
        sockets = rw (s.0, s.1) w.sockets;
        epolls = items_left-IsEpollKeyed lib closes fd is m w.epolls;
      }

  pub initial-IsWellFormed : IsWellFormed lib vec closes (initial lib vec closes)
  initial-IsWellFormed = record {
    indexed = record {
      keyed = λ e f i h. ground (arith, h);
      listed = λ i it h. ground (arith, h, lib.elt-empty Item i);
      by_epfd = λ e i. ground (arith, lib.elt-empty Item i);
      by_fd = λ f i. ground (arith, lib.elt-empty Item i);
      epfd_distinct = λ e. tt;
      fd_distinct = λ f. tt;
    };
    sockets = λ fd i h. ground (arith, h);
    epolls = λ q i h. ground (arith, h);
  }

  -- However the program calls socket, epoll_create1, accept, epoll_ctl and close, and whatever the C
  -- library and vppcom answer, the tables stay in agreement: each hash of items finds exactly the
  -- items of its key, and each socket and epoll instance stands at its own descriptor.
  pub Reach-IsWellFormed : {m : Main lib} → Reach lib vec closes m → IsWellFormed lib vec closes m
  Reach-IsWellFormed fresh = initial-IsWellFormed
  Reach-IsWellFormed (by_socket {m} domain type made create r) =
      let w = Reach-IsWellFormed r in
      socket-elim lib (IsWellFormed lib vec closes) m w
        (λ fd. emit-IsWellFormed _ _ (emit-IsWellFormed _ m w))
        (λ fd sid.
          registered-IsWellFormed fd sid _ (emit-IsWellFormed _ _ (emit-IsWellFormed _ m w)))
        domain type made create
  Reach-IsWellFormed (by_epoll_create {m} flags made created r) =
      let w = Reach-IsWellFormed r in
      epoll_create1-elim lib (IsWellFormed lib vec closes) m w
        (λ fd. emit-IsWellFormed _ _ (emit-IsWellFormed _ m w))
        (λ epfd v f.
          epoll_registered-IsWellFormed epfd v f _
            (emit-IsWellFormed _ _ (emit-IsWellFormed _ m w)))
        flags made created
  Reach-IsWellFormed (by_accept {m} wants wants_len fd flags mode getfl take k r) =
      let w = Reach-IsWellFormed r in
      accept_flags-elim lib (IsWellFormed lib vec closes) m w (λ sid. emit-IsWellFormed _ m w)
        (λ g sid. registered-IsWellFormed g sid _ (emit-IsWellFormed _ _ (emit-IsWellFormed _ m w)))
        wants wants_len fd flags mode getfl take k
  Reach-IsWellFormed (by_epoll_ctl {m} epfd op fd event answer r) =
      let w = Reach-IsWellFormed r in
      epoll_ctl-elim lib vec epfd op fd event answer m (IsWellFormed lib vec closes) w
        (λ ei e type h.
          ctl_vepitem-IsWellFormed ei e epfd op fd type event m (found-elt lib m epfd ei e h) w)
  Reach-IsWellFormed (by_close {m} fd r) =
      let w = Reach-IsWellFormed r in
      close-elim lib closes fd m (IsWellFormed lib vec closes) w
        (λ i s h.
          items_left-IsWellFormed fd (vec_of (m.epitemidxs_by_fd fd))
            (socket_dropped lib closes fd i s m) (socket_dropped-IsWellFormed fd i s m h w))
        (λ i e h. epoll_dropped-IsWellFormed fd i e m h w)
        (λ i e h. with_epoll-IsWellFormed fd i e m h w)
