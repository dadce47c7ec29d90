-- ===== src/Vcom/Close.antt =====
-- close of vcl-ldpreload/src/libvcl-ldpreload/vcom_socket.c: of a socket, and of an epoll instance,
-- which waits for its last descriptor.
pub mod Sockets
pub mod Epolls
pub mod Members
pub mod Leaves
pub mod Cases
use vppsb.Common.{
  ℕ, ◌+◌, ◌-◌, ◌%◌, ◌^◌, Bool, true, false, ◌&&◌, ◌||◌, not, Option, none, some, List, [], ◌∷◌,
  ◌==◌, if◌then◌else◌,
}
use vppsb.Pool.{PoolLib}
use vppsb.Vcom.{
  Rv, ret, err, ebadf, FdType, invalid, kernel, epoll, vcom_socket, Socket, Item, Epoll, Main,
  Checked, refused, bound, check_epoll, check_socket, get_vepoll, is_vcom_fd, is_vcom_epfd,
  hash_unset, Effect, fd_closed, session_closed,
}
use vppsb.Vcom.Poll.{vec_of}

abbrev pub is_socket : FdType → Bool
is_socket vcom_socket = true
is_socket _ = false

-- `closes` is what close of the C library returns for a descriptor.
module _ (lib : PoolLib) (closes : ℕ → Rv) where
  open lib use {elt, write, put}

  abbrev pub epoll_dropped : ℕ → ℕ → Epoll → Main lib → Main lib
  epoll_dropped epfd i e m = record m {
    vepolls = put vepolls i;
    epollidx_by_epfd = hash_unset epollidx_by_epfd epfd;
    log = fd_closed e.epfd ∷ session_closed e.vep_idx ∷ log;
  }
    where
      open m use {vepolls, epollidx_by_epfd, log}

  abbrev pub with_epoll : ℕ → Epoll → Main lib → Main lib
  with_epoll i e m = record m { vepolls = write vepolls i e }
    where
      open m use {vepolls}

  pub epoll_closed : ℕ → Checked Epoll → Main lib → Main lib × Rv
  epoll_closed epfd (refused n) m = (m, err n)
  epoll_closed epfd (bound i e) m =
      if e.count == 0
      then (epoll_dropped epfd i e m, closes e.epfd)
      else if not e.close
      then (with_epoll i (record e { close = true }) m, ret 0)
      else (m, err ebadf)

  pub close_vepoll : ℕ → Main lib → Main lib × Rv
  unfolding epoll_closed
  close_vepoll epfd m = epoll_closed epfd (check_epoll lib m epfd) m

  -- What the close of a member does to an epoll instance, at the index `i` of its pool.
  pub left : ℕ → Epoll → Main lib → Main lib
  unfolding close_vepoll
  left i e m =
      if e.close
      then if e.count == 1
        then (close_vepoll e.epfd (with_epoll i (record e { count = 0 }) m)).0
        else with_epoll i (record e { count = (e.count + 2 ^ 32 - 1) % 2 ^ 32 }) m
      else m

  pub item_left : ℕ → Option Item → Main lib → Main lib
  unfolding left
  item_left fd none m = m
  item_left fd (some it) m =
      if it.fd == fd && is_socket it.type
      then elim (get_vepoll lib m it.epfd) [ refused n ↦ m | bound i e ↦ left i e m ]
      else m

  -- The loop over the items of the descriptor, by their indices.
  pub items_left : ℕ → List ℕ → Main lib → Main lib
  unfolding item_left
  items_left fd [] m = m
  items_left fd (i ∷ is) m = items_left fd is (item_left fd (elt m.vepitems i) m)

  abbrev pub socket_dropped : ℕ → ℕ → Socket → Main lib → Main lib
  socket_dropped fd i s m = record m {
    vsockets = put vsockets i;
    sockidx_by_fd = hash_unset sockidx_by_fd fd;
    log = fd_closed s.fd ∷ session_closed s.sid ∷ log;
  }
    where
      open m use {vsockets, sockidx_by_fd, log}

  pub socket_closed : ℕ → Checked Socket → Main lib → Main lib × Rv
  unfolding items_left
  socket_closed fd (refused n) m = (m, err n)
  socket_closed fd (bound i s) m =
      (items_left fd (vec_of (m.epitemidxs_by_fd fd)) (socket_dropped fd i s m), closes s.fd)

  pub close_vsock : ℕ → Main lib → Main lib × Rv
  unfolding socket_closed
  close_vsock fd m = socket_closed fd (check_socket lib m fd) m

  pub close : ℕ → Main lib → Main lib × Rv
  unfolding close_vsock
  close fd m =
      if is_vcom_fd lib m fd
      then close_vsock fd m
      else if is_vcom_epfd lib m fd
      then close_vepoll fd m
      else (m, err ebadf)
