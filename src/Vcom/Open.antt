-- ===== src/Vcom/Open.antt =====
-- What opens sockets and epoll instances in vcl-ldpreload/src/libvcl-ldpreload/vcom_socket.c: socket,
-- epoll_create1 and accept.
-- What the C library and vppcom return is an argument of each function.
pub mod Accept
pub mod Cases
use vppsb.Common.{
  ℕ, ◌+◌, ◌-◌, ◌%◌, ◌^◌, Bool, true, false, ◌&&◌, ◌||◌, not, Option, none, some, List, [], ◌∷◌,
  ◌==◌, if◌then◌else◌,
}
use Prim.Native.Nat.{bit_and}
use vppsb.Pool.{PoolLib}
use vppsb.Vcom.{
  Rv, ret, err, einval, vppcom_bound, Socket, Epoll, Main, emit, hash_set, Effect, fd_opened,
  fd_closed, session_opened,
}

abbrev pub sock_nonblock : ℕ
sock_nonblock = 2 ^ 11

abbrev pub sock_cloexec : ℕ
sock_cloexec = 2 ^ 19

abbrev epoll_cloexec : ℕ
epoll_cloexec = 2 ^ 19

-- type & ~(SOCK_CLOEXEC | SOCK_NONBLOCK), of 32 bits.
abbrev pub kind_of : ℕ → ℕ
kind_of type = bit_and type (2 ^ 32 - 1 - 2 ^ 11 - 2 ^ 19)

-- AF_INET and AF_INET6, SOCK_STREAM and SOCK_DGRAM; `made` is what socket of the C library returns.
unfoldable pub open_socket : ℕ → ℕ → Rv → Rv
open_socket domain type made =
    if (domain == 2 || domain == 10) && (kind_of type == 1 || kind_of type == 2)
    then made
    else err 1

-- No flags but EPOLL_CLOEXEC.
pub open_epoll : ℕ → Rv → Rv
open_epoll flags made = if flags == 0 || flags == epoll_cloexec then made else err einval

module _ (lib : PoolLib) where
  open lib use {fresh, write}

  -- A socket for the descriptor and the session, in its pool and in the hash.
  abbrev pub registered : ℕ → ℕ → Main lib → Main lib
  registered fd sid m = record m {
    vsockets = write vsockets (fresh vsockets) (record { fd = fd; sid = sid; type = vppcom_bound });
    sockidx_by_fd = hash_set sockidx_by_fd fd (fresh vsockets);
  }
    where
      open m use {vsockets, sockidx_by_fd}

  abbrev pub epoll_registered : ℕ → ℕ → ℕ → Main lib → Main lib
  epoll_registered epfd vep_idx flags m = record m {
    vepolls = write vepolls (fresh vepolls) (record {
      epfd = epfd;
      vep_idx = vep_idx;
      type = vppcom_bound;
      flags = flags;
      count = 0;
      close = false;
    });
    epollidx_by_epfd = hash_set epollidx_by_epfd epfd (fresh vepolls);
  }
    where
      open m use {vepolls, epollidx_by_epfd}

  unfoldable pub session_made : ℕ → Rv → Main lib → Main lib × Rv
  session_made fd (err n) m = (emit lib (fd_closed fd) m, err n)
  session_made fd (ret sid) m = (registered fd sid (emit lib (session_opened sid) m), ret fd)

  unfoldable pub socket_made : Rv → Rv → Main lib → Main lib × Rv
  unfolding session_made
  socket_made (err n) created m = (m, err n)
  socket_made (ret fd) created m = session_made fd created (emit lib (fd_opened fd) m)

  -- `create` is vppcom_session_create, by whether the session is UDP and nonblocking.
  unfoldable pub socket : ℕ → ℕ → Rv → (Bool → Bool → Rv) → Main lib → Main lib × Rv
  unfolding socket_made
  socket domain type made create m =
      socket_made (open_socket domain type made)
        (create (kind_of type == 2) (not (bit_and type sock_nonblock == 0))) m

  pub vep_made : ℕ → ℕ → Rv → Main lib → Main lib × Rv
  vep_made epfd flags (err n) m = (emit lib (fd_closed epfd) m, err n)
  vep_made epfd flags (ret vep_idx) m =
      (epoll_registered epfd vep_idx flags (emit lib (session_opened vep_idx) m), ret epfd)

  pub epoll_made : ℕ → Rv → Rv → Main lib → Main lib × Rv
  unfolding vep_made
  epoll_made flags (err n) created m = (m, err n)
  epoll_made flags (ret epfd) created m = vep_made epfd flags created (emit lib (fd_opened epfd) m)

  -- `created` is what vppcom_epoll_create returns.
  pub epoll_create1 : ℕ → Rv → Rv → Main lib → Main lib × Rv
  unfolding epoll_made
  epoll_create1 flags made created m = epoll_made flags (open_epoll flags made) created m
