-- ===== src/Vcom/Open/Cases.antt =====
-- The states that socket and epoll_create1 of vcl-ldpreload/src/libvcl-ldpreload/vcom_socket.c end in.
use vppsb.Common.{ℕ, Bool}
use vppsb.Pool.{PoolLib}
use vppsb.Vcom.{Rv, ret, err, Main, emit, fd_opened, fd_closed, session_opened}
use vppsb.Vcom.Open.{
  open_socket, registered, epoll_registered, session_made, socket_made, socket, vep_made,
  epoll_made, epoll_create1, open_epoll,
}

module _ (lib : PoolLib) (P : Main lib → Type 0) (m : Main lib) (same : P m) where
  module _ (shut : (fd : ℕ) → P (emit lib (fd_closed fd) (emit lib (fd_opened fd) m)))
      (made_one : (fd sid : ℕ)
        → P (
            registered lib fd sid
              (emit lib (session_opened sid) (emit lib (fd_opened fd) m)))) where
    socket_made-elim : (made created : Rv) → P (socket_made lib made created m).0
    unfolding socket_made session_made
    socket_made-elim (err n) created = same
    socket_made-elim (ret fd) (err n) = shut fd
    socket_made-elim (ret fd) (ret sid) = made_one fd sid

    pub socket-elim :
        (domain type : ℕ) (made : Rv) (create : Bool → Bool → Rv)
        → P (socket lib domain type made create m).0
    unfolding socket
    socket-elim domain type made create = socket_made-elim (open_socket domain type made) _

  module _ (shut : (fd : ℕ) → P (emit lib (fd_closed fd) (emit lib (fd_opened fd) m)))
      (made_one : (epfd vep_idx flags : ℕ)
        → P (
            epoll_registered lib epfd vep_idx flags
              (emit lib (session_opened vep_idx) (emit lib (fd_opened epfd) m)))) where
    epoll_made-elim : (flags : ℕ) (made created : Rv) → P (epoll_made lib flags made created m).0
    unfolding epoll_made vep_made
    epoll_made-elim flags (err n) created = same
    epoll_made-elim flags (ret fd) (err n) = shut fd
    epoll_made-elim flags (ret fd) (ret vep_idx) = made_one fd vep_idx flags

    pub epoll_create1-elim :
        (flags : ℕ) (made created : Rv) → P (epoll_create1 lib flags made created m).0
    unfolding epoll_create1
    epoll_create1-elim flags made created = epoll_made-elim flags (open_epoll flags made) created
