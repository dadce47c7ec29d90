-- ===== src/Vcom/Close/Cases.antt =====
-- The states that close of vcl-ldpreload/src/libvcl-ldpreload/vcom_socket.c ends in.
use vppsb.Common.{ℕ, ◌≡◌, Bool, true, false, if◌then◌else◌, ◌==◌, not, refl, arith, some}
use vppsb.Pool.{PoolLib}
use vppsb.Vcom.{
  Rv, ret, err, ebadf, Socket, Epoll, Main, Checked, refused, bound, check_epoll, check_socket,
  is_vcom_fd, is_vcom_epfd, epoll_checked, socket_checked,
}
use vppsb.Vcom.Poll.{vec_of}
use vppsb.Vcom.Close.{
  epoll_dropped, with_epoll, epoll_closed, close_vepoll, items_left, socket_dropped, socket_closed,
  close_vsock, close,
}

-- What a descriptor that is found leads to.
pub check_epoll-bound :
    (lib : PoolLib) (m : Main lib) (epfd i : ℕ) (e : Epoll)
    → check_epoll lib m epfd ≡ bound i e
    → (m.epollidx_by_epfd epfd ≡ some i) × (lib.elt m.vepolls i ≡ some e)
unfolding check_epoll epoll_checked
check_epoll-bound lib m epfd i e h = (ground (arith, h), ground (arith, h))

pub check_socket-bound :
    (lib : PoolLib) (m : Main lib) (fd i : ℕ) (s : Socket)
    → check_socket lib m fd ≡ bound i s
    → (m.sockidx_by_fd fd ≡ some i) × (lib.elt m.vsockets i ≡ some s)
unfolding check_socket socket_checked
check_socket-bound lib m fd i s h = (ground (arith, h), ground (arith, h))

module _ (lib : PoolLib) (closes : ℕ → Rv) (fd : ℕ) (m : Main lib) (P : Main lib → Type 0)
    (same : P m)
    (dropped : (i : ℕ) (s : Socket)
      → check_socket lib m fd ≡ bound i s
      → P (
          items_left lib closes fd
            (vec_of (m.epitemidxs_by_fd fd))
            (socket_dropped lib closes fd i s m)))
    (gone : (i : ℕ) (e : Epoll)
      → check_epoll lib m fd ≡ bound i e
      → P (epoll_dropped lib closes fd i e m))
    (waits : (i : ℕ) (e : Epoll)
      → check_epoll lib m fd ≡ bound i e
      → P (with_epoll lib closes i (record e { close = true }) m)) where
  socket_closed-elim :
      (c : Checked Socket) → check_socket lib m fd ≡ c → P (socket_closed lib closes fd c m).0
  unfolding socket_closed
  socket_closed-elim (refused n) h = same
  socket_closed-elim (bound i s) h = dropped i s h

  if-elim : (b : Bool) (x y : Main lib × Rv) → P x.0 → P y.0 → P (if b then x else y).0
  if-elim true x y p q = p
  if-elim false x y p q = q

  epoll_closed-elim :
      (c : Checked Epoll) → check_epoll lib m fd ≡ c → P (epoll_closed lib closes fd c m).0
  unfolding epoll_closed
  epoll_closed-elim (refused n) h = same
  epoll_closed-elim (bound i e) h =
      if-elim (e.count == 0) (epoll_dropped lib closes fd i e m, closes e.epfd)
        (if not e.close
          then (with_epoll lib closes i (record e { close = true }) m, ret 0)
          else (m, err ebadf))
        (gone i e h)
        (if-elim (not e.close) (with_epoll lib closes i (record e { close = true }) m, ret 0)
          (m, err ebadf) (waits i e h) same)

  pub close-elim : P (close lib closes fd m).0
  unfolding close close_vsock close_vepoll
  close-elim =
      if-elim (is_vcom_fd lib m fd) (close_vsock lib closes fd m)
        (if is_vcom_epfd lib m fd then close_vepoll lib closes fd m else (m, err ebadf))
        (socket_closed-elim (check_socket lib m fd) refl)
        (if-elim (is_vcom_epfd lib m fd) (close_vepoll lib closes fd m) (m, err ebadf)
          (epoll_closed-elim (check_epoll lib m fd) refl) same)
