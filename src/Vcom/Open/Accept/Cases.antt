-- ===== src/Vcom/Open/Accept/Cases.antt =====
-- The states that accept of vcl-ldpreload/src/libvcl-ldpreload/vcom_socket.c ends in.
use Prim.Native.Nat.{bit_and}
use vppsb.Common.{not, none, ◌==◌, ℕ, Bool, true, false, Option, if◌then◌else◌}
use vppsb.Pool.{PoolLib}
use vppsb.Vcom.{Rv, ret, err, Main, emit, fd_opened, session_opened}
use vppsb.Vcom.Open.{registered}
use vppsb.Vcom.Open.Accept.{
  Endpoint, Kernel, Address, polled, o_nonblock, accepts_flags, is_connection_mode, eopnotsupp,
  connected_made, connected_socket, welcomed, taken_up, accepted, accept_flags,
}

module _ (lib : PoolLib) (P : Main lib → Type 0) (m : Main lib) (same : P m)
    (lost : (sid : ℕ) → P (emit lib (session_opened sid) m))
    (made_one : (fd sid : ℕ)
      → P (registered lib fd sid (emit lib (fd_opened fd) (emit lib (session_opened sid) m)))) where
  connected_made-elim :
      (sid : ℕ) (made : Rv) → P (connected_made lib sid made (emit lib (session_opened sid) m)).0
  unfolding connected_made
  connected_made-elim sid (err n) = lost sid
  connected_made-elim sid (ret fd) = made_one fd sid

  connected_socket-elim :
      (sid flags : ℕ) (k : Kernel)
      → P (connected_socket lib sid flags k (emit lib (session_opened sid) m)).0
  unfolding connected_socket
  connected_socket-elim sid flags k = connected_made-elim sid _

  welcomed-elim :
      (wants wants_len : Bool) (domain : ℕ) (ep : Endpoint) (r : Main lib × Rv)
      → P r.0
      → P (welcomed lib wants wants_len domain ep r).0
  unfolding welcomed
  welcomed-elim wants wants_len domain ep (m', err n) p = p
  welcomed-elim wants wants_len domain ep (m', ret fd) p = p

  taken_up-elim :
      (wants wants_len : Bool) (flags : ℕ) (k : Kernel) (a : Rv × Endpoint)
      → P (taken_up lib wants wants_len flags k a m).0
  unfolding taken_up
  taken_up-elim wants wants_len flags k (err n, ep) = same
  taken_up-elim wants wants_len flags k (ret sid, ep) =
      welcomed-elim wants wants_len _ ep
        (connected_socket lib sid flags k (emit lib (session_opened sid) m))
        (connected_socket-elim sid flags k)

  if-elim :
      (b : Bool) (a c : Main lib × Rv × Option Address) → P a.0 → P c.0 → P (if b then a else c).0
  if-elim true a c p q = p
  if-elim false a c p q = q

  accepted-elim :
      (wants wants_len : Bool) (flags : ℕ) (getfl : Rv) (take : Bool → Rv × Endpoint) (k : Kernel)
      → P (accepted lib wants wants_len flags getfl take k m).0
  unfolding accepted
  accepted-elim wants wants_len flags (err n) take k = same
  accepted-elim wants wants_len flags (ret status) take k =
      if-elim (bit_and status o_nonblock == 0) (taken_up lib wants wants_len flags k (take true) m)
        (taken_up lib wants wants_len flags k (polled (take false).0, (take false).1) m)
        (taken_up-elim wants wants_len flags k (take true))
        (taken_up-elim wants wants_len flags k (polled (take false).0, (take false).1))

  pub accept_flags-elim :
      (wants wants_len : Bool) (fd flags : ℕ) (mode getfl : Rv) (take : Bool → Rv × Endpoint)
      (k : Kernel)
      → P (accept_flags lib wants wants_len fd flags mode getfl take k m).0
  unfolding accept_flags
  accept_flags-elim wants wants_len fd flags mode getfl take k =
      if-elim (not (accepts_flags flags)) (m, err 1, none)
        (if not (is_connection_mode lib fd mode m)
          then (m, err eopnotsupp, none)
          else accepted lib wants wants_len flags getfl take k m)
        same
        (if-elim (not (is_connection_mode lib fd mode m)) (m, err eopnotsupp, none)
          (accepted lib wants wants_len flags getfl take k m) same
          (accepted-elim wants wants_len flags getfl take k))
