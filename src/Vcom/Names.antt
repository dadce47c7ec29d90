-- ===== src/Vcom/Names.antt =====
-- The calls on addresses, options and waiting of vcl-ldpreload/src/libvcl-ldpreload/vcom_socket.c, which
-- change no table. What the C library and vppcom return is an argument of each function.
pub mod Closed
use vppsb.Common.{
  ℕ, ◌+◌, ◌-◌, ◌^◌, Bool, true, false, ◌&&◌, ◌||◌, not, Option, none, some, List, [], ◌∷◌, ◌==◌,
  ltb, leb, if◌then◌else◌, no_index, take,
}
use vppsb.Pool.{PoolLib}
use vppsb.Vcom.{
  Rv, ret, err, ebadf, einval, enotsock, Socket, Main, Checked, refused, bound, check_socket,
  get_vep_idx,
}
use vppsb.Vcom.Open.Accept.{Address, is_connection_mode, eopnotsupp}

abbrev efault : ℕ
efault = 14

abbrev enoprotoopt : ℕ
enoprotoopt = 92

abbrev eisconn : ℕ
eisconn = 106

-- vppcom_endpt_t of a caller's address.
pub record Target : Type 0 where
  pub is_ip4 : Bool
  pub ip : List ℕ
  pub port : ℕ

-- The error, or the endpoint, of an address; `exact` is whether the length is looked at.
pub target : Bool → Address → ℕ → (Target → Rv) → Rv
target exact a len f =
    if a.family == 2
    then if exact && not (len == 16)
      then err einval
      else f (record { is_ip4 = true; ip = take 4 a.ip; port = a.port })
    else if a.family == 10
    then if exact && not (len == 28)
      then err einval
      else f (record { is_ip4 = false; ip = take 16 a.ip; port = a.port })
    else err 1

-- A bind of vppcom that returns 0 is followed by one of the C library.
abbrev also_bound : Rv → Rv → Rv
also_bound (err n) libc = err n
also_bound (ret n) libc = if n == 0 then libc else ret n

-- The options of the socket level that the C library answers, by their numbers in Linux on x86, without
-- SO_BUSY_POLL, which stands under CONFIG_NET_RX_BUSY_POLL.
pub is_known : ℕ → Bool
is_known opt =
    (ltb 0 opt && ltb opt 22)
    || opt == 25
    || opt == 26
    || (ltb 27 opt && ltb opt 32)
    || (ltb 33 opt && ltb opt 46)
    || (ltb 46 opt && ltb opt 50)

-- __timeout of epoll_pwait, of 32 bits: milliseconds, for ever, or refused.
pub data Wait : Type 0 where
  at_most : ℕ → Wait
  for_ever no_wait : Wait

pub wait_of : ℕ → Wait
wait_of timeout =
    if ltb timeout (2 ^ 31)
    then at_most timeout
    else if timeout == 2 ^ 32 - 1
    then for_ever
    else no_wait

module _ (lib : PoolLib) (m : Main lib) (fd : ℕ) where
  unfoldable pub bind : Option Address → ℕ → (Target → Rv) → Rv → Rv
  unfolding target
  bind addr len session libc = elim (check_socket lib m fd) [
    | refused n ↦ err n
    | bound i s ↦ elim addr [
      | none ↦ err einval
      | some a ↦ target true a len (λ ep. also_bound (session ep) libc)
    ]
  ]

  -- The socket of a descriptor, whatever its type.
  abbrev socket_at : Option Socket
  socket_at = elim (m.sockidx_by_fd fd) [ none ↦ none | some i ↦ lib.elt m.vsockets i ]

  pub connect : Address → ℕ → (Target → Rv) → Rv
  unfolding target
  connect a len session = elim socket_at [ none ↦ err 1 | some s ↦ target false a len session ]

  pub listen : Rv → Rv
  listen session = elim socket_at [ none ↦ err 1 | some s ↦ session ]

  -- SHUT_RD, SHUT_WR and SHUT_RDWR do nothing.
  pub shutdown : ℕ → Rv
  shutdown how = elim socket_at [ none ↦ err 1 | some s ↦ if ltb how 3 then ret 0 else err einval ]

  pub getsockname : Bool → Bool → Rv → Rv
  getsockname has_addr has_len libc = elim (check_socket lib m fd) [
    | refused n ↦ err n
    | bound i s ↦ if not has_addr || not has_len then err efault else libc
  ]

  -- The peer is always 127.0.0.1.
  pub getpeername : Bool → Bool → Rv × Option Address
  getpeername has_addr has_len = elim (check_socket lib m fd) [
    | refused n ↦ (err n, none)
    | bound i s ↦ if not has_addr || not has_len then (err efault, none) else (
      ret 0,
      some (record { family = 2; port = 4096; ip = 127 ∷ 0 ∷ 0 ∷ 1 ∷ []; length = 16 }),
    )
  ]

  -- The level is SOL_SOCKET where it is 1.
  unfoldable pub getsockopt : ℕ → ℕ → Bool → Bool → Rv → Rv
  unfolding is_known
  getsockopt level opt has_val has_len libc = elim (check_socket lib m fd) [
    | refused n ↦ err n
    | bound i s ↦
        if not has_val && not has_len
        then err efault
        else if level == 1 && is_known opt
        then libc
        else err enoprotoopt
  ]

  -- SO_BINDTODEVICE goes to the C library at every level.
  unfoldable pub setsockopt : ℕ → ℕ → Bool → ℕ → Rv → Rv
  unfolding is_known
  setsockopt level opt has_val len libc = elim (check_socket lib m fd) [
    | refused n ↦ err n
    | bound i s ↦
        if opt == 25
        then libc
        else if not has_val
        then err efault
        else if ltb len 4
        then err einval
        else if level == 1 && is_known opt
        then libc
        else err enoprotoopt
  ]

  -- `named` is whether the message has a name, or a length of it; no message is sent.
  pub sendmsg : Bool → Rv → Rv
  sendmsg named mode = elim (m.sockidx_by_fd fd) [
    | none ↦ err ebadf
    | some i ↦ elim (lib.elt m.vsockets i) [
      | none ↦ err enotsock
      | some s ↦ if is_connection_mode lib fd mode m && named then err eisconn else err 1
    ]
  ]

  pub recvmsg : Bool → Rv
  recvmsg has_message = elim (check_socket lib m fd) [
    | refused n ↦ err n
    | bound i s ↦ if not has_message then err einval else err eopnotsupp
  ]

  waited : Wait → (Wait → Rv) → Rv
  waited no_wait vppcom = err ebadf
  waited (at_most n) vppcom =
      if get_vep_idx lib m fd == no_index then err ebadf else vppcom (at_most n)
  waited for_ever vppcom = if get_vep_idx lib m fd == no_index then err ebadf else vppcom for_ever

  -- `fd` is the descriptor of the epoll instance.
  pub epoll_pwait : Bool → ℕ → (Wait → Rv) → Rv
  unfolding waited wait_of
  epoll_pwait has_events timeout vppcom =
      if not has_events then err efault else waited (wait_of timeout) vppcom
