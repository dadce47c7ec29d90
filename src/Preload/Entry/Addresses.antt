-- ===== src/Preload/Entry/Addresses.antt =====
-- The calls of vcl-ldpreload/src/libvcl-ldpreload/vcom.c on addresses, options and waiting.
-- What the C library answers for a descriptor of its own is `libc`, `ok` whether vppcom_app_create
-- succeeds; the other arguments are those of the function of vcom_socket.c.
use vppsb.Common.{ℕ, Bool, ◌||◌, not, some, ◌==◌, ltb, if◌then◌else◌}
use vppsb.Pool.{PoolLib}
use vppsb.Vcom.{Rv, err, einval, is_vcom_fd, is_vcom_epfd}
use vppsb.Vcom.Poll.{VecLib}
use vppsb.Vcom.Io
use vppsb.Vcom.Names
use vppsb.Vcom.Open.Accept.{Address}
use vppsb.Vcom.Names.{Target, Wait}
use vppsb.Preload.Entry.{Answer, fails, posted, settled, Program, seen}
use vppsb.Preload.Entry.Plain.{asked, plain}

abbrev eopnotsupp : ℕ
eopnotsupp = 95

module _ (lib : PoolLib) (vec : VecLib) (closes : ℕ → Rv) where
  -- The length is that of the address, whose family is one of two.
  unfoldable pub vcom_bind :
      Bool
      → ℕ
      → Address
      → ℕ
      → (Target → Rv)
      → Rv
      → Program lib vec closes
      → Program lib vec closes × Rv
  unfolding asked
  vcom_bind ok fd a len session made p =
      asked lib vec closes ok
        (λ m.
          if a.family == 2
          then if not (len == 16) then err einval else Names.bind lib m fd (some a) len session made
          else if a.family == 10
          then if not (len == 28) then err einval else Names.bind lib m fd (some a) len session made
          else err 1)
        p

  unfoldable pub bind_call :
      Bool
      → ℕ
      → Address
      → ℕ
      → (Target → Rv)
      → Rv
      → Answer
      → Program lib vec closes
      → Program lib vec closes × Answer
  unfolding vcom_bind
  bind_call ok fd a len session made libc p =
      if is_vcom_fd lib p.main fd
      then seen lib vec closes settled (vcom_bind ok fd a len session made p)
      else (p, libc)

  -- The lengths are those of the addresses' text: INET_ADDRSTRLEN is 16, INET6_ADDRSTRLEN is 46.
  unfoldable pub vcom_connect :
      Bool → ℕ → Address → ℕ → (Target → Rv) → Program lib vec closes → Program lib vec closes × Rv
  unfolding asked
  vcom_connect ok fd a len session p =
      asked lib vec closes ok
        (λ m.
          if a.family == 2
          then if not (len == 16) then err 1 else Names.connect lib m fd a len session
          else if a.family == 10
          then if not (len == 46) then err 1 else Names.connect lib m fd a len session
          else err 1)
        p

  unfoldable pub connect_call :
      Bool
      → ℕ
      → Address
      → ℕ
      → (Target → Rv)
      → Answer
      → Program lib vec closes
      → Program lib vec closes × Answer
  unfolding vcom_connect
  connect_call ok fd a len session libc p =
      if is_vcom_fd lib p.main fd
      then seen lib vec closes settled (vcom_connect ok fd a len session p)
      else (p, libc)

  unfoldable pub getsockname_call :
      Bool
      → ℕ
      → Bool
      → Bool
      → Rv
      → Answer
      → Program lib vec closes
      → Program lib vec closes × Answer
  unfolding plain
  getsockname_call ok fd has_addr has_len kernel =
      plain lib vec closes settled ok fd (λ m. Names.getsockname lib m fd has_addr has_len kernel)

  -- Without the address that is written.
  unfoldable pub getpeername_call :
      Bool → ℕ → Bool → Bool → Answer → Program lib vec closes → Program lib vec closes × Answer
  unfolding plain
  getpeername_call ok fd has_addr has_len =
      plain lib vec closes settled ok fd (λ m. (Names.getpeername lib m fd has_addr has_len).0)

  unfoldable pub listen_call :
      Bool → ℕ → Rv → Answer → Program lib vec closes → Program lib vec closes × Answer
  unfolding plain
  listen_call ok fd session =
      plain lib vec closes settled ok fd (λ m. Names.listen lib m fd session)

  unfoldable pub shutdown_call :
      Bool → ℕ → ℕ → Answer → Program lib vec closes → Program lib vec closes × Answer
  unfolding plain
  shutdown_call ok fd how = plain lib vec closes settled ok fd (λ m. Names.shutdown lib m fd how)

  unfoldable pub getsockopt_call :
      Bool
      → ℕ
      → ℕ
      → ℕ
      → Bool
      → Bool
      → Rv
      → Answer
      → Program lib vec closes
      → Program lib vec closes × Answer
  unfolding plain
  getsockopt_call ok fd level opt has_val has_len kernel =
      plain lib vec closes settled ok fd
        (λ m. Names.getsockopt lib m fd level opt has_val has_len kernel)

  unfoldable pub setsockopt_call :
      Bool
      → ℕ
      → ℕ
      → ℕ
      → Bool
      → ℕ
      → Rv
      → Answer
      → Program lib vec closes
      → Program lib vec closes × Answer
  unfolding plain
  setsockopt_call ok fd level opt has_val len kernel =
      plain lib vec closes settled ok fd
        (λ m. Names.setsockopt lib m fd level opt has_val len kernel)

  unfoldable pub sendmsg_call :
      Bool → ℕ → Bool → Rv → Answer → Program lib vec closes → Program lib vec closes × Answer
  unfolding plain
  sendmsg_call ok fd named mode =
      plain lib vec closes posted ok fd (λ m. Names.sendmsg lib m fd named mode)

  unfoldable pub recvmsg_call :
      Bool → ℕ → Bool → Answer → Program lib vec closes → Program lib vec closes × Answer
  unfolding plain
  recvmsg_call ok fd has_message =
      plain lib vec closes posted ok fd (λ m. Names.recvmsg lib m fd has_message)

  unfoldable pub fcntl_call :
      Bool → ℕ → ℕ → Rv → Answer → Program lib vec closes → Program lib vec closes × Answer
  unfolding plain
  fcntl_call ok fd cmd kernel =
      plain lib vec closes posted ok fd (λ m. Io.fcntl_va lib m fd cmd kernel)

  -- EP_MAX_EVENTS is INT_MAX over the 12 bytes of an event; the number is the 32 bits.
  unfoldable pub epoll_pwait_call :
      Bool
      → ℕ
      → Bool
      → ℕ
      → ℕ
      → (Wait → Rv)
      → Program lib vec closes
      → Program lib vec closes × Answer
  unfolding asked
  epoll_pwait_call ok epfd has_events maxevents timeout vppcom p =
      if maxevents == 0 || ltb 178956970 maxevents
      then (p, fails einval)
      else if is_vcom_epfd lib p.main epfd
      then seen lib vec closes posted
          (asked lib vec closes ok (λ m. Names.epoll_pwait lib m epfd has_events timeout vppcom) p)
      else (p, fails einval)

  -- vcom_epoll_wait is vcom_epoll_pwait without a mask.
  unfoldable pub epoll_wait_call :
      Bool
      → ℕ
      → Bool
      → ℕ
      → ℕ
      → (Wait → Rv)
      → Program lib vec closes
      → Program lib vec closes × Answer
  unfolding epoll_pwait_call
  epoll_wait_call = epoll_pwait_call

  -- poll and ppoll are not there.
  abbrev pub poll_call : Program lib vec closes → Program lib vec closes × Answer
  poll_call p = (p, fails eopnotsupp)
