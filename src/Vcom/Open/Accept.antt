-- ===== src/Vcom/Open/Accept.antt =====
-- accept, accept4 and what they use in vcl-ldpreload/src/libvcl-ldpreload/vcom_socket.c.
pub mod Cases
use vppsb.Common.{
  ℕ, ◌+◌, ◌-◌, ◌%◌, ◌^◌, Bool, true, false, ◌&&◌, ◌||◌, not, Option, none, some, List, [], ◌∷◌,
  ◌==◌, if◌then◌else◌, take,
}
use Prim.Native.Nat.{bit_and, bit_or}
use vppsb.Pool.{PoolLib, is_some}
use vppsb.Vcom.{
  Rv, ret, err, eagain, Socket, Main, emit, Effect, fd_opened, session_opened, Checked, refused,
  bound, check_socket,
}
use vppsb.Vcom.Open.{sock_nonblock, sock_cloexec, kind_of, open_socket, registered}

-- is_ip4 of an endpoint: VPPCOM_IS_IP4, VPPCOM_IS_IP6, or another number.
pub data Ip : Type 0 where
  ip4 ip6 neither : Ip

-- vppcom_endpt_t, as vppcom_session_accept fills it in.
pub record Endpoint : Type 0 where
  pub is_cut_thru : Bool
  pub is_ip4 : Ip
  pub ip : List ℕ
  pub port : ℕ

-- What getsockopt of the C library returns for SO_DOMAIN, SO_TYPE and SO_PROTOCOL, and socket for
-- what they are.
pub record Kernel : Type 0 where
  pub so_domain : Rv
  pub so_type : Rv
  pub so_protocol : Rv
  pub made : Rv

-- A socket address, with its length.
pub record Address : Type 0 where
  pub family : ℕ
  pub port : ℕ
  pub ip : List ℕ
  pub length : ℕ

abbrev pub eopnotsupp : ℕ
eopnotsupp = 95

abbrev pub eafnosupport : ℕ
eafnosupport = 97

abbrev pub etimedout : ℕ
etimedout = 110

abbrev pub o_nonblock : ℕ
o_nonblock = 2 ^ 11

abbrev pub and_then : Rv → (ℕ → Rv) → Rv
and_then (err n) f = err n
and_then (ret n) f = f n

-- SOCK_STREAM and SOCK_SEQPACKET
abbrev is_stream : Rv → Bool
is_stream (err n) = false
is_stream (ret type) = kind_of type == 1 || kind_of type == 5

-- A nonblocking accept has no connection to wait for: VPPCOM_ETIMEDOUT, and VPPCOM_EAGAIN.
abbrev pub polled : Rv → Rv
polled (ret n) = ret n
polled (err n) = if n == etimedout then err eagain else err n

-- The source's `switch` on the address family, with the length that it writes.
address4 : Endpoint → Address
address4 ep = record { family = 2; port = ep.port; ip = take 4 ep.ip; length = 16 }

address6 : Endpoint → Address
address6 ep = record { family = 10; port = ep.port; ip = take 16 ep.ip; length = 28 }

peer4 : Bool → ℕ → Ip → Endpoint → Option Address
unfolding address4 address6
peer4 true domain ip ep =
    if domain == 2 then some (address4 ep) else if domain == 10 then some (address6 ep) else none
peer4 false domain ip4 ep = some (address4 ep)
peer4 false domain ip6 ep = some (address6 ep)
peer4 false domain neither ep = none

-- The address of the peer, where it has one.
pub peer : ℕ → Endpoint → Option Address
unfolding peer4
peer domain ep = peer4 ep.is_cut_thru domain ep.is_ip4 ep

-- What is returned, and written to the caller's address: `wants` and `wants_len` are whether the
-- pointers are not NULL. The length is written only where its pointer is not.
answered : Bool → Bool → ℕ → Option Address → Rv × Option Address
answered true wants_len fd none = (err eafnosupport, none)
answered true wants_len fd (some a) = (ret fd, some a)
answered false true fd a = (err 1, none)
answered false false fd a = (ret fd, none)

-- Whether flags are 0 or have SOCK_NONBLOCK or SOCK_CLOEXEC.
pub accepts_flags : ℕ → Bool
accepts_flags flags = flags == 0 || not (bit_and flags (bit_or sock_nonblock sock_cloexec) == 0)

module _ (lib : PoolLib) where
  unfoldable pub is_connection_mode : ℕ → Rv → Main lib → Bool
  is_connection_mode fd mode m = elim (check_socket lib m fd) [
    | refused n ↦ false
    | bound i s ↦ is_stream mode
  ]

  pub connected_made : ℕ → Rv → Main lib → Main lib × Rv
  connected_made sid (err n) m = (m, err n)
  connected_made sid (ret fd) m = (registered lib fd sid (emit lib (fd_opened fd) m), ret fd)

  pub connected_socket : ℕ → ℕ → Kernel → Main lib → Main lib × Rv
  unfolding connected_made
  connected_socket sid flags k m =
      connected_made sid
        (and_then k.so_domain (λ domain. and_then k.so_type (λ type.
          and_then k.so_protocol (λ protocol. open_socket domain (bit_or type flags) k.made))))
        m

  domain_of : Rv → ℕ
  domain_of (err n) = 0
  domain_of (ret n) = n

  pub welcomed : Bool → Bool → ℕ → Endpoint → Main lib × Rv → Main lib × Rv × Option Address
  unfolding answered
  welcomed wants wants_len domain ep (m, err n) = (m, err n, none)
  welcomed wants wants_len domain ep (m, ret fd) =
      let a = answered wants wants_len fd (peer domain ep) in (m, a.0, a.1)

  pub taken_up :
      Bool → Bool → ℕ → Kernel → Rv × Endpoint → Main lib → Main lib × Rv × Option Address
  unfolding connected_socket welcomed domain_of
  taken_up wants wants_len flags k (err n, ep) m = (m, err n, none)
  taken_up wants wants_len flags k (ret sid, ep) m =
      welcomed wants wants_len (domain_of k.so_domain) ep
        (connected_socket sid flags k (emit lib (session_opened sid) m))

  pub accepted :
      Bool
      → Bool
      → ℕ
      → Rv
      → (Bool → Rv × Endpoint)
      → Kernel
      → Main lib
      → Main lib × Rv × Option Address
  unfolding taken_up
  accepted wants wants_len flags (err n) take k m = (m, err n, none)
  accepted wants wants_len flags (ret status) take k m =
      if bit_and status o_nonblock == 0
      then taken_up wants wants_len flags k (take true) m
      else taken_up wants wants_len flags k (polled (take false).0, (take false).1) m

  -- vcom_socket_accept_flags; `mode` and `getfl` are what SO_TYPE and F_GETFL return, and `take` is
  -- vppcom_session_accept, by whether it waits.
  pub accept_flags :
      Bool
      → Bool
      → ℕ
      → ℕ
      → Rv
      → Rv
      → (Bool → Rv × Endpoint)
      → Kernel
      → Main lib
      → Main lib × Rv × Option Address
  unfolding is_connection_mode accepted
  accept_flags wants wants_len fd flags mode getfl take k m =
      if not (accepts_flags flags)
      then (m, err 1, none)
      else if not (is_connection_mode fd mode m)
      then (m, err eopnotsupp, none)
      else accepted wants wants_len flags getfl take k m

  pub accept :
      Bool
      → Bool
      → ℕ
      → Rv
      → Rv
      → (Bool → Rv × Endpoint)
      → Kernel
      → Main lib
      → Main lib × Rv × Option Address
  unfolding accept_flags
  accept wants wants_len fd = accept_flags wants wants_len fd 0
