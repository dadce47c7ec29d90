-- ===== src/Vcom/Io/Datagrams.antt =====
-- sendto, recvfrom and their kin in vcl-ldpreload/src/libvcl-ldpreload/vcom_socket.c.
use vppsb.Common.{
  ℕ, ◌≡◌, refl, Bool, true, false, ◌||◌, not, Option, none, some, ◌==◌, if◌then◌else◌, arith,
}
use vppsb.Pool.{PoolLib, is_some}
use vppsb.Vcom.{Rv, err, einval, Socket, Main, Checked, refused, bound, check_socket, is_vcom_fd}
use vppsb.Vcom.Open.Accept.{is_connection_mode}
use vppsb.Vcom.Io.{Session, once}

abbrev pub eisconn : ℕ
eisconn = 106

abbrev pub edestaddrreq : ℕ
edestaddrreq = 89

-- The address family tests of sendto: whether it differs from AF_INET, or from AF_INET6.
abbrev pub unsupported : ℕ → Bool
unsupported family = not (family == 2) || not (family == 10)

unsupported-always : (family : ℕ) → unsupported family ≡ true
unsupported-always family = ground arith

abbrev pub fails : Option Rv → Bool
fails (some (err e)) = true
fails _ = false

module _ (lib : PoolLib) (m : Main lib) (fd : ℕ) where
  -- The address that is given, by its family, with its length; the lengths are not below 0.
  sendto_addr : Bool → Option ℕ → ℕ → Option ℕ
  sendto_addr true addr addr_len =
      if is_some addr || not (addr_len == 0) then some eisconn else none
  sendto_addr false none addr_len = some edestaddrreq
  sendto_addr false (some family) addr_len = if unsupported family then some einval else none

  abbrev refused_or : Option ℕ → Option Rv → Option Rv
  refused_or (some e) r = some (err e)
  refused_or none r = r

  -- `mode` is what SO_TYPE returns, `fs` the answers of the session to its writes.
  unfoldable pub sendto : Bool → ℕ → Option ℕ → ℕ → Rv → Session → Option Rv
  unfolding sendto_addr
  sendto has_buf n addr addr_len mode fs = elim (check_socket lib m fd) [
    | refused e ↦ some (err e)
    | bound i s ↦
        if not has_buf
        then some (err einval)
        else refused_or (sendto_addr (is_connection_mode lib fd mode m) addr addr_len) (once n fs)
  ]

  unfoldable pub send : Bool → ℕ → Rv → Session → Option Rv
  unfolding sendto
  send has_buf n mode fs = sendto has_buf n none 0 mode fs

  -- `has_addr` is whether the caller wants the address of the sender.
  unfoldable pub recvfrom : Bool → ℕ → Bool → Session → Option Rv
  recvfrom has_buf n has_addr fs = elim (check_socket lib m fd) [
    | refused e ↦ some (err e)
    | bound i s ↦ if not has_buf || has_addr then some (err einval) else once n fs
  ]

  unfoldable pub recv : Bool → ℕ → Session → Option Rv
  unfolding recvfrom
  recv has_buf n fs = recvfrom has_buf n false fs

  -- No datagram is sent: whatever the address and its family, sendto on a socket that is not of a
  -- connection returns an error.
  sendto_datagram :
      (has_buf : Bool) (n : ℕ) (addr : Option ℕ) (addr_len : ℕ) (mode : Rv) (fs : Session)
      → is_connection_mode lib fd mode m ≡ false
      → fails (sendto has_buf n addr addr_len mode fs) ≡ true
  unfolding sendto sendto_addr
  sendto_datagram has_buf n addr addr_len mode fs c = go (check_socket lib m fd) refl addr
    where
      go :
          (k : Checked Socket)
          → check_socket lib m fd ≡ k
          → (a : Option ℕ) → fails (sendto has_buf n a addr_len mode fs) ≡ true
      go (refused e) q a = ground (arith, q)
      go (bound i s) q none = ground (arith, q, c)
      go (bound i s) q (some family) = ground (arith, q, c, unsupported-always family)

  -- recv reads what recvfrom reads without an address, and send on a connection writes what write
  -- would: one answer of the session.
  pub send-recv :
      (n : ℕ) (mode : Rv) (fs : Session)
      → is_vcom_fd lib m fd ≡ true
      → is_connection_mode lib fd mode m ≡ true
      → (send true n mode fs ≡ once n fs) × (recv true n fs ≡ once n fs)
  unfolding send recv sendto sendto_addr recvfrom is_vcom_fd
  send-recv n mode fs v c = go (check_socket lib m fd) refl
    where
      go :
          (k : Checked Socket)
          → check_socket lib m fd ≡ k
          → (send true n mode fs ≡ once n fs) × (recv true n fs ≡ once n fs)
      go (refused e) q = ground (arith, q, v)
      go (bound i s) q = (ground (arith, q, c), ground (arith, q))
