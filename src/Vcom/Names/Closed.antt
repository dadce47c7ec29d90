-- ===== src/Vcom/Names/Closed.antt =====
-- A descriptor after its close in vcl-ldpreload/src/libvcl-ldpreload/vcom_socket.c.
use vppsb.Common.{ℕ, ◌≡◌, true}
use vppsb.Pool.{PoolLib}
use vppsb.Vcom.{Rv, Main, is_vcom_fd}
use vppsb.Vcom.Poll.{VecLib}
use vppsb.Vcom.Close.{close_vsock}
use vppsb.Vcom.Calls.{IsWellFormed}

module _ (lib : PoolLib) (vec : VecLib) (closes : ℕ → Rv) (m : Main lib)
    (w : IsWellFormed lib vec closes m) (fd : ℕ) (open_now : is_vcom_fd lib m fd ≡ true) where
  abbrev pub closed : Main lib
  closed = (close_vsock lib closes fd m).0
