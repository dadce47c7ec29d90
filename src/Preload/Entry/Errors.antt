-- ===== src/Preload/Entry/Errors.antt =====
-- What the calls of vcl-ldpreload/src/libvcl-ldpreload/vcom.c tell the program.
use vppsb.Common.{
  ℕ, zero, suc, ◌≡◌, refl, inl, inr, Bool, true, false, ◌||◌, Option, some, if◌then◌else◌,
  Bool-cases,
}
use vppsb.Pool.{PoolLib}
use vppsb.Vcom.{Rv, ret, err, Main, is_vcom_fd, is_vcom_epfd}
use vppsb.Vcom.Poll.{VecLib}
use vppsb.Vcom.Close.{close}
use vppsb.Vcom.Open.Accept.{Address, Endpoint, Kernel}
use vppsb.Vcom.Names.{Target}
use vppsb.Preload.Entry.{
  Answer, gives, fails, settled, Program, vcom_init, called, flattened, vcom_close, close_call,
  accept4_call,
}
use vppsb.Preload.Entry.Plain.{asked, plain, waiting}
use vppsb.Preload.Entry.Addresses.{vcom_connect, connect_call, bind_call}

module _ (lib : PoolLib) (vec : VecLib) (closes : ℕ → Rv) where
  -- Whether a function of vcom_socket.c returned 0.
  abbrev pub is_zero : Rv → Bool
  is_zero (ret zero) = true
  is_zero (ret (suc n)) = false
  is_zero (err zero) = true
  is_zero (err (suc e)) = false

  flattened-settled :
      (r : Main lib × Rv)
      → ((flattened lib vec closes r).0 ≡ r.0)
        × (settled (flattened lib vec closes r).1 ≡ (if is_zero r.1 then gives 0 else fails 1))
  flattened-settled (m, ret zero) = (refl, refl)
  flattened-settled (m, ret (suc n)) = (refl, refl)
  flattened-settled (m, err zero) = (refl, refl)
  flattened-settled (m, err (suc e)) = (refl, refl)

  -- A close of a descriptor of VPP, once vcom_init is done, leaves the sockets as vcom_socket_close
  -- does and gives 0 where that returns 0; every error is told to the program as errno 1, EPERM.
  close_call-close :
      (ok : Bool) (fd : ℕ) (libc : Answer) (p : Program lib vec closes)
      → p.is_vcom_init ≡ true
      → (is_vcom_fd lib p.main fd || is_vcom_epfd lib p.main fd) ≡ true
      → ((close_call lib vec closes ok fd libc p).0.main ≡ (close lib closes fd p.main).0)
        × ((close_call lib vec closes ok fd libc p).1
            ≡ (if is_zero (close lib closes fd p.main).1 then gives 0 else fails 1))
  unfolding close_call vcom_close called vcom_init
  close_call-close ok fd libc p i h = rw (h, i) (flattened-settled (close lib closes fd p.main))

  -- An IPv6 address of its proper length is never connected to, whatever VPP would answer: connect on
  -- a descriptor of VPP fails with errno 1, EPERM.
  pub connect_call-fails :
      (ok : Bool) (fd : ℕ) (a : Address) (session : Target → Rv) (libc : Answer)
      (p : Program lib vec closes)
      → a.family ≡ 10
      → is_vcom_fd lib p.main fd ≡ true
      → (connect_call lib vec closes ok fd a 28 session libc p).1 ≡ fails 1
  unfolding connect_call vcom_connect asked called vcom_init
  connect_call-fails ok fd a session libc p six h = elim (Bool-cases p.is_vcom_init) [
    | inl i ↦ rw (h, i, six) refl
    | inr i ↦ go ok i
  ]
    where
      go :
          (ok : Bool)
          → p.is_vcom_init ≡ false
          → (connect_call lib vec closes ok fd a 28 session libc p).1 ≡ fails 1
      go true i = rw (h, i, six) refl
      go false i = rw (h, i) refl

  -- On a descriptor that is not VPP's, of a socket or of an epoll instance, the calls change nothing
  -- and answer what the C library does: those of either shape, bind, connect, accept4 and close.
  calls_passed_on :
      (ok : Bool) (fd : ℕ) (libc : Answer) (p : Program lib vec closes) (test : Rv → Answer)
      (f : Main lib → Rv) (g : Main lib → Option Rv) (a : Address) (len : ℕ) (session : Target → Rv)
      (made : Rv) (wants wants_len : Bool) (flags : ℕ) (mode getfl : Rv)
      (take : Bool → Rv × Endpoint) (k : Kernel)
      → is_vcom_fd lib p.main fd ≡ false
      → is_vcom_epfd lib p.main fd ≡ false
      → (plain lib vec closes test ok fd f libc p ≡ (p, libc))
        × (waiting lib vec closes ok fd g libc p ≡ some (p, libc))
        × (bind_call lib vec closes ok fd a len session made libc p ≡ (p, libc))
        × (connect_call lib vec closes ok fd a len session libc p ≡ (p, libc))
        × (accept4_call lib vec closes ok wants wants_len fd flags mode getfl take k libc p
            ≡ (p, libc))
        × (close_call lib vec closes ok fd libc p ≡ (p, libc))
  unfolding plain waiting bind_call connect_call accept4_call close_call
  calls_passed_on ok fd libc p test f g a len session made wants wants_len flags mode getfl take k h
        e =
      (rw h refl, rw h refl, rw h refl, rw h refl, rw h refl, rw (h, e) refl)
