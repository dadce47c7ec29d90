-- ===== src/Preload/Entry.antt =====
-- The calls of vcl-ldpreload/src/libvcl-ldpreload/vcom.c that change the tables of the sockets: each
-- goes to vcom_socket.c for a descriptor of VPP and to the C library for another.
-- What the C library answers is an argument `libc`; `ok` is whether vppcom_app_create succeeds.
pub mod Runs
pub mod Errors
pub mod Live
pub mod Documented
pub mod Exact
pub mod Plain
pub mod Addresses
use vppsb.Common.{
  ℕ, zero, suc, ◌-◌, ◌^◌, Bool, true, false, ◌&&◌, ◌||◌, not, Option, none, some, ◌==◌, ltb, leb,
  if◌then◌else◌,
}
use vppsb.Pool.{PoolLib}
use vppsb.Vcom.{Rv, ret, err, ebadf, einval, Event, Main, is_vcom_fd, is_vcom_epfd}
use vppsb.Vcom.Poll.{VecLib, Op, add, mod_, del, other, epoll_ctl}
use vppsb.Vcom.Open.{kind_of, socket, epoll_create1}
use vppsb.Vcom.Open.Accept.{Endpoint, Kernel, accept_flags}
use vppsb.Vcom.Close.{close}
use vppsb.Vcom.Calls.{initial}
use vppsb.Vcom.Destroy.{main_destroy}

-- What the program sees: a number, or -1 and an errno of 32 bits.
pub data Answer : Type 0 where
  gives : ℕ → Answer
  fails : ℕ → Answer

-- Where the wrapper tests for a number below 0.
abbrev pub posted : Rv → Answer
posted (ret n) = gives n
posted (err e) = if e == 0 then gives 0 else fails e

-- Where it tests for a number other than 0.
abbrev pub settled : Rv → Answer
settled (ret zero) = gives 0
settled (ret (suc n)) = fails (2 ^ 32 - suc n)
settled (err e) = if e == 0 then gives 0 else fails e

module _ (lib : PoolLib) (vec : VecLib) (closes : ℕ → Rv) where
  -- vcom_socket_main and is_vcom_init.
  pub record Program : Type 0 where
    pub main : Main lib
    pub is_vcom_init : Bool

  abbrev pub loaded : Program
  loaded = record { main = initial lib vec closes; is_vcom_init = false }

  unfoldable pub vcom_init : Bool → Program → Program × Bool
  vcom_init ok p =
      if p.is_vcom_init
      then (p, true)
      else if ok
      then (record { main = initial lib vec closes; is_vcom_init = true }, true)
      else (p, false)

  -- The destructor's: `answer` is what vppcom_epoll_ctl returns.
  abbrev vcom_destroy : (ℕ → ℕ → Rv) → Program → Program
  vcom_destroy answer p =
      if p.is_vcom_init
      then record { main = main_destroy lib vec closes answer p.main; is_vcom_init = false }
      else p

  abbrev updated : Program → Main lib × Rv → Program × Rv
  updated p (m, rv) = (record p { main = m }, rv)

  abbrev pub with_init : (Main lib → Main lib × Rv) → Program × Bool → Program × Rv
  with_init f (p, false) = (p, err 1)
  with_init f (p, true) = updated p (f p.main)

  -- What the vcom_ functions begin with: -1 where vcom_init fails.
  unfoldable pub called : Bool → (Main lib → Main lib × Rv) → Program → Program × Rv
  unfolding vcom_init
  called ok f p = with_init f (vcom_init ok p)

  abbrev pub seen : (Rv → Answer) → Program × Rv → Program × Answer
  seen f (p, rv) = (p, f rv)

  -- Any error becomes -1.
  abbrev pub flattened : Main lib × Rv → Main lib × Rv
  flattened (m, ret zero) = (m, ret 0)
  flattened (m, ret (suc n)) = (m, err 1)
  flattened (m, err zero) = (m, ret 0)
  flattened (m, err (suc e)) = (m, err 1)

  unfoldable pub vcom_close : Bool → ℕ → Program → Program × Rv
  unfolding called
  vcom_close ok fd p = called ok (λ m. flattened (close lib closes fd m)) p

  unfoldable pub close_call : Bool → ℕ → Answer → Program → Program × Answer
  unfolding vcom_close
  close_call ok fd libc p =
      if is_vcom_fd lib p.main fd || is_vcom_epfd lib p.main fd
      then seen settled (vcom_close ok fd p)
      else (p, libc)

  -- `made` is what socket of the C library returns to vcom_socket.c, `create` vppcom_session_create.
  unfoldable pub vcom_socket : Bool → ℕ → ℕ → Rv → (Bool → Bool → Rv) → Program → Program × Rv
  unfolding called
  vcom_socket ok domain type made create p = called ok (socket lib domain type made create) p

  unfoldable pub socket_call :
      Bool → ℕ → ℕ → Rv → (Bool → Bool → Rv) → Answer → Program → Program × Answer
  unfolding vcom_socket
  socket_call ok domain type made create libc p =
      if (domain == 2 || domain == 10) && (kind_of type == 1 || kind_of type == 2)
      then seen posted (vcom_socket ok domain type made create p)
      else (p, libc)

  -- The flags of accept are 0; the address that is written is left to accept_flags.
  abbrev pub dropped : {A : Type 0} → Main lib × Rv × A → Main lib × Rv
  dropped (m, rv, a) = (m, rv)

  unfoldable pub vcom_accept4 :
      Bool
      → Bool
      → Bool
      → ℕ
      → ℕ
      → Rv
      → Rv
      → (Bool → Rv × Endpoint)
      → Kernel
      → Program
      → Program × Rv
  unfolding called
  vcom_accept4 ok wants wants_len fd flags mode getfl take k p =
      called ok (λ m. dropped (accept_flags lib wants wants_len fd flags mode getfl take k m)) p

  unfoldable pub accept4_call :
      Bool
      → Bool
      → Bool
      → ℕ
      → ℕ
      → Rv
      → Rv
      → (Bool → Rv × Endpoint)
      → Kernel
      → Answer
      → Program
      → Program × Answer
  unfolding vcom_accept4
  accept4_call ok wants wants_len fd flags mode getfl take k libc p =
      if is_vcom_fd lib p.main fd
      then seen posted (vcom_accept4 ok wants wants_len fd flags mode getfl take k p)
      else (p, libc)

  unfoldable pub accept_call :
      Bool
      → Bool
      → Bool
      → ℕ
      → Rv
      → Rv
      → (Bool → Rv × Endpoint)
      → Kernel
      → Answer
      → Program
      → Program × Answer
  unfolding accept4_call
  accept_call ok wants wants_len fd = accept4_call ok wants wants_len fd 0

  -- `made` and `created` are as for epoll_create1 of vcom_socket.c, which has the test of the flags.
  unfoldable pub epoll_create1_call : Bool → ℕ → Rv → Rv → Program → Program × Answer
  unfolding called
  epoll_create1_call ok flags made created p =
      seen posted (called ok (epoll_create1 lib flags made created) p)

  -- A second vcom_init changes nothing. `size` is the 32 bits.
  unfoldable pub epoll_create_call : Bool → ℕ → Rv → Rv → Program → Program × Answer
  unfolding called
  epoll_create_call ok size made created p = seen posted (
      called ok
        (λ m.
          if size == 0 || leb (2 ^ 31) size
          then (m, err einval)
          else epoll_create1 lib 0 made created m)
        p)

  abbrev pub is_ctl : Op → Bool
  is_ctl other = false
  is_ctl _ = true

  abbrev pub ep_op_has_event : Op → Bool
  ep_op_has_event del = false
  ep_op_has_event _ = true

  -- `has_event` is whether the event is not NULL.
  abbrev pub ctl_apart : ℕ → Op → ℕ → Event → Rv → Main lib → Main lib × Rv
  ctl_apart epfd op fd event answer m =
      if epfd == fd then (m, err einval) else epoll_ctl lib vec epfd op fd event answer m

  abbrev pub ctl_with_event : ℕ → Op → ℕ → Bool → Event → Rv → Main lib → Main lib × Rv
  ctl_with_event epfd op fd has_event event answer m =
      if ep_op_has_event op && not has_event
      then (m, err 14)
      else ctl_apart epfd op fd event answer m

  unfoldable pub vcom_epoll_ctl : Bool → ℕ → Op → ℕ → Bool → Event → Rv → Program → Program × Rv
  unfolding called
  vcom_epoll_ctl ok epfd op fd has_event event answer p =
      called ok
        (λ m.
          if not (is_ctl op)
          then (m, err einval)
          else ctl_with_event epfd op fd has_event event answer m)
        p

  unfoldable pub epoll_ctl_call : Bool → ℕ → Op → ℕ → Bool → Event → Rv → Program → Program × Answer
  unfolding vcom_epoll_ctl
  epoll_ctl_call ok epfd op fd has_event event answer p =
      if not (is_vcom_epfd lib p.main epfd)
      then (p, fails einval)
      else if is_vcom_fd lib p.main fd
      then seen settled (vcom_epoll_ctl ok epfd op fd has_event event answer p)
      else (p, fails ebadf)
