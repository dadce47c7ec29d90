-- ===== src/Vcom/Calls.antt =====
-- The calls that change the sockets and epoll instances of
-- vcl-ldpreload/src/libvcl-ldpreload/vcom_socket.c, one after the other.
pub mod Kept
use vppsb.Common.{ℕ, ◌≡◌, ◌≢◌, Bool, true, false, Option, none, some, List, no_index}
use vppsb.Pool.{PoolLib}
use vppsb.Vcom.{Rv, ret, Event, Main}
use vppsb.Vcom.Poll.{VecLib, Op, epoll_ctl}
use vppsb.Vcom.Poll.Indexed.{IsIndexed}
use vppsb.Vcom.Open.{socket, epoll_create1}
use vppsb.Vcom.Open.Accept.{Endpoint, Kernel, accept_flags}
use vppsb.Vcom.Close.{close}
use vppsb.Vcom.Close.Epolls.{IsEpollKeyed}
use vppsb.Vcom.Close.Sockets.{IsSocketKeyed}

module _ (lib : PoolLib) (vec : VecLib) (closes : ℕ → Rv) where
  -- The tables of items agree, and sockets and epoll instances stand at their descriptors.
  pub record IsWellFormed (m : Main lib) : Type 0 where
    pub indexed : IsIndexed lib vec m
    pub sockets : IsSocketKeyed lib closes m
    pub epolls : IsEpollKeyed lib closes m

  -- vcom_socket_main_init
  abbrev pub initial : Main lib
  initial = record {
    vsockets = lib.empty _;
    sockidx_by_fd = λ fd. none;
    vepolls = lib.empty _;
    epollidx_by_epfd = λ epfd. none;
    vepitems = lib.empty _;
    epitemidx_by_epfdfd = λ epfd fd. none;
    epitemidxs_by_epfd = λ epfd. none;
    epitemidxs_by_fd = λ fd. none;
    log = List.[];
  }

  -- The states that a program can reach, call by call, with whatever the C library and vppcom answer.
  pub data Reach : Main lib → Type 0 where
    fresh : Reach initial
    by_socket :
        {m : Main lib} (domain type : ℕ) (made : Rv) (create : Bool → Bool → Rv)
        → Reach m
        → Reach (socket lib domain type made create m).0
    by_epoll_create :
        {m : Main lib} (flags : ℕ) (made created : Rv)
        → Reach m
        → Reach (epoll_create1 lib flags made created m).0
    by_accept :
        {m : Main lib} (wants wants_len : Bool) (fd flags : ℕ) (mode getfl : Rv)
        (take : Bool → Rv × Endpoint) (k : Kernel)
        → Reach m
        → Reach (accept_flags lib wants wants_len fd flags mode getfl take k m).0
    by_epoll_ctl :
        {m : Main lib} (epfd : ℕ) (op : Op) (fd : ℕ) (event : Event) (answer : Rv)
        → Reach m
        → Reach (epoll_ctl lib vec epfd op fd event answer m).0
    by_close : {m : Main lib} (fd : ℕ) → Reach m → Reach (close lib closes fd m).0
