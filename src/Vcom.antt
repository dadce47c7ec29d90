-- ===== src/Vcom.antt =====
-- vcl-ldpreload/src/libvcl-ldpreload/vcom_socket.c and vcom_socket.h: the sockets and the epoll
-- instances that live in VPP, each behind a descriptor of the kernel.
-- A call of the C library or of vppcom is an argument, what it returns; the log has what is opened
-- and closed, newest first. A vppinfra hash is a function. Numbers of type int are the 32 bits.
pub mod Poll
pub mod Close
pub mod Open
pub mod Calls
pub mod Io
pub mod Select
pub mod Names
pub mod Destroy
mod Tests
use vppsb.Common.{
  ℕ, ◌+◌, ◌-◌, ◌%◌, ◌^◌, Bool, true, false, ◌&&◌, ◌||◌, not, Option, none, some, List, [], ◌∷◌,
  ◌==◌, if◌then◌else◌, no_index,
}
use vppsb.Pool.{PoolLib, has}

-- What a function returns: a number, or -e.
pub data Rv : Type 0 where
  ret : ℕ → Rv
  err : ℕ → Rv

abbrev pub enoent : ℕ
enoent = 2

abbrev pub eagain : ℕ
eagain = 11

abbrev pub ebadf : ℕ
ebadf = 9

abbrev pub eexist : ℕ
eexist = 17

abbrev pub einval : ℕ
einval = 22

abbrev pub enotsock : ℕ
enotsock = 88

-- vcom_socket_type_t, and vcom_epoll_type_t with the same three values.
pub data Binding : Type 0 where
  unbound kernel_bound vppcom_bound : Binding

-- vcom_fd_type_t
pub data FdType : Type 0 where
  invalid kernel epoll vcom_socket : FdType

-- vcom_socket_t
pub record Socket : Type 0 where
  pub fd : ℕ
  pub sid : ℕ
  pub type : Binding

-- vcom_epoll_t
pub record Epoll : Type 0 where
  pub epfd : ℕ
  pub vep_idx : ℕ
  pub type : Binding
  pub flags : ℕ
  pub count : ℕ
  pub close : Bool

-- struct epoll_event
pub record Event : Type 0 where
  pub events : ℕ
  pub user_data : ℕ

-- vcom_epitem_t; next_fd and prev_fd are always fd, and revent has no events.
pub record Item : Type 0 where
  pub epfd : ℕ
  pub fd : ℕ
  pub type : FdType
  pub event : Event

pub data Effect : Type 0 where
  fd_opened fd_closed session_opened session_closed : ℕ → Effect

abbrev pub is_bound : Binding → Bool
is_bound vppcom_bound = true
is_bound _ = false

abbrev pub hash_set {ℓ} : {A : Type ℓ} → (ℕ → Option A) → ℕ → A → ℕ → Option A
hash_set h k v j = if k == j then some v else h j

abbrev pub hash_unset {ℓ} : {A : Type ℓ} → (ℕ → Option A) → ℕ → ℕ → Option A
hash_unset h k j = if k == j then none else h j

-- What the functions on a descriptor test first: the error, or the socket and its index.
pub data Checked (A : Type 0) : Type 0 where
  refused : ℕ → Checked A
  bound : ℕ → A → Checked A

abbrev pub passes : {A : Type 0} → Checked A → Bool
passes (refused e) = false
passes (bound i a) = true

module _ (lib : PoolLib) where
  open lib use {Pool, elt, fresh, write, put}

  -- vcom_socket_main_t
  pub record Main : Type 0 where
    pub vsockets : Pool Socket
    pub sockidx_by_fd : ℕ → Option ℕ
    pub vepolls : Pool Epoll
    pub epollidx_by_epfd : ℕ → Option ℕ
    pub vepitems : Pool Item
    pub epitemidx_by_epfdfd : ℕ → ℕ → Option ℕ
    pub epitemidxs_by_epfd : ℕ → Option (List ℕ)
    pub epitemidxs_by_fd : ℕ → Option (List ℕ)
    pub log : List Effect

  abbrev pub emit : Effect → Main → Main
  emit e m = record m { log = e ∷ m.log }

  unfoldable pub socket_checked : ℕ → Option Socket → Checked Socket
  socket_checked i none = refused enotsock
  socket_checked i (some s) = if is_bound s.type then bound i s else refused einval

  unfoldable pub check_socket : Main → ℕ → Checked Socket
  unfolding socket_checked
  check_socket m fd = elim (m.sockidx_by_fd fd) [
    | none ↦ refused ebadf
    | some i ↦ socket_checked i (elt m.vsockets i)
  ]

  pub epoll_checked : ℕ → Option Epoll → Checked Epoll
  epoll_checked i none = refused ebadf
  epoll_checked i (some e) = if is_bound e.type then bound i e else refused einval

  unfoldable pub check_epoll : Main → ℕ → Checked Epoll
  unfolding epoll_checked
  check_epoll m epfd = elim (m.epollidx_by_epfd epfd) [
    | none ↦ refused ebadf
    | some i ↦ epoll_checked i (elt m.vepolls i)
  ]

  unfoldable pub is_vcom_fd : Main → ℕ → Bool
  unfolding check_socket
  is_vcom_fd m fd = passes (check_socket m fd)

  unfoldable pub is_vcom_epfd : Main → ℕ → Bool
  unfolding check_epoll
  is_vcom_epfd m epfd = passes (check_epoll m epfd)

  -- INVALID_SESSION_ID is ~0.
  pub get_sid : Main → ℕ → ℕ
  unfolding check_socket
  get_sid m fd = elim (check_socket m fd) [ refused e ↦ no_index | bound i s ↦ s.sid ]

  pub get_vep_idx : Main → ℕ → ℕ
  unfolding check_epoll
  get_vep_idx m epfd = elim (check_epoll m epfd) [ refused e ↦ no_index | bound i e ↦ e.vep_idx ]

  -- vcom_socket_get_sid_and_vsock
  pub get_vsock : Main → ℕ → Checked Socket
  unfolding check_socket
  get_vsock m fd = elim (check_socket m fd) [
    | refused e ↦ refused e
    | bound i s ↦ if s.sid == no_index then refused ebadf else bound i s
  ]

  -- vcom_socket_get_vep_idx_and_vepoll
  pub get_vepoll : Main → ℕ → Checked Epoll
  unfolding check_epoll
  get_vepoll m epfd = elim (check_epoll m epfd) [
    | refused e ↦ refused e
    | bound i e ↦ if e.vep_idx == no_index then refused ebadf else bound i e
  ]
