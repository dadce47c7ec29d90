-- ===== src/Vcom/Io.antt =====
-- What reads and writes a socket in vcl-ldpreload/src/libvcl-ldpreload/vcom_socket.c.
-- A session answers its reads, or its writes, one after the other: each answer is a function of the
-- length that is asked for. Where the answers end, the call has not returned.
pub mod Vectors
pub mod Sent
pub mod Datagrams
use vppsb.Common.{
  ℕ, ◌+◌, ◌-◌, ◌^◌, Bool, true, false, ◌&&◌, ◌||◌, not, Option, none, some, List, [], ◌∷◌, ◌++◌,
  ◌==◌, ltb, if◌then◌else◌, length, take,
}
use Prim.Native.Nat.{bit_and}
use vppsb.Pool.{PoolLib}
use vppsb.Vcom.{
  Rv, ret, err, eagain, ebadf, einval, Socket, Main, Checked, refused, bound, check_socket,
}
use vppsb.Vcom.Open.Accept.{o_nonblock, is_connection_mode}

abbrev pub Session : Type 0
Session = List (ℕ → Rv)

-- EAGAIN, which is EWOULDBLOCK too.
abbrev pub again : Rv → Bool
again (ret n) = false
again (err n) = n == eagain

-- The loop of a blocking read.
abbrev pub read_wait : ℕ → Session → Option Rv
read_wait len [] = none
read_wait len (f ∷ fs) = let rest = read_wait len fs in if again (f len) then rest else some (f len)

abbrev pub once : ℕ → Session → Option Rv
once len [] = none
once len (f ∷ fs) = some (f len)

abbrev pub read_fd : ℕ → Session → Rv → Option Rv
read_fd len fs (err n) = some (err n)
read_fd len fs (ret status) =
    if bit_and status o_nonblock == 0 then read_wait len fs else once len fs

-- The sum of the lengths has to fit SSIZE_MAX.
abbrev pub sane : ℕ → List ℕ → Bool
sane len [] = true
sane len (l ∷ ls) = if ltb (2 ^ 63 - 1 - len) l then false else sane (len + l) ls

-- The loop of a blocking readv over the buffers `all`, from the buffers `ls` on; an error ends it
-- with the bytes so far, but to start over.
unfoldable pub readv_wait : List ℕ → List ℕ → ℕ → Session → Option Rv
readv_wait all [] total fs = some (ret total)
readv_wait all (l ∷ ls) total [] = none
readv_wait all (l ∷ ls) total (f ∷ fs) =
    let over = readv_wait all all 0 fs in
    elim (f l) [
      | err n ↦ if n == eagain && total == 0 then over else some (ret total)
      | ret k ↦
          let rest = readv_wait all ls (total + k) fs in
          if ltb k l then some (ret (total + k)) else rest
    ]

unfoldable pub readv_once : List ℕ → ℕ → Session → Option Rv
readv_once [] total fs = some (ret total)
readv_once (l ∷ ls) total [] = none
readv_once (l ∷ ls) total (f ∷ fs) = elim (f l) [
  | err n ↦ some (if ltb 0 total then ret total else err n)
  | ret k ↦
      let rest = readv_once ls (total + k) fs in if ltb k l then some (ret (total + k)) else rest
]

unfoldable pub readv_fd : List ℕ → Session → Rv → Option Rv
unfolding readv_wait readv_once
readv_fd ls fs (err n) = some (err n)
readv_fd ls fs (ret status) =
    if bit_and status o_nonblock == 0 then readv_wait ls ls 0 fs else readv_once ls 0 fs

-- The loop of writev, with the bytes that the session took.
unfoldable pub writev_bufs : List (List ℕ) → ℕ → List ℕ → Session → Option (Rv × List ℕ)
writev_bufs [] total sent fs = some (ret total, sent)
writev_bufs (b ∷ bs) total sent [] = none
writev_bufs (b ∷ bs) total sent (f ∷ fs) = elim (f (length b)) [
  | err n ↦ some (if ltb 0 total then ret total else err n, sent)
  | ret k ↦ writev_bufs bs (total + k) (sent ++ take k b) fs
]

abbrev pub iov_max : ℕ
iov_max = 1024

module _ (lib : PoolLib) (m : Main lib) (fd : ℕ) where
  -- `has_buf` is whether the buffer is not NULL, `getfl` what F_GETFL returns.
  unfoldable pub read : Bool → ℕ → Rv → Session → Option Rv
  read has_buf len getfl fs = elim (check_socket lib m fd) [
    | refused n ↦ some (err n)
    | bound i s ↦ if not has_buf then some (err einval) else read_fd len fs getfl
  ]

  unfoldable pub readv : Bool → List ℕ → Rv → Session → Option Rv
  unfolding readv_fd
  readv has_iov ls getfl fs = elim (check_socket lib m fd) [
    | refused n ↦ some (err n)
    | bound i s ↦
        if not has_iov || length ls == 0 || ltb iov_max (length ls)
        then some (err einval)
        else if not (sane 0 ls)
        then some (err einval)
        else readv_fd ls fs getfl
  ]

  unfoldable pub write : Bool → ℕ → Session → Option Rv
  write has_buf len fs = elim (check_socket lib m fd) [
    | refused n ↦ some (err n)
    | bound i s ↦ if not has_buf then some (err einval) else once len fs
  ]

  unfoldable pub writev : Bool → List (List ℕ) → Session → Option (Rv × List ℕ)
  unfolding writev_bufs
  writev has_iov bs fs = elim (check_socket lib m fd) [
    | refused n ↦ some (err n, [])
    | bound i s ↦
        if not has_iov || length bs == 0 || ltb iov_max (length bs)
        then some (err einval, [])
        else writev_bufs bs 0 [] fs
  ]

  -- vcom_socket_check_fcntl_cmd is 2: F_GETFD, F_SETFD, F_GETFL, F_SETFL, F_GETLK, F_SETLK, F_SETLKW,
  -- F_SETOWN and F_GETOWN.
  abbrev pub fcntl_class : ℕ → ℕ
  fcntl_class cmd =
      if cmd == 0 || cmd == 1030 then 1 else if not (cmd == 0) && ltb cmd 10 then 2 else 0

  -- `answer` is what fcntl of the C library returns for the descriptor.
  unfoldable pub fcntl_va : ℕ → Rv → Rv
  fcntl_va cmd answer = elim (check_socket lib m fd) [
    | refused n ↦ err n
    | bound i s ↦ if fcntl_class cmd == 2 then answer else err ebadf
  ]
