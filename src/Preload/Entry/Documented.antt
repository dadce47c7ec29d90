-- ===== src/Preload/Entry/Documented.antt =====
-- What the calls of vcl-ldpreload/src/libvcl-ldpreload/vcom.c hand to vcom_socket.c, and how they
-- put its answer, by the manual pages of the calls.
use vppsb.Common.{
  ℕ, zero, suc, ◌^◌, ◌≡◌, refl, Bool, true, false, ◌&&◌, ◌||◌, not, ◌==◌, leb, if◌then◌else◌, arith,
}
use vppsb.Pool.{PoolLib}
use vppsb.Vcom.{Rv, ret, err, einval, Event, Main}
use vppsb.Vcom.Poll.{VecLib, Op, add, mod_, del, other, epoll_ctl}
use vppsb.Vcom.Open.{epoll_create1}
use vppsb.Preload.Entry.{Answer, gives, fails, settled, Program, is_ctl, ctl_with_event, flattened}

-- A close succeeds or fails with -1.
abbrev pub closed_or_not : Rv → Answer
closed_or_not (ret n) = if n == 0 then gives 0 else fails 1
closed_or_not (err e) = if e == 0 then gives 0 else fails 1

module _ (lib : PoolLib) (vec : VecLib) (closes : ℕ → Rv) where
  -- The program after vcom_init and a call of vcom_socket.c.
  abbrev pub after : (Rv → Answer) → Main lib × Rv → Program lib vec closes × Answer
  after test r = (record { main = r.0; is_vcom_init = true }, test r.1)

  -- epoll_create(2): the size is a positive int.
  abbrev pub created : ℕ → Rv → Rv → Main lib → Main lib × Rv
  created size made rv m =
      if not (size == 0) && not (leb (2 ^ 31) size)
      then epoll_create1 lib 0 made rv m
      else (m, err einval)

  -- epoll_ctl(2): an instance does not watch itself, and an event is needed but to delete.
  abbrev pub controlled : ℕ → Op → ℕ → Bool → Event → Rv → Main lib → Main lib × Rv
  controlled epfd other fd b event answer m = (m, err einval)
  controlled epfd add fd false event answer m = (m, err 14)
  controlled epfd mod_ fd false event answer m = (m, err 14)
  controlled epfd op fd b event answer m =
      if not (epfd == fd) then epoll_ctl lib vec epfd op fd event answer m else (m, err einval)

  pub closed-flattened :
      (r : Main lib × Rv) → after settled (flattened lib vec closes r) ≡ after closed_or_not r
  closed-flattened (m, ret zero) = refl
  closed-flattened (m, ret (suc n)) = ground arith
  closed-flattened (m, err zero) = refl
  closed-flattened (m, err (suc n)) = ground arith

  pub created_lem :
      (size : ℕ) (made rv : Rv) (m : Main lib)
      → (if size == 0 || leb (2 ^ 31) size then (m, err einval) else epoll_create1 lib 0 made rv m)
        ≡ created size made rv m
  created_lem size made rv m = ground arith

  pub controlled_lem :
      (epfd : ℕ) (op : Op) (fd : ℕ) (b : Bool) (event : Event) (answer : Rv) (m : Main lib)
      → (if not (is_ctl lib vec closes op)
          then (m, err einval)
          else ctl_with_event lib vec closes epfd op fd b event answer m)
        ≡ controlled epfd op fd b event answer m
  controlled_lem epfd other fd b event answer m = refl
  controlled_lem epfd add fd false event answer m = refl
  controlled_lem epfd mod_ fd false event answer m = refl
  controlled_lem epfd del fd false event answer m = ground arith
  controlled_lem epfd add fd true event answer m = ground arith
  controlled_lem epfd mod_ fd true event answer m = ground arith
  controlled_lem epfd del fd true event answer m = ground arith
