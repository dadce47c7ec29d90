-- ===== src/Preload/Polling.antt =====
-- select of vcl-ldpreload/src/libvcl-ldpreload/vcom.c: it polls VPP and the C library in turn until
-- a descriptor is ready or the time is over.
-- The clock, the C library and vcom_socket_select answer from a list of rounds. A number of ready
-- descriptors that was not asked for is 0 for the code's -1. `vcom` is is_vcom_socket_fd.
pub mod Rounds
pub mod Ready
pub mod Counts
pub mod Timeouts
pub mod Sockets
pub mod Returns
pub mod Blind
use vppsb.Common.{
  ℕ, ◌+◌, Bool, true, false, ◌&&◌, ◌||◌, not, Option, none, some, List, [], ◌∷◌, ◌==◌, ltb,
  if◌then◌else◌,
}
use vppsb.Vcom.{Rv, ret, err, einval}
use vppsb.Vcom.Select.{Sets}
use vppsb.Preload.Int.{pos, ltb_ℤ}
use vppsb.Preload.Time.{
  Timespec, Timeval, eq_ℤ, set_normalized_timespec, timespec_add, timespec_sub, timespec_compare,
  timeval_to_timespec, timespec_to_timeval, vcom_timerisvalid,
}
use vppsb.Preload.Sets.{Part, no_sets, vcom_fd_set_split, vcom_fd_set_merge, fd_set_iszero}

-- What clock_gettime gives, or errno.
pub data Clock : Type 0 where
  now : Timespec → Clock
  failed : ℕ → Clock

-- What is answered in one turn of the loop: by vcom_socket_select and libc_select, each given the
-- number and the sets and a timeout of 0, and by the clock. An error of the C library is its errno.
pub record Round : Type 0 where
  pub vcom : ℕ → Sets → Rv × Sets
  pub libc : ℕ → Sets → Rv × Sets
  pub clock : Clock

-- How the loop is left.
pub data Ended : Type 0 where
  done : Rv → Sets → Ended
  timed_out : Ended

-- The numbers of the two parts, the caller's sets, and when the time is over, if it is.
pub record Watch : Type 0 where
  pub vcom_nfds : ℕ
  pub libc_nfds : ℕ
  pub sets : Sets
  pub end_time : Option Timespec

abbrev pub asked : ℕ → (ℕ → Sets → Rv × Sets) → Sets → Rv × Sets
asked n f s = if n == 0 then (ret 0, s) else f n s

abbrev pub before : Option Timespec → Timespec → Bool
before none t = true
before (some end_time) t = ltb_ℤ (timespec_compare t end_time) (pos 0)

abbrev pub by_clock : Watch → Clock → Option Ended → Option Ended
by_clock k (failed e) rest = some (done (err e) k.sets)
by_clock k (now t) rest = if before k.end_time t then rest else some timed_out

abbrev pub of_part : Part → Ended
of_part p = done (ret p.nfd) p.sets

-- After both selects: the sets and how many are ready. An errno of the C library is returned as it
-- is, above 0.
unfoldable pub turn :
    Watch → Clock → Rv × Sets → Rv × Sets → (Sets → Sets → Option Ended) → Option Ended
unfolding vcom_fd_set_merge timespec_compare
turn k clock (err e, v) answer rest = some (done (err e) k.sets)
turn k clock (ret a, v) (err e, l) rest = some (done (ret e) k.sets)
turn k clock (ret a, v) (ret b, l) rest =
    let again = by_clock k clock (rest v l) in
    if ltb 0 a || ltb 0 b
    then some (of_part (vcom_fd_set_merge no_sets k.vcom_nfds v k.libc_nfds l))
    else again

-- The loop, from the sets of VPP and of the C library, which each select changes in place. It is
-- `none` if the rounds are used up.
unfoldable pub poll : Watch → List Round → Sets → Sets → Option Ended
unfolding turn
poll k [] v l = none
poll k (r ∷ rs) v l =
    turn k r.clock (asked k.vcom_nfds r.vcom v) (asked k.libc_nfds r.libc l) (poll k rs)

-- What the caller has: the number, the sets and the timeout.
pub record Outcome : Type 0 where
  pub rv : Rv
  pub sets : Sets
  pub timeout : Option Timeval

-- select_done, with the sets of the caller, after a first clock_gettime that did not fail. A timeout
-- with a negative part is left alone.
unfoldable pub remaining : Timespec → Clock → Rv → Sets → Timeval → Outcome
unfolding timespec_sub timespec_to_timeval
remaining end_time (failed e) rv w tv = record { rv = err e; sets = w; timeout = some tv }
remaining end_time (now t) rv w tv = record {
  rv = rv;
  sets = w;
  timeout = some (timespec_to_timeval (timespec_sub end_time t));
}

unfoldable pub select_done : Option Timespec → Clock → Rv → Sets → Option Timeval → Outcome
unfolding remaining
select_done end_time clock rv w none = record { rv = rv; sets = w; timeout = none }
select_done none clock rv w (some tv) = record { rv = rv; sets = w; timeout = some tv }
select_done (some end_time) clock rv w (some tv) =
    if vcom_timerisvalid tv
    then remaining end_time clock rv w tv
    else record { rv = rv; sets = w; timeout = some tv }

-- timerclear
abbrev pub cleared : Option Timeval → Option Timeval
cleared none = none
cleared (some tv) = some (record { tv_sec = pos 0; tv_usec = pos 0 })

unfoldable pub ended : Option Timespec → Clock → Sets → Option Timeval → Ended → Outcome
unfolding select_done
ended end_time clock w timeout (done rv s) = select_done end_time clock rv s timeout
ended end_time clock w timeout timed_out = record {
  rv = ret 0;
  sets = w;
  timeout = cleared timeout;
}

unfoldable pub ended? :
    Option Timespec → Clock → Sets → Option Timeval → Option Ended → Option Outcome
unfolding ended
ended? end_time clock w timeout none = none
ended? end_time clock w timeout (some e) = some (ended end_time clock w timeout e)

-- What the calls around the loop answer: the first clock_gettime, whether vcom_init succeeds,
-- libc_select of a select that only sleeps, which changes the sets and the timeout, the rounds, and
-- the last clock_gettime.
pub record World : Type 0 where
  pub start_time : Clock
  pub inits : Bool
  pub sleep : Sets → Timeval → Rv × Sets × Timeval
  pub rounds : List Round
  pub end_clock : Clock

-- end_time: the timeout is normalised, and added if one of its fields is not 0.
unfoldable pub ends_at : Timespec → Option Timeval → Option Timespec
unfolding timespec_add set_normalized_timespec timeval_to_timespec
ends_at t none = none
ends_at t (some tv) =
    let ts = timeval_to_timespec tv in
    some (
      if eq_ℤ tv.tv_sec (pos 0) && eq_ℤ tv.tv_usec (pos 0)
      then t
      else timespec_add t (set_normalized_timespec ts.tv_sec ts.tv_nsec))

unfoldable pub slept : Option Timespec → Clock → Rv × Sets × Timeval → Outcome
unfolding select_done
slept end_time clock (rv, w, tv) = select_done end_time clock rv w (some tv)

-- The emulation of usleep.
unfoldable pub sleeping : Option Timespec → World → Sets → Option Timeval → Outcome
unfolding slept
sleeping end_time c w none = select_done end_time c.end_clock (err einval) w none
sleeping end_time c w (some tv) = slept end_time c.end_clock (c.sleep w tv)

unfoldable pub polling :
    Option Timespec → World → Sets → Option Timeval → Part × Part → Option Outcome
unfolding poll ended?
polling end_time c w timeout (v, l) = ended? end_time c.end_clock w timeout (
    poll (record { vcom_nfds = v.nfds; libc_nfds = l.nfds; sets = w; end_time = end_time }) c.rounds
      v.sets l.sets)

unfoldable pub iszero : Sets → Bool
unfolding fd_set_iszero
iszero w = fd_set_iszero w.rd && fd_set_iszero w.wr && fd_set_iszero w.ex

-- With the end of the time known. FD_SETSIZE is 1024, and a negative number, as its 32 bits, is more.
unfoldable pub started :
    (ℕ → Bool) → Option Timespec → World → ℕ → Sets → Option Timeval → Option Outcome
unfolding sleeping polling iszero vcom_fd_set_split
started vcom end_time c nfds w timeout =
    if not c.inits
    then some (select_done end_time c.end_clock (err 1) w timeout)
    else if ltb 1024 nfds
    then some (select_done end_time c.end_clock (err einval) w timeout)
    else if nfds == 0 && iszero w
    then some (sleeping end_time c w timeout)
    else polling end_time c w timeout (vcom_fd_set_split vcom nfds w)

unfoldable pub from_start : (ℕ → Bool) → World → ℕ → Sets → Option Timeval → Clock → Option Outcome
unfolding started ends_at
from_start vcom c nfds w timeout (failed e) =
    some (record { rv = err e; sets = w; timeout = timeout })
from_start vcom c nfds w timeout (now t) = started vcom (ends_at t timeout) c nfds w timeout

abbrev pub is_valid : Option Timeval → Bool
is_valid none = true
is_valid (some tv) = vcom_timerisvalid tv

unfoldable pub vcom_select : (ℕ → Bool) → World → ℕ → Sets → Option Timeval → Option Outcome
unfolding from_start
vcom_select vcom c nfds w timeout =
    if is_valid timeout
    then from_start vcom c nfds w timeout c.start_time
    else some (record { rv = err einval; sets = w; timeout = timeout })
