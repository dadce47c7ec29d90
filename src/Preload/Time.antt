-- ===== src/Preload/Time.antt =====
-- The times of vcl-ldpreload/src/libvcl-ldpreload/vcom.c, whose seconds and nanoseconds are
-- integers. Overflow of their 64 bits, which C leaves undefined, is not modelled: the functions are
-- those of the code where the sums fit, and Polling/Timeouts has a bound on the times for that. The
-- steps of the two loops lie between what they are given and what they return.
pub mod Laws
use vppsb.Common.{
  ℕ, zero, suc, ◌+◌, ◌*◌, ◌/◌, Bool, true, false, ◌&&◌, ◌||◌, not, ◌==◌, ltb, if◌then◌else◌,
}
use vppsb.Preload.Int.{ℤ, pos, negsuc, pos_part, neg_part, sub_ℕ, ◌+ℤ◌, ◌-ℤ◌, ltb_ℤ}

-- struct timespec
pub record Timespec : Type 0 where
  pub tv_sec : ℤ
  pub tv_nsec : ℤ

-- struct timeval
pub record Timeval : Type 0 where
  pub tv_sec : ℤ
  pub tv_usec : ℤ

abbrev pub eq_ℤ : ℤ → ℤ → Bool
eq_ℤ a b = pos_part a == pos_part b && neg_part a == neg_part b

abbrev pub nsec_per_sec : ℤ
nsec_per_sec = pos 1000000000

abbrev pub timespec_equal : Timespec → Timespec → Bool
timespec_equal a b = eq_ℤ a.tv_sec b.tv_sec && eq_ℤ a.tv_nsec b.tv_nsec

-- The int of the difference of two normalised nanoseconds, which fits 32 bits.
unfoldable pub timespec_compare : Timespec → Timespec → ℤ
timespec_compare lhs rhs =
    if ltb_ℤ lhs.tv_sec rhs.tv_sec
    then negsuc 0
    else if ltb_ℤ rhs.tv_sec lhs.tv_sec
    then pos 1
    else lhs.tv_nsec -ℤ rhs.tv_nsec

abbrev timeval_compare : Timeval → Timeval → ℤ
timeval_compare lhs rhs =
    if ltb_ℤ lhs.tv_sec rhs.tv_sec
    then negsuc 0
    else if ltb_ℤ rhs.tv_sec lhs.tv_sec
    then pos 1
    else lhs.tv_usec -ℤ rhs.tv_usec

-- The first loop of set_normalized_timespec, then its second. Out of fuel they stop where they are.
unfoldable pub lowered : ℕ → ℤ → ℤ → Timespec
lowered zero sec nsec = record { tv_sec = sec; tv_nsec = nsec }
lowered (suc fuel) sec nsec =
    let rest = lowered fuel (sec +ℤ pos 1) (nsec -ℤ nsec_per_sec) in
    if ltb_ℤ nsec nsec_per_sec then record { tv_sec = sec; tv_nsec = nsec } else rest

unfoldable pub lifted : ℕ → ℤ → ℤ → Timespec
lifted zero sec nsec = record { tv_sec = sec; tv_nsec = nsec }
lifted (suc fuel) sec nsec =
    let rest = lifted fuel (sec -ℤ pos 1) (nsec +ℤ nsec_per_sec) in
    if ltb_ℤ nsec (pos 0) then rest else record { tv_sec = sec; tv_nsec = nsec }

abbrev pub turns : ℤ → ℕ
turns nsec = suc (suc ((pos_part nsec + neg_part nsec) / 1000000000))

unfoldable pub set_normalized_timespec : ℤ → ℤ → Timespec
unfolding lowered lifted
set_normalized_timespec sec nsec =
    let low = lowered (turns nsec) sec nsec in lifted (turns nsec) low.tv_sec low.tv_nsec

unfoldable pub timespec_add : Timespec → Timespec → Timespec
timespec_add lhs rhs =
    set_normalized_timespec (lhs.tv_sec +ℤ rhs.tv_sec) (lhs.tv_nsec +ℤ rhs.tv_nsec)

unfoldable pub timespec_sub : Timespec → Timespec → Timespec
timespec_sub lhs rhs =
    set_normalized_timespec (lhs.tv_sec -ℤ rhs.tv_sec) (lhs.tv_nsec -ℤ rhs.tv_nsec)

abbrev pub vcom_timerisvalid : Timeval → Bool
vcom_timerisvalid tv = not (ltb_ℤ tv.tv_sec (pos 0) || ltb_ℤ tv.tv_usec (pos 0))

-- VCOM_TIMEVAL_TO_TIMESPEC
unfoldable pub timeval_to_timespec : Timeval → Timespec
timeval_to_timespec tv = record {
  tv_sec = tv.tv_sec;
  tv_nsec = sub_ℕ (pos_part tv.tv_usec * 1000) (neg_part tv.tv_usec * 1000);
}

-- VCOM_TIMESPEC_TO_TIMEVAL; the division goes towards 0.
unfoldable pub timespec_to_timeval : Timespec → Timeval
timespec_to_timeval ts = record {
  tv_sec = ts.tv_sec;
  tv_usec = sub_ℕ (pos_part ts.tv_nsec / 1000) (neg_part ts.tv_nsec / 1000);
}
