-- ===== src/Preload/Polling/Timeouts.antt =====
-- When the polling loop of vcom_select in vcl-ldpreload/src/libvcl-ldpreload/vcom.c stops for the
-- time.
use vppsb.Common.{
  ◌*◌, ◌<◌, ◌^◌, ◌≡◌, ◌≢◌, refl, ap, sym, ◌∙◌, ◌⊎◌, inl, inr, Bool, true, false, ◌&&◌, Option, none,
  some, List, [], ◌∷◌, arith, Bool-cases,
}
use mathlib.Core.Path.{subst}
use vppsb.Vcom.Select.{Sets}
use vppsb.Preload.Int.{pos, pos_part, neg_part, ◌+ℤ◌, ◌≤ℤ◌, ltb_ℤ, +ℤ_parts, eq_of_parts}
use vppsb.Preload.Time.{
  Timespec, Timeval, eq_ℤ, set_normalized_timespec, timespec_add, timeval_to_timespec,
}
use vppsb.Preload.Time.Laws.{
  total, total_parts, IsNormal, add-total, add-IsNormal, set_normalized_timespec-IsNormal,
  timespec_compare-total,
}
use vppsb.Preload.Polling.{
  Clock, now, failed, Round, Ended, done, timed_out, Watch, asked, before, poll, ends_at,
}
use vppsb.Preload.Polling.Rounds.{turn-elim}

-- A round's clock shows `t`.
abbrev pub Shows : Timespec → List Round → Type 0
Shows t [] = ⊥
Shows t (r ∷ rs) = (r.clock ≡ now t) ⊎ Shows t rs

-- The clocks give normalised times.
abbrev pub Ticks : Clock → Type 0
Ticks (now t) = IsNormal t
Ticks (failed e) = Unit {0}

abbrev pub AllTick : List Round → Type 0
AllTick [] = Unit {0}
AllTick (r ∷ rs) = Ticks r.clock × AllTick rs

-- The time `t` is at least the timeout after `start`.
abbrev pub IsOver : Timespec → Timeval → Timespec → Type 0
IsOver start tv t = total start +ℤ total (timeval_to_timespec tv) ≤ℤ total t

-- The end of the time is the timeout after the start, normalised.
abbrev pub EndsAt : Timespec → Timeval → Timespec → Type 0
EndsAt start tv t = IsNormal t × (total t ≡ total start +ℤ total (timeval_to_timespec tv))

unset-total :
    (tv : Timeval)
    → (eq_ℤ tv.tv_sec (pos 0) && eq_ℤ tv.tv_usec (pos 0)) ≡ true
    → total (timeval_to_timespec tv) ≡ pos 0
unfolding total timeval_to_timespec
unset-total tv h = ground arith

pub ends_at-EndsAt :
    (start : Timespec) (tv : Timeval)
    → IsNormal start
    → (t : Timespec) × (ends_at start (some tv) ≡ some t) × EndsAt start tv t
unfolding ends_at
ends_at-EndsAt start tv n = go (Bool-cases (eq_ℤ tv.tv_sec (pos 0) && eq_ℤ tv.tv_usec (pos 0)))
  where
    go :
        ((eq_ℤ tv.tv_sec (pos 0) && eq_ℤ tv.tv_usec (pos 0)) ≡ true)
          ⊎ ((eq_ℤ tv.tv_sec (pos 0) && eq_ℤ tv.tv_usec (pos 0)) ≡ false)
        → (t : Timespec) × (ends_at start (some tv) ≡ some t) × EndsAt start tv t
    go (inl e) = (
      start,
      rw e refl,
      (
        n,
        eq_of_parts (total start) (total start +ℤ total (timeval_to_timespec tv)) (
            omega (
              arith,
              +ℤ_parts (total start) (total (timeval_to_timespec tv)),
              ap pos_part (unset-total tv e),
              ap neg_part (unset-total tv e),
            )),
      ),
    )
    go (inr e) = (
      timespec_add start ts,
      rw e refl,
      (
        add-IsNormal start ts,
        add-total start ts
            ∙ ap (◌+ℤ◌ (total start))
                (set_normalized_timespec-IsNormal (timeval_to_timespec tv).tv_sec
                  (timeval_to_timespec tv).tv_nsec).1,
      ),
    )
      where
        ts : Timespec
        ts =
            set_normalized_timespec (timeval_to_timespec tv).tv_sec (timeval_to_timespec tv).tv_nsec

-- The test at the end of a turn, of normalised times.
before-IsOver :
    (start : Timespec) (tv : Timeval) (end_time t : Timespec)
    → EndsAt start tv end_time
    → IsNormal t
    → (before (some end_time) t ≡ false → IsOver start tv t)
      × (IsOver start tv t → before (some end_time) t ≡ false)
before-IsOver start tv end_time t (n, e) m = (
  λ b. over (sym (timespec_compare-total t end_time m n).0 ∙ b),
  λ o. (timespec_compare-total t end_time m n).0 ∙ not_over o,
)
  where
    over : ltb_ℤ (total t) (total end_time) ≡ false → IsOver start tv t
    over b = rw (← e) (ground (arith, b))

    not_over : IsOver start tv t → ltb_ℤ (total t) (total end_time) ≡ false
    not_over o = rw e (ground (arith, o))

-- The loop has stopped for the time only after the timeout.
abbrev Late : Timespec → Timeval → List Round → Option Ended → Type 0
Late start tv rs none = Unit {0}
Late start tv rs (some (done rv s)) = Unit {0}
Late start tv rs (some timed_out) = (t : Timespec) × Shows t rs × IsOver start tv t

later :
    (start : Timespec) (tv : Timeval) (r : Round) (rs : List Round) (e : Option Ended)
    → Late start tv rs e
    → Late start tv (r ∷ rs) e
later start tv r rs none h = tt
later start tv r rs (some (done rv s)) h = tt
later start tv r rs (some timed_out) (t, at, over) = (t, inr at, over)

poll-Late :
    (start : Timespec) (tv : Timeval) (k : Watch) (end_time : Timespec) (rs : List Round)
    (v l : Sets)
    → k.end_time ≡ some end_time
    → EndsAt start tv end_time
    → AllTick rs
    → Late start tv rs (poll k rs v l)
unfolding poll
poll-Late start tv k end_time [] v l e n ticks = tt
poll-Late start tv k end_time (r ∷ rs) v l e n (tick, ticks) =
    turn-elim (Late start tv (r ∷ rs)) k r.clock (asked k.vcom_nfds r.vcom v)
      (asked k.libc_nfds r.libc l) (poll k rs) (λ i. tt) (λ i q. tt) (λ a b p q m. tt)
      (λ t c b.
        later start tv r rs
          (poll k rs (asked k.vcom_nfds r.vcom v).1 (asked k.libc_nfds r.libc l).1)
          (poll-Late start tv k end_time rs (asked k.vcom_nfds r.vcom v).1
            (asked k.libc_nfds r.libc l).1 e n ticks))
      (λ t c b. (
        t,
        inl c,
        (before-IsOver start tv end_time t n (subst Ticks c tick)).0
            (subst (λ x. before x t ≡ false) e b),
      ))

not_both : {b : Bool} → b ≡ true → b ≢ false
not_both e f = ground (arith, e, f)

pub some-ne-none : {A : Type 0} {a : A} → some a ≢ none
some-ne-none e = ground (arith, e)

now_injective : {s t : Timespec} → now s ≡ now t → s ≡ t
now_injective {s} e = ap (λ c. elim c [ now t ↦ t | failed i ↦ s ]) e

-- Once a clock shows that the time is over the loop has ended.
pub poll-ne-none :
    (start : Timespec) (tv : Timeval) (k : Watch) (end_time : Timespec) (rs : List Round)
    (v l : Sets) (t : Timespec)
    → k.end_time ≡ some end_time
    → EndsAt start tv end_time
    → AllTick rs
    → Shows t rs
    → IsOver start tv t
    → poll k rs v l ≢ none
unfolding poll
poll-ne-none start tv k end_time [] v l t e n ticks at over = absurd at
poll-ne-none start tv k end_time (r ∷ rs) v l t e n (tick, ticks) at over =
    turn-elim (λ o. o ≢ none) k r.clock (asked k.vcom_nfds r.vcom v) (asked k.libc_nfds r.libc l)
      (poll k rs) (λ i. some-ne-none) (λ i q. some-ne-none) (λ a b p q m. some-ne-none)
      (λ s c b. elim at [
        | inl c' ↦ absurd (
            not_both (subst (λ x. before x s ≡ true) e b) (
              (before-IsOver start tv end_time s n (subst Ticks c tick)).1
                (subst (IsOver start tv) (now_injective (sym c' ∙ c)) over)))
        | inr at' ↦
            poll-ne-none start tv k end_time rs (asked k.vcom_nfds r.vcom v).1
              (asked k.libc_nfds r.libc l).1 t e n ticks at' over
      ])
      (λ s c b. some-ne-none)

-- The start and the timeout are not negative and far enough from the end of 64 bits: the start below
-- 2^62 seconds, the timeout below 2^61 seconds and 2^53 microseconds.
abbrev pub Fits : Timespec → Timeval → Type 0
Fits start tv =
    (pos 0 ≤ℤ start.tv_sec)
    × (pos_part start.tv_sec < 2 ^ 62)
    × (pos 0 ≤ℤ tv.tv_sec)
    × (pos_part tv.tv_sec < 2 ^ 61)
    × (pos 0 ≤ℤ tv.tv_usec)
    × (pos_part tv.tv_usec < 2 ^ 53)

-- The seconds and nanoseconds of the end of the time, in 64 bits.
abbrev pub EndFits : Option Timespec → Type 0
EndFits none = ⊥
EndFits (some t) = (pos 0 ≤ℤ t.tv_sec) × (pos_part t.tv_sec < 2 ^ 63) × IsNormal t

usecs :
    (tv : Timeval)
    → ((timeval_to_timespec tv).tv_sec ≡ tv.tv_sec)
      × (pos_part (timeval_to_timespec tv).tv_nsec ≡ pos_part tv.tv_usec * 1000)
      × (neg_part (timeval_to_timespec tv).tv_nsec ≡ neg_part tv.tv_usec * 1000)
unfolding timeval_to_timespec
usecs tv = ground arith

EndsAt-EndFits :
    (start : Timespec) (tv : Timeval) (t : Timespec)
    → IsNormal start
    → Fits start tv
    → EndsAt start tv t
    → EndFits (some t)
EndsAt-EndFits start tv t n f (m, e) = ground (
  arith,
  m,
  n,
  f,
  total_parts t,
  total_parts start,
  total_parts (timeval_to_timespec tv),
  usecs tv,
  +ℤ_parts (total start) (total (timeval_to_timespec tv)),
  ap pos_part e,
  ap neg_part e,
)

-- The loop of a select with a timeout stops for the time only when the clock of a round shows a time
-- at least the timeout after the start, for clocks that give normalised times. The start is
-- normalised, neither it nor the timeout is negative, and the start is below 2^62 seconds, the timeout
-- below 2^61 seconds and 2^53 microseconds: then the end of the time, which is normalised too, fits the
-- 64 bits of the code. A timeout whose sum with the start does not fit them is left out.
pub poll-IsOver :
    (start : Timespec) (tv : Timeval) (k : Watch) (rs : List Round) (v l : Sets)
    → IsNormal start
    → Fits start tv
    → k.end_time ≡ ends_at start (some tv)
    → AllTick rs
    → poll k rs v l ≡ some timed_out
    → EndFits k.end_time × ((t : Timespec) × Shows t rs × IsOver start tv t)
poll-IsOver start tv k rs v l n f e ticks h = (
  rw (e ∙ ends.1) (EndsAt-EndFits start tv ends.0 n f ends.2),
  subst (Late start tv rs) h (poll-Late start tv k ends.0 rs v l (e ∙ ends.1) ends.2 ticks),
)
  where
    ends : (t : Timespec) × (ends_at start (some tv) ≡ some t) × EndsAt start tv t
    ends = ends_at-EndsAt start tv n
