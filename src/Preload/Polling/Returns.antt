-- ===== src/Preload/Polling/Returns.antt =====
-- vcom_select of vcl-ldpreload/src/libvcl-ldpreload/vcom.c comes back.
use vppsb.Common.{ℕ, ◌≡◌, ◌≢◌, refl, Bool, ◌&&◌, not, Option, none, some, ◌==◌, ltb, if◌then◌else◌}
use vppsb.Vcom.{err, einval}
use vppsb.Vcom.Select.{Sets}
use vppsb.Preload.Time.{Timespec, Timeval}
use vppsb.Preload.Time.Laws.{IsNormal}
use vppsb.Preload.Sets.{Part, vcom_fd_set_split}
use vppsb.Preload.Polling.{
  Clock, now, failed, Ended, Watch, poll, World, ends_at, vcom_select, select_done, ended?, polling,
  started, from_start, is_valid, iszero, sleeping,
}
use vppsb.Preload.Polling.Counts.{if-elim}
use vppsb.Preload.Polling.Timeouts.{
  Shows, Ticks, AllTick, IsOver, EndsAt, ends_at-EndsAt, poll-ne-none, some-ne-none,
}

ended-ne-none :
    (end_time : Option Timespec) (clock : Clock) (w : Sets) (timeout : Option Timeval)
    (e : Option Ended)
    → e ≢ none
    → ended? end_time clock w timeout e ≢ none
unfolding ended?
ended-ne-none end_time clock w timeout none h = λ q. h refl
ended-ne-none end_time clock w timeout (some e) h = some-ne-none

started-ne-none :
    (vcom : ℕ → Bool) (c : World) (nfds : ℕ) (w : Sets) (tv : Timeval) (start t : Timespec)
    → IsNormal start
    → AllTick c.rounds
    → Shows t c.rounds
    → IsOver start tv t
    → started vcom (ends_at start (some tv)) c nfds w (some tv) ≢ none
unfolding started polling
started-ne-none vcom c nfds w tv start t n ticks at over =
    if-elim (λ o. o ≢ none) (not c.inits)
      (some (select_done end_time c.end_clock (err 1) w (some tv)))
      (if ltb 1024 nfds
        then some (select_done end_time c.end_clock (err einval) w (some tv))
        else if nfds == 0 && iszero w
        then some (sleeping end_time c w (some tv))
        else polling end_time c w (some tv) (vcom_fd_set_split vcom nfds w))
      (λ e. some-ne-none)
      (λ e.
        if-elim (λ o. o ≢ none) (ltb 1024 nfds)
          (some (select_done end_time c.end_clock (err einval) w (some tv)))
          (if nfds == 0 && iszero w
            then some (sleeping end_time c w (some tv))
            else polling end_time c w (some tv) (vcom_fd_set_split vcom nfds w))
          (λ e. some-ne-none)
          (λ e.
            if-elim (λ o. o ≢ none) (nfds == 0 && iszero w) (some (sleeping end_time c w (some tv)))
              (polling end_time c w (some tv) (vcom_fd_set_split vcom nfds w)) (λ e. some-ne-none)
              (λ e. polled (vcom_fd_set_split vcom nfds w))))
  where
    end_time : Option Timespec
    end_time = ends_at start (some tv)

    polled : (p : Part × Part) → polling end_time c w (some tv) p ≢ none
    polled (v, l) =
        ended-ne-none end_time c.end_clock w (some tv) (poll k c.rounds v.sets l.sets)
          (poll-ne-none start tv k ends.0 c.rounds v.sets l.sets t ends.1 ends.2 ticks at over)
      where
        k : Watch
        k = record { vcom_nfds = v.nfds; libc_nfds = l.nfds; sets = w; end_time = end_time }

        ends : (t : Timespec) × (ends_at start (some tv) ≡ some t) × EndsAt start tv t
        ends = ends_at-EndsAt start tv n

from_start-ne-none :
    (vcom : ℕ → Bool) (c : World) (nfds : ℕ) (w : Sets) (tv : Timeval) (clock : Clock)
    (t : Timespec)
    → Ticks clock
    → AllTick c.rounds
    → Shows t c.rounds
    → ((start : Timespec) → clock ≡ now start → IsOver start tv t)
    → from_start vcom c nfds w (some tv) clock ≢ none
unfolding from_start
from_start-ne-none vcom c nfds w tv (failed e) t n ticks at over = some-ne-none
from_start-ne-none vcom c nfds w tv (now start) t n ticks at over =
    started-ne-none vcom c nfds w tv start t n ticks at (over start refl)

-- A select with a timeout returns, at the latest in the round whose clock shows the timeout after
-- the start: whatever the sets and the other answers are, for clocks that give normalised times.
pub vcom_select-ne-none :
    (vcom : ℕ → Bool) (c : World) (nfds : ℕ) (w : Sets) (tv : Timeval) (t : Timespec)
    → Ticks c.start_time
    → AllTick c.rounds
    → Shows t c.rounds
    → ((start : Timespec) → c.start_time ≡ now start → IsOver start tv t)
    → vcom_select vcom c nfds w (some tv) ≢ none
unfolding vcom_select
vcom_select-ne-none vcom c nfds w tv t n ticks at over =
    if-elim (λ o. o ≢ none) (is_valid (some tv)) (from_start vcom c nfds w (some tv) c.start_time)
      (some (record { rv = err einval; sets = w; timeout = some tv }))
      (λ e. from_start-ne-none vcom c nfds w tv c.start_time t n ticks at over) (λ e. some-ne-none)
