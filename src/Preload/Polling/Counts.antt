-- ===== src/Preload/Polling/Counts.antt =====
-- What vcom_select of vcl-ldpreload/src/libvcl-ldpreload/vcom.c counts, on every way to its end.
use vppsb.Common.{
  ℕ, suc, ◌<◌, ◌≡◌, ◌≢◌, refl, sym, ◌∙◌, ◌⊎◌, inl, inr, Bool, true, false, ◌&&◌, not, Option, none,
  some, ◌==◌, ltb, if◌then◌else◌, arith, Bool-cases,
}
use mathlib.Core.Path.{subst}
use vppsb.Vcom.{Rv, ret, err, einval}
use vppsb.Vcom.Select.{Sets}
use vppsb.Preload.Sets.{Part, no_sets, vcom_fd_set_split, vcom_fd_set_merge}
use vppsb.Preload.Sets.Merged.{IsPart, split-IsPart}
use vppsb.Preload.Time.{Timespec, Timeval, vcom_timerisvalid}
use vppsb.Preload.Polling.Ready.{IsReady, merged-IsReady}
use vppsb.Preload.Polling.{
  Clock, now, failed, Ended, done, timed_out, Watch, poll, World, Outcome, select_done, ended,
  ended?, remaining, sleeping, polling, started, from_start, ends_at, is_valid, iszero, vcom_select,
}
use vppsb.Preload.Polling.Rounds.{Sub, AllWork, Ends?, IsMerge, poll-Ends}

err-ne-ret : (i n : ℕ) → err i ≢ ret n
err-ne-ret i n e = ground (arith, e)

remaining-rv :
    (t : Timespec) (clock : Clock) (rv : Rv) (w : Sets) (tv : Timeval)
    → ((remaining t clock rv w tv).sets ≡ w)
      × ((n : ℕ) → (remaining t clock rv w tv).rv ≡ ret n → rv ≡ ret n)
unfolding remaining
remaining-rv t (failed i) rv w tv = (refl, λ n e. absurd (err-ne-ret i n e))
remaining-rv t (now s) rv w tv = (refl, λ n e. e)

-- The end of a select keeps its sets, and its number where there is one.
select_done-rv :
    (end_time : Option Timespec) (clock : Clock) (rv : Rv) (w : Sets) (timeout : Option Timeval)
    → ((select_done end_time clock rv w timeout).sets ≡ w)
      × ((n : ℕ) → (select_done end_time clock rv w timeout).rv ≡ ret n → rv ≡ ret n)
unfolding select_done
select_done-rv end_time clock rv w none = (refl, λ n e. e)
select_done-rv none clock rv w (some tv) = (refl, λ n e. e)
select_done-rv (some t) clock rv w (some tv) = go (Bool-cases (vcom_timerisvalid tv))
  where
    go :
        (vcom_timerisvalid tv ≡ true) ⊎ (vcom_timerisvalid tv ≡ false)
        → ((if vcom_timerisvalid tv
              then remaining t clock rv w tv
              else record { rv = rv; sets = w; timeout = some tv }).sets
            ≡ w)
          × ((n : ℕ)
              → (if vcom_timerisvalid tv
                  then remaining t clock rv w tv
                  else record { rv = rv; sets = w; timeout = some tv }).rv
                ≡ ret n
              → rv ≡ ret n)
    go (inl e) = rw e (remaining-rv t clock rv w tv)
    go (inr e) = rw e (refl, λ n e. e)

-- A number of ready descriptors above 0 is right.
abbrev Right : ℕ → Sets → Option Outcome → Type 0
Right nfds w none = Unit {0}
Right nfds w (some r) = (n : ℕ) → r.rv ≡ ret (suc n) → IsReady nfds w r.sets (suc n)

fails-Right :
    (nfds : ℕ) (w : Sets) (end_time : Option Timespec) (clock : Clock) (i : ℕ) (s : Sets)
    (timeout : Option Timeval)
    → Right nfds w (some (select_done end_time clock (err i) s timeout))
fails-Right nfds w end_time clock i s timeout n e =
    absurd (err-ne-ret i (suc n) ((select_done-rv end_time clock (err i) s timeout).1 (suc n) e))

-- What the loop merges is right.
abbrev Merges : ℕ → Sets → Watch → Sets → Sets → Type 0
Merges nfds w k v l =
    (v' l' : Sets)
    → Sub v' v
    → Sub l' l
    → IsReady nfds w (vcom_fd_set_merge no_sets k.vcom_nfds v' k.libc_nfds l').sets
        (vcom_fd_set_merge no_sets k.vcom_nfds v' k.libc_nfds l').nfd

ready-Right :
    (nfds : ℕ) (w : Sets) (end_time : Option Timespec) (clock : Clock) (timeout : Option Timeval)
    (k : Watch) (v l : Sets) (m : ℕ) (s : Sets)
    → Merges nfds w k v l
    → IsMerge k v l m s
    → Right nfds w (some (select_done end_time clock (ret m) s timeout))
ready-Right nfds w end_time clock timeout k v l m s right (v', l', f, g, d, q) n e =
    subst (λ t. IsReady nfds w t (suc n))
      (sym (((select_done-rv end_time clock (ret m) s timeout).0) ∙ d))
      (subst (IsReady nfds w (vcom_fd_set_merge no_sets k.vcom_nfds v' k.libc_nfds l').sets)
        (ground (arith, q, (select_done-rv end_time clock (ret m) s timeout).1 (suc n) e))
        (right v' l' f g))

ended-Right :
    (nfds : ℕ) (w : Sets) (end_time : Option Timespec) (clock : Clock) (timeout : Option Timeval)
    (k : Watch) (v l : Sets) (e : Option Ended)
    → Merges nfds w k v l
    → Ends? k v l e
    → Right nfds w (ended? end_time clock w timeout e)
unfolding ended? ended
ended-Right nfds w end_time clock timeout k v l none right h = tt
ended-Right nfds w end_time clock timeout k v l (some (done (err i) s)) right h =
    fails-Right nfds w end_time clock i s timeout
ended-Right nfds w end_time clock timeout k v l (some (done (ret m) s)) right h =
    ready-Right nfds w end_time clock timeout k v l m s right h
ended-Right nfds w end_time clock timeout k v l (some timed_out) right h =
    λ n e. absurd (ground (arith, e))

polling-Right :
    (vcom : ℕ → Bool) (nfds : ℕ) (w : Sets) (end_time : Option Timespec) (c : World)
    (timeout : Option Timeval)
    → AllWork c.rounds
    → Right nfds w (polling end_time c w timeout (vcom_fd_set_split vcom nfds w))
unfolding polling
polling-Right vcom nfds w end_time c timeout work =
    go (vcom_fd_set_split vcom nfds w) (split-IsPart vcom nfds w).0 (split-IsPart vcom nfds w).1
  where
    go :
        (p : Part × Part)
        → IsPart vcom nfds w p.0
        → IsPart (λ x. not (vcom x)) nfds w p.1
        → Right nfds w (polling end_time c w timeout p)
    go (v, l) pv pl =
        ended-Right nfds w end_time c.end_clock timeout
          (record { vcom_nfds = v.nfds; libc_nfds = l.nfds; sets = w; end_time = end_time }) v.sets
          l.sets
          (poll (record { vcom_nfds = v.nfds; libc_nfds = l.nfds; sets = w; end_time = end_time })
            c.rounds v.sets l.sets)
          (λ v' l' sv sl. merged-IsReady pv pl v' l' sv sl)
          (poll-Ends
            (record { vcom_nfds = v.nfds; libc_nfds = l.nfds; sets = w; end_time = end_time })
            c.rounds v.sets l.sets work)

-- A property of either branch.
pub if-elim :
    (P : Option Outcome → Type 0) (b : Bool) (x y : Option Outcome)
    → (b ≡ true → P x)
    → (b ≡ false → P y)
    → P (if b then x else y)
if-elim P true x y f g = f refl
if-elim P false x y f g = g refl

not_sleeping : (n : ℕ) (b : Bool) → 0 < n → (n == 0 && b) ≢ true
not_sleeping n b h e = ground (arith, h, e)

started-Right :
    (vcom : ℕ → Bool) (end_time : Option Timespec) (c : World) (nfds : ℕ) (w : Sets)
    (timeout : Option Timeval)
    → AllWork c.rounds
    → 0 < nfds
    → Right nfds w (started vcom end_time c nfds w timeout)
unfolding started
started-Right vcom end_time c nfds w timeout work some_fd =
    if-elim (Right nfds w) (not c.inits) (some (select_done end_time c.end_clock (err 1) w timeout))
      (if ltb 1024 nfds
        then some (select_done end_time c.end_clock (err einval) w timeout)
        else if nfds == 0 && iszero w
        then some (sleeping end_time c w timeout)
        else polling end_time c w timeout (vcom_fd_set_split vcom nfds w))
      (λ e. fails-Right nfds w end_time c.end_clock 1 w timeout)
      (λ e.
        if-elim (Right nfds w) (ltb 1024 nfds)
          (some (select_done end_time c.end_clock (err einval) w timeout))
          (if nfds == 0 && iszero w
            then some (sleeping end_time c w timeout)
            else polling end_time c w timeout (vcom_fd_set_split vcom nfds w))
          (λ e. fails-Right nfds w end_time c.end_clock einval w timeout)
          (λ e.
            if-elim (Right nfds w) (nfds == 0 && iszero w) (some (sleeping end_time c w timeout))
              (polling end_time c w timeout (vcom_fd_set_split vcom nfds w))
              (λ e. absurd (not_sleeping nfds (iszero w) some_fd e))
              (λ e. polling-Right vcom nfds w end_time c timeout work)))

from_start-Right :
    (vcom : ℕ → Bool) (c : World) (nfds : ℕ) (w : Sets) (timeout : Option Timeval) (start : Clock)
    → AllWork c.rounds
    → 0 < nfds
    → Right nfds w (from_start vcom c nfds w timeout start)
unfolding from_start
from_start-Right vcom c nfds w timeout (failed i) work some_fd =
    λ n e. absurd (err-ne-ret i (suc n) e)
from_start-Right vcom c nfds w timeout (now t) work some_fd =
    started-Right vcom (ends_at t timeout) c nfds w timeout work some_fd

vcom_select-Right :
    (vcom : ℕ → Bool) (c : World) (nfds : ℕ) (w : Sets) (timeout : Option Timeval)
    → AllWork c.rounds
    → 0 < nfds
    → Right nfds w (vcom_select vcom c nfds w timeout)
unfolding vcom_select
vcom_select-Right vcom c nfds w timeout work some_fd =
    if-elim (Right nfds w) (is_valid timeout) (from_start vcom c nfds w timeout c.start_time)
      (some (record { rv = err einval; sets = w; timeout = timeout }))
      (λ e. from_start-Right vcom c nfds w timeout c.start_time work some_fd)
      (λ e n q. absurd (err-ne-ret einval (suc n) q))

-- A select of at least one descriptor that returns a number above 0 leaves in the sets only
-- descriptors that were watched, all below `nfds`, and that number of them: whatever the rounds
-- answer, as long as each select takes descriptors out of the sets and libc_select does not fail.
pub vcom_select-IsReady :
    (vcom : ℕ → Bool) (c : World) (nfds : ℕ) (w : Sets) (timeout : Option Timeval) (r : Outcome)
    (n : ℕ)
    → AllWork c.rounds
    → 0 < nfds
    → vcom_select vcom c nfds w timeout ≡ some r
    → r.rv ≡ ret (suc n)
    → IsReady nfds w r.sets (suc n)
vcom_select-IsReady vcom c nfds w timeout r n work some_fd e q =
    subst (Right nfds w) e (vcom_select-Right vcom c nfds w timeout work some_fd) n q
