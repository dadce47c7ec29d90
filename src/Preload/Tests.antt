-- ===== src/Preload/Tests.antt =====
-- The calls of vcl-ldpreload/src/libvcl-ldpreload/vcom.c at concrete inputs.
use vppsb.Common.{
  ℕ, ◌<◌, ◌≡◌, ◌≢◌, refl, sym, ap, inl, Bool, true, none, some, List, [], ◌∷◌, ◌==◌, if◌then◌else◌,
  arith,
}
use mathlib.Core.Path.{subst}
use vppsb.Pool.Slots.{slots}
use vppsb.Vcom.{Rv, ret, err, is_vcom_fd, check_socket, socket_checked}
use vppsb.Vcom.Poll.Vectors.{vectors}
use vppsb.Vcom.Open.{open_socket, socket, socket_made, session_made}
use vppsb.Vcom.Calls.{Reach}
use vppsb.Vcom.Select.{Sets, span, counted}
use vppsb.Preload.Int.{pos, ◌+ℤ◌, ◌-ℤ◌}
use vppsb.Preload.Time.{
  Timespec, Timeval, lowered, lifted, set_normalized_timespec, timespec_add, timespec_sub,
  timespec_compare, timeval_to_timespec,
}
use vppsb.Preload.Time.Laws.{total, IsNormal, timespec_sub-timespec_add}
use vppsb.Preload.Sets.{no_sets, split_each, vcom_fd_set_split, fd_rwe_sets_or, vcom_fd_set_merge}
use vppsb.Preload.Sets.Merged.{IsPart, vcom_fd_set_merge-vcom_fd_set_split}
use vppsb.Preload.Sets.Restored.{Clears}
use vppsb.Preload.Internal.{pselect}
use vppsb.Preload.Internal.Reports.{Reports, pselect-Reports}
use vppsb.Preload.Polling.{
  now, failed, Round, done, timed_out, Watch, turn, poll, World, Outcome, vcom_select, select_done,
  ended, ended?, polling, started, from_start, ends_at, iszero,
}
use vppsb.Vcom.Open.Accept.{Address}
use vppsb.Preload.Sets.Parts.{any}
use vppsb.Preload.Polling.Rounds.{Sub}
use vppsb.Preload.Polling.Ready.{IsReady}
use vppsb.Preload.Polling.Counts.{vcom_select-IsReady}
use vppsb.Preload.Polling.Timeouts.{Shows, IsOver, EndFits, poll-IsOver}
use vppsb.Preload.Polling.Returns.{vcom_select-ne-none}
use vppsb.Preload.Polling.Blind.{counted-IsEmpty, poll-reports_none}
use vppsb.Preload.Entry.{
  gives, fails, posted, Program, loaded, vcom_init, called, vcom_socket, socket_call,
}
use vppsb.Preload.Entry.Plain.{plain, waiting}
use vppsb.Preload.Entry.Addresses.{connect_call}
use vppsb.Preload.Entry.Runs.{Runs, start, made}
use vppsb.Preload.Entry.Exact.{IsExact, Runs-IsExact}
use vppsb.Preload.Entry.Errors.{connect_call-fails}
use vppsb.Preload.Entry.Live.{calls_answered}

abbrev closes : ℕ → Rv
closes fd = ret 0

-- Descriptor 5 is VPP's, 3 is the kernel's; both are watched for reading.
abbrev vcom : ℕ → Bool
vcom fd = fd == 5

abbrev both : Sets
both = record no_sets { rd = λ x. if x == 3 then true else x == 5 }

abbrev at : ℕ → ℕ → Timespec
at sec nsec = record { tv_sec = pos sec; tv_nsec = pos nsec }

at-IsNormal : (sec : ℕ) → IsNormal (at sec 0)
at-IsNormal sec = ground arith

abbrev one_second : Timeval
one_second = record { tv_sec = pos 1; tv_usec = pos 0 }

-- All that is asked for is ready.
abbrev all_ready : Round
all_ready = record { vcom = λ n s. (ret 1, s); libc = λ n s. (ret 1, s); clock = now (at 0 0) }

-- Nothing is ready, two seconds later.
abbrev none_ready : Round
none_ready = record {
  vcom = λ n s. (ret 0, no_sets);
  libc = λ n s. (ret 0, no_sets);
  clock = now (at 2 0);
}

abbrev world : List Round → World
world rs = record {
  start_time = now (at 0 0);
  inits = true;
  sleep = λ s tv. (ret 0, s, tv);
  rounds = rs;
  end_clock = now (at 2 0);
}

vcom_fd_set_merge-vcom_fd_set_split_example :
    IsPart
      (λ x. true)
      6
      both
      (vcom_fd_set_merge no_sets
        (vcom_fd_set_split vcom 6 both).0.nfds
        (vcom_fd_set_split vcom 6 both).0.sets
        (vcom_fd_set_split vcom 6 both).1.nfds
        (vcom_fd_set_split vcom 6 both).1.sets)
vcom_fd_set_merge-vcom_fd_set_split_example = vcom_fd_set_merge-vcom_fd_set_split vcom 6 both

-- What the program has after both are ready.
abbrev both_ready : Outcome
both_ready = record {
  rv = ret 2;
  sets =
      (vcom_fd_set_merge no_sets (vcom_fd_set_split vcom 6 both).0.nfds
        (vcom_fd_set_split vcom 6 both).0.sets (vcom_fd_set_split vcom 6 both).1.nfds
        (vcom_fd_set_split vcom 6 both).1.sets).sets;
  timeout = none;
}

two_ready : vcom_select vcom (world (all_ready ∷ [])) 6 both none ≡ some both_ready
unfolding vcom_select from_start started polling poll turn ended? ended select_done
    vcom_fd_set_split split_each vcom_fd_set_merge fd_rwe_sets_or iszero ends_at
two_ready = refl

keeps_all :
    (n : ℕ) (s : Sets)
    → ((x : ℕ) → s.rd x ≡ true → s.rd x ≡ true)
      × ((x : ℕ) → s.wr x ≡ true → s.wr x ≡ true)
      × ((x : ℕ) → s.ex x ≡ true → s.ex x ≡ true)
keeps_all n s = (λ x h. h, λ x h. h, λ x h. h)

vcom_select-IsReady_example : IsReady 6 both both_ready.sets 2
vcom_select-IsReady_example =
    vcom_select-IsReady vcom (world (all_ready ∷ [])) 6 both none both_ready 1
      (keeps_all, λ n s. (keeps_all n s, (1, refl)), tt) (omega arith) two_ready refl

over : IsOver (at 0 0) one_second (at 2 0)
unfolding total timeval_to_timespec ◌+ℤ◌
over = omega arith

now_at : (t : Timespec) → now (at 0 0) ≡ now t → IsOver t one_second (at 2 0)
now_at t e = subst (λ c. IsOver (elim c [ now s ↦ s | failed i ↦ t ]) one_second (at 2 0)) e over

vcom_select-ne-none_example :
    vcom_select vcom (world (none_ready ∷ [])) 6 both (some one_second) ≢ none
vcom_select-ne-none_example =
    vcom_select-ne-none vcom (world (none_ready ∷ [])) 6 both one_second (at 2 0) (at-IsNormal 0)
      (at-IsNormal 2, tt) (inl refl) now_at

-- The loop over the two descriptors with a timeout of a second.
abbrev second_watch : Watch
second_watch = record {
  vcom_nfds = 6;
  libc_nfds = 4;
  sets = both;
  end_time = ends_at (at 0 0) (some one_second);
}

poll_second : poll second_watch (none_ready ∷ []) both both ≡ some timed_out
unfolding poll turn ends_at timespec_add set_normalized_timespec lowered lifted timeval_to_timespec
    timespec_compare ◌+ℤ◌ ◌-ℤ◌
poll_second = refl

poll-IsOver_example :
    EndFits second_watch.end_time
    × ((t : Timespec) × Shows t (none_ready ∷ []) × IsOver (at 0 0) one_second t)
poll-IsOver_example =
    poll-IsOver (at 0 0) one_second second_watch (none_ready ∷ []) both both (at-IsNormal 0)
      (ground arith) refl (at-IsNormal 2, tt) poll_second

-- Only the kernel's descriptor, for ever.
abbrev kernel_watch : Watch
kernel_watch = record { vcom_nfds = 0; libc_nfds = 4; sets = both; end_time = none }

abbrev third : Sets
third = record no_sets { rd = λ x. x == 3 }

third_below : (x : ℕ) → any third x ≡ true → x < 4
third_below x m = ground (arith, m)

finds_none : (n : ℕ) (s : Sets) → Sub no_sets s × (ret 0 ≡ ret (counted no_sets (span 0 n)))
finds_none n s = (
  (λ x h. ground (arith, h), λ x h. ground (arith, h), λ x h. ground (arith, h)),
  ap ret (sym (counted-IsEmpty no_sets (span 0 n) (λ x. refl))),
)

poll-reports_none_example :
    poll kernel_watch (none_ready ∷ none_ready ∷ []) no_sets third ≢ some (done (ret 1) third)
poll-reports_none_example =
    poll-reports_none kernel_watch none_ready (none_ready ∷ []) no_sets third 1 third refl
      third_below (finds_none, (finds_none, tt)) refl

pselect-Reports_example :
    (c : Sets × (ℕ × ℕ)) × Clears vcom 6 both c
    × Reports vcom 6 both
        (if c.1.0 == 0 then (ret 0, c.0) else (ret 0, no_sets))
        (pselect vcom 6 both none (λ n s. (ret 0, no_sets)))
pselect-Reports_example =
    pselect-Reports vcom 6 both none (λ n s. (ret 0, no_sets)) (omega arith) refl

timespec_sub-timespec_add_example :
    (timespec_sub (timespec_add (at 3 0) (at 1 700000000)) (at 1 700000000) ≡ at 3 0)
    × (timespec_add (timespec_sub (at 3 0) (at 1 700000000)) (at 1 700000000) ≡ at 3 0)
timespec_sub-timespec_add_example =
    timespec_sub-timespec_add (at 3 0) (at 1 700000000) (at-IsNormal 3)

-- A program that has opened socket 5.
abbrev fresh_program : Program slots vectors closes
fresh_program = loaded slots vectors closes

abbrev with_socket : Program slots vectors closes
with_socket =
    (socket_call slots vectors closes true 2 1 (ret 5) (λ udp nonblocking. ret 7) (gives 9)
      fresh_program).0

with_socket-Runs : Runs slots vectors closes with_socket
with_socket-Runs = made true 2 1 (ret 5) (λ udp nonblocking. ret 7) (gives 9) start

is_vcom_fd-with_socket : is_vcom_fd slots with_socket.main 5 ≡ true
unfolding socket_call vcom_socket called vcom_init open_socket socket socket_made session_made
    is_vcom_fd check_socket socket_checked
is_vcom_fd-with_socket = refl

Runs-IsExact_example :
    Reach slots vectors closes with_socket.main × IsExact slots vectors closes with_socket
Runs-IsExact_example = Runs-IsExact slots vectors closes with_socket with_socket-Runs

calls_answered_example :
    (plain slots vectors closes posted true 5 (λ m. err 11) (gives 9) with_socket
      ≡ (with_socket, fails 11))
    × (waiting slots vectors closes true 5 (λ m. some (ret 4)) (gives 9) with_socket
        ≡ some (with_socket, gives 4))
calls_answered_example =
    calls_answered slots vectors closes with_socket true 5 (gives 9) posted (λ m. err 11)
      (λ m. some (ret 4)) with_socket-Runs is_vcom_fd-with_socket

-- The address ::1.
abbrev loopback : Address
loopback = record {
  family = 10;
  port = 80;
  ip = 0 ∷ 0 ∷ 0 ∷ 0 ∷ 0 ∷ 0 ∷ 0 ∷ 0 ∷ 0 ∷ 0 ∷ 0 ∷ 0 ∷ 0 ∷ 0 ∷ 0 ∷ 1 ∷ [];
  length = 28;
}

connect_call-fails_example :
    (connect_call slots vectors closes true 5 loopback 28 (λ t. ret 0) (gives 9) with_socket).1
    ≡ fails 1
connect_call-fails_example =
    connect_call-fails slots vectors closes true 5 loopback (λ t. ret 0) (gives 9) with_socket refl
      is_vcom_fd-with_socket
