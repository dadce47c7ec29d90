-- ===== src/Preload/Time/Laws.antt =====
-- set_normalized_timespec and what is built on it: times of
-- vcl-ldpreload/src/libvcl-ldpreload/vcom.c as a number of nanoseconds.
use vppsb.Common.{ℕ, zero, suc, ◌+◌, ◌*◌, ◌≤◌, ◌<◌, ◌≡◌, ap, ◌∙◌, inl, inr, arith, Bool-cases}
use vppsb.Preload.Int.{
  ℤ, pos, pos_part, neg_part, sub_ℕ, ◌+ℤ◌, ◌-ℤ◌, ◌≤ℤ◌, ltb_ℤ, +ℤ_parts, -ℤ_parts, eq_of_parts,
  int_laws,
}
use vppsb.Preload.Time.{
  Timespec, Timeval, lowered, lifted, turns, set_normalized_timespec, timespec_add, timespec_sub,
  timespec_compare, timeval_to_timespec, timespec_to_timeval,
}

-- The nanoseconds of a time.
unfoldable pub total : Timespec → ℤ
total t =
    sub_ℕ (pos_part t.tv_sec * 1000000000 + pos_part t.tv_nsec)
      (neg_part t.tv_sec * 1000000000 + neg_part t.tv_nsec)

abbrev pub IsNormal : Timespec → Type 0
IsNormal t = (pos 0 ≤ℤ t.tv_nsec) × (pos_part t.tv_nsec < 1000000000)

-- The two times have as many nanoseconds, said without a subtraction.
abbrev Same : Timespec → Timespec → Type 0
Same s t =
    pos_part s.tv_sec * 1000000000
      + pos_part s.tv_nsec
      + (neg_part t.tv_sec * 1000000000 + neg_part t.tv_nsec)
    ≡ pos_part t.tv_sec * 1000000000
      + pos_part t.tv_nsec
      + (neg_part s.tv_sec * 1000000000 + neg_part s.tv_nsec)

pub total_parts :
    (t : Timespec)
    → pos_part (total t) + (neg_part t.tv_sec * 1000000000 + neg_part t.tv_nsec)
      ≡ neg_part (total t) + (pos_part t.tv_sec * 1000000000 + pos_part t.tv_nsec)
unfolding total
total_parts t = ground arith

Same-total : (s t : Timespec) → Same s t → total s ≡ total t
unfolding total
Same-total s t h = ground arith

abbrev time : ℤ → ℤ → Timespec
time sec nsec = record { tv_sec = sec; tv_nsec = nsec }

lowered_lem :
    (fuel : ℕ) (sec nsec : ℤ)
    → pos_part nsec < fuel * 1000000000
    → (pos_part (lowered fuel sec nsec).tv_nsec < 1000000000)
      × (neg_part (lowered fuel sec nsec).tv_nsec ≤ neg_part nsec)
      × Same (lowered fuel sec nsec) (time sec nsec)
unfolding lowered
lowered_lem zero sec nsec h = elim h [ ]
lowered_lem (suc fuel) sec nsec h = elim (Bool-cases (ltb_ℤ nsec (pos 1000000000))) [
  | inl e ↦ rw e (ground arith)
  | inr e ↦ rw e (
      ground (
        arith,
        +ℤ_parts sec (pos 1),
        -ℤ_parts nsec (pos 1000000000),
        lowered_lem fuel (sec +ℤ pos 1) (nsec -ℤ pos 1000000000),
      ))
]

lifted_lem :
    (fuel : ℕ) (sec nsec : ℤ)
    → pos_part nsec < 1000000000
    → neg_part nsec + 1000000000 ≤ fuel * 1000000000
    → IsNormal (lifted fuel sec nsec) × Same (lifted fuel sec nsec) (time sec nsec)
unfolding lifted
lifted_lem zero sec nsec b h = absurd (omega arith)
lifted_lem (suc fuel) sec nsec b h = elim (Bool-cases (ltb_ℤ nsec (pos 0))) [
  | inl e ↦ rw e (
      ground (
        arith,
        -ℤ_parts sec (pos 1),
        +ℤ_parts nsec (pos 1000000000),
        lifted_lem fuel (sec -ℤ pos 1) (nsec +ℤ pos 1000000000),
      ))
  | inr e ↦ rw e (ground arith)
]

enough_turns : (nsec : ℤ) → pos_part nsec + neg_part nsec + 1000000000 ≤ turns nsec * 1000000000
enough_turns nsec = omega arith

normalized_lem :
    (sec nsec : ℤ)
    → IsNormal (set_normalized_timespec sec nsec)
      × Same (set_normalized_timespec sec nsec) (time sec nsec)
unfolding set_normalized_timespec
normalized_lem sec nsec =
    go (lowered (turns nsec) sec nsec)
      (lowered_lem (turns nsec) sec nsec (omega (arith, enough_turns nsec)))
  where
    go :
        (low : Timespec)
        → (pos_part low.tv_nsec < 1000000000)
          × (neg_part low.tv_nsec ≤ neg_part nsec)
          × Same low (time sec nsec)
        → IsNormal (lifted (turns nsec) low.tv_sec low.tv_nsec)
          × Same (lifted (turns nsec) low.tv_sec low.tv_nsec) (time sec nsec)
    go low (b, le, same) =
        ground (arith, enough_turns nsec, lifted_lem (turns nsec) low.tv_sec low.tv_nsec)

-- set_normalized_timespec ends with nanoseconds from 0 to 999999999 and keeps the number of
-- nanoseconds, whatever the sign of what it is given.
pub set_normalized_timespec-IsNormal :
    (sec nsec : ℤ)
    → IsNormal (set_normalized_timespec sec nsec)
      × (total (set_normalized_timespec sec nsec) ≡ total (record { tv_sec = sec; tv_nsec = nsec }))
set_normalized_timespec-IsNormal sec nsec = (
  (normalized_lem sec nsec).0,
  Same-total (set_normalized_timespec sec nsec) (time sec nsec) (normalized_lem sec nsec).1,
)

-- A normalised time is known by its number of nanoseconds.
total_injective : (s t : Timespec) → IsNormal s → IsNormal t → total s ≡ total t → s ≡ t
total_injective s t m n e = ground (
  arith,
  total_parts s,
  total_parts t,
  ap pos_part e,
  ap neg_part e,
  eq_of_parts s.tv_sec t.tv_sec,
  eq_of_parts s.tv_nsec t.tv_nsec,
)

pub add-total : (s t : Timespec) → total (timespec_add s t) ≡ total s +ℤ total t
unfolding timespec_add
add-total s t = eq_of_parts (total (timespec_add s t)) (total s +ℤ total t) (
    omega (
      arith,
      (normalized_lem (s.tv_sec +ℤ t.tv_sec) (s.tv_nsec +ℤ t.tv_nsec)).1,
      total_parts (timespec_add s t),
      total_parts s,
      total_parts t,
      +ℤ_parts (total s) (total t),
      +ℤ_parts s.tv_sec t.tv_sec,
      +ℤ_parts s.tv_nsec t.tv_nsec,
    ))

sub-total : (s t : Timespec) → total (timespec_sub s t) ≡ total s -ℤ total t
unfolding timespec_sub
sub-total s t = eq_of_parts (total (timespec_sub s t)) (total s -ℤ total t) (
    omega (
      arith,
      (normalized_lem (s.tv_sec -ℤ t.tv_sec) (s.tv_nsec -ℤ t.tv_nsec)).1,
      total_parts (timespec_sub s t),
      total_parts s,
      total_parts t,
      -ℤ_parts (total s) (total t),
      -ℤ_parts s.tv_sec t.tv_sec,
      -ℤ_parts s.tv_nsec t.tv_nsec,
    ))

-- What timespec_compare says of two normalised times is the order of their numbers of nanoseconds.
pub timespec_compare-total :
    (s t : Timespec)
    → IsNormal s
    → IsNormal t
    → (ltb_ℤ (timespec_compare s t) (pos 0) ≡ ltb_ℤ (total s) (total t))
      × (ltb_ℤ (pos 0) (timespec_compare s t) ≡ ltb_ℤ (total t) (total s))
unfolding timespec_compare
timespec_compare-total s t m n =
    ground (arith, total_parts s, total_parts t, -ℤ_parts s.tv_nsec t.tv_nsec)

pub add-IsNormal : (s t : Timespec) → IsNormal (timespec_add s t)
unfolding timespec_add
add-IsNormal s t = (normalized_lem (s.tv_sec +ℤ t.tv_sec) (s.tv_nsec +ℤ t.tv_nsec)).0

sub-IsNormal : (s t : Timespec) → IsNormal (timespec_sub s t)
unfolding timespec_sub
sub-IsNormal s t = (normalized_lem (s.tv_sec -ℤ t.tv_sec) (s.tv_nsec -ℤ t.tv_nsec)).0

+ℤ_cancel : (a b : ℤ) → a +ℤ b -ℤ b ≡ a
+ℤ_cancel a b = omega int_laws

-ℤ_cancel : (a b : ℤ) → a -ℤ b +ℤ b ≡ a
-ℤ_cancel a b = omega int_laws

-- What is added to a normalised time and taken off again gives the time back, and so does what is
-- taken off and added.
pub timespec_sub-timespec_add :
    (s t : Timespec)
    → IsNormal s
    → (timespec_sub (timespec_add s t) t ≡ s) × (timespec_add (timespec_sub s t) t ≡ s)
timespec_sub-timespec_add s t n = (
  total_injective (timespec_sub (timespec_add s t) t) s (sub-IsNormal (timespec_add s t) t) n
      (rw (sub-total (timespec_add s t) t, add-total s t) (+ℤ_cancel (total s) (total t))),
  total_injective (timespec_add (timespec_sub s t) t) s (add-IsNormal (timespec_sub s t) t) n
      (rw (add-total (timespec_sub s t) t, sub-total s t) (-ℤ_cancel (total s) (total t))),
)

normalized-fixed :
    (sec nsec : ℤ) → IsNormal (time sec nsec) → set_normalized_timespec sec nsec ≡ time sec nsec
normalized-fixed sec nsec n =
    total_injective (set_normalized_timespec sec nsec) (time sec nsec) (normalized_lem sec nsec).0 n
      (set_normalized_timespec-IsNormal sec nsec).1

timeval_back :
    (tv : Timeval) → pos 0 ≤ℤ tv.tv_usec → timespec_to_timeval (timeval_to_timespec tv) ≡ tv
unfolding timespec_to_timeval timeval_to_timespec
timeval_back tv nonneg = ground arith

timeval-IsNormal :
    (tv : Timeval)
    → pos 0 ≤ℤ tv.tv_usec
    → pos_part tv.tv_usec < 1000000
    → IsNormal (timeval_to_timespec tv)
unfolding timeval_to_timespec
timeval-IsNormal tv nonneg less = ground arith

-- A timeout of whole microseconds, below a second of them, comes back from the normalised time
-- that it is turned into.
timespec_to_timeval-timeval_to_timespec :
    (tv : Timeval)
    → pos 0 ≤ℤ tv.tv_usec
    → pos_part tv.tv_usec < 1000000
    → (IsNormal (timeval_to_timespec tv))
      × (timespec_to_timeval (
            set_normalized_timespec
              (timeval_to_timespec tv).tv_sec
              (timeval_to_timespec tv).tv_nsec)
          ≡ tv)
timespec_to_timeval-timeval_to_timespec tv nonneg less = (
  timeval-IsNormal tv nonneg less,
  ap timespec_to_timeval (
        normalized-fixed (timeval_to_timespec tv).tv_sec (timeval_to_timespec tv).tv_nsec
          (timeval-IsNormal tv nonneg less))
      ∙ timeval_back tv nonneg,
)
