-- ===== src/Preload/Internal/Reports.antt =====
-- What pselect of vcl-ldpreload/src/libvcl-ldpreload/vcom.c reports.
use vppsb.Common.{
  ℕ, ◌^◌, ◌<◌, ◌≡◌, refl, ap, Bool, true, false, Option, ◌||◌, not, ◌==◌, ltb, leb, if◌then◌else◌,
  arith,
}
use vppsb.Vcom.{Rv, ret, err, einval}
use vppsb.Vcom.Select.{Sets, span, counted}
use vppsb.Preload.Time.{Timespec}
use vppsb.Preload.Sets.{vcom_fd_clear, vcom_fd_set}
use vppsb.Preload.Sets.Restored.{Restores, Clears, vcom_fd_clear-Clears, vcom_fd_set-Restores}
use vppsb.Preload.Internal.{put_back, asked_libc, screened, pselect, timespec_valid}

-- From what the C library answers: an error with the sets as they were, else the count of the sets,
-- which have VPP's descriptors again.
abbrev pub Reports : (ℕ → Bool) → ℕ → Sets → Rv × Sets → Rv × Sets → Type 0
Reports vcom nfds w (err e, s) r = r ≡ (err e, w)
Reports vcom nfds w (ret n, s) r =
    (r.0 ≡ ret (counted r.1 (span 0 nfds))) × Restores vcom (λ x. ltb x nfds) w s r.1

put_back-Reports :
    (vcom : ℕ → Bool) (nfds : ℕ) (w : Sets) (a : Rv × Sets)
    → Reports vcom nfds w a (put_back vcom nfds w a)
unfolding put_back vcom_fd_set
put_back-Reports vcom nfds w (err e, s) = refl
put_back-Reports vcom nfds w (ret n, s) =
    (ap ret (vcom_fd_set-Restores vcom nfds w s).1, (vcom_fd_set-Restores vcom nfds w s).0)

asked_libc-Reports :
    (vcom : ℕ → Bool) (nfds : ℕ) (w : Sets) (libc : ℕ → Sets → Rv × Sets) (c : Sets × (ℕ × ℕ))
    → Reports vcom nfds w
        (if c.1.0 == 0 then (ret 0, c.0) else libc c.1.0 c.0)
        (asked_libc vcom nfds w libc c)
unfolding asked_libc
asked_libc-Reports vcom nfds w libc c =
    put_back-Reports vcom nfds w (if c.1.0 == 0 then (ret 0, c.0) else libc c.1.0 c.0)

not_past : (n : ℕ) → n < 2 ^ 31 → leb (2 ^ 31) n ≡ false
not_past n h = ground arith

-- A pselect with a valid timeout and number asks the C library for what is not VPP's, if there is
-- such a descriptor: an error leaves the sets as they were, and otherwise VPP's descriptors are set
-- in the read and write sets again, ready or not, and all are counted.
pub pselect-Reports :
    (vcom : ℕ → Bool) (nfds : ℕ) (w : Sets) (timeout : Option Timespec)
    (libc : ℕ → Sets → Rv × Sets)
    → nfds < 2 ^ 31
    → timespec_valid timeout ≡ true
    → (c : Sets × (ℕ × ℕ)) × Clears vcom nfds w c
      × Reports vcom nfds w
          (if c.1.0 == 0 then (ret 0, c.0) else libc c.1.0 c.0)
          (pselect vcom nfds w timeout libc)
unfolding pselect screened
pselect-Reports vcom nfds w timeout libc small valid = (
  vcom_fd_clear vcom nfds w,
  vcom_fd_clear-Clears vcom nfds w,
  rw (not_past nfds small, valid) (asked_libc-Reports vcom nfds w libc (vcom_fd_clear vcom nfds w)),
)

pselect_invalid :
    (vcom : ℕ → Bool) (nfds : ℕ) (w : Sets) (timeout : Option Timespec)
    (libc : ℕ → Sets → Rv × Sets)
    → (leb (2 ^ 31) nfds || not (timespec_valid timeout)) ≡ true
    → pselect vcom nfds w timeout libc ≡ (err einval, w)
unfolding pselect screened
pselect_invalid vcom nfds w timeout libc h = ground (arith, h)
