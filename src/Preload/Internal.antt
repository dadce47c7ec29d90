-- ===== src/Preload/Internal.antt =====
-- pselect of vcl-ldpreload/src/libvcl-ldpreload/vcom.c, and vcom_select_internal, which has the same
-- body: the descriptors of VPP are taken out of the sets for the C library and put back. The sets have
-- no size here: the code's hold FD_SETSIZE descriptors, and a greater number, for which it would write
-- beyond them, is not modelled.
pub mod Reports
use vppsb.Common.{
  List, [], ◌∷◌, ◌+◌, ◌&&◌, ℕ, ◌^◌, Bool, true, false, ◌||◌, Option, none, some, not, ◌==◌, leb,
  if◌then◌else◌,
}
use vppsb.Vcom.{Rv, ret, err, einval}
use vppsb.Vcom.Select.{Sets, fd_clr, span, one_if}
use vppsb.Preload.Int.{pos, ltb_ℤ}
use vppsb.Preload.Time.{Timespec, Timeval, vcom_timerisvalid}
use vppsb.Preload.Sets.{vcom_fd_clear, vcom_fd_set}

abbrev pub counted_sets : Sets × (ℕ × ℕ) → Rv × Sets
counted_sets (w, (nfds, nfd)) = (ret nfd, w)

-- What the C library answers, with the sets that it leaves: on an error the saved sets are back.
unfoldable pub put_back : (ℕ → Bool) → ℕ → Sets → Rv × Sets → Rv × Sets
unfolding vcom_fd_set
put_back vcom nfds saved (err e, s) = (err e, saved)
put_back vcom nfds saved (ret n, s) = counted_sets (vcom_fd_set vcom nfds saved s)

-- Without a descriptor of the C library it is not asked.
unfoldable pub asked_libc :
    (ℕ → Bool) → ℕ → Sets → (ℕ → Sets → Rv × Sets) → Sets × (ℕ × ℕ) → Rv × Sets
unfolding put_back
asked_libc vcom nfds saved libc (w, (new_nfds, nfd)) =
    put_back vcom nfds saved (if new_nfds == 0 then (ret 0, w) else libc new_nfds w)

-- `valid` is whether a timeout that is not NULL has no negative part; `nfds` is the 32 bits.
unfoldable pub screened : (ℕ → Bool) → Bool → ℕ → Sets → (ℕ → Sets → Rv × Sets) → Rv × Sets
unfolding asked_libc vcom_fd_clear
screened vcom valid nfds w libc =
    if leb (2 ^ 31) nfds
    then (err einval, w)
    else if valid
    then asked_libc vcom nfds w libc (vcom_fd_clear vcom nfds w)
    else (err einval, w)

abbrev pub timeval_valid : Option Timeval → Bool
timeval_valid none = true
timeval_valid (some tv) = vcom_timerisvalid tv

abbrev pub timespec_valid : Option Timespec → Bool
timespec_valid none = true
timespec_valid (some ts) = not (ltb_ℤ ts.tv_sec (pos 0) || ltb_ℤ ts.tv_nsec (pos 0))

-- `libc` is libc_select with the timeout.
unfoldable pub vcom_select_internal :
    (ℕ → Bool) → ℕ → Sets → Option Timeval → (ℕ → Sets → Rv × Sets) → Rv × Sets
unfolding screened
vcom_select_internal vcom nfds w timeout libc = screened vcom (timeval_valid timeout) nfds w libc

-- `libc` is libc_pselect with the timeout and the mask.
unfoldable pub pselect :
    (ℕ → Bool) → ℕ → Sets → Option Timespec → (ℕ → Sets → Rv × Sets) → Rv × Sets
unfolding screened
pselect vcom nfds w timeout libc = screened vcom (timespec_valid timeout) nfds w libc

-- The loop of vcom_pselect, which nothing calls: how often a descriptor of VPP is in the read and write
-- sets, and the sets without those of the except set.
abbrev counted_vcom : (ℕ → Bool) → List ℕ → ℕ × Sets → ℕ × Sets
counted_vcom vcom [] p = p
counted_vcom vcom (fd ∷ fds) (n, w) = counted_vcom vcom fds (
  n + one_if (w.rd fd && vcom fd) + one_if (w.wr fd && vcom fd),
  record w { ex = if w.ex fd && vcom fd then fd_clr fd w.ex else w.ex },
)

abbrev vcom_pselect : (ℕ → Bool) → ℕ → Sets → ℕ × Sets
vcom_pselect vcom nfds w = counted_vcom vcom (span 0 nfds) (0, w)
