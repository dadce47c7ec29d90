-- ===== src/Preload/Sets.antt =====
-- The descriptor sets of vcl-ldpreload/src/libvcl-ldpreload/vcom.c: which descriptors of the three
-- sets of a select are VPP's.
-- A set that is NULL has nothing in it: its copies are NULL, or empty, as well. `vcom` is
-- is_vcom_socket_fd. The largest descriptor is kept with one added, which is 0 for the code's -1.
pub mod Parts
pub mod Merged
pub mod Restored
use vppsb.Common.{
  ℕ, zero, suc, ◌+◌, Bool, true, false, ◌&&◌, ◌||◌, not, List, [], ◌∷◌, ◌==◌, ltb, if◌then◌else◌,
}
use vppsb.Vcom.Select.{FdSet, Sets, fd_set, fd_clr, span, raised}

-- Three sets, with the largest descriptor and how often one was added.
pub record Part : Type 0 where
  pub sets : Sets
  pub nfds : ℕ
  pub nfd : ℕ

abbrev pub no_sets : Sets
no_sets = record { rd = λ i. false; wr = λ i. false; ex = λ i. false }

-- FD_ZERO of the three sets, and the counts' first values.
abbrev pub no_part : Part
no_part = record { sets = no_sets; nfds = 0; nfd = 0 }

abbrev pub with_rd : ℕ → Part → Part
with_rd fd p = record {
  sets = record p.sets { rd = fd_set fd p.sets.rd };
  nfds = raised fd p.nfds;
  nfd = p.nfd + 1;
}

abbrev pub with_wr : ℕ → Part → Part
with_wr fd p = record {
  sets = record p.sets { wr = fd_set fd p.sets.wr };
  nfds = raised fd p.nfds;
  nfd = p.nfd + 1;
}

abbrev pub with_ex : ℕ → Part → Part
with_ex fd p = record {
  sets = record p.sets { ex = fd_set fd p.sets.ex };
  nfds = raised fd p.nfds;
  nfd = p.nfd + 1;
}

-- A descriptor of the set goes to the first part if it is VPP's, else to the second.
abbrev pub dealt : (Part → Part) → Bool → Bool → Part × Part → Part × Part
dealt f false vcom p = p
dealt f true true (v, l) = (f v, l)
dealt f true false (v, l) = (v, f l)

unfoldable pub split_each : (ℕ → Bool) → Sets → List ℕ → Part × Part → Part × Part
split_each vcom w [] p = p
split_each vcom w (fd ∷ fds) p = split_each vcom w fds (
    dealt (with_ex fd) (w.ex fd) (vcom fd)
      (dealt (with_wr fd) (w.wr fd) (vcom fd) (dealt (with_rd fd) (w.rd fd) (vcom fd) p)))

-- Of the descriptors below `nfds`, into empty sets.
unfoldable pub vcom_fd_set_split : (ℕ → Bool) → ℕ → Sets → Part × Part
unfolding split_each
vcom_fd_set_split vcom nfds w = split_each vcom w (span 0 nfds) (no_part, no_part)

-- FD_BIT_OR of one descriptor.
abbrev pub or_bit : (Part → Part) → Bool → Part → Part
or_bit f false p = p
or_bit f true p = f p

-- FD_RWE_SETS_OR
unfoldable pub fd_rwe_sets_or : Sets → List ℕ → Part → Part
fd_rwe_sets_or s [] p = p
fd_rwe_sets_or s (fd ∷ fds) p = fd_rwe_sets_or s fds (
    or_bit (with_ex fd) (s.ex fd) (or_bit (with_wr fd) (s.wr fd) (or_bit (with_rd fd) (s.rd fd) p)))

-- Into the sets `w`, from the sets of VPP and those of the C library, each below its number.
unfoldable pub vcom_fd_set_merge : Sets → ℕ → Sets → ℕ → Sets → Part
unfolding fd_rwe_sets_or
vcom_fd_set_merge w vcom_nfds v libc_nfds l =
    fd_rwe_sets_or l (span 0 libc_nfds)
      (fd_rwe_sets_or v (span 0 vcom_nfds) (record { sets = w; nfds = 0; nfd = 0 }))

-- The loop that vcom_fd_clear and vcom_fd_set end with.
abbrev pub seen : Bool → ℕ → ℕ × ℕ → ℕ × ℕ
seen false fd p = p
seen true fd (nfds, nfd) = (raised fd nfds, nfd + 1)

unfoldable pub measured : Sets → List ℕ → ℕ × ℕ → ℕ × ℕ
measured w [] p = p
measured w (fd ∷ fds) p =
    measured w fds (seen (w.ex fd) fd (seen (w.wr fd) fd (seen (w.rd fd) fd p)))

unfoldable pub without_vcom : (ℕ → Bool) → List ℕ → Sets → Sets
without_vcom vcom [] w = w
without_vcom vcom (fd ∷ fds) w = without_vcom vcom fds (record {
  rd = if w.rd fd && vcom fd then fd_clr fd w.rd else w.rd;
  wr = if w.wr fd && vcom fd then fd_clr fd w.wr else w.wr;
  ex = if w.ex fd && vcom fd then fd_clr fd w.ex else w.ex;
})

-- The except set is not set again.
unfoldable pub with_vcom : (ℕ → Bool) → Sets → List ℕ → Sets → Sets
with_vcom vcom saved [] w = w
with_vcom vcom saved (fd ∷ fds) w = with_vcom vcom saved fds (record {
  rd = if saved.rd fd && vcom fd then fd_set fd w.rd else w.rd;
  wr = if saved.wr fd && vcom fd then fd_set fd w.wr else w.wr;
  ex = w.ex;
})

unfoldable pub vcom_fd_clear : (ℕ → Bool) → ℕ → Sets → Sets × (ℕ × ℕ)
unfolding measured without_vcom
vcom_fd_clear vcom nfds w = (
  without_vcom vcom (span 0 nfds) w,
  measured (without_vcom vcom (span 0 nfds) w) (span 0 nfds) (0, 0),
)

-- The sets `w` and what was saved of them.
unfoldable pub vcom_fd_set : (ℕ → Bool) → ℕ → Sets → Sets → Sets × (ℕ × ℕ)
unfolding measured with_vcom
vcom_fd_set vcom nfds saved w = (
  with_vcom vcom saved (span 0 nfds) w,
  measured (with_vcom vcom saved (span 0 nfds) w) (span 0 nfds) (0, 0),
)

-- fd_set_iszero, over the descriptors below FD_SETSIZE.
abbrev pub empty_below : FdSet → List ℕ → Bool
empty_below s [] = true
empty_below s (fd ∷ fds) = not (s fd) && empty_below s fds

unfoldable pub fd_set_iszero : FdSet → Bool
fd_set_iszero s = empty_below s (span 0 1024)
