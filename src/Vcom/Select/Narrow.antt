-- ===== src/Vcom/Select/Narrow.antt =====
-- select of vcl-ldpreload/src/libvcl-ldpreload/vcom_socket.c takes descriptors out of the sets and adds
-- none.
use vppsb.Common.{
  Option, ℕ, zero, suc, ◌^◌, ◌≡◌, refl, Bool, true, false, ◌&&◌, ◌||◌, none, some, List, [], ◌∷◌,
  ◌==◌, leb, if◌then◌else◌, arith, Bool-cases, inl, inr, ◌⊎◌, no_index, sym,
}
use mathlib.Core.Path.{subst}
use vppsb.Pool.{PoolLib}
use vppsb.Vcom.{Rv, ret, err, einval, Main, get_sid}
use vppsb.Vcom.Select.{
  FdSet, Sets, SidSets, span, kept, cleared, readied, answered, asked, fds_2_sid_fds, wait_for,
  select,
}

-- The sets `s` have no more than `w`.
abbrev pub Within : Sets → Sets → Type 0
Within s w =
    ((x : ℕ) → s.rd x ≡ true → w.rd x ≡ true)
    × ((x : ℕ) → s.wr x ≡ true → w.wr x ≡ true)
    × ((x : ℕ) → s.ex x ≡ true → w.ex x ≡ true)

kept_below :
    (f s : FdSet) (fd sid x : ℕ) → (if f fd then kept fd sid s f else f) x ≡ true → f x ≡ true
kept_below f s fd sid x h = ground (arith, h)

cleared-Within :
    (sid : ℕ → ℕ) (s : Sets) (fds : List ℕ) (w : Sets) → Within (cleared sid s fds w).1 w
unfolding cleared
cleared-Within sid s [] w = (λ x h. h, λ x h. h, λ x h. h)
cleared-Within sid s (fd ∷ fds) w =
    go ((w.rd fd || w.wr fd || w.ex fd) && sid fd == no_index) (cleared sid s fds next)
      (Bool-cases ((w.rd fd || w.wr fd || w.ex fd) && sid fd == no_index))
      (cleared-Within sid s fds next)
  where
    next : Sets
    next = record {
      rd = if w.rd fd then kept fd (sid fd) s.rd w.rd else w.rd;
      wr = if w.wr fd then kept fd (sid fd) s.wr w.wr else w.wr;
      ex = if w.ex fd then kept fd (sid fd) s.ex w.ex else w.ex;
    }

    go :
        (b : Bool) (r : Bool × Sets)
        → (b ≡ true) ⊎ (b ≡ false)
        → Within r.1 next
        → Within (if b then (false, w) else r).1 w
    go b r (inl e) h = rw e (λ x m. m, λ x m. m, λ x m. m)
    go b r (inr e) h = rw e (
      λ x m. kept_below w.rd s.rd fd (sid fd) x (h.0 x m),
      λ x m. kept_below w.wr s.wr fd (sid fd) x (h.1 x m),
      λ x m. kept_below w.ex s.ex fd (sid fd) x (h.2 x m),
    )

readied-sets : (nfds : ℕ) (r : Bool × Sets) → (readied nfds r).1 ≡ r.1
readied-sets nfds (false, w) = refl
readied-sets nfds (true, w) = refl

answered-Within :
    (sid : ℕ → ℕ) (nfds : ℕ) (w : Sets) (a : Rv × Sets) → Within (answered sid nfds w a).1 w
unfolding answered
answered-Within sid nfds w (err n, s) = (λ x h. h, λ x h. h, λ x h. h)
answered-Within sid nfds w (ret zero, s) = (λ x h. h, λ x h. h, λ x h. h)
answered-Within sid nfds w (ret (suc n), s) =
    subst (λ t. Within t w) (sym (readied-sets nfds (cleared sid s (span 0 nfds) w)))
      (cleared-Within sid s (span 0 nfds) w)

asked-Within :
    (sid : ℕ → ℕ) (nfds : ℕ) (w : Sets) (vppcom : SidSets → Rv × Sets) (o : Option SidSets)
    → Within (asked sid nfds w vppcom o).1 w
unfolding asked
asked-Within sid nfds w vppcom none = (λ x h. h, λ x h. h, λ x h. h)
asked-Within sid nfds w vppcom (some a) = answered-Within sid nfds w (vppcom a)

-- With one of the sets not NULL it returns, and whatever vppcom answers the sets lose descriptors only.
pub select-Within :
    (lib : PoolLib) (m : Main lib) (nfds : ℕ) (w : Sets) (timeout : Option (ℕ × ℕ))
    (vppcom : Option ℕ → SidSets → Rv × Sets)
    → (r : Rv × Sets) × (select lib m true nfds w timeout vppcom ≡ some r) × Within r.1 w
unfolding select
select-Within lib m nfds w timeout vppcom = go (Bool-cases (leb (2 ^ 31) nfds))
  where
    go :
        (leb (2 ^ 31) nfds ≡ true) ⊎ (leb (2 ^ 31) nfds ≡ false)
        → (r : Rv × Sets) × (select lib m true nfds w timeout vppcom ≡ some r) × Within r.1 w
    go (inl e) = ((err einval, w), rw e refl, (λ x h. h, λ x h. h, λ x h. h))
    go (inr e) = (
      asked (get_sid lib m) nfds w (vppcom (wait_for timeout))
          (fds_2_sid_fds (get_sid lib m) nfds w),
      rw e refl,
      asked-Within (get_sid lib m) nfds w (vppcom (wait_for timeout))
          (fds_2_sid_fds (get_sid lib m) nfds w),
    )
