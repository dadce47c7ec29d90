-- ===== src/Preload/Sets/Restored.antt =====
-- vcom_fd_clear and vcom_fd_set of vcl-ldpreload/src/libvcl-ldpreload/vcom.c.
use vppsb.Common.{
  ℕ, ◌+◌, ◌≡◌, refl, ap, sym, ◌∙◌, ◌⊎◌, inl, inr, Bool, true, false, ◌&&◌, ◌||◌, not, List, [], ◌∷◌,
  ◌==◌, ltb, if◌then◌else◌, arith, Bool-cases, ==_iff,
}
use mathlib.Core.Path.{subst}
use vppsb.Pool.{has}
use vppsb.Vcom.Select.{FdSet, Sets, fd_set, fd_clr, span, raised, one_if, counted}
use vppsb.Preload.Sets.{seen, measured, without_vcom, with_vcom, vcom_fd_clear, vcom_fd_set}
use vppsb.Preload.Sets.Parts.{has-span, any, IsTop, raised-IsTop, same_fd}

seen-nfd : (b : Bool) (fd : ℕ) (p : ℕ × ℕ) → (seen b fd p).1 ≡ p.1 + one_if b
seen-nfd false fd p = omega arith
seen-nfd true fd p = omega arith

seen-nfds : (b : Bool) (fd : ℕ) (p : ℕ × ℕ) → (seen b fd p).0 ≡ (if b then raised fd p.0 else p.0)
seen-nfds false fd p = refl
seen-nfds true fd p = refl

-- One descriptor of the loop.
abbrev seen_all : Sets → ℕ → ℕ × ℕ → ℕ × ℕ
seen_all w fd p = seen (w.ex fd) fd (seen (w.wr fd) fd (seen (w.rd fd) fd p))

seen_all-nfds :
    (w : Sets) (fd : ℕ) (p : ℕ × ℕ)
    → (seen_all w fd p).0 ≡ (if any w fd then raised fd p.0 else p.0)
seen_all-nfds w fd p =
    rw
      (
        seen-nfds (w.ex fd) fd (seen (w.wr fd) fd (seen (w.rd fd) fd p)),
        seen-nfds (w.wr fd) fd (seen (w.rd fd) fd p),
        seen-nfds (w.rd fd) fd p,
      )
      (ground arith)

measured-counted :
    (w : Sets) (fds : List ℕ) (p : ℕ × ℕ) → (measured w fds p).1 ≡ p.1 + counted w fds
unfolding measured
measured-counted w [] p = omega arith
measured-counted w (fd ∷ fds) p = omega (
  arith,
  measured-counted w fds (seen_all w fd p),
  seen-nfd (w.ex fd) fd (seen (w.wr fd) fd (seen (w.rd fd) fd p)),
  seen-nfd (w.wr fd) fd (seen (w.rd fd) fd p),
  seen-nfd (w.rd fd) fd p,
)

IsTop-ext : (n : ℕ) (c d : ℕ → Bool) → ((x : ℕ) → c x ≡ d x) → IsTop n c → IsTop n d
IsTop-ext n c d e (lt, top) = (
  λ x h. lt x (e x ∙ h),
  elim top [ inl none ↦ inl none | inr (x, last, h) ↦ inr (x, last, sym (e x) ∙ h) ],
)

measured-IsTop :
    (w : Sets) (fds : List ℕ) (p : ℕ × ℕ) (c : ℕ → Bool)
    → IsTop p.0 c
    → IsTop (measured w fds p).0 (λ x. c x || (any w x && has x fds))
unfolding measured
measured-IsTop w [] p c t = IsTop-ext p.0 c (λ x. c x || (any w x && false)) (λ x. ground arith) t
measured-IsTop w (fd ∷ fds) p c t =
    IsTop-ext (measured w fds (seen_all w fd p)).0
      (λ x. (c x || (any w x && fd == x)) || (any w x && has x fds))
      (λ x. c x || (any w x && (fd == x || has x fds))) (λ x. ground arith)
      (measured-IsTop w fds (seen_all w fd p) (λ x. c x || (any w x && fd == x))
        (subst (λ n. IsTop n (λ x. c x || (any w x && fd == x))) (sym (seen_all-nfds w fd p))
          (raised-IsTop (any w fd) fd p.0 c (λ x. c x || (any w x && fd == x))
            (λ x. ground (arith, same_fd (any w) fd x)) t)))

-- The sets without what is VPP's among `fds`.
abbrev Without : (ℕ → Bool) → List ℕ → Sets → Sets → Type 0
Without vcom fds w r =
    ((x : ℕ) → r.rd x ≡ (w.rd x && not (vcom x && has x fds)))
    × ((x : ℕ) → r.wr x ≡ (w.wr x && not (vcom x && has x fds)))
    × ((x : ℕ) → r.ex x ≡ (w.ex x && not (vcom x && has x fds)))

clr_lem :
    (vcom : ℕ → Bool) (f : FdSet) (fd x : ℕ)
    → (if f fd && vcom fd then fd_clr fd f else f) x ≡ (f x && not (vcom x && fd == x))
clr_lem vcom f fd x = go (Bool-cases (fd == x))
  where
    go :
        ((fd == x) ≡ true) ⊎ ((fd == x) ≡ false)
        → (if f fd && vcom fd then fd_clr fd f else f) x ≡ (f x && not (vcom x && fd == x))
    go (inl e) = ground (arith, e, ap f ((==_iff fd x).0 e), ap vcom ((==_iff fd x).0 e))
    go (inr e) = ground (arith, e)

set_lem :
    (vcom : ℕ → Bool) (s f : FdSet) (fd x : ℕ)
    → (if s fd && vcom fd then fd_set fd f else f) x ≡ (f x || (s x && vcom x && fd == x))
set_lem vcom s f fd x = go (Bool-cases (fd == x))
  where
    go :
        ((fd == x) ≡ true) ⊎ ((fd == x) ≡ false)
        → (if s fd && vcom fd then fd_set fd f else f) x ≡ (f x || (s x && vcom x && fd == x))
    go (inl e) = ground (arith, e, ap s ((==_iff fd x).0 e), ap vcom ((==_iff fd x).0 e))
    go (inr e) = ground (arith, e)

without_vcom-Without :
    (vcom : ℕ → Bool) (fds : List ℕ) (w : Sets) → Without vcom fds w (without_vcom vcom fds w)
unfolding without_vcom
without_vcom-Without vcom [] w = (λ x. ground arith, λ x. ground arith, λ x. ground arith)
without_vcom-Without vcom (fd ∷ fds) w = go (
    without_vcom-Without vcom fds (record {
      rd = if w.rd fd && vcom fd then fd_clr fd w.rd else w.rd;
      wr = if w.wr fd && vcom fd then fd_clr fd w.wr else w.wr;
      ex = if w.ex fd && vcom fd then fd_clr fd w.ex else w.ex;
    }))
  where
    go :
        {r : Sets}
        → Without vcom fds
            (record {
              rd = if w.rd fd && vcom fd then fd_clr fd w.rd else w.rd;
              wr = if w.wr fd && vcom fd then fd_clr fd w.wr else w.wr;
              ex = if w.ex fd && vcom fd then fd_clr fd w.ex else w.ex;
            })
            r
        → Without vcom (fd ∷ fds) w r
    go j = (
      λ x. j.0 x ∙ rw (clr_lem vcom w.rd fd x) (ground arith),
      λ x. j.1 x ∙ rw (clr_lem vcom w.wr fd x) (ground arith),
      λ x. j.2 x ∙ rw (clr_lem vcom w.ex fd x) (ground arith),
    )

-- The read and write sets with what is VPP's among `fds` of the saved ones.
abbrev pub Restores : (ℕ → Bool) → (ℕ → Bool) → Sets → Sets → Sets → Type 0
Restores vcom among saved w r =
    ((x : ℕ) → r.rd x ≡ (w.rd x || (saved.rd x && vcom x && among x)))
    × ((x : ℕ) → r.wr x ≡ (w.wr x || (saved.wr x && vcom x && among x)))
    × (r.ex ≡ w.ex)

with_vcom-Restores :
    (vcom : ℕ → Bool) (saved : Sets) (fds : List ℕ) (w : Sets)
    → Restores vcom (λ x. has x fds) saved w (with_vcom vcom saved fds w)
unfolding with_vcom
with_vcom-Restores vcom saved [] w = (λ x. ground arith, λ x. ground arith, refl)
with_vcom-Restores vcom saved (fd ∷ fds) w = go (
    with_vcom-Restores vcom saved fds (record {
      rd = if saved.rd fd && vcom fd then fd_set fd w.rd else w.rd;
      wr = if saved.wr fd && vcom fd then fd_set fd w.wr else w.wr;
      ex = w.ex;
    }))
  where
    go :
        {r : Sets}
        → Restores vcom
            (λ x. has x fds)
            saved
            (record {
              rd = if saved.rd fd && vcom fd then fd_set fd w.rd else w.rd;
              wr = if saved.wr fd && vcom fd then fd_set fd w.wr else w.wr;
              ex = w.ex;
            })
            r
        → Restores vcom (λ x. has x (fd ∷ fds)) saved w r
    go j = (
      λ x. j.0 x ∙ rw (set_lem vcom saved.rd w.rd fd x) (ground arith),
      λ x. j.1 x ∙ rw (set_lem vcom saved.wr w.wr fd x) (ground arith),
      j.2,
    )

-- What vcom_fd_clear leaves: what is not VPP's below `nfds`, how many that are, and the number above
-- the largest.
pub record Clears (vcom : ℕ → Bool) (nfds : ℕ) (w : Sets) (r : Sets × (ℕ × ℕ)) : Type 0 where
  pub rd : (x : ℕ) → r.0.rd x ≡ (w.rd x && not (vcom x && ltb x nfds))
  pub wr : (x : ℕ) → r.0.wr x ≡ (w.wr x && not (vcom x && ltb x nfds))
  pub ex : (x : ℕ) → r.0.ex x ≡ (w.ex x && not (vcom x && ltb x nfds))
  pub tops : IsTop r.1.0 (λ x. any r.0 x && ltb x nfds)
  pub counts : r.1.1 ≡ counted r.0 (span 0 nfds)

measured_below :
    (w : Sets) (nfds : ℕ) → IsTop (measured w (span 0 nfds) (0, 0)).0 (λ x. any w x && ltb x nfds)
measured_below w nfds =
    IsTop-ext (measured w (span 0 nfds) (0, 0)).0 (λ x. false || (any w x && has x (span 0 nfds)))
      (λ x. any w x && ltb x nfds) (λ x. ground (arith, has-span x 0 nfds))
      (measured-IsTop w (span 0 nfds) (0, 0) (λ x. false) (λ x h. ground arith, inl refl))

pub vcom_fd_clear-Clears :
    (vcom : ℕ → Bool) (nfds : ℕ) (w : Sets) → Clears vcom nfds w (vcom_fd_clear vcom nfds w)
unfolding vcom_fd_clear
vcom_fd_clear-Clears vcom nfds w = go (without_vcom-Without vcom (span 0 nfds) w)
  where
    go :
        {r : Sets}
        → Without vcom (span 0 nfds) w r
        → Clears vcom nfds w (r, measured r (span 0 nfds) (0, 0))
    go {r} j = record {
      rd = λ x. j.0 x ∙ rw (has-span x 0 nfds) (ground arith);
      wr = λ x. j.1 x ∙ rw (has-span x 0 nfds) (ground arith);
      ex = λ x. j.2 x ∙ rw (has-span x 0 nfds) (ground arith);
      tops = measured_below r nfds;
      counts = measured-counted r (span 0 nfds) (0, 0) ∙ omega arith;
    }

-- What vcom_fd_set makes of sets that the C library left.
pub vcom_fd_set-Restores :
    (vcom : ℕ → Bool) (nfds : ℕ) (saved w : Sets)
    → let r = vcom_fd_set vcom nfds saved w in
      Restores vcom (λ x. ltb x nfds) saved w r.0
      × (r.1.1 ≡ counted r.0 (span 0 nfds))
      × IsTop r.1.0 (λ x. any r.0 x && ltb x nfds)
unfolding vcom_fd_set
vcom_fd_set-Restores vcom nfds saved w = go (with_vcom-Restores vcom saved (span 0 nfds) w)
  where
    go :
        {r : Sets}
        → Restores vcom (λ x. has x (span 0 nfds)) saved w r
        → Restores vcom (λ x. ltb x nfds) saved w r
          × ((measured r (span 0 nfds) (0, 0)).1 ≡ counted r (span 0 nfds))
          × IsTop (measured r (span 0 nfds) (0, 0)).0 (λ x. any r x && ltb x nfds)
    go {r} j = (
      (
        λ x. j.0 x ∙ rw (has-span x 0 nfds) (ground arith),
        λ x. j.1 x ∙ rw (has-span x 0 nfds) (ground arith),
        j.2,
      ),
      measured-counted r (span 0 nfds) (0, 0) ∙ omega arith,
      measured_below r nfds,
    )
