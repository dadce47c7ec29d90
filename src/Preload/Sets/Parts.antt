-- ===== src/Preload/Sets/Parts.antt =====
-- vcom_fd_set_split and vcom_fd_set_merge of vcl-ldpreload/src/libvcl-ldpreload/vcom.c.
use vppsb.Common.{
  ℕ, zero, suc, ◌+◌, ◌<◌, ◌≡◌, refl, ap, sym, ◌∙◌, ◌⊎◌, inl, inr, Bool, true, false, ◌&&◌, ◌||◌,
  not, List, [], ◌∷◌, ◌==◌, ltb, leb, if◌then◌else◌, arith, Bool-cases, ==_iff,
}
use mathlib.Core.Path.{subst}
use vppsb.Pool.{has}
use vppsb.Vcom.Select.{FdSet, Sets, span, raised, one_if, counted}
use vppsb.Preload.Sets.{Part, with_rd, with_wr, with_ex, dealt, or_bit, split_each, fd_rwe_sets_or}

pub has-span : (x fd k : ℕ) → has x (span fd k) ≡ (leb fd x && ltb x (fd + k))
has-span x fd zero = ground arith
has-span x fd (suc k) = ground (arith, has-span x (fd + 1) k)

-- The descriptors of the sets that satisfy `c`.
abbrev pub chosen : (ℕ → Bool) → Sets → Sets
chosen c w = record { rd = λ x. w.rd x && c x; wr = λ x. w.wr x && c x; ex = λ x. w.ex x && c x }

abbrev pub any : Sets → ℕ → Bool
any w x = w.rd x || w.wr x || w.ex x

abbrev pub weight : Sets → ℕ → ℕ
weight w x = one_if (w.rd x) + one_if (w.wr x) + one_if (w.ex x)

dealt-or_bit :
    (f : Part → Part) (b c : Bool) (v l : Part)
    → dealt f b c (v, l) ≡ (or_bit f (b && c) v, or_bit f (b && not c) l)
dealt-or_bit f true true v l = refl
dealt-or_bit f true false v l = refl
dealt-or_bit f false c v l = refl

-- One descriptor of FD_RWE_SETS_OR.
abbrev stepped : Sets → ℕ → Part → Part
stepped s fd p =
    or_bit (with_ex fd) (s.ex fd) (or_bit (with_wr fd) (s.wr fd) (or_bit (with_rd fd) (s.rd fd) p))

pub split_lem :
    (vcom : ℕ → Bool) (w : Sets) (fds : List ℕ) (v l : Part)
    → split_each vcom w fds (v, l)
      ≡ (fd_rwe_sets_or (chosen vcom w) fds v, fd_rwe_sets_or (chosen (λ x. not (vcom x)) w) fds l)
unfolding split_each fd_rwe_sets_or
split_lem vcom w [] v l = refl
split_lem vcom w (fd ∷ fds) v l =
    ap (split_each vcom w fds) (
      ap (λ p. dealt (with_ex fd) (w.ex fd) (vcom fd) (dealt (with_wr fd) (w.wr fd) (vcom fd) p))
        (dealt-or_bit (with_rd fd) (w.rd fd) (vcom fd) v l)
      ∙ ap (dealt (with_ex fd) (w.ex fd) (vcom fd)) (
          dealt-or_bit (with_wr fd) (w.wr fd) (vcom fd) (or_bit (with_rd fd) (w.rd fd && vcom fd) v)
            (or_bit (with_rd fd) (w.rd fd && not (vcom fd)) l))
      ∙ dealt-or_bit (with_ex fd) (w.ex fd) (vcom fd)
          (or_bit (with_wr fd) (w.wr fd && vcom fd) (or_bit (with_rd fd) (w.rd fd && vcom fd) v))
          (or_bit (with_wr fd) (w.wr fd && not (vcom fd))
            (or_bit (with_rd fd) (w.rd fd && not (vcom fd)) l)))
    ∙ split_lem vcom w fds (stepped (chosen vcom w) fd v)
        (stepped (chosen (λ x. not (vcom x)) w) fd l)

-- What FD_RWE_SETS_OR makes of the sets.
abbrev pub Joins : Sets → List ℕ → Sets → Sets → Type 0
Joins s fds w r =
    ((x : ℕ) → r.rd x ≡ (w.rd x || (s.rd x && has x fds)))
    × ((x : ℕ) → r.wr x ≡ (w.wr x || (s.wr x && has x fds)))
    × ((x : ℕ) → r.ex x ≡ (w.ex x || (s.ex x && has x fds)))

pub same_fd : (g : FdSet) (fd x : ℕ) → (g fd && fd == x) ≡ (g x && fd == x)
same_fd g fd x = go (Bool-cases (fd == x))
  where
    go : ((fd == x) ≡ true) ⊎ ((fd == x) ≡ false) → (g fd && fd == x) ≡ (g x && fd == x)
    go (inl e) = ap (λ y. g y && fd == x) ((==_iff fd x).0 e)
    go (inr e) = ground (arith, e)

-- What one descriptor adds: its bits, their number, and the largest so far.
stepped-rd :
    (s : Sets) (fd : ℕ) (p : Part) (x : ℕ)
    → (stepped s fd p).sets.rd x ≡ (p.sets.rd x || (s.rd x && fd == x))
stepped-rd s fd p x = ground (arith, same_fd s.rd fd x)

stepped-wr :
    (s : Sets) (fd : ℕ) (p : Part) (x : ℕ)
    → (stepped s fd p).sets.wr x ≡ (p.sets.wr x || (s.wr x && fd == x))
stepped-wr s fd p x = ground (arith, same_fd s.wr fd x)

stepped-ex :
    (s : Sets) (fd : ℕ) (p : Part) (x : ℕ)
    → (stepped s fd p).sets.ex x ≡ (p.sets.ex x || (s.ex x && fd == x))
stepped-ex s fd p x = ground (arith, same_fd s.ex fd x)

stepped-nfd : (s : Sets) (fd : ℕ) (p : Part) → (stepped s fd p).nfd ≡ p.nfd + weight s fd
stepped-nfd s fd p = ground arith

stepped-nfds :
    (s : Sets) (fd : ℕ) (p : Part)
    → (stepped s fd p).nfds ≡ (if any s fd then raised fd p.nfds else p.nfds)
stepped-nfds s fd p = ground arith

pub sets_or-Joins :
    (s : Sets) (fds : List ℕ) (p : Part) → Joins s fds p.sets (fd_rwe_sets_or s fds p).sets
unfolding fd_rwe_sets_or
sets_or-Joins s [] p = (λ x. ground arith, λ x. ground arith, λ x. ground arith)
sets_or-Joins s (fd ∷ fds) p = go (sets_or-Joins s fds (stepped s fd p))
  where
    go : {r : Sets} → Joins s fds (stepped s fd p).sets r → Joins s (fd ∷ fds) p.sets r
    go j = (
      λ x. j.0 x ∙ rw (stepped-rd s fd p x) (ground arith),
      λ x. j.1 x ∙ rw (stepped-wr s fd p x) (ground arith),
      λ x. j.2 x ∙ rw (stepped-ex s fd p x) (ground arith),
    )

pub sets_or-nfd :
    (s : Sets) (fds : List ℕ) (p : Part) → (fd_rwe_sets_or s fds p).nfd ≡ p.nfd + counted s fds
unfolding fd_rwe_sets_or
sets_or-nfd s [] p = omega arith
sets_or-nfd s (fd ∷ fds) p =
    sets_or-nfd s fds (stepped s fd p) ∙ rw (stepped-nfd s fd p) (omega arith)

-- One more than the largest that satisfies `c`, or 0 if none does.
abbrev pub IsTop : ℕ → (ℕ → Bool) → Type 0
IsTop n c = ((x : ℕ) → c x ≡ true → x < n) × ((n ≡ 0) ⊎ ((x : ℕ) × (suc x ≡ n) × (c x ≡ true)))

pub raised-IsTop :
    (b : Bool) (fd n : ℕ) (c d : ℕ → Bool)
    → ((x : ℕ) → d x ≡ (c x || (b && fd == x)))
    → IsTop n c
    → IsTop (if b then raised fd n else n) d
raised-IsTop true fd n c d e (lt, top) = (
  λ x h. ground (arith, e x, lt x),
  elim (Bool-cases (ltb n (fd + 1))) [
    | inl more ↦ rw more (inr (fd, omega arith, ground (arith, e fd)))
    | inr less ↦
        rw less
          (elim top [ inl none ↦ inl none | inr (x, last, h) ↦ inr (x, last, ground (arith, e x)) ])
  ],
)
raised-IsTop false fd n c d e (lt, top) = (
  λ x h. ground (arith, e x, lt x),
  elim top [ inl none ↦ inl none | inr (x, last, h) ↦ inr (x, last, ground (arith, e x)) ],
)

pub sets_or-IsTop :
    (s : Sets) (fds : List ℕ) (p : Part)
    → IsTop p.nfds (any p.sets)
    → IsTop (fd_rwe_sets_or s fds p).nfds (any (fd_rwe_sets_or s fds p).sets)
unfolding fd_rwe_sets_or
sets_or-IsTop s [] p t = t
sets_or-IsTop s (fd ∷ fds) p t = sets_or-IsTop s fds (stepped s fd p) (
    subst (λ n. IsTop n (any (stepped s fd p).sets)) (sym (stepped-nfds s fd p))
      (raised-IsTop (any s fd) fd p.nfds (any p.sets) (any (stepped s fd p).sets)
        (λ x.
          rw (stepped-rd s fd p x, stepped-wr s fd p x, stepped-ex s fd p x)
            (ground (arith, same_fd (any s) fd x)))
        t))
