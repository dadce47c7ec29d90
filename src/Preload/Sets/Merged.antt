-- ===== src/Preload/Sets/Merged.antt =====
-- What a select is split into, and what its parts are merged to:
-- vcl-ldpreload/src/libvcl-ldpreload/vcom.c.
use vppsb.Common.{
  ℕ, zero, suc, ◌+◌, ◌<◌, ◌≤◌, ◌≡◌, refl, sym, ◌∙◌, inl, inr, Bool, true, false, ◌&&◌, ◌||◌, not,
  List, [], ◌∷◌, ltb, arith,
}
use mathlib.Core.Path.{subst}
use vppsb.Pool.{has}
use vppsb.Vcom.Select.{Sets, span, counted}
use vppsb.Preload.Sets.{
  Part, no_sets, no_part, vcom_fd_set_split, fd_rwe_sets_or, vcom_fd_set_merge,
}
use vppsb.Preload.Sets.Parts.{
  has-span, chosen, any, weight, split_lem, Joins, sets_or-Joins, sets_or-nfd, IsTop, sets_or-IsTop,
}

-- The sets `r` are those of `w` below `nfds` that satisfy `c`.
abbrev pub Holds : (ℕ → Bool) → ℕ → Sets → Sets → Type 0
Holds c nfds w r =
    ((x : ℕ) → r.rd x ≡ (w.rd x && c x && ltb x nfds))
    × ((x : ℕ) → r.wr x ≡ (w.wr x && c x && ltb x nfds))
    × ((x : ℕ) → r.ex x ≡ (w.ex x && c x && ltb x nfds))

-- A part has the descriptors of `w` below `nfds` that satisfy `c`, and their numbers are right.
pub record IsPart (c : ℕ → Bool) (nfds : ℕ) (w : Sets) (p : Part) : Type 0 where
  pub holds : Holds c nfds w p.sets
  pub tops : IsTop p.nfds (any p.sets)
  pub counts : p.nfd ≡ counted (chosen c w) (span 0 nfds)

none-IsTop : IsTop 0 (any no_sets)
none-IsTop = (λ x h. ground arith, inl refl)

part_lem :
    (c : ℕ → Bool) (nfds : ℕ) (w : Sets)
    → IsPart c nfds w (fd_rwe_sets_or (chosen c w) (span 0 nfds) no_part)
part_lem c nfds w = record {
  holds = go (sets_or-Joins (chosen c w) (span 0 nfds) no_part);
  tops = sets_or-IsTop (chosen c w) (span 0 nfds) no_part none-IsTop;
  counts = sets_or-nfd (chosen c w) (span 0 nfds) no_part ∙ omega arith;
}
  where
    go : {r : Sets} → Joins (chosen c w) (span 0 nfds) no_sets r → Holds c nfds w r
    go j = (
      λ x. j.0 x ∙ ground (arith, has-span x 0 nfds),
      λ x. j.1 x ∙ ground (arith, has-span x 0 nfds),
      λ x. j.2 x ∙ ground (arith, has-span x 0 nfds),
    )

pub split-IsPart :
    (vcom : ℕ → Bool) (nfds : ℕ) (w : Sets)
    → IsPart vcom nfds w (vcom_fd_set_split vcom nfds w).0
      × IsPart (λ x. not (vcom x)) nfds w (vcom_fd_set_split vcom nfds w).1
unfolding vcom_fd_set_split
split-IsPart vcom nfds w =
    subst (λ p. IsPart vcom nfds w p.0 × IsPart (λ x. not (vcom x)) nfds w p.1)
      (sym (split_lem vcom w (span 0 nfds) no_part no_part))
      (part_lem vcom nfds w, part_lem (λ x. not (vcom x)) nfds w)

counted_parts :
    (vcom : ℕ → Bool) (w : Sets) (fds : List ℕ)
    → counted (chosen vcom w) fds + counted (chosen (λ x. not (vcom x)) w) fds ≡ counted w fds
counted_parts vcom w [] = omega arith
counted_parts vcom w (fd ∷ fds) = ground (arith, counted_parts vcom w fds)

-- vcom_fd_set_split hands each descriptor below `nfds` of each set to one of the two parts, VPP's
-- to the first: each part has the number above its largest descriptor, and their counts add up to
-- the count of the sets.
vcom_fd_set_split-IsPart :
    (vcom : ℕ → Bool) (nfds : ℕ) (w : Sets)
    → IsPart vcom nfds w (vcom_fd_set_split vcom nfds w).0
      × IsPart (λ x. not (vcom x)) nfds w (vcom_fd_set_split vcom nfds w).1
      × ((vcom_fd_set_split vcom nfds w).0.nfd + (vcom_fd_set_split vcom nfds w).1.nfd
          ≡ counted w (span 0 nfds))
vcom_fd_set_split-IsPart vcom nfds w = (
  (split-IsPart vcom nfds w).0,
  (split-IsPart vcom nfds w).1,
  omega (
    arith,
    (split-IsPart vcom nfds w).0.counts,
    (split-IsPart vcom nfds w).1.counts,
    counted_parts vcom w (span 0 nfds),
  ),
)

counted_agree :
    (s t : Sets) (fds : List ℕ)
    → ((x : ℕ) → has x fds ≡ true → weight s x ≡ weight t x)
    → counted s fds ≡ counted t fds
counted_agree s t [] h = refl
counted_agree s t (fd ∷ fds) h =
    omega (arith, h fd (ground arith), counted_agree s t fds (λ x m. h x (ground arith)))

counted_above :
    (s : Sets) (a k : ℕ) → ((x : ℕ) → a ≤ x → any s x ≡ false) → counted s (span a k) ≡ 0
counted_above s a zero h = refl
counted_above s a (suc k) h =
    ground (arith, h a (omega arith), counted_above s (a + 1) k (λ x le. h x (omega arith)))

-- Past the largest descriptor nothing is counted.
pub counted_top :
    (s : Sets) (a n k : ℕ)
    → n ≤ k
    → ((x : ℕ) → any s x ≡ true → x < a + n)
    → counted s (span a n) ≡ counted s (span a k)
counted_top s a zero k le h = sym (counted_above s a k (λ x m. ground (arith, h x)))
counted_top s a (suc n) zero le h = absurd (omega arith)
counted_top s a (suc n) (suc k) le h =
    omega (arith, counted_top s (a + 1) n k (omega arith) (λ x m. omega (arith, h x m)))

pub top_below : (n k : ℕ) (c : ℕ → Bool) → IsTop n c → ((x : ℕ) → c x ≡ true → x < k) → n ≤ k
top_below n k c (lt, top) h = elim top [
  | inl none ↦ omega arith
  | inr (x, last, m) ↦ omega (arith, h x m)
]

module _ {c : ℕ → Bool} {nfds : ℕ} {w : Sets} {p : Part} (part : IsPart c nfds w p) where
  pub part_below : (x : ℕ) → any p.sets x ≡ true → x < nfds
  part_below x m = ground (arith, m, part.holds.0 x, part.holds.1 x, part.holds.2 x)

  part_weight : (x : ℕ) → has x (span 0 nfds) ≡ true → weight p.sets x ≡ weight (chosen c w) x
  part_weight x m =
      ground (arith, m, has-span x 0 nfds, part.holds.0 x, part.holds.1 x, part.holds.2 x)

  -- What the sets of a part count, below its own number.
  part_counted : counted p.sets (span 0 p.nfds) ≡ p.nfd
  part_counted =
      counted_top p.sets 0 p.nfds nfds (top_below p.nfds nfds (any p.sets) part.tops part_below)
        (λ x m. omega (arith, part.tops.0 x m))
      ∙ counted_agree p.sets (chosen c w) (span 0 nfds) part_weight
      ∙ sym part.counts

  -- All of a part is below its number.
  part_top : (x : ℕ) → any p.sets x ≡ true → has x (span 0 p.nfds) ≡ true
  part_top x m = ground (arith, has-span x 0 p.nfds, part.tops.0 x m)

-- The sets that the merge of `v` below `m` and `l` below `n` has.
abbrev pub Union : ℕ → Sets → ℕ → Sets → Sets → Type 0
Union m v n l r =
    ((x : ℕ) → r.rd x ≡ (v.rd x && ltb x m || l.rd x && ltb x n))
    × ((x : ℕ) → r.wr x ≡ (v.wr x && ltb x m || l.wr x && ltb x n))
    × ((x : ℕ) → r.ex x ≡ (v.ex x && ltb x m || l.ex x && ltb x n))

pub merge-Union :
    (m : ℕ) (v : Sets) (n : ℕ) (l : Sets) → Union m v n l (vcom_fd_set_merge no_sets m v n l).sets
unfolding vcom_fd_set_merge
merge-Union m v n l =
    go (sets_or-Joins v (span 0 m) no_part)
      (sets_or-Joins l (span 0 n) (fd_rwe_sets_or v (span 0 m) no_part))
  where
    go : {q r : Sets} → Joins v (span 0 m) no_sets q → Joins l (span 0 n) q r → Union m v n l r
    go j k = (
      λ x. k.0 x ∙ rw (j.0 x, has-span x 0 m, has-span x 0 n) (ground arith),
      λ x. k.1 x ∙ rw (j.1 x, has-span x 0 m, has-span x 0 n) (ground arith),
      λ x. k.2 x ∙ rw (j.2 x, has-span x 0 m, has-span x 0 n) (ground arith),
    )

pub merge-nfd :
    (m : ℕ) (v : Sets) (n : ℕ) (l : Sets)
    → (vcom_fd_set_merge no_sets m v n l).nfd ≡ counted v (span 0 m) + counted l (span 0 n)
unfolding vcom_fd_set_merge
merge-nfd m v n l =
    sets_or-nfd l (span 0 n) (fd_rwe_sets_or v (span 0 m) no_part)
    ∙ omega (arith, sets_or-nfd v (span 0 m) no_part)

merge-IsTop :
    (m : ℕ) (v : Sets) (n : ℕ) (l : Sets)
    → IsTop (vcom_fd_set_merge no_sets m v n l).nfds (any (vcom_fd_set_merge no_sets m v n l).sets)
unfolding vcom_fd_set_merge
merge-IsTop m v n l =
    sets_or-IsTop l (span 0 n) (fd_rwe_sets_or v (span 0 m) no_part)
      (sets_or-IsTop v (span 0 m) no_part none-IsTop)

-- The two halves of a set, each below its own number.
halves :
    (c m n f : Bool) (a b w : Bool)
    → a ≡ (w && c && f)
    → b ≡ (w && not c && f)
    → (a ≡ true → m ≡ true)
    → (b ≡ true → n ≡ true)
    → (a && m || b && n) ≡ (w && true && f)
halves c m n f a b w p q g h = ground arith

merged-IsPart :
    (c : ℕ → Bool) (nfds : ℕ) (w : Sets) (v l : Part)
    → IsPart c nfds w v
    → IsPart (λ x. not (c x)) nfds w l
    → IsPart (λ x. true) nfds w (vcom_fd_set_merge no_sets v.nfds v.sets l.nfds l.sets)
merged-IsPart c nfds w v l pv pl = record {
  holds = (
    λ x.
        (merge-Union v.nfds v.sets l.nfds l.sets).0 x
        ∙ halves (c x) (ltb x v.nfds) (ltb x l.nfds) (ltb x nfds) (v.sets.rd x) (l.sets.rd x)
            (w.rd x) (pv.holds.0 x) (pl.holds.0 x) (λ e. ground (arith, pv.tops.0 x))
            (λ e. ground (arith, pl.tops.0 x)),
    λ x.
        (merge-Union v.nfds v.sets l.nfds l.sets).1 x
        ∙ halves (c x) (ltb x v.nfds) (ltb x l.nfds) (ltb x nfds) (v.sets.wr x) (l.sets.wr x)
            (w.wr x) (pv.holds.1 x) (pl.holds.1 x) (λ e. ground (arith, pv.tops.0 x))
            (λ e. ground (arith, pl.tops.0 x)),
    λ x.
        (merge-Union v.nfds v.sets l.nfds l.sets).2 x
        ∙ halves (c x) (ltb x v.nfds) (ltb x l.nfds) (ltb x nfds) (v.sets.ex x) (l.sets.ex x)
            (w.ex x) (pv.holds.2 x) (pl.holds.2 x) (λ e. ground (arith, pv.tops.0 x))
            (λ e. ground (arith, pl.tops.0 x)),
  );
  tops = merge-IsTop v.nfds v.sets l.nfds l.sets;
  counts =
      merge-nfd v.nfds v.sets l.nfds l.sets
      ∙ omega (
        arith,
        part_counted pv,
        part_counted pl,
        pv.counts,
        pl.counts,
        counted_parts c w (span 0 nfds),
        counted_agree (chosen (λ x. true) w) w (span 0 nfds) (λ x m. ground arith),
      );
}

-- Merging the two parts of a split, as they are, into empty sets gives back the sets below `nfds`,
-- counts them, and finds the number above the largest descriptor.
pub vcom_fd_set_merge-vcom_fd_set_split :
    (vcom : ℕ → Bool) (nfds : ℕ) (w : Sets)
    → let (v, l) = vcom_fd_set_split vcom nfds w in
      IsPart (λ x. true) nfds w (vcom_fd_set_merge no_sets v.nfds v.sets l.nfds l.sets)
vcom_fd_set_merge-vcom_fd_set_split vcom nfds w =
    merged-IsPart vcom nfds w (vcom_fd_set_split vcom nfds w).0 (vcom_fd_set_split vcom nfds w).1
      (split-IsPart vcom nfds w).0 (split-IsPart vcom nfds w).1
