-- ===== src/Preload/Polling/Ready.antt =====
-- What vcom_select of vcl-ldpreload/src/libvcl-ldpreload/vcom.c reports ready.
use vppsb.Common.{
  ℕ, ◌+◌, ◌<◌, ◌≡◌, refl, ◌∙◌, Bool, true, false, ◌&&◌, ◌||◌, not, List, [], ◌∷◌, ltb, arith,
  lt→ltb,
}
use vppsb.Vcom.Select.{Sets, span, one_if, counted}
use vppsb.Preload.Sets.{Part, no_sets, vcom_fd_set_merge}
use vppsb.Preload.Sets.Parts.{any, weight}
use vppsb.Preload.Sets.Merged.{
  IsPart, Union, merge-Union, merge-nfd, counted_top, top_below, part_below,
}
use vppsb.Preload.Polling.Rounds.{Sub}

-- Nothing but what is watched below `nfds`, and so many.
abbrev pub IsReady : ℕ → Sets → Sets → ℕ → Type 0
IsReady nfds w s n = Sub s w × ((x : ℕ) → any s x ≡ true → x < nfds) × (n ≡ counted s (span 0 nfds))

counted_sum :
    (r a b : Sets) (fds : List ℕ)
    → ((x : ℕ) → weight r x ≡ weight a x + weight b x)
    → counted r fds ≡ counted a fds + counted b fds
counted_sum r a b [] h = refl
counted_sum r a b (fd ∷ fds) h = omega (arith, h fd, counted_sum r a b fds h)

pub Sub-any : (s w : Sets) (x : ℕ) → Sub s w → any s x ≡ true → any w x ≡ true
Sub-any s w x (f, g, h) m = ground (arith, f x, g x, h x)

module _ {c : ℕ → Bool} {nfds : ℕ} {w : Sets} {p : Part} (part : IsPart c nfds w p) where
  within-Sub : (s : Sets) → Sub s p.sets → Sub s w
  within-Sub s (f, g, h) = (
    λ x m. ground (arith, f x m, part.holds.0 x),
    λ x m. ground (arith, g x m, part.holds.1 x),
    λ x m. ground (arith, h x m, part.holds.2 x),
  )

  chosen_lem : (x : ℕ) → any p.sets x ≡ true → c x ≡ true
  chosen_lem x m = ground (arith, m, part.holds.0 x, part.holds.1 x, part.holds.2 x)

  within-counted : (s : Sets) → Sub s p.sets → counted s (span 0 p.nfds) ≡ counted s (span 0 nfds)
  within-counted s sub =
      counted_top s 0 p.nfds nfds (top_below p.nfds nfds (any p.sets) part.tops (part_below part))
        (λ x m. omega (arith, part.tops.0 x (Sub-any s p.sets x sub m)))

-- One descriptor of two disjoint sets, each below its own number.
joined :
    (c m n a b r : Bool)
    → r ≡ (a && m || b && n)
    → (a ≡ true → (m ≡ true) × (c ≡ true))
    → (b ≡ true → (n ≡ true) × (c ≡ false))
    → one_if r ≡ one_if a + one_if b
joined c m n a b r e f g = ground (arith, e, f, g)

module _ {vcom : ℕ → Bool} {nfds : ℕ} {w : Sets} {p q : Part} (pv : IsPart vcom nfds w p)
    (pl : IsPart (λ x. not (vcom x)) nfds w q) (v l : Sets) (sv : Sub v p.sets)
    (sl : Sub l q.sets) where
  in_vcom : (x : ℕ) → any v x ≡ true → (ltb x p.nfds ≡ true) × (vcom x ≡ true)
  in_vcom x m = (
    lt→ltb x p.nfds (pv.tops.0 x (Sub-any v p.sets x sv m)),
    chosen_lem pv x (Sub-any v p.sets x sv m),
  )

  in_libc : (x : ℕ) → any l x ≡ true → (ltb x q.nfds ≡ true) × (vcom x ≡ false)
  in_libc x m = (
    lt→ltb x q.nfds (pl.tops.0 x (Sub-any l q.sets x sl m)),
    ground (arith, chosen_lem pl x (Sub-any l q.sets x sl m)),
  )

  joined-weight :
      (r : Sets) (x : ℕ) → Union p.nfds v q.nfds l r → weight r x ≡ weight v x + weight l x
  joined-weight r x (f, g, h) = omega (
    arith,
    joined (vcom x) (ltb x p.nfds) (ltb x q.nfds) (v.rd x) (l.rd x) (r.rd x) (f x)
        (λ m. in_vcom x (ground (arith, m))) (λ m. in_libc x (ground (arith, m))),
    joined (vcom x) (ltb x p.nfds) (ltb x q.nfds) (v.wr x) (l.wr x) (r.wr x) (g x)
        (λ m. in_vcom x (ground (arith, m))) (λ m. in_libc x (ground (arith, m))),
    joined (vcom x) (ltb x p.nfds) (ltb x q.nfds) (v.ex x) (l.ex x) (r.ex x) (h x)
        (λ m. in_vcom x (ground (arith, m))) (λ m. in_libc x (ground (arith, m))),
  )

  joined-Sub : (r : Sets) → Union p.nfds v q.nfds l r → Sub r w
  joined-Sub r (f, g, h) = (
    λ x m. ground (arith, m, f x, (within-Sub pv v sv).0 x, (within-Sub pl l sl).0 x),
    λ x m. ground (arith, m, g x, (within-Sub pv v sv).1 x, (within-Sub pl l sl).1 x),
    λ x m. ground (arith, m, h x, (within-Sub pv v sv).2 x, (within-Sub pl l sl).2 x),
  )

  joined_below : (r : Sets) (x : ℕ) → Union p.nfds v q.nfds l r → any r x ≡ true → x < nfds
  joined_below r x (f, g, h) m = ground (arith, m, f x, g x, h x, below_v x, below_l x)
    where
      below_v : (x : ℕ) → any v x ≡ true → x < nfds
      below_v x m = part_below pv x (Sub-any v p.sets x sv m)

      below_l : (x : ℕ) → any l x ≡ true → x < nfds
      below_l x m = part_below pl x (Sub-any l q.sets x sl m)

  pub merged-IsReady :
      IsReady nfds w
        (vcom_fd_set_merge no_sets p.nfds v q.nfds l).sets
        (vcom_fd_set_merge no_sets p.nfds v q.nfds l).nfd
  merged-IsReady = (
    joined-Sub (vcom_fd_set_merge no_sets p.nfds v q.nfds l).sets union,
    λ x m. joined_below (vcom_fd_set_merge no_sets p.nfds v q.nfds l).sets x union m,
    merge-nfd p.nfds v q.nfds l
        ∙ omega (
          arith,
          within-counted pv v sv,
          within-counted pl l sl,
          counted_sum (vcom_fd_set_merge no_sets p.nfds v q.nfds l).sets v l (span 0 nfds)
              (λ x. joined-weight (vcom_fd_set_merge no_sets p.nfds v q.nfds l).sets x union),
        ),
  )
    where
      union : Union p.nfds v q.nfds l (vcom_fd_set_merge no_sets p.nfds v q.nfds l).sets
      union = merge-Union p.nfds v q.nfds l
