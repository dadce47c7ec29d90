-- ===== src/Preload/Polling/Rounds.antt =====
-- The polling loop of vcom_select in vcl-ldpreload/src/libvcl-ldpreload/vcom.c: what it reports
-- ready.
use vppsb.Common.{
  ℕ, ◌≡◌, refl, sym, ◌⊎◌, inl, inr, true, false, ◌||◌, Option, none, some, List, [], ◌∷◌, ◌==◌, ltb,
  if◌then◌else◌, arith, Bool-cases,
}
use mathlib.Core.Path.{subst}
use vppsb.Vcom.{Rv, ret, err}
use vppsb.Vcom.Select.{Sets}
use vppsb.Preload.Sets.{no_sets, vcom_fd_set_merge}
use vppsb.Preload.Time.{Timespec}
use vppsb.Preload.Polling.{
  Clock, now, failed, Round, Ended, done, timed_out, Watch, asked, before, by_clock, of_part, turn,
  poll,
}

-- The sets `s` have no more than `w`.
abbrev pub Sub : Sets → Sets → Type 0
Sub s w =
    ((x : ℕ) → s.rd x ≡ true → w.rd x ≡ true)
    × ((x : ℕ) → s.wr x ≡ true → w.wr x ≡ true)
    × ((x : ℕ) → s.ex x ≡ true → w.ex x ≡ true)

Sub-trans : (a b c : Sets) → Sub a b → Sub b c → Sub a c
Sub-trans a b c f g = (λ x h. g.0 x (f.0 x h), λ x h. g.1 x (f.1 x h), λ x h. g.2 x (f.2 x h))

Sub-refl : (a : Sets) → Sub a a
Sub-refl a = (λ x h. h, λ x h. h, λ x h. h)

-- A select that only takes descriptors out of the sets.
abbrev pub Narrows : (ℕ → Sets → Rv × Sets) → Type 0
Narrows f = (n : ℕ) (s : Sets) → Sub (f n s).1 s

-- It narrows and does not fail.
abbrev pub Works : (ℕ → Sets → Rv × Sets) → Type 0
Works f = (n : ℕ) (s : Sets) → (Sub (f n s).1 s) × ((m : ℕ) × ((f n s).0 ≡ ret m))

abbrev pub AllWork : List Round → Type 0
AllWork [] = Unit {0}
AllWork (r ∷ rs) = Narrows r.vcom × Works r.libc × AllWork rs

asked-Sub : (n : ℕ) (f : ℕ → Sets → Rv × Sets) (s : Sets) → Narrows f → Sub (asked n f s).1 s
asked-Sub n f s h = go (Bool-cases (n == 0))
  where
    go : ((n == 0) ≡ true) ⊎ ((n == 0) ≡ false) → Sub (asked n f s).1 s
    go (inl e) = rw e (Sub-refl s)
    go (inr e) = rw e (h n s)

asked-Works :
    (n : ℕ) (f : ℕ → Sets → Rv × Sets) (s : Sets) → Works f → (m : ℕ) × ((asked n f s).0 ≡ ret m)
asked-Works n f s h = go (Bool-cases (n == 0))
  where
    go : ((n == 0) ≡ true) ⊎ ((n == 0) ≡ false) → (m : ℕ) × ((asked n f s).0 ≡ ret m)
    go (inl e) = rw e (0, refl)
    go (inr e) = rw e (h n s).1

-- The loop ended with the merge of what is left of the two parts.
abbrev pub IsMerge : Watch → Sets → Sets → ℕ → Sets → Type 0
IsMerge k v l n s =
    (v' : Sets) × (l' : Sets) × Sub v' v
    × Sub l' l
    × (s ≡ (vcom_fd_set_merge no_sets k.vcom_nfds v' k.libc_nfds l').sets)
    × (n ≡ (vcom_fd_set_merge no_sets k.vcom_nfds v' k.libc_nfds l').nfd)

-- What the loop may end with.
abbrev pub Ends : Watch → Sets → Sets → Ended → Type 0
Ends k v l (done (err e) s) = s ≡ k.sets
Ends k v l (done (ret n) s) = IsMerge k v l n s
Ends k v l timed_out = Unit {0}

by_clock-elim :
    (P : Option Ended → Type 0) (k : Watch) (clock : Clock) (rest : Option Ended)
    → ((i : ℕ) → P (some (done (err i) k.sets)))
    → ((t : Timespec) → clock ≡ now t → before k.end_time t ≡ true → P rest)
    → ((t : Timespec) → clock ≡ now t → before k.end_time t ≡ false → P (some timed_out))
    → P (by_clock k clock rest)
by_clock-elim P k (failed i) rest fails goes_on ends = fails i
by_clock-elim P k (now t) rest fails goes_on ends = go (Bool-cases (before k.end_time t))
  where
    go :
        (before k.end_time t ≡ true) ⊎ (before k.end_time t ≡ false)
        → P (if before k.end_time t then rest else some timed_out)
    go (inl e) = subst (λ b. P (if b then rest else some timed_out)) (sym e) (goes_on t refl e)
    go (inr e) = subst (λ b. P (if b then rest else some timed_out)) (sym e) (ends t refl e)

-- Every way that a turn of the loop can go.
pub turn-elim :
    (P : Option Ended → Type 0) (k : Watch) (clock : Clock) (p q : Rv × Sets)
    (rest : Sets → Sets → Option Ended)
    → ((i : ℕ) → P (some (done (err i) k.sets)))
    → ((i : ℕ) → q.0 ≡ err i → P (some (done (ret i) k.sets)))
    → ((a b : ℕ)
        → p.0 ≡ ret a
        → q.0 ≡ ret b
        → (ltb 0 a || ltb 0 b) ≡ true
        → P (some (of_part (vcom_fd_set_merge no_sets k.vcom_nfds p.1 k.libc_nfds q.1))))
    → ((t : Timespec) → clock ≡ now t → before k.end_time t ≡ true → P (rest p.1 q.1))
    → ((t : Timespec) → clock ≡ now t → before k.end_time t ≡ false → P (some timed_out))
    → P (turn k clock p q rest)
unfolding turn
turn-elim P k clock (err i, v) q rest fails libc_fails ready goes_on ends = fails i
turn-elim P k clock (ret a, v) (err i, l) rest fails libc_fails ready goes_on ends =
    libc_fails i refl
turn-elim P k clock (ret a, v) (ret b, l) rest fails libc_fails ready goes_on ends =
    go (Bool-cases (ltb 0 a || ltb 0 b))
  where
    go :
        ((ltb 0 a || ltb 0 b) ≡ true) ⊎ ((ltb 0 a || ltb 0 b) ≡ false)
        → P (
            if ltb 0 a || ltb 0 b
            then some (of_part (vcom_fd_set_merge no_sets k.vcom_nfds v k.libc_nfds l))
            else by_clock k clock (rest v l))
    go (inl e) =
        subst
          (λ c. P (
            if c
            then some (of_part (vcom_fd_set_merge no_sets k.vcom_nfds v k.libc_nfds l))
            else by_clock k clock (rest v l)))
          (sym e) (ready a b refl refl e)
    go (inr e) =
        subst
          (λ c. P (
            if c
            then some (of_part (vcom_fd_set_merge no_sets k.vcom_nfds v k.libc_nfds l))
            else by_clock k clock (rest v l)))
          (sym e) (by_clock-elim P k clock (rest v l) fails goes_on ends)

abbrev pub Ends? : Watch → Sets → Sets → Option Ended → Type 0
Ends? k v l none = Unit {0}
Ends? k v l (some e) = Ends k v l e

IsMerge-widen :
    (k : Watch) (v l v' l' : Sets) (n : ℕ) (s : Sets)
    → Sub v' v
    → Sub l' l
    → IsMerge k v' l' n s
    → IsMerge k v l n s
IsMerge-widen k v l v' l' n s p q (a, b, f, g, e, m) =
    (a, b, Sub-trans a v' v f p, Sub-trans b l' l g q, e, m)

Ends-widen :
    (k : Watch) (v l v' l' : Sets) (e : Option Ended)
    → Sub v' v
    → Sub l' l
    → Ends? k v' l' e
    → Ends? k v l e
Ends-widen k v l v' l' none p q m = m
Ends-widen k v l v' l' (some (done (err i) s)) p q m = m
Ends-widen k v l v' l' (some (done (ret n) s)) p q m = IsMerge-widen k v l v' l' n s p q m
Ends-widen k v l v' l' (some timed_out) p q m = m

-- Where every select works, the loop ends with the sets as they were, or with the merge of what is
-- left of the two parts.
pub poll-Ends :
    (k : Watch) (rs : List Round) (v l : Sets) → AllWork rs → Ends? k v l (poll k rs v l)
unfolding poll
poll-Ends k [] v l w = tt
poll-Ends k (r ∷ rs) v l (nv, wl, w) =
    turn-elim (Ends? k v l) k r.clock (asked k.vcom_nfds r.vcom v) (asked k.libc_nfds r.libc l)
      (poll k rs) (λ i. refl)
      (λ i e. absurd (ground (arith, e, asked-Works k.libc_nfds r.libc l wl)))
      (λ a b p q e.
        ((asked k.vcom_nfds r.vcom v).1, (asked k.libc_nfds r.libc l).1, sub_v, sub_l, refl, refl))
      (λ t c b.
        Ends-widen k v l (asked k.vcom_nfds r.vcom v).1 (asked k.libc_nfds r.libc l).1
          (poll k rs (asked k.vcom_nfds r.vcom v).1 (asked k.libc_nfds r.libc l).1) sub_v sub_l
          (poll-Ends k rs (asked k.vcom_nfds r.vcom v).1 (asked k.libc_nfds r.libc l).1 w))
      (λ t c b. tt)
  where
    sub_v : Sub (asked k.vcom_nfds r.vcom v).1 v
    sub_v = asked-Sub k.vcom_nfds r.vcom v nv

    sub_l : Sub (asked k.libc_nfds r.libc l).1 l
    sub_l = asked-Sub k.libc_nfds r.libc l (λ n s. (wl n s).0)
