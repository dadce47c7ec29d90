-- ===== src/Preload/Polling/Blind.antt =====
-- The polling loop of vcom_select in vcl-ldpreload/src/libvcl-ldpreload/vcom.c goes on with the
-- sets that the round before left.
use vppsb.Common.{
  ℕ, ◌<◌, ◌≡◌, ◌≢◌, refl, ap, sym, ◌∙◌, ◌⊎◌, inl, inr, true, false, ◌||◌, Option, none, some, List,
  [], ◌∷◌, ◌==◌, ==_iff, ltb, arith, Bool-cases,
}
use mathlib.Core.Path.{subst}
use vppsb.Vcom.{Rv, ret, err}
use vppsb.Vcom.Select.{Sets}
use vppsb.Preload.Polling.{Round, Ended, done, timed_out, Watch, asked, turn, poll}
use vppsb.Preload.Polling.Rounds.{turn-elim}
use vppsb.Vcom.Select.{span, counted}
use vppsb.Pool.{has}
use vppsb.Preload.Sets.Parts.{any, has-span}
use vppsb.Preload.Polling.Rounds.{Sub}
use vppsb.Preload.Polling.Ready.{Sub-any}

-- libc_select, as documented and without an error: it takes descriptors out of the sets and returns
-- how many are left.
abbrev pub Counts : (ℕ → Sets → Rv × Sets) → Type 0
Counts f = (n : ℕ) (s : Sets) → Sub (f n s).1 s × ((f n s).0 ≡ ret (counted (f n s).1 (span 0 n)))

abbrev pub AllCount : List Round → Type 0
AllCount [] = Unit {0}
AllCount (r ∷ rs) = Counts r.libc × AllCount rs

abbrev pub IsEmpty : Sets → Type 0
IsEmpty s = (x : ℕ) → any s x ≡ false

pub counted-IsEmpty : (s : Sets) (fds : List ℕ) → IsEmpty s → counted s fds ≡ 0
counted-IsEmpty s [] h = refl
counted-IsEmpty s (fd ∷ fds) h = ground (arith, h fd, counted-IsEmpty s fds h)

Sub-IsEmpty : (s w : Sets) → Sub s w → IsEmpty w → IsEmpty s
Sub-IsEmpty s w (f, g, h) e = λ x. ground (arith, e x, f x, g x, h x)

counted-member :
    (s : Sets) (fds : List ℕ) (x : ℕ) → any s x ≡ true → has x fds ≡ true → 0 < counted s fds
counted-member s [] x m i = absurd (ground (arith, i))
counted-member s (fd ∷ fds) x m i = elim (Bool-cases (fd == x)) [
  | inl e ↦ ground (arith, m, (==_iff fd x).0 e, ap (any s) ((==_iff fd x).0 e))
  | inr e ↦ ground (arith, e, counted-member s fds x m)
]

-- Where nothing is counted there is nothing.
counted_none :
    (s : Sets) (n : ℕ) → ((x : ℕ) → any s x ≡ true → x < n) → counted s (span 0 n) ≡ 0 → IsEmpty s
counted_none s n below h = λ x. go x (Bool-cases (any s x))
  where
    go : (x : ℕ) → (any s x ≡ true) ⊎ (any s x ≡ false) → any s x ≡ false
    go x (inl m) = absurd (
        omega
          (arith, h, counted-member s (span 0 n) x m (ground (arith, has-span x 0 n, below x m))))
    go x (inr m) = m

span_none : (n : ℕ) (s : Sets) → (n == 0) ≡ true → 0 ≡ counted s (span 0 n)
span_none n s z = sym (ap (λ k. counted s (span 0 k)) ((==_iff n 0).0 z))

asked-Counts : (f : ℕ → Sets → Rv × Sets) → Counts f → Counts (λ m. asked m f)
asked-Counts f c m s = go (Bool-cases (m == 0))
  where
    go :
        ((m == 0) ≡ true) ⊎ ((m == 0) ≡ false)
        → Sub (asked m f s).1 s × ((asked m f s).0 ≡ ret (counted (asked m f s).1 (span 0 m)))
    go (inl z) = rw z ((λ x h. h, λ x h. h, λ x h. h), ap ret (span_none m s z))
    go (inr z) = rw z (c m s)

-- The loop does not report a number.
abbrev Quiet : Option Ended → Type 0
Quiet none = Unit {0}
Quiet (some (done (err i) s)) = Unit {0}
Quiet (some (done (ret n) s)) = ⊥
Quiet (some timed_out) = Unit {0}

ret_injective : {m n : ℕ} → ret m ≡ ret n → m ≡ n
ret_injective {m} e = ap (λ r. elim r [ ret n ↦ n | err i ↦ m ]) e

asked_none : (n : ℕ) (f : ℕ → Sets → Rv × Sets) (s : Sets) → n ≡ 0 → (asked n f s).0 ≡ ret 0
asked_none n f s z = ground (arith, z)

-- Without a descriptor of VPP, after a round that found none of the C library's.
module _ (k : Watch) (only : k.vcom_nfds ≡ 0) where
  turn-Quiet :
      (r : Round) (v l : Sets) (rest : Sets → Sets → Option Ended)
      → (asked k.libc_nfds r.libc l).0 ≡ ret 0
      → Quiet (rest (asked k.vcom_nfds r.vcom v).1 (asked k.libc_nfds r.libc l).1)
      → Quiet (turn k r.clock (asked k.vcom_nfds r.vcom v) (asked k.libc_nfds r.libc l) rest)
  turn-Quiet r v l rest none_ready quiet =
      turn-elim Quiet k r.clock (asked k.vcom_nfds r.vcom v) (asked k.libc_nfds r.libc l) rest
        (λ i. tt) (λ i e. ground (arith, sym none_ready ∙ e))
        (λ a b p q m. absurd (
          neither (ret_injective (sym (asked_none k.vcom_nfds r.vcom v only) ∙ p))
            (ret_injective (sym none_ready ∙ q)) m))
        (λ t c b. quiet) (λ t c b. tt)
    where
      neither : {a b : ℕ} → 0 ≡ a → 0 ≡ b → (ltb 0 a || ltb 0 b) ≢ true
      neither e f m = ground (arith, e, f, m)

  poll-Quiet : (rs : List Round) (v l : Sets) → IsEmpty l → AllCount rs → Quiet (poll k rs v l)
  unfolding poll
  poll-Quiet [] v l e c = tt
  poll-Quiet (r ∷ rs) v l e (c, cs) =
      turn-Quiet r v l (poll k rs)
        (counts.1 ∙ ap ret (counted-IsEmpty left (span 0 k.libc_nfds) empty))
        (poll-Quiet rs (asked k.vcom_nfds r.vcom v).1 left empty cs)
    where
      left : Sets
      left = (asked k.libc_nfds r.libc l).1

      counts :
          Sub left l × ((asked k.libc_nfds r.libc l).0 ≡ ret (counted left (span 0 k.libc_nfds)))
      counts = asked-Counts r.libc c k.libc_nfds l

      empty : IsEmpty left
      empty = Sub-IsEmpty left l counts.0 e

-- Only descriptors of the C library are watched, all below the number that it is given, and in no
-- round libc_select fails: it takes descriptors out of the sets and returns how many are left. If it
-- returns 0 in the first round, the loop never returns a number of ready descriptors, whatever becomes
-- ready later: libc_select has emptied the sets, and the loop asks with those.
pub poll-reports_none :
    (k : Watch) (r : Round) (rs : List Round) (v l : Sets) (n : ℕ) (s : Sets)
    → k.vcom_nfds ≡ 0
    → ((x : ℕ) → any l x ≡ true → x < k.libc_nfds)
    → AllCount (r ∷ rs)
    → (asked k.libc_nfds r.libc l).0 ≡ ret 0
    → poll k (r ∷ rs) v l ≢ some (done (ret n) s)
unfolding poll
poll-reports_none k r rs v l n s only below (c, cs) none_ready h = subst Quiet h (
    turn-Quiet k only r v l (poll k rs) none_ready (
      poll-Quiet k only rs (asked k.vcom_nfds r.vcom v).1 (asked k.libc_nfds r.libc l).1
        (empty (asked-Counts r.libc c k.libc_nfds l)) cs))
  where
    empty :
        Sub (asked k.libc_nfds r.libc l).1 l
          × ((asked k.libc_nfds r.libc l).0
              ≡ ret (counted (asked k.libc_nfds r.libc l).1 (span 0 k.libc_nfds)))
        → IsEmpty (asked k.libc_nfds r.libc l).1
    empty (sub, e) =
        counted_none (asked k.libc_nfds r.libc l).1 k.libc_nfds
          (λ x m. below x (Sub-any (asked k.libc_nfds r.libc l).1 l x sub m))
          (ret_injective (sym e ∙ none_ready))
