-- ===== src/Vcom/Select/Ready.antt =====
-- What select of vcl-ldpreload/src/libvcl-ldpreload/vcom_socket.c answers.
use vppsb.Common.{
  Option, ℕ, zero, suc, ◌+◌, ◌^◌, ◌≡◌, ◌<◌, refl, ap, ◌∙◌, Bool, true, false, ◌&&◌, ◌||◌, not, some,
  List, [], ◌∷◌, ◌==◌, ltb, leb, if◌then◌else◌, arith, Bool-cases, ==_iff, ◌⊎◌, inl, inr,
}
use mathlib.Core.Path.{subst}
use vppsb.Pool.{PoolLib, has}
use vppsb.Vcom.{Rv, ret, Main, get_sid}
use vppsb.Vcom.Select.{
  FdSet, Sets, SidSets, span, kept, cleared, counted, readied, answered, fds_2_sid_fds, wait_for,
  select,
}
use vppsb.Vcom.Select.Sids.{hit, lacks, Asks, fds_2_sid_fds-Asks}

has-span : (x fd k : ℕ) → has x (span fd k) ≡ (leb fd x && ltb x (fd + k))
has-span x fd zero = ground arith
has-span x fd (suc k) = ground (arith, has-span x (fd + 1) k)

-- The set that is left of one: a descriptor of the list stays if its session id is ready.
abbrev pub left_of : (ℕ → ℕ) → FdSet → List ℕ → FdSet → FdSet
left_of sid s fds f x = f x && (not (has x fds) || s (sid x))

module _ (sid : ℕ → ℕ) (s : Sets) where
  abbrev stepped : Sets → ℕ → Sets
  stepped w fd = record {
    rd = if w.rd fd then kept fd (sid fd) s.rd w.rd else w.rd;
    wr = if w.wr fd then kept fd (sid fd) s.wr w.wr else w.wr;
    ex = if w.ex fd then kept fd (sid fd) s.ex w.ex else w.ex;
  }

  kept_fd :
      (t f : FdSet) (fd x : ℕ)
      → (if f fd then kept fd (sid fd) t f else f) x ≡ (f x && (not (fd == x) || t (sid x)))
  kept_fd t f fd x = go (Bool-cases (fd == x))
    where
      go :
          ((fd == x) ≡ true) ⊎ ((fd == x) ≡ false)
          → (if f fd then kept fd (sid fd) t f else f) x ≡ (f x && (not (fd == x) || t (sid x)))
      go (inl e) = ground (arith, e, ap sid ((==_iff fd x).0 e), ap f ((==_iff fd x).0 e))
      go (inr e) = ground (arith, e)

  stepped-lacks :
      (w : Sets) (fd : ℕ) (fds : List ℕ)
      → lacks sid w fds ≡ false
      → lacks sid (stepped w fd) fds ≡ false
  stepped-lacks w fd [] h = refl
  stepped-lacks w fd (g ∷ fds) h =
      rw (kept_fd s.rd w.rd fd g, kept_fd s.wr w.wr fd g, kept_fd s.ex w.ex fd g)
        (ground (arith, h, stepped-lacks w fd fds))

  abbrev Leaves : Sets → List ℕ → Bool × Sets → Type 0
  Leaves w fds r =
      (r.0 ≡ true)
      × ((x : ℕ) → r.1.rd x ≡ left_of sid s.rd fds w.rd x)
      × ((x : ℕ) → r.1.wr x ≡ left_of sid s.wr fds w.wr x)
      × ((x : ℕ) → r.1.ex x ≡ left_of sid s.ex fds w.ex x)

  cleared-Leaves :
      (fds : List ℕ) (w : Sets) → lacks sid w fds ≡ false → Leaves w fds (cleared sid s fds w)
  unfolding cleared
  cleared-Leaves [] w h = (refl, λ x. ground arith, λ x. ground arith, λ x. ground arith)
  cleared-Leaves (fd ∷ fds) w h =
      let r = cleared-Leaves fds (stepped w fd) (stepped-lacks w fd fds (ground (arith, h))) in
      (
        ground (arith, h, r.0),
        λ x. ground (arith, h, r.1 x, kept_fd s.rd w.rd fd x),
        λ x. ground (arith, h, r.2 x, kept_fd s.wr w.wr fd x),
        λ x. ground (arith, h, r.3 x, kept_fd s.ex w.ex fd x),
      )

  -- The whole answer, by the sets of session ids that are ready.
  answered-ready :
      (nfds n : ℕ) (w : Sets)
      → lacks sid w (span 0 nfds) ≡ false
      → (answered sid nfds w (ret (suc n), s) ≡ (
        ret (counted (cleared sid s (span 0 nfds) w).1 (span 0 nfds)),
        (cleared sid s (span 0 nfds) w).1,
      ))
        × Leaves w (span 0 nfds) (cleared sid s (span 0 nfds) w)
  unfolding answered
  answered-ready nfds n w h =
      let l = cleared-Leaves (span 0 nfds) w h in (go (cleared sid s (span 0 nfds) w) l.0, l)
    where
      go : (r : Bool × Sets) → r.0 ≡ true → readied nfds r ≡ (ret (counted r.1 (span 0 nfds)), r.1)
      go (true, w') t = refl
      go (false, w') t = ground (arith, t)

module _ (lib : PoolLib) (m : Main lib) (nfds n : ℕ) (w s : Sets) (a : SidSets)
    (timeout : Option (ℕ × ℕ)) (vppcom : Option ℕ → SidSets → Rv × Sets)
    (asks : fds_2_sid_fds (get_sid lib m) nfds w ≡ some a)
    (ready : vppcom (wait_for timeout) a ≡ (ret (suc n), s)) (small : nfds < 2 ^ 31) where
  -- What select returns where vppcom says that sessions are ready.
  select-answered :
      select lib m true nfds w timeout vppcom
      ≡ some (answered (get_sid lib m) nfds w (ret (suc n), s))
  unfolding select
  select-answered = ground (arith, asks, ready, small)

  fds_asked : Asks (get_sid lib m) w (span 0 nfds) (some a)
  fds_asked =
      subst (Asks (get_sid lib m) w (span 0 nfds)) asks (fds_2_sid_fds-Asks (get_sid lib m) nfds w)

  -- Some set is given, `nfds` is below 2^31, each descriptor below it that is watched has a session, and
  -- vppcom says with a number above 0 which sessions are ready. Then an entry of a descriptor below
  -- `nfds` is left in the sets exactly where the session of its descriptor is ready, and select returns
  -- how many of these entries are left. The entries of other descriptors stay, and are not counted.
  pub select-ready :
      (w' : Sets) × (select lib m true nfds w timeout vppcom
        ≡ some (ret (counted w' (span 0 nfds)), w'))
      × ((x : ℕ) → w'.rd x ≡ (w.rd x && (not (ltb x nfds) || s.rd (get_sid lib m x))))
      × ((x : ℕ) → w'.wr x ≡ (w.wr x && (not (ltb x nfds) || s.wr (get_sid lib m x))))
      × ((x : ℕ) → w'.ex x ≡ (w.ex x && (not (ltb x nfds) || s.ex (get_sid lib m x))))
  select-ready =
      let r = answered-ready (get_sid lib m) s nfds n w fds_asked.0 in
      (
        (cleared (get_sid lib m) s (span 0 nfds) w).1,
        select-answered ∙ ap some r.0,
        λ x. ground (arith, r.1.1 x, has-span x 0 nfds),
        λ x. ground (arith, r.1.2 x, has-span x 0 nfds),
        λ x. ground (arith, r.1.3 x, has-span x 0 nfds),
      )

hit-member :
    (sid : ℕ → ℕ) (f : FdSet) (x : ℕ) (fds : List ℕ)
    → f x ≡ true
    → has x fds ≡ true
    → hit sid f (sid x) fds ≡ true
hit-member sid f x [] h i = ground (arith, i)
hit-member sid f x (fd ∷ fds) h i = go (Bool-cases (fd == x)) (hit-member sid f x fds h)
  where
    go :
        ((fd == x) ≡ true) ⊎ ((fd == x) ≡ false)
        → (has x fds ≡ true → hit sid f (sid x) fds ≡ true)
        → hit sid f (sid x) (fd ∷ fds) ≡ true
    go (inl e) ih = ground (
      arith,
      e,
      h,
      ap f ((==_iff fd x).0 e),
      (==_iff (sid fd) (sid x)).1 (ap sid ((==_iff fd x).0 e)),
    )
    go (inr e) ih = ground (arith, e, i, ih)

module _ (lib : PoolLib) (m : Main lib) (nfds n : ℕ) (w : Sets) (a : SidSets)
    (timeout : Option (ℕ × ℕ)) (vppcom : Option ℕ → SidSets → Rv × Sets)
    (asks : fds_2_sid_fds (get_sid lib m) nfds w ≡ some a)
    (ready : vppcom (wait_for timeout) a ≡ (ret (suc n), a.sets)) (small : nfds < 2 ^ 31) where
  left_hit :
      (f : FdSet) (x : ℕ)
      → (f x && (not (ltb x nfds) || hit (get_sid lib m) f (get_sid lib m x) (span 0 nfds))) ≡ f x
  left_hit f x = ground (arith, hit-member (get_sid lib m) f x (span 0 nfds), has-span x 0 nfds)

  -- Where every session that was asked for is ready, the sets come back as they were.
  pub select-all_ready :
      (w' : Sets) × (select lib m true nfds w timeout vppcom
        ≡ some (ret (counted w' (span 0 nfds)), w'))
      × ((x : ℕ) → w'.rd x ≡ w.rd x)
      × ((x : ℕ) → w'.wr x ≡ w.wr x)
      × ((x : ℕ) → w'.ex x ≡ w.ex x)
  select-all_ready =
      let r = select-ready lib m nfds n w a.sets a timeout vppcom asks ready small in
      let f = fds_asked lib m nfds n w a.sets a timeout vppcom asks ready small in
      (
        r.0,
        r.1,
        λ x. ground (arith, r.2 x, (f.1 (get_sid lib m x)).0, left_hit w.rd x),
        λ x. ground (arith, r.3 x, (f.1 (get_sid lib m x)).1, left_hit w.wr x),
        λ x. ground (arith, r.4 x, (f.1 (get_sid lib m x)).2, left_hit w.ex x),
      )
