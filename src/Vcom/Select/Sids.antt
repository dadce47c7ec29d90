-- ===== src/Vcom/Select/Sids.antt =====
-- The session ids that select of vcl-ldpreload/src/libvcl-ldpreload/vcom_socket.c asks for.
use vppsb.Common.{
  ℕ, ◌≡◌, refl, Bool, true, false, ◌&&◌, ◌||◌, not, Option, none, some, List, [], ◌∷◌, ◌==◌,
  no_index, arith,
}
use vppsb.Pool.{is_some}
use vppsb.Vcom.Select.{
  FdSet, Sets, SidSets, span, put_rd, put_wr, put_ex, then_put, sids_of, fds_2_sid_fds,
}

module _ (sid : ℕ → ℕ) where
  -- Whether a descriptor of the list is in the set and has the session id.
  abbrev pub hit : FdSet → ℕ → List ℕ → Bool
  hit f x [] = false
  hit f x (fd ∷ fds) = (f fd && sid fd == x) || hit f x fds

  -- Whether a descriptor of the list is watched and has no session.
  abbrev pub lacks : Sets → List ℕ → Bool
  lacks w [] = false
  lacks w (fd ∷ fds) = ((w.rd fd || w.wr fd || w.ex fd) && sid fd == no_index) || lacks w fds

  abbrev one_step : Sets → ℕ → SidSets → Option SidSets
  one_step w fd a =
      then_put (then_put (put_rd (w.rd fd) (sid fd) a) (put_wr (w.wr fd) (sid fd)))
        (put_ex (w.ex fd) (sid fd))

  -- What one descriptor adds to the sets.
  abbrev AddsFd : Sets → ℕ → SidSets → SidSets → Type 0
  AddsFd w fd a b =
      ((x : ℕ) → b.sets.rd x ≡ (a.sets.rd x || (w.rd fd && sid fd == x)))
      × ((x : ℕ) → b.sets.wr x ≡ (a.sets.wr x || (w.wr fd && sid fd == x)))
      × ((x : ℕ) → b.sets.ex x ≡ (a.sets.ex x || (w.ex fd && sid fd == x)))

  one_step-AddsFd : (w : Sets) (fd : ℕ) (a b : SidSets) → one_step w fd a ≡ some b → AddsFd w fd a b
  one_step-AddsFd w fd a b h =
      (λ x. ground (arith, h), λ x. ground (arith, h), λ x. ground (arith, h))

  one_step-is_some :
      (w : Sets) (fd : ℕ) (a : SidSets)
      → is_some (one_step w fd a) ≡ not ((w.rd fd || w.wr fd || w.ex fd) && sid fd == no_index)
  one_step-is_some w fd a = ground arith

  sids_of-is_some :
      (w : Sets) (fds : List ℕ) (a : SidSets) → is_some (sids_of sid w fds a) ≡ not (lacks w fds)
  unfolding sids_of
  sids_of-is_some w [] a = refl
  sids_of-is_some w (fd ∷ fds) a = go (one_step w fd a) refl (λ b. sids_of-is_some w fds b)
    where
      go :
          (o : Option SidSets)
          → one_step w fd a ≡ o
          → ((b : SidSets) → is_some (sids_of sid w fds b) ≡ not (lacks w fds))
          → is_some (then_put (one_step w fd a) (sids_of sid w fds)) ≡ not (lacks w (fd ∷ fds))
      go none q ih = rw (q) (ground (arith, q, one_step-is_some w fd a))
      go (some b) q ih = rw (q) (ground (arith, q, one_step-is_some w fd a, ih b))

  -- What a list of descriptors adds to the sets.
  abbrev pub Adds : Sets → List ℕ → SidSets → SidSets → Type 0
  Adds w fds a b =
      ((x : ℕ) → b.sets.rd x ≡ (a.sets.rd x || hit w.rd x fds))
      × ((x : ℕ) → b.sets.wr x ≡ (a.sets.wr x || hit w.wr x fds))
      × ((x : ℕ) → b.sets.ex x ≡ (a.sets.ex x || hit w.ex x fds))

  sids_of-Adds :
      (w : Sets) (fds : List ℕ) (a b : SidSets) → sids_of sid w fds a ≡ some b → Adds w fds a b
  unfolding sids_of
  sids_of-Adds w [] a b h = (λ x. ground (arith, h), λ x. ground (arith, h), λ x. ground (arith, h))
  sids_of-Adds w (fd ∷ fds) a b h = go (one_step w fd a) refl (λ c. sids_of-Adds w fds c b) h
    where
      go :
          (o : Option SidSets)
          → one_step w fd a ≡ o
          → ((c : SidSets) → sids_of sid w fds c ≡ some b → Adds w fds c b)
          → then_put o (sids_of sid w fds) ≡ some b
          → Adds w (fd ∷ fds) a b
      go none q ih h = ground (arith, h)
      go (some c) q ih h =
          let r = ih c h in
          let d = one_step-AddsFd w fd a c q in
          (
            λ x. ground (arith, r.0 x, d.0 x),
            λ x. ground (arith, r.1 x, d.1 x),
            λ x. ground (arith, r.2 x, d.2 x),
          )

  -- The sets of session ids that stand for the watched descriptors of a list.
  abbrev pub Asks : Sets → List ℕ → Option SidSets → Type 0
  Asks w fds none = lacks w fds ≡ true
  Asks w fds (some b) =
      (lacks w fds ≡ false)
      × ((x : ℕ)
          → (b.sets.rd x ≡ hit w.rd x fds)
            × (b.sets.wr x ≡ hit w.wr x fds)
            × (b.sets.ex x ≡ hit w.ex x fds))

  -- The session ids that are asked for are exactly those of the watched descriptors below `nfds`, in
  -- each of the three sets; the call is refused exactly where one of these descriptors has none.
  pub fds_2_sid_fds-Asks : (nfds : ℕ) (w : Sets) → Asks w (span 0 nfds) (fds_2_sid_fds sid nfds w)
  unfolding fds_2_sid_fds
  fds_2_sid_fds-Asks nfds w = go (fds_2_sid_fds sid nfds w) refl (sids_of-is_some w (span 0 nfds) _)
    where
      go :
          (o : Option SidSets)
          → fds_2_sid_fds sid nfds w ≡ o
          → is_some (fds_2_sid_fds sid nfds w) ≡ not (lacks w (span 0 nfds))
          → Asks w (span 0 nfds) o
      go none q l = ground (arith, q, l)
      go (some b) q l =
          let r = sids_of-Adds w (span 0 nfds) _ b q in
          (ground (arith, q, l), λ x. (r.0 x, r.1 x, r.2 x))
