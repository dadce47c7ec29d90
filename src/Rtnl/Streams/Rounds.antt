-- ===== src/Rtnl/Streams/Rounds.antt =====
-- What one round of rtnl_process of netlink/librtnl/rtnl.c does to the streams.
use mathlib.Core.Option.{map as option_map}
use vppsb.Common.{
  ℕ, ◌≤◌, ◌≡◌, refl, ap, ◌∙◌, true, false, Option, none, some, List, [], ◌∷◌, arith, if◌then◌else◌,
}
use vppsb.Pool.{PoolLib, has, IsDistinct, is_some}
use vppsb.Rtnl.{Ns, Kernel, Ctx, dbl_max, sync_timeout}
use vppsb.Rtnl.Process.{clock, process_timeout, Recvs}
use vppsb.Rtnl.Streams.{
  Main, clock_event, puts, start, finish, clock_all, process_round, earlier, next_timeout,
}

-- A timeout and a clock event free no stream.
process_timeout-puts : (k : Kernel) (c : Ctx) → puts (process_timeout k c).log ≡ puts c.log
unfolding process_timeout sync_timeout
process_timeout-puts k c = ground arith

clock-puts :
    (k : Kernel) (now : ℕ) (ns : Ns)
    → puts (clock k (record { now = now; ns = ns; log = [] })).log ≡ false
unfolding clock
clock-puts k now ns = grind (arith, process_timeout-puts)

module _ (lib : PoolLib) where
  open lib use {Pool, elt, indexes, fresh, write, put, elt-write, has-indexes, indexes-IsDistinct}

  next_timeout-start : (is : List ℕ) (p : Pool Ns) (t : ℕ) → next_timeout lib is p t ≤ t
  unfolding next_timeout
  next_timeout-start [] p t = omega arith
  next_timeout-start (i ∷ is) p t =
      ground (arith, next_timeout-start is p (earlier lib t (elt p i)))

  next_timeout-all :
      (is : List ℕ) (p : Pool Ns) (t i : ℕ) (ns : Ns)
      → has i is ≡ true
      → elt p i ≡ some ns
      → next_timeout lib is p t ≤ ns.timeout
  unfolding next_timeout
  next_timeout-all [] p t i ns h e = cc
  next_timeout-all (j ∷ is) p t i ns h e = ground (
    arith,
    next_timeout-start is p (earlier lib t (elt p j)),
    next_timeout-all is p (earlier lib t (elt p j)) i ns,
  )

  -- The process node never waits beyond the timeout of a stream.
  pub next_timeout_lem :
      (p : Pool Ns) (i : ℕ) (ns : Ns)
      → elt p i ≡ some ns
      → next_timeout lib (indexes p) p dbl_max ≤ ns.timeout
  next_timeout_lem p i ns e =
      next_timeout-all (indexes p) p dbl_max i ns (has-indexes p i ∙ ap is_some e) e

  module _ (now fuel : ℕ) (ks : ℕ → Kernel) (reads : ℕ → Recvs) where
    -- A stream after its clock.
    abbrev pub clocked : ℕ → Ns → Ns
    clocked i ns = (clock (ks i) (record { now = now; ns = ns; log = [] })).ns

    clock_all-elt :
        (is : List ℕ) (m : Main lib) (j : ℕ)
        → IsDistinct is
        → elt (clock_all lib now fuel ks reads is m).streams j
          ≡ (if has j is then option_map (clocked j) (elt m.streams j) else elt m.streams j)
    unfolding clock_all
    clock_all-elt [] m j d = ground arith
    clock_all-elt (i ∷ is) m j d = step (elt m.streams i) refl (λ m. clock_all-elt is m j d.1)
      where
        step :
            (o : Option Ns)
            → elt m.streams i ≡ o
            → ((m : Main lib)
                → elt (clock_all lib now fuel ks reads is m).streams j ≡ (
                    if has j is then option_map (clocked j) (elt m.streams j) else elt m.streams j))
            → elt (clock_all lib now fuel ks reads (i ∷ is) m).streams j ≡ (
                if has j (i ∷ is)
                then option_map (clocked j) (elt m.streams j)
                else elt m.streams j)
        step none e rest = rw (clock_all, e) (ground (arith, e, rest m))
        step (some ns) e rest =
            let c = clock (ks i) (start lib now ns) in
            rw (clock_all, e)
              (ground (
                arith,
                e,
                d.0,
                rest (finish lib i c m),
                clock-puts (ks i) now ns,
                elt-write m.streams i j c.ns,
              ))

    -- A clock event handles each stream once, by itself, and leaves no stream out.
    process_round-clock :
        (m : Main lib)
        → (m' : Main lib) × (process_round lib now fuel ks reads clock_event m ≡ some m')
          × ((j : ℕ) → elt m'.streams j ≡ option_map (clocked j) (elt m.streams j))
    unfolding process_round
    process_round-clock m = (
      clock_all lib now fuel ks reads (indexes m.streams) m,
      refl,
      λ j. ground (
        arith,
        clock_all-elt (indexes m.streams) m j (indexes-IsDistinct m.streams),
        has-indexes m.streams j,
      ),
    )
