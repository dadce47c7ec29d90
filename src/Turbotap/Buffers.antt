-- ===== src/Turbotap/Buffers.antt =====
-- The buffers of the receive node of turbotap/turbotap/node.c.
use vppsb.Common.{
  ℕ, zero, suc, ◌+◌, ◌-◌, ◌≡◌, refl, Bool, true, false, Option, none, some, List, [], ◌∷◌, ◌==◌,
  length, arith, min, map, ◌≤◌, ◌<◌, ◌≢◌,
}
use mathlib.Core.Path.{subst}
use vppsb.Turbotap.{first_bi, chain, spare, Taken, packets, put_back, Received, received, rx_iface}

abbrev one_if : Bool → ℕ
one_if true = 1
one_if false = 0

-- How often a buffer is in a list, in a chain, and in a list of chains.
abbrev pub times : ℕ → List ℕ → ℕ
times i [] = 0
times i (j ∷ is) = one_if (i == j) + times i is

abbrev pub in_chain : ℕ → List (ℕ × ℕ) → ℕ
in_chain i [] = 0
in_chain i ((j, b) ∷ c) = one_if (i == j) + in_chain i c

abbrev pub in_chains : ℕ → List (List (ℕ × ℕ)) → ℕ
in_chains i [] = 0
in_chains i (c ∷ cs) = in_chain i c + in_chains i cs

chain-times :
    (i size remain : ℕ) (rx : List ℕ)
    → times i rx ≡ in_chain i (chain size remain rx).0 + times i (chain size remain rx).1
unfolding chain
chain-times i size remain [] = refl
chain-times i size zero (bi ∷ rx) = ground arith
chain-times i size (suc r) (bi ∷ rx) =
    ground (arith, chain-times i size (suc r - min size (suc r)) rx)

spare-times :
    (i k : ℕ) (rx unused : List ℕ) (r : List ℕ × List ℕ)
    → spare k rx unused ≡ some r
    → times i rx + times i unused ≡ times i r.0 + times i r.1
unfolding spare
spare-times i zero rx unused (a, b) h = ground (arith, h)
spare-times i (suc k) [] unused r h = ground (arith, h)
spare-times i (suc k) (bi ∷ rx) unused r h = ground (arith, spare-times i k rx (bi ∷ unused) r h)

put_back-times :
    (i : ℕ) (unused rx : List ℕ) → times i (put_back unused rx) ≡ times i unused + times i rx
unfolding put_back
put_back-times i [] rx = ground arith
put_back-times i (bi ∷ unused) rx = ground (arith, put_back-times i unused (bi ∷ rx))

packets-times :
    (i size mtu room : ℕ) (ls rx unused : List ℕ) (t : Taken)
    → packets size mtu room ls rx unused ≡ some t
    → times i rx + times i unused ≡ in_chains i t.chains + times i t.rx + times i t.unused
unfolding packets
packets-times i size mtu zero ls rx unused t h = ground (arith, h)
packets-times i size mtu (suc room) [] rx unused t h = ground (arith, h)
packets-times i size mtu (suc room) (l ∷ ls) rx unused t h =
    go (spare (mtu - length (chain size l rx).0) (chain size l rx).1 unused) refl
      (λ a b u. packets-times i size mtu room ls a b u)
  where
    go :
        (o : Option (List ℕ × List ℕ))
        → spare (mtu - length (chain size l rx).0) (chain size l rx).1 unused ≡ o
        → ((a b : List ℕ) (u : Taken)
            → packets size mtu room ls a b ≡ some u
            → times i a + times i b ≡ in_chains i u.chains + times i u.rx + times i u.unused)
        → times i rx + times i unused ≡ in_chains i t.chains + times i t.rx + times i t.unused
    go none q ih = ground (arith, q, h)
    go (some (a, b)) q ih = by (packets size mtu room ls a b) refl (ih a b)
      where
        by :
            (p : Option Taken)
            → packets size mtu room ls a b ≡ p
            → ((u : Taken)
                → packets size mtu room ls a b ≡ some u
                → times i a + times i b ≡ in_chains i u.chains + times i u.rx + times i u.unused)
            → times i rx + times i unused ≡ in_chains i t.chains + times i t.rx + times i t.unused
        by none e ih = ground (arith, q, e, h)
        by (some u) e ih = ground (
          arith,
          q,
          e,
          h,
          ih u e,
          chain-times i size l rx,
          spare-times i (mtu - length (chain size l rx).0) (chain size l rx).1 unused (a, b) q,
        )

rx_iface-in_chains :
    (size mtu ready room : ℕ) (ls buffers : List ℕ) (r : Received)
    → rx_iface size mtu ready room ls buffers ≡ some r
    → (i : ℕ) → times i buffers ≡ in_chains i r.chains + times i r.buffers
unfolding rx_iface received
rx_iface-in_chains size mtu ready room [] buffers r h i = ground (arith, h)
rx_iface-in_chains size mtu ready room (l ∷ ls) buffers r h i =
    go (packets size mtu room (l ∷ ls) buffers []) refl
  where
    go :
        (o : Option Taken)
        → packets size mtu room (l ∷ ls) buffers [] ≡ o
        → times i buffers ≡ in_chains i r.chains + times i r.buffers
    go none q = ground (arith, q, h)
    go (some t) q = ground (
      arith,
      q,
      h,
      packets-times i size mtu room (l ∷ ls) buffers [] t q,
      put_back-times i t.unused t.rx,
    )

-- No message is empty.
abbrev pub AllFull : List ℕ → Type 0
AllFull [] = Unit {0}
AllFull (l ∷ ls) = (l ≢ 0) × AllFull ls

-- Each packet has a buffer.
abbrev AllHeld : List (List (ℕ × ℕ)) → Type 0
AllHeld [] = Unit {0}
AllHeld (c ∷ cs) = (c ≢ []) × AllHeld cs

-- The chain of a message that is not empty has a buffer, unless the vector is read out of range.
chain-ne-[] :
    (size mtu l : ℕ) (rx unused : List ℕ) (r : List ℕ × List ℕ)
    → 0 < mtu
    → l ≢ 0
    → spare (mtu - length (chain size l rx).0) (chain size l rx).1 unused ≡ some r
    → (chain size l rx).0 ≢ []
unfolding chain spare
chain-ne-[] size zero l [] unused r m n h = absurd (omega (arith, m))
chain-ne-[] size (suc k) l [] unused r m n h = absurd (ground (arith, h))
chain-ne-[] size mtu zero (bi ∷ rx) unused r m n h = absurd (n refl)
chain-ne-[] size mtu (suc l) (bi ∷ rx) unused r m n h = λ e. ground (arith, e)

packets-AllHeld :
    (size mtu room : ℕ) (ls rx unused : List ℕ) (t : Taken)
    → 0 < mtu
    → AllFull ls
    → packets size mtu room ls rx unused ≡ some t
    → AllHeld t.chains
unfolding packets
packets-AllHeld size mtu zero ls rx unused t m full h = ground (arith, h)
packets-AllHeld size mtu (suc room) [] rx unused t m full h = ground (arith, h)
packets-AllHeld size mtu (suc room) (l ∷ ls) rx unused t m full h =
    go (spare (mtu - length (chain size l rx).0) (chain size l rx).1 unused) refl
      (λ a b u. packets-AllHeld size mtu room ls a b u m full.1)
  where
    go :
        (o : Option (List ℕ × List ℕ))
        → spare (mtu - length (chain size l rx).0) (chain size l rx).1 unused ≡ o
        → ((a b : List ℕ) (u : Taken) → packets size mtu room ls a b ≡ some u → AllHeld u.chains)
        → AllHeld t.chains
    go none q ih = ground (arith, q, h)
    go (some (a, b)) q ih = by (packets size mtu room ls a b) refl
      where
        by : (p : Option Taken) → packets size mtu room ls a b ≡ p → AllHeld t.chains
        by none e = ground (arith, q, e, h)
        by (some u) e =
            subst AllHeld {x = (chain size l rx).0 ∷ u.chains} (ground (arith, q, e, h))
              (chain-ne-[] size mtu l rx unused (a, b) m full.0 q, ih a b u e)

-- The first buffer of a packet is one of its buffers.
first_bi-times :
    (i : ℕ) (cs : List (List (ℕ × ℕ))) → AllHeld cs → times i (map first_bi cs) ≤ in_chains i cs
first_bi-times i [] h = omega arith
first_bi-times i ([] ∷ cs) h = absurd (h.0 refl)
first_bi-times i (((j, n) ∷ c) ∷ cs) h = ground (arith, first_bi-times i cs h.1)

rx_iface-passed :
    (size mtu ready room : ℕ) (ls buffers : List ℕ) (r : Received)
    → 0 < mtu
    → AllFull ls
    → rx_iface size mtu ready room ls buffers ≡ some r
    → (i : ℕ) → times i r.passed ≤ in_chains i r.chains
unfolding rx_iface received
rx_iface-passed size mtu ready room [] buffers r m full h i = ground (arith, h)
rx_iface-passed size mtu ready room (l ∷ ls) buffers r m full h i =
    go (packets size mtu room (l ∷ ls) buffers []) refl
  where
    go :
        (o : Option Taken)
        → packets size mtu room (l ∷ ls) buffers [] ≡ o
        → times i r.passed ≤ in_chains i r.chains
    go none q = ground (arith, q, h)
    go (some t) q = ground (
      arith,
      q,
      h,
      first_bi-times i t.chains (packets-AllHeld size mtu room (l ∷ ls) buffers [] t m full q),
    )

-- Unless a vector is read out of range, a read of messages that are not empty, of at least one buffer
-- each, neither loses a buffer nor uses one twice: each buffer is in the chains of the packets and in
-- the buffers that are left, in both together, as often as it was in the buffers before, and it is
-- passed on at most as often as it is in the chains. For an empty message, which is left out, buffer
-- 0 would be passed on.
pub rx_iface-times :
    (size mtu ready room : ℕ) (ls buffers : List ℕ) (r : Received)
    → 0 < mtu
    → AllFull ls
    → rx_iface size mtu ready room ls buffers ≡ some r
    → (i : ℕ)
    → (times i buffers ≡ in_chains i r.chains + times i r.buffers)
      × (times i r.passed ≤ in_chains i r.chains)
rx_iface-times size mtu ready room ls buffers r m full h i = (
  rx_iface-in_chains size mtu ready room ls buffers r h i,
  rx_iface-passed size mtu ready room ls buffers r m full h i,
)
