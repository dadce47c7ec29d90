-- ===== src/Turbotap/Whole.antt =====
-- The packets that the receive node of turbotap/turbotap/node.c passes on are the messages it read.
use vppsb.Common.{
  ℕ, zero, suc, ◌+◌, ◌-◌, ◌≡◌, ◌≤◌, refl, ap, some, List, [], ◌∷◌, length, arith, min, map, take,
  length-take,
}
use vppsb.Turbotap.{
  fillable, chain, spare, Taken, packets, put_back, adapted, max_recv, Received, received, rx_iface,
  first_bi,
}

-- The bytes that a number of buffers has room for.
abbrev pub room_of : ℕ → ℕ → ℕ
room_of size zero = 0
room_of size (suc k) = size + room_of size k

abbrev pub bytes : List (ℕ × ℕ) → ℕ
bytes [] = 0
bytes ((bi, b) ∷ c) = b + bytes c

-- No message is empty, and each has room in the buffers of a message.
abbrev pub AllFit : ℕ → List ℕ → Type 0
AllFit most [] = Unit {0}
AllFit most (l ∷ ls) = (1 ≤ l) × (l ≤ most) × AllFit most ls

chain-bytes :
    (size : ℕ) (rx : List ℕ) (remain k : ℕ)
    → remain ≤ room_of size k
    → k ≤ length rx
    → (length (chain size remain rx).0 ≤ k)
      × (bytes (chain size remain rx).0 ≡ remain)
      × (length (chain size remain rx).0 + length (chain size remain rx).1 ≡ length rx)
unfolding chain
chain-bytes size [] remain zero h e = (ground arith, ground (arith, h), refl)
chain-bytes size [] remain (suc k) h e = ground (arith, e)
chain-bytes size (bi ∷ rx) zero k h e = (ground arith, refl, ground arith)
chain-bytes size (bi ∷ rx) (suc r) zero h e = ground (arith, h)
chain-bytes size (bi ∷ rx) (suc r) (suc k) h e =
    let ih =
      chain-bytes size rx (suc r - min size (suc r)) k (ground (arith, h)) (ground (arith, e)) in
    (ground (arith, ih.0), ground (arith, ih.1), ground (arith, ih.2))

spare-some :
    (k : ℕ) (rx unused : List ℕ)
    → k ≤ length rx
    → (r : List ℕ × List ℕ) × (spare k rx unused ≡ some r) × (length r.0 + k ≡ length rx)
unfolding spare
spare-some zero rx unused h = ((rx, unused), refl, ground arith)
spare-some (suc k) [] unused h = ground (arith, h)
spare-some (suc k) (bi ∷ rx) unused h =
    let s = spare-some k rx (bi ∷ unused) (ground (arith, h)) in (s.0, s.1, ground (arith, s.2))

fillable-suc :
    (n ready mtu len : ℕ)
    → suc n ≤ fillable ready mtu len
    → (mtu ≤ len) × (n ≤ fillable (ready - 1) mtu (len - mtu))
unfolding fillable
fillable-suc n zero mtu len h = ground (arith, h)
fillable-suc n (suc ready) mtu len h = ground (arith, h)

packets-suc :
    (size mtu room l : ℕ) (ls rx unused a b : List ℕ) (t : Taken)
    → spare (mtu - length (chain size l rx).0) (chain size l rx).1 unused ≡ some (a, b)
    → packets size mtu room ls a b ≡ some t
    → packets size mtu (suc room) (l ∷ ls) rx unused
      ≡ some (record t { chains = (chain size l rx).0 ∷ t.chains })
unfolding packets
packets-suc size mtu room l ls rx unused a b t q e = ground (arith, q, e)

packets-whole :
    (size mtu ready room : ℕ) (ls rx unused : List ℕ)
    → length ls ≤ fillable ready mtu (length rx)
    → AllFit (room_of size mtu) ls
    → (t : Taken) × (packets size mtu room ls rx unused ≡ some t)
      × (map bytes t.chains ≡ take room ls)
unfolding packets
packets-whole size mtu ready zero ls rx unused h f =
    (record { chains = []; rx = rx; unused = unused }, refl, refl)
packets-whole size mtu ready (suc room) [] rx unused h f =
    (record { chains = []; rx = rx; unused = unused }, refl, refl)
packets-whole size mtu ready (suc room) (l ∷ ls) rx unused h f =
    let n = fillable-suc (length ls) ready mtu (length rx) h in
    let c = chain-bytes size rx l mtu f.1 n.0 in
    let s =
      spare-some (mtu - length (chain size l rx).0) (chain size l rx).1 unused
        (ground (arith, c.0, c.2, n.0)) in
    let r =
      packets-whole size mtu (ready - 1) room ls s.0.0 s.0.1
        (ground (arith, n.1, s.2, c.0, c.2, n.0, ap (fillable (ready - 1) mtu))) f.2 in
    (
      record r.0 { chains = (chain size l rx).0 ∷ r.0.chains },
      packets-suc size mtu room l ls rx unused s.0.0 s.0.1 r.0 s.1 r.1,
      head (bytes (chain size l rx).0) l c.1 (map bytes r.0.chains) (take room ls) r.2,
    )
  where
    head : (a b : ℕ) → a ≡ b → (us vs : List ℕ) → us ≡ vs → a ∷ us ≡ b ∷ vs
    head a b p us vs q = rw (p, q) refl

fillable-le : (ready mtu len : ℕ) → fillable ready mtu len ≤ ready
unfolding fillable
fillable-le zero mtu len = ground arith
fillable-le (suc ready) mtu len = ground (arith, fillable-le ready mtu (len - mtu))

adapted-bounds :
    (ready n : ℕ)
    → 1 ≤ ready
    → ready ≤ max_recv
    → n ≤ ready
    → (1 ≤ adapted ready n) × (adapted ready n ≤ max_recv)
unfolding adapted
adapted-bounds ready n a b d = (ground (arith, a, b, d), ground (arith, a, b, d))

length-chains :
    (cs : List (List (ℕ × ℕ))) (room : ℕ) (ls : List ℕ)
    → map bytes cs ≡ take room ls
    → length cs ≤ length ls
length-chains cs room ls e =
    ground (arith, length-map cs, ap (length {A = ℕ}) e, length-take room ls)
  where
    length-map : (cs : List (List (ℕ × ℕ))) → length (map bytes cs) ≡ length cs
    length-map [] = refl
    length-map (c ∷ cs) = ap suc (length-map cs)

nothing : (n : ℕ) → map bytes [] ≡ take n []
nothing zero = refl
nothing (suc n) = refl

-- Where recvmmsg reads no more messages than it was given buffers for, and none that is empty or
-- longer than its buffers, and where it was asked for at least 1 and at most MAX_RECV messages, no
-- vector is read out of range, the packets that are passed on have the lengths of the messages, as
-- many as the frame has room for, and the next read asks for at least 1 and at most MAX_RECV.
pub rx_iface-whole :
    (size mtu ready room : ℕ) (ls buffers : List ℕ)
    → length ls ≤ fillable ready mtu (length buffers)
    → AllFit (room_of size mtu) ls
    → 1 ≤ ready
    → ready ≤ max_recv
    → (r : Received) × (rx_iface size mtu ready room ls buffers ≡ some r)
      × (map bytes r.chains ≡ take room ls)
      × (1 ≤ r.rx_ready)
      × (r.rx_ready ≤ max_recv)
unfolding rx_iface received
rx_iface-whole size mtu ready room [] buffers h f a b = (
  record { chains = []; passed = []; buffers = buffers; rx_ready = ready },
  refl,
  nothing room,
  a,
  b,
)
rx_iface-whole size mtu ready room (l ∷ ls) buffers h f a b =
    let t = packets-whole size mtu ready room (l ∷ ls) buffers [] h f in
    let n = length-chains t.0.chains room (l ∷ ls) t.2 in
    let g =
      adapted-bounds ready (length t.0.chains) a b
        (ground (arith, n, h, fillable-le ready mtu (length buffers))) in
    (
      record {
        chains = t.0.chains;
        passed = map first_bi t.0.chains;
        buffers = put_back t.0.unused t.0.rx;
        rx_ready = adapted ready (length t.0.chains);
      },
      rw (t.1) refl,
      t.2,
      g.0,
      g.1,
    )
