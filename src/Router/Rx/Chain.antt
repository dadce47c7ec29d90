-- ===== src/Router/Rx/Chain.antt =====
-- The chain of buffers that tap_rx of router/router/tap_inject_node.c builds.
use mathlib.Core.List.{reverse, reverse-cons}
use vppsb.Common.{
  ℕ, ◌+◌, ◌-◌, ◌*◌, ◌≤◌, ◌<◌, ◌≡◌, ◌≢◌, refl, sym, ap, none, some, List, [], ◌∷◌, arith, ltb, ◌==◌,
  length, take, Bool-cases, inl, inr, true, false, if◌then◌else◌, ltb→lt, le→not_ltb, length-append,
  length-take, no_index,
}
use vppsb.Router.{Main}
use vppsb.Router.Tables.{sw_at, lookup_sw_if_index_from_tap_fd_lem}
use vppsb.Router.Rx.{Segment, RxKernel, received, chain, mtu_buffers, from_end, refill, tap_rx}

abbrev pub total : List Segment → ℕ
total [] = 0
total (s ∷ segs) = s.current_length + total segs

-- Each buffer of the chain names the next, and the last one none; all but the last are full.
abbrev pub IsChain : ℕ → List ℕ → List Segment → Type 0
IsChain size bs [] = ⊥
IsChain size [] (s ∷ segs) = ⊥
IsChain size (b ∷ bs) (s ∷ []) = (s.bi ≡ b) × (s.next_buffer ≡ none) × (s.current_length ≤ size)
IsChain size (b ∷ bs) (s ∷ t ∷ segs) =
    (s.bi ≡ b)
    × (s.next_buffer ≡ some t.bi)
    × (s.current_length ≡ size)
    × IsChain size bs (t ∷ segs)

-- What is proved of the chain of `n` bytes over `bs`.
abbrev pub Splits : ℕ → List ℕ → ℕ → Type 0
Splits size bs n =
    (segs : List Segment) × (chain size bs n ≡ some segs) × (total segs ≡ n) × IsChain size bs segs

last_Splits : (size b : ℕ) (bs : List ℕ) (n : ℕ) → ltb size n ≡ false → Splits size (b ∷ bs) n
unfolding chain
last_Splits size b bs n e = (
  record { bi = b; current_length = n; next_buffer = none } ∷ [],
  rw e,
  omega arith,
  (refl, refl, ground arith),
)

more_Splits :
    (size b b' : ℕ) (bs : List ℕ) (n : ℕ)
    → ltb size n ≡ true
    → Splits size (b' ∷ bs) (n - size)
    → Splits size (b ∷ b' ∷ bs) n
more_Splits size b b' bs n e ([], c, t, h) = absurd h
more_Splits size b b' bs n e (s ∷ segs, c, t, h) = (
  record { bi = b; current_length = size; next_buffer = some b' } ∷ s ∷ segs,
  step,
  omega (arith, ltb→lt size n e),
  (refl, ap some (sym (first s segs h)), refl, h),
)
  where
    first : (s : Segment) (segs : List Segment) → IsChain size (b' ∷ bs) (s ∷ segs) → s.bi ≡ b'
    first s [] h = h.0
    first s (t ∷ segs) h = h.0

    step :
        chain size (b ∷ b' ∷ bs) n
        ≡ some (record { bi = b; current_length = size; next_buffer = some b' } ∷ s ∷ segs)
    step = unfold chain in rw (e, c)

-- A packet that fits the buffers is split over the first of them: every byte is in one buffer, and
-- the buffers are linked in order.
pub chain-Splits :
    (size : ℕ) (bs : List ℕ) (n : ℕ) → bs ≢ [] → n ≤ length bs * size → Splits size bs n
chain-Splits size [] n e h = absurd (e refl)
chain-Splits size (b ∷ []) n e h = last_Splits size b [] n (ground arith)
chain-Splits size (b ∷ b' ∷ bs) n e h = elim (Bool-cases (ltb size n)) [
  | inl more ↦
      more_Splits size b b' bs n more
        (chain-Splits size (b' ∷ bs) (n - size) (λ e. cc) (omega (arith, ltb→lt size n more)))
  | inr last ↦ last_Splits size b (b' ∷ bs) n last
]

-- The chain takes no more buffers than there are.
length-IsChain :
    (size : ℕ) (bs : List ℕ) (segs : List Segment) → IsChain size bs segs → length segs ≤ length bs
length-IsChain size bs [] h = absurd h
length-IsChain size [] (s ∷ segs) h = absurd h
length-IsChain size (b ∷ bs) (s ∷ []) h = omega arith
length-IsChain size (b ∷ bs) (s ∷ t ∷ segs) h = omega (arith, length-IsChain size bs (t ∷ segs) h.3)

-- The buffers for an MTU hold 1500 bytes.
mtu_fits : (size : ℕ) → 0 < size → 1500 ≤ mtu_buffers size * size
unfolding mtu_buffers
mtu_fits size h = grind arith

length-reverse : (xs : List ℕ) → length (reverse xs) ≡ length xs
length-reverse [] = refl
length-reverse (x ∷ xs) = omega (
  arith,
  ap (λ l. length l) (reverse-cons x xs),
  length-append (reverse xs) (x ∷ []),
  length-reverse xs,
)

-- When a tap of a known interface is read, with buffers for an MTU at hand or allocated, a packet
-- of at most an MTU's bytes goes out to that interface, whole, in linked buffers; and exactly the
-- buffers that it takes leave the stock.
pub tap_rx-received :
    (size : ℕ) (k : RxKernel) (fd n : ℕ) (m : Main)
    → 0 < size
    → sw_at m fd ≢ no_index
    → k.n_bytes ≡ some n
    → n ≤ 1500
    → let v = refill size k m.rx_buffers in
      mtu_buffers size ≤ length v
      → (segs : List Segment) × ((tap_rx size k fd m).1
          ≡ received (record {
            sw_if_index = sw_at m fd;
            segments = segs;
            total_length = if ltb size n then some (n - size) else none;
          }))
        × (total segs ≡ n)
        × IsChain size (from_end (mtu_buffers size) v) segs
        × ((tap_rx size k fd m).0.rx_buffers ≡ take (length v - length segs) v)
unfolding tap_rx
tap_rx-received size k fd n m z t e h b =
    let v = refill size k m.rx_buffers in
    let found = lookup_sw_if_index_from_tap_fd_lem m fd in
    let known : (sw_at m fd == no_index) ≡ false = ground arith in
    let enough = le→not_ltb (mtu_buffers size) (length v) b in
    let w = chain-Splits size (from_end (mtu_buffers size) v) n (λ c. from_end_cons c) fits in
    (
      w.0,
      ground (arith, found.0, found.1, known, enough, e, w.1),
      w.2,
      w.3,
      ground (arith, found.0, found.1, known, enough, e, w.1),
    )
  where
    filled : length (from_end (mtu_buffers size) (refill size k m.rx_buffers)) ≡ mtu_buffers size
    filled = omega (
      arith,
      length-take (mtu_buffers size) (reverse (refill size k m.rx_buffers)),
      length-reverse (refill size k m.rx_buffers),
    )

    fits : n ≤ length (from_end (mtu_buffers size) (refill size k m.rx_buffers)) * size
    fits = rw filled (omega (arith, mtu_fits size z))

    from_end_cons : from_end (mtu_buffers size) (refill size k m.rx_buffers) ≡ [] → ⊥
    from_end_cons c = grind (arith, filled, ap (λ l. length l) c, mtu_fits size z)
