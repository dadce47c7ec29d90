-- ===== src/Turbotap/Tests.antt =====
-- The receive node of turbotap/turbotap/node.c at concrete inputs.
use vppsb.Common.{ℕ, ◌≡◌, ◌≤◌, refl, some, List, [], ◌∷◌, ◌+◌, arith, map, take}
use vppsb.Turbotap.{
  chain, spare, packets, put_back, adapted, max_recv, fillable, Received, received, rx_iface,
}
use vppsb.Turbotap.Buffers.{times, in_chains, rx_iface-times}
use vppsb.Turbotap.Whole.{bytes, rx_iface-whole}

-- Two messages of at most two buffers of 100 bytes, from six buffers.
abbrev buffers : List ℕ
buffers = 11 ∷ 12 ∷ 13 ∷ 14 ∷ 15 ∷ 16 ∷ []

abbrev read : Received
read = record {
  chains = ((11, 100) ∷ (12, 50) ∷ []) ∷ ((13, 60) ∷ []) ∷ [];
  passed = 11 ∷ 13 ∷ [];
  buffers = 14 ∷ 15 ∷ 16 ∷ [];
  rx_ready = 4;
}

rx_iface-times_example :
    (times 11 buffers ≡ in_chains 11 read.chains + times 11 read.buffers)
    × (times 11 read.passed ≤ in_chains 11 read.chains)
unfolding rx_iface received packets chain spare put_back adapted
rx_iface-times_example =
    rx_iface-times 100 2 2 256 (150 ∷ 60 ∷ []) buffers read (omega arith)
      (ground arith, (ground arith, tt)) refl 11

rx_iface-whole_example :
    (r : Received) × (rx_iface 100 2 2 256 (150 ∷ 60 ∷ []) buffers ≡ some r)
    × (map bytes r.chains ≡ take 256 (150 ∷ 60 ∷ []))
    × (1 ≤ r.rx_ready)
    × (r.rx_ready ≤ max_recv)
unfolding fillable
rx_iface-whole_example =
    rx_iface-whole 100 2 2 256 (150 ∷ 60 ∷ []) buffers (ground arith)
      (ground arith, ground arith, (ground arith, ground arith, tt)) (ground arith) (ground arith)
