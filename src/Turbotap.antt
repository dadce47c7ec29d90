-- ===== src/Turbotap.antt =====
-- The receive node of turbotap/turbotap/node.c, turbotap_rx_iface, and the sending of a frame in
-- turbotap/turbotap/device.c.
-- A vector of buffers that is used from its end is a list with its end first. Chains of buffers have
-- the bytes of each buffer.
pub mod Buffers
pub mod Whole
mod Tests
use vppsb.Common.{
  ℕ, zero, suc, ◌+◌, ◌-◌, ◌*◌, ◌%◌, ◌^◌, Bool, true, false, ◌&&◌, ◌||◌, not, Option, none, some,
  List, [], ◌∷◌, ◌++◌, ◌==◌, ltb, leb, if◌then◌else◌, length, min, take, map, no_index,
}

-- MAX_RECV and MAX_SEND
abbrev pub max_recv : ℕ
max_recv = 256

abbrev pub max_send : ℕ
max_send = 256

-- How many messages can be read: each takes `mtu` buffers, and one more is left.
pub fillable : ℕ → ℕ → ℕ → ℕ
fillable zero mtu len = 0
fillable (suc ready) mtu len =
    let rest = fillable ready mtu (len - mtu) in if ltb mtu len then suc rest else 0

-- A packet of `remain` bytes in buffers of `size` bytes: its chain, and the buffers left.
pub chain : ℕ → ℕ → List ℕ → List (ℕ × ℕ) × List ℕ
chain size remain [] = ([], [])
chain size zero (bi ∷ rx) = ([], bi ∷ rx)
chain size (suc r) (bi ∷ rx) =
    let bytes = min size (suc r) in
    let rest = chain size (suc r - bytes) rx in ((bi, bytes) ∷ rest.0, rest.1)

-- The buffers that a message had and its packet does not use, from number `j` on to `mtu`; without a
-- buffer the vector is read out of range.
pub spare : ℕ → List ℕ → List ℕ → Option (List ℕ × List ℕ)
spare zero rx unused = some (rx, unused)
spare (suc k) [] unused = none
spare (suc k) (bi ∷ rx) unused = spare k rx (bi ∷ unused)

-- The packets that are passed on, the buffers left, and the unused ones.
pub record Taken : Type 0 where
  pub chains : List (List (ℕ × ℕ))
  pub rx : List ℕ
  pub unused : List ℕ

abbrev pub with_chain : List (ℕ × ℕ) → Option Taken → Option Taken
with_chain c none = none
with_chain c (some t) = some (record t { chains = c ∷ t.chains })

-- The buffer that is passed on for a packet; an empty one has none, and buffer 0 is passed on.
abbrev pub first_bi : List (ℕ × ℕ) → ℕ
first_bi [] = 0
first_bi ((bi, bytes) ∷ c) = bi

-- The loop over the messages, by their lengths, as far as the frame has room.
pub packets : ℕ → ℕ → ℕ → List ℕ → List ℕ → List ℕ → Option Taken
unfolding chain spare
packets size mtu zero ls rx unused = some (record { chains = []; rx = rx; unused = unused })
packets size mtu (suc room) [] rx unused = some (record { chains = []; rx = rx; unused = unused })
packets size mtu (suc room) (l ∷ ls) rx unused =
    let c = chain size l rx in
    elim (spare (mtu - length c.0) c.1 unused) [
      | none ↦ none
      | some (rx', unused') ↦ with_chain c.0 (packets size mtu room ls rx' unused')
    ]

-- The unused buffers are put back, the last of them first.
pub put_back : List ℕ → List ℕ → List ℕ
put_back [] rx = rx
put_back (bi ∷ unused) rx = put_back unused (bi ∷ rx)

-- rx_ready after `i` packets; the numbers are unsigned.
pub adapted : ℕ → ℕ → ℕ
adapted ready i =
    if not (ready == i)
    then (let left = (ready + 2 ^ 32 - i) % 2 ^ 32 in if ltb left i then i else left)
    else if ltb max_recv (ready + i)
    then max_recv
    else ready + i

-- What a read of an interface leaves: the packets, the buffers, and how many messages to ask for
-- next. `lens` are the lengths of the messages that recvmmsg read, and `room` what the frame has left.
pub record Received : Type 0 where
  pub chains : List (List (ℕ × ℕ))
  pub passed : List ℕ
  pub buffers : List ℕ
  pub rx_ready : ℕ

received : ℕ → Option Taken → Option Received
unfolding put_back adapted
received ready none = none
received ready (some t) = some (record {
  chains = t.chains;
  passed = map first_bi t.chains;
  buffers = put_back t.unused t.rx;
  rx_ready = adapted ready (length t.chains);
})

-- Where nothing was read, nothing changes.
pub rx_iface : ℕ → ℕ → ℕ → ℕ → List ℕ → List ℕ → Option Received
unfolding packets received
rx_iface size mtu ready room [] buffers =
    some (record { chains = []; passed = []; buffers = buffers; rx_ready = ready })
rx_iface size mtu ready room (l ∷ ls) buffers =
    received ready (packets size mtu room (l ∷ ls) buffers [])

-- turbotap_tx_iface: the packets that are handed to the kernel, by their bytes, and how many of them
-- and of their bytes are counted; `sent` is what sendmmsg returns, none where it fails.
pub record Sent : Type 0 where
  pub handed : List ℕ
  pub errors : ℕ
  pub counted : ℕ
  pub bytes : ℕ
  pub freed : ℕ

abbrev pub total : List ℕ → ℕ
total [] = 0
total (l ∷ ls) = l + total ls

abbrev pub sent_of : List ℕ → List ℕ → ℕ → Sent
sent_of ls [] tx = record { handed = []; errors = 0; counted = 0; bytes = 0; freed = length ls }
sent_of ls (h ∷ hs) tx =
    if tx == 0
    then record {
      handed = h ∷ hs;
      errors = length (h ∷ hs);
      counted = 0;
      bytes = 0;
      freed = length ls;
    }
    else record {
      handed = h ∷ hs;
      errors = 0;
      counted = tx;
      bytes = total (h ∷ hs);
      freed = length ls;
    }

pub tx_iface : Bool → List ℕ → ℕ → Sent
tx_iface false ls tx = record { handed = []; errors = 0; counted = 0; bytes = 0; freed = length ls }
tx_iface true ls tx = sent_of ls (take max_send ls) tx
