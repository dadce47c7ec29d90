-- ===== src/Router/Rx.antt =====
-- tap_rx of router/router/tap_inject_node.c: a packet from a tap into a chain of buffers.
pub mod Chain
use mathlib.Core.List.{reverse}
use vppsb.Common.{
  ℕ, zero, suc, ◌+◌, ◌-◌, ◌*◌, ◌/◌, Bool, true, false, Option, none, some, List, [], ◌∷◌, ◌++◌, ltb,
  ◌==◌, if◌then◌else◌, no_index, length, take,
}
use vppsb.Router.{Main, lookup_sw_if_index_from_tap_fd}

-- What tap_rx writes to a buffer: its length, and the buffer that follows it in the chain.
pub record Segment : Type 0 where
  pub bi : ℕ
  pub current_length : ℕ
  pub next_buffer : Option ℕ

-- The packet that goes to the output node of its interface. `total_length` is that of the buffers
-- behind the first, where there are any.
pub record Packet : Type 0 where
  pub sw_if_index : ℕ
  pub segments : List Segment
  pub total_length : Option ℕ

-- What the calls of tap_rx return: the buffers that are allocated, and the bytes that readv reads.
pub record RxKernel : Type 0 where
  pub allocated : List ℕ
  pub n_bytes : Option ℕ

pub data RxResult : Type 0 where
  no_interface no_buffers readv_fails no_chain : RxResult
  received : Packet → RxResult

link : ℕ → ℕ → List ℕ → Option (List Segment) → Option (List Segment)
link data_size b bs none = none
link data_size b [] (some segs) = none
link data_size b (b' ∷ bs) (some segs) =
    some (record { bi = b; current_length = data_size; next_buffer = some b' } ∷ segs)

-- The size of a buffer's data is a constant of vlib, VLIB_BUFFER_DATA_SIZE.
unfoldable pub mtu_buffers : ℕ → ℕ
mtu_buffers data_size = (1500 + data_size - 1) / data_size

-- The chain over the buffers of `bi`: it ends where no byte is left for a further buffer. `none`
-- stands for an access outside of `bi`.
pub chain : ℕ → List ℕ → ℕ → Option (List Segment)
unfolding link
chain data_size [] n = none
chain data_size (b ∷ bs) n =
    let rest = chain data_size bs (n - data_size) in
    if ltb data_size n
    then link data_size b bs rest
    else some (record { bi = b; current_length = n; next_buffer = none } ∷ [])

-- The last `k` elements of a vector, the last first: those that the code fills.
abbrev pub from_end : ℕ → List ℕ → List ℕ
from_end k v = take k (reverse v)

-- `rx_buffers` with further ones allocated, if there are less than an MTU needs.
unfoldable pub refill : ℕ → RxKernel → List ℕ → List ℕ
refill data_size k v = if ltb (length v) (mtu_buffers data_size) then v ++ k.allocated else v

pub received_in : ℕ → ℕ → List ℕ → ℕ → Option (List Segment) → Main → Main × RxResult
received_in data_size sw v n none m = (m, no_chain)
received_in data_size sw v n (some segs) m = (
  record m { rx_buffers = take (length v - length segs) v },
  received (record {
    sw_if_index = sw;
    segments = segs;
    total_length = if ltb data_size n then some (n - data_size) else none;
  }),
)

read_into : ℕ → RxKernel → ℕ → List ℕ → Option ℕ → Main → Main × RxResult
unfolding received_in
read_into data_size k sw v none m = (record m { rx_buffers = v }, readv_fails)
read_into data_size k sw v (some n) m =
    received_in data_size sw v n (chain data_size (from_end (mtu_buffers data_size) v) n)
      (record m { rx_buffers = v })

pub tap_rx : ℕ → RxKernel → ℕ → Main → Main × RxResult
unfolding read_into
tap_rx data_size k fd m =
    let (m', sw) = lookup_sw_if_index_from_tap_fd m fd in
    let v = refill data_size k m'.rx_buffers in
    if sw == no_index
    then (m', no_interface)
    else if ltb (length v) (mtu_buffers data_size)
    then (record m' { rx_buffers = v }, no_buffers)
    else read_into data_size k sw v k.n_bytes m'

-- The loop of tap_inject_rx: it breaks at the first tap whose packet fails, and then counts none.
rx_loop : ℕ → (ℕ → RxKernel) → List ℕ → ℕ → Main → Main × ℕ × List Packet
rx_loop data_size ks [] count m = (m, count, [])
rx_loop data_size ks (fd ∷ fds) count m =
    let (m', r) = tap_rx data_size (ks fd) fd m in
    elim r [
      | received p ↦ let (m'', n, ps) = rx_loop data_size ks fds (count + 1) m' in (m'', n, p ∷ ps)
      | _ ↦ (m', 0, [])
    ]

-- The packets are those that reach the output nodes.
pub rx : ℕ → (ℕ → RxKernel) → Main → Main × ℕ × List Packet
unfolding rx_loop
rx data_size ks m =
    let (m', n, ps) = rx_loop data_size ks m.rx_file_descriptors 0 m in
    (record m' { rx_file_descriptors = [] }, n, ps)
