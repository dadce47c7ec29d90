-- ===== src/Router/Node.antt =====
-- router/router/tap_inject_node.c: packets from the data plane to the taps.
pub mod Frames
pub mod Tx
use vppsb.Common.{
  ℕ, ◌+◌, ◌-◌, ◌*◌, ◌%◌, ◌^◌, ◌&&◌, Option, none, some, List, [], ◌∷◌, ◌==◌, if◌then◌else◌,
  no_index, Bytes, byte_at,
}
use vppsb.Router.{Main, lookup_tap_fd}

pub data Next : Type 0 where
  arp icmp6 : Next

-- A packet buffer, whose data does not begin before the Ethernet header: its index, the interface that it came in by, where its data begins and how long
-- it is, and its bytes from the start of the Ethernet header.
-- The u16 `current_length` wraps.
pub record Buffer : Type 0 where
  pub bi : ℕ
  pub rx_sw_if_index : ℕ
  pub current_data : ℕ
  pub current_length : ℕ
  pub bytes : Bytes

pub data Effect : Type 0 where
  writev : ℕ → ℕ → ℕ → Effect
  free : ℕ → Effect
  enqueue : Next → Buffer → Effect

-- A 16-bit field in network byte order.
abbrev be16_at : Bytes → ℕ → ℕ
be16_at bs i = 256 * byte_at bs i + byte_at bs (i + 1)

-- The Ethernet header takes 14 bytes; then comes the ARP or the IPv6 header, which takes 40 bytes.
-- The neighbour node of a reply: an ARP reply or an ICMP6 neighbour advertisement.
unfoldable pub reply_of : Bytes → Option Next
reply_of bs =
    if be16_at bs 12 == 0x806
    then if be16_at bs 20 == 2 then some arp else none
    else if be16_at bs 12 == 0x86dd
    then if byte_at bs 20 == 58 && byte_at bs 54 == 136 then some icmp6 else none
    else none

-- vlib_buffer_advance (b, -b->current_data).
abbrev pub rewind : Buffer → Buffer
rewind b = record b { current_data = 0; current_length = (current_length + current_data) % 2 ^ 16 }
  where
    open b use {current_length, current_data}

-- vlib_buffer_advance (b, sizeof (ethernet_header_t)), on a rewound buffer.
abbrev pub past_ethernet : Buffer → Buffer
past_ethernet b = record b {
  current_data = 14;
  current_length = (b.current_length + 2 ^ 16 - 14) % 2 ^ 16;
}

-- The state of a node's loop: the tables, `next`, and the effects, newest first.
pub record Loop : Type 0 where
  pub main : Main
  pub next : Option Next
  pub log : List Effect

abbrev pub or_else : Option Next → Option Next → Option Next
or_else none n = n
or_else (some r) n = some r

-- `next` keeps its value from one packet to the next.
abbrev pub fate : Option Next → Buffer → Effect
fate none b = free b.bi
fate (some n) b = enqueue n (past_ethernet b)

pub neighbor_packet : Buffer → Loop → Loop
neighbor_packet b l =
    let (m, fd) = lookup_tap_fd l.main b.rx_sw_if_index in
    let next = or_else (reply_of b.bytes) l.next in
    if fd == no_index then record l { main = m; log = free b.bi ∷ l.log } else record l {
      main = m;
      next = next;
      log = fate next (rewind b) ∷ writev fd b.bi (rewind b).current_length ∷ l.log;
    }

pub neighbor_loop : List Buffer → Loop → Loop
unfolding neighbor_packet
neighbor_loop [] l = l
neighbor_loop (b ∷ bs) l = neighbor_loop bs (neighbor_packet b l)

pub neighbor : List Buffer → Main → Loop
unfolding neighbor_loop
neighbor bs m = neighbor_loop bs (record { main = m; next = none; log = [] })

pub tx_packet : Buffer → Main × List Effect → Main × List Effect
tx_packet b (m, log) =
    let (m', fd) = lookup_tap_fd m b.rx_sw_if_index in
    if fd == no_index then (m', log) else (m', writev fd b.bi (rewind b).current_length ∷ log)

pub tx_loop : List Buffer → Main × List Effect → Main × List Effect
unfolding tx_packet
tx_loop [] s = s
tx_loop (b ∷ bs) s = tx_loop bs (tx_packet b s)

-- vlib_buffer_free (vm, pkts, n_vectors).
pub free_all : List Buffer → List Effect → List Effect
free_all [] log = log
free_all (b ∷ bs) log = free_all bs (free b.bi ∷ log)

pub tx : List Buffer → Main → Main × List Effect
unfolding tx_loop free_all
tx bs m = let (m', log) = tx_loop bs (m, []) in (m', free_all bs log)
