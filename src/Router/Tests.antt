-- ===== src/Router/Tests.antt =====
-- Runs of the router's code in router/router, and the theorems on it at concrete inputs.
use vppsb.Common.{
  ◌≡◌, ◌≢◌, refl, true, false, none, some, [], ◌∷◌, ◌++◌, arith, no_index, replicate, length, inr,
  ◌⊎◌, if◌then◌else◌, take, Bytes, List, map, ◌-◌, ◌≤◌, ltb,
}
use vppsb.Router.{Main, validate, insert_tap, lookup_sw_if_index_from_tap_if_index}
use vppsb.Router.Tables.{fd_at, sw_at}
use vppsb.Router.Pairing.{IsPaired, IsNew, insert_tap-IsPaired}
use vppsb.Router.Tap.{TapKernel, Ctx, index_fails, isr_fails, tap_connect}
use vppsb.Router.Tap.Connect.{open_fds, tap_connect_fails}
use vppsb.Router.Control.{enable_word, netlink_only, config, cli}
use vppsb.Router.Control.Switching.{cli_lem}
use vppsb.Router.Netlink.{label_stack, words}
use vppsb.Router.Netlink.Labels.{encode_stack, IsLabels, nil, cons, label_stack-encode_stack}
use vppsb.Router.Node.{arp, Buffer, reply_of, writev, free, fate, or_else, neighbor, rewind, tx}
use vppsb.Router.Node.Frames.{given, onto, indices, last_reply, given-neighbor, neighbor-last_reply}
use vppsb.Router.Node.Tx.{tapped, writes, tx_lem}
use vppsb.Router.Rx.{RxKernel, Segment, received, mtu_buffers, from_end, refill, tap_rx}
use vppsb.Router.Rx.Chain.{total, IsChain, tap_rx-received}

abbrev no_taps : Main
no_taps = record {
  flags = record {
    config_enable = true;
    config_disable = false;
    config_netlink = false;
    enabled = false;
  };
  sw_if_index_to_tap_fd = [];
  sw_if_index_to_tap_if_index = [];
  tap_fd_to_sw_if_index = [];
  tap_if_index_to_sw_if_index = λ i. none;
  interfaces_to_enable = [];
  interfaces_to_disable = [];
  rx_file_descriptors = [];
  rx_buffers = 1 ∷ 2 ∷ [];
}

no_taps-IsPaired : IsPaired no_taps
no_taps-IsPaired = record {
  there = λ sw h. absurd (h refl);
  back = λ fd h. absurd (h refl);
  index = λ sw h. absurd (h refl);
  small = λ sw h. absurd (h refl);
  fd_small = λ fd h. absurd (h refl);
  sized = λ sw h. absurd (h refl);
}

abbrev one_tap : Main
one_tap = insert_tap no_taps 1 7 40

fresh-IsNew : IsNew no_taps 1 7 40
unfolding lookup_sw_if_index_from_tap_if_index
fresh-IsNew = record {
  sw_small = omega arith;
  fd_small = omega arith;
  sw_free = refl;
  fd_free = refl;
  tif_free = refl;
}

one_tap-IsPaired : IsPaired one_tap
one_tap-IsPaired = insert_tap-IsPaired no_taps 1 7 40 no_taps-IsPaired fresh-IsNew

insert_tap-IsPaired_example : IsPaired (insert_tap no_taps 1 7 40)
insert_tap-IsPaired_example = insert_tap-IsPaired no_taps 1 7 40 no_taps-IsPaired fresh-IsNew

one_tap-fd : fd_at one_tap 1 ≡ 7
unfolding insert_tap validate
one_tap-fd = refl

one_tap-known : fd_at one_tap 1 ≢ no_index
one_tap-known e = omega (arith, one_tap-fd, e)

abbrev tap_kernel : TapKernel
tap_kernel = record {
  tap_fd = some 7;
  tunsetiff = true;
  fionbio = true;
  socket = some 8;
  set_hwaddr = true;
  get_index = some 40;
}

abbrev bad_kernel : TapKernel
bad_kernel = record tap_kernel { get_index = none }

abbrev start : Ctx
start = record { main = no_taps; log = [] }

abbrev tapped_ctx : Ctx
tapped_ctx = record { main = one_tap; log = [] }

config_run : (config (enable_word ∷ netlink_only ∷ []) no_taps).1 ≡ none
unfolding config
config_run = refl

tap_connect_run :
    ((tap_connect bad_kernel 1 start).1 ≡ some index_fails)
    × ((tap_connect tap_kernel 1 start).1 ≡ none)
unfolding tap_connect
tap_connect_run = (refl, refl)

tap_connect_fails_example :
    ((tap_connect bad_kernel 1 start).0.main ≡ no_taps)
    × (open_fds (tap_connect bad_kernel 1 start).0.log ≡ [])
tap_connect_fails_example =
    tap_connect_fails bad_kernel 1 start index_fails (inr (λ e. cc)) tap_connect_run.0

cli_lem_example :
    let r = cli (λ hw. tap_kernel) (λ hw. true) (1 ∷ []) true start in
    ((r.1 ≡ none) × (r.0.main.flags.enabled ≡ true) × (r.0.main.flags.config_enable ≡ true)
      ⊎ (true ≡ true)
        × (r.1 ≡ some isr_fails)
        × (r.0.main.flags.enabled ≡ false)
        × (r.0.main.flags.config_enable ≡ true))
    × (r.0.main.interfaces_to_enable ≡ [])
    × (r.0.main.interfaces_to_disable ≡ [])
cli_lem_example = cli_lem (λ hw. tap_kernel) (λ hw. true) (1 ∷ []) true start refl

two-IsLabels : IsLabels (16 ∷ 100 ∷ [])
two-IsLabels = cons (omega arith) (omega arith) (cons (omega arith) (omega arith) nil)

label_stack-encode_stack_example :
    label_stack 7 (words (encode_stack 16 (100 ∷ []) ++ [])) ≡ some (16 ∷ 100 ∷ [])
label_stack-encode_stack_example =
    label_stack-encode_stack 7 16 (100 ∷ []) [] two-IsLabels (omega arith)

one_tap-index : lookup_sw_if_index_from_tap_if_index one_tap 40 ≡ 1
unfolding insert_tap lookup_sw_if_index_from_tap_if_index
one_tap-index = refl

abbrev link_up : Bytes
link_up = 0 ∷ 0 ∷ 0 ∷ 0 ∷ 40 ∷ 0 ∷ 0 ∷ 0 ∷ 1 ∷ 0 ∷ 0 ∷ 0 ∷ []

-- An ARP reply, and a TCP packet, that came in by interface 1.
abbrev arp_reply : Buffer
arp_reply = record {
  bi = 5;
  rx_sw_if_index = 1;
  current_data = 14;
  current_length = 28;
  bytes = replicate 12 0 ++ (8 ∷ 6 ∷ 0 ∷ 1 ∷ 8 ∷ 0 ∷ 6 ∷ 4 ∷ 0 ∷ 2 ∷ []);
}

abbrev tcp : Buffer
tcp = record {
  bi = 6;
  rx_sw_if_index = 1;
  current_data = 34;
  current_length = 20;
  bytes = replicate 12 0 ++ (8 ∷ 0 ∷ 69 ∷ []);
}

replies : (reply_of arp_reply.bytes ≡ some arp) × (reply_of tcp.bytes ≡ none)
unfolding reply_of
replies = (refl, refl)

given-neighbor_example :
    given (neighbor (arp_reply ∷ tcp ∷ []) one_tap).log ≡ onto (indices (arp_reply ∷ tcp ∷ [])) []
given-neighbor_example = given-neighbor (arp_reply ∷ tcp ∷ []) one_tap

neighbor-last_reply_example :
    (neighbor ([] ++ arp_reply ∷ []) one_tap).log
    ≡ fate (or_else (reply_of arp_reply.bytes) (last_reply one_tap none [])) (rewind arp_reply)
      ∷ writev (fd_at one_tap 1) 5 42
      ∷ (neighbor [] one_tap).log
neighbor-last_reply_example = neighbor-last_reply [] arp_reply one_tap one_tap-known

tx_lem_example :
    (tx (tcp ∷ []) one_tap).1
    ≡ onto (map free (indices (tcp ∷ []))) (onto (writes one_tap (tapped one_tap (tcp ∷ []))) [])
tx_lem_example = tx_lem (tcp ∷ []) one_tap

abbrev rx_kernel : RxKernel
rx_kernel = record { allocated = []; n_bytes = some 1400 }

abbrev stocked : Main
stocked = record one_tap { rx_buffers = 1 ∷ 2 ∷ [] }

stocked-tap : sw_at stocked 7 ≢ no_index
unfolding insert_tap validate
stocked-tap e = omega (arith, e)

tap_rx-received_example :
    (segs : List Segment) × ((tap_rx 1024 rx_kernel 7 stocked).1
      ≡ received (record {
        sw_if_index = sw_at stocked 7;
        segments = segs;
        total_length = if ltb 1024 1400 then some (1400 - 1024) else none;
      }))
    × (total segs ≡ 1400)
    × IsChain 1024 (from_end (mtu_buffers 1024) (refill 1024 rx_kernel stocked.rx_buffers)) segs
    × ((tap_rx 1024 rx_kernel 7 stocked).0.rx_buffers
        ≡ take
            (length (refill 1024 rx_kernel stocked.rx_buffers) - length segs)
            (refill 1024 rx_kernel stocked.rx_buffers))
tap_rx-received_example =
    tap_rx-received 1024 rx_kernel 7 1400 stocked (omega arith) stocked-tap refl (omega arith) stock
  where
    stock : mtu_buffers 1024 ≤ length (refill 1024 rx_kernel stocked.rx_buffers)
    stock = unfold mtu_buffers refill in omega arith
