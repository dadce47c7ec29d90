-- ===== src/Rtnl/Tests.antt =====
-- Runs of the handlers of netlink/librtnl/rtnl.c, and its theorems at concrete inputs.
use vppsb.Common.{ℕ, ◌≡◌, ◌*◌, refl, true, none, some, [], ◌∷◌, arith, replicate}
use vppsb.Rtnl.{init, sync, ready, opening, link, Ns, Hdr, Kernel, Ctx, opens, file_add, second}
use vppsb.Rtnl.Process.{ns_recv, process_open, clock, read_buffer}
use vppsb.Pool.Slots.{slots}
use vppsb.Rtnl.Streams.{Main}
use vppsb.Rtnl.Progress.{phase, ◌⟶◌, ns_recv-⟶}
use vppsb.Rtnl.Reach
use vppsb.Rtnl.Sockets.{Tracks, Closes, Reach-Tracks}
use vppsb.Rtnl.Dump.{Dump, received, finished}
use vppsb.Rtnl.Sync.{Dumps, run_sync, run_sync-finished, through_routes6}
use vppsb.Rtnl.Timers.{IsAwake, Reach-IsAwake}
use vppsb.Rtnl.Read.{encode_all, recv_messages, read_buffer-encode_all, read_buffer-stuck}

abbrev new_ns : Ns
new_ns = record {
  recv_message = true;
  opaque = 3;
  state = init;
  sync_state = opening;
  ns_fd = 20;
  rtnl_socket = 0;
  unix_index = 0;
  rtnl_seq = 0;
  timeout = 0;
}

abbrev new_ctx : Ctx
new_ctx = record { now = 5 * second; ns = new_ns; log = [] }

abbrev kernel : Kernel
kernel = record { sends = true; opening = opens 7 2 }

abbrev hdr : ℕ → ℕ → Hdr
hdr type seq = record {
  nlmsg_len = 16;
  nlmsg_type = type;
  nlmsg_flags = 2;
  nlmsg_seq = seq;
  nlmsg_pid = 0;
  payload = [];
}

abbrev dump : ℕ → ℕ → Dump
dump type seq = record { parts = hdr type seq ∷ []; end = hdr 3 seq }

abbrev dumps : Dumps
dumps = record {
  links = dump 16 1;
  addrs = dump 20 2;
  routes4 = dump 24 3;
  routes6 = dump 24 4;
  neighs = dump 28 5;
}

abbrev opened : Ctx
opened = record {
  now = 5 * second;
  ns = record new_ns { state = sync; timeout = 5 * second };
  log = [];
}

run_sync-finished_example :
    run_sync kernel dumps opened
    ≡ finished (received dumps.neighs (through_routes6 7 2 dumps opened))
run_sync-finished_example =
    run_sync-finished kernel dumps opened 7 2 refl refl
      (record { state = refl; sync_state = refl; listens = refl }) (ground arith)

ns_recv-⟶_example : phase opened ⟶ phase (ns_recv kernel (hdr 3 9) opened).0
ns_recv-⟶_example = ns_recv-⟶ kernel (hdr 3 9) opened (λ e. cc)

Reach-Tracks_example :
    Tracks (clock kernel (process_open new_ctx))
    × Closes
        (clock kernel (process_open new_ctx)).ns.state
        (clock kernel (process_open new_ctx)).ns.sync_state
        (clock kernel (process_open new_ctx))
Reach-Tracks_example =
    Reach-Tracks {s = new_ctx} refl refl (Reach.clocks kernel (Reach.opens Reach.fresh))

Reach-IsAwake_example : IsAwake (clock kernel (process_open new_ctx))
Reach-IsAwake_example =
    Reach-IsAwake {s = new_ctx} (λ e. cc) (Reach.clocks kernel (Reach.opens Reach.fresh))

abbrev linked : Ctx
linked = record {
  now = 5 * second;
  ns = record new_ns { state = sync; sync_state = link; unix_index = 2 };
  log = file_add 7 2 ∷ [];
}

abbrev ready_ctx : Ctx
ready_ctx = record { now = 0; ns = record new_ns { state = ready }; log = [] }

read_buffer-encode_all_example :
    read_buffer 3 (λ n. kernel) (encode_all (hdr 24 1 ∷ hdr 3 1 ∷ [])) ready_ctx
    ≡ some (recv_messages (λ n. kernel) (hdr 24 1 ∷ hdr 3 1 ∷ []) ready_ctx)
read_buffer-encode_all_example =
    read_buffer-encode_all 3 (λ n. kernel) (hdr 24 1 ∷ hdr 3 1 ∷ []) ready_ctx (omega arith)
      (omega arith)

read_buffer-stuck_example : read_buffer 1000 (λ n. kernel) (replicate 16 0) ready_ctx ≡ none
read_buffer-stuck_example =
    read_buffer-stuck 1000 (λ n. kernel) (replicate 16 0) ready_ctx (omega arith) refl refl
      (λ e. cc)

abbrev two_streams : Main slots
two_streams = record {
  streams = some (record new_ns { state = sync; timeout = 4 * second }) ∷ none ∷ some new_ns ∷ [];
  log = [];
  signals = [];
}
