-- ===== src/Rtnl/Streams.antt =====
-- All streams of netlink/librtnl/rtnl.c: rtnl_process, rtnl_stream_open and rtnl_stream_close.
-- A handler sees its stream alone; the log keeps each effect with the index of its stream.
pub mod Rounds
use vppsb.Common.{
  ℕ, Bool, true, false, Option, none, some, List, [], ◌∷◌, ◌++◌, ltb, if◌then◌else◌, map,
}
use mathlib.Core.Option.{map as option_map}
use vppsb.Pool.{PoolLib}
use vppsb.Rtnl.{Ns, Kernel, Ctx, Effect, put_stream, init, dbl_max}
use vppsb.Rtnl.Process.{clock, process_open, process_close, process_read, Recvs}

-- What the process node waits for, with the streams that are signalled.
pub data Event : Type 0 where
  clock_event : Event
  open_event close_event read_event : List ℕ → Event

abbrev puts : List Effect → Bool
puts [] = false
puts (put_stream ∷ log) = true
puts (_ ∷ log) = puts log

module _ (lib : PoolLib) where
  open lib use {Pool, elt, indexes, fresh, write, put}

  -- rtnl_main_t: the streams, and the log of effects and of signals, newest first.
  pub record Main : Type 0 where
    pub streams : Pool Ns
    pub log : List (ℕ × Effect)
    pub signals : List Event

  abbrev start : ℕ → Ns → Ctx
  start now ns = record { now = now; ns = ns; log = [] }

  -- The stream after a handler; pool_put frees it.
  abbrev pub finish : ℕ → Ctx → Main → Main
  finish i c m = record m {
    streams = if puts c.log then put streams i else write streams i c.ns;
    log = map (λ e. (i, e)) c.log ++ log;
  }
    where
      open m use {streams, log}

  -- What the calls return: for each stream those of a handler, and those of its reads.
  module _ (now fuel : ℕ) (ks : ℕ → Kernel) (reads : ℕ → Recvs) where
    unfoldable pub clock_all : List ℕ → Main → Main
    clock_all [] m = m
    clock_all (i ∷ is) m = elim (elt m.streams i) [
      | none ↦ clock_all is m
      | some ns ↦ clock_all is (finish i (clock (ks i) (start now ns)) m)
    ]

    -- An event for a stream that is not there reads freed memory: `none`.
    unfoldable pub signalled : (ℕ → Ctx → Option Ctx) → List ℕ → Main → Option Main
    signalled f [] m = some m
    signalled f (i ∷ is) m = elim (elt m.streams i) [
      | none ↦ none
      | some ns ↦ elim (f i (start now ns)) [ none ↦ none | some c ↦ signalled f is (finish i c m) ]
    ]

    -- A round of the process node, without its wait.
    unfoldable pub process_round : Event → Main → Option Main
    process_round clock_event m = some (clock_all (indexes m.streams) m)
    process_round (open_event is) m = signalled (λ i c. some (process_open c)) is m
    process_round (close_event is) m = signalled (λ i c. some (process_close c)) is m
    process_round (read_event is) m =
        signalled (λ i c. option_map (λ r. r.0) (process_read fuel (reads i) c)) is m

  abbrev earlier : ℕ → Option Ns → ℕ
  earlier t none = t
  earlier t (some ns) = if ltb ns.timeout t then ns.timeout else t

  -- The timeout until which the node waits.
  unfoldable pub next_timeout : List ℕ → Pool Ns → ℕ → ℕ
  next_timeout [] p t = t
  next_timeout (i ∷ is) p t = next_timeout is p (earlier t (elt p i))

  -- `fd` is the descriptor of the namespace's file, `stale` what the memory of a new stream holds.
  pub stream_open : Option ℕ → Bool → ℕ → Ns → Main → Main × Option ℕ
  stream_open none recv_message opaque stale m = (m, none)
  stream_open (some fd) recv_message opaque stale m =
      let i = fresh m.streams in
      (
        record m {
          streams = write streams i (record stale {
            state = init;
            ns_fd = fd;
            recv_message = recv_message;
            opaque = opaque;
          });
          signals = open_event (i ∷ []) ∷ signals;
        },
        some i,
      )
    where
      open m use {streams, signals}

  pub stream_close : ℕ → Main → Main
  stream_close i m = record m { signals = close_event (i ∷ []) ∷ signals }
    where
      open m use {signals}
