-- ===== src/Rtnl/Sockets.antt =====
-- Which netlink socket of netlink/librtnl/rtnl.c is registered, after any handler.
use vppsb.Common.{ℕ, ◌≡◌, ◌≢◌, refl, Option, none, some, List, [], ◌∷◌, arith}
use vppsb.Rtnl.{
  State, SyncState, init, sync, ready, opening, Hdr, Effect, file_add, file_del, Kernel, Ctx,
  sync_done, sync_timeout,
}
use vppsb.Rtnl.Reach.{Reach, fresh, opens, waits, clocks, receives}
use vppsb.Rtnl.Process.{ns_recv, process_open, process_close, process_timeout, clock}

-- The index of the file that a log leaves registered.
abbrev pub open_file : List Effect → Option ℕ
open_file [] = none
open_file (file_add fd i ∷ log) = some i
open_file (file_del i ∷ log) = none
open_file (_ ∷ log) = open_file log

-- A file is added only where none is registered, and only the registered one is deleted.
abbrev pub IsPaired : List Effect → Type 0
IsPaired [] = Unit {0}
IsPaired (file_add fd i ∷ log) = (open_file log ≡ none) × IsPaired log
IsPaired (file_del i ∷ log) = (open_file log ≡ some i) × IsPaired log
IsPaired (_ ∷ log) = IsPaired log

-- What the state of a stream says of its socket.
abbrev pub held_file : State → SyncState → ℕ → Option ℕ
held_file init s i = none
held_file sync opening i = none
held_file sync _ i = some i
held_file ready _ i = some i

pub record Tracks (c : Ctx) : Type 0 where
  pub held : open_file c.log ≡ held_file c.ns.state c.ns.sync_state c.ns.unix_index
  pub paired : IsPaired c.log
  pub settled : c.ns.state ≡ ready → c.ns.sync_state ≡ opening

process_open-Tracks : (c : Ctx) → Tracks c → Tracks (process_open c)
unfolding process_open
process_open-Tracks c t = ground arith

process_timeout-Tracks : (k : Kernel) (c : Ctx) → Tracks c → Tracks (process_timeout k c)
unfolding process_timeout sync_timeout
process_timeout-Tracks k c t = ground arith

clock-Tracks : (k : Kernel) (c : Ctx) → Tracks c → Tracks (clock k c)
unfolding clock
clock-Tracks k c t = grind (arith, process_timeout-Tracks)

ns_recv-Tracks :
    (k : Kernel) (h : Hdr) (c : Ctx) → c.ns.state ≢ init → Tracks c → Tracks (ns_recv k h c).0
unfolding ns_recv sync_done
ns_recv-Tracks k h c e t = ground arith

fresh-Tracks : (c : Ctx) → c.ns.state ≡ init → c.log ≡ [] → Tracks c
fresh-Tracks c i e = ground arith

-- What a close does in each state: nothing, the deletion of a socket where none is registered, or the
-- release of the socket.
abbrev pub Closes : State → SyncState → Ctx → Type 0
Closes init s c = process_close c ≡ c
Closes sync opening c = (open_file c.log ≡ none) × ¬ IsPaired (process_close c).log
Closes _ _ c = IsPaired (process_close c).log × (open_file (process_close c).log ≡ none)

process_close-Closes :
    (q : State) (s : SyncState) (c : Ctx)
    → c.ns.state ≡ q
    → c.ns.sync_state ≡ s
    → Tracks c
    → Closes q s c
unfolding process_close
process_close-Closes q s c e f t = ground arith

Reach-held : {s c : Ctx} → s.ns.state ≡ init → s.log ≡ [] → Reach s c → Tracks c
Reach-held {s} i e fresh = fresh-Tracks s i e
Reach-held i e (opens r) = process_open-Tracks _ (Reach-held i e r)
Reach-held i e (waits later r h) = keep (Reach-held i e r)
  where
    keep : {c : Ctx} → Tracks c → Tracks (record c { now = later })
    keep t = record { held = t.held; paired = t.paired; settled = t.settled }
Reach-held i e (clocks k r) = clock-Tracks k _ (Reach-held i e r)
Reach-held i e (receives k h r n) = ns_recv-Tracks k h _ n (Reach-held i e r)

-- However a new stream is driven by its opening, its timer and its messages, its socket is registered
-- exactly while the stream holds one, from the opening of the socket until a restart, and is never
-- registered twice nor deleted twice. A close in a state that is reached so changes nothing before the
-- stream is opened. While the stream waits to open its socket, none is registered and the close
-- deletes one nevertheless; in every other state the close deletes the one that is registered.
pub Reach-Tracks :
    {s c : Ctx}
    → s.ns.state ≡ init
    → s.log ≡ []
    → Reach s c
    → Tracks c × Closes c.ns.state c.ns.sync_state c
Reach-Tracks {s} {c} i e r = (
  Reach-held i e r,
  process_close-Closes c.ns.state c.ns.sync_state c refl refl (Reach-held i e r),
)
