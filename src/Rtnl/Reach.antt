-- ===== src/Rtnl/Reach.antt =====
-- The states that a stream of netlink/librtnl/rtnl.c reaches. Time passes between the handlers, and
-- no message comes before the stream was opened, since it has no socket until then. A close is no step:
-- it frees a stream that was opened, and leaves one that was not.
use vppsb.Common.{ℕ, ◌≤◌, ◌≢◌}
use vppsb.Rtnl.{init, Hdr, Kernel, Ctx}
use vppsb.Rtnl.Process.{ns_recv, process_open, clock}

pub data Reach (s : Ctx) : Ctx → Type 0 where
  fresh : Reach s s
  opens : {c : Ctx} → Reach s c → Reach s (process_open c)
  waits : {c : Ctx} (later : ℕ) → Reach s c → c.now ≤ later → Reach s (record c { now = later })
  clocks : {c : Ctx} (k : Kernel) → Reach s c → Reach s (clock k c)
  receives :
      {c : Ctx} (k : Kernel) (h : Hdr) → Reach s c → c.ns.state ≢ init → Reach s (ns_recv k h c).0
