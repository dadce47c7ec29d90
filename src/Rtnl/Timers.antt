-- ===== src/Rtnl/Timers.antt =====
-- The timeouts of netlink/librtnl/rtnl.c.
use vppsb.Common.{◌+◌, ◌*◌, ◌≤◌, ◌≡◌, ◌≢◌, arith}
use vppsb.Rtnl.{sync, Hdr, Kernel, Ctx, second, sync_done, sync_timeout}
use vppsb.Rtnl.Process.{ns_recv, process_open, process_timeout, clock}
use vppsb.Rtnl.Reach.{Reach, fresh, opens, waits, clocks, receives}

-- A stream that synchronises will be looked at again within ten seconds.
abbrev pub IsAwake : Ctx → Type 0
IsAwake c = c.ns.state ≡ sync → c.ns.timeout ≤ c.now + 10 * second

process_open-IsAwake : (c : Ctx) → IsAwake c → IsAwake (process_open c)
unfolding process_open
process_open-IsAwake c w = ground arith

clock-IsAwake : (k : Kernel) (c : Ctx) → IsAwake c → IsAwake (clock k c)
unfolding clock process_timeout sync_timeout
clock-IsAwake k c w = ground arith

ns_recv-IsAwake : (k : Kernel) (h : Hdr) (c : Ctx) → IsAwake c → IsAwake (ns_recv k h c).0
unfolding ns_recv sync_done
ns_recv-IsAwake k h c w = ground arith

-- However a stream that starts outside of a synchronisation is driven, while it synchronises its
-- timeout is at most ten seconds ahead: no synchronisation waits for ever.
pub Reach-IsAwake : {s c : Ctx} → s.ns.state ≢ sync → Reach s c → IsAwake c
Reach-IsAwake n fresh = λ e. absurd (n e)
Reach-IsAwake n (opens r) = process_open-IsAwake _ (Reach-IsAwake n r)
Reach-IsAwake n (waits later r h) = λ e. omega (arith, Reach-IsAwake n r e)
Reach-IsAwake n (clocks k r) = clock-IsAwake k _ (Reach-IsAwake n r)
Reach-IsAwake n (receives k h r i) = ns_recv-IsAwake k h _ (Reach-IsAwake n r)
