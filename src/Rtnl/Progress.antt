-- ===== src/Rtnl/Progress.antt =====
-- How a synchronisation of netlink/librtnl/rtnl.c goes on, step by step.
use vppsb.Common.{Bool-cases, ◌≡◌, ◌≢◌, inl, inr, true, arith}
use vppsb.Rtnl.{
  State, SyncState, init, sync, ready, opening, link, addr, route4, route6, neigh, Hdr, Kernel, Ctx,
  sync_done, sync_timeout, sync_reset,
}
use vppsb.Rtnl.Process.{disturbs, ns_recv, restart, dispatch, process_timeout}

-- Where a stream of the process stands.
pub data Phase : Type 0 where
  idle : Phase
  syncing : SyncState → Phase
  done : Phase

abbrev pub phase_of : State → SyncState → Phase
phase_of init s = idle
phase_of sync s = syncing s
phase_of ready s = done

abbrev pub phase : Ctx → Phase
phase c = phase_of c.ns.state c.ns.sync_state

-- The diagram of a synchronisation.
infix 40 ◌⟶◌
pub data ◌⟶◌ : Phase → Phase → Type 0 where
  stay : {p : Phase} → p ⟶ p
  start : idle ⟶ syncing opening
  opened : syncing opening ⟶ syncing link
  links : syncing link ⟶ syncing addr
  addrs : syncing addr ⟶ syncing route4
  routes4 : syncing route4 ⟶ syncing route6
  routes6 : syncing route6 ⟶ syncing neigh
  neighs : syncing neigh ⟶ done
  again : {s : SyncState} → syncing s ⟶ syncing opening

ruleset edges = (stay, start, opened, links, addrs, routes4, routes6, neighs, again)

dispatch-⟶ :
    (k : Kernel) (h : Hdr) (c : Ctx) → c.ns.state ≢ init → phase c ⟶ phase (dispatch k h c).0
unfolding dispatch sync_done
dispatch-⟶ k h c e = grind (arith, edges)

disturbed-⟶ :
    (k : Kernel) (h : Hdr) (c : Ctx)
    → c.ns.state ≡ sync
    → disturbs h c.ns ≡ true
    → phase c ⟶ phase (dispatch k h (restart h c)).0
unfolding dispatch restart sync_reset sync_done
disturbed-⟶ k h c e d = grind (arith, edges)

-- A message moves a stream that has been opened along one edge of the diagram, or leaves it
-- where it stands.
pub ns_recv-⟶ :
    (k : Kernel) (h : Hdr) (c : Ctx) → c.ns.state ≢ init → phase c ⟶ phase (ns_recv k h c).0
unfolding ns_recv restart
ns_recv-⟶ k h c e = elim (Bool-cases (disturbs h c.ns)) [
  | inl d ↦ disturbed-⟶ k h c (ground arith) d
  | inr d ↦ rw d (dispatch-⟶ k h c e)
]

-- A timeout starts the synchronisation, or restarts it.
process_timeout-⟶ : (k : Kernel) (c : Ctx) → phase c ⟶ phase (process_timeout k c)
unfolding process_timeout sync_timeout sync_reset
process_timeout-⟶ k c = grind (arith, edges)
