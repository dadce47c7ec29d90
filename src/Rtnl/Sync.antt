-- ===== src/Rtnl/Sync.antt =====
-- A whole synchronisation of netlink/librtnl/rtnl.c: a socket, and five dumps.
use vppsb.Common.{ℕ, ◌+◌, ◌*◌, ◌≡◌, refl, ap, ◌∙◌, true, ◌∷◌, arith, u32}
use vppsb.Rtnl.{
  opening, link, addr, route4, route6, neigh, Kernel, Ctx, second, opens, sendmsg, file_add,
  rtm_getlink, rtm_getaddr, rtm_getroute, rtm_getneigh, af_inet, af_inet6, sync_timeout,
}
use vppsb.Rtnl.Process.{process_timeout}
use vppsb.Rtnl.Dump.{
  recv_all, Dump, messages, IsDump, asks_addr, asks_route4, asks_route6, asks_neigh, request,
  advanced, received, IsSyncing, recv_all-advanced, finished, recv_all-finished,
}

-- The stream after its socket was opened and the first request sent.
abbrev pub started : ℕ → ℕ → Ctx → Ctx
started fd index c = record c {
  ns = record ns {
    sync_state = link;
    rtnl_socket = fd;
    unix_index = index;
    rtnl_seq = u32 (ns.rtnl_seq + 1);
    timeout = c.now + 2 * second;
  };
  log = sendmsg fd (request rtm_getlink 0 16 (u32 (ns.rtnl_seq + 1))) ∷ file_add fd index ∷ c.log;
}
  where
    open c use {ns}

process_timeout-started :
    (k : Kernel) (c : Ctx) (fd index : ℕ)
    → k.sends ≡ true
    → k.opening ≡ opens fd index
    → IsSyncing opening c
    → process_timeout k c ≡ started fd index c
unfolding process_timeout sync_timeout
process_timeout-started k c fd index w o i = ground arith

abbrev pub next_seq : ℕ → ℕ
next_seq seq = u32 (seq + 1)

-- The dumps of a whole synchronisation, in the order of the requests.
pub record Dumps : Type 0 where
  pub links : Dump
  pub addrs : Dump
  pub routes4 : Dump
  pub routes6 : Dump
  pub neighs : Dump

-- Each dump answers the request that was sent before it.
pub record AreDumps (seq : ℕ) (ds : Dumps) : Type 0 where
  pub links : IsDump (next_seq seq) ds.links
  pub addrs : IsDump (next_seq (next_seq seq)) ds.addrs
  pub routes4 : IsDump (next_seq (next_seq (next_seq seq))) ds.routes4
  pub routes6 : IsDump (next_seq (next_seq (next_seq (next_seq seq)))) ds.routes6
  pub neighs : IsDump (next_seq (next_seq (next_seq (next_seq (next_seq seq))))) ds.neighs

abbrev pub through_links : ℕ → ℕ → Dumps → Ctx → Ctx
through_links fd index ds c = advanced addr rtm_getaddr 0 8 (received ds.links (started fd index c))

abbrev pub through_addrs : ℕ → ℕ → Dumps → Ctx → Ctx
through_addrs fd index ds c =
    advanced route4 rtm_getroute af_inet 12 (received ds.addrs (through_links fd index ds c))

abbrev pub through_routes4 : ℕ → ℕ → Dumps → Ctx → Ctx
through_routes4 fd index ds c =
    advanced route6 rtm_getroute af_inet6 12 (received ds.routes4 (through_addrs fd index ds c))

abbrev pub through_routes6 : ℕ → ℕ → Dumps → Ctx → Ctx
through_routes6 fd index ds c =
    advanced neigh rtm_getneigh 0 12 (received ds.routes6 (through_routes4 fd index ds c))

pub run_sync : Kernel → Dumps → Ctx → Ctx
run_sync k ds c = recv_all k (messages ds.neighs) (
    recv_all k (messages ds.routes6) (
      recv_all k (messages ds.routes4)
        (recv_all k (messages ds.addrs) (recv_all k (messages ds.links) (process_timeout k c)))))

-- A stream that waits for its socket, whose opening and whose requests succeed and whose dumps
-- come undisturbed, becomes ready and awaits no timeout; the requests for links, addresses, IPv4
-- routes, IPv6 routes and neighbours go out in this order, each after the dump before it, and every
-- object of the dumps is passed to the subscriber, in order.
pub run_sync-finished :
    (k : Kernel) (ds : Dumps) (c : Ctx) (fd index : ℕ)
    → k.sends ≡ true
    → k.opening ≡ opens fd index
    → IsSyncing opening c
    → AreDumps c.ns.rtnl_seq ds
    → run_sync k ds c ≡ finished (received ds.neighs (through_routes6 fd index ds c))
unfolding run_sync
run_sync-finished k ds c fd index w o i e =
    ap
      (λ c₁. recv_all k (messages ds.neighs) (
        recv_all k (messages ds.routes6) (
          recv_all k (messages ds.routes4)
            (recv_all k (messages ds.addrs) (recv_all k (messages ds.links) c₁)))))
      (process_timeout-started k c fd index w o i)
    ∙ ap
        (λ c₁. recv_all k (messages ds.neighs) (
          recv_all k (messages ds.routes6)
            (recv_all k (messages ds.routes4) (recv_all k (messages ds.addrs) c₁))))
        (recv_all-advanced k ds.links (started fd index c) asks_addr w
          (record { state = i.state; sync_state = refl; listens = i.listens }) e.links)
    ∙ ap
        (λ c₁.
          recv_all k (messages ds.neighs)
            (recv_all k (messages ds.routes6) (recv_all k (messages ds.routes4) c₁)))
        (recv_all-advanced k ds.addrs (through_links fd index ds c) asks_route4 w
          (record { state = i.state; sync_state = refl; listens = i.listens }) e.addrs)
    ∙ ap (λ c₁. recv_all k (messages ds.neighs) (recv_all k (messages ds.routes6) c₁))
        (recv_all-advanced k ds.routes4 (through_addrs fd index ds c) asks_route6 w
          (record { state = i.state; sync_state = refl; listens = i.listens }) e.routes4)
    ∙ ap (recv_all k (messages ds.neighs)) (
        recv_all-advanced k ds.routes6 (through_routes4 fd index ds c) asks_neigh w
          (record { state = i.state; sync_state = refl; listens = i.listens }) e.routes6)
    ∙ recv_all-finished k ds.neighs (through_routes6 fd index ds c)
        (record { state = i.state; sync_state = refl; listens = i.listens }) e.neighs
