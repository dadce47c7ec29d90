-- ===== src/Rtnl/Dump.antt =====
-- One dump of a synchronisation of netlink/librtnl/rtnl.c: a row of objects, then NLMSG_DONE.
use vppsb.Common.{ℕ, ◌+◌, ◌≡◌, ap, ◌∙◌, true, false, List, [], ◌∷◌, ◌++◌, arith, u32, has_bit}
use vppsb.Rtnl.{
  SyncState, sync, ready, opening, link, addr, route4, route6, neigh, Hdr, Request, Effect, Kernel,
  Ctx, second, dbl_max, sendmsg, deliver, nlmsg_done, rtm_getaddr, rtm_getroute, rtm_getneigh,
  af_inet, af_inet6, sync_done,
}
use vppsb.Rtnl.Process.{is_object, ns_recv}

-- The messages of a buffer, one after another.
pub recv_all : Kernel → List Hdr → Ctx → Ctx
recv_all k [] c = c
recv_all k (h ∷ hs) c = recv_all k hs (ns_recv k h c).0

-- A message that answers the request `seq`: an object, or the end of the dump.
abbrev pub Answers : ℕ → Hdr → Type 0
Answers seq h = (h.nlmsg_seq ≡ seq) × (has_bit 8 h.nlmsg_flags ≡ false)

abbrev pub IsPart : ℕ → Hdr → Type 0
IsPart seq h = Answers seq h × (is_object h.nlmsg_type ≡ true)

abbrev pub IsEnd : ℕ → Hdr → Type 0
IsEnd seq h = Answers seq h × (h.nlmsg_type ≡ nlmsg_done)

abbrev pub AreParts : ℕ → List Hdr → Type 0
AreParts seq [] = Unit {0}
AreParts seq (h ∷ hs) = IsPart seq h × AreParts seq hs

-- What the objects add to a log.
pub delivered : ℕ → List Hdr → List Effect → List Effect
delivered o [] log = log
delivered o (h ∷ hs) log = delivered o hs (deliver h o ∷ log)

-- While it synchronises, a stream passes on an object of the awaited dump, and stays as it is.
ns_recv-part :
    (k : Kernel) (h : Hdr) (c : Ctx)
    → c.ns.state ≡ sync
    → c.ns.recv_message ≡ true
    → IsPart c.ns.rtnl_seq h
    → (ns_recv k h c).0 ≡ record c { log = deliver h c.ns.opaque ∷ c.log }
unfolding ns_recv
ns_recv-part k h c s m p = ground arith

ns_recv-end :
    (k : Kernel) (h : Hdr) (c : Ctx) → IsEnd c.ns.rtnl_seq h → (ns_recv k h c).0 ≡ sync_done k c
unfolding ns_recv
ns_recv-end k h c p = ground arith

recv_all-dump :
    (k : Kernel) (hs : List Hdr) (end : Hdr) (c : Ctx)
    → c.ns.state ≡ sync
    → c.ns.recv_message ≡ true
    → AreParts c.ns.rtnl_seq hs
    → IsEnd c.ns.rtnl_seq end
    → recv_all k (hs ++ end ∷ []) c
      ≡ sync_done k (record c { log = delivered c.ns.opaque hs c.log })
unfolding recv_all delivered
recv_all-dump k [] end c s m p e = ns_recv-end k end c e
recv_all-dump k (h ∷ hs) end c s m p e =
    ap (recv_all k (hs ++ end ∷ [])) (ns_recv-part k h c s m p.0)
    ∙ recv_all-dump k hs end (record c { log = deliver h c.ns.opaque ∷ c.log }) s m p.1 e

pub record Dump : Type 0 where
  pub parts : List Hdr
  pub end : Hdr

abbrev pub messages : Dump → List Hdr
messages d = d.parts ++ d.end ∷ []

abbrev pub IsDump : ℕ → Dump → Type 0
IsDump seq d = AreParts seq d.parts × IsEnd seq d.end

-- What is asked for after the dump of each kind: the message type, the family, the size of the
-- request's body and the state that waits for the answer.
pub data Asks : SyncState → ℕ → ℕ → ℕ → SyncState → Type 0 where
  asks_addr : Asks link rtm_getaddr 0 8 addr
  asks_route4 : Asks addr rtm_getroute af_inet 12 route4
  asks_route6 : Asks route4 rtm_getroute af_inet6 12 route6
  asks_neigh : Asks route6 rtm_getneigh 0 12 neigh

abbrev pub request : ℕ → ℕ → ℕ → ℕ → Request
request type family len seq = record {
  nlmsg_len = 16 + len;
  nlmsg_type = type;
  nlmsg_flags = 0x301;
  nlmsg_seq = seq;
  family = family;
}

-- The stream after it sent the next request.
abbrev pub advanced : SyncState → ℕ → ℕ → ℕ → Ctx → Ctx
advanced next type family len c = record c {
  ns = record ns { sync_state = next; rtnl_seq = u32 (ns.rtnl_seq + 1); timeout = c.now + second };
  log = sendmsg ns.rtnl_socket (request type family len (u32 (ns.rtnl_seq + 1))) ∷ c.log;
}
  where
    open c use {ns}

abbrev pub received : Dump → Ctx → Ctx
received d c = record c { log = delivered c.ns.opaque d.parts c.log }

pub record IsSyncing (s : SyncState) (c : Ctx) : Type 0 where
  pub state : c.ns.state ≡ sync
  pub sync_state : c.ns.sync_state ≡ s
  pub listens : c.ns.recv_message ≡ true

sync_done-Asks :
    {s next : SyncState} {type family len : ℕ} (k : Kernel) (c : Ctx)
    → Asks s type family len next
    → k.sends ≡ true
    → IsSyncing s c
    → sync_done k c ≡ advanced next type family len c
unfolding sync_done
sync_done-Asks k c asks_addr w i = ground arith
sync_done-Asks k c asks_route4 w i = ground arith
sync_done-Asks k c asks_route6 w i = ground arith
sync_done-Asks k c asks_neigh w i = ground arith

-- In each state but the last, a whole dump is passed to the subscriber in order, and the request
-- of the next dump is sent under the next sequence number, with a second to answer it.
pub recv_all-advanced :
    {s next : SyncState} {type family len : ℕ} (k : Kernel) (d : Dump) (c : Ctx)
    → Asks s type family len next
    → k.sends ≡ true
    → IsSyncing s c
    → IsDump c.ns.rtnl_seq d
    → recv_all k (messages d) c ≡ advanced next type family len (received d c)
recv_all-advanced k d c a w i e =
    recv_all-dump k d.parts d.end c i.state i.listens e.0 e.1
    ∙ sync_done-Asks k (received d c) a w
        (record { state = i.state; sync_state = i.sync_state; listens = i.listens })

abbrev pub finished : Ctx → Ctx
finished c = record c { ns = record ns { state = ready; sync_state = opening; timeout = dbl_max } }
  where
    open c use {ns}

-- After the last dump the stream is ready, and no timeout is awaited.
pub recv_all-finished :
    (k : Kernel) (d : Dump) (c : Ctx)
    → IsSyncing neigh c
    → IsDump c.ns.rtnl_seq d
    → recv_all k (messages d) c ≡ finished (received d c)
recv_all-finished k d c i e = recv_all-dump k d.parts d.end c i.state i.listens e.0 e.1 ∙ last
  where
    last : sync_done k (received d c) ≡ finished (received d c)
    last = unfold sync_done in ground arith
