-- ===== src/Rtnl.antt =====
-- netlink/librtnl/rtnl.c and rtnl.h: a stream of netlink messages of one network namespace.
-- Each handler takes the stream and the log of its effects on the kernel and on its subscriber, and
-- what the system calls that it makes return. Times are microseconds, in place of f64 seconds.
pub mod Process
pub mod Streams
mod Progress
mod Dump
mod Tests
mod Read
mod Reach
mod Timers
mod Sockets
mod Sync
use vppsb.Common.{
  ℕ, ◌+◌, ◌*◌, Bool, true, false, List, ◌∷◌, if◌then◌else◌, Ret, ok, fail, u32, no_index, Bytes,
}

pub data State : Type 0 where
  init sync ready : State

-- RTNL_SS_OPENING is 0, the value that the code also writes when the stream is ready.
pub data SyncState : Type 0 where
  opening link addr route4 route6 neigh : SyncState

-- rtnl_ns_t, with the fields of its rtnl_stream_t that the handlers read. `recv_message` tells
-- whether the callback is set.
pub record Ns : Type 0 where
  pub recv_message : Bool
  pub opaque : ℕ
  pub state : State
  pub sync_state : SyncState
  pub ns_fd : ℕ
  pub rtnl_socket : ℕ
  pub unix_index : ℕ
  pub rtnl_seq : ℕ
  pub timeout : ℕ

-- struct nlmsghdr and what follows it.
pub record Hdr : Type 0 where
  pub nlmsg_len : ℕ
  pub nlmsg_type : ℕ
  pub nlmsg_flags : ℕ
  pub nlmsg_seq : ℕ
  pub nlmsg_pid : ℕ
  pub payload : Bytes

-- The message that rtnl_dump_request sends. Of the request body only the family is not 0.
pub record Request : Type 0 where
  pub nlmsg_len : ℕ
  pub nlmsg_type : ℕ
  pub nlmsg_flags : ℕ
  pub nlmsg_seq : ℕ
  pub family : ℕ

pub data Effect : Type 0 where
  sendmsg : ℕ → Request → Effect
  file_add : ℕ → ℕ → Effect
  file_del : ℕ → Effect
  close : ℕ → Effect
  put_stream : Effect
  deliver : Hdr → ℕ → Effect

-- How the thread of rtnl_thread_fn and the calls after it end: the socket and its file index.
pub data Opening : Type 0 where
  create_fails join_fails setns_fails socket_fails : Opening
  bind_fails : ℕ → Opening
  opens : ℕ → ℕ → Opening

-- What the system calls of one handler return: whether sendmsg succeeds, and the opening.
pub record Kernel : Type 0 where
  pub sends : Bool
  pub opening : Opening

-- The log has the newest effect first.
pub record Ctx : Type 0 where
  pub now : ℕ
  pub ns : Ns
  pub log : List Effect

abbrev pub second : ℕ
second = 1000000

-- The DBL_MAX of this file.
abbrev pub dbl_max : ℕ
dbl_max = 1000000000 * second

abbrev pub nlmsg_error : ℕ
nlmsg_error = 2

abbrev pub nlmsg_done : ℕ
nlmsg_done = 3

abbrev pub rtm_getlink : ℕ
rtm_getlink = 18

abbrev pub rtm_getaddr : ℕ
rtm_getaddr = 22

abbrev pub rtm_getroute : ℕ
rtm_getroute = 26

abbrev pub rtm_getneigh : ℕ
rtm_getneigh = 30

abbrev pub af_inet : ℕ
af_inet = 2

abbrev pub af_inet6 : ℕ
af_inet6 = 10

abbrev pub sizeof_nlmsghdr : ℕ
sizeof_nlmsghdr = 16

pub schedule_timeout : ℕ → Ctx → Ctx
schedule_timeout w c = record c { ns = record ns { timeout = w } }
  where
    open c use {ns}

pub cancel_timeout : Ctx → Ctx
cancel_timeout c = record c { ns = record ns { timeout = dbl_max } }
  where
    open c use {ns}

abbrev pub emit : Effect → Ctx → Ctx
emit e c = record c { log = e ∷ c.log }

abbrev set_sync : SyncState → Ctx → Ctx
set_sync s c = record c { ns = record ns { sync_state = s } }
  where
    open c use {ns}

-- The sequence number goes up also where sendmsg fails. NLM_F_DUMP|NLM_F_REQUEST is 0x301.
pub dump_request : Kernel → ℕ → ℕ → ℕ → Ctx → Ctx × Ret
dump_request k type family len c =
    let seq = u32 (c.ns.rtnl_seq + 1) in
    let c' = record c { ns = record ns { rtnl_seq = seq } } in
    if k.sends
    then (
      emit
          (sendmsg c.ns.rtnl_socket (record {
            nlmsg_len = sizeof_nlmsghdr + len;
            nlmsg_type = type;
            nlmsg_flags = 0x301;
            nlmsg_seq = seq;
            family = family;
          }))
          c',
      ok,
    )
    else (c', fail 1)
  where
    open c use {ns}

pub socket_close : Ctx → Ctx
socket_close c = emit (close c.ns.rtnl_socket) (emit (file_del c.ns.unix_index) c)

-- On a failed socket() the field keeps the -1 that the call returned.
pub socket_open : Opening → Ctx → Ctx × Ret
socket_open create_fails c = (c, fail 1)
socket_open join_fails c = (c, fail 2)
socket_open setns_fails c = (c, fail 3)
socket_open socket_fails c = (record c { ns = record ns { rtnl_socket = no_index } }, fail 3)
  where
    open c use {ns}
socket_open (bind_fails fd) c =
    (emit (close fd) (record c { ns = record ns { rtnl_socket = fd } }), fail 3)
  where
    open c use {ns}
socket_open (opens fd index) c = (
  emit (file_add fd index) (record c { ns = record ns { rtnl_socket = fd; unix_index = index } }),
  ok,
)
  where
    open c use {ns}

abbrev is_opening : SyncState → Bool
is_opening opening = true
is_opening _ = false

pub sync_reset : Ctx → Ctx
unfolding socket_close
sync_reset c = if is_opening c.ns.sync_state then c else set_sync opening (socket_close c)

-- A failed request restarts the synchronisation; one that is sent waits for its answer.
requested : SyncState → Ctx × Ret → Ctx
unfolding schedule_timeout sync_reset
requested next (c, ok) = set_sync next (schedule_timeout (c.now + second) c)
requested next (c, fail _) = schedule_timeout (c.now + second) (sync_reset c)

request_next : Kernel → ℕ → ℕ → ℕ → SyncState → Ctx → Ctx
unfolding dump_request requested
request_next k type family len next c = requested next (dump_request k type family len c)

sync_done_in : SyncState → Kernel → Ctx → Ctx
unfolding request_next cancel_timeout
sync_done_in opening k c = c
sync_done_in link k c = request_next k rtm_getaddr 0 8 addr c
sync_done_in addr k c = request_next k rtm_getroute af_inet 12 route4 c
sync_done_in route4 k c = request_next k rtm_getroute af_inet6 12 route6 c
sync_done_in route6 k c = request_next k rtm_getneigh 0 12 neigh c
sync_done_in neigh k c =
    cancel_timeout (record c { ns = record ns { state = ready; sync_state = opening } })
  where
    open c use {ns}

pub sync_done : Kernel → Ctx → Ctx
unfolding sync_done_in
sync_done k c = sync_done_in c.ns.sync_state k c

-- After a failed request the code resets, and then goes on as after one that is sent.
link_requested : Ctx × Ret → Ctx
unfolding schedule_timeout sync_reset
link_requested (c, ok) = schedule_timeout (c.now + 2 * second) (set_sync link c)
link_requested (c, fail _) =
    schedule_timeout (c.now + 2 * second)
      (set_sync link (schedule_timeout (c.now + 10 * second) (sync_reset c)))

sync_start : Kernel → Ctx × Ret → Ctx
unfolding dump_request schedule_timeout link_requested
sync_start k (c, fail _) = schedule_timeout (c.now + 10 * second) c
sync_start k (c, ok) = link_requested (dump_request k rtm_getlink 0 16 c)

sync_timeout_in : SyncState → Kernel → Ctx → Ctx
unfolding socket_open sync_start schedule_timeout sync_reset
sync_timeout_in opening k c = sync_start k (socket_open k.opening c)
sync_timeout_in _ k c = schedule_timeout (c.now + second) (sync_reset c)

pub sync_timeout : Kernel → Ctx → Ctx
unfolding sync_timeout_in
sync_timeout k c = sync_timeout_in c.ns.sync_state k c
