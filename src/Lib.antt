-- ===== src/Lib.antt =====
-- vppsb: a verification library for the VPP sandbox.
--
-- The program is a set of plugins for VPP that mirror the networking of the Linux kernel. librtnl
-- keeps a netlink stream for a network namespace (netlink/librtnl/rtnl.c), turns its messages into a
-- store of links, routes, addresses and neighbours (netlink/librtnl/netns.c), and maps Linux interfaces
-- to VPP interfaces (netlink/librtnl/mapper.c). The router plugin (router/router) gives each VPP
-- interface a tap of the kernel, moves packets between the two, and installs what the store reports.
-- turbotap (turbotap/turbotap) is a faster tap device, and vcl-ldpreload puts the sockets of a program
-- that is not changed into VPP.
--
-- Parts and files:
--   Common: lists, tests and words over native numbers, and the result `Ret` of a C function.
--   Pool: vppinfra's pools, which are not part of the repository, as an interface `PoolLib` with the
--     documented behaviour; Pool/Slots meets it with a list, Pool/Search is the search by pool_foreach.
--   Rtnl: rtnl_ns_t and the functions of rtnl.c on one stream. `Ctx` is the time, the stream and the log
--     of effects, newest first; `Kernel` is what the system calls of a handler return. Rtnl/Process has
--     the handlers of events (rtnl_ns_recv, rtnl_process_open, _close, _timeout and _read). Proofs:
--     Dump and Sync (a whole synchronisation), Progress and Reach (step relations), Sockets, Timers, Read.
--     Rtnl/Streams is rtnl_process over the pool of streams, with rtnl_stream_open and _close, and
--     Streams/Rounds its proofs. A time is a number of microseconds in place of an f64 of seconds.
--   Netns: Attrs is rtnl_parse_rtattr, Entry the tables of fields with rtnl_entry_match, rtnl_entry_set
--     and mask_match on the bytes of an entry, Kinds what tells ns_rcv_link, ns_rcv_route, ns_rcv_addr and
--     ns_rcv_neigh apart, Store their common body. Proofs: Entry/Memory, Entry/Update,
--     Store/Links. Netns/Handles has the namespaces and subscribers (netns_open, netns_getns,
--     netns_notify, netns_callme, ns_recv_rtnl), Handles/Opens its proofs.
--   Mapper: mapper_map_t, mapper_ns_t and the functions of mapper.c; the routes of a namespace and the
--     handle of netns_open are parameters. Proofs: Mapper/Laws.
--   Router: tap_inject_main_t and the tables of router/router/tap_inject.c. Router/Control has the flags,
--     the queues of interfaces and the commands, Router/Tap tap_inject_tap.c, Router/Node and Router/Rx
--     the nodes of tap_inject_node.c, Router/Netlink tap_inject_netlink.c. Proofs: Router/Tables, Pairing,
--     Control/Switching, Tap/Connect, Node/Frames, Node/Tx, Rx/Chain, Netlink/Labels, Netlink/Reports.
--   Vcom: the sockets and epoll instances of vcl-ldpreload/src/libvcl-ldpreload/vcom_socket.c, which live
--     in VPP behind a descriptor of the kernel. `Main` is vcom_socket_main_t with a log of what is opened
--     and closed. Vcom/Open is socket and epoll_create1, Open/Accept accept, Vcom/Poll
--     vcom_socket_ctl_vepitem and epoll_ctl, Vcom/Close close, Vcom/Io read, write and their kin with
--     Io/Datagrams, Vcom/Select select, Vcom/Names addresses, options and waiting. Vcom/Calls is the
--     states that a program reaches with these calls, Vcom/Destroy vcom_socket_main_destroy. Proofs:
--     Poll/Indexed, Interest and Count, Close/Epolls, Members, Leaves and Sockets, Calls/Kept, Io/Vectors
--     and Sent, Select/Sids, Ready and Narrow, Names/Closed, Destroy/Closed;
--     the files Cases have what holds of each outcome. What the C library and vppcom return is an
--     argument; a session answers its reads and writes from a list, and a call that uses up the list has
--     not returned. The vectors of vppinfra are the interface `VecLib`, which Poll/Vectors meets.
--   Preload: vcl-ldpreload/src/libvcl-ldpreload/vcom.c, the calls that stand before those of the C
--     library. Preload/Time is its times over the integers of Int, Preload/Sets the splitting, merging,
--     clearing and restoring of descriptor sets, Preload/Polling vcom_select with its loop, one round of
--     answers for each turn, Preload/Internal pselect. Preload/Entry is the calls that change the tables
--     of Vcom, with vcom_init, Entry/Plain and Entry/Addresses the others. Proofs: Time/Laws, Sets/Parts,
--     Merged and Restored, Internal/Reports, Polling/Rounds, Ready, Counts, Timeouts, Returns, Sockets and Blind,
--     Entry/Runs, Errors, Live and Exact; Entry/Documented is what the manual pages say of the calls.
--   Turbotap: the receive node of turbotap/turbotap/node.c for one interface, turbotap_rx_iface, from the
--     filling of the messages on, and turbotap_tx_iface of turbotap/turbotap/device.c. Proofs:
--     Turbotap/Buffers, Turbotap/Whole.
--
-- The parts meet where librtnl hands its messages to netns (the effect `deliver` of Rtnl, the message
-- of Netns/Store), where netns reports an object (`Notice`, read at its offsets by Mapper and
-- Router/Netlink), where the router's control opens taps (Router/Control calls Router/Tap), and where a
-- call of a program reaches its socket (Preload/Entry calls Vcom).
--
-- Numbers: u32 counters and u16 lengths wrap as written; `no_index` is ~0. Vectors are lists, and an
-- access outside of one is an outcome of its own. The loops that read attributes and messages take
-- fuel, since the code's loops need not end: read_buffer needs one round for each message, parse_rtattr
-- one for each attribute, of which there are fewer than bytes. The loops of set_normalized_timespec have
-- two more turns than there are whole seconds in the nanoseconds. Seconds and nanoseconds are integers
-- without a bound, which are those of the code as long as its 64 bits hold them; Polling/Timeouts bounds
-- the times for that. A polling loop is `none` where its rounds are used up.
--
-- Not modelled: threads and setns (rtnl_exec_in_namespace); netns_close and ns_recv_error of netns, whose
-- behaviour is undefined as they are written; of vcl-ldpreload, the display of the tables, the
-- registration of constructor and destructor, and vcom_socket_wrapper.c, which finds the functions of the
-- C library; of turbotap, the allocation of buffers, the choice of the
-- next node, cli.c and turbotap.c. Formatting of text and registrations of nodes and commands are left
-- out, and so are the patches of flowtable, vhost-test, vpp-bootstrap and vpp-userdemo.
pub mod Common
pub mod Pool
pub mod Rtnl
pub mod Router
pub mod Netns
pub mod Mapper
pub mod Vcom
pub mod Turbotap
pub mod Preload
