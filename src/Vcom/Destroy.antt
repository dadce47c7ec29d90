-- ===== src/Vcom/Destroy.antt =====
-- vcom_socket_main_destroy of vcl-ldpreload/src/libvcl-ldpreload/vcom_socket.c, where the tables have
-- been set up.
-- `answer` is what vppcom_epoll_ctl returns for an item. The items are taken out one by one before the
-- pool is freed.
pub mod Closed
use vppsb.Common.{ℕ, false, Option, none, some, List, [], ◌∷◌, if◌then◌else◌}
use vppsb.Pool.{PoolLib}
use vppsb.Vcom.{Rv, Event, Item, Socket, Epoll, Main, Effect, fd_closed, session_closed, is_bound}
use vppsb.Vcom.Poll.{VecLib, del, epoll_ctl_internal}
use vppsb.Vcom.Calls.{initial}

-- EPOLL_CTL_DEL looks at no event.
abbrev pub no_event : Event
no_event = record { events = 0; user_data = 0 }

module _ (lib : PoolLib) (vec : VecLib) (closes : ℕ → Rv) where
  open lib use {elt, put, indexes}

  -- One item of pool_flush: its type is FD_TYPE_EPOLL or another, which is always true.
  abbrev pub item_destroyed : (ℕ → ℕ → Rv) → ℕ → Option Item → Main lib → Main lib
  item_destroyed answer i none m = m
  item_destroyed answer i (some it) m = record after { vepitems = put after.vepitems i }
    where
      after : Main lib
      after =
          (epoll_ctl_internal lib vec false it.epfd del it.fd no_event (answer it.epfd it.fd) m).0

  unfoldable pub items_destroyed : (ℕ → ℕ → Rv) → List ℕ → Main lib → Main lib
  items_destroyed answer [] m = m
  items_destroyed answer (i ∷ is) m =
      items_destroyed answer is (item_destroyed answer i (elt m.vepitems i) m)

  -- What closing a socket, or an epoll instance, that is bound to VPP adds to the log.
  abbrev pub socket_ended : Option Socket → List Effect → List Effect
  socket_ended none log = log
  socket_ended (some s) log =
      if is_bound s.type then fd_closed s.fd ∷ session_closed s.sid ∷ log else log

  abbrev pub epoll_ended : Option Epoll → List Effect → List Effect
  epoll_ended none log = log
  epoll_ended (some e) log =
      if is_bound e.type then fd_closed e.epfd ∷ session_closed e.vep_idx ∷ log else log

  -- pool_foreach over the sockets, and over the epoll instances.
  unfoldable pub sockets_ended : List ℕ → Main lib → List Effect → List Effect
  sockets_ended [] m log = log
  sockets_ended (i ∷ is) m log = sockets_ended is m (socket_ended (elt m.vsockets i) log)

  unfoldable pub epolls_ended : List ℕ → Main lib → List Effect → List Effect
  epolls_ended [] m log = log
  epolls_ended (i ∷ is) m log = epolls_ended is m (epoll_ended (elt m.vepolls i) log)

  -- Every pool and hash is freed; what was opened and closed stays in the log.
  abbrev pub emptied : Main lib → Main lib
  emptied m = record (initial lib vec closes) {
    log = epolls_ended (indexes m.vepolls) m (sockets_ended (indexes m.vsockets) m m.log);
  }

  unfoldable pub main_destroy : (ℕ → ℕ → Rv) → Main lib → Main lib
  unfolding items_destroyed sockets_ended epolls_ended
  main_destroy answer m = emptied (items_destroyed answer (indexes m.vepitems) m)
