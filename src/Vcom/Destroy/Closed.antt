-- ===== src/Vcom/Destroy/Closed.antt =====
-- vcom_socket_main_destroy of vcl-ldpreload/src/libvcl-ldpreload/vcom_socket.c closes what is open.
use vppsb.Common.{
  ℕ, ◌≡◌, refl, sym, ap, ◌∙◌, ◌⊎◌, inl, inr, true, false, Option, none, some, List, [], ◌∷◌, ◌==◌,
  ==_iff, Bool-cases, arith,
}
use mathlib.Core.Path.{subst}
use vppsb.Pool.{PoolLib, has, is_some}
use vppsb.Vcom.{
  Rv, Item, Socket, Epoll, Main, Effect, fd_closed, session_closed, is_bound, is_vcom_fd,
  check_socket, bound, socket_checked,
}
use vppsb.Vcom.Poll.{VecLib, del}
use vppsb.Vcom.Poll.Cases.{ctl_vepitem-Counts, epoll_ctl_internal-elim}
use vppsb.Vcom.Destroy.{
  item_destroyed, items_destroyed, socket_ended, epoll_ended, sockets_ended, epolls_ended,
  main_destroy, emptied, no_event,
}

-- The log has an effect.
abbrev pub Has : Effect → List Effect → Type 0
Has e [] = ⊥
Has e (x ∷ xs) = (e ≡ x) ⊎ Has e xs

module _ (lib : PoolLib) (vec : VecLib) (closes : ℕ → Rv) where
  open lib use {elt, indexes, has-indexes}

  item_destroyed-vsockets :
      (answer : ℕ → ℕ → Rv) (i : ℕ) (o : Option Item) (m : Main lib)
      → (item_destroyed lib vec closes answer i o m).vsockets ≡ m.vsockets
  item_destroyed-vsockets answer i none m = refl
  item_destroyed-vsockets answer i (some it) m =
      epoll_ctl_internal-elim lib vec false it.epfd del it.fd no_event (answer it.epfd it.fd) m
        (λ m'. m'.vsockets ≡ m.vsockets) refl
        (λ ei e type h. (ctl_vepitem-Counts lib vec ei e m false it.epfd del it.fd type no_event).0)

  items_destroyed-vsockets :
      (answer : ℕ → ℕ → Rv) (is : List ℕ) (m : Main lib)
      → (items_destroyed lib vec closes answer is m).vsockets ≡ m.vsockets
  unfolding items_destroyed
  items_destroyed-vsockets answer [] m = refl
  items_destroyed-vsockets answer (i ∷ is) m =
      items_destroyed-vsockets answer is
        (item_destroyed lib vec closes answer i (elt m.vepitems i) m)
      ∙ item_destroyed-vsockets answer i (elt m.vepitems i) m

  -- What the log has it keeps.
  socket_ended-Has :
      (x : Effect) (o : Option Socket) (log : List Effect)
      → Has x log
      → Has x (socket_ended lib vec closes o log)
  socket_ended-Has x none log h = h
  socket_ended-Has x (some s) log h = go (Bool-cases (is_bound s.type))
    where
      go :
          (is_bound s.type ≡ true) ⊎ (is_bound s.type ≡ false)
          → Has x (socket_ended lib vec closes (some s) log)
      go (inl e) = rw e (inr (inr h))
      go (inr e) = rw e h

  epoll_ended-Has :
      (x : Effect) (o : Option Epoll) (log : List Effect)
      → Has x log
      → Has x (epoll_ended lib vec closes o log)
  epoll_ended-Has x none log h = h
  epoll_ended-Has x (some s) log h = go (Bool-cases (is_bound s.type))
    where
      go :
          (is_bound s.type ≡ true) ⊎ (is_bound s.type ≡ false)
          → Has x (epoll_ended lib vec closes (some s) log)
      go (inl e) = rw e (inr (inr h))
      go (inr e) = rw e h

  sockets_ended-Has :
      (x : Effect) (is : List ℕ) (m : Main lib) (log : List Effect)
      → Has x log
      → Has x (sockets_ended lib vec closes is m log)
  unfolding sockets_ended
  sockets_ended-Has x [] m log h = h
  sockets_ended-Has x (i ∷ is) m log h =
      sockets_ended-Has x is m (socket_ended lib vec closes (elt m.vsockets i) log)
        (socket_ended-Has x (elt m.vsockets i) log h)

  epolls_ended-Has :
      (x : Effect) (is : List ℕ) (m : Main lib) (log : List Effect)
      → Has x log
      → Has x (epolls_ended lib vec closes is m log)
  unfolding epolls_ended
  epolls_ended-Has x [] m log h = h
  epolls_ended-Has x (i ∷ is) m log h =
      epolls_ended-Has x is m (epoll_ended lib vec closes (elt m.vepolls i) log)
        (epoll_ended-Has x (elt m.vepolls i) log h)

  -- A bound socket among those that are visited is closed.
  sockets_ended-closes :
      (is : List ℕ) (m : Main lib) (log : List Effect) (i : ℕ) (s : Socket)
      → has i is ≡ true
      → elt m.vsockets i ≡ some s
      → is_bound s.type ≡ true
      → Has (fd_closed s.fd) (sockets_ended lib vec closes is m log)
        × Has (session_closed s.sid) (sockets_ended lib vec closes is m log)
  unfolding sockets_ended
  sockets_ended-closes [] m log i s h e b = absurd (ground (arith, h))
  sockets_ended-closes (j ∷ is) m log i s h e b = elim (Bool-cases (j == i)) [
    | inl q ↦
        subst
          (λ o.
            Has (fd_closed s.fd)
              (sockets_ended lib vec closes is m (socket_ended lib vec closes o log))
            × Has (session_closed s.sid)
                (sockets_ended lib vec closes is m (socket_ended lib vec closes o log)))
          (sym (ap (elt m.vsockets) ((==_iff j i).0 q) ∙ e))
          (rw b (
            sockets_ended-Has (fd_closed s.fd) is m (fd_closed s.fd ∷ session_closed s.sid ∷ log)
                (inl refl),
            sockets_ended-Has (session_closed s.sid) is m
                (fd_closed s.fd ∷ session_closed s.sid ∷ log) (inr (inl refl)),
          ))
    | inr q ↦
        sockets_ended-closes is m (socket_ended lib vec closes (elt m.vsockets j) log) i s
          (ground (arith, q, h)) e b
  ]

  check_socket-is_bound :
      (m : Main lib) (fd i : ℕ) (s : Socket)
      → check_socket lib m fd ≡ bound i s
      → (elt m.vsockets i ≡ some s) × (is_bound s.type ≡ true)
  unfolding check_socket socket_checked
  check_socket-is_bound m fd i s h = (ground (arith, h), ground (arith, h))

  -- When the tables are given up every socket that a descriptor has leads to the close of its
  -- descriptor and of its session, whatever vppcom answers for the items; afterwards the descriptor is
  -- not VPP's.
  pub main_destroy-closes :
      (answer : ℕ → ℕ → Rv) (m : Main lib) (fd i : ℕ) (s : Socket)
      → check_socket lib m fd ≡ bound i s
      → Has (fd_closed s.fd) (main_destroy lib vec closes answer m).log
        × Has (session_closed s.sid) (main_destroy lib vec closes answer m).log
        × (is_vcom_fd lib (main_destroy lib vec closes answer m) fd ≡ false)
  unfolding main_destroy is_vcom_fd check_socket
  main_destroy-closes answer m fd i s h =
      go (items_destroyed lib vec closes answer (indexes m.vepitems) m)
        (items_destroyed-vsockets answer (indexes m.vepitems) m)
    where
      go :
          (m' : Main lib)
          → m'.vsockets ≡ m.vsockets
          → Has (fd_closed s.fd) (emptied lib vec closes m').log
            × Has (session_closed s.sid) (emptied lib vec closes m').log
            × (is_vcom_fd lib (emptied lib vec closes m') fd ≡ false)
      go m' same = (
        epolls_ended-Has (fd_closed s.fd) (indexes m'.vepolls) m'
            (sockets_ended lib vec closes (indexes m'.vsockets) m' m'.log) ends.0,
        epolls_ended-Has (session_closed s.sid) (indexes m'.vepolls) m'
            (sockets_ended lib vec closes (indexes m'.vsockets) m' m'.log) ends.1,
        refl,
      )
        where
          at : elt m'.vsockets i ≡ some s
          at = ap (λ p. elt p i) same ∙ (check_socket-is_bound m fd i s h).0

          ends :
              Has (fd_closed s.fd) (sockets_ended lib vec closes (indexes m'.vsockets) m' m'.log)
              × Has
                  (session_closed s.sid)
                  (sockets_ended lib vec closes (indexes m'.vsockets) m' m'.log)
          ends =
              sockets_ended-closes (indexes m'.vsockets) m' m'.log i s
                (has-indexes m'.vsockets i ∙ ap is_some at) at (check_socket-is_bound m fd i s h).1
