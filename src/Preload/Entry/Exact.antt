-- ===== src/Preload/Entry/Exact.antt =====
-- What the calls of vcl-ldpreload/src/libvcl-ldpreload/vcom.c add to those of vcom_socket.c.
use vppsb.Common.{
  ℕ, ◌^◌, ◌≡◌, refl, sym, ap, ◌∙◌, inl, inr, Bool, true, false, ◌&&◌, ◌||◌, not, ◌==◌, leb,
  if◌then◌else◌, arith, Bool-cases,
}
use vppsb.Pool.{PoolLib}
use vppsb.Vcom.{Rv, err, einval, ebadf, Event, Main, is_vcom_fd, is_vcom_epfd}
use vppsb.Vcom.Poll.{VecLib, Op}
use vppsb.Vcom.Open.{socket, epoll_create1, kind_of}
use vppsb.Vcom.Open.Accept.{Endpoint, Kernel, accept_flags}
use vppsb.Vcom.Close.{close}
use vppsb.Vcom.Calls.{initial, Reach}
use vppsb.Vcom.Calls.Kept.{initial-is_vcom_fd, initial-is_vcom_epfd}
use vppsb.Preload.Entry.Runs.{Runs, Runs-Reach}
use vppsb.Preload.Entry.Documented.{
  closed_or_not, after, created, controlled, closed-flattened, created_lem, controlled_lem,
}
use vppsb.Preload.Entry.Live.{IsLive, Runs-IsLive, is_vcom_fd-inits}
use vppsb.Preload.Entry.{
  Answer, fails, posted, settled, Program, dropped, is_ctl, ctl_with_event, vcom_init, called, seen,
  flattened, vcom_close, close_call, vcom_socket, socket_call, vcom_accept4, accept4_call,
  epoll_create1_call, epoll_create_call, vcom_epoll_ctl, epoll_ctl_call,
}

module _ (lib : PoolLib) (vec : VecLib) (closes : ℕ → Rv) where
  -- Each call of the program is that of vcom_socket.c on the tables as they are, or the C library's.
  pub record IsExact (p : Program lib vec closes) : Type 0 where
    pub by_close :
        (ok : Bool) (fd : ℕ) (libc : Answer)
        → close_call lib vec closes ok fd libc p ≡ (
            if is_vcom_fd lib p.main fd || is_vcom_epfd lib p.main fd
            then after lib vec closes closed_or_not (close lib closes fd p.main)
            else (p, libc))
    pub by_socket :
        (domain type : ℕ) (made : Rv) (create : Bool → Bool → Rv) (libc : Answer)
        → socket_call lib vec closes true domain type made create libc p ≡ (
            if (domain == 2 || domain == 10) && (kind_of type == 1 || kind_of type == 2)
            then after lib vec closes posted (socket lib domain type made create p.main)
            else (p, libc))
    pub by_accept :
        (ok wants wants_len : Bool) (fd flags : ℕ) (mode getfl : Rv) (take : Bool → Rv × Endpoint)
        (k : Kernel) (libc : Answer)
        → accept4_call lib vec closes ok wants wants_len fd flags mode getfl take k libc p ≡ (
            if is_vcom_fd lib p.main fd
            then after lib vec closes posted (
                dropped lib vec closes
                  (accept_flags lib wants wants_len fd flags mode getfl take k p.main))
            else (p, libc))
    pub by_epoll_create1 :
        (flags : ℕ) (made rv : Rv)
        → epoll_create1_call lib vec closes true flags made rv p
          ≡ after lib vec closes posted (epoll_create1 lib flags made rv p.main)
    pub by_epoll_create :
        (size : ℕ) (made rv : Rv)
        → epoll_create_call lib vec closes true size made rv p
          ≡ after lib vec closes posted (created lib vec closes size made rv p.main)
    pub by_epoll_ctl :
        (ok : Bool) (epfd : ℕ) (op : Op) (fd : ℕ) (has_event : Bool) (event : Event) (answer : Rv)
        → epoll_ctl_call lib vec closes ok epfd op fd has_event event answer p ≡ (
            if not (is_vcom_epfd lib p.main epfd)
            then (p, fails einval)
            else if is_vcom_fd lib p.main fd
            then after lib vec closes settled
                (controlled lib vec closes epfd op fd has_event event answer p.main)
            else (p, fails ebadf))

  abbrev ran : (Main lib → Main lib × Rv) → Main lib → Program lib vec closes × Rv
  ran f m = (record { main = (f m).0; is_vcom_init = true }, (f m).1)

  -- vcom_init leaves the tables of a live program.
  called_live :
      (f : Main lib → Main lib × Rv) (p : Program lib vec closes)
      → IsLive lib vec closes p
      → called lib vec closes true f p ≡ ran f p.main
  unfolding called vcom_init
  called_live f p (inl e) = rw e refl
  called_live f p (inr e) = elim (Bool-cases p.is_vcom_init) [
    | inl i ↦ rw i refl
    | inr i ↦ rw i (ap (ran f) (sym e))
  ]

  called_done :
      (ok : Bool) (f : Main lib → Main lib × Rv) (p : Program lib vec closes)
      → p.is_vcom_init ≡ true
      → called lib vec closes ok f p ≡ ran f p.main
  unfolding called vcom_init
  called_done ok f p e = rw e refl

  -- Where a descriptor is VPP's, of either kind, vcom_init is done.
  inits :
      (p : Program lib vec closes) (b : Program lib vec closes → Bool)
      → ((i : Bool) → b (record { main = initial lib vec closes; is_vcom_init = i }) ≡ false)
      → IsLive lib vec closes p
      → b p ≡ true
      → p.is_vcom_init ≡ true
  inits p b none_yet (inl i) h = i
  inits p b none_yet (inr e) h = absurd (
      ground (
        arith,
        sym h
            ∙ ap (λ m. b (record { main = m; is_vcom_init = p.is_vcom_init })) e
            ∙ none_yet p.is_vcom_init,
      ))

  close_exact :
      (p : Program lib vec closes)
      → IsLive lib vec closes p
      → (ok : Bool) (fd : ℕ) (libc : Answer)
      → close_call lib vec closes ok fd libc p ≡ (
          if is_vcom_fd lib p.main fd || is_vcom_epfd lib p.main fd
          then after lib vec closes closed_or_not (close lib closes fd p.main)
          else (p, libc))
  unfolding close_call vcom_close
  close_exact p live ok fd libc =
      elim (Bool-cases (is_vcom_fd lib p.main fd || is_vcom_epfd lib p.main fd)) [
        | inl h ↦ rw h (
            ap (seen lib vec closes settled) (
              called_done ok (λ m. flattened lib vec closes (close lib closes fd m)) p
                (inits p (λ q. is_vcom_fd lib q.main fd || is_vcom_epfd lib q.main fd)
                  (λ i. rw (initial-is_vcom_fd, initial-is_vcom_epfd) refl) live h))
            ∙ closed-flattened lib vec closes (close lib closes fd p.main))
        | inr h ↦ rw h refl
      ]

  socket_exact :
      (p : Program lib vec closes)
      → IsLive lib vec closes p
      → (domain type : ℕ) (made : Rv) (create : Bool → Bool → Rv) (libc : Answer)
      → socket_call lib vec closes true domain type made create libc p ≡ (
          if (domain == 2 || domain == 10) && (kind_of type == 1 || kind_of type == 2)
          then after lib vec closes posted (socket lib domain type made create p.main)
          else (p, libc))
  unfolding socket_call vcom_socket
  socket_exact p live domain type made create libc =
      rw (called_live (socket lib domain type made create) p live) refl

  accept_exact :
      (p : Program lib vec closes)
      → IsLive lib vec closes p
      → (ok wants wants_len : Bool) (fd flags : ℕ) (mode getfl : Rv) (take : Bool → Rv × Endpoint)
        (k : Kernel) (libc : Answer)
      → accept4_call lib vec closes ok wants wants_len fd flags mode getfl take k libc p ≡ (
          if is_vcom_fd lib p.main fd
          then after lib vec closes posted (
              dropped lib vec closes
                (accept_flags lib wants wants_len fd flags mode getfl take k p.main))
          else (p, libc))
  unfolding accept4_call vcom_accept4
  accept_exact p live ok wants wants_len fd flags mode getfl take k libc =
      elim (Bool-cases (is_vcom_fd lib p.main fd)) [
        | inl h ↦ rw h (
            ap (seen lib vec closes posted) (
              called_done ok
                (λ m.
                  dropped lib vec closes
                    (accept_flags lib wants wants_len fd flags mode getfl take k m))
                p (is_vcom_fd-inits lib vec closes p fd live h)))
        | inr h ↦ rw h refl
      ]

  epoll_create_exact :
      (p : Program lib vec closes)
      → IsLive lib vec closes p
      → (size : ℕ) (made rv : Rv)
      → epoll_create_call lib vec closes true size made rv p
        ≡ after lib vec closes posted (created lib vec closes size made rv p.main)
  unfolding epoll_create_call
  epoll_create_exact p live size made rv =
      ap (seen lib vec closes posted) (
        called_live
          (λ m.
            if size == 0 || leb (2 ^ 31) size
            then (m, err einval)
            else epoll_create1 lib 0 made rv m)
          p live)
      ∙ ap (after lib vec closes posted) (created_lem lib vec closes size made rv p.main)

  epoll_ctl_exact :
      (p : Program lib vec closes)
      → IsLive lib vec closes p
      → (ok : Bool) (epfd : ℕ) (op : Op) (fd : ℕ) (has_event : Bool) (event : Event) (answer : Rv)
      → epoll_ctl_call lib vec closes ok epfd op fd has_event event answer p ≡ (
          if not (is_vcom_epfd lib p.main epfd)
          then (p, fails einval)
          else if is_vcom_fd lib p.main fd
          then after lib vec closes settled
              (controlled lib vec closes epfd op fd has_event event answer p.main)
          else (p, fails ebadf))
  unfolding epoll_ctl_call vcom_epoll_ctl
  epoll_ctl_exact p live ok epfd op fd has_event event answer =
      elim (Bool-cases (is_vcom_fd lib p.main fd)) [
        | inl h ↦
            rw
              (
                h,
                called_done ok
                    (λ m.
                      if not (is_ctl lib vec closes op)
                      then (m, err einval)
                      else ctl_with_event lib vec closes epfd op fd has_event event answer m)
                    p (is_vcom_fd-inits lib vec closes p fd live h),
                controlled_lem lib vec closes epfd op fd has_event event answer p.main,
              )
              refl
        | inr h ↦ rw h refl
      ]

  IsLive-IsExact : (p : Program lib vec closes) → IsLive lib vec closes p → IsExact p
  unfolding epoll_create1_call
  IsLive-IsExact p live = record {
    by_close = close_exact p live;
    by_socket = socket_exact p live;
    by_accept = accept_exact p live;
    by_epoll_create1 = λ flags made rv.
        ap (seen lib vec closes posted) (called_live (epoll_create1 lib flags made rv) p live);
    by_epoll_create = epoll_create_exact p live;
    by_epoll_ctl = epoll_ctl_exact p live;
  }

  -- The tables in any state of a run are those that calls of vcom_socket.c alone lead to, and the next
  -- call does to them exactly what that of vcom_socket.c does: close and accept4 on a descriptor of
  -- VPP, socket with a family and a type of VPP, epoll_create1, epoll_create with a positive size, and
  -- epoll_ctl on an epoll instance and a socket of VPP that have different numbers, with a known
  -- operation, and with an event unless it deletes. The answer is what that call returns, of close
  -- only whether it is 0. Otherwise no table changes: close, accept4 and socket answer what the C
  -- library does, the epoll calls an error. For socket, epoll_create and epoll_create1,
  -- vppcom_app_create is taken to succeed.
  pub Runs-IsExact :
      (p : Program lib vec closes) → Runs lib vec closes p → Reach lib vec closes p.main × IsExact p
  Runs-IsExact p r =
      (Runs-Reach lib vec closes p r, IsLive-IsExact p (Runs-IsLive lib vec closes p r))
