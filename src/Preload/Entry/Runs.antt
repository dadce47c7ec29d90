-- ===== src/Preload/Entry/Runs.antt =====
-- The states that the calls of vcl-ldpreload/src/libvcl-ldpreload/vcom.c lead to.
use vppsb.Common.{
  ℕ, zero, suc, ◌≡◌, refl, sym, Bool, true, false, ◌&&◌, ◌||◌, not, ◌==◌, leb, ◌^◌, if◌then◌else◌,
}
use mathlib.Core.Path.{subst}
use vppsb.Pool.{PoolLib}
use vppsb.Vcom.{Rv, ret, err, einval, ebadf, Event, Main, is_vcom_fd, is_vcom_epfd}
use vppsb.Vcom.Poll.{VecLib, Op, epoll_ctl}
use vppsb.Vcom.Open.{socket, epoll_create1, kind_of}
use vppsb.Vcom.Open.Accept.{Endpoint, Kernel, accept_flags}
use vppsb.Vcom.Close.{close}
use vppsb.Vcom.Calls.{
  initial, Reach, fresh, by_socket, by_epoll_create, by_accept, by_epoll_ctl, by_close,
}
use vppsb.Preload.Entry.{
  Answer, fails, posted, settled, Program, loaded, with_init, dropped, is_ctl, ep_op_has_event,
  ctl_apart, ctl_with_event, vcom_init, called, seen, flattened, vcom_close, close_call,
  vcom_socket, socket_call, vcom_accept4, accept4_call, epoll_create1_call, epoll_create_call,
  vcom_epoll_ctl, epoll_ctl_call,
}

module _ (lib : PoolLib) (vec : VecLib) (closes : ℕ → Rv) where
  -- The states of a program, call by call, with whatever the C library and vppcom answer.
  pub data Runs : Program lib vec closes → Type 0 where
    start : Runs (loaded lib vec closes)
    closed :
        {p : Program lib vec closes} (ok : Bool) (fd : ℕ) (libc : Answer)
        → Runs p
        → Runs (close_call lib vec closes ok fd libc p).0
    made :
        {p : Program lib vec closes} (ok : Bool) (domain type : ℕ) (rv : Rv)
        (create : Bool → Bool → Rv) (libc : Answer)
        → Runs p
        → Runs (socket_call lib vec closes ok domain type rv create libc p).0
    taken :
        {p : Program lib vec closes} (ok wants wants_len : Bool) (fd flags : ℕ) (mode getfl : Rv)
        (take : Bool → Rv × Endpoint) (k : Kernel) (libc : Answer)
        → Runs p
        → Runs (accept4_call lib vec closes ok wants wants_len fd flags mode getfl take k libc p).0
    polling :
        {p : Program lib vec closes} (ok : Bool) (size : ℕ) (rv created : Rv)
        → Runs p
        → Runs (epoll_create_call lib vec closes ok size rv created p).0
    polling1 :
        {p : Program lib vec closes} (ok : Bool) (flags : ℕ) (rv created : Rv)
        → Runs p
        → Runs (epoll_create1_call lib vec closes ok flags rv created p).0
    watching :
        {p : Program lib vec closes} (ok : Bool) (epfd : ℕ) (op : Op) (fd : ℕ) (has_event : Bool)
        (event : Event) (answer : Rv)
        → Runs p
        → Runs (epoll_ctl_call lib vec closes ok epfd op fd has_event event answer p).0

  pub if-elim :
      {A : Type 0} (Q : A → Type 0) (b : Bool) (x y : A) → Q x → Q y → Q (if b then x else y)
  if-elim Q true x y f g = f
  if-elim Q false x y f g = g

  -- What a call of vcom_socket.c keeps the wrapper keeps, if vcom_init sets it up.
  called-elim :
      (P : Main lib → Type 0) (ok : Bool) (f : Main lib → Main lib × Rv)
      (p : Program lib vec closes)
      → P (initial lib vec closes)
      → ((m : Main lib) → P m → P (f m).0)
      → P p.main
      → P (called lib vec closes ok f p).0.main
  unfolding called vcom_init
  called-elim P ok f p i keeps h =
      if-elim (λ q. P (with_init lib vec closes f q).0.main) p.is_vcom_init (p, true)
        (if ok
          then (record { main = initial lib vec closes; is_vcom_init = true }, true)
          else (p, false))
        (keeps p.main h)
        (if-elim (λ q. P (with_init lib vec closes f q).0.main) ok
          (record { main = initial lib vec closes; is_vcom_init = true }, true) (p, false)
          (keeps (initial lib vec closes) i) h)

  called-Reach :
      (ok : Bool) (f : Main lib → Main lib × Rv) (p : Program lib vec closes)
      → ((m : Main lib) → Reach lib vec closes m → Reach lib vec closes (f m).0)
      → Reach lib vec closes p.main
      → Reach lib vec closes (called lib vec closes ok f p).0.main
  called-Reach ok f p keeps h = called-elim (Reach lib vec closes) ok f p fresh keeps h

  flattened-main : (r : Main lib × Rv) → (flattened lib vec closes r).0 ≡ r.0
  flattened-main (m, ret zero) = refl
  flattened-main (m, ret (suc n)) = refl
  flattened-main (m, err zero) = refl
  flattened-main (m, err (suc e)) = refl

  -- The sockets of a call that goes one of two ways.
  either_way :
      (b : Bool) (x y : Program lib vec closes × Answer)
      → Reach lib vec closes x.0.main
      → Reach lib vec closes y.0.main
      → Reach lib vec closes (if b then x else y).0.main
  either_way b x y f g = if-elim (λ r. Reach lib vec closes r.0.main) b x y f g

  closed-Reach :
      (ok : Bool) (fd : ℕ) (libc : Answer) (p : Program lib vec closes)
      → Reach lib vec closes p.main
      → Reach lib vec closes (close_call lib vec closes ok fd libc p).0.main
  unfolding close_call vcom_close
  closed-Reach ok fd libc p h =
      either_way (is_vcom_fd lib p.main fd || is_vcom_epfd lib p.main fd)
        (seen lib vec closes settled (vcom_close lib vec closes ok fd p)) (p, libc)
        (called-Reach ok (λ m. flattened lib vec closes (close lib closes fd m)) p
          (λ m r.
            subst (Reach lib vec closes) (sym (flattened-main (close lib closes fd m)))
              (by_close fd r))
          h)
        h

  made-Reach :
      (ok : Bool) (domain type : ℕ) (rv : Rv) (create : Bool → Bool → Rv) (libc : Answer)
      (p : Program lib vec closes)
      → Reach lib vec closes p.main
      → Reach lib vec closes (socket_call lib vec closes ok domain type rv create libc p).0.main
  unfolding socket_call vcom_socket
  made-Reach ok domain type rv create libc p h =
      either_way ((domain == 2 || domain == 10) && (kind_of type == 1 || kind_of type == 2))
        (seen lib vec closes posted (vcom_socket lib vec closes ok domain type rv create p))
        (p, libc)
        (called-Reach ok (socket lib domain type rv create) p
          (λ m r. by_socket domain type rv create r) h)
        h

  taken-Reach :
      (ok wants wants_len : Bool) (fd flags : ℕ) (mode getfl : Rv) (take : Bool → Rv × Endpoint)
      (k : Kernel) (libc : Answer) (p : Program lib vec closes)
      → Reach lib vec closes p.main
      → Reach lib vec closes
          (accept4_call lib vec closes ok wants wants_len fd flags mode getfl take k libc p).0.main
  unfolding accept4_call vcom_accept4
  taken-Reach ok wants wants_len fd flags mode getfl take k libc p h =
      either_way (is_vcom_fd lib p.main fd)
        (seen lib vec closes posted
          (vcom_accept4 lib vec closes ok wants wants_len fd flags mode getfl take k p))
        (p, libc)
        (called-Reach ok
          (λ m.
            dropped lib vec closes (accept_flags lib wants wants_len fd flags mode getfl take k m))
          p (λ m r. by_accept wants wants_len fd flags mode getfl take k r) h)
        h

  polling-Reach :
      (ok : Bool) (size : ℕ) (rv created : Rv) (p : Program lib vec closes)
      → Reach lib vec closes p.main
      → Reach lib vec closes (epoll_create_call lib vec closes ok size rv created p).0.main
  unfolding epoll_create_call
  polling-Reach ok size rv created p h =
      called-Reach ok
        (λ m.
          if size == 0 || leb (2 ^ 31) size
          then (m, err einval)
          else epoll_create1 lib 0 rv created m)
        p
        (λ m r.
          if-elim (λ x. Reach lib vec closes x.0) (size == 0 || leb (2 ^ 31) size) (m, err einval)
            (epoll_create1 lib 0 rv created m) r (by_epoll_create 0 rv created r))
        h

  watching-Reach :
      (ok : Bool) (epfd : ℕ) (op : Op) (fd : ℕ) (has_event : Bool) (event : Event) (answer : Rv)
      (p : Program lib vec closes)
      → Reach lib vec closes p.main
      → Reach lib vec closes
          (epoll_ctl_call lib vec closes ok epfd op fd has_event event answer p).0.main
  unfolding epoll_ctl_call vcom_epoll_ctl
  watching-Reach ok epfd op fd has_event event answer p h =
      either_way (not (is_vcom_epfd lib p.main epfd)) (p, fails einval)
        (if is_vcom_fd lib p.main fd
          then seen lib vec closes settled
              (vcom_epoll_ctl lib vec closes ok epfd op fd has_event event answer p)
          else (p, fails ebadf))
        h
        (either_way (is_vcom_fd lib p.main fd)
          (seen lib vec closes settled
            (vcom_epoll_ctl lib vec closes ok epfd op fd has_event event answer p))
          (p, fails ebadf)
          (called-Reach ok
            (λ m.
              if not (is_ctl lib vec closes op)
              then (m, err einval)
              else ctl_with_event lib vec closes epfd op fd has_event event answer m)
            p
            (λ m r.
              if-elim (λ x. Reach lib vec closes x.0) (not (is_ctl lib vec closes op))
                (m, err einval) (ctl_with_event lib vec closes epfd op fd has_event event answer m)
                r
                (if-elim (λ x. Reach lib vec closes x.0)
                  (ep_op_has_event lib vec closes op && not has_event) (m, err 14)
                  (ctl_apart lib vec closes epfd op fd event answer m) r
                  (if-elim (λ x. Reach lib vec closes x.0) (epfd == fd) (m, err einval)
                    (epoll_ctl lib vec epfd op fd event answer m) r
                    (by_epoll_ctl epfd op fd event answer r))))
            h)
          h)

  polling1-Reach :
      (ok : Bool) (flags : ℕ) (rv created : Rv) (p : Program lib vec closes)
      → Reach lib vec closes p.main
      → Reach lib vec closes (epoll_create1_call lib vec closes ok flags rv created p).0.main
  unfolding epoll_create1_call
  polling1-Reach ok flags rv created p h =
      called-Reach ok (epoll_create1 lib flags rv created) p
        (λ m r. by_epoll_create flags rv created r) h

  -- Every run of a program is one of the calls of vcom_socket.c: the wrappers add no other change of
  -- the sockets, and what vcom_init sets up is the first state.
  pub Runs-Reach : (p : Program lib vec closes) → Runs p → Reach lib vec closes p.main
  Runs-Reach p start = fresh
  Runs-Reach p (closed {p = q} ok fd libc r) = closed-Reach ok fd libc q (Runs-Reach q r)
  Runs-Reach p (made {p = q} ok domain type rv create libc r) =
      made-Reach ok domain type rv create libc q (Runs-Reach q r)
  Runs-Reach p (taken {p = q} ok wants wants_len fd flags mode getfl take k libc r) =
      taken-Reach ok wants wants_len fd flags mode getfl take k libc q (Runs-Reach q r)
  Runs-Reach p (polling {p = q} ok size rv created r) =
      polling-Reach ok size rv created q (Runs-Reach q r)
  Runs-Reach p (polling1 {p = q} ok flags rv created r) =
      polling1-Reach ok flags rv created q (Runs-Reach q r)
  Runs-Reach p (watching {p = q} ok epfd op fd has_event event answer r) =
      watching-Reach ok epfd op fd has_event event answer q (Runs-Reach q r)
