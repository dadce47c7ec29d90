-- ===== src/Preload/Entry/Live.antt =====
-- vcom_init of vcl-ldpreload/src/libvcl-ldpreload/vcom.c over the calls of a program: no descriptor is
-- VPP's before it.
use vppsb.Common.{
  Option, none, some, arith, ℕ, ◌≡◌, refl, sym, ap, ◌∙◌, ◌⊎◌, inl, inr, Bool, true, false, ◌&&◌,
  ◌||◌, not, ◌==◌, leb, ◌^◌, if◌then◌else◌,
}
use vppsb.Pool.{PoolLib}
use vppsb.Vcom.{Rv, err, einval, ebadf, Main, is_vcom_fd, is_vcom_epfd}
use vppsb.Vcom.Poll.{VecLib}
use vppsb.Vcom.Open.{socket, epoll_create1, kind_of}
use vppsb.Vcom.Open.Accept.{accept_flags}
use vppsb.Vcom.Close.{close}
use vppsb.Vcom.Calls.{initial}
use vppsb.Vcom.Calls.Kept.{initial-is_vcom_fd}
use vppsb.Preload.Entry.Plain.{asked, plain, waiting, seen?}
use vppsb.Preload.Entry.Runs.{
  Runs, start, closed, made, taken, polling, polling1, watching, if-elim,
}
use vppsb.Preload.Entry.{
  Answer, fails, posted, settled, Program, with_init, dropped, is_ctl, ctl_with_event, vcom_init,
  called, seen, flattened, vcom_close, close_call, vcom_socket, socket_call, vcom_accept4,
  accept4_call, epoll_create1_call, epoll_create_call, vcom_epoll_ctl, epoll_ctl_call,
}

module _ (lib : PoolLib) (vec : VecLib) (closes : ℕ → Rv) where
  -- Either vcom_init is done, or nothing is in the tables.
  abbrev pub IsLive : Program lib vec closes → Type 0
  IsLive p = (p.is_vcom_init ≡ true) ⊎ (p.main ≡ initial lib vec closes)

  if_cases :
      {A : Type 0} (Q : A → Type 0) (b : Bool) (x y : A)
      → (b ≡ true → Q x)
      → Q y
      → Q (if b then x else y)
  if_cases Q true x y f g = f refl
  if_cases Q false x y f g = g

  called-IsLive :
      (ok : Bool) (f : Main lib → Main lib × Rv) (p : Program lib vec closes)
      → IsLive p
      → IsLive (called lib vec closes ok f p).0
  unfolding called vcom_init
  called-IsLive ok f p h =
      if_cases (λ q. IsLive (with_init lib vec closes f q).0) p.is_vcom_init (p, true)
        (if ok
          then (record { main = initial lib vec closes; is_vcom_init = true }, true)
          else (p, false))
        (λ i. inl i)
        (if-elim lib vec closes (λ q. IsLive (with_init lib vec closes f q).0) ok
          (record { main = initial lib vec closes; is_vcom_init = true }, true) (p, false)
          (inl refl) h)

  way-IsLive :
      (b : Bool) (x y : Program lib vec closes × Answer)
      → IsLive x.0
      → IsLive y.0
      → IsLive (if b then x else y).0
  way-IsLive b x y f g = if-elim lib vec closes (λ r. IsLive r.0) b x y f g

  pub Runs-IsLive : (p : Program lib vec closes) → Runs lib vec closes p → IsLive p
  unfolding close_call vcom_close socket_call vcom_socket accept4_call vcom_accept4
      epoll_create_call epoll_create1_call epoll_ctl_call vcom_epoll_ctl
  Runs-IsLive p start = inr refl
  Runs-IsLive p (closed {p = q} ok fd libc r) =
      way-IsLive (is_vcom_fd lib q.main fd || is_vcom_epfd lib q.main fd)
        (seen lib vec closes settled (vcom_close lib vec closes ok fd q)) (q, libc)
        (called-IsLive ok (λ m. flattened lib vec closes (close lib closes fd m)) q
          (Runs-IsLive q r))
        (Runs-IsLive q r)
  Runs-IsLive p (made {p = q} ok domain type rv create libc r) =
      way-IsLive ((domain == 2 || domain == 10) && (kind_of type == 1 || kind_of type == 2))
        (seen lib vec closes posted (vcom_socket lib vec closes ok domain type rv create q))
        (q, libc) (called-IsLive ok (socket lib domain type rv create) q (Runs-IsLive q r))
        (Runs-IsLive q r)
  Runs-IsLive p (taken {p = q} ok wants wants_len fd flags mode getfl take k libc r) =
      way-IsLive (is_vcom_fd lib q.main fd)
        (seen lib vec closes posted
          (vcom_accept4 lib vec closes ok wants wants_len fd flags mode getfl take k q))
        (q, libc)
        (called-IsLive ok
          (λ m.
            dropped lib vec closes (accept_flags lib wants wants_len fd flags mode getfl take k m))
          q (Runs-IsLive q r))
        (Runs-IsLive q r)
  Runs-IsLive p (polling {p = q} ok size rv created r) =
      called-IsLive ok
        (λ m.
          if size == 0 || leb (2 ^ 31) size
          then (m, err einval)
          else epoll_create1 lib 0 rv created m)
        q (Runs-IsLive q r)
  Runs-IsLive p (polling1 {p = q} ok flags rv created r) =
      called-IsLive ok (epoll_create1 lib flags rv created) q (Runs-IsLive q r)
  Runs-IsLive p (watching {p = q} ok epfd op fd has_event event answer r) =
      way-IsLive (not (is_vcom_epfd lib q.main epfd)) (q, fails einval)
        (if is_vcom_fd lib q.main fd
          then seen lib vec closes settled
              (vcom_epoll_ctl lib vec closes ok epfd op fd has_event event answer q)
          else (q, fails ebadf))
        (Runs-IsLive q r)
        (way-IsLive (is_vcom_fd lib q.main fd)
          (seen lib vec closes settled
            (vcom_epoll_ctl lib vec closes ok epfd op fd has_event event answer q))
          (q, fails ebadf)
          (called-IsLive ok
            (λ m.
              if not (is_ctl lib vec closes op)
              then (m, err einval)
              else ctl_with_event lib vec closes epfd op fd has_event event answer m)
            q (Runs-IsLive q r))
          (Runs-IsLive q r))

  -- Where a descriptor is VPP's, vcom_init is done.
  pub is_vcom_fd-inits :
      (p : Program lib vec closes) (fd : ℕ)
      → IsLive p
      → is_vcom_fd lib p.main fd ≡ true
      → p.is_vcom_init ≡ true
  is_vcom_fd-inits p fd (inl i) h = i
  is_vcom_fd-inits p fd (inr e) h = absurd (
      ground
        (arith, sym h ∙ ap (λ m. is_vcom_fd lib m fd) e ∙ initial-is_vcom_fd lib vec closes fd))

  abbrev pub waits? : Program lib vec closes → Option Rv → Option (Program lib vec closes × Answer)
  waits? p none = none
  waits? p (some rv) = some (p, posted rv)

  waits_lem :
      (p : Program lib vec closes) (o : Option Rv)
      → seen? lib vec closes (elim o [ none ↦ none | some rv ↦ some (p, rv) ]) ≡ waits? p o
  waits_lem p none = refl
  waits_lem p (some rv) = refl

  -- On a descriptor of VPP, in any state of a run, a call of either shape answers what the function of
  -- vcom_socket.c returns, put as a number or as an errno, and it changes nothing: vcom_init has
  -- nothing to do.
  pub calls_answered :
      (p : Program lib vec closes) (ok : Bool) (fd : ℕ) (libc : Answer) (test : Rv → Answer)
      (f : Main lib → Rv) (g : Main lib → Option Rv)
      → Runs lib vec closes p
      → is_vcom_fd lib p.main fd ≡ true
      → (plain lib vec closes test ok fd f libc p ≡ (p, test (f p.main)))
        × (waiting lib vec closes ok fd g libc p ≡ waits? p (g p.main))
  unfolding plain waiting asked called vcom_init
  calls_answered p ok fd libc test f g r h = (
    rw (h, is_vcom_fd-inits p fd (Runs-IsLive p r) h) refl,
    rw (h, is_vcom_fd-inits p fd (Runs-IsLive p r) h)
        (waits_lem (record { main = p.main; is_vcom_init = true }) (g p.main)),
  )
