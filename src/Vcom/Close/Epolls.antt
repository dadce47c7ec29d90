-- ===== src/Vcom/Close/Epolls.antt =====
-- What the close of a socket does to the epoll instances of
-- vcl-ldpreload/src/libvcl-ldpreload/vcom_socket.c.
use vppsb.Common.{
  ℕ, ◌+◌, ◌-◌, ◌%◌, ◌^◌, ◌≡◌, refl, Bool, true, false, ◌&&◌, not, Option, none, some, arith, ◌==◌,
  if◌then◌else◌, no_index, Bool-cases, inl, inr, ◌⊎◌,
}
use vppsb.Pool.{PoolLib}
use vppsb.Vcom.{Rv, Epoll, Main, is_bound, check_epoll, epoll_checked}
use vppsb.Vcom.Poll.{VecLib}
use vppsb.Vcom.Poll.Indexed.{SameTables}
use vppsb.Vcom.Close.{epoll_dropped, with_epoll, epoll_closed, close_vepoll, left}

abbrev pub is_epoll_of : ℕ → Option Epoll → Bool
is_epoll_of q none = false
is_epoll_of q (some e) = e.epfd == q && is_bound e.type

-- What the close of a member makes of an epoll instance: one that waits to be closed counts down,
-- and goes where it counted one. An index that stands for none is passed over.
abbrev pub after_leave : Option Epoll → Option Epoll
after_leave none = none
after_leave (some e) =
    if e.close && not (e.vep_idx == no_index)
    then if e.count == 1 then none else some (record e { count = (e.count + 2 ^ 32 - 1) % 2 ^ 32 })
    else some e

module _ (lib : PoolLib) (closes : ℕ → Rv) where
  open lib use {elt, write, put, elt-write, elt-put}

  -- The epoll instances stand at the indices of their descriptors.
  abbrev pub IsEpollKeyed : Main lib → Type 0
  IsEpollKeyed m =
      (q i : ℕ) → m.epollidx_by_epfd q ≡ some i → is_epoll_of q (elt m.vepolls i) ≡ true

  abbrev pub epoll_at : Main lib → Option ℕ → Option Epoll
  epoll_at m none = none
  epoll_at m (some i) = elt m.vepolls i

  abbrev pub epoll_of : Main lib → ℕ → Option Epoll
  epoll_of m q = epoll_at m (m.epollidx_by_epfd q)

  left-dropped :
      (i : ℕ) (e : Epoll) (m : Main lib)
      → is_bound e.type ≡ true
      → m.epollidx_by_epfd e.epfd ≡ some i
      → e.close ≡ true
      → e.count ≡ 1
      → left lib closes i e m
        ≡ epoll_dropped lib closes e.epfd i
            (record e { count = 0 })
            (with_epoll lib closes i (record e { count = 0 }) m)
  unfolding left close_vepoll epoll_closed check_epoll epoll_checked
  left-dropped i e m b h c n =
      ground (arith, b, h, c, n, elt-write m.vepolls i i (record e { count = 0 }))

  left-counted :
      (i : ℕ) (e : Epoll) (m : Main lib)
      → e.close ≡ true
      → (e.count == 1) ≡ false
      → left lib closes i e m
        ≡ with_epoll lib closes i (record e { count = (e.count + 2 ^ 32 - 1) % 2 ^ 32 }) m
  unfolding left
  left-counted i e m c u = ground (arith, c, u)

  module _ (i : ℕ) (e : Epoll) (m : Main lib) (k : IsEpollKeyed m)
      (h : m.epollidx_by_epfd e.epfd ≡ some i) (s : elt m.vepolls i ≡ some e) where
    dropped-epoll_of :
        (f : Epoll) (q : ℕ)
        → epoll_of (epoll_dropped lib closes e.epfd i f (with_epoll lib closes i f m)) q
          ≡ (if e.epfd == q then none else epoll_of m q)
    dropped-epoll_of f q = go (m.epollidx_by_epfd q) refl
      where
        go :
            (o : Option ℕ)
            → m.epollidx_by_epfd q ≡ o
            → epoll_of (epoll_dropped lib closes e.epfd i f (with_epoll lib closes i f m)) q
              ≡ (if e.epfd == q then none else epoll_of m q)
        go none n = ground (arith, n)
        go (some j) n =
            ground
              (arith, n, k q j n, s, elt-write m.vepolls i j f, elt-put (write m.vepolls i f) i j)

    dropped-IsEpollKeyed :
        (f : Epoll)
        → IsEpollKeyed (epoll_dropped lib closes e.epfd i f (with_epoll lib closes i f m))
    dropped-IsEpollKeyed f q j n =
        ground (arith, n, k q j, s, elt-write m.vepolls i j f, elt-put (write m.vepolls i f) i j)

    written-epoll_of :
        (f : Epoll) (q : ℕ)
        → epoll_of (with_epoll lib closes i f m) q ≡ (if e.epfd == q then some f else epoll_of m q)
    written-epoll_of f q = go (m.epollidx_by_epfd q) refl
      where
        go :
            (o : Option ℕ)
            → m.epollidx_by_epfd q ≡ o
            → epoll_of (with_epoll lib closes i f m) q
              ≡ (if e.epfd == q then some f else epoll_of m q)
        go none n = ground (arith, n, h)
        go (some j) n = ground (arith, n, h, k q j n, s, elt-write m.vepolls i j f)

    written-IsEpollKeyed :
        (f : Epoll)
        → is_epoll_of e.epfd (some f) ≡ true
        → IsEpollKeyed (with_epoll lib closes i f m)
    written-IsEpollKeyed f b q j n = ground (arith, n, b, k q j n, s, elt-write m.vepolls i j f)

    pub left-epoll_of :
        (e.vep_idx == no_index) ≡ false
        → (q : ℕ)
        → epoll_of (left lib closes i e m) q
          ≡ (if e.epfd == q then after_leave (some e) else epoll_of m q)
    unfolding left
    left-epoll_of v q = ground (
      arith,
      s,
      h,
      v,
      k e.epfd i h,
      left-dropped i e m,
      dropped-epoll_of (record e { count = 0 }) q,
      written-epoll_of (record e { count = (e.count + 2 ^ 32 - 1) % 2 ^ 32 }) q,
    )

    -- What holds of the three states that `left` can end in holds of the one it ends in.
    left-elim :
        (P : Main lib → Type 0)
        → P (
            epoll_dropped lib closes e.epfd i
              (record e { count = 0 })
              (with_epoll lib closes i (record e { count = 0 }) m))
        → P (with_epoll lib closes i (record e { count = (e.count + 2 ^ 32 - 1) % 2 ^ 32 }) m)
        → P m
        → P (left lib closes i e m)
    unfolding left
    left-elim P d w n = go (Bool-cases e.close) (Bool-cases (e.count == 1))
      where
        go :
            (e.close ≡ true) ⊎ (e.close ≡ false)
            → ((e.count == 1) ≡ true) ⊎ ((e.count == 1) ≡ false)
            → P (left lib closes i e m)
        go (inl c) (inl u) =
            rw (left-dropped i e m (ground (arith, s, k e.epfd i h)) h c (ground (arith, u))) d
        go (inl c) (inr u) = rw (left-counted i e m c u) w
        go (inr c) u = rw (left, c) n

    pub left-IsEpollKeyed : IsEpollKeyed (left lib closes i e m)
    left-IsEpollKeyed =
        left-elim IsEpollKeyed (dropped-IsEpollKeyed (record e { count = 0 }))
          (written-IsEpollKeyed _ (ground (arith, s, k e.epfd i h))) k

    pub left-SameTables : (vec : VecLib) → SameTables lib vec m (left lib closes i e m)
    left-SameTables vec =
        left-elim (SameTables lib vec m) (refl, refl, refl, refl) (refl, refl, refl, refl)
          (refl, refl, refl, refl)

    pub left-vsockets : (left lib closes i e m).vsockets ≡ m.vsockets
    left-vsockets = left-elim (λ m'. m'.vsockets ≡ m.vsockets) refl refl refl

    pub left-sockidx_by_fd : (left lib closes i e m).sockidx_by_fd ≡ m.sockidx_by_fd
    left-sockidx_by_fd = left-elim (λ m'. m'.sockidx_by_fd ≡ m.sockidx_by_fd) refl refl refl
