-- ===== src/Vcom/Poll/Cases.antt =====
-- What epoll_ctl of vcl-ldpreload/src/libvcl-ldpreload/vcom_socket.c does outside the tables of items.
use vppsb.Common.{ℕ, ◌≡◌, refl, true, Bool, Option, none, some, List, ◌⊎◌, inl, inr, arith}
use vppsb.Pool.{PoolLib}
use vppsb.Vcom.{
  Rv, ret, err, FdType, epoll, vcom_socket, Event, Item, Epoll, Socket, Main, Checked, refused,
  bound, get_vepoll, get_vsock, check_epoll, epoll_checked,
}
use vppsb.Vcom.Poll.{
  VecLib, Op, add, mod_, del, other, modified, ctl_add, ctl_mod, ctl_del, removed, ctl_vepitem,
  after_vppcom, ctl_found, epoll_ctl_internal, epoll_ctl,
}

pub found-elt :
    (lib : PoolLib) (m : Main lib) (epfd i : ℕ) (e : Epoll)
    → get_vepoll lib m epfd ≡ bound i e
    → lib.elt m.vepolls i ≡ some e
unfolding get_vepoll check_epoll epoll_checked
found-elt lib m epfd i e h = ground (arith, h)

module _ (lib : PoolLib) (vec : VecLib) (ei : ℕ) (e : Epoll) (m : Main lib) where
  open lib use {elt, write}

  -- The sockets and the epoll instances are the same, but for the count of the one at `ei`.
  abbrev pub Counts : Main lib → Type 0
  Counts m' =
      (m'.vsockets ≡ m.vsockets)
      × (m'.sockidx_by_fd ≡ m.sockidx_by_fd)
      × (m'.epollidx_by_epfd ≡ m.epollidx_by_epfd)
      × ((m'.vepolls ≡ m.vepolls)
          ⊎ ((n : ℕ) × (m'.vepolls ≡ write m.vepolls ei (record e { count = n }))))

  ctl_add-Counts :
      (epfd fd : ℕ) (type : FdType) (event : Event) (o : Option ℕ)
      → Counts (ctl_add lib vec ei e epfd fd type event o m).0
  unfolding ctl_add
  ctl_add-Counts epfd fd type event none = (refl, refl, refl, inr (_, refl))
  ctl_add-Counts epfd fd type event (some i) = (refl, refl, refl, inl refl)

  ctl_mod-Counts : (event : Event) (o : Option ℕ) → Counts (ctl_mod lib vec event o m).0
  unfolding ctl_mod
  ctl_mod-Counts event none = (refl, refl, refl, inl refl)
  ctl_mod-Counts event (some i) = go (elt m.vepitems i)
    where
      go : (o : Option Item) → Counts (modified lib vec i event o m)
      go none = (refl, refl, refl, inl refl)
      go (some it) = (refl, refl, refl, inl refl)

  removed-Counts :
      (frees : Bool) (epfd fd i : ℕ) (v w : Option (List ℕ))
      → Counts (removed lib vec frees ei e epfd fd i v w m).0
  unfolding removed
  removed-Counts frees epfd fd i none w = (refl, refl, refl, inl refl)
  removed-Counts frees epfd fd i (some v) none = (refl, refl, refl, inl refl)
  removed-Counts frees epfd fd i (some v) (some w) = (refl, refl, refl, inr (_, refl))

  ctl_del-Counts :
      (frees : Bool) (epfd fd : ℕ) (o : Option ℕ)
      → Counts (ctl_del lib vec frees ei e epfd fd o m).0
  unfolding ctl_del
  ctl_del-Counts frees epfd fd none = (refl, refl, refl, inl refl)
  ctl_del-Counts frees epfd fd (some i) =
      removed-Counts frees epfd fd i (m.epitemidxs_by_epfd epfd) (m.epitemidxs_by_fd fd)

  pub ctl_vepitem-Counts :
      (frees : Bool) (epfd : ℕ) (op : Op) (fd : ℕ) (type : FdType) (event : Event)
      → Counts (ctl_vepitem lib vec frees ei e epfd op fd type event m).0
  unfolding ctl_vepitem
  ctl_vepitem-Counts frees epfd add fd type event =
      ctl_add-Counts epfd fd type event (m.epitemidx_by_epfdfd epfd fd)
  ctl_vepitem-Counts frees epfd mod_ fd type event =
      ctl_mod-Counts event (m.epitemidx_by_epfdfd epfd fd)
  ctl_vepitem-Counts frees epfd del fd type event =
      ctl_del-Counts frees epfd fd (m.epitemidx_by_epfdfd epfd fd)
  ctl_vepitem-Counts frees epfd other fd type event = (refl, refl, refl, inl refl)

module _ (lib : PoolLib) (vec : VecLib) (frees : Bool) (epfd : ℕ) (op : Op) (fd : ℕ) (event : Event)
    (answer : Rv) (m : Main lib) (P : Main lib → Type 0) (same : P m)
    (changed : (ei : ℕ) (e : Epoll) (type : FdType)
      → get_vepoll lib m epfd ≡ bound ei e
      → P (ctl_vepitem lib vec frees ei e epfd op fd type event m).0) where
  after_vppcom-elim :
      (ei : ℕ) (e : Epoll) (type : FdType)
      → get_vepoll lib m epfd ≡ bound ei e
      → (a : Rv) → P (after_vppcom lib vec frees ei e epfd op fd type event a m).0
  unfolding after_vppcom
  after_vppcom-elim ei e type h (err n) = same
  after_vppcom-elim ei e type h (ret n) = changed ei e type h

  ctl_found-elim :
      (c : Checked Epoll)
      → get_vepoll lib m epfd ≡ c
      → (s : Checked Socket) (f : Checked Epoll)
      → P (ctl_found lib vec frees epfd op fd event answer c s f m).0
  unfolding ctl_found
  ctl_found-elim (refused n) h s f = same
  ctl_found-elim (bound ei e) h (bound si s) f = after_vppcom-elim ei e vcom_socket h answer
  ctl_found-elim (bound ei e) h (refused n) (bound fi f) = after_vppcom-elim ei e epoll h answer
  ctl_found-elim (bound ei e) h (refused n) (refused n') = same

  pub epoll_ctl_internal-elim : P (epoll_ctl_internal lib vec frees epfd op fd event answer m).0
  unfolding epoll_ctl_internal
  epoll_ctl_internal-elim =
      ctl_found-elim (get_vepoll lib m epfd) refl (get_vsock lib m fd) (get_vepoll lib m fd)

pub epoll_ctl-elim :
    (lib : PoolLib) (vec : VecLib) (epfd : ℕ) (op : Op) (fd : ℕ) (event : Event) (answer : Rv)
    (m : Main lib) (P : Main lib → Type 0)
    → P m
    → ((ei : ℕ) (e : Epoll) (type : FdType)
        → get_vepoll lib m epfd ≡ bound ei e
        → P (ctl_vepitem lib vec true ei e epfd op fd type event m).0)
    → P (epoll_ctl lib vec epfd op fd event answer m).0
unfolding epoll_ctl
epoll_ctl-elim lib vec = epoll_ctl_internal-elim lib vec true
