-- ===== src/Vcom/Poll/Indexed.antt =====
-- The four tables of items of vcl-ldpreload/src/libvcl-ldpreload/vcom_socket.c agree with each other.
use vppsb.Common.{
  ℕ, ◌+◌, ◌≡◌, ◌≢◌, refl, Bool, true, false, ◌&&◌, ◌||◌, Option, none, some, List, [], ◌∷◌, ◌++◌,
  arith, ◌==◌, ◌⊎◌, if◌then◌else◌, inl,
}
use vppsb.Pool.{PoolLib, has, IsDistinct}
use vppsb.Vcom.{Rv, ret, err, enoent, eexist, einval, FdType, Event, Item, Epoll, Main}
use vppsb.Vcom.Poll.{
  VecLib, Op, add, mod_, del, other, vec_of, taken, with_count, entered, ctl_add, ctl_mod, ctl_del,
  modified, removed, ctl_vepitem,
}

abbrev pub is_of : ℕ → ℕ → Option Item → Bool
is_of e f none = false
is_of e f (some it) = it.epfd == e && it.fd == f

abbrev pub refusal : Op → ℕ
refusal add = eexist
refusal mod_ = enoent
refusal del = enoent
refusal other = einval

abbrev pub at_epfd : ℕ → Option Item → Bool
at_epfd e none = false
at_epfd e (some it) = it.epfd == e

abbrev pub at_fd : ℕ → Option Item → Bool
at_fd f none = false
at_fd f (some it) = it.fd == f

has-append_one : (i j : ℕ) (v : List ℕ) → has i (v ++ j ∷ []) ≡ (has i v || j == i)
has-append_one i j [] = ground arith
has-append_one i j (k ∷ v) = ground (arith, has-append_one i j v)

append_one-IsDistinct :
    (j : ℕ) (v : List ℕ) → has j v ≡ false → IsDistinct v → IsDistinct (v ++ j ∷ [])
append_one-IsDistinct j [] n d = (refl, tt)
append_one-IsDistinct j (k ∷ v) n d = (
  ground (arith, has-append_one k j v, n, d.0),
  append_one-IsDistinct j v (ground (arith, n)) d.1,
)

module _ (lib : PoolLib) (vec : VecLib) where
  open lib use {elt, fresh, write, put, elt-fresh, elt-write, elt-put}
  open vec use {remove, has-remove, remove-IsDistinct}

  -- Each hash finds exactly the items of its key, and the vectors have no index twice.
  pub record IsIndexed (m : Main lib) : Type 0 where
    pub keyed :
        (e f i : ℕ) → m.epitemidx_by_epfdfd e f ≡ some i → is_of e f (elt m.vepitems i) ≡ true
    pub listed :
        (i : ℕ) (it : Item)
        → elt m.vepitems i ≡ some it
        → m.epitemidx_by_epfdfd it.epfd it.fd ≡ some i
    pub by_epfd : (e i : ℕ) → has i (vec_of (m.epitemidxs_by_epfd e)) ≡ at_epfd e (elt m.vepitems i)
    pub by_fd : (f i : ℕ) → has i (vec_of (m.epitemidxs_by_fd f)) ≡ at_fd f (elt m.vepitems i)
    pub epfd_distinct : (e : ℕ) → IsDistinct (vec_of (m.epitemidxs_by_epfd e))
    pub fd_distinct : (f : ℕ) → IsDistinct (vec_of (m.epitemidxs_by_fd f))

  -- The tables of items of two states are the same.
  abbrev pub SameTables : Main lib → Main lib → Type 0
  SameTables m m' =
      (m'.vepitems ≡ m.vepitems)
      × (m'.epitemidx_by_epfdfd ≡ m.epitemidx_by_epfdfd)
      × (m'.epitemidxs_by_epfd ≡ m.epitemidxs_by_epfd)
      × (m'.epitemidxs_by_fd ≡ m.epitemidxs_by_fd)

  pub SameTables-IsIndexed : (m m' : Main lib) → SameTables m m' → IsIndexed m → IsIndexed m'
  SameTables-IsIndexed m m' (a, b, c, d) x = record {
    keyed = rw (a, b) x.keyed;
    listed = rw (a, b) x.listed;
    by_epfd = rw (a, c) x.by_epfd;
    by_fd = rw (a, d) x.by_fd;
    epfd_distinct = rw (c) x.epfd_distinct;
    fd_distinct = rw (d) x.fd_distinct;
  }

  has-taken :
      (i j : ℕ) (v : List ℕ)
      → IsDistinct v
      → has j (vec_of (taken lib vec i v)) ≡ (if i == j then false else has j v)
  has-taken i j v d = ground (arith, has-remove i j v d)

  taken-IsDistinct : (i : ℕ) (v : List ℕ) → IsDistinct v → IsDistinct (vec_of (taken lib vec i v))
  taken-IsDistinct i v d = ground (arith, remove-IsDistinct i v d)

  pub entered-IsIndexed :
      (epfd fd : ℕ) (type : FdType) (event : Event) (m : Main lib)
      → IsIndexed m
      → m.epitemidx_by_epfdfd epfd fd ≡ none
      → IsIndexed (entered lib vec epfd fd type event m)
  entered-IsIndexed epfd fd type event m x n = record {
    keyed = λ e f i h. ground (arith, at i, x.keyed e f i, new);
    listed = λ i it h. ground (arith, at i, x.listed i it);
    by_epfd = λ e i.
        ground
          (arith, at i, x.by_epfd e i, has-append_one i k (vec_of (m.epitemidxs_by_epfd e)), new);
    by_fd = λ f i.
        ground (arith, at i, x.by_fd f i, has-append_one i k (vec_of (m.epitemidxs_by_fd f)), new);
    epfd_distinct = λ e. ground (
      arith,
      x.epfd_distinct e,
      x.by_epfd e k,
      new,
      append_one-IsDistinct k (vec_of (m.epitemidxs_by_epfd e)),
    );
    fd_distinct = λ f. ground (
      arith,
      x.fd_distinct f,
      x.by_fd f k,
      new,
      append_one-IsDistinct k (vec_of (m.epitemidxs_by_fd f)),
    );
  }
    where
      k : ℕ
      k = fresh m.vepitems

      new : elt m.vepitems (fresh m.vepitems) ≡ none
      new = elt-fresh m.vepitems

      at :
          (i : ℕ)
          → elt (entered lib vec epfd fd type event m).vepitems i ≡ (
              if fresh m.vepitems == i
              then some (record { epfd = epfd; fd = fd; type = type; event = event })
              else elt m.vepitems i)
      at i = elt-write m.vepitems (fresh m.vepitems) i _

  modified-IsIndexed :
      (i : ℕ) (event : Event) (it : Item) (m : Main lib)
      → IsIndexed m
      → elt m.vepitems i ≡ some it
      → IsIndexed (modified lib vec i event (some it) m)
  modified-IsIndexed i event it m x s = record {
    keyed = λ e f j h. ground (arith, at j, x.keyed e f j, s);
    listed = λ j it' h. ground (arith, at j, x.listed j it', x.listed i it, s);
    by_epfd = λ e j. ground (arith, at j, x.by_epfd e j, s);
    by_fd = λ f j. ground (arith, at j, x.by_fd f j, s);
    epfd_distinct = x.epfd_distinct;
    fd_distinct = x.fd_distinct;
  }
    where
      at :
          (j : ℕ)
          → elt (modified lib vec i event (some it) m).vepitems j
            ≡ (if i == j then some (record it { event = event }) else elt m.vepitems j)
      at j = elt-write m.vepitems i j _

  -- The item of a key, with both of its vectors.
  pub record IsThere (m : Main lib) (epfd fd i : ℕ) (it : Item) (v w : List ℕ) : Type 0 where
    pub item : elt m.vepitems i ≡ some it
    pub epfd_at : it.epfd ≡ epfd
    pub fd_at : it.fd ≡ fd
    pub by_epfd : m.epitemidxs_by_epfd epfd ≡ some v
    pub by_fd : m.epitemidxs_by_fd fd ≡ some w

  pub there :
      (m : Main lib) (epfd fd i : ℕ)
      → IsIndexed m
      → m.epitemidx_by_epfdfd epfd fd ≡ some i
      → (it : Item) × (v : List ℕ) × (w : List ℕ) × IsThere m epfd fd i it v w
  there m epfd fd i x h =
      go (elt m.vepitems i) refl (m.epitemidxs_by_epfd epfd) refl (m.epitemidxs_by_fd fd) refl
    where
      go :
          (o : Option Item)
          → elt m.vepitems i ≡ o
          → (v : Option (List ℕ)) → m.epitemidxs_by_epfd epfd ≡ v
          → (w : Option (List ℕ)) → m.epitemidxs_by_fd fd ≡ w
          → (it : Item) × (v : List ℕ) × (w : List ℕ) × IsThere m epfd fd i it v w
      go none e v ev w ew = ground (arith, x.keyed epfd fd i h, e)
      go (some it) e none ev w ew = ground (arith, x.keyed epfd fd i h, e, x.by_epfd epfd i, ev)
      go (some it) e (some v) ev none ew = ground (arith, x.keyed epfd fd i h, e, x.by_fd fd i, ew)
      go (some it) e (some v) ev (some w) ew = (
        it,
        v,
        w,
        record {
          item = e;
          epfd_at = ground (arith, x.keyed epfd fd i h, e);
          fd_at = ground (arith, x.keyed epfd fd i h, e);
          by_epfd = ev;
          by_fd = ew;
        },
      )

  removed-IsIndexed :
      (ei : ℕ) (ep : Epoll) (epfd fd i : ℕ) (it : Item) (v w : List ℕ) (m : Main lib)
      → IsIndexed m
      → m.epitemidx_by_epfdfd epfd fd ≡ some i
      → IsThere m epfd fd i it v w
      → IsIndexed (removed lib vec true ei ep epfd fd i (some v) (some w) m).0
  unfolding removed
  removed-IsIndexed ei ep epfd fd i it v w m x h t = record {
    keyed =
        λ e f j q. ground (arith, at j, x.keyed e f j, x.listed i it, t.item, t.epfd_at, t.fd_at);
    listed = λ j it' q. ground (arith, at j, x.listed j it', h);
    by_epfd = λ e j. ground (
      arith,
      at j,
      x.by_epfd e j,
      x.by_epfd epfd j,
      t.by_epfd,
      t.item,
      t.epfd_at,
      has-taken i j v dv,
    );
    by_fd = λ f j.
        ground
          (arith, at j, x.by_fd f j, x.by_fd fd j, t.by_fd, t.item, t.fd_at, has-taken i j w dw);
    epfd_distinct = λ e. ground (arith, x.epfd_distinct e, t.by_epfd, taken-IsDistinct i v dv);
    fd_distinct = λ f. ground (arith, x.fd_distinct f, t.by_fd, taken-IsDistinct i w dw);
  }
    where
      at : (j : ℕ) → elt (put m.vepitems i) j ≡ (if i == j then none else elt m.vepitems j)
      at j = elt-put m.vepitems i j

      dv : IsDistinct v
      dv = ground (arith, x.epfd_distinct epfd, t.by_epfd)

      dw : IsDistinct w
      dw = ground (arith, x.fd_distinct fd, t.by_fd)

  counted-IsIndexed :
      (f : ℕ → ℕ) (ei : ℕ) (ep : Epoll) (m : Main lib)
      → IsIndexed m
      → IsIndexed (with_count lib vec f ei ep m)
  counted-IsIndexed f ei ep m x = record {
    keyed = x.keyed;
    listed = x.listed;
    by_epfd = x.by_epfd;
    by_fd = x.by_fd;
    epfd_distinct = x.epfd_distinct;
    fd_distinct = x.fd_distinct;
  }

  -- What an operation makes of the tables, by whether the item is there.
  module _ (ei : ℕ) (ep : Epoll) (epfd fd : ℕ) (type : FdType) (event : Event) (m : Main lib) where
    abbrev pub ctl : Op → Main lib × Rv
    ctl op = ctl_vepitem lib vec true ei ep epfd op fd type event m

    abbrev pub added : Main lib
    added = with_count lib vec (λ n. n + 1) ei ep (entered lib vec epfd fd type event m)

    pub ctl_new : m.epitemidx_by_epfdfd epfd fd ≡ none → ctl add ≡ (added, ret 0)
    unfolding ctl_vepitem ctl_add
    ctl_new h = rw (ctl_vepitem, h)

    -- An operation that is refused changes nothing.
    pub ctl_refuses :
        (op : Op)
        → (op ≡ other)
          ⊎ ((op ≡ add) × (m.epitemidx_by_epfdfd epfd fd ≢ none))
          ⊎ ((op ≢ add) × (m.epitemidx_by_epfdfd epfd fd ≡ none))
        → ctl op ≡ (m, err (refusal op))
    unfolding ctl_vepitem ctl_add ctl_mod ctl_del
    ctl_refuses op h = ground arith

    pub ctl_modifies :
        (i : ℕ) (it : Item)
        → m.epitemidx_by_epfdfd epfd fd ≡ some i
        → elt m.vepitems i ≡ some it
        → ctl mod_ ≡ (modified lib vec i event (some it) m, ret 0)
    unfolding ctl_vepitem ctl_mod
    ctl_modifies i it h s = ground (arith, h, s)

    pub ctl_removes :
        (i : ℕ) (it : Item) (v w : List ℕ)
        → m.epitemidx_by_epfdfd epfd fd ≡ some i
        → IsThere m epfd fd i it v w
        → ctl del ≡ removed lib vec true ei ep epfd fd i (some v) (some w) m
    unfolding ctl_vepitem ctl_del
    ctl_removes i it v w h t = rw (ctl_vepitem, h, t.by_epfd, t.by_fd)

  -- Every operation on an interest set keeps the tables of items in agreement, where an item that is
  -- taken out is freed.
  pub ctl_vepitem-IsIndexed :
      (ei : ℕ) (ep : Epoll) (epfd : ℕ) (op : Op) (fd : ℕ) (type : FdType) (event : Event)
      (m : Main lib)
      → IsIndexed m
      → IsIndexed (ctl_vepitem lib vec true ei ep epfd op fd type event m).0
  ctl_vepitem-IsIndexed ei ep epfd op fd type event m x = go op (m.epitemidx_by_epfdfd epfd fd) refl
    where
      go :
          (op : Op) (o : Option ℕ)
          → m.epitemidx_by_epfdfd epfd fd ≡ o
          → IsIndexed (ctl_vepitem lib vec true ei ep epfd op fd type event m).0
      go add none h = rw (ctl_new ei ep epfd fd type event m h) (
          counted-IsIndexed (λ n. n + 1) ei ep (entered lib vec epfd fd type event m)
            (entered-IsIndexed epfd fd type event m x h))
      go add (some i) h = rw (ctl_refuses ei ep epfd fd type event m add (ground (arith, h))) x
      go mod_ none h = rw (ctl_refuses ei ep epfd fd type event m mod_ (ground (arith, h))) x
      go mod_ (some i) h =
          let t = there m epfd fd i x h in
          rw (ctl_modifies ei ep epfd fd type event m i t.0 h t.3.item)
            (modified-IsIndexed i event t.0 m x t.3.item)
      go del none h = rw (ctl_refuses ei ep epfd fd type event m del (ground (arith, h))) x
      go del (some i) h =
          let t = there m epfd fd i x h in
          rw (ctl_removes ei ep epfd fd type event m i t.0 t.1 t.2 h t.3)
            (removed-IsIndexed ei ep epfd fd i t.0 t.1 t.2 m x h t.3)
      go other o h = rw (ctl_refuses ei ep epfd fd type event m other (inl refl)) x
