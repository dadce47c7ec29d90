-- ===== src/Vcom/Poll.antt =====
-- The interest sets of the epoll instances of vcl-ldpreload/src/libvcl-ldpreload/vcom_socket.c:
-- vcom_socket_ctl_vepitem and what leads to it.
pub mod Vectors
pub mod Indexed
pub mod Interest
pub mod Count
pub mod Cases
use vppsb.Common.{
  ℕ, suc, ◌+◌, ◌-◌, ◌%◌, ◌^◌, ◌≡◌, Bool, true, false, ◌&&◌, ◌||◌, not, Option, none, some, List, [],
  ◌∷◌, ◌++◌, ◌==◌, if◌then◌else◌, no_index, length,
}
use vppsb.Pool.{PoolLib, has, IsDistinct}
use vppsb.Vcom.{
  Rv, ret, err, enoent, ebadf, eexist, einval, FdType, epoll, vcom_socket, Event, Item, Socket,
  Epoll, Main, Checked, refused, bound, get_vepoll, get_vsock, hash_set, hash_unset,
}

-- vec_search and vec_del1 of vppinfra, which is not part of the repository: the first element that
-- is `i` is taken out; what becomes of the order is left open.
pub record VecLib : Type 0 where
  pub remove : ℕ → List ℕ → List ℕ
  pub has-remove :
      (i j : ℕ) (v : List ℕ)
      → IsDistinct v
      → has j (remove i v) ≡ (if i == j then false else has j v)
  pub remove-IsDistinct : (i : ℕ) (v : List ℕ) → IsDistinct v → IsDistinct (remove i v)
  pub length-remove : (i : ℕ) (v : List ℕ) → has i v ≡ true → suc (length (remove i v)) ≡ length v

pub data Op : Type 0 where
  add mod_ del : Op
  other : Op

-- The vector of a hash; a missing one has no elements.
abbrev pub vec_of : Option (List ℕ) → List ℕ
vec_of none = []
vec_of (some v) = v

-- A vector that is empty is freed, and its key unset.
abbrev pub kept : List ℕ → Option (List ℕ)
kept [] = none
kept (i ∷ v) = some (i ∷ v)

abbrev pub hash_set2 : (ℕ → ℕ → Option ℕ) → ℕ → ℕ → ℕ → ℕ → ℕ → Option ℕ
hash_set2 h k l v i j = if k == i && l == j then some v else h i j

abbrev pub hash_unset2 : (ℕ → ℕ → Option ℕ) → ℕ → ℕ → ℕ → ℕ → Option ℕ
hash_unset2 h k l i j = if k == i && l == j then none else h i j

abbrev pub hash_put {ℓ} : {A : Type ℓ} → (ℕ → Option A) → ℕ → Option A → ℕ → Option A
hash_put h k o j = if k == j then o else h j

module _ (lib : PoolLib) (vec : VecLib) where
  open lib use {elt, fresh, write, put}

  -- What becomes of a vector that may have the index of an item.
  abbrev pub taken : ℕ → List ℕ → Option (List ℕ)
  taken i v = if has i v then kept (vec.remove i v) else some v

  -- vepoll->count, an i32, by its bits.
  abbrev pub with_count : (ℕ → ℕ) → ℕ → Epoll → Main lib → Main lib
  with_count f i e m = record m {
    vepolls = write vepolls i (record e { count = f e.count % 2 ^ 32 });
  }
    where
      open m use {vepolls}

  -- A new item, in its pool and in the three hashes.
  abbrev pub entered : ℕ → ℕ → FdType → Event → Main lib → Main lib
  entered epfd fd type event m =
      let i = fresh vepitems in
      record m {
        vepitems = write vepitems i (record { epfd = epfd; fd = fd; type = type; event = event });
        epitemidx_by_epfdfd = hash_set2 epitemidx_by_epfdfd epfd fd i;
        epitemidxs_by_epfd =
            hash_set epitemidxs_by_epfd epfd (vec_of (epitemidxs_by_epfd epfd) ++ i ∷ []);
        epitemidxs_by_fd = hash_set epitemidxs_by_fd fd (vec_of (epitemidxs_by_fd fd) ++ i ∷ []);
      }
    where
      open m use {vepitems, epitemidx_by_epfdfd, epitemidxs_by_epfd, epitemidxs_by_fd}

  pub ctl_add : ℕ → Epoll → ℕ → ℕ → FdType → Event → Option ℕ → Main lib → Main lib × Rv
  ctl_add ei e epfd fd type event (some i) m = (m, err eexist)
  ctl_add ei e epfd fd type event none m =
      (with_count (λ n. n + 1) ei e (entered epfd fd type event m), ret 0)

  abbrev modified : ℕ → Event → Option Item → Main lib → Main lib
  modified i event none m = m
  modified i event (some it) m = record m {
    vepitems = write vepitems i (record it { event = event });
  }
    where
      open m use {vepitems}

  pub ctl_mod : Event → Option ℕ → Main lib → Main lib × Rv
  ctl_mod event none m = (m, err enoent)
  ctl_mod event (some i) m = (modified i event (elt m.vepitems i) m, ret 0)

  -- An item out of the three hashes and of its pool; each step can end the call. The pool keeps an
  -- item where `frees` is false.
  pub removed :
      Bool → ℕ → Epoll → ℕ → ℕ → ℕ → Option (List ℕ) → Option (List ℕ) → Main lib → Main lib × Rv
  removed frees ei e epfd fd i none by_fd m =
      (record m { epitemidx_by_epfdfd = hash_unset2 epitemidx_by_epfdfd epfd fd }, err enoent)
    where
      open m use {epitemidx_by_epfdfd}
  removed frees ei e epfd fd i (some v) none m = (
    record m {
      epitemidx_by_epfdfd = hash_unset2 epitemidx_by_epfdfd epfd fd;
      epitemidxs_by_epfd = hash_put epitemidxs_by_epfd epfd (taken i v);
    },
    err enoent,
  )
    where
      open m use {epitemidx_by_epfdfd, epitemidxs_by_epfd}
  removed frees ei e epfd fd i (some v) (some w) m = (
    with_count (λ n. n + 2 ^ 32 - 1) ei e
        (record m {
          epitemidx_by_epfdfd = hash_unset2 epitemidx_by_epfdfd epfd fd;
          epitemidxs_by_epfd = hash_put epitemidxs_by_epfd epfd (taken i v);
          epitemidxs_by_fd = hash_put epitemidxs_by_fd fd (taken i w);
          vepitems = if frees then put vepitems i else vepitems;
        }),
    ret 0,
  )
    where
      open m use {epitemidx_by_epfdfd, epitemidxs_by_epfd, epitemidxs_by_fd, vepitems}

  pub ctl_del : Bool → ℕ → Epoll → ℕ → ℕ → Option ℕ → Main lib → Main lib × Rv
  unfolding removed
  ctl_del frees ei e epfd fd none m = (m, err enoent)
  ctl_del frees ei e epfd fd (some i) m =
      removed frees ei e epfd fd i (m.epitemidxs_by_epfd epfd) (m.epitemidxs_by_fd fd) m

  -- vcom_socket_ctl_vepitem; `e` is the epoll instance, at the index `ei` of its pool.
  pub ctl_vepitem : Bool → ℕ → Epoll → ℕ → Op → ℕ → FdType → Event → Main lib → Main lib × Rv
  unfolding ctl_add ctl_mod ctl_del
  ctl_vepitem frees ei e epfd add fd type event m =
      ctl_add ei e epfd fd type event (m.epitemidx_by_epfdfd epfd fd) m
  ctl_vepitem frees ei e epfd mod_ fd type event m = ctl_mod event (m.epitemidx_by_epfdfd epfd fd) m
  ctl_vepitem frees ei e epfd del fd type event m =
      ctl_del frees ei e epfd fd (m.epitemidx_by_epfdfd epfd fd) m
  ctl_vepitem frees ei e epfd other fd type event m = (m, err einval)

  pub after_vppcom : Bool → ℕ → Epoll → ℕ → Op → ℕ → FdType → Event → Rv → Main lib → Main lib × Rv
  unfolding ctl_vepitem
  after_vppcom frees ei e epfd op fd type event (err n) m = (m, err n)
  after_vppcom frees ei e epfd op fd type event (ret n) m =
      ctl_vepitem frees ei e epfd op fd type event m

  -- By what is found for the instance, and for the descriptor as a socket and as an instance.
  pub ctl_found :
      Bool
      → ℕ
      → Op
      → ℕ
      → Event
      → Rv
      → Checked Epoll
      → Checked Socket
      → Checked Epoll
      → Main lib
      → Main lib × Rv
  unfolding after_vppcom
  ctl_found frees epfd op fd event answer (refused n) s f m = (m, err ebadf)
  ctl_found frees epfd op fd event answer (bound ei e) (bound si s) f m =
      after_vppcom frees ei e epfd op fd vcom_socket event answer m
  ctl_found frees epfd op fd event answer (bound ei e) (refused n) (bound fi f) m =
      after_vppcom frees ei e epfd op fd epoll event answer m
  ctl_found frees epfd op fd event answer (bound ei e) (refused n) (refused n') m = (m, err ebadf)

  -- `answer` is what vppcom_epoll_ctl returns.
  pub epoll_ctl_internal : Bool → ℕ → Op → ℕ → Event → Rv → Main lib → Main lib × Rv
  unfolding ctl_found
  epoll_ctl_internal frees epfd op fd event answer m =
      ctl_found frees epfd op fd event answer (get_vepoll lib m epfd) (get_vsock lib m fd)
        (get_vepoll lib m fd) m

  pub epoll_ctl : ℕ → Op → ℕ → Event → Rv → Main lib → Main lib × Rv
  unfolding epoll_ctl_internal
  epoll_ctl = epoll_ctl_internal true
