-- ===== src/Vcom/Poll/Count.antt =====
-- The count of an epoll instance of vcl-ldpreload/src/libvcl-ldpreload/vcom_socket.c and the operations
-- on its interest set.
use vppsb.Common.{
  ℕ, suc, ◌+◌, ◌-◌, ◌%◌, ◌^◌, ◌≡◌, ◌<◌, refl, true, Option, none, some, List, [], ◌∷◌, arith,
  length, length-append, inl,
}
use vppsb.Pool.{PoolLib, has}
use vppsb.Vcom.{FdType, Event, Epoll, Main}
use vppsb.Vcom.Poll.{VecLib, Op, add, mod_, del, other, vec_of, taken, removed, ctl_vepitem}
use vppsb.Vcom.Poll.Indexed.{IsIndexed, there, ctl_new, ctl_refuses, ctl_modifies, ctl_removes}

module _ (lib : PoolLib) (vec : VecLib) where
  open lib use {elt, elt-write}

  abbrev pub count_in : Option Epoll → Option ℕ
  count_in none = none
  count_in (some e) = some e.count

  -- The epoll instance at `ei` counts the items of the descriptor `epfd`.
  abbrev pub CountsItems : ℕ → ℕ → Main lib → Type 0
  CountsItems ei epfd m =
      count_in (elt m.vepolls ei) ≡ some (length (vec_of (m.epitemidxs_by_epfd epfd)))

  length-taken :
      (i : ℕ) (v : List ℕ) → has i v ≡ true → suc (length (vec_of (taken lib vec i v))) ≡ length v
  length-taken i v h = go (vec.remove i v) refl (vec.length-remove i v h)
    where
      go :
          (u : List ℕ)
          → vec.remove i v ≡ u
          → suc (length (vec.remove i v)) ≡ length v
          → suc (length (vec_of (taken lib vec i v))) ≡ length v
      go [] q l = ground (arith, h, q, l)
      go (j ∷ u) q l = ground (arith, h, q, l)

  -- In a state whose tables of items agree, every operation on the interest set of an epoll instance
  -- keeps its count the number of its items, where it has fewer than 2 ^ 32 - 1.
  pub ctl_vepitem-CountsItems :
      (ei : ℕ) (ep : Epoll) (epfd : ℕ) (op : Op) (fd : ℕ) (type : FdType) (event : Event)
      (m : Main lib)
      → IsIndexed lib vec m
      → elt m.vepolls ei ≡ some ep
      → ep.count < 2 ^ 32 - 1
      → CountsItems ei epfd m
      → CountsItems ei epfd (ctl_vepitem lib vec true ei ep epfd op fd type event m).0
  unfolding removed
  ctl_vepitem-CountsItems ei ep epfd op fd type event m x s b c =
      go op (m.epitemidx_by_epfdfd epfd fd) refl
    where
      go :
          (op : Op) (o : Option ℕ)
          → m.epitemidx_by_epfdfd epfd fd ≡ o
          → CountsItems ei epfd (ctl_vepitem lib vec true ei ep epfd op fd type event m).0
      go add none h = rw (ctl_new lib vec ei ep epfd fd type event m h) (
          ground (
            arith,
            s,
            b,
            c,
            elt-write m.vepolls ei ei (record ep { count = (ep.count + 1) % 2 ^ 32 }),
            length-append (vec_of (m.epitemidxs_by_epfd epfd)) (lib.fresh m.vepitems ∷ []),
          ))
      go add (some i) h =
          rw (ctl_refuses lib vec ei ep epfd fd type event m add (ground (arith, h))) c
      go mod_ none h =
          rw (ctl_refuses lib vec ei ep epfd fd type event m mod_ (ground (arith, h))) c
      go mod_ (some i) h =
          let t = there lib vec m epfd fd i x h in
          rw (ctl_modifies lib vec ei ep epfd fd type event m i t.0 h t.3.item) c
      go del none h = rw (ctl_refuses lib vec ei ep epfd fd type event m del (ground (arith, h))) c
      go del (some i) h =
          let t = there lib vec m epfd fd i x h in
          rw (ctl_removes lib vec ei ep epfd fd type event m i t.0 t.1 t.2 h t.3) (
            ground (
              arith,
              s,
              b,
              c,
              t.3.by_epfd,
              t.3.item,
              t.3.epfd_at,
              x.by_epfd epfd i,
              length-taken i t.1,
              elt-write m.vepolls ei ei (record ep { count = (ep.count + 2 ^ 32 - 1) % 2 ^ 32 }),
            ))
      go other o h = rw (ctl_refuses lib vec ei ep epfd fd type event m other (inl refl)) c
