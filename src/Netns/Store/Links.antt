-- ===== src/Netns/Store/Links.antt =====
-- The links of a namespace follow the messages that ns_rcv_link of netlink/librtnl/netns.c handles.
use vppsb.Common.{
  ℕ, ◌≤◌, ◌≡◌, ◌≢◌, refl, sym, ◌∙◌, Bool, true, false, Option, none, some, arith, ◌==◌, ==_iff, ok,
  Bytes, le32_at, length, take, length-take, Bool-cases, inl, inr, ltb, sub_size, if◌then◌else◌,
}
use vppsb.Pool.{PoolLib}
use vppsb.Pool.Search.{find, find_found, find-none}
use vppsb.Netns.Attrs.{Attrs, Parsed, parsed, mismatch, overrun, out_of_fuel}
use vppsb.Netns.Entry.{blit, entry_set}
use vppsb.Netns.Entry.Memory.{get_or-blit_front}
use vppsb.Netns.Kinds.{Object, link_kind, get_link}
use vppsb.Netns.Store.{
  Msg, Outcome, faults, returns, attrs_of, saved, removed, stored, rcv_attrs, rcv,
}

abbrev pub link_index : Object → ℕ
link_index o = le32_at o.mem 4

-- The index in a message about a link.
abbrev pub msg_index : Msg → ℕ
msg_index msg = le32_at (take 16 msg.payload) 4

le32_at-blit : (bs mem : Bytes) → 16 ≤ length bs → le32_at (blit 0 bs mem) 4 ≡ le32_at bs 4
le32_at-blit bs mem h = grind (
  arith,
  get_or-blit_front bs mem 4 (omega (arith, h)),
  get_or-blit_front bs mem 5 (omega (arith, h)),
  get_or-blit_front bs mem 6 (omega (arith, h)),
  get_or-blit_front bs mem 7 (omega (arith, h)),
)

module _ (lib : PoolLib) where
  open lib use {Pool, elt, fresh, write, put, elt-fresh, elt-write, elt-put}

  -- No two links have one index.
  abbrev pub IsUnique : Pool Object → Type 0
  IsUnique p =
      (i j : ℕ) (a b : Object)
      → elt p i ≡ some a
      → elt p j ≡ some b
      → link_index a ≡ link_index b
      → i ≡ j

  -- Where a notice says that a link is there, it is; where it says that a link is gone, none has its
  -- index.
  abbrev pub Shows : Bool → Object → Pool Object → Type 0
  Shows true o p = (j : ℕ) (b : Object) → elt p j ≡ some b → link_index b ≢ link_index o
  Shows false o p = (i : ℕ) × (elt p i ≡ some o)

  -- What is proved of a handler's end, given the pool before it.
  abbrev pub Follows : ℕ → Pool Object → Outcome (Pool Object) → Type 0
  Follows idx p faults = Unit {0}
  Follows idx p (returns r q none) = (r ≢ ok) × (q ≡ p)
  Follows idx p (returns r q (some n)) =
      (r ≡ ok) × IsUnique q × (link_index n.obj ≡ idx) × Shows n.is_del n.obj q

  elt-write_self : (p : Pool Object) (i : ℕ) (o : Object) → elt (write p i o) i ≡ some o
  elt-write_self p i o = ground (arith, elt-write p i i o)

  write-IsUnique :
      (p : Pool Object) (i : ℕ) (o : Object)
      → IsUnique p
      → ((j : ℕ) (b : Object) → elt p j ≡ some b → link_index b ≡ link_index o → i ≡ j)
      → IsUnique (write p i o)
  write-IsUnique p i o u f j k a b s t e =
      ground (arith, elt-write p i j o, elt-write p i k o, u j k a b, f j a, f k b)

  put-IsUnique : (p : Pool Object) (i : ℕ) → IsUnique p → IsUnique (put p i)
  put-IsUnique p i u j k a b s t e = ground (arith, elt-put p i j, elt-put p i k, u j k a b)

  module _ (max : ℕ) (msg : Msg) (now : ℕ) (stale : Bytes) (long : 16 ≤ length msg.payload) where
    head_length : 16 ≤ length (take 16 msg.payload)
    head_length = omega (arith, length-take 16 msg.payload, long)

    saved-Follows :
        (rtas : Attrs) (i : ℕ) (mem : Bytes) (init : Bool) (p : Pool Object)
        → IsUnique p
        → ((j : ℕ) (b : Object) → elt p j ≡ some b → link_index b ≡ msg_index msg → i ≡ j)
        → Follows (msg_index msg) p (saved lib (link_kind max) msg now rtas i mem init p)
    unfolding saved
    saved-Follows rtas i mem init p u f =
        (refl, write-IsUnique p i _ u (λ j b s e. f j b s (e ∙ at)), at, (i, elt-write_self p i _))
      where
        at :
            le32_at
              (blit 0 (take 16 msg.payload) (entry_set mem rtas (link_kind max).rows init).0)
              4
            ≡ msg_index msg
        at =
            le32_at-blit (take 16 msg.payload) (entry_set mem rtas (link_kind max).rows init).0
              head_length

    removed-Follows :
        (i : ℕ) (o : Object) (p : Pool Object)
        → IsUnique p
        → elt p i ≡ some o
        → msg_index msg ≡ link_index o
        → Follows (msg_index msg) p (removed lib (link_kind max) (some (i, o)) p)
    unfolding removed
    removed-Follows i o p u s e =
        (refl, put-IsUnique p i u, sym e, λ j b t. ground (arith, elt-put p i j, u i j o b s))

    -- The three ways of a message that parses, by what the search finds.
    rcv_found-Follows :
        (rtas : Attrs) (p : Pool Object) (del : Bool)
        → IsUnique p
        → (found : Option (ℕ × Object)) → find lib (get_link (take 16 msg.payload) rtas) p ≡ found
        → Follows (msg_index msg) p (
            if del
            then removed lib (link_kind max) found p
            else stored lib (link_kind max) msg now stale rtas found p)
    unfolding stored
    rcv_found-Follows rtas p true u none e = unfold removed in (λ q. cc, refl)
    rcv_found-Follows rtas p true u (some (i, o)) e =
        let f = find_found lib (get_link (take 16 msg.payload) rtas) p e in
        removed-Follows i o p u f.0 ((==_iff (msg_index msg) (link_index o)).0 f.1)
    rcv_found-Follows rtas p false u none e =
        saved-Follows rtas (fresh p) stale true p u (λ j b s q.
          ground (arith, find-none lib (get_link (take 16 msg.payload) rtas) p j b e s, q))
    rcv_found-Follows rtas p false u (some (i, o)) e =
        let f = find_found lib (get_link (take 16 msg.payload) rtas) p e in
        saved-Follows rtas i o.mem false p u
          (λ j b s q. u i j o b f.0 s (sym ((==_iff (msg_index msg) (link_index o)).0 f.1) ∙ sym q))

    rcv_attrs-Follows :
        (attrs : Parsed) (p : Pool Object)
        → IsUnique p
        → Follows (msg_index msg) p (rcv_attrs lib (link_kind max) msg now stale attrs p)
    unfolding rcv_attrs
    rcv_attrs-Follows (parsed rtas) p u =
        rcv_found-Follows rtas p (msg.nlmsg_type == 17) u
          (find lib (get_link (take 16 msg.payload) rtas) p) refl
    rcv_attrs-Follows mismatch p u = (λ q. cc, refl)
    rcv_attrs-Follows overrun p u = tt
    rcv_attrs-Follows out_of_fuel p u = tt

    -- A message about a link whose struct lies within the receive buffer keeps one link for each index,
    -- unless its attributes lead behind the buffer. It
    -- is refused and changes nothing, or it is accepted and what the subscribers are told of the link
    -- with its index holds: that it is stored, or that no such link is left.
    pub rcv-Follows :
        (p : Pool Object)
        → IsUnique p
        → Follows (msg_index msg) p (rcv lib (link_kind max) msg now stale p)
    unfolding rcv
    rcv-Follows p u = elim (Bool-cases (ltb (sub_size msg.nlmsg_len 16) 16)) [
      | inl t ↦ rw t (λ q. cc, refl)
      | inr t ↦ rw t (rcv_attrs-Follows (attrs_of (link_kind max) msg) p u)
    ]
