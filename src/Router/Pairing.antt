-- ===== src/Router/Pairing.antt =====
-- Taps and interfaces of router/router/tap_inject.c belong to one another, one to one.
use vppsb.Common.{
  ℕ, zero, suc, [], ◌∷◌, ◌<◌, ◌≡◌, ◌≢◌, refl, none, some, List, arith, ◌==◌, lt→ltb, if◌then◌else◌,
  no_index, length, get_or, set, length-set, ◌⊎◌,
}
use vppsb.Router.{
  Main, validate, insert_tap, delete_tap, lookup_tap_fd, lookup_sw_if_index_from_tap_if_index,
}
use vppsb.Router.Tables.{
  fd_at, if_at, sw_at, insert_tap_lem, lookup_tap_fd_lem, get_or_any, get_or-set, length-validate,
  length-validate_le,
}

abbrev pub sw_of_if : Main → ℕ → ℕ
sw_of_if = lookup_sw_if_index_from_tap_if_index

-- The interface of a tap is found by its descriptor and by its index, and only as its own.
pub record IsPaired (m : Main) : Type 0 where
  pub there : (sw : ℕ) → fd_at m sw ≢ no_index → sw_at m (fd_at m sw) ≡ sw
  pub back : (fd : ℕ) → sw_at m fd ≢ no_index → fd_at m (sw_at m fd) ≡ fd
  pub index : (sw : ℕ) → fd_at m sw ≢ no_index → sw_of_if m (if_at m sw) ≡ sw
  pub small : (sw : ℕ) → fd_at m sw ≢ no_index → sw < no_index
  pub fd_small : (fd : ℕ) → sw_at m fd ≢ no_index → fd < no_index
  pub sized : (sw : ℕ) → fd_at m sw ≢ no_index → sw < length m.sw_if_index_to_tap_if_index

-- What the kernel grants for a new tap: numbers that no tap has.
pub record IsNew (m : Main) (sw fd tif : ℕ) : Type 0 where
  pub sw_small : sw < no_index
  pub fd_small : fd < no_index
  pub sw_free : fd_at m sw ≡ no_index
  pub fd_free : sw_at m fd ≡ no_index
  pub tif_free : sw_of_if m tif ≡ no_index

length-insert_tap :
    (m : Main) (sw fd tif sw' : ℕ)
    → (sw ≡ sw') ⊎ (sw' < length m.sw_if_index_to_tap_if_index)
    → sw' < length (insert_tap m sw fd tif).sw_if_index_to_tap_if_index
unfolding insert_tap
length-insert_tap m sw fd tif sw' h = ground (
  arith,
  length-set (validate m.sw_if_index_to_tap_if_index sw) sw tif,
  length-validate m.sw_if_index_to_tap_if_index sw,
  length-validate_le m.sw_if_index_to_tap_if_index sw,
)

-- A new tap, whose interface, descriptor and index the tables do not have yet, keeps the pairing.
pub insert_tap-IsPaired :
    (m : Main) (sw fd tif : ℕ) → IsPaired m → IsNew m sw fd tif → IsPaired (insert_tap m sw fd tif)
insert_tap-IsPaired m sw fd tif p n = record {
  there = λ sw' h. ground (arith, fds sw', sws fd, sws (fd_at m sw'), p.there sw', p.small sw');
  back = λ fd' h. ground (arith, sws fd', fds sw, fds (sw_at m fd'), p.back fd', p.fd_small fd');
  index = λ sw' h.
      ground (arith, fds sw', ifs sw', idx tif, idx (if_at m sw'), p.index sw', p.small sw');
  small = λ sw' h. ground (arith, fds sw', p.small sw');
  fd_small = λ fd' h. ground (arith, sws fd', p.fd_small fd', n.fd_small);
  sized = λ sw' h. ground (arith, fds sw', p.sized sw', length-insert_tap m sw fd tif sw');
}
  where
    fds : (sw' : ℕ) → fd_at (insert_tap m sw fd tif) sw' ≡ (if sw == sw' then fd else fd_at m sw')
    fds = (insert_tap_lem m sw fd tif).0

    ifs : (sw' : ℕ) → if_at (insert_tap m sw fd tif) sw' ≡ (if sw == sw' then tif else if_at m sw')
    ifs = (insert_tap_lem m sw fd tif).1

    sws : (fd' : ℕ) → sw_at (insert_tap m sw fd tif) fd' ≡ (if fd == fd' then sw else sw_at m fd')
    sws = (insert_tap_lem m sw fd tif).2

    idx :
        (tif' : ℕ)
        → sw_of_if (insert_tap m sw fd tif) tif' ≡ (if tif == tif' then sw else sw_of_if m tif')
    idx = (insert_tap_lem m sw fd tif).3

-- The maps after a tap is deleted.
module _ (m : Main) (sw : ℕ) where
  pub record Deletes (m' : Main) : Type 0 where
    pub fds : (sw' : ℕ) → fd_at m' sw' ≡ (if sw == sw' then no_index else fd_at m sw')
    pub ifs : (sw' : ℕ) → if_at m' sw' ≡ (if sw == sw' then no_index else if_at m sw')
    pub sws : (fd : ℕ) → sw_at m' fd ≡ (if fd_at m sw == fd then no_index else sw_at m fd)
    pub idx : (tif : ℕ) → sw_of_if m' tif ≡ (if if_at m sw == tif then no_index else sw_of_if m tif)
    pub size : length m'.sw_if_index_to_tap_if_index ≡ length m.sw_if_index_to_tap_if_index
    pub queues :
        (m'.flags ≡ m.flags)
        × (m'.interfaces_to_enable ≡ m.interfaces_to_enable)
        × (m'.interfaces_to_disable ≡ m.interfaces_to_disable)

in_range : (xs : List ℕ) (i : ℕ) → get_or xs i no_index ≢ no_index → i < length xs
in_range [] i h = absurd (h refl)
in_range (x ∷ xs) zero h = omega arith
in_range (x ∷ xs) (suc i) h = omega (arith, in_range xs i h)

-- A tap of a paired table can be deleted: no index is out of range, and each map loses its entry.
pub delete_tap_lem :
    (m : Main) (sw : ℕ)
    → IsPaired m
    → fd_at m sw ≢ no_index
    → (m' : Main) × (delete_tap m sw ≡ some m') × Deletes m sw m'
unfolding delete_tap lookup_sw_if_index_from_tap_if_index
delete_tap_lem m sw p h = (
  record m {
    sw_if_index_to_tap_if_index = set m.sw_if_index_to_tap_if_index sw no_index;
    sw_if_index_to_tap_fd = set m.sw_if_index_to_tap_fd sw no_index;
    tap_fd_to_sw_if_index = set m.tap_fd_to_sw_if_index (fd_at m sw) no_index;
    tap_if_index_to_sw_if_index =
        λ tif. if if_at m sw == tif then none else m.tap_if_index_to_sw_if_index tif;
  },
  rw (lt→ltb _ _ fds_range, lt→ltb _ _ ifs_range)
      (rw
        (
          get_or_any m.sw_if_index_to_tap_fd sw 0 no_index fds_range,
          get_or_any m.sw_if_index_to_tap_if_index sw 0 no_index ifs_range,
        )
        (rw (lt→ltb _ _ sws_range))),
  record {
    fds = λ sw'. get_or-set m.sw_if_index_to_tap_fd sw sw' no_index no_index fds_range;
    ifs = λ sw'. get_or-set m.sw_if_index_to_tap_if_index sw sw' no_index no_index ifs_range;
    sws = λ fd. get_or-set m.tap_fd_to_sw_if_index (fd_at m sw) fd no_index no_index sws_range;
    idx = λ tif. ground arith;
    size = length-set m.sw_if_index_to_tap_if_index sw no_index;
    queues = (refl, refl, refl);
  },
)
  where
    fds_range : sw < length m.sw_if_index_to_tap_fd
    fds_range = in_range m.sw_if_index_to_tap_fd sw h

    ifs_range : sw < length m.sw_if_index_to_tap_if_index
    ifs_range = p.sized sw h

    sws_range : fd_at m sw < length m.tap_fd_to_sw_if_index
    sws_range =
        in_range m.tap_fd_to_sw_if_index (fd_at m sw)
          (λ e. omega (arith, p.there sw h, p.small sw h, e))

-- Deleting a tap keeps the pairing.
pub Deletes-IsPaired :
    (m : Main) (sw : ℕ) (m' : Main)
    → IsPaired m
    → fd_at m sw ≢ no_index
    → Deletes m sw m'
    → IsPaired m'
Deletes-IsPaired m sw m' p h d = record {
  there = λ sw' h'. ground (arith, d.fds sw', d.sws (fd_at m sw'), p.there sw', p.there sw);
  back = λ fd h'. ground (arith, d.sws fd, d.fds (sw_at m fd), p.back fd, p.there sw);
  index =
      λ sw' h'. ground (arith, d.fds sw', d.ifs sw', d.idx (if_at m sw'), p.index sw', p.index sw);
  small = λ sw' h'. ground (arith, d.fds sw', p.small sw');
  fd_small = λ fd h'. ground (arith, d.sws fd, p.fd_small fd);
  sized = λ sw' h'. ground (arith, d.fds sw', d.size, p.sized sw');
}

-- A tap of a paired table can be deleted, and the tables are paired afterwards.
delete_tap-IsPaired :
    (m : Main) (sw : ℕ)
    → IsPaired m
    → fd_at m sw ≢ no_index
    → (m' : Main) × (delete_tap m sw ≡ some m') × IsPaired m'
delete_tap-IsPaired m sw p h =
    let t = delete_tap_lem m sw p h in (t.0, t.1, Deletes-IsPaired m sw t.0 p h t.2)

-- The lookup that makes an index valid keeps the pairing.
pub lookup_tap_fd-IsPaired : (m : Main) (sw : ℕ) → IsPaired m → IsPaired (lookup_tap_fd m sw).0
unfolding lookup_tap_fd lookup_sw_if_index_from_tap_if_index
lookup_tap_fd-IsPaired m sw p = record {
  there = λ sw' h. ground (arith, same sw', p.there sw');
  back = λ fd h. ground (arith, same (sw_at m fd), p.back fd);
  index = λ sw' h. ground (arith, same sw', p.index sw');
  small = λ sw' h. ground (arith, same sw', p.small sw');
  fd_small = p.fd_small;
  sized = λ sw' h. ground (arith, same sw', p.sized sw');
}
  where
    same : (sw' : ℕ) → fd_at (lookup_tap_fd m sw).0 sw' ≡ fd_at m sw'
    same sw' = (lookup_tap_fd_lem m sw sw').1
