-- ===== src/Router.antt =====
-- router/router/tap_inject.h and the tables of tap_inject.c: which tap belongs to which interface.
-- A vppinfra vector is a list, and a hash is a function.
pub mod Control
pub mod Netlink
pub mod Node
pub mod Rx
mod Tables
mod Tests
pub mod Tap
mod Pairing
use vppsb.Common.{
  ℕ, ◌+◌, ◌-◌, Bool, ◌&&◌, Option, none, some, List, ◌++◌, ltb, ◌==◌, if◌then◌else◌, no_index,
  length, get_or, set, replicate,
}

-- The four bits of `flags`.
pub record Flags : Type 0 where
  pub config_enable : Bool
  pub config_disable : Bool
  pub config_netlink : Bool
  pub enabled : Bool

-- tap_inject_main_t, without the indices of its own nodes.
pub record Main : Type 0 where
  pub flags : Flags
  pub sw_if_index_to_tap_fd : List ℕ
  pub sw_if_index_to_tap_if_index : List ℕ
  pub tap_fd_to_sw_if_index : List ℕ
  pub tap_if_index_to_sw_if_index : ℕ → Option ℕ
  pub interfaces_to_enable : List ℕ
  pub interfaces_to_disable : List ℕ
  pub rx_file_descriptors : List ℕ
  pub rx_buffers : List ℕ

abbrev pub is_enabled : Main → Bool
is_enabled m = m.flags.enabled

abbrev pub is_config_enabled : Main → Bool
is_config_enabled m = m.flags.config_enable

abbrev pub is_config_disabled : Main → Bool
is_config_disabled m = m.flags.config_disable

-- vec_validate_init_empty (v, i, ~0): the index becomes valid, and new elements are ~0.
unfoldable pub validate : List ℕ → ℕ → List ℕ
validate v i = if ltb i (length v) then v else v ++ replicate (i + 1 - length v) no_index

abbrev hash_set : (ℕ → Option ℕ) → ℕ → ℕ → ℕ → Option ℕ
hash_set h k v j = if k == j then some v else h j

abbrev hash_unset : (ℕ → Option ℕ) → ℕ → ℕ → Option ℕ
hash_unset h k j = if k == j then none else h j

pub insert_tap : Main → ℕ → ℕ → ℕ → Main
insert_tap m sw_if_index tap_fd tap_if_index = record m {
  sw_if_index_to_tap_fd = set (validate sw_if_index_to_tap_fd sw_if_index) sw_if_index tap_fd;
  sw_if_index_to_tap_if_index =
      set (validate sw_if_index_to_tap_if_index sw_if_index) sw_if_index tap_if_index;
  tap_fd_to_sw_if_index = set (validate tap_fd_to_sw_if_index tap_fd) tap_fd sw_if_index;
  tap_if_index_to_sw_if_index = hash_set tap_if_index_to_sw_if_index tap_if_index sw_if_index;
}
  where
    open m use {
      sw_if_index_to_tap_fd, sw_if_index_to_tap_if_index, tap_fd_to_sw_if_index,
      tap_if_index_to_sw_if_index,
    }

-- `none` is an access outside of a vector.
pub delete_tap : Main → ℕ → Option Main
delete_tap m sw_if_index =
    if ltb sw_if_index (length sw_if_index_to_tap_fd)
      && ltb sw_if_index (length sw_if_index_to_tap_if_index)
      && ltb (get_or sw_if_index_to_tap_fd sw_if_index 0) (length tap_fd_to_sw_if_index)
    then some (record m {
      sw_if_index_to_tap_if_index = set sw_if_index_to_tap_if_index sw_if_index no_index;
      sw_if_index_to_tap_fd = set sw_if_index_to_tap_fd sw_if_index no_index;
      tap_fd_to_sw_if_index =
          set tap_fd_to_sw_if_index (get_or sw_if_index_to_tap_fd sw_if_index 0) no_index;
      tap_if_index_to_sw_if_index =
          hash_unset tap_if_index_to_sw_if_index (get_or sw_if_index_to_tap_if_index sw_if_index 0);
    })
    else none
  where
    open m use {
      sw_if_index_to_tap_fd, sw_if_index_to_tap_if_index, tap_fd_to_sw_if_index,
      tap_if_index_to_sw_if_index,
    }

-- The lookups in vectors make the index valid first.
pub lookup_tap_fd : Main → ℕ → Main × ℕ
lookup_tap_fd m sw_if_index = (
  record m { sw_if_index_to_tap_fd = validate sw_if_index_to_tap_fd sw_if_index },
  get_or (validate sw_if_index_to_tap_fd sw_if_index) sw_if_index 0,
)
  where
    open m use {sw_if_index_to_tap_fd}

pub lookup_sw_if_index_from_tap_fd : Main → ℕ → Main × ℕ
lookup_sw_if_index_from_tap_fd m tap_fd = (
  record m { tap_fd_to_sw_if_index = validate tap_fd_to_sw_if_index tap_fd },
  get_or (validate tap_fd_to_sw_if_index tap_fd) tap_fd 0,
)
  where
    open m use {tap_fd_to_sw_if_index}

pub lookup_sw_if_index_from_tap_if_index : Main → ℕ → ℕ
lookup_sw_if_index_from_tap_if_index m tap_if_index =
    elim (m.tap_if_index_to_sw_if_index tap_if_index) [
      | none ↦ no_index
      | some sw_if_index ↦ sw_if_index
    ]
