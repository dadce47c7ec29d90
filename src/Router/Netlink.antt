-- ===== src/Router/Netlink.antt =====
-- router/router/tap_inject_netlink.c: what the router does for each object that the kernel reports.
-- The fields of an object are read at their offsets in its memory; a handler logs the calls that it
-- makes of the forwarding tables.
pub mod Labels
pub mod Reports
use vppsb.Common.{
  ℕ, ◌+◌, ◌*◌, ◌/◌, ◌%◌, zero, suc, Bool, true, false, Option, none, some, List, [], ◌∷◌, ◌==◌,
  if◌then◌else◌, no_index, has_bit, Bytes, byte_at, le16_at, le32_at, take, drop,
}
use mathlib.Core.Option.{map}
use vppsb.Netns.Kinds.{ObjType, addr, link, neigh, route}
use vppsb.Router.{Main, lookup_sw_if_index_from_tap_if_index}

-- fib_prefix_t and what the calls pass with it. The address of a label's route is the label.
pub data Prefix : Type 0 where
  ip4 : Bytes → ℕ → Prefix
  ip6 : Bytes → ℕ → Prefix
  mpls : ℕ → Prefix

pub data Effect : Type 0 where
  ip4_address : ℕ → Bytes → ℕ → Bool → Effect
  ip6_address : ℕ → Bytes → ℕ → Bool → Effect
  rpc_set_flags : ℕ → ℕ → Effect
  arp_set : ℕ → Bytes → Bytes → Effect
  arp_unset : ℕ → Bytes → Bytes → Effect
  nd_set : ℕ → Bytes → Bytes → Effect
  nd_unset : ℕ → Bytes → Effect
  path_add : Prefix → Bytes → ℕ → Effect
  path_add_labels : Prefix → Bytes → ℕ → List ℕ → Effect

abbrev interface : Main → ℕ → ℕ
interface m tap_if_index = lookup_sw_if_index_from_tap_if_index m tap_if_index

pub add_del_addr : Main → Bytes → Bool → List Effect
add_del_addr m a is_del =
    let sw = interface m (le32_at a 4) in
    if sw == no_index
    then []
    else if byte_at a 0 == 2
    then ip4_address sw (take 4 (drop 24 a)) (byte_at a 1) is_del ∷ []
    else if byte_at a 0 == 10
    then ip6_address sw (take 16 (drop 8 a)) (byte_at a 1) is_del ∷ []
    else []

-- Bit 0 is IFF_UP in the message, and VNET_SW_INTERFACE_FLAG_ADMIN_UP in the interface's flags.
abbrev admin : Bool → ℕ → ℕ
admin up flags = if up then flags % 256 / 2 * 2 + 1 else flags % 256 / 2 * 2

-- `sw_flags` is what vnet holds for an interface.
pub add_del_link : (ℕ → ℕ) → Main → Bytes → List Effect
add_del_link sw_flags m l =
    let sw = interface m (le32_at l 4) in
    if sw == no_index
    then []
    else rpc_set_flags sw (admin (has_bit 0 (le32_at l 8)) (sw_flags sw)) ∷ []

-- NUD_REACHABLE is bit 1 of the state and NUD_FAILED bit 5.
pub add_del_neigh : Main → Bytes → List Effect
add_del_neigh m n =
    let sw = interface m (le32_at n 4) in
    let state = le16_at n 8 in
    let lladdr = take 6 (drop 28 n) in
    if sw == no_index
    then []
    else if byte_at n 0 == 2
    then if has_bit 1 state
      then arp_set sw lladdr (take 4 (drop 12 n)) ∷ []
      else if has_bit 5 state
      then arp_unset sw lladdr (take 4 (drop 12 n)) ∷ []
      else []
    else if byte_at n 0 == 10
    then if has_bit 1 state
      then nd_set sw (take 16 (drop 12 n)) lladdr ∷ []
      else nd_unset sw (take 16 (drop 12 n)) ∷ []
    else []

-- The words that ntohl gives for a memory.
unfoldable pub words : Bytes → List ℕ
words (a ∷ b ∷ c ∷ d ∷ bs) = (16777216 * a + 65536 * b + 256 * c + d) ∷ words bs
words _ = []

abbrev pub label_of : ℕ → ℕ
label_of entry = entry / 4096 % 1048576

-- The labels that the loop writes. It has room for so many; `none` is a read or a write outside.
pub label_stack : ℕ → List ℕ → Option (List ℕ)
label_stack room [] = none
label_stack zero (entry ∷ es) = if label_of entry == 0 then some [] else none
label_stack (suc room) (entry ∷ es) =
    let rest = label_stack room es in
    if label_of entry == 0
    then some []
    else if has_bit 8 entry
    then some (label_of entry ∷ [])
    else map (λ ls. label_of entry ∷ ls) rest

abbrev labelled : Prefix → Bytes → ℕ → List ℕ → List Effect
labelled prefix nh sw [] = path_add prefix nh sw ∷ []
labelled prefix nh sw (l ∷ ls) = path_add_labels prefix nh sw (l ∷ ls) ∷ []

-- dst_label, which is left as it was where there is no label.
abbrev first_or : ℕ → List ℕ → ℕ
first_or d [] = d
first_or d (l ∷ ls) = l

-- `garbage` is the value of the uninitialised dst_label; `none` is an access outside of an array.
pub add_del_route : ℕ → Main → Bytes → Bool → Option (List Effect)
unfolding label_stack
add_del_route garbage m r is_del =
    let sw = interface m (le32_at r 80) in
    if sw == no_index
    then some []
    else if byte_at r 0 == 2
    then map (labelled (ip4 (take 4 (drop 12 r)) (byte_at r 1)) (take 4 (drop 88 r)) sw)
        (label_stack 7 (words (drop 140 r)))
    else if byte_at r 0 == 10
    then some (path_add (ip6 (take 16 (drop 12 r)) (byte_at r 1)) (take 16 (drop 88 r)) sw ∷ [])
    else if byte_at r 0 == 28
    then map (λ ls. path_add_labels (mpls (first_or garbage ls)) (take 4 (drop 46 r)) sw [] ∷ [])
        (label_stack 1 (words (drop 12 r)))
    else some []

pub netns_notify_cb : ℕ → (ℕ → ℕ) → Main → Bytes → ObjType → Bool → Option (List Effect)
unfolding add_del_addr add_del_link add_del_neigh add_del_route
netns_notify_cb garbage sw_flags m obj addr is_del = some (add_del_addr m obj is_del)
netns_notify_cb garbage sw_flags m obj link is_del = some (add_del_link sw_flags m obj)
netns_notify_cb garbage sw_flags m obj neigh is_del = some (add_del_neigh m obj)
netns_notify_cb garbage sw_flags m obj route is_del = add_del_route garbage m obj is_del
