-- ===== src/Router/Netlink/Reports.antt =====
-- What netns_notify_cb of router/router/tap_inject_netlink.c does for an object.
use vppsb.Common.{
  ℕ, ◌/◌, ◌%◌, ◌≡◌, ◌≢◌, refl, Bool, true, false, some, [], ◌∷◌, arith, no_index, has_bit, Bytes,
  le32_at,
}
use vppsb.Netns.Kinds.{ObjType, addr, link, neigh, route}
use vppsb.Router.{Main, lookup_sw_if_index_from_tap_if_index}
use vppsb.Router.Netlink.{rpc_set_flags, admin, add_del_link, netns_notify_cb}

-- The linux interface that an object belongs to.
abbrev pub if_index : ObjType → Bytes → ℕ
if_index addr obj = le32_at obj 4
if_index link obj = le32_at obj 4
if_index neigh obj = le32_at obj 4
if_index route obj = le32_at obj 80

-- An object of an interface that has no tap is passed over, whatever its kind.
pub netns_notify_cb-unknown :
    (garbage : ℕ) (sw_flags : ℕ → ℕ) (m : Main) (obj : Bytes) (type : ObjType) (is_del : Bool)
    → lookup_sw_if_index_from_tap_if_index m (if_index type obj) ≡ no_index
    → netns_notify_cb garbage sw_flags m obj type is_del ≡ some []
unfolding netns_notify_cb
netns_notify_cb-unknown garbage sw_flags m obj addr is_del e = ground (arith, e)
netns_notify_cb-unknown garbage sw_flags m obj link is_del e = ground (arith, e)
netns_notify_cb-unknown garbage sw_flags m obj neigh is_del e = ground (arith, e)
netns_notify_cb-unknown garbage sw_flags m obj route is_del e = ground (arith, e)

-- Whether the kernel reports an object as new or as gone makes a difference for an address alone:
-- a route that is gone is added once more.
pub netns_notify_cb-is_del :
    (garbage : ℕ) (sw_flags : ℕ → ℕ) (m : Main) (obj : Bytes) (type : ObjType) (is_del : Bool)
    → type ≢ addr
    → netns_notify_cb garbage sw_flags m obj type is_del
      ≡ netns_notify_cb garbage sw_flags m obj type false
unfolding netns_notify_cb
netns_notify_cb-is_del garbage sw_flags m obj addr is_del n = ground (arith, n refl)
netns_notify_cb-is_del garbage sw_flags m obj link is_del n = refl
netns_notify_cb-is_del garbage sw_flags m obj neigh is_del n = refl
netns_notify_cb-is_del garbage sw_flags m obj route is_del n = refl

admin_lem :
    (up : Bool) (flags : ℕ)
    → (has_bit 0 (admin up flags) ≡ up) × (admin up flags / 2 ≡ flags % 256 / 2)
admin_lem false flags = ground arith
admin_lem true flags = ground arith

-- A report of a link makes its interface admin-up exactly where IFF_UP is set, and leaves the other
-- low flags of the interface.
add_del_link-admin :
    (sw_flags : ℕ → ℕ) (m : Main) (l : Bytes) (sw : ℕ)
    → lookup_sw_if_index_from_tap_if_index m (le32_at l 4) ≡ sw
    → sw ≢ no_index
    → (flags : ℕ) × (add_del_link sw_flags m l ≡ rpc_set_flags sw flags ∷ [])
      × (has_bit 0 flags ≡ has_bit 0 (le32_at l 8))
      × (flags / 2 ≡ sw_flags sw % 256 / 2)
unfolding add_del_link
add_del_link-admin sw_flags m l sw e n = (
  admin (has_bit 0 (le32_at l 8)) (sw_flags sw),
  called sw e n,
  (admin_lem (has_bit 0 (le32_at l 8)) (sw_flags sw)).0,
  (admin_lem (has_bit 0 (le32_at l 8)) (sw_flags sw)).1,
)
  where
    called :
        (sw : ℕ)
        → lookup_sw_if_index_from_tap_if_index m (le32_at l 4) ≡ sw
        → sw ≢ no_index
        → add_del_link sw_flags m l
          ≡ rpc_set_flags sw (admin (has_bit 0 (le32_at l 8)) (sw_flags sw)) ∷ []
    called sw e n = ground (arith, e, n)
