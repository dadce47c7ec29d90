-- ===== src/Netns/Tests.antt =====
-- Entries of netlink/librtnl/netns.c at concrete inputs.
use vppsb.Common.{
  ◌+◌, ◌%◌, ◌^◌, ℕ, ◌≡◌, refl, ◌≢◌, true, false, none, some, [], ◌∷◌, arith, ok, Bytes, length,
  replicate, ◌==◌, if◌then◌else◌,
}
use vppsb.Netns.Attrs.{Attrs}
use vppsb.Netns.Entry.{Mapping, bytes_eq, ns_neighmap, field_at, matches, entry_match, entry_set}
use vppsb.Pool.Search.{find}
use vppsb.Pool.Slots.{slots}
use vppsb.Netns.Handles.{Netns, Main, netns_open, netns_getns}
use vppsb.Netns.Handles.Opens.{count_before, netns_open_lem}
use vppsb.Netns.Kinds.{link_kind}
use vppsb.Netns.Store.{Msg, rcv}
use vppsb.Netns.Store.Links.{Follows, msg_index, rcv-Follows}
use vppsb.Netns.Entry.Update.{
  IsLayout, AllApart, Fits, Written, entry_match-entry_set, entry_set-Written,
}

-- RTA_DST with an IPv4 address.
abbrev dst : Bytes
dst = 8 ∷ 0 ∷ 1 ∷ 0 ∷ 10 ∷ 0 ∷ 0 ∷ 9 ∷ []

abbrev attrs : Attrs
attrs t = if t == 1 then some dst else none

abbrev blank : Bytes
blank = replicate 56 170

neighbours-IsLayout : IsLayout (length blank) ns_neighmap
neighbours-IsLayout = ground arith

attrs-Fits : Fits attrs ns_neighmap
attrs-Fits = (
  λ rta e. ground (arith, e),
  (λ rta e. ground (arith, e), (λ rta e. ground (arith, e), (λ rta e. ground (arith, e), tt))),
)

entry_match-entry_set_example :
    (entry : Bytes) × (entry_set blank attrs ns_neighmap true ≡ (entry, ok))
    × (entry_match entry attrs ns_neighmap ≡ matches)
    × (length entry ≡ length blank)
entry_match-entry_set_example =
    entry_match-entry_set attrs ns_neighmap blank neighbours-IsLayout attrs-Fits refl

entry_set-Written_example :
    (entry : Bytes) × (entry_set blank attrs ns_neighmap false ≡ (entry, ok))
    × Written false attrs blank ns_neighmap entry
    × ((n : Mapping) → AllApart n ns_neighmap → field_at n entry ≡ field_at n blank)
entry_set-Written_example =
    entry_set-Written false attrs ns_neighmap blank neighbours-IsLayout attrs-Fits refl

-- An attribute of type 1 with a payload of 20 bytes.
abbrev long : Bytes
long = 24 ∷ 0 ∷ 1 ∷ 0 ∷ replicate 20 7

-- RTM_NEWLINK for the link 4, without attributes.
abbrev new_link : Msg
new_link = record {
  nlmsg_len = 32;
  nlmsg_type = 16;
  payload = 0 ∷ 0 ∷ 1 ∷ 0 ∷ 4 ∷ 0 ∷ 0 ∷ 0 ∷ replicate 8 0;
}

rcv-Follows_example :
    Follows slots (msg_index new_link) [] (rcv slots (link_kind 40) new_link 0 (replicate 72 0) [])
rcv-Follows_example =
    rcv-Follows slots 40 new_link 0 (replicate 72 0) (omega arith) [] (λ i j a b s t e. cc)

abbrev nothing_open : Main slots
nothing_open = record { netnss = []; handles = [] }

opens_first : (netns_open slots (118 ∷ []) true 5 (some 3) nothing_open).1 ≡ some 0
unfolding netns_open find
opens_first = refl

netns_open_lem_example :
    let m = (netns_open slots (118 ∷ []) true 5 (some 3) nothing_open).0 in
    (slots.elt nothing_open.handles 0 ≡ none)
    × ((ns : Netns slots) × (netns_getns slots 0 m ≡ some ns)
        × (bytes_eq (118 ∷ []) ns.name ≡ true)
        × (ns.subscriber_count ≡ (count_before slots (118 ∷ []) nothing_open + 1) % 2 ^ 32))
    × ((j : ℕ) → j ≢ 0 → slots.elt m.handles j ≡ slots.elt nothing_open.handles j)
netns_open_lem_example = netns_open_lem slots (118 ∷ []) true 5 0 (some 3) nothing_open opens_first
