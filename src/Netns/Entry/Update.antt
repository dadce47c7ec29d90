-- ===== src/Netns/Entry/Update.antt =====
-- An entry of netlink/librtnl/netns.c that was set from attributes matches these attributes.
use vppsb.Common.{
  ℕ, zero, suc, ◌+◌, ◌-◌, ◌≤◌, ◌<◌, ◌≡◌, ◌≢◌, refl, sym, ap, ◌∙◌, ◌⊎◌, inl, inr, Option, none, some,
  List, [], ◌∷◌, arith, Bool, true, false, Bytes, length, replicate, length-append, Ret, ok, fail,
  le→not_ltb,
}
use native.Mathlib.Decide.{ℕ_discrete}
use mathlib.Core.Path.{subst}
use vppsb.Netns.Attrs.{Attrs, rta_payload, rta_data}
use vppsb.Netns.Entry.{
  Mapping, copy, blit, bytes_eq, field_at, padded, matches, match_row, entry_match, is_nonzero,
  set_row, entry_set, rta_encap,
}
use vppsb.Netns.Entry.Memory.{length-copy, length-blit, copy-blit_self, copy-blit_other}

pub bytes_eq_refl : (bs : Bytes) → bytes_eq bs bs ≡ true
bytes_eq_refl [] = refl
bytes_eq_refl (b ∷ bs) = ground (arith, bytes_eq_refl bs)

-- Two fields have no byte in common.
abbrev pub Apart : Mapping → Mapping → Type 0
Apart m n = (m.offset + m.size ≤ n.offset) ⊎ (n.offset + n.size ≤ m.offset)

abbrev pub AllApart : Mapping → List Mapping → Type 0
AllApart m [] = Unit {0}
AllApart m (n ∷ map) = Apart m n × AllApart m map

-- The fields of a table lie apart, within a memory of the given size.
abbrev pub IsLayout : ℕ → List Mapping → Type 0
IsLayout size [] = Unit {0}
IsLayout size (m ∷ map) = (m.offset + m.size ≤ size) × AllApart m map × IsLayout size map

-- Each attribute of the table that is present fits its field.
abbrev pub Fits : Attrs → List Mapping → Type 0
Fits rtas [] = Unit {0}
Fits rtas (m ∷ map) =
    ((rta : Bytes) → rtas m.type ≡ some rta → rta_payload rta ≤ m.size) × Fits rtas map

-- What a field holds after a write: its attribute, or zeros where the entry is initialised, or what it
-- held before.
abbrev pub content : Bool → Mapping → Option Bytes → Bytes → Bytes
content init m (some rta) old = padded m.size rta
content true m none old = replicate m.size 0
content false m none old = old

length-replicate : (n : ℕ) (z : ℕ) → length (replicate n z) ≡ n
length-replicate zero z = refl
length-replicate (suc n) z = ap suc (length-replicate n z)

length-padded : (size : ℕ) (rta : Bytes) → rta_payload rta ≤ size → length (padded size rta) ≡ size
length-padded size rta f = omega (
  arith,
  length-append (copy (rta_payload rta) (rta_data rta)) (replicate (size - rta_payload rta) 0),
  length-copy (rta_payload rta) (rta_data rta),
  length-replicate (size - rta_payload rta) 0,
)

-- What one row does to an entry.
record RowDone (init : Bool) (m : Mapping) (o : Option Bytes) (entry entry' : Bytes) : Type 0 where
  done : set_row m o init entry ≡ some entry'
  written : field_at m entry' ≡ content init m o (field_at m entry)
  size : length entry' ≡ length entry
  frame : (n : Mapping) → Apart m n → field_at n entry' ≡ field_at n entry

blit-RowDone :
    (init : Bool) (m : Mapping) (o : Option Bytes) (entry bs : Bytes)
    → m.offset + m.size ≤ length entry
    → length bs ≡ m.size
    → set_row m o init entry ≡ some (blit m.offset bs entry)
    → content init m o (field_at m entry) ≡ bs
    → RowDone init m o entry (blit m.offset bs entry)
blit-RowDone init m o entry bs inside e s c = record {
  done = s;
  written = copy-blit_self m.offset bs entry m.size e (omega arith) ∙ sym c;
  size = length-blit m.offset bs entry (omega arith);
  frame = λ n a. copy-blit_other m.offset bs entry n.offset n.size (omega arith) (omega arith);
}

-- A row but that of RTA_ENCAP writes the content of its field, and nothing else.
row_done :
    (init : Bool) (m : Mapping) (o : Option Bytes) (entry : Bytes)
    → m.offset + m.size ≤ length entry
    → (m.type ≢ rta_encap) ⊎ (o ≡ none)
    → ((rta : Bytes) → o ≡ some rta → rta_payload rta ≤ m.size)
    → (entry' : Bytes) × RowDone init m o entry entry'
row_done true m none entry inside n f = (
  _,
  blit-RowDone true m none entry (replicate m.size 0) inside (length-replicate m.size 0)
      (unfold set_row in refl) refl,
)
row_done false m none entry inside n f = (
  entry,
  record { done = unfold set_row in refl; written = refl; size = refl; frame = λ n a. refl },
)
row_done init m (some rta) entry inside n f = (
  _,
  blit-RowDone init m (some rta) entry (padded m.size rta) inside
      (length-padded m.size rta (f rta refl))
      (unfold set_row in ground (arith, le→not_ltb (rta_payload rta) m.size (f rta refl))) refl,
)

-- What all rows of a table do to an entry, whose fields were those of `old`.
abbrev pub Written : Bool → Attrs → Bytes → List Mapping → Bytes → Type 0
Written init rtas old [] entry = Unit {0}
Written init rtas old (m ∷ map) entry =
    (field_at m entry ≡ content init m (rtas m.type) (field_at m old))
    × Written init rtas old map entry

abbrev SameFields : List Mapping → Bytes → Bytes → Type 0
SameFields [] a b = Unit {0}
SameFields (m ∷ map) a b = (field_at m a ≡ field_at m b) × SameFields map a b

SameFields-refl : (map : List Mapping) (a : Bytes) → SameFields map a a
SameFields-refl [] a = tt
SameFields-refl (m ∷ map) a = (refl, SameFields-refl map a)

SameFields-frame :
    (m : Mapping) (map : List Mapping) (a b old : Bytes)
    → AllApart m map
    → ((n : Mapping) → Apart m n → field_at n b ≡ field_at n a)
    → SameFields map a old
    → SameFields map b old
SameFields-frame m [] a b old d f s = tt
SameFields-frame m (n ∷ map) a b old d f s =
    (f n d.0 ∙ s.0, SameFields-frame m map a b old d.1 f s.1)

record TableDone (init : Bool) (rtas : Attrs) (old : Bytes) (map : List Mapping)
    (entry entry' : Bytes) : Type 0 where
  done : entry_set entry rtas map init ≡ (entry', ok)
  written : Written init rtas old map entry'
  size : length entry' ≡ length entry
  frame : (n : Mapping) → AllApart n map → field_at n entry' ≡ field_at n entry

entry_set-cons :
    (rtas : Attrs) (init : Bool) (m : Mapping) (map : List Mapping) (entry : Bytes) {entry' : Bytes}
    {r : Bytes × Ret}
    → set_row m (rtas m.type) init entry ≡ some entry'
    → entry_set entry' rtas map init ≡ r
    → entry_set entry rtas (m ∷ map) init ≡ r
unfolding entry_set
entry_set-cons rtas init m map entry p q = ground arith

table_done :
    (init : Bool) (rtas : Attrs) (old : Bytes) (map : List Mapping) (entry : Bytes)
    → IsLayout (length entry) map
    → Fits rtas map
    → rtas rta_encap ≡ none
    → SameFields map entry old
    → (entry' : Bytes) × TableDone init rtas old map entry entry'
table_done init rtas old [] entry l f e s = (
  entry,
  record { done = unfold entry_set in refl; written = tt; size = refl; frame = λ n a. refl },
)
table_done init rtas old (m ∷ map) entry l f e s =
    let r = row_done init m (rtas m.type) entry l.0 (encap m.type) f.0 in
    let t =
      table_done init rtas old map r.0 (subst (λ k. IsLayout k map) (sym r.1.size) l.2) f.1 e
        (SameFields-frame m map entry r.0 old l.1 r.1.frame s.1) in
    (
      t.0,
      record {
        done = entry_set-cons rtas init m map entry r.1.done t.1.done;
        written =
            (t.1.frame m l.1 ∙ r.1.written ∙ ap (content init m (rtas m.type)) s.0, t.1.written);
        size = t.1.size ∙ r.1.size;
        frame = λ n a. t.1.frame n a.1 ∙ r.1.frame n (omega arith);
      },
    )
  where
    encap : (t : ℕ) → (t ≢ rta_encap) ⊎ (rtas t ≡ none)
    encap t = elim (ℕ_discrete t rta_encap) [ yes p ↦ inr (ap rtas p ∙ e) | no p ↦ inl p ]

match_row-content :
    (m : Mapping) (o : Option Bytes) (entry old : Bytes)
    → field_at m entry ≡ content true m o old
    → ((rta : Bytes) → o ≡ some rta → rta_payload rta ≤ m.size)
    → match_row m o entry ≡ matches
match_row-content m none entry old w f = rw (w, bytes_eq_refl (replicate m.size 0))
match_row-content m (some rta) entry old w f =
    rw (w, le→not_ltb (rta_payload rta) m.size (f rta refl), bytes_eq_refl (padded m.size rta))

entry_match-Written :
    (rtas : Attrs) (old : Bytes) (map : List Mapping) (entry : Bytes)
    → Fits rtas map
    → Written true rtas old map entry
    → entry_match entry rtas map ≡ matches
unfolding entry_match
entry_match-Written rtas old [] entry f w = refl
entry_match-Written rtas old (m ∷ map) entry f w = ground (
  arith,
  match_row-content m (rtas m.type) entry (field_at m old) w.0 f.0,
  entry_match-Written rtas old map entry f.1 w.1,
)

-- An entry that is initialised from attributes which fit their fields, with no RTA_ENCAP among them,
-- is set in full, keeps its size, and matches these attributes afterwards.
pub entry_match-entry_set :
    (rtas : Attrs) (map : List Mapping) (entry : Bytes)
    → IsLayout (length entry) map
    → Fits rtas map
    → rtas rta_encap ≡ none
    → (entry' : Bytes) × (entry_set entry rtas map true ≡ (entry', ok))
      × (entry_match entry' rtas map ≡ matches)
      × (length entry' ≡ length entry)
entry_match-entry_set rtas map entry l f e =
    let t = table_done true rtas entry map entry l f e (SameFields-refl map entry) in
    (t.0, t.1.done, entry_match-Written rtas entry map t.0 f t.1.written, t.1.size)

-- An entry that is set from attributes which fit their fields, with no RTA_ENCAP among them, takes
-- those that are present; where it is not initialised it keeps its other fields.
pub entry_set-Written :
    (init : Bool) (rtas : Attrs) (map : List Mapping) (entry : Bytes)
    → IsLayout (length entry) map
    → Fits rtas map
    → rtas rta_encap ≡ none
    → (entry' : Bytes) × (entry_set entry rtas map init ≡ (entry', ok))
      × Written init rtas entry map entry'
      × ((n : Mapping) → AllApart n map → field_at n entry' ≡ field_at n entry)
entry_set-Written init rtas map entry l f e =
    let t = table_done init rtas entry map entry l f e (SameFields-refl map entry) in
    (t.0, t.1.done, t.1.written, t.1.frame)

-- An attribute that is too long for a field that identifies entries makes every entry pass that
-- agrees on the fields before it: the -1 of the comparison is taken for a match.
pub entry_match_too_long :
    (rtas : Attrs) (m : Mapping) (map : List Mapping) (entry rta : Bytes)
    → m.unique ≡ true
    → rtas m.type ≡ some rta
    → m.size < rta_payload rta
    → is_nonzero (entry_match entry rtas (m ∷ map)) ≡ true
unfolding entry_match
entry_match_too_long rtas m map entry rta u p l = ground arith

-- An attribute that is too long for its field ends the initialisation of an entry: the fields of the
-- rows behind it keep what the memory held before.
pub entry_set_too_long :
    (rtas : Attrs) (m : Mapping) (map : List Mapping) (entry rta : Bytes) (init : Bool)
    → m.type ≢ rta_encap
    → rtas m.type ≡ some rta
    → m.size < rta_payload rta
    → entry_set entry rtas (m ∷ map) init ≡ (entry, fail 1)
unfolding entry_set set_row
entry_set_too_long rtas m map entry rta init t p l = ground arith
