-- ===== src/Router/Netlink/Labels.antt =====
-- What get_mpls_label_stack of router/router/tap_inject_netlink.c makes of a stack of labels.
use vppsb.Common.{
  ℕ, ◌+◌, ◌*◌, ◌/◌, ◌%◌, ◌≤◌, ◌<◌, zero, suc, ◌≡◌, ap, none, some, List, [], ◌∷◌, ◌++◌, arith,
  Bytes, length,
}
use mathlib.Core.Option.{map}
use vppsb.Router.Netlink.{words, label_stack}

-- A label in its entry on the wire, with the flag of the bottom of the stack.
abbrev pub entry : ℕ → ℕ → ℕ
entry label bottom = 4096 * label + 256 * bottom

abbrev pub be32 : ℕ → Bytes
be32 n = (n / 16777216) ∷ (n / 65536 % 256) ∷ (n / 256 % 256) ∷ (n % 256) ∷ []

-- A stack of labels as RTA_ENCAP and RTA_DST carry it: the last entry has the flag.
unfoldable pub encode_stack : ℕ → List ℕ → Bytes
encode_stack l [] = be32 (entry l 1)
encode_stack l (l' ∷ ls) = be32 (entry l 0) ++ encode_stack l' ls

pub data IsLabels : List ℕ → Type 0 where
  nil : IsLabels []
  cons : {l : ℕ} {ls : List ℕ} → 0 < l → l < 1048576 → IsLabels ls → IsLabels (l ∷ ls)

words-be32 : (n : ℕ) (bs : Bytes) → words (be32 n ++ bs) ≡ n ∷ words bs
unfolding words
words-be32 n bs = ap (λ w. w ∷ words bs) (omega arith)

-- What the loop does with the entries of a stack.
label_stack-last :
    (room l : ℕ) (es : List ℕ)
    → 0 < l
    → l < 1048576
    → label_stack (suc room) (entry l 1 ∷ es) ≡ some (l ∷ [])
unfolding label_stack
label_stack-last room l es p q = ground arith

label_stack-next :
    (room l : ℕ) (es : List ℕ)
    → 0 < l
    → l < 1048576
    → label_stack (suc room) (entry l 0 ∷ es) ≡ map (λ ls. l ∷ ls) (label_stack room es)
unfolding label_stack
label_stack-next room l es p q = ground arith

label_stack-full :
    (l bottom : ℕ) (es : List ℕ)
    → 0 < l
    → l < 1048576
    → bottom ≤ 1
    → label_stack 0 (entry l bottom ∷ es) ≡ none
unfolding label_stack
label_stack-full l bottom es p q r = ground arith

words-encode_stack-last :
    (l : ℕ) (bs : Bytes) → words (encode_stack l [] ++ bs) ≡ entry l 1 ∷ words bs
unfolding encode_stack
words-encode_stack-last l bs = words-be32 (entry l 1) bs

words-encode_stack-next :
    (l l' : ℕ) (ls : List ℕ) (bs : Bytes)
    → words (encode_stack l (l' ∷ ls) ++ bs) ≡ entry l 0 ∷ words (encode_stack l' ls ++ bs)
unfolding encode_stack
words-encode_stack-next l l' ls bs = words-be32 (entry l 0) (encode_stack l' ls ++ bs)

-- A stack of labels of 20 bits, none of them 0, is read as it was written if it fits, whatever
-- follows it.
pub label_stack-encode_stack :
    (room l : ℕ) (ls : List ℕ) (bs : Bytes)
    → IsLabels (l ∷ ls)
    → length ls < room
    → label_stack room (words (encode_stack l ls ++ bs)) ≡ some (l ∷ ls)
label_stack-encode_stack room l ls bs p h = go room l ls p h
  where
    go :
        (room l : ℕ) (ls : List ℕ)
        → IsLabels (l ∷ ls)
        → length ls < room
        → label_stack room (words (encode_stack l ls ++ bs)) ≡ some (l ∷ ls)
    go zero l ls p h = ground arith
    go (suc room) l [] (IsLabels.cons p q r) h =
        rw words-encode_stack-last (label_stack-last room l (words bs) p q)
    go (suc room) l (l' ∷ ls) (IsLabels.cons p q r) h = rw (
      words-encode_stack-next l l' ls bs,
      label_stack-next room l (words (encode_stack l' ls ++ bs)) p q,
      go room l' ls r (omega arith),
    )

-- A stack of such labels, more than there is room for, is written past the end of the array.
pub label_stack-overflows :
    (room l : ℕ) (ls : List ℕ) (bs : Bytes)
    → IsLabels (l ∷ ls)
    → room ≤ length ls
    → label_stack room (words (encode_stack l ls ++ bs)) ≡ none
label_stack-overflows room l ls bs p h = go room l ls p h
  where
    go :
        (room l : ℕ) (ls : List ℕ)
        → IsLabels (l ∷ ls)
        → room ≤ length ls
        → label_stack room (words (encode_stack l ls ++ bs)) ≡ none
    go zero l [] (IsLabels.cons p q r) h =
        rw words-encode_stack-last (label_stack-full l 1 (words bs) p q (omega arith))
    go zero l (l' ∷ ls) (IsLabels.cons p q r) h =
        rw words-encode_stack-next (label_stack-full l 0 _ p q (omega arith))
    go (suc room) l [] p h = ground arith
    go (suc room) l (l' ∷ ls) (IsLabels.cons p q r) h = rw (
      words-encode_stack-next l l' ls bs,
      label_stack-next room l (words (encode_stack l' ls ++ bs)) p q,
      go room l' ls r (omega arith),
    )
