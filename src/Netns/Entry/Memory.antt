-- ===== src/Netns/Entry/Memory.antt =====
-- Reading a field of an entry's memory after a write: the laws of `copy` and `blit`.
use vppsb.Common.{
  ℕ, zero, suc, ◌+◌, ◌-◌, ◌≤◌, ◌<◌, ◌≡◌, refl, sym, ap, ◌∙◌, ◌⊎◌, [], ◌∷◌, ◌++◌, arith, ltb,
  if◌then◌else◌, Bytes, length, take, drop, get_or, length-append, length-take, length-drop,
  drop-length,
}
use vppsb.Netns.Entry.{copy, blit}

get_or-append :
    (xs ys : Bytes) (i d : ℕ)
    → get_or (xs ++ ys) i d
      ≡ (if ltb i (length xs) then get_or xs i d else get_or ys (i - length xs) d)
get_or-append [] ys i d = let e : i - 0 ≡ i = omega arith in rw e (ground arith)
get_or-append (x ∷ xs) ys zero d = ground arith
get_or-append (x ∷ xs) ys (suc i) d = ground (arith, get_or-append xs ys i d)

get_or-take : (n : ℕ) (xs : Bytes) (i d : ℕ) → i < n → get_or (take n xs) i d ≡ get_or xs i d
get_or-take zero xs i d h = absurd (omega arith)
get_or-take (suc n) [] i d h = refl
get_or-take (suc n) (x ∷ xs) zero d h = refl
get_or-take (suc n) (x ∷ xs) (suc i) d h = get_or-take n xs i d (omega arith)

get_or-drop : (n : ℕ) (xs : Bytes) (i d : ℕ) → get_or (drop n xs) i d ≡ get_or xs (n + i) d
get_or-drop zero xs i d = let e : 0 + i ≡ i = omega arith in rw e
get_or-drop (suc n) [] i d = refl
get_or-drop (suc n) (x ∷ xs) i d =
    let e : suc n + i ≡ suc (n + i) = omega arith in rw e (get_or-drop n xs i d)

copy_ext :
    (n : ℕ) (a b : Bytes) → ((i : ℕ) → i < n → get_or a i 0 ≡ get_or b i 0) → copy n a ≡ copy n b
unfolding copy
copy_ext zero a b h = refl
copy_ext (suc n) [] [] h = refl
copy_ext (suc n) [] (y ∷ b) h =
    ap (◌∷◌ 0) (copy_ext n [] b (λ i l. h (suc i) (omega arith)))
    ∙ ap (λ z. z ∷ copy n b) (h 0 (omega arith))
copy_ext (suc n) (x ∷ a) [] h =
    ap (◌∷◌ x) (copy_ext n a [] (λ i l. h (suc i) (omega arith)))
    ∙ ap (λ z. z ∷ copy n []) (h 0 (omega arith))
copy_ext (suc n) (x ∷ a) (y ∷ b) h =
    ap (◌∷◌ x) (copy_ext n a b (λ i l. h (suc i) (omega arith)))
    ∙ ap (λ z. z ∷ copy n b) (h 0 (omega arith))

pub length-copy : (n : ℕ) (src : Bytes) → length (copy n src) ≡ n
unfolding copy
length-copy zero src = refl
length-copy (suc n) [] = ap suc (length-copy n [])
length-copy (suc n) (b ∷ src) = ap suc (length-copy n src)

copy-append : (bs rest : Bytes) → copy (length bs) (bs ++ rest) ≡ bs
unfolding copy
copy-append [] rest = refl
copy-append (b ∷ bs) rest = ap (◌∷◌ b) (copy-append bs rest)

pub length-blit :
    (off : ℕ) (bs mem : Bytes)
    → off + length bs ≤ length mem
    → length (blit off bs mem) ≡ length mem
unfolding blit
length-blit off bs mem h = omega (
  arith,
  length-append (take off mem) (bs ++ drop (off + length bs) mem),
  length-append bs (drop (off + length bs) mem),
  length-take off mem,
  length-drop (off + length bs) mem,
)

-- The written bytes are read back.
pub copy-blit_self :
    (off : ℕ) (bs mem : Bytes) (n : ℕ)
    → length bs ≡ n
    → off ≤ length mem
    → copy n (drop off (blit off bs mem)) ≡ bs
unfolding blit
copy-blit_self off bs mem n e h =
    ap (λ k. copy k (drop off (blit off bs mem))) (sym e)
    ∙ ap (λ k. copy (length bs) (drop k (blit off bs mem))) (sym prefix)
    ∙ ap (copy (length bs)) (drop-length (take off mem) (bs ++ drop (off + length bs) mem))
    ∙ copy-append bs (drop (off + length bs) mem)
  where
    prefix : length (take off mem) ≡ off
    prefix = omega (arith, length-take off mem)

-- What lies outside of the written bytes is read as before.
pub get_or-blit_front :
    (bs mem : Bytes) (i : ℕ) → i < length bs → get_or (blit 0 bs mem) i 0 ≡ get_or bs i 0
unfolding blit
get_or-blit_front bs mem i h = ground (arith, get_or-append bs (drop (0 + length bs) mem) i 0)

pub get_or-blit :
    (off : ℕ) (bs mem : Bytes) (i : ℕ)
    → off + length bs ≤ length mem
    → (i < off) ⊎ (off + length bs ≤ i)
    → get_or (blit off bs mem) i 0 ≡ get_or mem i 0
unfolding blit
get_or-blit off bs mem i h o = ground (
  arith,
  get_or-append (take off mem) (bs ++ drop (off + length bs) mem) i 0,
  get_or-append bs (drop (off + length bs) mem) (i - length (take off mem)) 0,
  get_or-take off mem i 0,
  get_or-drop (off + length bs) mem (i - length (take off mem) - length bs) 0,
  length-take off mem,
  back,
)
  where
    back :
        off + length bs ≤ i
        → get_or mem (off + length bs + (i - length (take off mem) - length bs)) 0 ≡ get_or mem i 0
    back l = ap (λ k. get_or mem k 0) (omega (arith, length-take off mem))

pub copy-blit_other :
    (off : ℕ) (bs mem : Bytes) (off' n : ℕ)
    → off + length bs ≤ length mem
    → (off' + n ≤ off) ⊎ (off + length bs ≤ off')
    → copy n (drop off' (blit off bs mem)) ≡ copy n (drop off' mem)
copy-blit_other off bs mem off' n h o = copy_ext n _ _ λ i l.
    get_or-drop off' (blit off bs mem) i 0
    ∙ get_or-blit off bs mem (off' + i) h (omega arith)
    ∙ sym (get_or-drop off' mem i 0)
