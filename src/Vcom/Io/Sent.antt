-- ===== src/Vcom/Io/Sent.antt =====
-- writev of vcl-ldpreload/src/libvcl-ldpreload/vcom_socket.c: what it returns, and the bytes that the
-- session took.
use vppsb.Common.{
  ℕ, ◌+◌, ◌≡◌, refl, ap, ◌∙◌, Bool, true, false, ◌||◌, not, some, List, [], ◌∷◌, ◌++◌, ◌==◌, ltb,
  Bool-cases, ◌⊎◌, inl, inr, length, arith, take, length-append, length-take,
}
use mathlib.Core.List.{append_assoc, append-nil}
use vppsb.Pool.{PoolLib}
use vppsb.Vcom.{Rv, ret, err, einval, Socket, Main, Checked, refused, bound, check_socket}
use vppsb.Vcom.Io.{iov_max, Session, writev_bufs, writev}
use vppsb.Vcom.Io.Vectors.{IsHonest}

-- The number that is returned is the number of bytes sent; an error is returned where there are none.
abbrev pub Reports : Rv × List ℕ → Type 0
Reports (ret n, s) = n ≡ length s
Reports (err n, s) = length s ≡ 0

writev_bufs-Reports :
    (bs : List (List ℕ)) (fs : Session) (total : ℕ) (sent : List ℕ) (r : Rv × List ℕ)
    → IsHonest fs
    → total ≡ length sent
    → writev_bufs bs total sent fs ≡ some r
    → Reports r
unfolding writev_bufs
writev_bufs-Reports [] fs total sent (ret n, s) o t h = ground (arith, t, h)
writev_bufs-Reports [] fs total sent (err n, s) o t h = ground (arith, t, h)
writev_bufs-Reports (b ∷ bs) [] total sent r o t h = ground (arith, h)
writev_bufs-Reports (b ∷ bs) (f ∷ fs) total sent (r, s) o t h =
    go (f (length b)) refl r
      (λ k r'. writev_bufs-Reports bs fs (total + k) (sent ++ take k b) (r', s) o.1) h
  where
    go :
        (a : Rv)
        → f (length b) ≡ a
        → (r : Rv)
        → ((k : ℕ) (r' : Rv)
            → total + k ≡ length (sent ++ take k b)
            → writev_bufs bs (total + k) (sent ++ take k b) fs ≡ some (r', s)
            → Reports (r', s))
        → writev_bufs (b ∷ bs) total sent (f ∷ fs) ≡ some (r, s)
        → Reports (r, s)
    go (err e) q (ret n) ih h = ground (arith, q, h, t)
    go (err e) q (err n) ih h = ground (arith, q, h, t)
    go (ret k) q r ih h =
        ih k r
          (ground (arith, t, o.0 (length b) k q, length-append sent (take k b), length-take k b))
          (ground (arith, q, h))

-- Every answer that is a number is the length that was asked for.
abbrev pub IsFull : Session → Type 0
IsFull [] = Unit {0}
IsFull (f ∷ fs) = ((l k : ℕ) → f l ≡ ret k → k ≡ l) × IsFull fs

abbrev pub concat : List (List ℕ) → List ℕ
concat [] = []
concat (b ∷ bs) = b ++ concat bs

-- The first list begins the second.
abbrev pub Begins : List ℕ → List ℕ → Type 0
Begins s all = (rest : List ℕ) × (s ++ rest ≡ all)

take_whole : (b : List ℕ) → take (length b) b ≡ b
take_whole [] = refl
take_whole (x ∷ b) = ap (λ c. x ∷ c) (take_whole b)

writev_bufs-Begins :
    (bs : List (List ℕ)) (fs : Session) (total : ℕ) (sent : List ℕ) (r : Rv × List ℕ)
    → IsFull fs
    → writev_bufs bs total sent fs ≡ some r
    → Begins r.1 (sent ++ concat bs)
unfolding writev_bufs
writev_bufs-Begins [] fs total sent (r, s) o h =
    ([], ground (arith, h, append-nil s, append-nil sent))
writev_bufs-Begins (b ∷ bs) [] total sent r o h = ground (arith, h)
writev_bufs-Begins (b ∷ bs) (f ∷ fs) total sent (r, s) o h =
    go (f (length b)) refl (λ k. writev_bufs-Begins bs fs (total + k) (sent ++ take k b) (r, s) o.1)
  where
    go :
        (a : Rv)
        → f (length b) ≡ a
        → ((k : ℕ)
            → writev_bufs bs (total + k) (sent ++ take k b) fs ≡ some (r, s)
            → Begins s ((sent ++ take k b) ++ concat bs))
        → Begins s (sent ++ (b ++ concat bs))
    go (err e) q ih = (b ++ concat bs, ground (arith, q, h))
    go (ret k) q ih =
        let e = ih k (ground (arith, q, h)) in
        (
          e.0,
          e.1
              ∙ ap (λ c. (sent ++ c) ++ concat bs)
                  (ap (λ n. take n b) (o.0 (length b) k q) ∙ take_whole b)
              ∙ append_assoc sent b (concat bs),
        )

module _ (lib : PoolLib) (m : Main lib) (fd : ℕ) (has_iov : Bool) (bs : List (List ℕ))
    (fs : Session) (r : Rv × List ℕ) (h : writev lib m fd has_iov bs fs ≡ some r) where
  -- A call that is refused sends nothing.
  writev-cases : ((e : ℕ) × (r ≡ (err e, []))) ⊎ (writev_bufs bs 0 [] fs ≡ some r)
  unfolding writev
  writev-cases = go (check_socket lib m fd) refl
    where
      go :
          (c : Checked Socket)
          → check_socket lib m fd ≡ c
          → ((e : ℕ) × (r ≡ (err e, []))) ⊎ (writev_bufs bs 0 [] fs ≡ some r)
      go (refused e) q = inl (e, ground (arith, q, h))
      go (bound i so) q = by (Bool-cases (not has_iov || length bs == 0 || ltb iov_max (length bs)))
        where
          by :
              ((not has_iov || length bs == 0 || ltb iov_max (length bs)) ≡ true)
                ⊎ ((not has_iov || length bs == 0 || ltb iov_max (length bs)) ≡ false)
              → ((e : ℕ) × (r ≡ (err e, []))) ⊎ (writev_bufs bs 0 [] fs ≡ some r)
          by (inl b) = inl (einval, ground (arith, q, h, b))
          by (inr b) = inr (ground (arith, q, h, b))

  -- Where no answer of the session has more than was asked for, writev returns the number of bytes
  -- that the session took, and an error only where it took none.
  writev-Reports : IsHonest fs → Reports r
  writev-Reports o = go writev-cases
    where
      go : ((e : ℕ) × (r ≡ (err e, []))) ⊎ (writev_bufs bs 0 [] fs ≡ some r) → Reports r
      go (inl (e, q)) = rw (q) refl
      go (inr w) = writev_bufs-Reports bs fs 0 [] r o refl w

  -- Where the session takes each buffer whole or fails, the bytes it took begin the bytes of the
  -- buffers.
  pub writev-Begins : IsFull fs → Begins r.1 (concat bs)
  writev-Begins o = go writev-cases
    where
      go :
          ((e : ℕ) × (r ≡ (err e, []))) ⊎ (writev_bufs bs 0 [] fs ≡ some r) → Begins r.1 (concat bs)
      go (inl (e, q)) = rw (q) (concat bs, refl)
      go (inr w) = writev_bufs-Begins bs fs 0 [] r o w
