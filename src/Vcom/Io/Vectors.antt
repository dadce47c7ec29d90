-- ===== src/Vcom/Io/Vectors.antt =====
-- readv of vcl-ldpreload/src/libvcl-ldpreload/vcom_socket.c: the lengths it accepts, what it reads at
-- most, and how it differs from read.
use vppsb.Common.{
  ℕ, ◌+◌, ◌-◌, ◌^◌, ◌≡◌, ◌≤◌, refl, Bool, true, Option, none, some, List, [], ◌∷◌, ◌==◌, leb,
  if◌then◌else◌, arith,
}
use Prim.Native.Nat.{bit_and}
use vppsb.Pool.{PoolLib}
use vppsb.Vcom.{Rv, ret, err, Socket, Main, Checked, refused, bound, check_socket, is_vcom_fd}
use vppsb.Vcom.Open.Accept.{o_nonblock}
use vppsb.Vcom.Io.{Session, read_wait, once, sane, readv_wait, readv_once, readv_fd, read, readv}

abbrev pub sum : List ℕ → ℕ
sum [] = 0
sum (l ∷ ls) = l + sum ls

-- No answer has more than was asked for.
abbrev pub IsHonest : Session → Type 0
IsHonest [] = Unit {0}
IsHonest (f ∷ fs) = ((l k : ℕ) → f l ≡ ret k → k ≤ l) × IsHonest fs

sane-leb :
    (len : ℕ) (ls : List ℕ) → len ≤ 2 ^ 63 - 1 → sane len ls ≡ leb (len + sum ls) (2 ^ 63 - 1)
sane-leb len [] h = ground (arith, h)
sane-leb len (l ∷ ls) h = ground (arith, h, sane-leb (len + l) ls)

-- What a blocking readv makes of the answer to read.
abbrev pub silent : Option Rv → Option Rv
silent none = none
silent (some (err n)) = some (ret 0)
silent (some (ret n)) = some (ret n)

readv_wait-one :
    (l : ℕ) (fs : Session) → readv_wait (l ∷ []) (l ∷ []) 0 fs ≡ silent (read_wait l fs)
unfolding readv_wait
readv_wait-one l [] = refl
readv_wait-one l (f ∷ fs) = go (f l) refl (readv_wait-one l fs)
  where
    go :
        (r : Rv)
        → f l ≡ r
        → readv_wait (l ∷ []) (l ∷ []) 0 fs ≡ silent (read_wait l fs)
        → readv_wait (l ∷ []) (l ∷ []) 0 (f ∷ fs) ≡ silent (read_wait l (f ∷ fs))
    go (err n) h ih = ground (arith, h, ih)
    go (ret k) h ih = ground (arith, h)

readv_once-one : (l : ℕ) (fs : Session) → readv_once (l ∷ []) 0 fs ≡ once l fs
unfolding readv_once
readv_once-one l [] = refl
readv_once-one l (f ∷ fs) = ground arith

readv_wait-bound :
    (all : List ℕ) (fs : Session) (ls : List ℕ) (total n : ℕ)
    → IsHonest fs
    → total + sum ls ≤ sum all
    → readv_wait all ls total fs ≡ some (ret n)
    → n ≤ sum all
unfolding readv_wait
readv_wait-bound all fs [] total n o b h = ground (arith, b, h)
readv_wait-bound all [] (l ∷ ls) total n o b h = ground (arith, h)
readv_wait-bound all (f ∷ fs) (l ∷ ls) total n o b h =
    go (f l) refl (readv_wait-bound all fs all 0 n o.1)
      (λ k. readv_wait-bound all fs ls (total + k) n o.1)
  where
    go :
        (r : Rv)
        → f l ≡ r
        → (0 + sum all ≤ sum all → readv_wait all all 0 fs ≡ some (ret n) → n ≤ sum all)
        → ((k : ℕ)
            → total + k + sum ls ≤ sum all
            → readv_wait all ls (total + k) fs ≡ some (ret n)
            → n ≤ sum all)
        → n ≤ sum all
    go (err e) q over rest = ground (arith, q, over, b, h)
    go (ret k) q over rest = ground (arith, q, rest k, o.0 l k q, b, h)

readv_once-bound :
    (fs : Session) (ls : List ℕ) (total n : ℕ)
    → IsHonest fs
    → readv_once ls total fs ≡ some (ret n)
    → n ≤ total + sum ls
unfolding readv_once
readv_once-bound fs [] total n o h = ground (arith, h)
readv_once-bound [] (l ∷ ls) total n o h = ground (arith, h)
readv_once-bound (f ∷ fs) (l ∷ ls) total n o h =
    go (f l) refl (λ k. readv_once-bound fs ls (total + k) n o.1)
  where
    go :
        (r : Rv)
        → f l ≡ r
        → ((k : ℕ) → readv_once ls (total + k) fs ≡ some (ret n) → n ≤ total + k + sum ls)
        → n ≤ total + (l + sum ls)
    go (err e) q rest = ground (arith, q, h)
    go (ret k) q rest = ground (arith, q, rest k, o.0 l k q, h)

module _ (lib : PoolLib) (m : Main lib) (fd : ℕ) where
  readv_fd-bound :
      (ls : List ℕ) (fs : Session) (getfl : Rv) (n : ℕ)
      → IsHonest fs
      → readv_fd ls fs getfl ≡ some (ret n)
      → n ≤ sum ls
  unfolding readv_fd
  readv_fd-bound ls fs (err e) n o h = ground (arith, h)
  readv_fd-bound ls fs (ret status) n o h =
      ground (arith, h, readv_wait-bound ls fs ls 0 n o, readv_once-bound fs ls 0 n o)

  -- Where no answer of the session has more than was asked for, a readv that returns a number has
  -- read no more than the buffers hold, and what they hold together fits SSIZE_MAX.
  pub readv-bound :
      (has_iov : Bool) (ls : List ℕ) (getfl : Rv) (fs : Session) (n : ℕ)
      → IsHonest fs
      → readv lib m fd has_iov ls getfl fs ≡ some (ret n)
      → (n ≤ sum ls) × (sum ls ≤ 2 ^ 63 - 1)
  unfolding readv
  readv-bound has_iov ls getfl fs n o h = go (check_socket lib m fd) refl
    where
      go : (c : Checked Socket) → check_socket lib m fd ≡ c → (n ≤ sum ls) × (sum ls ≤ 2 ^ 63 - 1)
      go (refused e) q = ground (arith, q, h)
      go (bound i s) q = ground (arith, q, h, readv_fd-bound ls fs getfl n o, sane-leb 0 ls)

  -- On a blocking socket, readv of one buffer returns what read returns, but 0 for every error that
  -- read returns; on a nonblocking one it returns what read returns.
  readv-read :
      (l status : ℕ) (fs : Session)
      → is_vcom_fd lib m fd ≡ true
      → l ≤ 2 ^ 63 - 1
      → readv lib m fd true (l ∷ []) (ret status) fs ≡ (
          if bit_and status o_nonblock == 0
          then silent (read lib m fd true l (ret status) fs)
          else read lib m fd true l (ret status) fs)
  unfolding is_vcom_fd read readv readv_fd
  readv-read l status fs v b = go (check_socket lib m fd) refl
    where
      go :
          (c : Checked Socket)
          → check_socket lib m fd ≡ c
          → readv lib m fd true (l ∷ []) (ret status) fs ≡ (
              if bit_and status o_nonblock == 0
              then silent (read lib m fd true l (ret status) fs)
              else read lib m fd true l (ret status) fs)
      go (refused e) q = ground (arith, q, v)
      go (bound i s) q =
          ground (arith, q, b, sane-leb 0 (l ∷ []), readv_wait-one l fs, readv_once-one l fs)
