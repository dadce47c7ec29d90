-- ===== src/Vcom/Poll/Vectors.antt =====
-- Vectors with vec_del1 as lists, for the tests of the epoll instances of
-- vcl-ldpreload/src/libvcl-ldpreload/vcom_socket.c.
use vppsb.Common.{ℕ, ◌≡◌, true, false, List, [], ◌∷◌, ◌==◌, if◌then◌else◌, length, suc, arith}
use vppsb.Pool.{has, IsDistinct}
use vppsb.Vcom.Poll.{VecLib}

abbrev pub taken_out : ℕ → List ℕ → List ℕ
taken_out i [] = []
taken_out i (j ∷ v) = let rest = taken_out i v in if i == j then v else j ∷ rest

pub has-taken_out :
    (i j : ℕ) (v : List ℕ)
    → IsDistinct v
    → has j (taken_out i v) ≡ (if i == j then false else has j v)
has-taken_out i j [] d = ground arith
has-taken_out i j (k ∷ v) d = ground (arith, d.0, has-taken_out i j v d.1)

pub taken_out-IsDistinct : (i : ℕ) (v : List ℕ) → IsDistinct v → IsDistinct (taken_out i v)
taken_out-IsDistinct i [] d = tt
taken_out-IsDistinct i (k ∷ v) d =
    ground (arith, d.0, d.1, has-taken_out i k v d.1, taken_out-IsDistinct i v d.1)

pub length-taken_out :
    (i : ℕ) (v : List ℕ) → has i v ≡ true → suc (length (taken_out i v)) ≡ length v
length-taken_out i [] h = ground (arith, h)
length-taken_out i (k ∷ v) h = ground (arith, h, length-taken_out i v)

abbrev pub vectors : VecLib
vectors = record {
  remove = taken_out;
  has-remove = has-taken_out;
  remove-IsDistinct = taken_out-IsDistinct;
  length-remove = length-taken_out;
}
