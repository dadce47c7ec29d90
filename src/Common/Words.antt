-- ===== src/Common/Words.antt =====
-- Machine words as native numbers; the byte order is the little endian of the hosts that run VPP.
use Prim.Native.Nat.{ℕ, ◌+◌, ◌-◌, ◌*◌, ◌/◌, ◌%◌, ◌^◌}
use mathlib.Core.Bool.{Bool}
use mathlib.Core.List.{List, [], ◌∷◌}
use vppsb.Common.Tests.{◌==◌}
use vppsb.Common.Lists.{get_or}

abbrev pub u32 : ℕ → ℕ
u32 n = n % 2 ^ 32

-- `~0` as a u32, which is also the bit pattern of the int -1.
abbrev pub no_index : ℕ
no_index = 2 ^ 32 - 1

-- a - b on size_t.
abbrev pub sub_size : ℕ → ℕ → ℕ
sub_size a b = (a + 2 ^ 64 - b) % 2 ^ 64

-- (x + 3) & ~3, which NLMSG_ALIGN and RTA_ALIGN compute.
abbrev pub align4 : ℕ → ℕ
align4 n = (n + 3) / 4 * 4

-- The flag of weight 2 ^ k.
abbrev pub has_bit : ℕ → ℕ → Bool
has_bit k flags = flags / 2 ^ k % 2 == 1

abbrev pub Bytes : Type 0
Bytes = List ℕ

-- The words at an offset of a buffer; a byte outside reads as 0.
abbrev pub byte_at : Bytes → ℕ → ℕ
byte_at bs i = get_or bs i 0

abbrev pub le16_at : Bytes → ℕ → ℕ
le16_at bs i = byte_at bs i + 256 * byte_at bs (i + 1)

abbrev pub le32_at : Bytes → ℕ → ℕ
le32_at bs i = le16_at bs i + 65536 * le16_at bs (i + 2)

abbrev pub le16 : ℕ → Bytes
le16 n = n % 256 ∷ n / 256 % 256 ∷ []

abbrev pub le32 : ℕ → Bytes
le32 n = n % 256 ∷ n / 256 % 256 ∷ n / 65536 % 256 ∷ n / 16777216 % 256 ∷ []
