-- ===== src/Rtnl/Read.antt =====
-- The read loop of netlink/librtnl/rtnl.c over the wire format of its messages.
use vppsb.Common.{
  ℕ, zero, suc, ◌+◌, ◌-◌, ◌^◌, ◌≤◌, ◌<◌, ◌≡◌, ◌≢◌, refl, ap, sym, ◌∙◌, Option, none, some, List, [],
  ◌∷◌, ◌++◌, arith, le→not_ltb, Ret, ok, fail, align4, Bytes, le16, le32, le16_at, le32_at, length,
  take, drop, replicate, length-append, drop-length, take-length,
}
use mathlib.Core.List.{append_assoc}
use vppsb.Rtnl.{sync, Hdr, Kernel, Ctx}
use vppsb.Rtnl.Process.{ns_recv, hdr_of, read_buffer}

-- The 16 bytes of a header.
pub header : Hdr → Bytes
header h =
    le32 h.nlmsg_len
    ++ (le16 h.nlmsg_type ++ (le16 h.nlmsg_flags ++ (le32 h.nlmsg_seq ++ le32 h.nlmsg_pid)))

-- A message on the wire, padded to a multiple of four bytes.
pub encode : Hdr → Bytes
encode h = header h ++ (h.payload ++ replicate (align4 h.nlmsg_len - h.nlmsg_len) 0)

pub encode_all : List Hdr → Bytes
encode_all [] = []
encode_all (h ∷ hs) = encode h ++ encode_all hs

-- A header whose fields fit their widths and whose length is that of the message.
pub record IsWire (h : Hdr) : Type 0 where
  pub len : h.nlmsg_len ≡ 16 + length h.payload
  pub len_width : h.nlmsg_len < 2 ^ 32
  pub type_width : h.nlmsg_type < 2 ^ 16
  pub flags_width : h.nlmsg_flags < 2 ^ 16
  pub seq_width : h.nlmsg_seq < 2 ^ 32
  pub pid_width : h.nlmsg_pid < 2 ^ 32

take-append_add : (xs ys : Bytes) (n : ℕ) → take (length xs + n) (xs ++ ys) ≡ xs ++ take n ys
take-append_add [] ys n = let e : 0 + n ≡ n = omega arith in rw e
take-append_add (x ∷ xs) ys n =
    let e : suc (length xs) + n ≡ suc (length xs + n) = omega arith in
    rw e (ap (◌∷◌ x) (take-append_add xs ys n))

drop-take_middle :
    (xs ys zs : Bytes) → drop (length xs) (take (length xs + length ys) (xs ++ (ys ++ zs))) ≡ ys
drop-take_middle xs ys zs =
    ap (drop (length xs))
      (take-append_add xs (ys ++ zs) (length ys) ∙ ap (◌++◌ xs) (take-length ys zs))
    ∙ drop-length xs ys

hdr_of-encode : (h : Hdr) (rest : Bytes) → IsWire h → hdr_of (encode h ++ rest) ≡ h
unfolding hdr_of encode header
hdr_of-encode h rest w = λ i. record {
  nlmsg_len = len i;
  nlmsg_type = type i;
  nlmsg_flags = flags i;
  nlmsg_seq = seq i;
  nlmsg_pid = pid i;
  payload = body i;
}
  where
    len : (hdr_of (encode h ++ rest)).nlmsg_len ≡ h.nlmsg_len
    len = omega (arith, w.len_width)

    type : (hdr_of (encode h ++ rest)).nlmsg_type ≡ h.nlmsg_type
    type = omega (arith, w.type_width)

    flags : (hdr_of (encode h ++ rest)).nlmsg_flags ≡ h.nlmsg_flags
    flags = omega (arith, w.flags_width)

    seq : (hdr_of (encode h ++ rest)).nlmsg_seq ≡ h.nlmsg_seq
    seq = omega (arith, w.seq_width)

    pid : (hdr_of (encode h ++ rest)).nlmsg_pid ≡ h.nlmsg_pid
    pid = omega (arith, w.pid_width)

    body : (hdr_of (encode h ++ rest)).payload ≡ h.payload
    body =
        ap (λ n. drop 16 (take n (encode h ++ rest))) (len ∙ w.len)
        ∙ ap (λ bs. drop 16 (take (16 + length h.payload) bs)) (append_assoc (header h) _ rest)
        ∙ ap (λ bs. drop 16 (take (16 + length h.payload) (header h ++ bs)))
            (append_assoc h.payload _ rest)
        ∙ drop-take_middle (header h) h.payload _

length-replicate : (n : ℕ) → length (replicate n (let z : ℕ = 0 in z)) ≡ n
length-replicate zero = refl
length-replicate (suc n) = ap suc (length-replicate n)

length-encode : (h : Hdr) → IsWire h → length (encode h) ≡ align4 h.nlmsg_len
unfolding encode header
length-encode h w = omega (
  arith,
  length-append h.payload (replicate (align4 h.nlmsg_len - h.nlmsg_len) 0),
  length-replicate (align4 h.nlmsg_len - h.nlmsg_len),
  w.len,
)

le32_at-encode : (h : Hdr) (rest : Bytes) → IsWire h → le32_at (encode h ++ rest) 0 ≡ h.nlmsg_len
unfolding encode header
le32_at-encode h rest w = omega (arith, w.len_width)

drop-encode :
    (h : Hdr) (rest : Bytes)
    → IsWire h
    → drop (align4 (le32_at (encode h ++ rest) 0)) (encode h ++ rest) ≡ rest
drop-encode h rest w =
    ap (λ n. drop n (encode h ++ rest))
      (ap (λ n. align4 n) (le32_at-encode h rest w) ∙ sym (length-encode h w))
    ∙ drop-length (encode h) rest

-- What follows the handling of one message.
abbrev continue {ℓ} : {A : Type ℓ} → (Ctx → A) → (Ctx → A) → Ctx × Ret → A
continue go stop (c, ok) = go c
continue go stop (c, fail _) = stop c

continue-some :
    (go : Ctx → Option (Ctx × Ret)) (go' : Ctx → Ctx × Ret) (stop : Ctx → Ctx × Ret) (r : Ctx × Ret)
    → ((c : Ctx) → go c ≡ some (go' c))
    → continue go (λ c. some (stop c)) r ≡ some (continue go' stop r)
continue-some go go' stop (c, ok) h = h c
continue-some go go' stop (c, fail _) h = refl

-- The messages of a buffer handled in order, up to the first whose handling fails.
pub recv_messages : (ℕ → Kernel) → List Hdr → Ctx → Ctx × Ret
recv_messages ks [] c = (c, ok)
recv_messages ks (h ∷ hs) c =
    continue (recv_messages (λ n. ks (suc n)) hs) (λ c'. (c', fail 1)) (ns_recv (ks 0) h c)

-- One round of the loop at a buffer that begins with a whole message.
read_round :
    (fuel : ℕ) (ks : ℕ → Kernel) (bs : Bytes) (c : Ctx)
    → 16 ≤ length bs
    → le32_at bs 0 ≤ length bs
    → read_buffer (suc fuel) ks bs c
      ≡ continue
          (read_buffer fuel (λ n. ks (suc n)) (drop (align4 (le32_at bs 0)) bs))
          (λ c'. some (c', fail 1))
          (ns_recv (ks 0) (hdr_of bs) c)
unfolding read_buffer
read_round fuel ks [] c h g = absurd (omega arith)
read_round fuel ks (b ∷ bs) c h g = rw (le→not_ltb _ _ h, le→not_ltb _ _ g) (ground arith)

abbrev pub AreWire : List Hdr → Type 0
AreWire [] = Unit {0}
AreWire (h ∷ hs) = IsWire h × AreWire hs

-- A buffer that holds whole messages is handled message by message, in order, in one round for each
-- and one for the end of the buffer.
pub read_buffer-encode_all :
    (fuel : ℕ) (ks : ℕ → Kernel) (hs : List Hdr) (c : Ctx)
    → AreWire hs
    → length hs < fuel
    → read_buffer fuel ks (encode_all hs) c ≡ some (recv_messages ks hs c)
unfolding recv_messages encode_all
read_buffer-encode_all zero ks hs c w l = absurd (omega arith)
read_buffer-encode_all (suc fuel) ks [] c w l = unfold read_buffer in refl
read_buffer-encode_all (suc fuel) ks (h ∷ hs) c w l =
    read_round fuel ks (encode h ++ encode_all hs) c (omega (arith, whole, w.0.len))
      (omega (arith, whole, le32_at-encode h (encode_all hs) w.0))
    ∙ rw (hdr_of-encode h (encode_all hs) w.0, drop-encode h (encode_all hs) w.0)
        (continue-some _ _ (λ c'. (c', fail 1)) (ns_recv (ks 0) h c)
          λ c'. read_buffer-encode_all fuel (λ n. ks (suc n)) hs c' w.1 (omega arith))
  where
    whole :
        (align4 h.nlmsg_len ≤ length (encode h ++ encode_all hs))
        × (h.nlmsg_len ≤ align4 h.nlmsg_len)
    whole = omega (arith, length-append (encode h) (encode_all hs), length-encode h w.0)

-- A message of length 0 makes the loop take the same bytes again and again: whatever the fuel, the
-- loop does not end, while the stream, which is not synchronising, ignores the message.
pub read_buffer-stuck :
    (fuel : ℕ) (ks : ℕ → Kernel) (bs : Bytes) (c : Ctx)
    → 16 ≤ length bs
    → le32_at bs 0 ≡ 0
    → le16_at bs 4 ≡ 0
    → c.ns.state ≢ sync
    → read_buffer fuel ks bs c ≡ none
read_buffer-stuck zero ks bs c h z t n = unfold read_buffer in refl
read_buffer-stuck (suc fuel) ks bs c h z t n =
    read_round fuel ks bs c h (omega arith)
    ∙ rw (ignored (ks 0) bs c t n, z) (read_buffer-stuck fuel (λ k. ks (suc k)) bs c h z t n)
  where
    ignored :
        (k : Kernel) (bs : Bytes) (c : Ctx)
        → le16_at bs 4 ≡ 0
        → c.ns.state ≢ sync
        → ns_recv k (hdr_of bs) c ≡ (c, ok)
    ignored k bs c t n = unfold ns_recv hdr_of in ground arith
