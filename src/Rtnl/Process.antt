-- ===== src/Rtnl/Process.antt =====
-- The entry points of netlink/librtnl/rtnl.c: a message, an event of the process node, a read.
use vppsb.Common.{
  ℕ, zero, suc, Bool, true, false, ◌&&◌, ◌||◌, not, Option, none, some, [], ◌∷◌, ltb, ◌==◌,
  if◌then◌else◌, Ret, ok, fail, sub_size, align4, has_bit, Bytes, le16_at, le32_at, length, take,
  drop,
}
use vppsb.Rtnl.{
  State, init, sync, opening, Ns, Hdr, close, put_stream, deliver, Kernel, Ctx, dbl_max,
  nlmsg_error, nlmsg_done, sizeof_nlmsghdr, schedule_timeout, emit, socket_close, sync_reset,
  sync_done, sync_timeout,
}

abbrev pub is_sync : State → Bool
is_sync sync = true
is_sync _ = false

-- sizeof(struct nlmsgerr) is 20; the error itself is not used.
unfoldable pub rcv_error : Hdr → Ret
rcv_error h = if ltb (sub_size h.nlmsg_len sizeof_nlmsghdr) 20 then fail 1 else ok

-- RTM_NEWLINK and RTM_DELLINK, and the same for addresses, routes and neighbours.
abbrev pub is_object : ℕ → Bool
is_object t = t == 24 || t == 25 || t == 16 || t == 17 || t == 20 || t == 21 || t == 28 || t == 29

-- RTM_F_NOTIFY is 0x100.
abbrev pub disturbs : Hdr → Ns → Bool
disturbs h ns = is_sync ns.state && (has_bit 8 h.nlmsg_flags || not (h.nlmsg_seq == ns.rtnl_seq))

unfoldable pub restart : Hdr → Ctx → Ctx
unfolding schedule_timeout
restart h c = if disturbs h c.ns then schedule_timeout c.now (sync_reset c) else c

unfoldable pub dispatch : Kernel → Hdr → Ctx → Ctx × Ret
unfolding rcv_error
dispatch k h c =
    if h.nlmsg_type == nlmsg_done
    then (sync_done k c, ok)
    else if h.nlmsg_type == nlmsg_error
    then (c, rcv_error h)
    else if is_object h.nlmsg_type && c.ns.recv_message
    then (emit (deliver h c.ns.opaque) c, ok)
    else (c, ok)

-- After a restart the message is still dispatched.
unfoldable pub ns_recv : Kernel → Hdr → Ctx → Ctx × Ret
unfolding restart dispatch
ns_recv k h c = dispatch k h (restart h c)

unfoldable pub process_open_in : State → Ctx → Ctx
unfolding schedule_timeout
process_open_in init c =
    schedule_timeout c.now (record c { ns = record ns { state = sync; sync_state = opening } })
  where
    open c use {ns}
process_open_in _ c = c

unfoldable pub process_open : Ctx → Ctx
unfolding process_open_in
process_open c = process_open_in c.ns.state c

unfoldable pub process_close_in : State → Ctx → Ctx
unfolding socket_close
process_close_in init c = c
process_close_in _ c = emit put_stream (emit (close c.ns.ns_fd) (socket_close c))

unfoldable pub process_close : Ctx → Ctx
unfolding process_close_in
process_close c = process_close_in c.ns.state c

unfoldable pub process_timeout_in : State → Kernel → Ctx → Ctx
process_timeout_in sync k c = sync_timeout k c
process_timeout_in _ k c = c

unfoldable pub process_timeout : Kernel → Ctx → Ctx
unfolding process_timeout_in
process_timeout k c = process_timeout_in c.ns.state k c

-- What the process node does with a stream when its clock runs out.
unfoldable pub clock : Kernel → Ctx → Ctx
clock k c =
    if ltb c.ns.timeout c.now
    then process_timeout k (record c { ns = record ns { timeout = dbl_max } })
    else c
  where
    open c use {ns}

-- The header at the front of a buffer.
unfoldable pub hdr_of : Bytes → Hdr
hdr_of bs = record {
  nlmsg_len = le32_at bs 0;
  nlmsg_type = le16_at bs 4;
  nlmsg_flags = le16_at bs 6;
  nlmsg_seq = le32_at bs 8;
  nlmsg_pid = le32_at bs 12;
  payload = drop sizeof_nlmsghdr (take (le32_at bs 0) bs);
}

-- The inner loop of rtnl_process_read over the bytes that are left, the calls of its messages
-- answered in turn by `ks`. `none` means that the fuel ran out.
unfoldable pub read_buffer : ℕ → (ℕ → Kernel) → Bytes → Ctx → Option (Ctx × Ret)
read_buffer zero ks bs c = none
read_buffer (suc fuel) ks [] c = some (c, ok)
read_buffer (suc fuel) ks (b ∷ rest) c =
    if ltb (length (b ∷ rest)) sizeof_nlmsghdr || ltb (length (b ∷ rest)) (le32_at (b ∷ rest) 0)
    then some (c, fail 1)
    else let (c', r) = ns_recv (ks 0) (hdr_of (b ∷ rest)) c in
      elim r [
        | ok ↦
            read_buffer fuel (λ n. ks (suc n)) (drop (align4 (le32_at (b ∷ rest) 0)) (b ∷ rest)) c'
        | fail _ ↦ some (c', fail 1)
      ]

-- What recv returns, in turn: a buffer, EAGAIN or another error.
pub data Recvs : Type 0 where
  again failed : Recvs
  chunk : Bytes → (ℕ → Kernel) → Recvs → Recvs

-- The loop of rtnl_process_read; a buffer is given `fuel` rounds.
unfoldable pub process_read : ℕ → Recvs → Ctx → Option (Ctx × Ret)
process_read fuel again c = some (c, ok)
process_read fuel failed c = some (c, fail 1)
process_read fuel (chunk bs ks more) c = elim (read_buffer fuel ks bs c) [
  | none ↦ none
  | some (c', ok) ↦ process_read fuel more c'
  | some (c', fail _) ↦ some (c', fail 1)
]
