-- ===== src/Router/Node/Frames.antt =====
-- What becomes of the packets of a frame in router/router/tap_inject_node.c.
use vppsb.Common.{
  ℕ, ◌≡◌, ◌≢◌, refl, sym, ap, ◌∙◌, Option, none, some, List, [], ◌∷◌, ◌++◌, map, arith, ◌==◌,
  if◌then◌else◌, no_index,
}
use vppsb.Router.{Main}
use vppsb.Router.Tables.{fd_at, lookup_tap_fd_lem}
use vppsb.Router.Node.{
  Next, Buffer, Effect, writev, free, enqueue, reply_of, rewind, past_ethernet, Loop, or_else, fate,
  neighbor_packet, neighbor_loop, neighbor,
}

-- The buffers that a log gives away, newest first: freed, or passed to another node.
abbrev pub given : List Effect → List ℕ
given [] = []
given (writev fd bi n ∷ log) = given log
given (free bi ∷ log) = bi ∷ given log
given (enqueue n b ∷ log) = b.bi ∷ given log

abbrev pub indices : List Buffer → List ℕ
indices = map λ b. b.bi

given-neighbor_packet :
    (b : Buffer) (l : Loop) → given (neighbor_packet b l).log ≡ b.bi ∷ given l.log
unfolding neighbor_packet
given-neighbor_packet b l = ground arith

-- Prepends the elements in reverse.
abbrev pub onto {ℓ} : {A : Type ℓ} → List A → List A → List A
onto [] ys = ys
onto (x ∷ xs) ys = onto xs (x ∷ ys)

given-neighbor_loop :
    (bs : List Buffer) (l : Loop) → given (neighbor_loop bs l).log ≡ onto (indices bs) (given l.log)
unfolding neighbor_loop
given-neighbor_loop [] l = refl
given-neighbor_loop (b ∷ bs) l =
    given-neighbor_loop bs (neighbor_packet b l)
    ∙ ap (onto (indices bs)) (given-neighbor_packet b l)

-- Every packet of a frame is freed or passed on, once, in the order of the frame.
pub given-neighbor :
    (bs : List Buffer) (m : Main) → given (neighbor bs m).log ≡ onto (indices bs) []
unfolding neighbor
given-neighbor bs m = given-neighbor_loop bs (record { main = m; next = none; log = [] })

-- What a frame's packets have last asked for: the last reply among those of interfaces with a tap.
abbrev pub last_reply : Main → Option Next → List Buffer → Option Next
last_reply m n [] = n
last_reply m n (b ∷ bs) =
    last_reply m (if fd_at m b.rx_sw_if_index == no_index then n else or_else (reply_of b.bytes) n)
      bs

abbrev pub SameTaps : Main → Main → Type 0
SameTaps m m' = (sw : ℕ) → fd_at m' sw ≡ fd_at m sw

neighbor_packet_tap :
    (b : Buffer) (l : Loop)
    → fd_at l.main b.rx_sw_if_index ≢ no_index
    → let next = or_else (reply_of b.bytes) l.next in
      ((neighbor_packet b l).next ≡ next)
      × ((neighbor_packet b l).log
          ≡ fate next (rewind b)
            ∷ writev (fd_at l.main b.rx_sw_if_index) b.bi (rewind b).current_length
            ∷ l.log)
unfolding neighbor_packet
neighbor_packet_tap b l h = ground (arith, lookup_tap_fd_lem l.main b.rx_sw_if_index 0)

neighbor_packet-next :
    (b : Buffer) (l : Loop)
    → (neighbor_packet b l).next ≡ (
        if fd_at l.main b.rx_sw_if_index == no_index
        then l.next
        else or_else (reply_of b.bytes) l.next)
unfolding neighbor_packet
neighbor_packet-next b l = ground (arith, lookup_tap_fd_lem l.main b.rx_sw_if_index 0)

neighbor_packet-SameTaps : (b : Buffer) (l : Loop) → SameTaps l.main (neighbor_packet b l).main
unfolding neighbor_packet
neighbor_packet-SameTaps b l sw = ground (arith, lookup_tap_fd_lem l.main b.rx_sw_if_index sw)

neighbor_loop-next :
    (m : Main) (bs : List Buffer) (l : Loop)
    → SameTaps m l.main
    → ((neighbor_loop bs l).next ≡ last_reply m l.next bs) × SameTaps m (neighbor_loop bs l).main
unfolding neighbor_loop
neighbor_loop-next m [] l e = (refl, e)
neighbor_loop-next m (b ∷ bs) l e =
    let ih =
      neighbor_loop-next m bs (neighbor_packet b l)
        (λ sw. neighbor_packet-SameTaps b l sw ∙ e sw) in
    (
      ih.0
          ∙ ap (λ n. last_reply m n bs)
              (neighbor_packet-next b l
                ∙ ap
                    (λ (fd : ℕ).
                      if fd == no_index then l.next else or_else (reply_of b.bytes) l.next)
                    (e b.rx_sw_if_index)),
      ih.1,
    )

neighbor_loop-append :
    (xs ys : List Buffer) (l : Loop)
    → neighbor_loop (xs ++ ys) l ≡ neighbor_loop ys (neighbor_loop xs l)
unfolding neighbor_loop
neighbor_loop-append [] ys l = refl
neighbor_loop-append (x ∷ xs) ys l = neighbor_loop-append xs ys (neighbor_packet x l)

-- A packet of an interface with a tap is written to that tap from its Ethernet header on. It is then
-- passed to the node of the last reply that the frame had up to it, its own included; if there was
-- none, it is freed.
pub neighbor-last_reply :
    (pre : List Buffer) (b : Buffer) (m : Main)
    → fd_at m b.rx_sw_if_index ≢ no_index
    → (neighbor (pre ++ b ∷ []) m).log
      ≡ fate (or_else (reply_of b.bytes) (last_reply m none pre)) (rewind b)
        ∷ writev (fd_at m b.rx_sw_if_index) b.bi (rewind b).current_length
        ∷ (neighbor pre m).log
unfolding neighbor
neighbor-last_reply pre b m h =
    let start : Loop = record { main = m; next = none; log = [] } in
    let before = neighbor_loop-next m pre start (λ sw. refl) in
    ap (λ (l : Loop). l.log) (neighbor_loop-append pre (b ∷ []) start)
    ∙ unfold neighbor_loop in
      ((neighbor_packet_tap b (neighbor_loop pre start)
          (λ e. h (sym (before.1 b.rx_sw_if_index) ∙ e))).1
        ∙ rw (before.0, before.1 b.rx_sw_if_index))

-- A packet that is no reply is passed to a neighbour node all the same, and not freed, if an earlier
-- packet of the frame was a reply.
pub neighbor_sticky :
    (pre : List Buffer) (b : Buffer) (m : Main) {n : Next}
    → fd_at m b.rx_sw_if_index ≢ no_index
    → reply_of b.bytes ≡ none
    → last_reply m none pre ≡ some n
    → (neighbor (pre ++ b ∷ []) m).log
      ≡ enqueue n (past_ethernet (rewind b))
        ∷ writev (fd_at m b.rx_sw_if_index) b.bi (rewind b).current_length
        ∷ (neighbor pre m).log
neighbor_sticky pre b m h r l = neighbor-last_reply pre b m h ∙ rw (r, l)
