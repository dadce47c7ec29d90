-- ===== src/Router/Node/Tx.antt =====
-- The packets that router/router/tap_inject_node.c sends to the taps.
use vppsb.Common.{
  ◌≡◌, refl, sym, ap, ◌∙◌, List, [], ◌∷◌, ◌++◌, map, arith, ◌==◌, if◌then◌else◌, no_index,
}
use vppsb.Router.{Main}
use vppsb.Router.Tables.{fd_at, lookup_tap_fd_lem}
use vppsb.Router.Node.{Buffer, Effect, writev, free, rewind, tx_packet, tx_loop, free_all, tx}
use vppsb.Router.Node.Frames.{indices, onto, SameTaps}

-- The packets of interfaces with a tap.
abbrev pub tapped : Main → List Buffer → List Buffer
tapped m [] = []
tapped m (b ∷ bs) =
    let rest = tapped m bs in if fd_at m b.rx_sw_if_index == no_index then rest else b ∷ rest

abbrev pub writes : Main → List Buffer → List Effect
writes m = map λ b. writev (fd_at m b.rx_sw_if_index) b.bi (rewind b).current_length

tx_packet_lem :
    (b : Buffer) (m : Main) (log : List Effect)
    → ((tx_packet b (m, log)).1 ≡ onto (writes m (tapped m (b ∷ []))) log)
      × SameTaps m (tx_packet b (m, log)).0
unfolding tx_packet
tx_packet_lem b m log = (
  ground (arith, lookup_tap_fd_lem m b.rx_sw_if_index 0),
  λ sw. ground (arith, lookup_tap_fd_lem m b.rx_sw_if_index sw),
)

writes-SameTaps :
    (m m' : Main) (bs : List Buffer)
    → SameTaps m m'
    → writes m' (tapped m' bs) ≡ writes m (tapped m bs)
writes-SameTaps m m' [] e = refl
writes-SameTaps m m' (b ∷ bs) e = ground (arith, e b.rx_sw_if_index, writes-SameTaps m m' bs e)

onto-append {ℓ} : {A : Type ℓ} (xs ys zs : List A) → onto (xs ++ ys) zs ≡ onto ys (onto xs zs)
onto-append [] ys zs = refl
onto-append (x ∷ xs) ys zs = onto-append xs ys (x ∷ zs)

writes-cons :
    (m : Main) (b : Buffer) (bs : List Buffer)
    → writes m (tapped m (b ∷ bs)) ≡ writes m (tapped m (b ∷ [])) ++ writes m (tapped m bs)
writes-cons m b bs = ground arith

tx_loop_lem :
    (m : Main) (bs : List Buffer) (log : List Effect)
    → (tx_loop bs (m, log)).1 ≡ onto (writes m (tapped m bs)) log
unfolding tx_loop
tx_loop_lem m [] log = refl
tx_loop_lem m (b ∷ bs) log =
    let step = tx_packet_lem b m log in
    tx_loop_lem (tx_packet b (m, log)).0 bs (tx_packet b (m, log)).1
    ∙ rw (writes-SameTaps m (tx_packet b (m, log)).0 bs step.1, step.0, writes-cons m b bs)
        (sym (onto-append (writes m (tapped m (b ∷ []))) (writes m (tapped m bs)) log))

free_all-onto :
    (bs : List Buffer) (log : List Effect) → free_all bs log ≡ onto (map free (indices bs)) log
unfolding free_all
free_all-onto [] log = refl
free_all-onto (b ∷ bs) log = free_all-onto bs (free b.bi ∷ log)

-- The packets of a frame whose interfaces have a tap are written to these taps from their Ethernet
-- headers on, in order, and then every packet of the frame is freed.
pub tx_lem :
    (bs : List Buffer) (m : Main)
    → (tx bs m).1 ≡ onto (map free (indices bs)) (onto (writes m (tapped m bs)) [])
unfolding tx
tx_lem bs m =
    free_all-onto bs (tx_loop bs (m, [])).1
    ∙ ap (onto (map free (indices bs))) (tx_loop_lem m bs [])
