-- ===== src/Vcom/Select.antt =====
-- select of vcl-ldpreload/src/libvcl-ldpreload/vcom_socket.c, which asks vppcom by session ids and
-- answers by descriptors.
-- An fd_set is a function; a set that the caller leaves out has nothing in it, as its copy of
-- session ids has. Times are in microseconds.
pub mod Sids
pub mod Ready
pub mod Narrow
use vppsb.Common.{
  ℕ, zero, suc, ◌+◌, ◌*◌, ◌%◌, ◌^◌, Bool, true, false, ◌&&◌, ◌||◌, not, Option, none, some, List,
  [], ◌∷◌, ◌==◌, ltb, leb, if◌then◌else◌, no_index,
}
use vppsb.Pool.{PoolLib, is_some}
use vppsb.Vcom.{Rv, ret, err, einval, Main, get_sid}

abbrev pub FdSet : Type 0
FdSet = ℕ → Bool

abbrev pub fd_set : ℕ → FdSet → FdSet
fd_set i s j = i == j || s j

abbrev pub fd_clr : ℕ → FdSet → FdSet
fd_clr i s j = if i == j then false else s j

-- The read, write and except sets.
pub record Sets : Type 0 where
  pub rd : FdSet
  pub wr : FdSet
  pub ex : FdSet

-- The sets of session ids, one more than the largest id, and how often an id was added.
pub record SidSets : Type 0 where
  pub sets : Sets
  pub top : ℕ
  pub count : ℕ

abbrev pub ebadfd : ℕ
ebadfd = 77

-- The numbers from `fd` on.
abbrev pub span : ℕ → ℕ → List ℕ
span fd zero = []
span fd (suc k) = fd ∷ span (fd + 1) k

abbrev pub raised : ℕ → ℕ → ℕ
raised sid top = if ltb top (sid + 1) then sid + 1 else top

-- One set of one descriptor: nothing where the descriptor has no session.
abbrev pub put_rd : Bool → ℕ → SidSets → Option SidSets
put_rd false sid a = some a
put_rd true sid a =
    if sid == no_index
    then none
    else some (record {
      sets = record sets { rd = fd_set sid sets.rd };
      top = raised sid top;
      count = count + 1;
    })
  where
    open a use {sets, top, count}

abbrev pub put_wr : Bool → ℕ → SidSets → Option SidSets
put_wr false sid a = some a
put_wr true sid a =
    if sid == no_index
    then none
    else some (record {
      sets = record sets { wr = fd_set sid sets.wr };
      top = raised sid top;
      count = count + 1;
    })
  where
    open a use {sets, top, count}

abbrev pub put_ex : Bool → ℕ → SidSets → Option SidSets
put_ex false sid a = some a
put_ex true sid a =
    if sid == no_index
    then none
    else some (record {
      sets = record sets { ex = fd_set sid sets.ex };
      top = raised sid top;
      count = count + 1;
    })
  where
    open a use {sets, top, count}

abbrev pub then_put : Option SidSets → (SidSets → Option SidSets) → Option SidSets
then_put none f = none
then_put (some a) f = f a

unfoldable pub sids_of : (ℕ → ℕ) → Sets → List ℕ → SidSets → Option SidSets
sids_of sid w [] a = some a
sids_of sid w (fd ∷ fds) a =
    then_put
      (then_put (then_put (put_rd (w.rd fd) (sid fd) a) (put_wr (w.wr fd) (sid fd)))
        (put_ex (w.ex fd) (sid fd)))
      (sids_of sid w fds)

-- vcom_socket_fds_2_sid_fds over the descriptors below `nfds`.
unfoldable pub fds_2_sid_fds : (ℕ → ℕ) → ℕ → Sets → Option SidSets
unfolding sids_of
fds_2_sid_fds sid nfds w = sids_of sid w (span 0 nfds) (record {
  sets = record { rd = λ i. false; wr = λ i. false; ex = λ i. false };
  top = 0;
  count = 0;
})

abbrev pub kept : ℕ → ℕ → FdSet → FdSet → FdSet
kept fd sid s f = if s sid then f else fd_clr fd f

-- The first loop of vcom_socket_sid_fds_2_fds: a descriptor that is not ready is taken out. It stops
-- at a descriptor without a session.
pub cleared : (ℕ → ℕ) → Sets → List ℕ → Sets → Bool × Sets
cleared sid s [] w = (true, w)
cleared sid s (fd ∷ fds) w =
    let rest = cleared sid s fds (record {
      rd = if w.rd fd then kept fd (sid fd) s.rd w.rd else w.rd;
      wr = if w.wr fd then kept fd (sid fd) s.wr w.wr else w.wr;
      ex = if w.ex fd then kept fd (sid fd) s.ex w.ex else w.ex;
    }) in
    if (w.rd fd || w.wr fd || w.ex fd) && sid fd == no_index then (false, w) else rest

abbrev pub one_if : Bool → ℕ
one_if true = 1
one_if false = 0

-- Its second loop.
abbrev pub counted : Sets → List ℕ → ℕ
counted w [] = 0
counted w (fd ∷ fds) = one_if (w.rd fd) + one_if (w.wr fd) + one_if (w.ex fd) + counted w fds

abbrev pub readied : ℕ → Bool × Sets → Rv × Sets
readied nfds (false, w) = (err ebadfd, w)
readied nfds (true, w) = (ret (counted w (span 0 nfds)), w)

-- What vppcom_select returns, with the sets of session ids that are ready.
pub answered : (ℕ → ℕ) → ℕ → Sets → Rv × Sets → Rv × Sets
unfolding cleared
answered sid nfds w (err n, s) = (err n, w)
answered sid nfds w (ret zero, s) = (ret 0, w)
answered sid nfds w (ret (suc n), s) = readied nfds (cleared sid s (span 0 nfds) w)

abbrev pub asked : (ℕ → ℕ) → ℕ → Sets → (SidSets → Rv × Sets) → Option SidSets → Rv × Sets
unfolding answered
asked sid nfds w vppcom none = (err ebadfd, w)
asked sid nfds w vppcom (some a) = answered sid nfds w (vppcom a)

-- time_to_wait: the microseconds count twice.
abbrev pub time_to_wait : ℕ → ℕ → ℕ
time_to_wait sec usec = if sec == 0 && usec == 0 then 0 else sec * 1000000 + usec + usec % 1000000

-- A timeout that is NULL waits for ever.
abbrev pub wait_for : Option (ℕ × ℕ) → Option ℕ
wait_for none = none
wait_for (some (sec, usec)) = some (time_to_wait sec usec)

-- `some_set` is whether one of the sets is not NULL: else the count of ids is written to NULL, and
-- the program does not return. `nfds` is the 32 bits, `vppcom` is vppcom_select.
pub select :
    (lib : PoolLib)
    → Main lib
    → Bool
    → ℕ
    → Sets
    → Option (ℕ × ℕ)
    → (Option ℕ → SidSets → Rv × Sets)
    → Option (Rv × Sets)
unfolding fds_2_sid_fds answered
select lib m some_set nfds w timeout vppcom =
    if leb (2 ^ 31) nfds
    then some (err einval, w)
    else if not some_set
    then none
    else some (
        asked (get_sid lib m) nfds w (vppcom (wait_for timeout))
          (fds_2_sid_fds (get_sid lib m) nfds w))
