-- ===== src/Vcom/Tests.antt =====
-- Sockets and epoll instances of vcl-ldpreload/src/libvcl-ldpreload/vcom_socket.c at concrete inputs.
use vppsb.Common.{
  ℕ, zero, suc, ◌-◌, ◌^◌, ◌≡◌, ◌≤◌, refl, Bool, true, false, ◌&&◌, ◌||◌, not, none, some, List, [],
  ◌∷◌, ◌==◌, if◌then◌else◌, ltb, arith,
}
use vppsb.Pool.Slots.{slots}
use vppsb.Vcom.{
  Rv, ret, err, vcom_socket, Event, Main, vppcom_bound, is_vcom_fd, check_socket, socket_checked,
  get_sid, hash_set,
}
use vppsb.Vcom.Poll.Vectors.{vectors}
use vppsb.Vcom.Poll.{add, del, entered, ctl_vepitem}
use vppsb.Vcom.Poll.Indexed.{IsIndexed, SameTables, SameTables-IsIndexed, entered-IsIndexed}
use vppsb.Vcom.Calls.{
  fresh, by_socket, by_epoll_create, by_epoll_ctl, by_close, IsWellFormed, initial,
}
use vppsb.Vcom.Calls.Kept.{initial-IsWellFormed, Reach-IsWellFormed}
use vppsb.Vcom.{Epoll, Socket, bound, fd_closed, session_closed}
use vppsb.Vcom.Destroy.{main_destroy}
use vppsb.Vcom.Destroy.Closed.{Has, main_destroy-closes}
use vppsb.Vcom.Open.{socket, epoll_create1}
use vppsb.Vcom.Close.{close, close_vsock}
use vppsb.Vcom.Close.Epolls.{IsEpollKeyed, epoll_of, after_leave}
use vppsb.Vcom.Close.Leaves.{registers}
use vppsb.Vcom.Close.Sockets.{IsSocketKeyed, close_vsock-epoll_of}
use vppsb.Vcom.Poll.{epoll_ctl}
use vppsb.Vcom.Poll.Interest.{ctl_entry, interest, Updates, ctl_vepitem-Updates}
use vppsb.Vcom.Poll.Count.{CountsItems, ctl_vepitem-CountsItems}
use vppsb.Vcom.Select.{Sets, SidSets, fd_set, span, counted, sids_of, fds_2_sid_fds, select}
use vppsb.Vcom.Select.Ready.{select-ready, select-all_ready}
use vppsb.Vcom.Open.Accept.{Address}
use vppsb.Vcom.Io.{write, readv, readv_fd, readv_wait}
use vppsb.Vcom.Io.Vectors.{IsHonest, sum, readv-bound}
use vppsb.Vcom.Io.Sent.{IsFull}

abbrev closes : ℕ → Rv
closes fd = ret 0

-- A readable descriptor.
abbrev readable : Event
readable = record { events = 1; user_data = 5 }

-- A socket 5 and an epoll instance 6, which waits to be closed with its one member.
abbrev opened : Bool → ℕ → Main slots
opened closing count = record (initial slots vectors closes) {
  vsockets = slots.write (slots.empty _) 0 (record { fd = 5; sid = 7; type = vppcom_bound });
  sockidx_by_fd = hash_set (λ fd. none) 5 0;
  vepolls = slots.write (slots.empty _) 0 (record {
    epfd = 6;
    vep_idx = 3;
    type = vppcom_bound;
    flags = 0;
    count = count;
    close = closing;
  });
  epollidx_by_epfd = hash_set (λ epfd. none) 6 0;
}

opened-IsIndexed : (closing : Bool) (count : ℕ) → IsIndexed slots vectors (opened closing count)
opened-IsIndexed closing count =
    SameTables-IsIndexed slots vectors (initial slots vectors closes) (opened closing count)
      (refl, refl, refl, refl) (initial-IsWellFormed slots vectors closes).indexed

-- The socket is in the interest set of the instance.
abbrev watching : Main slots
watching = entered slots vectors 6 5 vcom_socket readable (opened true 1)

watching-IsIndexed : IsIndexed slots vectors watching
watching-IsIndexed =
    entered-IsIndexed slots vectors 6 5 vcom_socket readable (opened true 1)
      (opened-IsIndexed true 1) refl

watching-IsSocketKeyed : IsSocketKeyed slots closes watching
watching-IsSocketKeyed fd zero h = ground (arith, h)
watching-IsSocketKeyed fd (suc i) h = ground (arith, h)

watching-IsEpollKeyed : IsEpollKeyed slots closes watching
watching-IsEpollKeyed q zero h = ground (arith, h)
watching-IsEpollKeyed q (suc i) h = ground (arith, h)

abbrev closing_one : Epoll
closing_one = record {
  epfd = 6;
  vep_idx = 3;
  type = vppcom_bound;
  flags = 0;
  count = 1;
  close = true;
}

is_vcom_fd-watching : is_vcom_fd slots watching 5 ≡ true
unfolding is_vcom_fd check_socket socket_checked
is_vcom_fd-watching = refl

Reach-IsWellFormed_example :
    IsWellFormed slots vectors closes
      (close slots closes 5
        (epoll_ctl slots vectors 6 add 5 readable
          (ret 0)
          (epoll_create1 slots 0
            (ret 6)
            (ret 3)
            (socket slots 2 1
              (ret 5)
              (λ udp nonblocking. ret 7)
              (initial slots vectors closes)).0).0).0).0
Reach-IsWellFormed_example = Reach-IsWellFormed slots vectors closes (
    by_close 5 (
      by_epoll_ctl 6 add 5 readable (ret 0) (
        by_epoll_create 0 (ret 6) (ret 3)
          (by_socket 2 1 (ret 5) (λ udp nonblocking. ret 7) fresh))))

ctl_vepitem-Updates_example :
    ((ctl_vepitem slots vectors true 0 closing_one 6 del 5 vcom_socket readable watching).1
      ≡ (ctl_entry del readable (interest slots vectors watching 6 5)).1)
    × Updates slots vectors watching 6 5
        (ctl_entry del readable (interest slots vectors watching 6 5)).0
        (ctl_vepitem slots vectors true 0 closing_one 6 del 5 vcom_socket readable watching).0
ctl_vepitem-Updates_example =
    ctl_vepitem-Updates slots vectors 0 closing_one 6 del 5 vcom_socket readable watching
      watching-IsIndexed

ctl_vepitem-CountsItems_example :
    CountsItems slots vectors 0 6
      (ctl_vepitem slots vectors true 0 closing_one 6 del 5 vcom_socket readable watching).0
ctl_vepitem-CountsItems_example =
    ctl_vepitem-CountsItems slots vectors 0 closing_one 6 del 5 vcom_socket readable watching
      watching-IsIndexed refl (ground arith) refl

close_vsock-epoll_of_example :
    ((q : ℕ)
      → epoll_of slots closes (close_vsock slots closes 5 watching).0 q ≡ (
          if registers slots closes watching q 5
          then after_leave (epoll_of slots closes watching q)
          else epoll_of slots closes watching q))
    × SameTables slots vectors watching (close_vsock slots closes 5 watching).0
close_vsock-epoll_of_example =
    close_vsock-epoll_of slots closes vectors watching watching-IsIndexed watching-IsSocketKeyed
      watching-IsEpollKeyed 5 is_vcom_fd-watching

-- A session with seven bytes, then none for now.
abbrev session : List (ℕ → Rv)
session = (λ len. if ltb len 7 then ret len else ret 7) ∷ (λ len. err 11) ∷ []

halves-IsHonest : IsHonest ((λ len. ret len) ∷ (λ len. if ltb len 3 then ret len else ret 3) ∷ [])
halves-IsHonest = (λ l k h. ground (arith, h), (λ l k h. ground (arith, h), tt))

readv-bound_example : (7 ≤ sum (4 ∷ 4 ∷ [])) × (sum (4 ∷ 4 ∷ []) ≤ 2 ^ 63 - 1)
unfolding readv readv_fd readv_wait check_socket socket_checked
readv-bound_example =
    readv-bound slots watching 5 true (4 ∷ 4 ∷ []) (ret 0)
      ((λ len. ret len) ∷ (λ len. if ltb len 3 then ret len else ret 3) ∷ []) 7 halves-IsHonest refl

-- Two buffers, of which the session takes the first whole, and then fails.
abbrev buffers : List (List ℕ)
buffers = (1 ∷ 2 ∷ []) ∷ (3 ∷ []) ∷ []

abbrev failing : List (ℕ → Rv)
failing = (λ len. ret len) ∷ (λ len. err 32) ∷ []

failing-IsHonest : IsHonest failing
failing-IsHonest = (λ l k h. ground (arith, h), (λ l k h. ground (arith, h), tt))

failing-IsFull : IsFull failing
failing-IsFull = (λ l k h. ground (arith, h), (λ l k h. ground (arith, h), tt))

-- Descriptor 5 is waited for, to read and to write.
abbrev wanted : Sets
wanted = record { rd = λ i. i == 5; wr = λ i. i == 5; ex = λ i. false }

-- Session 7 can be read.
abbrev only_read : Sets
only_read = record { rd = λ i. i == 7; wr = λ i. false; ex = λ i. false }

abbrev wanted_sids : SidSets
wanted_sids = record {
  sets = record { rd = fd_set 7 (λ i. false); wr = fd_set 7 (λ i. false); ex = λ i. false };
  top = 8;
  count = 2;
}

wanted-asked : fds_2_sid_fds (get_sid slots watching) 6 wanted ≡ some wanted_sids
unfolding fds_2_sid_fds sids_of get_sid check_socket socket_checked
wanted-asked = refl

select-ready_example :
    (w' : Sets) × (select slots watching true 6 wanted
        (some (1, 500))
        (λ wait a. (ret 1, only_read))
      ≡ some (ret (counted w' (span 0 6)), w'))
    × ((x : ℕ)
        → w'.rd x ≡ (wanted.rd x && (not (ltb x 6) || only_read.rd (get_sid slots watching x))))
    × ((x : ℕ)
        → w'.wr x ≡ (wanted.wr x && (not (ltb x 6) || only_read.wr (get_sid slots watching x))))
    × ((x : ℕ)
        → w'.ex x ≡ (wanted.ex x && (not (ltb x 6) || only_read.ex (get_sid slots watching x))))
select-ready_example =
    select-ready slots watching 6 0 wanted only_read wanted_sids (some (1, 500))
      (λ wait a. (ret 1, only_read)) wanted-asked refl (ground arith)

select-all_ready_example :
    (w' : Sets) × (select slots watching true 6 wanted none (λ wait a. (ret 2, a.sets))
      ≡ some (ret (counted w' (span 0 6)), w'))
    × ((x : ℕ) → w'.rd x ≡ wanted.rd x)
    × ((x : ℕ) → w'.wr x ≡ wanted.wr x)
    × ((x : ℕ) → w'.ex x ≡ wanted.ex x)
select-all_ready_example =
    select-all_ready slots watching 6 1 wanted wanted_sids none (λ wait a. (ret 2, a.sets))
      wanted-asked refl (ground arith)

-- The state after the close of the socket.
abbrev shut : Main slots
shut = (close_vsock slots closes 5 watching).0

abbrev target_address : Address
target_address = record { family = 2; port = 80; ip = 10 ∷ 0 ∷ 0 ∷ 1 ∷ []; length = 16 }

abbrev seventh : Socket
seventh = record { fd = 5; sid = 7; type = vppcom_bound }

check_socket-watching : check_socket slots watching 5 ≡ bound 0 seventh
unfolding check_socket socket_checked
check_socket-watching = refl

main_destroy-closes_example :
    Has (fd_closed 5) (main_destroy slots vectors closes (λ e f. ret 0) watching).log
    × Has (session_closed 7) (main_destroy slots vectors closes (λ e f. ret 0) watching).log
    × (is_vcom_fd slots (main_destroy slots vectors closes (λ e f. ret 0) watching) 5 ≡ false)
main_destroy-closes_example =
    main_destroy-closes slots vectors closes (λ e f. ret 0) watching 5 0 seventh
      check_socket-watching
