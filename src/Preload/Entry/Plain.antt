-- ===== src/Preload/Entry/Plain.antt =====
-- The calls of vcl-ldpreload/src/libvcl-ldpreload/vcom.c that change no table of the sockets.
-- What the C library answers for a descriptor of its own is `libc`, `ok` whether vppcom_app_create
-- succeeds; the other arguments are those of the function of vcom_socket.c.
use vppsb.Common.{ℕ, Bool, true, false, Option, none, some, List, if◌then◌else◌}
use vppsb.Pool.{PoolLib}
use vppsb.Vcom.{Rv, err, Main, is_vcom_fd}
use vppsb.Vcom.Poll.{VecLib}
use vppsb.Vcom.Io
use vppsb.Vcom.Io.{Session}
use vppsb.Vcom.Io.Datagrams.{sendto, recvfrom}
use vppsb.Preload.Entry.{Answer, posted, Program, vcom_init, called, seen}

module _ (lib : PoolLib) (vec : VecLib) (closes : ℕ → Rv) where
  -- What a function of vcom_socket.c answers from the tables.
  unfoldable pub asked :
      Bool → (Main lib → Rv) → Program lib vec closes → Program lib vec closes × Rv
  unfolding called
  asked ok f p = called lib vec closes ok (λ m. (m, f m)) p

  -- The shape of these calls, with the test for errors.
  unfoldable pub plain :
      (Rv → Answer)
      → Bool
      → ℕ
      → (Main lib → Rv)
      → Answer
      → Program lib vec closes
      → Program lib vec closes × Answer
  unfolding asked
  plain test ok fd f libc p =
      if is_vcom_fd lib p.main fd then seen lib vec closes test (asked ok f p) else (p, libc)

  abbrev with_init? :
      (Main lib → Option Rv) → Program lib vec closes × Bool → Option (Program lib vec closes × Rv)
  with_init? f (p, false) = some (p, err 1)
  with_init? f (p, true) = elim (f p.main) [ none ↦ none | some rv ↦ some (p, rv) ]

  -- With a function that may wait for ever.
  abbrev pub seen? : Option (Program lib vec closes × Rv) → Option (Program lib vec closes × Answer)
  seen? none = none
  seen? (some r) = some (seen lib vec closes posted r)

  unfoldable pub waiting :
      Bool
      → ℕ
      → (Main lib → Option Rv)
      → Answer
      → Program lib vec closes
      → Option (Program lib vec closes × Answer)
  unfolding vcom_init
  waiting ok fd f libc p =
      if is_vcom_fd lib p.main fd
      then seen? (with_init? f (vcom_init lib vec closes ok p))
      else some (p, libc)

  unfoldable pub read_call :
      Bool
      → ℕ
      → Bool
      → ℕ
      → Rv
      → Session
      → Answer
      → Program lib vec closes
      → Option (Program lib vec closes × Answer)
  unfolding waiting
  read_call ok fd has_buf len getfl fs = waiting ok fd (λ m. Io.read lib m fd has_buf len getfl fs)

  unfoldable pub readv_call :
      Bool
      → ℕ
      → Bool
      → List ℕ
      → Rv
      → Session
      → Answer
      → Program lib vec closes
      → Option (Program lib vec closes × Answer)
  unfolding waiting
  readv_call ok fd has_iov ls getfl fs = waiting ok fd (λ m. Io.readv lib m fd has_iov ls getfl fs)

  unfoldable pub write_call :
      Bool
      → ℕ
      → Bool
      → ℕ
      → Session
      → Answer
      → Program lib vec closes
      → Option (Program lib vec closes × Answer)
  unfolding waiting
  write_call ok fd has_buf len fs = waiting ok fd (λ m. Io.write lib m fd has_buf len fs)

  -- Without what is sent.
  abbrev only_rv : {A : Type 0} → Option (Rv × A) → Option Rv
  only_rv none = none
  only_rv (some (rv, a)) = some rv

  unfoldable pub writev_call :
      Bool
      → ℕ
      → Bool
      → List (List ℕ)
      → Session
      → Answer
      → Program lib vec closes
      → Option (Program lib vec closes × Answer)
  unfolding waiting
  writev_call ok fd has_iov bs fs = waiting ok fd (λ m. only_rv (Io.writev lib m fd has_iov bs fs))

  unfoldable pub sendto_call :
      Bool
      → ℕ
      → Bool
      → ℕ
      → Option ℕ
      → ℕ
      → Rv
      → Session
      → Answer
      → Program lib vec closes
      → Option (Program lib vec closes × Answer)
  unfolding waiting
  sendto_call ok fd has_buf n addr addr_len mode fs =
      waiting ok fd (λ m. sendto lib m fd has_buf n addr addr_len mode fs)

  -- `n` is an int.
  unfoldable pub send_call :
      Bool
      → ℕ
      → Bool
      → ℕ
      → Rv
      → Session
      → Answer
      → Program lib vec closes
      → Option (Program lib vec closes × Answer)
  unfolding waiting
  send_call ok fd has_buf n mode fs =
      waiting ok fd (λ m. Io.Datagrams.send lib m fd has_buf n mode fs)

  unfoldable pub recvfrom_call :
      Bool
      → ℕ
      → Bool
      → ℕ
      → Bool
      → Session
      → Answer
      → Program lib vec closes
      → Option (Program lib vec closes × Answer)
  unfolding waiting
  recvfrom_call ok fd has_buf n has_addr fs =
      waiting ok fd (λ m. recvfrom lib m fd has_buf n has_addr fs)

  unfoldable pub recv_call :
      Bool
      → ℕ
      → Bool
      → ℕ
      → Session
      → Answer
      → Program lib vec closes
      → Option (Program lib vec closes × Answer)
  unfolding waiting
  recv_call ok fd has_buf n fs = waiting ok fd (λ m. Io.Datagrams.recv lib m fd has_buf n fs)
