-- ===== src/Router/Tap/Connect.antt =====
-- What router/router/tap_inject_tap.c does to descriptors and tables, on every path.
use vppsb.Common.{
  ℕ, ◌≡◌, ◌≢◌, refl, sym, ap, ◌⊎◌, false, ◌∙◌, none, some, List, [], ◌∷◌, arith, ◌==◌,
  if◌then◌else◌, no_index,
}
use vppsb.Router.{Main, insert_tap, delete_tap, lookup_tap_fd}
use vppsb.Router.Tap.{
  Effect, opened, closed, Error, disconnect_fails, TapKernel, Ctx, tap_connect, tap_disconnect,
}
use vppsb.Router.Tables.{fd_at, lookup_tap_fd_lem}
use vppsb.Router.Pairing.{IsPaired, Deletes, delete_tap_lem, lookup_tap_fd-IsPaired}

abbrev pub remove : ℕ → List ℕ → List ℕ
remove fd [] = []
remove fd (x ∷ xs) = if x == fd then xs else x ∷ remove fd xs

-- The descriptors that a log leaves open.
abbrev pub open_fds : List Effect → List ℕ
open_fds [] = []
open_fds (opened fd ∷ log) = fd ∷ open_fds log
open_fds (closed fd ∷ log) = remove fd (open_fds log)
open_fds (_ ∷ log) = open_fds log

-- A tap leaves the flags of the router as they are.
pub tap_connect-flags :
    (k : TapKernel) (hw : ℕ) (c : Ctx) → (tap_connect k hw c).0.main.flags ≡ c.main.flags
unfolding tap_connect insert_tap
tap_connect-flags k hw c = ground arith

pub tap_disconnect-flags : (hw : ℕ) (c : Ctx) → (tap_disconnect hw c).0.main.flags ≡ c.main.flags
unfolding tap_disconnect delete_tap lookup_tap_fd
tap_disconnect-flags hw c = ground arith

-- A tap that cannot be set up leaves no descriptor open, and the tables as they were, where the
-- socket that configures it has a descriptor of its own.
pub tap_connect_fails :
    (k : TapKernel) (hw : ℕ) (c : Ctx) (e : Error)
    → (k.tap_fd ≡ none) ⊎ (k.socket ≢ k.tap_fd)
    → (tap_connect k hw c).1 ≡ some e
    → ((tap_connect k hw c).0.main ≡ c.main)
      × (open_fds (tap_connect k hw c).0.log ≡ open_fds c.log)
unfolding tap_connect
tap_connect_fails k hw c e d h = ground arith

-- A tap that is set up is entered in the tables, and of all descriptors only its own stays open.
tap_connect_succeeds :
    (k : TapKernel) (hw : ℕ) (c : Ctx)
    → (tap_connect k hw c).1 ≡ none
    → (fd : ℕ) × (tif : ℕ) × (k.tap_fd ≡ some fd)
      × (k.get_index ≡ some tif)
      × ((tap_connect k hw c).0.main ≡ insert_tap c.main hw fd tif)
      × (open_fds (tap_connect k hw c).0.log ≡ fd ∷ open_fds c.log)
unfolding tap_connect
tap_connect_succeeds k hw c h = ground arith

-- An interface without a tap cannot be disconnected, and keeps its tables and descriptors.
pub tap_disconnect_missing :
    (sw sw' : ℕ) (c : Ctx)
    → fd_at c.main sw ≡ no_index
    → ((tap_disconnect sw c).1 ≡ some disconnect_fails)
      × ((tap_disconnect sw c).0.log ≡ c.log)
      × (fd_at (tap_disconnect sw c).0.main sw' ≡ fd_at c.main sw')
unfolding tap_disconnect
tap_disconnect_missing sw sw' c h = ground (arith, lookup_tap_fd_lem c.main sw sw')

-- The tap of an interface in paired tables is taken out of every table, and its descriptor closed.
tap_disconnect_succeeds :
    (sw : ℕ) (c : Ctx)
    → IsPaired c.main
    → fd_at c.main sw ≢ no_index
    → ((tap_disconnect sw c).1 ≡ none)
      × Deletes (lookup_tap_fd c.main sw).0 sw (tap_disconnect sw c).0.main
      × ((tap_disconnect sw c).0.log ≡ closed (fd_at c.main sw) ∷ c.log)
unfolding tap_disconnect
tap_disconnect_succeeds sw c p h =
    rw (connected, found.1) (refl, found.2, ap (λ fd. closed fd ∷ c.log) here.0)
  where
    here :
        ((lookup_tap_fd c.main sw).1 ≡ fd_at c.main sw)
        × (fd_at (lookup_tap_fd c.main sw).0 sw ≡ fd_at c.main sw)
    here = lookup_tap_fd_lem c.main sw sw

    connected : ((lookup_tap_fd c.main sw).1 == no_index) ≡ false
    connected = ground (arith, here)

    found :
        (m' : Main) × (delete_tap (lookup_tap_fd c.main sw).0 sw ≡ some m')
        × Deletes (lookup_tap_fd c.main sw).0 sw m'
    found =
        delete_tap_lem (lookup_tap_fd c.main sw).0 sw (lookup_tap_fd-IsPaired c.main sw p)
          (λ e. h (sym here.1 ∙ e))
