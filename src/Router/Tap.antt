-- ===== src/Router/Tap.antt =====
-- router/router/tap_inject_tap.c: the tap of an interface, from its creation to its end.
-- A handler takes what the system calls that it makes return, and logs what it does, newest first.
pub mod Connect
use vppsb.Common.{
  ℕ, Bool, true, false, Option, none, some, List, [], ◌∷◌, ◌++◌, ◌==◌, if◌then◌else◌, no_index,
}
use vppsb.Router.{Main, insert_tap, delete_tap, lookup_tap_fd}

pub data Effect : Type 0 where
  opened : ℕ → Effect
  closed : ℕ → Effect
  file_add : ℕ → Effect
  netlink_open : Effect
  register_protocols : Effect
  interrupt_iface : Effect
  interrupt_rx : Effect

pub data Error : Type 0 where
  open_fails create_fails nonblock_fails configure_fails hwaddr_fails index_fails : Error
  disconnect_fails isr_fails config_disabled both_configured syntax_error out_of_range : Error

-- What the calls of tap_inject_tap_connect return: the descriptors of the tap and of the socket
-- that configures it, whether each ioctl succeeds, and the index of the tap.
pub record TapKernel : Type 0 where
  pub tap_fd : Option ℕ
  pub tunsetiff : Bool
  pub fionbio : Bool
  pub socket : Option ℕ
  pub set_hwaddr : Bool
  pub get_index : Option ℕ

pub record Ctx : Type 0 where
  pub main : Main
  pub log : List Effect

abbrev pub emit : Effect → Ctx → Ctx
emit e c = record c { log = e ∷ c.log }

configured : TapKernel → ℕ → ℕ → ℕ → Option ℕ → Ctx → Ctx × Option Error
configured k sw tap_fd fd none c = (emit (closed fd) (emit (closed tap_fd) c), some index_fails)
configured k sw tap_fd fd (some ifr_ifindex) c = (
  record c {
    main = insert_tap c.main sw tap_fd ifr_ifindex;
    log = file_add tap_fd ∷ closed fd ∷ c.log;
  },
  none,
)

configure : TapKernel → ℕ → ℕ → Option ℕ → Ctx → Ctx × Option Error
unfolding configured
configure k sw tap_fd none c = (emit (closed tap_fd) c, some configure_fails)
configure k sw tap_fd (some fd) c =
    if k.set_hwaddr
    then configured k sw tap_fd fd k.get_index (emit (opened fd) c)
    else (emit (closed fd) (emit (closed tap_fd) (emit (opened fd) c)), some hwaddr_fails)

create : TapKernel → ℕ → Option ℕ → Ctx → Ctx × Option Error
unfolding configure
create k sw none c = (c, some open_fails)
create k sw (some tap_fd) c =
    if k.tunsetiff
    then if k.fionbio
      then configure k sw tap_fd k.socket (emit (opened tap_fd) c)
      else (emit (closed tap_fd) (emit (opened tap_fd) c), some nonblock_fails)
    else (emit (closed tap_fd) (emit (opened tap_fd) c), some create_fails)

-- The software interface of a hardware interface has the same index, as the code asserts.
unfoldable pub tap_connect : TapKernel → ℕ → Ctx → Ctx × Option Error
unfolding create
tap_connect k hw_if_index c = create k hw_if_index k.tap_fd c

deleted : ℕ → Option Main → Ctx → Ctx × Option Error
deleted tap_fd none c = (c, some out_of_range)
deleted tap_fd (some m) c = (record c { main = m; log = closed tap_fd ∷ c.log }, none)

-- `out_of_range` stands for an access outside of a table.
pub tap_disconnect : ℕ → Ctx → Ctx × Option Error
unfolding deleted
tap_disconnect sw_if_index c =
    let (m, tap_fd) = lookup_tap_fd c.main sw_if_index in
    if tap_fd == no_index
    then (record c { main = m }, some disconnect_fails)
    else deleted tap_fd (delete_tap m sw_if_index) (record c { main = m })

-- The read callback of a tap's file.
pub tap_read : ℕ → Ctx → Ctx
tap_read fd c =
    emit interrupt_rx (record c {
      main = record main { rx_file_descriptors = main.rx_file_descriptors ++ fd ∷ [] };
    })
  where
    open c use {main}
