-- ===== src/Router/Control.antt =====
-- router/router/tap_inject.c: when the router is on, and the interfaces that wait for a tap.
-- What the system calls of tap_inject_tap_connect return is a parameter, one for each interface, and
-- so is which interfaces are Ethernet.
pub mod Switching
use vppsb.Common.{
  ℕ, Bool, true, false, ◌&&◌, not, Option, none, some, List, [], ◌∷◌, ◌++◌, if◌then◌else◌, map,
}
use vppsb.Router.{
  Flags, Main, is_enabled, is_config_enabled, is_config_disabled,
  lookup_sw_if_index_from_tap_if_index,
}
use vppsb.Router.Tap.{
  netlink_open, register_protocols, interrupt_iface, Error, isr_fails, config_disabled,
  both_configured, syntax_error, TapKernel, Ctx, emit, tap_connect, tap_disconnect,
}

abbrev with_main : (Main → Main) → Ctx → Ctx
with_main f c = record c { main = f c.main }

abbrev set_enabled : Bool → Main → Main
set_enabled b m = record m { flags = record flags { enabled = b } }
  where
    open m use {flags}

abbrev set_config_enable : Bool → Main → Main
set_config_enable b m = record m { flags = record flags { config_enable = b } }
  where
    open m use {flags}

abbrev set_config_disable : Bool → Main → Main
set_config_disable b m = record m { flags = record flags { config_disable = b } }
  where
    open m use {flags}

abbrev set_config_netlink : Bool → Main → Main
set_config_netlink b m = record m { flags = record flags { config_netlink = b } }
  where
    open m use {flags}

pub disable : Ctx → Ctx
disable c = with_main (set_enabled false) c

-- `register_protocols` stands for the registrations of nodes and the route of 224.0.0.0/24.
pub enable : Ctx → Ctx
enable c =
    if is_enabled c.main
    then c
    else if c.main.flags.config_netlink
    then with_main (set_enabled true) (emit netlink_open c)
    else with_main (set_enabled true) (emit register_protocols (emit netlink_open c))

-- The queues of interfaces; `add` chooses between them.
abbrev queue : Bool → List ℕ → Main → Main
queue add hws m =
    if add
    then record m { interfaces_to_enable = interfaces_to_enable ++ hws }
    else record m { interfaces_to_disable = interfaces_to_disable ++ hws }
  where
    open m use {interfaces_to_enable, interfaces_to_disable}

abbrev free_queues : Main → Main
free_queues m = record m { interfaces_to_enable = []; interfaces_to_disable = [] }

pub interface_add_del : ℕ → Bool → Ctx → Ctx
unfolding enable
interface_add_del hw_if_index add c =
    if is_config_enabled c.main
    then emit interrupt_iface (with_main (queue add (hw_if_index ∷ [])) (enable c))
    else c

-- The lines of the hash, in the order `keys` in which it is walked.
pub data Shown : Type 0 where
  is_disabled not_enabled : Shown
  taps : List (ℕ × ℕ) → Shown

pub show : List ℕ → Main → Shown
show keys m =
    if is_config_disabled m
    then is_disabled
    else if is_enabled m
    then taps (map (λ k. (k, lookup_sw_if_index_from_tap_if_index m k)) keys)
    else not_enabled

-- A word of the startup configuration.
pub data Token : Type 0 where
  enable_word disable_word netlink_only other : Token

both : Main → Main × Option Error
both m =
    if is_config_enabled m && is_config_disabled m then (m, some both_configured) else (m, none)

unfoldable pub config : List Token → Main → Main × Option Error
unfolding both
config [] m = both m
config (enable_word ∷ ts) m = config ts (set_config_enable true m)
config (disable_word ∷ ts) m = config ts (set_config_disable true m)
config (netlink_only ∷ ts) m = config ts (set_config_netlink true m)
config (other ∷ ts) m = (m, some syntax_error)

unfoldable pub disconnect_all : List ℕ → Ctx → Ctx
disconnect_all [] c = c
disconnect_all (hw ∷ hws) c = disconnect_all hws (tap_disconnect hw c).0

isr_result : Ctx × Option Error → Ctx × Option Error
isr_result (c, none) = (c, none)
isr_result (c, some e) = (c, some isr_fails)

module _ (kernel : ℕ → TapKernel) (is_ethernet : ℕ → Bool) where
  unfoldable pub connect_all : List ℕ → Ctx → Ctx × Option Error
  connect_all [] c = (c, none)
  connect_all (hw ∷ hws) c =
      let rest = connect_all hws in
      let (c', err) = tap_connect (kernel hw) hw c in
      if is_ethernet hw then elim err [ none ↦ rest c' | some e ↦ (c', some e) ] else rest c

  pub iface_isr : Ctx → Ctx × Option Error
  iface_isr c =
      let (c', err) = connect_all c.main.interfaces_to_enable c in
      (with_main free_queues (disconnect_all c'.main.interfaces_to_disable c'), err)

  -- `hws` are the indices of all hardware interfaces.
  pub enable_disable_all : List ℕ → Bool → Ctx → Ctx × Option Error
  unfolding iface_isr enable disable isr_result
  enable_disable_all hws on c =
      isr_result (iface_isr (with_main (queue on hws) (if on then enable c else disable c)))

  enabled_by : List ℕ → Ctx × Option Error → Ctx × Option Error
  unfolding enable_disable_all
  enabled_by hws (c, none) = (with_main (set_config_enable true) c, none)
  enabled_by hws (c, some e) = ((enable_disable_all hws false c).0, some e)

  -- The commands "enable tap-inject" and "disable tap-inject".
  pub cli : List ℕ → Bool → Ctx → Ctx × Option Error
  unfolding enable_disable_all enabled_by
  cli hws true c =
      if is_config_disabled c.main
      then (c, some config_disabled)
      else enabled_by hws (enable_disable_all hws true c)
  cli hws false c = (with_main (set_config_enable false) (enable_disable_all hws false c).0, none)
