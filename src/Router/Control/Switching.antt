-- ===== src/Router/Control/Switching.antt =====
-- What the commands and callbacks of router/router/tap_inject.c make of the flags and the queues.
use vppsb.Common.{
  ℕ, ◌≡◌, refl, ap, ◌∙◌, ◌⊎◌, inl, inr, Bool, true, false, ◌&&◌, none, some, List, [], ◌∷◌, arith,
  Option, if◌then◌else◌,
}
use vppsb.Router.{Main}
use vppsb.Router.Tap.Connect.{tap_connect-flags, tap_disconnect-flags}
use vppsb.Router.Tap.{Error, Ctx, TapKernel, isr_fails, tap_connect, tap_disconnect}
use vppsb.Router.Control.{
  Token, enable, disable, config, connect_all, disconnect_all, iface_isr, enable_disable_all, cli,
  isr_result, enabled_by, with_main, queue,
}

-- The router is switched on once: a second time opens nothing and registers nothing.
pub enable-enable : (c : Ctx) → enable (enable c) ≡ enable c
unfolding enable
enable-enable c = ground arith

-- A configuration that is accepted does not have the router both on and off.
pub config_accepts :
    (ts : List Token) (m : Main)
    → (config ts m).1 ≡ none
    → ((config ts m).0.flags.config_enable && (config ts m).0.flags.config_disable) ≡ false
unfolding config
config_accepts [] m h = ground arith
config_accepts (Token.enable_word ∷ ts) m h = config_accepts ts _ h
config_accepts (Token.disable_word ∷ ts) m h = config_accepts ts _ h
config_accepts (Token.netlink_only ∷ ts) m h = config_accepts ts _ h
config_accepts (Token.other ∷ ts) m h = ground arith

connect_all-flags :
    (kernel : ℕ → TapKernel) (is_ethernet : ℕ → Bool) (hws : List ℕ) (c : Ctx)
    → (connect_all kernel is_ethernet hws c).0.main.flags ≡ c.main.flags
unfolding connect_all
connect_all-flags kernel is_ethernet [] c = refl
connect_all-flags kernel is_ethernet (hw ∷ hws) c = ground (
  arith,
  tap_connect-flags (kernel hw) hw c,
  connect_all-flags kernel is_ethernet hws c,
  connect_all-flags kernel is_ethernet hws (tap_connect (kernel hw) hw c).0,
)

disconnect_all-flags : (hws : List ℕ) (c : Ctx) → (disconnect_all hws c).main.flags ≡ c.main.flags
unfolding disconnect_all
disconnect_all-flags [] c = refl
disconnect_all-flags (hw ∷ hws) c =
    disconnect_all-flags hws (tap_disconnect hw c).0 ∙ tap_disconnect-flags hw c

iface_isr-flags :
    (kernel : ℕ → TapKernel) (is_ethernet : ℕ → Bool) (c : Ctx)
    → (iface_isr kernel is_ethernet c).0.main.flags ≡ c.main.flags
unfolding iface_isr
iface_isr-flags kernel is_ethernet c =
    disconnect_all-flags _ _ ∙ connect_all-flags kernel is_ethernet _ c

iface_isr-queues :
    (kernel : ℕ → TapKernel) (is_ethernet : ℕ → Bool) (c : Ctx)
    → ((iface_isr kernel is_ethernet c).0.main.interfaces_to_enable ≡ [])
      × ((iface_isr kernel is_ethernet c).0.main.interfaces_to_disable ≡ [])
unfolding iface_isr
iface_isr-queues kernel is_ethernet c = (refl, refl)

isr_result_lem :
    (r : Ctx × Option Error)
    → ((isr_result r).0 ≡ r.0) × (((isr_result r).1 ≡ none) ⊎ ((isr_result r).1 ≡ some isr_fails))
unfolding isr_result
isr_result_lem (c, none) = (refl, inl refl)
isr_result_lem (c, some e) = (refl, inr refl)

starting : List ℕ → Bool → Ctx → Ctx
unfolding enable disable
starting hws on c = with_main (queue on hws) (if on then enable c else disable c)

starting-flags :
    (hws : List ℕ) (on : Bool) (c : Ctx)
    → ((starting hws on c).main.flags.enabled ≡ on)
      × ((starting hws on c).main.flags.config_enable ≡ c.main.flags.config_enable)
unfolding starting enable disable
starting-flags hws false c = (refl, refl)
starting-flags hws true c = ground arith

-- What switching all interfaces leaves.
enable_disable_all_lem :
    (kernel : ℕ → TapKernel) (is_ethernet : ℕ → Bool) (hws : List ℕ) (on : Bool) (c : Ctx)
    → let r = enable_disable_all kernel is_ethernet hws on c in
      ((r.1 ≡ none) ⊎ (r.1 ≡ some isr_fails))
      × (r.0.main.flags.enabled ≡ on)
      × (r.0.main.flags.config_enable ≡ c.main.flags.config_enable)
      × (r.0.main.interfaces_to_enable ≡ [])
      × (r.0.main.interfaces_to_disable ≡ [])
unfolding enable_disable_all starting
enable_disable_all_lem kernel is_ethernet hws on c =
    let r = isr_result_lem (iface_isr kernel is_ethernet (starting hws on c)) in
    let f = iface_isr-flags kernel is_ethernet (starting hws on c) in
    let q = iface_isr-queues kernel is_ethernet (starting hws on c) in
    let s = starting-flags hws on c in
    (
      r.1,
      ap (λ c. c.main.flags.enabled) r.0 ∙ ap (λ f. f.enabled) f ∙ s.0,
      ap (λ c. c.main.flags.config_enable) r.0 ∙ ap (λ f. f.config_enable) f ∙ s.1,
      ap (λ c. c.main.interfaces_to_enable) r.0 ∙ q.0,
      ap (λ c. c.main.interfaces_to_disable) r.0 ∙ q.1,
    )

-- What the commands leave of the flags and the queues, where the configuration does not disable the
-- router: it is on where an "enable" succeeds,
-- and off after a "disable" and where an "enable" fails; no interface is left waiting.
pub cli_lem :
    (kernel : ℕ → TapKernel) (is_ethernet : ℕ → Bool) (hws : List ℕ) (on : Bool) (c : Ctx)
    → c.main.flags.config_disable ≡ false
    → let r = cli kernel is_ethernet hws on c in
      ((r.1 ≡ none) × (r.0.main.flags.enabled ≡ on) × (r.0.main.flags.config_enable ≡ on)
        ⊎ (on ≡ true)
          × (r.1 ≡ some isr_fails)
          × (r.0.main.flags.enabled ≡ false)
          × (r.0.main.flags.config_enable ≡ c.main.flags.config_enable))
      × (r.0.main.interfaces_to_enable ≡ [])
      × (r.0.main.interfaces_to_disable ≡ [])
unfolding cli enabled_by
cli_lem kernel is_ethernet hws false c h =
    ground (arith, enable_disable_all_lem kernel is_ethernet hws false c)
cli_lem kernel is_ethernet hws true c h = ground (
  arith,
  enable_disable_all_lem kernel is_ethernet hws true c,
  enable_disable_all_lem kernel is_ethernet hws false
      (enable_disable_all kernel is_ethernet hws true c).0,
)
