-- ===== src/Preload/Polling/Sockets.antt =====
-- vcom_select_impl of vcl-ldpreload/src/libvcl-ldpreload/vcom.c: the select of vcom_socket.c as the
-- polling loop calls it.
use vppsb.Common.{ℕ, ◌≡◌, sym, ap, ◌∙◌, true, Option, none, some}
use mathlib.Core.Path.{subst}
use vppsb.Pool.{PoolLib}
use vppsb.Vcom.{Rv, Main}
use vppsb.Vcom.Select.{Sets, SidSets, select}
use vppsb.Vcom.Select.Narrow.{select-Within}
use vppsb.Preload.Polling.Rounds.{Sub, Narrows}

-- A round in which vcom_socket_select answers: with a timeout of 0, and one of the sets not NULL, since
-- it is called with descriptors of VPP alone.
unfoldable pub vcom_select_impl :
    (lib : PoolLib) → Main lib → (Option ℕ → SidSets → Rv × Sets) → ℕ → Sets → Option (Rv × Sets)
vcom_select_impl lib m vppcom nfds w = select lib m true nfds w (some (0, 0)) vppcom

some_injective : {A : Type 0} {a b : A} → some a ≡ some b → a ≡ b
some_injective {a} e = ap (λ o. elim o [ none ↦ a | some x ↦ x ]) e

-- What the loop asks of VPP takes descriptors out of the sets, whatever vppcom answers.
vcom_select_impl-Narrows :
    (lib : PoolLib) (m : Main lib) (vppcom : Option ℕ → SidSets → Rv × Sets)
    (f : ℕ → Sets → Rv × Sets)
    → ((n : ℕ) (s : Sets) → vcom_select_impl lib m vppcom n s ≡ some (f n s))
    → Narrows f
unfolding vcom_select_impl
vcom_select_impl-Narrows lib m vppcom f h n s =
    subst (λ r. Sub r.1 s)
      (some_injective (sym (select-Within lib m n s (some (0, 0)) vppcom).1 ∙ h n s))
      (select-Within lib m n s (some (0, 0)) vppcom).2
