-- ===== src/Core/Container/Tests.antt =====
-- The container at concrete inputs: a factory is a number, a service a pair of it and a serial.
use quant_stack.Prelude.{ℕ, ◌+◌, ◌*◌, ◌≡◌, refl}
use quant_stack.Prelude.Dict.{lookup, insert, remove}
use quant_stack.Core.Container.{Container, instance_, empty, register, resolve}

abbrev counted : ℕ → ℕ → ℕ × ℕ
counted f serial = (f * 100 + serial, serial + 1)

abbrev wired : Container ℕ ℕ
wired = register "EventBus" 4 empty

built : (resolve counted "EventBus" wired 7).0 ≡ instance_ 407
unfolding resolve register empty lookup insert remove
built = refl
