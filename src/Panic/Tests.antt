-- ===== src/Panic/Tests.antt =====
-- The hook's theorems at concrete inputs.
use icebergr.Prelude.{◌≡◌, refl, true, false, none, some}
use icebergr.Prelude.Text.{codes}
use icebergr.Panic.{
  Payload, PanicInfo, Environment, Hook, Hooks, install, is_error_conversion, is_deliberate_abort,
}

abbrev loud : Hook
loud env info = true

abbrev fresh : Hooks
fresh = record { installed = false; hook = loud }

abbrev quiet_environment : Environment
quiet_environment = record { rust_backtrace = false; panic_trace = false }

abbrev index_panic : PanicInfo
index_panic = record {
  file = some (codes "src/x.rs");
  payload = Payload.str (codes "out of bounds");
}

abbrev interrupt_panic : PanicInfo
interrupt_panic = record { file = none; payload = Payload.string (codes "icebergr: interrupted") }

other_panics_are_reported : (install fresh).hook quiet_environment index_panic ≡ true
unfolding install is_error_conversion is_deliberate_abort
other_panics_are_reported = refl

interrupts_are_not : (install fresh).hook quiet_environment interrupt_panic ≡ false
unfolding install is_error_conversion is_deliberate_abort
interrupts_are_not = refl
