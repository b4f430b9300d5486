-- ===== src/Panic/Hook.antt =====
-- What the installed hook leaves out.
use icebergr.Prelude.{◌≡◌, true, false, arith, ◌⊎◌}
use icebergr.Panic.{
  PanicInfo, Environment, wants_full_report, is_error_conversion, is_deliberate_abort, Hook, Hooks,
  install,
}

-- A second call of `install` changes nothing, so the previous hook is wrapped once.
pub install_idem : (h : Hooks) → install (install h) ≡ install h
unfolding install
install_idem h = ground arith

-- The installed hook reports no error conversion and no deliberate abort, whatever the hook before it
-- did, unless a full report is asked for.
pub install-silences :
    (before : Hook) (env : Environment) (info : PanicInfo)
    → wants_full_report env ≡ false
    → (is_error_conversion info ≡ true) ⊎ (is_deliberate_abort info ≡ true)
    → (install (record { installed = false; hook = before })).hook env info ≡ false
unfolding install
install-silences before env info h k = ground arith
