-- ===== src/Panic.antt =====
-- src/rust/src/panic.rs: the panic hook that stays quiet for errors meant for the user.
pub mod Hook
mod Tests
use icebergr.Prelude.{
  ℕ, List, [], ◌∷◌, map, Bool, true, false, not, ◌&&◌, ◌||◌, Option, none, some, ◌==◌,
  if◌then◌else◌,
}
use icebergr.Prelude.Text.{Text, codes, starts_with, contains, ends_with}

-- What `downcast_ref` finds in a payload.
pub data Payload : Type 0 where
  str string : Text → Payload
  other : Payload

pub record PanicInfo : Type 0 where
  -- the file of `location()`
  pub file : Option Text
  pub payload : Payload

-- `RUST_BACKTRACE` and `ICEBERGR_RUST_PANIC_TRACE`: whether each is set.
pub record Environment : Type 0 where
  pub rust_backtrace : Bool
  pub panic_trace : Bool

unfoldable pub wants_full_report : Environment → Bool
wants_full_report env = env.rust_backtrace || env.panic_trace

-- `replace('\\', "/")`
abbrev with_slashes : Text → Text
with_slashes [] = []
with_slashes (c ∷ s) = (if c == b'\\' then b'/' else c) ∷ with_slashes s

unfoldable pub is_error_conversion : PanicInfo → Bool
is_error_conversion info = elim info.file [
  | some file ↦
      contains (codes "extendr-api") (with_slashes file)
      && ends_with (codes "/robj/into_robj.rs") (with_slashes file)
  | none ↦ false
]

abbrev pub deliberate : Text
deliberate = codes "icebergr: "

unfoldable pub is_deliberate_message : Option Text → Bool
is_deliberate_message none = false
is_deliberate_message (some m) = starts_with deliberate m

abbrev pub payload_text : Payload → Option Text
payload_text (Payload.str s) = some s
payload_text (Payload.string s) = some s
payload_text Payload.other = none

unfoldable pub is_deliberate_abort : PanicInfo → Bool
unfolding is_deliberate_message
is_deliberate_abort info = is_deliberate_message (payload_text info.payload)

-- A hook, as whether it reports a panic.
abbrev pub Hook : Type 0
Hook = Environment → PanicInfo → Bool

-- `INSTALLED` and the hook of the process.
pub record Hooks : Type 0 where
  pub installed : Bool
  pub hook : Hook

unfoldable pub quiet_hook : Hook → Hook
unfolding is_error_conversion is_deliberate_abort wants_full_report
quiet_hook previous env info =
    let quiet = is_error_conversion info || is_deliberate_abort info in
    if wants_full_report env || not quiet then previous env info else false

unfoldable pub install : Hooks → Hooks
unfolding quiet_hook
install h = if h.installed then h else record { installed = true; hook = quiet_hook h.hook }
