-- ===== src/Reader/Aborted.antt =====
-- A wait that gives up while R pulls a batch: what R is told, and what is printed.
use icebergr.Prelude.{List, ◌∷◌, ◌≡◌, refl, true, false, Option, none, some, inr, err}
use icebergr.Prelude.Text.{Text}
use icebergr.Panic.{
  Environment, wants_full_report, is_deliberate_message, is_deliberate_abort, Hook, install,
}
use icebergr.Panic.Hook.{install-silences}
use icebergr.Runtime.{Abort}
use icebergr.Runtime.Aborts.{abort_text, abort_payload}
use icebergr.Reader.{Poll, ArrowError, panic_message, panic_report, next}

abort_text-is_deliberate_message :
    (reason : Text) (a : Abort) → is_deliberate_message (some (abort_text reason a)) ≡ true
unfolding is_deliberate_message abort_text
abort_text-is_deliberate_message reason Abort.forked = refl
abort_text-is_deliberate_message reason Abort.interrupted = refl
abort_text-is_deliberate_message reason (Abort.gave_up_after secs) = refl
abort_text-is_deliberate_message reason Abort.not_started = refl

abort_payload-is_deliberate_abort :
    (reason : Text) (a : Abort) (file : Option Text)
    → is_deliberate_abort (record { file = file; payload = abort_payload reason a }) ≡ true
unfolding is_deliberate_abort abort_payload
abort_payload-is_deliberate_abort reason Abort.forked file =
    abort_text-is_deliberate_message reason Abort.forked
abort_payload-is_deliberate_abort reason Abort.interrupted file =
    abort_text-is_deliberate_message reason Abort.interrupted
abort_payload-is_deliberate_abort reason (Abort.gave_up_after secs) file =
    abort_text-is_deliberate_message reason (Abort.gave_up_after secs)
abort_payload-is_deliberate_abort reason Abort.not_started file =
    abort_text-is_deliberate_message reason Abort.not_started

panic_message-abort_payload :
    (reason : Text) (a : Abort) → panic_message (abort_payload reason a) ≡ abort_text reason a
unfolding panic_message abort_payload
panic_message-abort_payload reason Abort.forked = refl
panic_message-abort_payload reason Abort.interrupted = refl
panic_message-abort_payload reason (Abort.gave_up_after secs) = refl
panic_message-abort_payload reason Abort.not_started = refl

panic_report-abort_text :
    (reason : Text) (a : Abort) → panic_report (abort_text reason a) ≡ abort_text reason a
unfolding panic_report
panic_report-abort_text reason a = rw (panic_report, abort_text-is_deliberate_message reason a) refl

-- If the wait for a batch gives up, as a forked process, on Ctrl-C, at the deadline or without a
-- runtime, then the installed hook prints nothing, unless a full report is asked for, and R gets the
-- abort's own text, unchanged, as the one error of the pull, from a reader with nothing left to give.
pub next-abort :
    {B S : Type 0} (reason : Text) (a : Abort) (schema : S) (rest : List (Poll B)) (before : Hook)
    (env : Environment) (file : Option Text)
    → wants_full_report env ≡ false
    → ((install (record { installed = false; hook = before })).hook env
          (record { file = file; payload = abort_payload reason a })
        ≡ false)
      × (next (record {
        schema = schema;
        pending = none;
        stream = some (Poll.panicked (abort_payload reason a) ∷ rest);
      })
          ≡ (
            some (err (ArrowError.compute (abort_text reason a))),
            record { schema = schema; pending = none; stream = none },
          ))
unfolding next
next-abort reason a schema rest before env file h = (
  install-silences before env (record { file = file; payload = abort_payload reason a }) h
      (inr (abort_payload-is_deliberate_abort reason a file)),
  rw (next, panic_message-abort_payload reason a, panic_report-abort_text reason a) refl,
)
