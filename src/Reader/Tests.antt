-- ===== src/Reader/Tests.antt =====
-- The reader's theorems at concrete inputs: batches are numbers, and the schema of each is its parity.
use icebergr.Prelude.{some, err, true, false, ◌++◌, ℕ, ◌%◌, List, [], ◌∷◌, ◌≡◌, refl, none}
use icebergr.Prelude.Text.{Text, codes}
use icebergr.Panic.{Payload, Environment, Hook, install, wants_full_report}
use icebergr.Runtime.{Abort}
use icebergr.Runtime.Aborts.{abort_text, abort_payload}
use icebergr.Reader.Aborted.{next-abort}
use icebergr.Reader.{BatchReader, Poll, ArrowError, next}
use icebergr.Reader.Stream.{Ending}

abbrev done : BatchReader ℕ ℕ
done = record { schema = 0; pending = none; stream = none }

abbrev parity : ℕ → ℕ
parity n = n % 2

abbrev batches : List ℕ
batches = 3 ∷ 4 ∷ []

abbrev broken : Ending ℕ
broken = Ending.panics (Payload.str (codes "bad page")) []

abbrev quoted : Text → Text
quoted s = b'"' ∷ (s ++ b'"' ∷ [])

-- a session that wants no panic trace, and the hook of a fresh R
abbrev terse : Environment
terse = record { rust_backtrace = false; panic_trace = false }

abbrev loud : Hook
loud env info = true

next-abort_example :
    ((install (record { installed = false; hook = loud })).hook terse
        (record { file = none; payload = abort_payload [] (Abort.gave_up_after 300) })
      ≡ false)
    × (next (record {
      schema = 0;
      pending = none;
      stream =
          some (Poll.panicked (abort_payload [] (Abort.gave_up_after 300)) ∷ Poll.batch 4 ∷ []);
    })
        ≡ (some (err (ArrowError.compute (abort_text [] (Abort.gave_up_after 300)))), done))
unfolding wants_full_report
next-abort_example =
    next-abort [] (Abort.gave_up_after 300) 0 (Poll.batch 4 ∷ []) loud terse none refl
