-- ===== src/Runtime/Aborts.antt =====
-- What the panics of src/rust/src/runtime.rs carry: the texts that they are written with, as the payload
-- that the panic hook and the batch reader find. `reason` is how the error of the runtime's builder
-- prints, which `expect` appends.
use icebergr.Prelude.{ℕ, ◌++◌}
use icebergr.Prelude.Int.{print_number}
use icebergr.Prelude.Text.{Text, codes}
use icebergr.Panic.{Payload}
use icebergr.Runtime.{Abort}

abbrev pub forked_text : Text
forked_text =
    codes "icebergr: this process was forked from one that had already used icebergr, and "
    ++ codes "its async runtime does not survive a fork, so nothing here can complete. Use a "
    ++ codes "PSOCK cluster, from parallel::makeCluster(), rather than parallel::mclapply(), "
    ++ codes "and open the catalog inside each worker."

abbrev pub interrupted_text : Text
interrupted_text = codes "icebergr: interrupted."

unfoldable pub gave_up_text : ℕ → Text
gave_up_text secs =
    codes "icebergr: gave up after "
    ++ print_number secs
    ++ codes "s waiting for the catalog or storage to respond. Raise or remove the ceiling with "
    ++ codes "ICEBERGR_TIMEOUT_SECONDS (0 disables it)."

unfoldable pub not_started_text : Text → Text
not_started_text reason = codes "icebergr: could not start the tokio runtime: " ++ reason

unfoldable pub abort_text : Text → Abort → Text
unfolding gave_up_text not_started_text
abort_text reason Abort.forked = forked_text
abort_text reason Abort.interrupted = interrupted_text
abort_text reason (Abort.gave_up_after secs) = gave_up_text secs
abort_text reason Abort.not_started = not_started_text reason

-- A literal is a `&str`, a text with an argument a `String`.
unfoldable pub abort_payload : Text → Abort → Payload
unfolding abort_text
abort_payload reason Abort.forked = Payload.str (abort_text reason Abort.forked)
abort_payload reason Abort.interrupted = Payload.str (abort_text reason Abort.interrupted)
abort_payload reason (Abort.gave_up_after secs) =
    Payload.string (abort_text reason (Abort.gave_up_after secs))
abort_payload reason Abort.not_started = Payload.string (abort_text reason Abort.not_started)
