-- ===== src/Write/Message.antt =====
-- The messages that src/rust/src/write.rs makes, each with what it quotes.
use icebergr.Prelude.{List, Result, err}
use icebergr.Prelude.Text.{Text}
use icebergr.Errors.{RError, message}
use icebergr.Write.Location.{Why}

pub data Message : Type 0 where
  property_lengths_differ : Message
  repeated : List Text → Message
  -- the columns the table does not have, and those it has
  unexpected : List Text → List Text → Message
  missing : Text → Message
  irreconcilable : Text → Text → Text → Text → Message
  partitioned : Text → List (Text × Text) → Message
  -- the table, the directory, the file
  uncommittable : Text → Text → Text → Why → Message
  unknown_compression : Text → Message

abbrev pub Error : Type 0
Error = RError Message

abbrev pub RResult : Type 0 → Type 0
RResult A = Result Error A

abbrev pub fail : {A : Type 0} → Message → RResult A
fail m = err (message m)
