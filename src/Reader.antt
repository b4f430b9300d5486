-- ===== src/Reader.antt =====
-- src/rust/src/arrow_bridge.rs: the address parser, and the reader that hands record batches to R one
-- at a time. A stream is the list of what its polls will find; a poll past the end finds `None`.
pub mod Aborted
pub mod Address
pub mod Exchange
pub mod Stream
mod Tests
use icebergr.Prelude.{
  ℕ, List, [], ◌∷◌, ◌++◌, Bool, true, false, Option, none, some, ◌==◌, if◌then◌else◌, Result, ok,
  err, or_else?,
}
use icebergr.Prelude.Int.{parse_unsigned}
use icebergr.Prelude.Text.{Text, codes, strip_prefix, trim}
use icebergr.Errors.{RError, ctx, message}
use icebergr.Panic.{Payload, is_deliberate_message}

pub data Message : Type 0 where
  null_pointer : Message

-- `parse_addr` for a `usize` of 64 bits. How a text prints with `{:?}`, and the text of a parse failure,
-- are the standard library's: parameters.
unfoldable pub parse_addr : (Text → Text) → (Text → Text) → Text → Result (RError Message) ℕ
unfolding parse_unsigned
parse_addr debug why addr =
    let s = trim addr in
    let hex = or_else? (strip_prefix (codes "0x") s) (strip_prefix (codes "0X") s) in
    let parsed : Option ℕ = elim hex [
      | some h ↦ parse_unsigned 64 16 h
      | none ↦ parse_unsigned 64 10 s
    ] in
    elim parsed [
      | none ↦
          err (ctx (codes "not a valid Arrow stream address (" ++ debug s ++ codes ")") (why s))
      | some p ↦ if p == 0 then err (message null_pointer) else ok p
    ]

-- What one poll of a stream does.
pub data Poll (B : Type 0) : Type 0 where
  batch : B → Poll B
  failed : Text → Poll B
  panicked : Payload → Poll B

pub data ArrowError : Type 0 where
  external compute : Text → ArrowError

-- The result of a call that may unwind.
pub data Caught (A : Type 0) : Type 0 where
  returned : A → Caught A
  unwound : Payload → Caught A

unfoldable pub panic_message : Payload → Text
panic_message (Payload.str s) = s
panic_message (Payload.string s) = s
panic_message Payload.other = codes "panic with no message"

-- what R is told of a panic
unfoldable pub panic_report : Text → Text
unfolding is_deliberate_message
panic_report what =
    if is_deliberate_message (some what)
    then what
    else codes "icebergr: the Iceberg scan panicked while reading: " ++ what

pub record BatchReader (B S : Type 0) : Type 0 where
  pub schema : S
  pub pending : Option B
  pub stream : Option (List (Poll B))

abbrev pub Item : Type 0 → Type 0
Item B = Option (Result ArrowError B)

module _ {B S : Type 0} where
  -- `BlockingBatchReader::new`; a panic in the first poll leaves by unwinding.
  unfoldable pub new :
      {M : Type 0} → (B → S) → List (Poll B) → S → Caught (Result (RError M) (BatchReader B S))
  new schema_of [] fallback =
      Caught.returned (ok (record { schema = fallback; pending = none; stream = none }))
  new schema_of (Poll.batch b ∷ rest) fallback =
      Caught.returned (ok (record { schema = schema_of b; pending = some b; stream = some rest }))
  new schema_of (Poll.failed e ∷ rest) fallback =
      Caught.returned (err (ctx (codes "scan failed") e))
  new schema_of (Poll.panicked p ∷ rest) fallback = Caught.unwound p

  -- a poll of the stream of `r`
  unfoldable pub poll_stream : List (Poll B) → BatchReader B S → Caught (Item B) × BatchReader B S
  poll_stream [] r = (Caught.returned none, record r { stream = none })
  poll_stream (Poll.batch b ∷ rest) r =
      (Caught.returned (some (ok b)), record r { stream = some rest })
  poll_stream (Poll.failed e ∷ rest) r =
      (Caught.returned (some (err (ArrowError.external e))), record r { stream = none })
  poll_stream (Poll.panicked p ∷ rest) r = (Caught.unwound p, record r { stream = some rest })

  unfoldable pub next_batch : BatchReader B S → Caught (Item B) × BatchReader B S
  unfolding poll_stream
  next_batch r = elim r.pending [
    | some b ↦ (Caught.returned (some (ok b)), record r { pending = none })
    | none ↦ elim r.stream [ none ↦ (Caught.returned none, r) | some polls ↦ poll_stream polls r ]
  ]

  -- the arms on what `catch_unwind` gives
  abbrev settled : Caught (Item B) × BatchReader B S → Item B × BatchReader B S
  settled (Caught.returned item, r) = (item, r)
  settled (Caught.unwound p, r) = (
    some (err (ArrowError.compute (panic_report (panic_message p)))),
    record r { stream = none; pending = none },
  )

  unfoldable pub next : BatchReader B S → Item B × BatchReader B S
  unfolding next_batch panic_report panic_message
  next r = settled (next_batch r)
