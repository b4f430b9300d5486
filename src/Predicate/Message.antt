-- ===== src/Predicate/Message.antt =====
-- The messages of src/rust/src/predicate.rs, each with what it interpolates.
use icebergr.Prelude.{ℕ, List, Result, err}
use icebergr.Prelude.Int.{ℤ}
use icebergr.Prelude.Text.{Text}
use icebergr.Iceberg.{PrimitiveType}
use icebergr.Errors.{RError, message}

-- why `rescale_decimal` rejects a literal
pub data Reason : Type 0 where
  exponent_notation not_a_decimal : Reason
  too_many_places : ℕ → ℕ → Reason

pub data Message : Type 0 where
  no_such_column : Text → List Text → Message
  not_primitive : Text → Text → Message
  compared_with_na : Text → Message
  expected : Text → PrimitiveType → Text → Message
  outside_i64 : Text → PrimitiveType → ℕ → Message
  outside_i32 : ℤ → Text → Message
  date_for_timestamp : Text → Text → PrimitiveType → Message
  outside_nanos : Text → Text → PrimitiveType → Message
  rejected_decimal : Text → PrimitiveType → Text → Reason → Message
  type_not_supported : Text → PrimitiveType → Message
  prefix_on_other_type : Text → PrimitiveType → Message

abbrev pub Error : Type 0
Error = RError Message

abbrev pub RResult : Type 0 → Type 0
RResult A = Result Error A

abbrev pub fail : {A : Type 0} → Message → RResult A
fail m = err (message m)
