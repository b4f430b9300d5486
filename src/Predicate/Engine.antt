-- ===== src/Predicate/Engine.antt =====
-- The crates that predicate.rs calls, as parameters: serde_json's values, iceberg-rust's predicates
-- and literals, chrono's parsers, and the two float operations that hardware and `std` define.
use icebergr.Prelude.{ℕ, List, Bool, Option, Result}
use icebergr.Prelude.Int.{ℤ}
use icebergr.Prelude.Text.{Text}
use icebergr.Iceberg.{PrimitiveType}
use icebergr.Predicate.Node.{Node}

-- `PrimitiveLiteral`: floats as bit patterns, and every other literal alike.
pub data Literal : Type 0 where
  float double : ℕ → Literal
  other : Literal

pub record Engine : Type 1 where
  -- serde_json::Value; `as_str` is also the match on `Json::String`, and `is_f64` the one on
  -- `Json::Number(n) if n.is_f64()`
  pub Json : Type 0
  pub json_is_null : Json → Bool
  pub json_as_bool : Json → Option Bool
  pub json_as_i64 : Json → Option ℤ
  pub json_as_f64 : Json → Option ℕ
  pub json_as_str : Json → Option Text
  pub json_is_f64 : Json → Bool
  pub json_to_string : Json → Text
  pub json_parse : Text → Result Text (Node Json)
  -- `f as f32` on bit patterns, and `Display` for `f64`
  pub to_f32 : ℕ → ℕ
  pub display_f64 : ℕ → Text
  -- chrono: the parsers, and `timestamp_nanos_opt`
  pub NaiveDateTime : Type 0
  pub UtcDateTime : Type 0
  pub parse_naive : Text → Result Text NaiveDateTime
  pub parse_utc : Text → Result Text UtcDateTime
  pub naive_nanos_opt : NaiveDateTime → Option ℤ
  pub utc_nanos_opt : UtcDateTime → Option ℤ
  -- iceberg::spec::Datum
  pub Datum : Type 0
  pub literal : Datum → Literal
  pub datum_bool : Bool → Datum
  pub datum_int : ℤ → Datum
  pub datum_long : ℤ → Datum
  pub datum_float : ℕ → Datum
  pub datum_double : ℕ → Datum
  pub datum_date : ℤ → Datum
  pub datum_string : Text → Datum
  pub timestamp_micros : ℤ → Datum
  pub timestamptz_micros : ℤ → Datum
  pub timestamp_nanos : ℤ → Datum
  pub timestamptz_nanos : ℤ → Datum
  pub date_from_str : Text → Result Text Datum
  pub timestamp_from_str : Text → Result Text Datum
  pub timestamptz_from_str : Text → Result Text Datum
  pub uuid_from_str : Text → Result Text Datum
  pub decimal_from_str : Text → Result Text Datum
  pub datum_to : Datum → PrimitiveType → Result Text Datum
  -- iceberg::expr
  pub Reference : Type 0
  pub reference_new : Text → Reference
  pub Predicate : Type 0
  pub always_true : Predicate
  pub always_false : Predicate
  pub p_and : Predicate → Predicate → Predicate
  pub p_or : Predicate → Predicate → Predicate
  pub is_null : Reference → Predicate
  pub is_not_null : Reference → Predicate
  pub is_nan : Reference → Predicate
  pub is_not_nan : Reference → Predicate
  pub equal_to : Reference → Datum → Predicate
  pub not_equal_to : Reference → Datum → Predicate
  pub less_than : Reference → Datum → Predicate
  pub less_than_or_equal_to : Reference → Datum → Predicate
  pub greater_than : Reference → Datum → Predicate
  pub greater_than_or_equal_to : Reference → Datum → Predicate
  pub starts_with : Reference → Datum → Predicate
  pub not_starts_with : Reference → Datum → Predicate
  pub is_in : Reference → List Datum → Predicate
  pub is_not_in : Reference → List Datum → Predicate
  -- `Display` of a primitive type
  pub primitive_label : PrimitiveType → Text
