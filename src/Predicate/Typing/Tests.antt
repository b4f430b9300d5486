-- ===== src/Predicate/Typing/Tests.antt =====
-- An engine whose literals are their types and whose binding checks them, and the theorems at inputs on
-- it.
use icebergr.Prelude.{
  ℕ, List, [], ◌∷◌, true, false, Option, none, some, ◌≡◌, refl, arith, if◌then◌else◌, Result, ok,
  err, All, Bool-cases, inl, inr,
}
use icebergr.Prelude.Int.{pos}
use icebergr.Prelude.Text.{Text, codes, text_eq}
use icebergr.Iceberg.{PrimitiveType, IcebergType, Field, Schema}
use icebergr.Predicate.Node.{Node, Nodes}
use icebergr.Predicate.Engine.{Engine, Literal}
use icebergr.Predicate.Build.{Truth, is_float, build, find_field, reference}
use icebergr.Predicate.Typing.{DatumTypes, Binding}
use icebergr.Predicate.Typing.Sound.{FindsTopLevel, OnFloat, NanTests, build-Binds}

data Pred : Type 0 where
  constant : Pred
  both : Pred → Pred → Pred
  unary nan : Text → Pred
  comparison prefixed : Text → PrimitiveType → Pred
  among : Text → List PrimitiveType → Pred

abbrev rejects : {A : Type 0} → Text → Result Text A
rejects s = err s

abbrev engine : Engine
engine = record {
  Json = ℕ;
  json_is_null = λ v. false;
  json_as_bool = λ v. none;
  json_as_i64 = λ v. some (pos v);
  json_as_f64 = λ v. some v;
  json_as_str = λ v. none;
  json_is_f64 = λ v. true;
  json_to_string = λ v. [];
  json_parse = λ s. ok Node.always_true;
  to_f32 = λ x. 0;
  display_f64 = λ x. [];
  NaiveDateTime = Text;
  UtcDateTime = Text;
  parse_naive = rejects;
  parse_utc = rejects;
  naive_nanos_opt = λ t. none;
  utc_nanos_opt = λ t. none;
  Datum = PrimitiveType;
  literal = λ d. Literal.other;
  datum_bool = λ b. PrimitiveType.boolean;
  datum_int = λ n. PrimitiveType.int;
  datum_long = λ n. PrimitiveType.long;
  datum_float = λ x. PrimitiveType.float;
  datum_double = λ x. PrimitiveType.double;
  datum_date = λ n. PrimitiveType.date;
  datum_string = λ s. PrimitiveType.string;
  timestamp_micros = λ n. PrimitiveType.timestamp;
  timestamptz_micros = λ n. PrimitiveType.timestamptz;
  timestamp_nanos = λ n. PrimitiveType.timestamp_ns;
  timestamptz_nanos = λ n. PrimitiveType.timestamptz_ns;
  date_from_str = λ s. ok PrimitiveType.date;
  timestamp_from_str = λ s. ok PrimitiveType.timestamp;
  timestamptz_from_str = λ s. ok PrimitiveType.timestamptz;
  uuid_from_str = λ s. ok PrimitiveType.uuid;
  decimal_from_str = rejects;
  datum_to = λ d ty. ok ty;
  Reference = Text;
  reference_new = λ s. s;
  Predicate = Pred;
  always_true = Pred.constant;
  always_false = Pred.constant;
  p_and = Pred.both;
  p_or = Pred.both;
  is_null = Pred.unary;
  is_not_null = Pred.unary;
  is_nan = Pred.nan;
  is_not_nan = Pred.nan;
  equal_to = Pred.comparison;
  not_equal_to = Pred.comparison;
  less_than = Pred.comparison;
  less_than_or_equal_to = Pred.comparison;
  greater_than = Pred.comparison;
  greater_than_or_equal_to = Pred.comparison;
  starts_with = Pred.prefixed;
  not_starts_with = Pred.prefixed;
  is_in = Pred.among;
  is_not_in = Pred.among;
  primitive_label = λ p. [];
}

made : (d out : PrimitiveType) → ◌≡◌ {A = Result Text PrimitiveType} (ok d) (ok out) → out ≡ d
made d out e = cc

abbrev types : DatumTypes engine
types = record {
  type_of = λ d. d;
  type-bool = λ b. refl;
  type-int = λ n. refl;
  type-long = λ n. refl;
  type-float = λ x. refl;
  type-double = λ x. refl;
  type-date = λ n. refl;
  type-string = λ s. refl;
  type-micros = λ n. refl;
  type-micros_tz = λ n. refl;
  type-nanos = λ n. refl;
  type-nanos_tz = λ n. refl;
  type-date_text = λ s d e. made PrimitiveType.date d e;
  type-timestamp_text = λ s d e. made PrimitiveType.timestamp d e;
  type-timestamptz_text = λ s d e. made PrimitiveType.timestamptz d e;
  type-uuid_text = λ s d e. made PrimitiveType.uuid d e;
  type-to = λ d out ty e. made ty out e;
}

-- One double column, `price`.
abbrev price : Field
price = record {
  id = pos 1;
  name = codes "price";
  field_type = IcebergType.primitive PrimitiveType.double;
  required = false;
  doc = none;
}

abbrev by_name : Text → Option Field
by_name s = if text_eq s (codes "price") then some price else none

abbrev schema : Schema
schema = record {
  fields = price ∷ [];
  field_by_name = by_name;
  field_by_name_case_insensitive = by_name;
  field_by_id = λ i. none;
}

abbrev Column : Text → PrimitiveType → Type 0
Column c ty = (f : Field) × (by_name c ≡ some f) × (f.field_type ≡ IcebergType.primitive ty)

BindsTo : Pred → Type 0
BindsTo Pred.constant = Unit
BindsTo (Pred.both p q) = BindsTo p × BindsTo q
BindsTo (Pred.unary c) = (ty : PrimitiveType) × Column c ty
BindsTo (Pred.nan c) = (ty : PrimitiveType) × Column c ty × (is_float ty ≡ true)
BindsTo (Pred.comparison c ty) = Column c ty
BindsTo (Pred.prefixed c ty) = Column c PrimitiveType.string × (ty ≡ PrimitiveType.string)
BindsTo (Pred.among c tys) = (ty : PrimitiveType) × Column c ty × All (λ t. t ≡ ty) tys

abbrev binding : Binding engine schema types
unfolding BindsTo
binding = record {
  Binds = BindsTo;
  binds-true = tt;
  binds-false = tt;
  binds-and = λ p q h k. (h, k);
  binds-or = λ p q h k. (h, k);
  binds-is_null = λ c ty h. (ty, h);
  binds-is_not_null = λ c ty h. (ty, h);
  binds-is_nan = λ c ty h fl. (ty, h, fl);
  binds-is_not_nan = λ c ty h fl. (ty, h, fl);
  binds-equal_to = λ c d h. h;
  binds-not_equal_to = λ c d h. h;
  binds-less_than = λ c d h. h;
  binds-less_than_or_equal_to = λ c d h. h;
  binds-greater_than = λ c d h. h;
  binds-greater_than_or_equal_to = λ c d h. h;
  binds-starts_with = λ c d h e. (h, e);
  binds-not_starts_with = λ c d h e. (h, e);
  binds-is_in = λ c ty ds h hs. (ty, h, hs);
  binds-is_not_in = λ c ty ds h hs. (ty, h, hs);
}

schema-FindsTopLevel : FindsTopLevel engine schema true
unfolding find_field
schema-FindsTopLevel col f e = elim (Bool-cases (text_eq col (codes "price"))) [
  | inl same ↦ let found : price ≡ f = ground arith in rw (← found) refl
  | inr other ↦ absurd (ground arith)
]

-- price < 10 & !is.nan(price)
abbrev below : Node ℕ
below = Node.and (
    Nodes.cons (Node.lt (codes "price") 10)
      (Nodes.cons (Node.not (Node.is_nan (codes "price"))) Nodes.nil))

abbrev guarded : Pred
guarded =
    Pred.both (Pred.comparison (codes "price") PrimitiveType.double)
      (Pred.both (Pred.unary (codes "price")) (Pred.nan (codes "price")))

abbrev below_built : Truth Pred
below_built = record {
  t = Pred.both (Pred.both Pred.constant guarded) (Pred.nan (codes "price"));
  f = Pred.both (Pred.both Pred.constant guarded) (Pred.nan (codes "price"));
}

price-OnFloat : OnFloat engine schema true (codes "price")
unfolding reference
price-OnFloat p e = let same : (codes "price", PrimitiveType.double) ≡ p = cc in rw (← same) refl

below-NanTests : NanTests (OnFloat engine schema true) below
unfolding NanTests
below-NanTests = (tt, (price-OnFloat, tt))

below-ok : build engine below schema true ≡ ok below_built
unfolding build
below-ok = refl

build-Binds_example : BindsTo below_built.t × BindsTo below_built.f
unfolding BindsTo binding
build-Binds_example =
    build-Binds engine types schema true binding schema-FindsTopLevel below below_built
      below-NanTests below-ok
