-- ===== src/Predicate/Meaning/Logic.antt =====
-- R's three-valued logic.
use icebergr.Prelude.{Bool, true, false}

-- An R logical.
pub data Logical : Type 0 where
  holds fails na : Logical

abbrev pub is_true : Logical → Bool
is_true Logical.holds = true
is_true _ = false

abbrev pub is_false : Logical → Bool
is_false Logical.fails = true
is_false _ = false

abbrev pub logical : Bool → Logical
logical true = Logical.holds
logical false = Logical.fails

-- `!`, `&` and `|`
abbrev pub r_not : Logical → Logical
r_not Logical.holds = Logical.fails
r_not Logical.fails = Logical.holds
r_not Logical.na = Logical.na

abbrev pub r_and : Logical → Logical → Logical
r_and Logical.fails b = Logical.fails
r_and Logical.holds b = b
r_and Logical.na Logical.fails = Logical.fails
r_and Logical.na _ = Logical.na

abbrev pub r_or : Logical → Logical → Logical
r_or Logical.holds b = Logical.holds
r_or Logical.fails b = b
r_or Logical.na Logical.holds = Logical.holds
r_or Logical.na _ = Logical.na
