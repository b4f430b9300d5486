-- ===== src/Predicate/Cmp.antt =====
-- `Cmp` of src/rust/src/predicate.rs, and which orders pass each comparison.
use icebergr.Prelude.{Bool, true, false, Ordering}

pub data Cmp : Type 0 where
  eq ne lt lte gt gte : Cmp

unfoldable pub negate : Cmp → Cmp
negate Cmp.eq = Cmp.ne
negate Cmp.ne = Cmp.eq
negate Cmp.lt = Cmp.gte
negate Cmp.gte = Cmp.lt
negate Cmp.lte = Cmp.gt
negate Cmp.gt = Cmp.lte

abbrev pub compares : Cmp → Ordering → Bool
compares Cmp.eq Ordering.eq = true
compares Cmp.eq _ = false
compares Cmp.ne Ordering.eq = false
compares Cmp.ne _ = true
compares Cmp.lt Ordering.lt = true
compares Cmp.lt _ = false
compares Cmp.lte Ordering.gt = false
compares Cmp.lte _ = true
compares Cmp.gt Ordering.gt = true
compares Cmp.gt _ = false
compares Cmp.gte Ordering.lt = false
compares Cmp.gte _ = true
