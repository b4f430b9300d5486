-- ===== src/Predicate/Float/Order.antt =====
-- Where the total order of bit patterns and the order of float values agree, and where they differ.
use icebergr.Prelude.{ℕ, ◌%◌, ◌<◌, ◌≡◌, Bool, true, false, ◌&&◌, ◌||◌, Ordering, arith}
use icebergr.Predicate.Cmp.{Cmp, compares}
use icebergr.Predicate.Float.{Width, is_zero_bits, total_order, value_order}

-- Against a literal that is not a zero the two orders agree.
pub total_order-eq-value_order :
    (w : Width) (a b : ℕ)
    → 0 < w.sign
    → is_zero_bits w b ≡ false
    → total_order w a b ≡ value_order w a b
total_order-eq-value_order w a b h z = ground arith

-- A comparison with zero, restated on -0.0 and 0.0 in the total order.
abbrev pub zero_answer : Cmp → Ordering → Ordering → Bool
zero_answer Cmp.eq neg pos = compares Cmp.gte neg && compares Cmp.lte pos
zero_answer Cmp.ne neg pos = compares Cmp.lt neg || compares Cmp.gt pos
zero_answer Cmp.lt neg pos = compares Cmp.lt neg
zero_answer Cmp.lte neg pos = compares Cmp.lte pos
zero_answer Cmp.gt neg pos = compares Cmp.gt pos
zero_answer Cmp.gte neg pos = compares Cmp.gte neg

mod_self : (n : ℕ) → 0 < n → n % n ≡ 0
mod_self n h = grind arith

-- It is the comparison by value with a zero of either sign.
pub zero_answer_lem :
    (op : Cmp) (w : Width) (x y : ℕ)
    → 0 < w.sign
    → is_zero_bits w y ≡ true
    → zero_answer op (total_order w x w.sign) (total_order w x 0) ≡ compares op (value_order w x y)
zero_answer_lem Cmp.eq w x y h z = ground (arith, mod_self w.sign h)
zero_answer_lem Cmp.ne w x y h z = ground (arith, mod_self w.sign h)
zero_answer_lem Cmp.lt w x y h z = ground (arith, mod_self w.sign h)
zero_answer_lem Cmp.lte w x y h z = ground (arith, mod_self w.sign h)
zero_answer_lem Cmp.gt w x y h z = ground (arith, mod_self w.sign h)
zero_answer_lem Cmp.gte w x y h z = ground (arith, mod_self w.sign h)
