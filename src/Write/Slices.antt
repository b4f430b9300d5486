-- ===== src/Write/Slices.antt =====
-- The write loop of src/rust/src/write.rs: a batch goes to the Parquet writer in slices.
use icebergr.Prelude.{
  ℕ, zero, suc, ◌+◌, ◌-◌, ◌*◌, ◌≤◌, ◌<◌, ◌≡◌, List, [], ◌∷◌, arith, min, ltb, if◌then◌else◌,
}

abbrev pub write_slice_rows : ℕ
write_slice_rows = 64 * 1024

-- `while offset < rows`: the slices as pairs of an offset and a length. Each holds a row at least, so
-- `rows` rounds are enough.
unfoldable pub slice_loop : ℕ → ℕ → ℕ → List (ℕ × ℕ)
slice_loop zero rows offset = []
slice_loop (suc fuel) rows offset =
    let len = min write_slice_rows (rows - offset) in
    let rest = slice_loop fuel rows (offset + len) in
    if ltb offset rows then (offset, len) ∷ rest else []

unfoldable pub slices : ℕ → List (ℕ × ℕ)
unfolding slice_loop
slices rows = slice_loop rows rows 0

-- The slices from `at` up to `rows`: each begins where the one before it ended, holds one row at least
-- and at most 65536, and the last one ends at `rows`.
abbrev pub Covers : ℕ → ℕ → List (ℕ × ℕ) → Type 0
Covers at rows [] = at ≡ rows
Covers at rows ((offset, len) ∷ rest) =
    (offset ≡ at) × (0 < len) × (len ≤ write_slice_rows) × Covers (at + len) rows rest

slice_loop-Covers :
    (fuel rows offset : ℕ)
    → offset ≤ rows
    → rows ≤ offset + fuel
    → Covers offset rows (slice_loop fuel rows offset)
unfolding slice_loop
slice_loop-Covers zero rows offset h k = omega arith
slice_loop-Covers (suc fuel) rows offset h k = ground (
  arith,
  slice_loop-Covers fuel rows (offset + min write_slice_rows (rows - offset)) (omega arith),
)

-- The slices of a batch cover its rows once, in order, whatever their number.
pub slices-Covers : (rows : ℕ) → Covers 0 rows (slices rows)
unfolding slices
slices-Covers rows = slice_loop-Covers rows rows 0 (omega arith) (omega arith)
