-- ===== src/Reader/Exchange.antt =====
-- `export_reader`, `import_schema` and `import_reader` of src/rust/src/arrow_bridge.rs. The structs
-- that R allocates are slots at addresses. What arrow's FFI makes of a reader and of a slot are
-- parameters.
use icebergr.Prelude.{ℕ, ◌≡◌, refl, ◌==◌, ==_refl, if◌then◌else◌, Result, ok, err, map_err, ◌>>=◌}
use icebergr.Prelude.Text.{Text, codes}
use icebergr.Errors.{RError, ctx}
use icebergr.Reader.{Message, parse_addr}

-- R's memory, as far as it holds Arrow structs
abbrev pub Memory : Type 0 → Type 0
Memory Slot = ℕ → Slot

abbrev pub write : {Slot : Type 0} → ℕ → Slot → Memory Slot → Memory Slot
write ptr slot memory p = if p == ptr then slot else memory p

pub write-same :
    {Slot : Type 0} (ptr : ℕ) (slot : Slot) (memory : Memory Slot)
    → write ptr slot memory ptr ≡ slot
write-same ptr slot memory = rw (==_refl ptr) refl

module _ {Slot : Type 0} (debug why : Text → Text) where
  -- `ffi` is `FFI_ArrowArrayStream::new`.
  unfoldable pub export_reader :
      {R : Type 0}
      → (R → Slot)
      → Text
      → R
      → Memory Slot
      → Result {0, 0} (RError Message) Unit × Memory Slot
  unfolding parse_addr
  export_reader ffi addr reader memory = elim (parse_addr debug why addr) [
    | err e ↦ (err e, memory)
    | ok ptr ↦ (ok tt, write ptr (ffi reader) memory)
  ]

  -- `try_from` borrows the struct, and leaves it as it is.
  unfoldable pub import_schema :
      {S : Type 0} → (Slot → Result Text S) → Text → Memory Slot → Result (RError Message) S
  unfolding parse_addr
  import_schema try_from addr memory = parse_addr debug why addr >>= λ ptr.
      map_err (ctx (codes "could not read the Arrow schema")) (try_from (memory ptr))

  -- `from_raw` moves the stream out, and leaves what it says in its place.
  unfoldable pub import_reader :
      {R : Type 0}
      → (Slot → Result Text R × Slot)
      → Text
      → Memory Slot
      → Result (RError Message) R × Memory Slot
  unfolding parse_addr
  import_reader from_raw addr memory = elim (parse_addr debug why addr) [
    | err e ↦ (err e, memory)
    | ok ptr ↦
        let (stream, left) = from_raw (memory ptr) in
        (
          map_err (ctx (codes "could not import the Arrow stream from R")) stream,
          write ptr left memory,
        )
  ]
