-- ===== src/Reader/Stream.antt =====
-- The reader gives R what the scan produced, and stops for good at the first fault.
use icebergr.Prelude.{ℕ, zero, suc, List, [], ◌∷◌, ◌≡◌, refl, ap, none, some, arith, ok, err}
use icebergr.Prelude.Text.{Text}
use icebergr.Panic.{Payload}
use icebergr.Reader.{
  Poll, ArrowError, Caught, panic_message, panic_report, BatchReader, Item, new, next,
}

-- How a stream goes on after its batches: it ends, fails, or panics, and what would follow is never
-- polled.
pub data Ending (B : Type 0) : Type 0 where
  ends : Ending B
  fails : Text → List (Poll B) → Ending B
  panics : Payload → List (Poll B) → Ending B

module _ {B : Type 0} where
  abbrev pub polls : List B → Ending B → List (Poll B)
  polls [] Ending.ends = []
  polls [] (Ending.fails e rest) = Poll.failed e ∷ rest
  polls [] (Ending.panics p rest) = Poll.panicked p ∷ rest
  polls (b ∷ bs) e = Poll.batch b ∷ polls bs e

  -- the item with which R learns of the ending
  abbrev pub last_item : Ending B → Item B
  last_item Ending.ends = none
  last_item (Ending.fails e rest) = some (err (ArrowError.external e))
  last_item (Ending.panics p rest) =
      some (err (ArrowError.compute (panic_report (panic_message p))))

  abbrev pub given : List B → Ending B → List (Item B)
  given [] e = last_item e ∷ []
  given (b ∷ bs) e = some (ok b) ∷ given bs e

  abbrev pub number : List B → ℕ
  number [] = zero
  number (b ∷ bs) = suc (number bs)

module _ {B S : Type 0} where
  -- nothing is left to give
  abbrev pub IsSpent : BatchReader B S → Type 0
  IsSpent r = (r.pending ≡ none) × (r.stream ≡ none)

  -- what the calls of `next` return, and the reader after them, for a number of calls
  abbrev pub pull : ℕ → BatchReader B S → List (Item B) × BatchReader B S
  pull zero r = ([], r)
  pull (suc n) r = let (item, q) = next r in let (items, last) = pull n q in (item ∷ items, last)

  abbrev spent : S → BatchReader B S
  spent s = record { schema = s; pending = none; stream = none }

  pull-polls :
      (s : S) (bs : List B) (e : Ending B)
      → pull (suc (number bs)) (record { schema = s; pending = none; stream = some (polls bs e) })
        ≡ (given bs e, spent s)
  unfolding next
  pull-polls s [] Ending.ends = refl
  pull-polls s [] (Ending.fails e rest) = refl
  pull-polls s [] (Ending.panics p rest) = refl
  pull-polls s (b ∷ bs) e =
      ap (λ (x : List (Item B) × BatchReader B S). (some (ok b) ∷ x.0, x.1)) (pull-polls s bs e)

  -- A reader with nothing left answers every call with the end of the stream, and stays as it is.
  pub next-IsSpent : (r : BatchReader B S) → IsSpent r → next r ≡ (none, r)
  unfolding next
  next-IsSpent r (p, q) = ground arith

  -- A scan that yields the batches `b ∷ bs` and then ends, fails or panics gives a reader with the
  -- schema of `b`, whose calls of `next` return exactly these batches in order, then the end of the
  -- stream or the one error, and leave nothing to give.
  pub next-new :
      {M : Type 0} (schema_of : B → S) (fallback : S) (b : B) (bs : List B) (e : Ending B)
      → (r : BatchReader B S) × (new {M = M} schema_of (polls (b ∷ bs) e) fallback
          ≡ Caught.returned (ok r))
        × (r.schema ≡ schema_of b)
        × ((pull (suc (number (b ∷ bs))) r).0 ≡ given (b ∷ bs) e)
        × IsSpent (pull (suc (number (b ∷ bs))) r).1
  unfolding new next
  next-new schema_of fallback b bs e =
      let h = pull-polls (schema_of b) bs e in
      (
        record { schema = schema_of b; pending = some b; stream = some (polls bs e) },
        refl,
        refl,
        ap (λ (x : List (Item B) × BatchReader B S). some (ok b) ∷ x.0) h,
        (
          ap (λ (x : List (Item B) × BatchReader B S). x.1.pending) h,
          ap (λ (x : List (Item B) × BatchReader B S). x.1.stream) h,
        ),
      )
