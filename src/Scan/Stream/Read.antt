-- ===== src/Scan/Stream/Read.antt =====
-- What R reads from the struct of a scan.
use icebergr.Prelude.{◌≡◌, refl, ap, ◌∙◌, suc, ℕ, List, ◌∷◌, true, ok}
use icebergr.Predicate.Engine.{Engine}
use icebergr.Reader as Reader
use icebergr.Reader.{Poll, Caught, BatchReader, new, parse_addr}
use icebergr.Reader.Exchange.{Memory, write, write-same, export_reader}
use icebergr.Reader.Stream.{Ending, pull, polls, given, number, next-new}
use icebergr.Table.Snapshots.{Metadata}
use icebergr.Write.Align.{ArrowField}
use icebergr.Scan.Stream.{Request, Scanner, started, hand_over, rs_scan_to_stream}
use icebergr.Scan.Stream.Outcome.{is_done}

module _ (e : Engine) {P B T Slot : Type 0} (x : Scanner e P B T Slot) (m : Metadata) (r : Request)
    (memory : Memory Slot) where
  hand_over-write :
      (stream : List (Poll B)) (fallback : List (ArrowField T))
      (reader : BatchReader B (List (ArrowField T))) (ptr : ℕ)
      → new {M = Reader.Message} x.schema_of stream fallback ≡ Caught.returned (ok reader)
      → parse_addr x.debug x.why r.stream_addr ≡ ok ptr
      → hand_over e x r.stream_addr stream fallback memory
        ≡ (Caught.returned (ok tt), write ptr (x.ffi reader) memory)
  unfolding hand_over export_reader
  hand_over-write stream fallback reader ptr n p = rw (hand_over, n, export_reader, p) refl

  rs_scan_to_stream-hand_over :
      (stream : List (Poll B)) (fallback : List (ArrowField T))
      → started e x m r ≡ ok (stream, fallback)
      → rs_scan_to_stream e x m r memory ≡ hand_over e x r.stream_addr stream fallback memory
  unfolding rs_scan_to_stream
  rs_scan_to_stream-hand_over stream fallback h = rw (rs_scan_to_stream, h) refl

  -- Where the scan that was started yields the batches `b ∷ bs` and then ends, fails or panics, the call
  -- succeeds and leaves in the struct at R's address a reader whose calls of `next` return exactly these
  -- batches in order, then the end of the stream or the one error.
  pub rs_scan_to_stream-given :
      (b : B) (bs : List B) (ending : Ending B) (fallback : List (ArrowField T)) (ptr : ℕ)
      → started e x m r ≡ ok (polls (b ∷ bs) ending, fallback)
      → parse_addr x.debug x.why r.stream_addr ≡ ok ptr
      → (reader : BatchReader B (List (ArrowField T))) × (is_done
            (rs_scan_to_stream e x m r memory).0
          ≡ true)
        × ((rs_scan_to_stream e x m r memory).1 ptr ≡ x.ffi reader)
        × (reader.schema ≡ x.schema_of b)
        × ((pull (suc (number (b ∷ bs))) reader).0 ≡ given (b ∷ bs) ending)
  rs_scan_to_stream-given b bs ending fallback ptr h p =
      let (reader, n, s, g, spent) =
        next-new {M = Reader.Message} x.schema_of fallback b bs ending in
      let out =
        rs_scan_to_stream-hand_over (polls (b ∷ bs) ending) fallback h
        ∙ hand_over-write (polls (b ∷ bs) ending) fallback reader ptr n p in
      (
        reader,
        ap (λ o. is_done o.0) out,
        ap (λ o. o.1 ptr) out ∙ write-same ptr (x.ffi reader) memory,
        s,
        g,
      )
