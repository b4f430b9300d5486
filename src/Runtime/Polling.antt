-- ===== src/Runtime/Polling.antt =====
-- How `block_on` ends, and the bounds of its settings.
use icebergr.Prelude.{
  ℕ, ◌≤◌, ◌≡◌, ◌≢◌, ◌⊎◌, inl, inr, refl, List, [], ◌∷◌, ◌++◌, Bool, true, false, Option, none, some,
  arith, leb, Result, ok, err, All, Option-cases, Bool-cases,
}
use icebergr.Prelude.Int.{parse_unsigned}
use icebergr.Prelude.Text.{Text}
use icebergr.Runtime.{
  worker_threads, Runtime, Process, Abort, tokio_runtime, take_interrupt, Slice, poll_loop,
  signalled, is_over,
}

-- Whatever the variable holds, the runtime gets between 1 and 64 workers.
pub worker_threads-bounds :
    (var : Option Text) → (1 ≤ worker_threads var) × (worker_threads var ≤ 64)
unfolding worker_threads
worker_threads-bounds none = omega arith
worker_threads-bounds (some v) = elim (Option-cases (parse_unsigned 64 10 v)) [
  | inl n ↦ ground arith
  | inr (n, e) ↦ ground arith
]

-- A set flag is seen once: it is clear afterwards, and a second look finds nothing.
pub take_interrupt-once :
    (p : Process)
    → p.interrupt_flag ≢ 0
    → ((take_interrupt p).0 ≡ true)
      × ((take_interrupt p).1.interrupt_flag ≡ 0)
      × ((take_interrupt (take_interrupt p).1).0 ≡ false)
unfolding take_interrupt
take_interrupt-once p h = ground arith

-- A forked child, whose runtime another process started, gets no runtime, and nothing of it changes.
pub tokio_runtime-forked :
    (var : Option Text) (starts : Bool) (p : Process) (rt : Runtime)
    → p.tokio ≡ some rt
    → rt.owner ≢ p.id
    → tokio_runtime var starts p ≡ (err Abort.forked, p)
unfolding tokio_runtime
tokio_runtime-forked var starts p rt e h = ground arith

module _ {A : Type 0} where
  -- a slice that ends nothing
  abbrev pub IsQuiet : Option (ℕ × ℕ) → Slice A → Type 0
  IsQuiet deadline s = (s.output ≡ none) × (s.signal ≡ false) × (is_over deadline s.now ≡ false)

  pub poll_loop-quiet :
      (deadline : Option (ℕ × ℕ)) (quiet rest : List (Slice A)) (p : Process)
      → p.interrupt_flag ≡ 0
      → All (IsQuiet deadline) quiet
      → poll_loop deadline (quiet ++ rest) p ≡ poll_loop deadline rest p
  unfolding poll_loop
  poll_loop-quiet deadline [] rest p h hq = refl
  poll_loop-quiet deadline (s ∷ quiet) rest p h (q, hq) =
      ground (arith, poll_loop-quiet deadline quiet rest p h hq)

  -- If, after slices in which nothing happens, the future finishes, the call returns its output; a
  -- signal that came in the same slice stays pending.
  pub poll_loop-finished :
      (deadline : Option (ℕ × ℕ)) (quiet rest : List (Slice A)) (s : Slice A) (out : A)
      (p : Process)
      → p.interrupt_flag ≡ 0
      → All (IsQuiet deadline) quiet
      → s.output ≡ some out
      → poll_loop deadline (quiet ++ s ∷ rest) p ≡ (some (ok out), signalled s.signal p)
  unfolding poll_loop
  poll_loop-finished deadline quiet rest s out p h hq e =
      ground (arith, poll_loop-quiet deadline quiet (s ∷ rest) p h hq)

  -- If, after slices in which nothing happens, the user interrupts an unfinished future, the call aborts
  -- with the interrupt, whatever the deadline, and the flag is clear again.
  pub poll_loop-interrupted :
      (deadline : Option (ℕ × ℕ)) (quiet rest : List (Slice A)) (s : Slice A) (p : Process)
      → p.interrupt_flag ≡ 0
      → All (IsQuiet deadline) quiet
      → s.output ≡ none
      → s.signal ≡ true
      → poll_loop deadline (quiet ++ s ∷ rest) p ≡ (some (err Abort.interrupted), p)
  unfolding poll_loop
  poll_loop-interrupted deadline quiet rest s p h hq e f =
      ground (arith, poll_loop-quiet deadline quiet (s ∷ rest) p h hq)

  -- If, after slices in which nothing happens, the clock reaches the deadline of an unfinished future
  -- that nobody interrupts, the call aborts with the timeout of so many seconds, and no other change.
  pub poll_loop-timed_out :
      (at total : ℕ) (quiet rest : List (Slice A)) (s : Slice A) (p : Process)
      → p.interrupt_flag ≡ 0
      → All (IsQuiet (some (at, total))) quiet
      → s.output ≡ none
      → s.signal ≡ false
      → at ≤ s.now
      → poll_loop (some (at, total)) (quiet ++ s ∷ rest) p
        ≡ (some (err (Abort.gave_up_after total)), p)
  unfolding poll_loop
  poll_loop-timed_out at total quiet rest s p h hq e f k =
      ground (arith, poll_loop-quiet (some (at, total)) quiet (s ∷ rest) p h hq)

  -- some slice finds the clock at the deadline or past it
  abbrev pub Passes : ℕ → List (Slice A) → Type 0
  Passes at [] = ⊥
  Passes at (s ∷ rest) = (at ≤ s.now) ⊎ Passes at rest

  -- Under a ceiling the call ends once the clock passes the deadline, whatever the future and the user
  -- do.
  pub poll_loop-ends :
      (at total : ℕ) (slices : List (Slice A)) (p : Process)
      → Passes at slices
      → (r : Result Abort A) × ((poll_loop (some (at, total)) slices p).0 ≡ some r)
  unfolding poll_loop
  poll_loop-ends at total [] p h = elim h [ ]
  poll_loop-ends at total (s ∷ rest) p h = elim (Option-cases s.output) [
    | inl n ↦ elim (Bool-cases (take_interrupt (signalled s.signal p)).0) [
      | inl pressed ↦ (err Abort.interrupted, ground arith)
      | inr quiet ↦ elim (Bool-cases (leb at s.now)) [
        | inl over ↦ (err (Abort.gave_up_after total), ground arith)
        | inr early ↦ elim h [
          | inl past ↦ absurd (ground arith)
          | inr later ↦
              let (r, e) =
                poll_loop-ends at total rest (take_interrupt (signalled s.signal p)).1 later in
              (r, ground arith)
        ]
      ]
    ]
    | inr (out, e) ↦ (ok out, ground arith)
  ]
