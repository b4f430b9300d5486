-- ===== src/Runtime/Outcome.antt =====
-- Every way in which the loop of `block_on` can go.
use icebergr.Prelude.{
  ℕ, ◌≤◌, ◌≡◌, refl, inl, inr, List, [], ◌∷◌, ◌++◌, true, false, Option, none, some, arith, Result,
  ok, err, All, Option-cases, Bool-cases,
}
use icebergr.Runtime.{Process, Abort, Slice, poll_loop, signalled, is_over}
use icebergr.Runtime.Polling.{
  IsQuiet, poll_loop-quiet, poll_loop-finished, poll_loop-interrupted, poll_loop-timed_out,
}

-- What comes of the slices of a call under `deadline` in the process `p`: the first slice in which
-- anything happens decides.
pub data IsOutcome {A : Type 0} (deadline : Option (ℕ × ℕ)) (p : Process)
    : List (Slice A) → Option (Result Abort A) × Process → Type 0 where
  waiting :
      {quiet : List (Slice A)} → All (IsQuiet deadline) quiet → IsOutcome deadline p quiet (none, p)
  finished :
      (quiet rest : List (Slice A)) (s : Slice A) {out : A}
      → All (IsQuiet deadline) quiet
      → s.output ≡ some out
      → IsOutcome deadline p (quiet ++ s ∷ rest) (some (ok out), signalled s.signal p)
  interrupted :
      (quiet rest : List (Slice A)) (s : Slice A)
      → All (IsQuiet deadline) quiet
      → s.output ≡ none
      → s.signal ≡ true
      → IsOutcome deadline p (quiet ++ s ∷ rest) (some (err Abort.interrupted), p)
  timed_out :
      (quiet rest : List (Slice A)) (s : Slice A) {at total : ℕ}
      → All (IsQuiet deadline) quiet
      → s.output ≡ none
      → s.signal ≡ false
      → deadline ≡ some (at, total)
      → at ≤ s.now
      → IsOutcome deadline p (quiet ++ s ∷ rest) (some (err (Abort.gave_up_after total)), p)

module _ {A : Type 0} (deadline : Option (ℕ × ℕ)) (p : Process) where
  -- a slice in which nothing happens, before the others
  quiet-IsOutcome :
      (s : Slice A) (slices : List (Slice A)) (r : Option (Result Abort A) × Process)
      → IsQuiet deadline s
      → IsOutcome deadline p slices r
      → IsOutcome deadline p (s ∷ slices) r
  quiet-IsOutcome s slices r q (waiting h) = waiting (q, h)
  quiet-IsOutcome s slices r q (finished quiet rest at h e) = finished (s ∷ quiet) rest at (q, h) e
  quiet-IsOutcome s slices r q (interrupted quiet rest at h e f) =
      interrupted (s ∷ quiet) rest at (q, h) e f
  quiet-IsOutcome s slices r q (timed_out quiet rest at h e f d k) =
      timed_out (s ∷ quiet) rest at (q, h) e f d k

timed_out-IsOutcome :
    {A : Type 0} (deadline : Option (ℕ × ℕ)) (s : Slice A) (rest : List (Slice A)) (p : Process)
    → p.interrupt_flag ≡ 0
    → s.output ≡ none
    → s.signal ≡ false
    → is_over deadline s.now ≡ true
    → IsOutcome deadline p (s ∷ rest) (poll_loop deadline (s ∷ rest) p)
timed_out-IsOutcome none s rest p h n f o = absurd cc
timed_out-IsOutcome (some (at, total)) s rest p h n f o =
    let past : at ≤ s.now = ground arith in
    rw (poll_loop-timed_out at total [] rest s p h tt n f past)
      (timed_out [] rest s tt n f refl past)

-- A call with no interrupt pending waits through the slices in which nothing happens, and the first
-- other slice decides: it returns the future's output if the slice finished it, a signal in that same
-- slice staying pending; else it aborts as interrupted if a signal came, whatever the clock says; else
-- it gives up after the deadline's seconds. An abort leaves the process as it was.
pub poll_loop-IsOutcome :
    {A : Type 0} (deadline : Option (ℕ × ℕ)) (slices : List (Slice A)) (p : Process)
    → p.interrupt_flag ≡ 0
    → IsOutcome deadline p slices (poll_loop deadline slices p)
unfolding poll_loop
poll_loop-IsOutcome deadline [] p h = waiting tt
poll_loop-IsOutcome deadline (s ∷ rest) p h = elim (Option-cases s.output) [
  | inr (out, e) ↦ rw (poll_loop-finished deadline [] rest s out p h tt e) (finished [] rest s tt e)
  | inl n ↦ elim (Bool-cases s.signal) [
    | inl f ↦
        rw (poll_loop-interrupted deadline [] rest s p h tt n f) (interrupted [] rest s tt n f)
    | inr f ↦ elim (Bool-cases (is_over deadline s.now)) [
      | inl o ↦ timed_out-IsOutcome deadline s rest p h n f o
      | inr o ↦
          rw (poll_loop-quiet deadline (s ∷ []) rest p h ((n, f, o), tt))
            (quiet-IsOutcome deadline p s rest _ (n, f, o) (poll_loop-IsOutcome deadline rest p h))
    ]
  ]
]
