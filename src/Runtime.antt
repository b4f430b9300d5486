-- ===== src/Runtime.antt =====
-- src/rust/src/runtime.rs: the shared runtime, and `block_on`. The process, its environment, R's
-- interrupt flag and the clock are values; what each poll slice of a future finds is a list.
pub mod Aborts
pub mod Outcome
pub mod Polling
pub mod Session
mod Tests
use icebergr.Prelude.{
  ℕ, zero, suc, ◌+◌, ◌*◌, List, [], ◌∷◌, Bool, true, false, not, ◌&&◌, Option, none, some, ◌==◌,
  ltb, leb, min, if◌then◌else◌, unwrap_or, and_then, Result, ok, err, ◌>>=◌,
}
use icebergr.Prelude.Int.{parse_unsigned}
use icebergr.Prelude.Text.{Text}

abbrev pub max_worker_threads : ℕ
max_worker_threads = 64

abbrev pub default_timeout_seconds : ℕ
default_timeout_seconds = 300

-- milliseconds between two looks at the interrupt flag
abbrev pub poll : ℕ
poll = 200

-- `filter(|n| *n > 0).map(|n| n.min(MAX_WORKER_THREADS)).unwrap_or(2)` on the variable's text.
unfoldable pub worker_threads : Option Text → ℕ
unfolding parse_unsigned
worker_threads var =
    let asked = and_then var (λ v. parse_unsigned 64 10 v) in
    let positive = and_then asked (λ n. if ltb 0 n then some n else none) in
    unwrap_or (and_then positive (λ n. some (min n max_worker_threads))) 2

-- In seconds; `none` is no ceiling.
unfoldable pub timeout_duration : Option Text → Option ℕ
unfolding parse_unsigned
timeout_duration var =
    let secs = unwrap_or (and_then var (λ v. parse_unsigned 64 10 v)) default_timeout_seconds in
    if ltb 0 secs then some secs else none

-- `TOKIO`: who started the runtime and with how many workers, once it is started.
pub record Runtime : Type 0 where
  pub owner : ℕ
  pub workers : ℕ

pub record Process : Type 0 where
  pub id : ℕ
  pub tokio : Option Runtime
  pub interrupt_flag : ℕ

-- The panics of this module: each carries the prefix of a deliberate abort.
pub data Abort : Type 0 where
  forked interrupted : Abort
  gave_up_after : ℕ → Abort
  not_started : Abort

unfoldable pub owned_by_this_process : Process → ℕ → Bool
owned_by_this_process p owner = owner == p.id

-- `get_or_init`, then the test of the owner. `starts` is whether the builder succeeds; a panic in the
-- initialiser leaves the cell empty.
unfoldable pub tokio_runtime : Option Text → Bool → Process → Result Abort Runtime × Process
unfolding owned_by_this_process worker_threads
tokio_runtime var starts p = elim p.tokio [
  | some rt ↦ (if owned_by_this_process p rt.owner then ok rt else err Abort.forked, p)
  | none ↦
      if starts
      then (let rt : Runtime = record { owner = p.id; workers = worker_threads var } in
          (
            if owned_by_this_process p rt.owner then ok rt else err Abort.forked,
            record p { tokio = some rt },
          ))
      else (err Abort.not_started, p)
]

-- The handle that every catalog builder is given; `wrap` is iceberg-rust's `Runtime::new`.
unfoldable pub iceberg_runtime :
    {R : Type 0} → (Runtime → R) → Option Text → Bool → Process → Result Abort R × Process
unfolding tokio_runtime
iceberg_runtime wrap var starts p =
    let (rt, q) = tokio_runtime var starts p in (rt >>= λ r. ok (wrap r), q)

-- Whether the flag was set, and the process with the flag clear.
unfoldable pub take_interrupt : Process → Bool × Process
take_interrupt p =
    if not (p.interrupt_flag == 0) then (true, record p { interrupt_flag = 0 }) else (false, p)

-- One poll slice: the future's output if it finished within it, R's flag after it if a signal came in
-- meanwhile, and the clock in milliseconds.
pub record Slice (A : Type 0) : Type 0 where
  pub output : Option A
  pub signal : Bool
  pub now : ℕ

abbrev pub signalled : Bool → Process → Process
signalled b p = if b then record p { interrupt_flag = 1 } else p

abbrev pub is_over : Option (ℕ × ℕ) → ℕ → Bool
is_over none now = false
is_over (some (at, total)) now = leb at now

abbrev total_of : Option (ℕ × ℕ) → ℕ
total_of none = 0
total_of (some (at, total)) = total

-- the deadline, from the clock at the start
unfoldable pub deadline_from : ℕ → Option ℕ → Option (ℕ × ℕ)
deadline_from start none = none
deadline_from start (some secs) = some (start + secs * 1000, secs)

module _ {A : Type 0} where
  -- The loop of `block_on`, over what the slices find. `none` is a future that is still being polled at
  -- the end of the list.
  unfoldable pub poll_loop :
      Option (ℕ × ℕ) → List (Slice A) → Process → Option (Result Abort A) × Process
  unfolding take_interrupt
  poll_loop deadline [] p = (none, p)
  poll_loop deadline (s ∷ rest) p =
      let (pressed, q) = take_interrupt (signalled s.signal p) in
      let more = poll_loop deadline rest q in
      elim s.output [
        | some out ↦ (some (ok out), signalled s.signal p)
        | none ↦
            if pressed
            then (some (err Abort.interrupted), q)
            else if is_over deadline s.now
            then (some (err (Abort.gave_up_after (total_of deadline))), q)
            else more
      ]

  unfoldable pub block_on :
      Option Text
      → Option Text
      → Bool
      → ℕ
      → List (Slice A)
      → Process
      → Option (Result Abort A) × Process
  unfolding tokio_runtime timeout_duration poll_loop deadline_from
  block_on workers timeout starts start slices p =
      let (rt, q) = tokio_runtime workers starts p in
      elim rt [
        | err e ↦ (some (err e), q)
        | ok _ ↦ poll_loop (deadline_from start (timeout_duration timeout)) slices q
      ]
