-- ===== src/Runtime/Tests.antt =====
-- The runtime's theorems at concrete inputs.
use icebergr.Prelude.{
  ℕ, [], ◌∷◌, ◌≡◌, ◌≢◌, ◌≤◌, refl, Option, none, some, true, false, arith, Result, err, inl, inr,
}
use icebergr.Prelude.Text.{Text, codes}
use icebergr.Runtime.{Runtime, Process, Abort, Slice, poll_loop, block_on}
use icebergr.Runtime.Session.{Session, Has, child_of, fresh, Step, Reach}
use icebergr.Runtime.Session.Forked.{block_on-IsForeign, block_on-IsRefused, Reach-tokio}
use icebergr.Runtime.Polling.{poll_loop-ends}
use icebergr.Runtime.Outcome.{IsOutcome, poll_loop-IsOutcome}

abbrev many : Option Text
many = some (codes "100")

-- process 7, with a runtime that process 3 started
abbrev parent_runtime : Runtime
parent_runtime = record { owner = 3; workers = 2 }

abbrev child : Process
child = record { id = 7; tokio = some parent_runtime; interrupt_flag = 0 }

abbrev interrupted : Process
interrupted = record child { interrupt_flag = 1 }

-- slices that end nothing, finish, carry a signal, and come late
abbrev idle : Slice ℕ
idle = record { output = none; signal = false; now = 200 }

abbrev finishing : Slice ℕ
finishing = record { output = some 5; signal = true; now = 400 }

abbrev pressed : Slice ℕ
pressed = record { output = none; signal = true; now = 400 }

abbrev late : Slice ℕ
late = record { output = none; signal = false; now = 1200 }

poll_loop-IsOutcome_example :
    IsOutcome
      (some (1000, 1))
      child
      (idle ∷ pressed ∷ late ∷ [])
      (poll_loop (some (1000, 1)) (idle ∷ pressed ∷ late ∷ []) child)
poll_loop-IsOutcome_example =
    poll_loop-IsOutcome (some (1000, 1)) (idle ∷ pressed ∷ late ∷ []) child refl

poll_loop-ends_example :
    (r : Result Abort ℕ) × ((poll_loop (some (1000, 1)) (idle ∷ late ∷ []) child).0 ≡ some r)
poll_loop-ends_example = poll_loop-ends 1000 1 (idle ∷ late ∷ []) child (inr (inl (omega arith)))

-- Process 3 starts the runtime in a call and forks process 7, which gets Ctrl-C and forks process 8.
abbrev started : Session
started = record {
  process = record { id = 3; tokio = some parent_runtime; interrupt_flag = 0 };
  used = 3 ∷ [];
}

started-Reach : Reach (fresh 3) started
unfolding block_on
started-Reach = Reach.next Reach.here (Step.call {A = ℕ} none none true 0 (idle ∷ []))

abbrev pressed_child : Session
pressed_child = record (child_of 7 started) {
  process = record { id = 7; tokio = some parent_runtime; interrupt_flag = 1 };
}

abbrev grandchild : Session
grandchild = child_of 8 pressed_child

grandchild-Reach : Reach (child_of 7 started) grandchild
grandchild-Reach =
    Reach.next (Reach.next Reach.here Step.signal)
      (Step.fork 8 (omega arith, (omega arith, record {})))

block_on-IsForeign_example :
    block_on none none true 5 (finishing ∷ []) grandchild.process
    ≡ (some (err Abort.forked), grandchild.process)
block_on-IsForeign_example =
    block_on-IsForeign 3 7 started grandchild parent_runtime none none true 5 (finishing ∷ [])
      started-Reach refl (omega arith, record {}) grandchild-Reach

child-Reach : Reach (fresh 3) (child_of 7 started)
child-Reach = Reach.next started-Reach (Step.fork 7 (omega arith, record {}))

block_on-IsRefused_example :
    (rt : Runtime) × (child.tokio ≡ some rt) × Has rt.owner (7 ∷ 3 ∷ []) × (rt.owner ≢ 7)
unfolding block_on
block_on-IsRefused_example =
    block_on-IsRefused 3 (child_of 7 started) none none true 0 (idle ∷ []) child-Reach refl

Reach-tokio_example :
    (grandchild.process.tokio ≡ some parent_runtime)
    × (1 ≤ parent_runtime.workers)
    × (parent_runtime.workers ≤ 64)
    × Has parent_runtime.owner grandchild.used
Reach-tokio_example =
    Reach-tokio 3 (child_of 7 started) grandchild parent_runtime child-Reach refl grandchild-Reach
