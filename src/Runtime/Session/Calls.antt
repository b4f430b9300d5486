-- ===== src/Runtime/Session/Calls.antt =====
-- What one call does to a process: it leaves the id alone, and a runtime that is started.
use icebergr.Prelude.{
  ℕ, List, [], ◌∷◌, ◌≡◌, ◌≢◌, ◌⊎◌, inl, inr, refl, arith, Bool, Option, some, ok, err, Option-cases,
  Result-cases, Bool-cases,
}
use icebergr.Prelude.Text.{Text}
use icebergr.Runtime.{
  Process, Runtime, Abort, Slice, tokio_runtime, iceberg_runtime, block_on, poll_loop,
  take_interrupt, signalled, deadline_from, timeout_duration, worker_threads,
}

-- A call leaves the id and a started runtime alone.
pub tokio_runtime-started :
    (workers : Option Text) (starts : Bool) (p : Process) (rt : Runtime)
    → p.tokio ≡ some rt
    → (tokio_runtime workers starts p).1 ≡ p
unfolding tokio_runtime
tokio_runtime-started workers starts p rt e = ground arith

pub tokio_runtime-id :
    (workers : Option Text) (starts : Bool) (p : Process)
    → (tokio_runtime workers starts p).1.id ≡ p.id
unfolding tokio_runtime
tokio_runtime-id workers starts p = ground arith

module _ {A : Type 0} where
  poll_loop-keeps :
      (deadline : Option (ℕ × ℕ)) (slices : List (Slice A)) (p : Process)
      → ((poll_loop deadline slices p).1.id ≡ p.id)
        × ((poll_loop deadline slices p).1.tokio ≡ p.tokio)
  unfolding poll_loop take_interrupt
  poll_loop-keeps deadline [] p = (refl, refl)
  poll_loop-keeps deadline (s ∷ rest) p =
      ground (arith, poll_loop-keeps deadline rest (take_interrupt (signalled s.signal p)).1)

  poll_loop-not_forked :
      (deadline : Option (ℕ × ℕ)) (slices : List (Slice A)) (p : Process)
      → (poll_loop deadline slices p).0 ≢ some (err Abort.forked)
  unfolding poll_loop
  poll_loop-not_forked deadline [] p h = absurd cc
  poll_loop-not_forked deadline (s ∷ rest) p h =
      let later = poll_loop-not_forked deadline rest (take_interrupt (signalled s.signal p)).1 in
      absurd (ground arith)

  block_on-err :
      (workers timeout : Option Text) (starts : Bool) (start : ℕ) (slices : List (Slice A))
      (p : Process) (e : Abort)
      → (tokio_runtime workers starts p).0 ≡ err e
      → block_on workers timeout starts start slices p
        ≡ (some (err e), (tokio_runtime workers starts p).1)
  unfolding block_on
  block_on-err workers timeout starts start slices p e h = rw (block_on, h) refl

  block_on-ok :
      (workers timeout : Option Text) (starts : Bool) (start : ℕ) (slices : List (Slice A))
      (p : Process) (rt : Runtime)
      → (tokio_runtime workers starts p).0 ≡ ok rt
      → block_on workers timeout starts start slices p
        ≡ poll_loop
            (deadline_from start (timeout_duration timeout))
            slices
            (tokio_runtime workers starts p).1
  unfolding block_on
  block_on-ok workers timeout starts start slices p rt h = rw (block_on, h) refl

  pub block_on-keeps :
      (workers timeout : Option Text) (starts : Bool) (start : ℕ) (slices : List (Slice A))
      (p : Process)
      → ((block_on workers timeout starts start slices p).1.id ≡ p.id)
        × ((block_on workers timeout starts start slices p).1.tokio
            ≡ (tokio_runtime workers starts p).1.tokio)
  block_on-keeps workers timeout starts start slices p =
      let same_id = tokio_runtime-id workers starts p in
      elim (Result-cases (tokio_runtime workers starts p).0) [
        | inl (e, h) ↦
            let all = block_on-err workers timeout starts start slices p e h in
            (ground (arith, all, same_id), ground (arith, all))
        | inr (rt, h) ↦
            let all = block_on-ok workers timeout starts start slices p rt h in
            let (i, t) =
              poll_loop-keeps (deadline_from start (timeout_duration timeout)) slices
                (tokio_runtime workers starts p).1 in
            (ground (arith, all, same_id, i), ground (arith, all, t))
      ]

  pub block_on-refused :
      (workers timeout : Option Text) (starts : Bool) (start : ℕ) (slices : List (Slice A))
      (p : Process) (rt : Runtime)
      → p.tokio ≡ some rt
      → rt.owner ≢ p.id
      → block_on workers timeout starts start slices p ≡ (some (err Abort.forked), p)
  unfolding block_on tokio_runtime
  block_on-refused workers timeout starts start slices p rt e h = ground arith

  pub block_on-forked :
      (workers timeout : Option Text) (starts : Bool) (start : ℕ) (slices : List (Slice A))
      (p : Process)
      → (block_on workers timeout starts start slices p).0 ≡ some (err Abort.forked)
      → (tokio_runtime workers starts p).0 ≡ err Abort.forked
  block_on-forked workers timeout starts start slices p h =
      elim (Result-cases (tokio_runtime workers starts p).0) [
        | inl (e, k) ↦
            let all = block_on-err workers timeout starts start slices p e k in ground (arith, all)
        | inr (rt, k) ↦
            let all = block_on-ok workers timeout starts start slices p rt k in
            let never =
              poll_loop-not_forked (deadline_from start (timeout_duration timeout)) slices
                (tokio_runtime workers starts p).1 in
            absurd (ground (arith, all))
      ]

pub tokio_runtime-err :
    (workers : Option Text) (starts : Bool) (p : Process)
    → (tokio_runtime workers starts p).0 ≡ err Abort.forked
    → (rt : Runtime) × (p.tokio ≡ some rt) × (rt.owner ≢ p.id)
unfolding tokio_runtime
tokio_runtime-err workers starts p h = elim (Option-cases p.tokio) [
  | inl n ↦ absurd (ground arith)
  | inr (rt, e) ↦ (rt, e, ground arith)
]

pub tokio_runtime-owner :
    (workers : Option Text) (starts : Bool) (p : Process) (rt : Runtime)
    → (tokio_runtime workers starts p).1.tokio ≡ some rt
    → (p.tokio ≡ some rt) ⊎ ((rt.owner ≡ p.id) × (rt.workers ≡ worker_threads workers))
unfolding tokio_runtime
tokio_runtime-owner workers starts p rt h = elim (Option-cases p.tokio) [
  | inl n ↦ elim (Bool-cases starts) [
    | inl s ↦ inr (ground arith, ground arith)
    | inr s ↦ absurd (ground arith)
  ]
  | inr (old, e) ↦ inl (ground arith)
]

pub iceberg_runtime-process :
    {R : Type 0} (wrap : Runtime → R) (workers : Option Text) (starts : Bool) (p : Process)
    → (iceberg_runtime wrap workers starts p).1 ≡ (tokio_runtime workers starts p).1
unfolding iceberg_runtime
iceberg_runtime-process wrap workers starts p = refl
