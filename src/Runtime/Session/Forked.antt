-- ===== src/Runtime/Session/Forked.antt =====
-- Whom the runtime serves: the process that started it, and no process forked from it under a new id.
use icebergr.Prelude.{
  ℕ, ◌≤◌, List, [], ◌∷◌, ◌≡◌, ◌≢◌, inl, inr, refl, arith, Bool, Option, some, err, All,
}
use icebergr.Prelude.Text.{Text}
use icebergr.Runtime.{Process, Runtime, Abort, Slice, tokio_runtime, iceberg_runtime, block_on}
use icebergr.Runtime.Polling.{worker_threads-bounds}
use icebergr.Runtime.Session.{
  Session, Has, child_of, fresh, Step, call, connect, signal, fork, Reach, here, next,
}
use icebergr.Runtime.Session.Calls.{
  iceberg_runtime-process, tokio_runtime-started, tokio_runtime-id, block_on-keeps,
  block_on-refused, block_on-forked, tokio_runtime-err, tokio_runtime-owner,
}

All-Has : (P : ℕ → Type 0) (ns : List ℕ) (n : ℕ) → All P ns → Has n ns → P n
All-Has P [] n h m = elim m [ ]
All-Has P (k ∷ ns) n (hk, h) m = elim m [ inl e ↦ rw e hk | inr later ↦ All-Has P ns n h later ]

-- an owner in the lineage, and a bounded number of workers
abbrev IsServed : Runtime → List ℕ → Type 0
IsServed rt used = Has rt.owner used × (1 ≤ rt.workers) × (rt.workers ≤ 64)

-- the id of a session and the owner of its runtime are in its lineage
abbrev IsRecorded : Session → Type 0
IsRecorded s =
    Has s.process.id s.used × ((rt : Runtime) → s.process.tokio ≡ some rt → IsServed rt s.used)

-- what a call makes of a process
called-IsRecorded :
    (s : Session) (q : Process) (workers : Option Text) (starts : Bool)
    → q.id ≡ s.process.id
    → q.tokio ≡ (tokio_runtime workers starts s.process).1.tokio
    → IsRecorded s
    → IsRecorded (record s { process = q })
called-IsRecorded s q workers starts i t (hid, howner) = (
  rw i hid,
  λ rt e. elim (tokio_runtime-owner workers starts s.process rt cc) [
    | inl old ↦ howner rt old
    | inr (mine, count) ↦ (
      rw mine hid,
      rw count (worker_threads-bounds workers).0,
      rw count (worker_threads-bounds workers).1,
    )
  ],
)

Step-IsRecorded : {s t : Session} → Step s t → IsRecorded s → IsRecorded t
Step-IsRecorded {s} (call workers timeout starts start slices) h =
    let (i, t) = block_on-keeps workers timeout starts start slices s.process in
    called-IsRecorded s (block_on workers timeout starts start slices s.process).1 workers starts i
      t h
Step-IsRecorded {s} (connect wrap workers starts) h =
    let all = iceberg_runtime-process wrap workers starts s.process in
    let i = tokio_runtime-id workers starts s.process in
    called-IsRecorded s (iceberg_runtime wrap workers starts s.process).1 workers starts
      (ground (arith, all, i)) (ground (arith, all)) h
Step-IsRecorded signal h = h
Step-IsRecorded (fork id new) (hid, howner) =
    (inl refl, λ rt e. let (m, lo, hi) = howner rt e in (inr m, lo, hi))

Reach-IsRecorded : {s t : Session} → Reach s t → IsRecorded s → IsRecorded t
Reach-IsRecorded here h = h
Reach-IsRecorded (next r st) h = Step-IsRecorded st (Reach-IsRecorded r h)

fresh-IsRecorded : (id : ℕ) → IsRecorded (fresh id)
fresh-IsRecorded id = (inl refl, λ rt e. absurd cc)

-- A runtime that another process of the lineage started.
abbrev IsForeign : Runtime → Session → Type 0
IsForeign rt s = (s.process.tokio ≡ some rt) × Has rt.owner s.used × (rt.owner ≢ s.process.id)

Step-IsForeign : {s t : Session} (rt : Runtime) → Step s t → IsForeign rt s → IsForeign rt t
Step-IsForeign {s} rt (call workers timeout starts start slices) (e, m, n) =
    let all = block_on-refused workers timeout starts start slices s.process rt e n in
    (ground (arith, all), m, ground (arith, all))
Step-IsForeign {s} rt (connect wrap workers starts) (e, m, n) =
    let here = iceberg_runtime-process wrap workers starts s.process in
    let all = tokio_runtime-started workers starts s.process rt e in
    (ground (arith, here, all), m, ground (arith, here, all))
Step-IsForeign rt signal h = h
Step-IsForeign {s} rt (fork id new) (e, m, n) =
    (e, inr m, All-Has (λ k. k ≢ id) s.used rt.owner new m)

Reach-IsForeign : {s t : Session} (rt : Runtime) → Reach s t → IsForeign rt s → IsForeign rt t
Reach-IsForeign rt here h = h
Reach-IsForeign rt (next r st) h = Step-IsForeign rt st (Reach-IsForeign rt r h)

-- If the system gives each forked process an id that neither its parent nor any ancestor has had, then
-- once a process has started the runtime, no process forked from it, and none forked from those, is
-- served: whatever calls, interrupts and forks come in between, each call of `block_on` is refused at
-- once as forked, without a look at its future, and leaves the process as it was. A child that gets
-- the id of an ancestor that has exited is outside: the check compares ids alone.
pub block_on-IsForeign :
    {A : Type 0} (first child : ℕ) (s t : Session) (rt : Runtime) (workers timeout : Option Text)
    (starts : Bool) (start : ℕ) (slices : List (Slice A))
    → Reach (fresh first) s
    → s.process.tokio ≡ some rt
    → All (λ n. n ≢ child) s.used
    → Reach (child_of child s) t
    → block_on workers timeout starts start slices t.process ≡ (some (err Abort.forked), t.process)
block_on-IsForeign first child s t rt workers timeout starts start slices r e new after =
    let (hid, howner) = Reach-IsRecorded r (fresh-IsRecorded first) in
    let (e1, m, n) =
      Reach-IsForeign rt after
        (e, inr (howner rt e).0, All-Has (λ k. k ≢ child) s.used rt.owner new (howner rt e).0) in
    block_on-refused workers timeout starts start slices t.process rt e1 n

-- A call is refused as forked only in a process forked, directly or not, from one that started the
-- runtime: the runtime is there, and its owner is an ancestor and not the process itself.
pub block_on-IsRefused :
    {A : Type 0} (first : ℕ) (s : Session) (workers timeout : Option Text) (starts : Bool)
    (start : ℕ) (slices : List (Slice A))
    → Reach (fresh first) s
    → (block_on workers timeout starts start slices s.process).0 ≡ some (err Abort.forked)
    → (rt : Runtime) × (s.process.tokio ≡ some rt) × Has rt.owner s.used × (rt.owner ≢ s.process.id)
block_on-IsRefused first s workers timeout starts start slices r h =
    let (hid, howner) = Reach-IsRecorded r (fresh-IsRecorded first) in
    let forked = block_on-forked workers timeout starts start slices s.process h in
    let (rt, e, n) = tokio_runtime-err workers starts s.process forked in
    (rt, e, (howner rt e).0, n)

Step-tokio :
    {s t : Session} (rt : Runtime)
    → Step s t
    → s.process.tokio ≡ some rt
    → t.process.tokio ≡ some rt
Step-tokio {s} rt (call workers timeout starts start slices) e =
    let (i, t) = block_on-keeps workers timeout starts start slices s.process in
    let all = tokio_runtime-started workers starts s.process rt e in ground (arith, t, all)
Step-tokio {s} rt (connect wrap workers starts) e =
    let here = iceberg_runtime-process wrap workers starts s.process in
    let all = tokio_runtime-started workers starts s.process rt e in ground (arith, here, all)
Step-tokio rt signal e = e
Step-tokio rt (fork id new) e = e

Reach-kept :
    {s t : Session} (rt : Runtime)
    → Reach s t
    → s.process.tokio ≡ some rt
    → t.process.tokio ≡ some rt
Reach-kept rt here e = e
Reach-kept rt (next r st) e = Step-tokio rt st (Reach-kept rt r e)

-- The runtime of a session, once started, is never replaced, not even in a forked child; it has between
-- 1 and 64 workers, and its owner is the process or an ancestor of it.
pub Reach-tokio :
    (first : ℕ) (s t : Session) (rt : Runtime)
    → Reach (fresh first) s
    → s.process.tokio ≡ some rt
    → Reach s t
    → (t.process.tokio ≡ some rt) × (1 ≤ rt.workers) × (rt.workers ≤ 64) × Has rt.owner t.used
Reach-tokio first s t rt r e after =
    let kept = Reach-kept rt after e in
    let (hid, howner) = Reach-IsRecorded after (Reach-IsRecorded r (fresh-IsRecorded first)) in
    let (m, lo, hi) = howner rt kept in (kept, lo, hi, m)
