-- ===== src/Runtime/Session.antt =====
-- A session of src/rust/src/runtime.rs over time: calls, presses of Ctrl-C, and forks of the process, in
-- any order. An id that the lineage has used is not given to a later process of it.
pub mod Calls
pub mod Forked
use icebergr.Prelude.{ℕ, List, [], ◌∷◌, ◌≡◌, ◌≢◌, ◌⊎◌, Bool, true, Option, none, All}
use icebergr.Prelude.Text.{Text}
use icebergr.Runtime.{Runtime, Process, Slice, iceberg_runtime, block_on, signalled}

pub record Session : Type 0 where
  pub process : Process
  -- the ids of the process and its ancestors
  pub used : List ℕ

abbrev pub Has : ℕ → List ℕ → Type 0
Has n [] = ⊥
Has n (m ∷ ms) = (n ≡ m) ⊎ Has n ms

-- The child of a fork: a copy of the process, the started runtime included, under its own id.
abbrev pub child_of : ℕ → Session → Session
child_of id s = record { process = record s.process { id = id }; used = id ∷ s.used }

-- a session that has made no call
abbrev pub fresh : ℕ → Session
fresh id = record { process = record { id = id; tokio = none; interrupt_flag = 0 }; used = id ∷ [] }

pub data Step (s : Session) : Session → Type 1 where
  call :
      {A : Type 0} (workers timeout : Option Text) (starts : Bool) (start : ℕ)
      (slices : List (Slice A))
      → Step s (record s { process = (block_on workers timeout starts start slices s.process).1 })
  -- the start of a connection to a catalog
  connect :
      {R : Type 0} (wrap : Runtime → R) (workers : Option Text) (starts : Bool)
      → Step s (record s { process = (iceberg_runtime wrap workers starts s.process).1 })
  signal : Step s (record s { process = signalled true s.process })
  fork : (id : ℕ) → All (λ n. n ≢ id) s.used → Step s (child_of id s)

pub data Reach (s : Session) : Session → Type 1 where
  here : Reach s s
  next : {t u : Session} → Reach s t → Step t u → Reach s u
