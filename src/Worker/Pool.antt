-- ===== src/Worker/Pool.antt =====
-- The pool of worker connections of internal/worker/manager.go. A `*workerConn` is its index in
-- `workers`; the mutex makes each method one step.
pub mod Busy
use victoriametrics_data_mig.Prelude.{
  ℕ, zero, suc, ◌-◌, Bool, true, false, not, List, [], ◌∷◌, Option, none, some, Text, ◌==◌,
  if◌then◌else◌, length, keep,
}

-- The connection and its client are the grpc library's.
pub record WorkerConn : Type 0 where
  pub pod_name : Text
  pub addr : Text
  pub busy : Bool

-- The loop from the worker of index `i`.
unfoldable pub acquire_from : ℕ → List WorkerConn → Option (ℕ × List WorkerConn)
acquire_from i [] = none
acquire_from i (w ∷ ws) = elim w.busy [
  | false ↦ some (i, record w { busy = true } ∷ ws)
  | true ↦ elim (acquire_from (suc i) ws) [ none ↦ none | some (j, vs) ↦ some (j, w ∷ vs) ]
]

unfoldable pub acquire_worker : List WorkerConn → Option (ℕ × List WorkerConn)
acquire_worker ws = acquire_from 0 ws

unfoldable pub release_from : ℕ → ℕ → List WorkerConn → List WorkerConn
release_from i j [] = []
release_from i j (w ∷ ws) =
    if i == j then record w { busy = false } ∷ ws else w ∷ release_from (suc i) j ws

unfoldable pub release_worker : ℕ → List WorkerConn → List WorkerConn
release_worker j ws = release_from 0 j ws

pub idle_worker_count : List WorkerConn → ℕ
idle_worker_count ws = length (keep (λ w. not w.busy) ws)

pub worker_count : List WorkerConn → ℕ
worker_count ws = length ws

-- What `intmetrics.ActiveWorkers` is set to.
unfoldable pub active_workers : List WorkerConn → ℕ
unfolding idle_worker_count worker_count
active_workers ws = worker_count ws - idle_worker_count ws
