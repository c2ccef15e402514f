-- ===== src/Orchestrator/Execute.antt =====
-- `executeTasks` of internal/orchestrator/orchestrator.go, with `resplitFailedTask` cut down to the
-- selectors that it finds. The main goroutine dispatches tasks and receives results; each task has a
-- goroutine that runs it on a worker, releases the worker and sends the result. A step of the model
-- is one turn of the dispatch loop, one goroutine's end, or one result received: the goroutines take
-- them in any order. The channel's capacity only delays a send, and the main goroutine may take the
-- results in any order.
pub mod Numbering
pub mod Invariant
pub mod Handled
pub mod Safety
pub mod Answers
pub mod Progress
pub mod Measure
pub mod Handles
pub mod Termination
pub mod Conserved
pub mod Tests
use victoriametrics_data_mig.Prelude.{
  ℕ, zero, suc, ◌+◌, ◌≡◌, Bool, true, false, not, ◌&&◌, ◌||◌, List, [], ◌∷◌, ◌++◌, Option, none,
  some, Text, codes, is_empty, decimal, if◌then◌else◌, ℤ, is_zero, show_int,
}
use victoriametrics_data_mig.Types.{Task, pending}
use victoriametrics_data_mig.Splitter.Selector.{SelectorInfo}
use victoriametrics_data_mig.Scheduler.Queue.{
  Ref, Heap, update, TaskQueue, Env, next_task, get_task, complete_task, fail_task, replace_tasks,
  is_complete,
}
use victoriametrics_data_mig.Worker.Pool.{WorkerConn, acquire_worker, release_worker}
use victoriametrics_data_mig.Orchestrator.Cardinality.{is_cardinality_related_error}

-- `worker.TaskResult`.
pub record TaskResult : Type 0 where
  pub exit_code : ℤ
  pub logs : Text
  pub error_message : Text
  pub bytes_transferred : ℕ

pub data Outcome : Type 0 where
  dispatch_error : Text → Outcome
  ran : TaskResult → Outcome

-- The counters of internal/metrics/metrics.go that results move.
pub record Counters : Type 0 where
  pub succeeded : ℕ
  pub abandoned : ℕ
  pub resplit : ℕ
  pub task_retries : ℕ
  pub bytes_transferred : ℕ

-- A goroutine that runs a task on a worker.
pub record Flight : Type 0 where
  pub worker : ℕ
  pub task_id : Text

pub record Received : Type 0 where
  pub task_id : Text
  pub outcome : Outcome

pub data Pc : Type 0 where
  dispatching receiving : Pc

pub record Exec : Type 0 where
  pub queue : TaskQueue
  pub task_counter : ℕ
  pub workers : List WorkerConn
  pub flying : List Flight
  pub results : List Received
  pub counters : Counters
  pub pc : Pc

-- `fmt.Sprintf("t%d", o.taskCounter)`.
unfoldable pub task_id : ℕ → Text
task_id n = b't' ∷ decimal n

-- The addresses of the new tasks.
unfoldable pub new_refs {ℓ} : {A : Type ℓ} → List A → ℕ → List Ref
new_refs [] n = []
new_refs (a ∷ more) n = (n + 1) ∷ new_refs more (n + 1)

-- A loop that makes a task of each item, from the counter `n`: the new counter, and the heap with one
-- more task for each item. A new task stands at the address that is its number.
unfoldable pub make_tasks {ℓ} : {A : Type ℓ} → (A → ℕ → Task) → List A → ℕ → Heap → ℕ × Heap
make_tasks make [] n heap = (n, heap)
make_tasks make (a ∷ more) n heap =
    make_tasks make more (n + 1) (update heap (n + 1) (make a (n + 1)))

module _ (max_retries : ℕ) where
  abbrev pub sub_task : Task → SelectorInfo → ℕ → Task
  sub_task task sel n = record {
    id = task_id n;
    metric_name = task.metric_name;
    selector = sel.selector;
    time_start = task.time_start;
    time_end = task.time_end;
    est_series_count = sel.est_series_count;
    status = pending;
    attempts = 0;
    max_retries = max_retries;
    worker_id = [];
    error = [];
    started_at = none;
    completed_at = none;
    bytes_transferred = 0;
    split_attempted = true;
  }

  -- The loop over the selectors.
  abbrev pub make_sub_tasks : Task → List SelectorInfo → ℕ → Heap → ℕ × Heap
  make_sub_tasks task sels n heap = make_tasks (λ sel m. sub_task task sel m) sels n heap

  -- `retrying := o.queue.FailTask(...)`, and the counter that follows.
  unfoldable pub fail : Env → Text → Text → Exec → Exec
  fail env id msg s =
      let (retrying, q) = fail_task env id msg s.queue in
      if retrying
      then record s {
        queue = q;
        counters = record (s.counters) { task_retries = s.counters.task_retries + 1 };
      }
      else record s {
        queue = q;
        counters = record (s.counters) { abandoned = s.counters.abandoned + 1 };
      }

  -- `subTasks` are the tasks for the selectors of `resplitFailedTask`, none where it found no split
  -- or failed.
  unfoldable pub resplit : Env → Text → Text → Task → List SelectorInfo → Exec → Exec
  unfolding fail
  resplit env id reason task [] s = fail env id reason s
  resplit env id reason task (sel ∷ sels) s =
      let (n, heap) = make_sub_tasks task (sel ∷ sels) s.task_counter s.queue.heap in
      record s {
        queue =
            replace_tasks env id (new_refs (sel ∷ sels) s.task_counter)
              (record (s.queue) { heap = heap });
        task_counter = n;
        counters = record (s.counters) { resplit = s.counters.resplit + 1 };
      }

  abbrev reason_of : TaskResult → Text
  reason_of res =
      if is_empty res.error_message
      then codes "vmctl exited with code " ++ show_int res.exit_code
      else res.error_message

  -- vmctl failed. `plan` is what `resplitFailedTask` finds for a task.
  unfoldable pub handle_failure : Env → (Task → List SelectorInfo) → Text → TaskResult → Exec → Exec
  handle_failure env plan id res s = elim (get_task id s.queue) [
    | none ↦ fail env id (reason_of res) s
    | some r ↦
        let task = s.queue.heap r in
        if not task.split_attempted
          && (is_cardinality_related_error res.logs || is_cardinality_related_error (reason_of res))
        then resplit env id (reason_of res) task (plan task) s
        else fail env id (reason_of res) s
  ]

  unfoldable pub succeed : Env → Text → ℕ → Exec → Exec
  succeed env id bytes s = record s {
    queue = complete_task env id bytes s.queue;
    counters = record (s.counters) {
      succeeded = s.counters.succeeded + 1;
      bytes_transferred = s.counters.bytes_transferred + bytes;
    };
  }

  -- The body of `case r := <-resultCh`.
  unfoldable pub handle : Env → (Task → List SelectorInfo) → Received → Exec → Exec
  handle env plan r s = elim r.outcome [
    | dispatch_error msg ↦ fail env r.task_id msg s
    | ran res ↦
        if is_zero res.exit_code
        then succeed env r.task_id res.bytes_transferred s
        else handle_failure env plan r.task_id res s
  ]

unfoldable pub launch : ℕ → List WorkerConn → Exec → Option Ref × TaskQueue → Exec
launch w ws s (none, q) = record s { queue = q; workers = release_worker w ws; pc = receiving }
launch w ws s (some r, q) = record s {
  queue = q;
  workers = ws;
  flying = s.flying ++ record { worker = w; task_id = (q.heap r).id } ∷ [];
}

-- One turn of the loop of `dispatchNext`.
unfoldable pub dispatch : Env → Exec → Exec
unfolding launch
dispatch env s = elim (acquire_worker s.workers) [
  | none ↦ record s { pc = receiving }
  | some (w, ws) ↦ launch w ws s (next_task env s.queue)
]

-- The goroutine `f` gets its answer, releases its worker and sends the result.
unfoldable pub finish : Flight → Outcome → List Flight → Exec → Exec
finish f outcome others s = record s {
  flying = others;
  workers = release_worker f.worker s.workers;
  results = s.results ++ record { task_id = f.task_id; outcome = outcome } ∷ [];
}

pub data Step (max_retries : ℕ) (s : Exec) : Exec → Type 0 where
  turns : (env : Env) → s.pc ≡ dispatching → Step max_retries s (dispatch env s)
  ends :
      (f : Flight) (outcome : Outcome) (front back : List Flight)
      → s.flying ≡ front ++ f ∷ back
      → Step max_retries s (finish f outcome (front ++ back) s)
  takes :
      (env : Env) (plan : Task → List SelectorInfo) (r : Received) (front back : List Received)
      → s.pc ≡ receiving
      → is_complete s.queue ≡ false
      → s.results ≡ front ++ r ∷ back
      → Step max_retries s
          (handle max_retries env plan r (record s { results = front ++ back; pc = dispatching }))

pub data Run (max_retries : ℕ) (s : Exec) : Exec → Type 0 where
  here : Run max_retries s s
  next : {t u : Exec} → Run max_retries s t → Step max_retries t u → Run max_retries s u
