-- ===== src/Scheduler/Queue.antt =====
-- internal/scheduler/task.go: the task queue. The Go code holds `*types.Task` pointers, and one task
-- stands in `tasks` and in one more list, so tasks live in a `heap` and the lists hold pointers. The
-- mutex makes each method one step. The clock and the outcome of a file write are arguments.
pub mod Refs
pub mod Invariant
pub mod Moves
pub mod Preserved
pub mod Reach
pub mod Saved
pub mod Effects
pub mod Mass
pub mod Load
pub mod Tests
use victoriametrics_data_mig.Prelude.{
  ℕ, zero, suc, ◌+◌, ◌≡◌, Bool, true, false, List, [], ◌∷◌, ◌++◌, map, Option, none, some, Text,
  is_empty, Map, lookup, delete, insert, values, ltb, ◌==◌, ◌&&◌, if◌then◌else◌, length, text_eq,
  keep,
}
use victoriametrics_data_mig.Scheduler.Calendar.{Time}
use victoriametrics_data_mig.Types.{
  Task, TaskStatus, running, pending, succeeded, failed, retrying, abandoned,
}

abbrev pub Ref : Type 0
Ref = ℕ

abbrev pub Heap : Type 0
Heap = Ref → Task

abbrev pub update : Heap → Ref → Task → Heap
update heap r t j = if r == j then t else heap j

-- The fields of `types.MigrationState` that the queue writes.
pub record MigrationState : Type 0 where
  pub last_updated : Time
  pub tasks : List Task
  pub completed_tasks : ℕ
  pub failed_tasks : ℕ
  pub total_bytes : ℕ

-- The state file: a write that fails may leave it missing, as it was, or cut short.
pub data StateFile : Type 0 where
  absent : StateFile
  holds : MigrationState → StateFile
  cut_short : StateFile

pub record TaskQueue : Type 0 where
  pub heap : Heap
  pub tasks : List Ref
  pub pending : List Ref
  pub running : Map Ref
  pub done : List Ref
  pub failed : List Ref
  pub state_file : Text
  pub disk : StateFile

-- What a method takes from outside: the time, whether the file can be written, and what a write that
-- fails leaves of it.
pub record Env : Type 0 where
  pub now : Time
  pub can_write : Bool
  pub leaves : StateFile

unfoldable pub new_task_queue : Heap → Text → StateFile → TaskQueue
new_task_queue heap state_file disk = record {
  heap = heap;
  tasks = [];
  pending = [];
  running = [];
  done = [];
  failed = [];
  state_file = state_file;
  disk = disk;
}

abbrev pub sum_bytes : Heap → List Ref → ℕ
sum_bytes heap [] = 0
sum_bytes heap (r ∷ rs) = (heap r).bytes_transferred + sum_bytes heap rs

unfoldable pub total_bytes : TaskQueue → ℕ
total_bytes q = sum_bytes q.heap q.done

abbrev pub snapshot : Env → TaskQueue → MigrationState
snapshot env q = record {
  last_updated = env.now;
  tasks = map q.heap q.tasks;
  completed_tasks = length q.done;
  failed_tasks = length q.failed;
  total_bytes = sum_bytes q.heap q.done;
}

-- An error of the write is logged.
unfoldable pub persist_state : Env → TaskQueue → TaskQueue
persist_state env q =
    if is_empty q.state_file
    then q
    else if env.can_write
    then record q { disk = holds (snapshot env q) }
    else record q { disk = env.leaves }

unfoldable pub add_tasks : List Ref → TaskQueue → TaskQueue
add_tasks new q = record q { tasks = q.tasks ++ new; pending = q.pending ++ new }

unfoldable pub start : Env → Ref → List Ref → TaskQueue → TaskQueue
start env r rest q = record q {
  pending = rest;
  heap = update q.heap r (record (q.heap r) { status = running; started_at = some env.now });
  running = insert (q.heap r).id r q.running;
}

unfoldable pub next_from : Env → List Ref → TaskQueue → Option Ref × TaskQueue
unfolding start
next_from env [] q = (none, q)
next_from env (r ∷ rest) q = (some r, start env r rest q)

unfoldable pub next_task : Env → TaskQueue → Option Ref × TaskQueue
unfolding next_from
next_task env q = next_from env q.pending q

abbrev find_id : Heap → Text → List Ref → Option Ref
find_id heap id [] = none
find_id heap id (r ∷ rs) = if text_eq (heap r).id id then some r else find_id heap id rs

abbrev or_else : Option Ref → Option Ref → Option Ref
or_else none o = o
or_else (some r) o = some r

unfoldable pub get_task : Text → TaskQueue → Option Ref
get_task id q = or_else (lookup id q.running) (
    or_else (find_id q.heap id q.pending)
      (or_else (find_id q.heap id q.done) (find_id q.heap id q.failed)))

unfoldable pub complete : Env → Text → ℕ → Ref → TaskQueue → TaskQueue
complete env id bytes r q = persist_state env (record q {
  heap = update q.heap r (record (q.heap r) {
    status = succeeded;
    completed_at = some env.now;
    bytes_transferred = bytes;
  });
  running = delete id q.running;
  done = q.done ++ r ∷ [];
})

unfoldable pub complete_task : Env → Text → ℕ → TaskQueue → TaskQueue
unfolding complete
complete_task env id bytes q = elim (lookup id q.running) [
  | none ↦ q
  | some r ↦ complete env id bytes r q
]

pub retry : Env → Text → Text → Ref → TaskQueue → TaskQueue
retry env id msg r q = persist_state env (record q {
  heap =
      update q.heap r
        (record (q.heap r) { attempts = (q.heap r).attempts + 1; error = msg; status = retrying });
  running = delete id q.running;
  pending = q.pending ++ r ∷ [];
})

pub abandon : Env → Text → Text → Ref → TaskQueue → TaskQueue
abandon env id msg r q = persist_state env (record q {
  heap = update q.heap r (record (q.heap r) {
    attempts = (q.heap r).attempts + 1;
    error = msg;
    status = abandoned;
    completed_at = some env.now;
  });
  running = delete id q.running;
  failed = q.failed ++ r ∷ [];
})

-- The result says whether the task will be retried.
unfoldable pub fail_task : Env → Text → Text → TaskQueue → Bool × TaskQueue
unfolding retry abandon
fail_task env id msg q = elim (lookup id q.running) [
  | none ↦ (false, q)
  | some r ↦
      if ltb ((q.heap r).attempts + 1) (q.heap r).max_retries
      then (true, retry env id msg r q)
      else (false, abandon env id msg r q)
]

unfoldable pub replace_tasks : Env → Text → List Ref → TaskQueue → TaskQueue
replace_tasks env old new q = persist_state env (record q {
  running = delete old q.running;
  tasks = q.tasks ++ new;
  pending = q.pending ++ new;
})

abbrev pub is_abandoned : TaskStatus → Bool
is_abandoned abandoned = true
is_abandoned _ = false

unfoldable pub count_abandoned : TaskQueue → ℕ
count_abandoned q = length (keep (λ r. is_abandoned (q.heap r).status) q.failed)

pub record Stats : Type 0 where
  pub total : ℕ
  pub pending : ℕ
  pub running : ℕ
  pub succeeded : ℕ
  pub failed : ℕ
  pub abandoned : ℕ

unfoldable pub stats : TaskQueue → Stats
unfolding count_abandoned
stats q = record {
  total = length q.tasks;
  pending = length q.pending;
  running = length q.running;
  succeeded = length q.done;
  failed = length q.failed;
  abandoned = count_abandoned q;
}

abbrev pub is_nil {ℓ} : {A : Type ℓ} → List A → Bool
is_nil [] = true
is_nil (x ∷ xs) = false

unfoldable pub is_complete : TaskQueue → Bool
is_complete q = is_nil q.pending && is_nil q.running

-- The copies of slices share the task objects.
unfoldable pub get_failed_tasks : TaskQueue → List Ref
get_failed_tasks q = q.failed

unfoldable pub get_all_tasks : TaskQueue → List Ref
get_all_tasks q = q.tasks
