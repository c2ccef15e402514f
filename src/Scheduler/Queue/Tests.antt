-- ===== src/Scheduler/Queue/Tests.antt =====
-- A run of the queue of internal/scheduler/task.go.
use mathlib.Core.List.{Mem, Nodup, Nodup-nil, Nodup-cons, not-mem-nil}
use victoriametrics_data_mig.Prelude.{
  ◌↔◌, ◌+◌, ◌≡◌, refl, inl, true, false, List, [], ◌∷◌, none, map, codes, All, length, is_empty,
}
use victoriametrics_data_mig.Scheduler.Calendar.{Time}
use victoriametrics_data_mig.Types.{Task, pending}
use victoriametrics_data_mig.Scheduler.Queue.{
  Ref, Heap, absent, holds, TaskQueue, Env, MigrationState, new_task_queue, add_tasks, next_task,
  fail_task, stats, persist_state, is_abandoned,
}
use victoriametrics_data_mig.Scheduler.Queue.Invariant.{IsQueue, IsReplaced}
use victoriametrics_data_mig.Scheduler.Queue.Reach.{
  Reach, Step, AddNew, listed_tasks, Reach-IsQueue, stats_total,
}
use victoriametrics_data_mig.Scheduler.Queue.Saved.{
  count_status, is_succeeded, persist_state_counts,
}

abbrev pub noon : Time
noon = record { wall = 63_000_000_000_000_000_000; zone = 86_400_000_000_000 }

abbrev pub first_task : Task
first_task = record {
  id = codes "t1";
  metric_name = codes "up";
  selector = codes "{__name__=\"up\"}";
  time_start = noon;
  time_end = noon;
  est_series_count = 7;
  status = pending;
  attempts = 0;
  max_retries = 1;
  worker_id = [];
  error = [];
  started_at = none;
  completed_at = none;
  bytes_transferred = 0;
  split_attempted = false;
}

abbrev pub heap : Heap
heap r = first_task

abbrev pub env : Env
env = record { now = noon; can_write = true; leaves = absent }

abbrev pub empty_queue : TaskQueue
empty_queue = new_task_queue heap (codes "state.json") absent

abbrev pub added : TaskQueue
added = add_tasks (0 ∷ []) empty_queue

abbrev pub taken : TaskQueue
taken = (next_task env added).1

abbrev pub failed_once : TaskQueue
failed_once = (fail_task env (codes "t1") (codes "oom") taken).1

pub run : Reach empty_queue failed_once
run =
    Reach.next (Reach.next (Reach.next Reach.here (Step.adds (0 ∷ []))) (Step.takes env))
      (Step.fails env (codes "t1") (codes "oom"))

pub run-AddNew : AddNew run
unfolding run new_task_queue
run-AddNew = (((tt, (((inl refl, inl refl), tt), Nodup-cons.1 (not-mem-nil, Nodup-nil))), tt), tt)

Reach-IsQueue_example : IsQueue failed_once
Reach-IsQueue_example = Reach-IsQueue heap (codes "state.json") absent run run-AddNew

stats_total_example :
    (gone : List Ref) × Nodup gone
    × ((j : Ref) → Mem j gone ↔ (Mem j failed_once.tasks × ¬ Mem j (listed_tasks failed_once)))
    × All (λ j. IsReplaced (failed_once.heap j)) gone
    × ((stats failed_once).total
        ≡ (stats failed_once).pending
          + (stats failed_once).running
          + (stats failed_once).succeeded
          + (stats failed_once).failed
          + length gone)
    × ((stats failed_once).abandoned ≡ (stats failed_once).failed)
stats_total_example = stats_total heap (codes "state.json") absent run run-AddNew

has_file : is_empty failed_once.state_file ≡ false
unfolding fail_task next_task add_tasks new_task_queue persist_state
has_file = refl

persist_state_counts_example :
    (s : MigrationState) × ((persist_state env failed_once).disk ≡ holds s)
    × (s.tasks ≡ map failed_once.heap failed_once.tasks)
    × (count_status is_succeeded s.tasks ≡ s.completed_tasks)
    × (count_status is_abandoned s.tasks ≡ s.failed_tasks)
persist_state_counts_example =
    persist_state_counts env failed_once
      (Reach-IsQueue heap (codes "state.json") absent run run-AddNew) has_file refl
