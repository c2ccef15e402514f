-- ===== src/Orchestrator/Migration/Begins.antt =====
-- A time range starts with the invariant of `executeTasks` of internal/orchestrator/orchestrator.go.
use victoriametrics_data_mig.Prelude.{ℕ, ◌<◌, ◌≡◌, refl, inl, List, [], Text, length}
use mathlib.Core.List.Perm
use victoriametrics_data_mig.Scheduler.TimeRange.{TimeRange}
use victoriametrics_data_mig.Scheduler.Queue.{Heap, StateFile, add_tasks, new_task_queue}
use victoriametrics_data_mig.Scheduler.Queue.Preserved.{add_tasks-IsQueue}
use victoriametrics_data_mig.Scheduler.Queue.Reach.{new_task_queue-IsQueue}
use victoriametrics_data_mig.Scheduler.Queue.Invariant.{IsWaiting}
use victoriametrics_data_mig.Worker.Pool.{WorkerConn}
use victoriametrics_data_mig.Worker.Pool.Busy.{busy_workers}
use victoriametrics_data_mig.Orchestrator.Selectors.{create_tasks_for_metric}
use victoriametrics_data_mig.Orchestrator.Execute.{Exec, new_refs, task_id}
use victoriametrics_data_mig.Orchestrator.Execute.Numbering.{
  make_counter, make-AreNew, make-IsQueue, make-IsNumbered,
}
use victoriametrics_data_mig.Orchestrator.Execute.Invariant.{IsExec}
use victoriametrics_data_mig.Orchestrator.Migration.{make_task, begin_range, begin_migration}

pub begin_migration-IsExec :
    (workers : List WorkerConn) (heap : Heap) (state_file : Text) (disk : StateFile)
    → 0 < length workers
    → busy_workers workers ≡ []
    → IsExec (begin_migration workers heap state_file disk)
unfolding begin_migration new_task_queue
begin_migration-IsExec workers heap state_file disk staffed idle = record {
  queue = new_task_queue-IsQueue heap state_file disk;
  numbered = tt;
  flights = Perm.refl [];
  busy = rw idle (Perm.refl []);
  counted = (refl, refl);
  staffed = staffed;
  awake = λ waits. inl refl;
}

module _ (max_retries : ℕ) (filter_match : Text) (tr : TimeRange) where
  waits :
      (metric : Text) (n : ℕ)
      → ((make_task max_retries filter_match tr metric n).id ≡ task_id n)
        × IsWaiting (make_task max_retries filter_match tr metric n)
  unfolding create_tasks_for_metric
  waits metric n = (refl, (inl refl, inl refl))

  pub begin_range-IsExec :
      (metrics : List Text) (s : Exec)
      → IsExec s
      → IsExec (begin_range max_retries filter_match metrics tr s)
  unfolding begin_range add_tasks
  begin_range-IsExec metrics s h =
      let make = make_task max_retries filter_match tr in
      let distinct =
        Perm.nodup (Perm.map (λ j. (s.queue.heap j).id) (Perm.symm h.queue.listed))
          h.queue.sound.distinct in
      record {
        queue =
            add_tasks-IsQueue (new_refs metrics s.task_counter) _
              (make-AreNew make waits metrics s.task_counter s.queue.heap s.queue h.numbered
                distinct)
              (make-IsQueue make metrics s.task_counter s.queue.heap s.queue h.numbered h.queue);
        numbered = rw (make_counter make metrics s.task_counter s.queue.heap) (
            make-IsNumbered make IsWaiting waits metrics s.task_counter s.queue.heap s.queue.tasks
              h.numbered);
        flights = h.flights;
        busy = h.busy;
        counted = h.counted;
        staffed = h.staffed;
        awake = λ waits. cc;
      }
