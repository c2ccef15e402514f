-- ===== src/Orchestrator/Migration.antt =====
-- The parts of `Run` of internal/orchestrator/orchestrator.go: the compilation of the exclude
-- patterns, what it does for a time range, and the error that it returns in the end. The compiler of
-- patterns and the verb `%q` are parameters. The logs are left out.
pub mod Loop
pub mod Begins
pub mod Settled
pub mod Counted
pub mod Conserved
pub mod Once
mod Splits
pub mod Quiet
pub mod Tasks
pub mod Planned
pub mod Ends
pub mod Tests
use victoriametrics_data_mig.Prelude.{
  ℕ, ◌≡◌, true, Bool, List, [], ◌∷◌, ◌++◌, Option, none, some, Text, codes, decimal, Result, err,
  ok, wrapped, then_ok, if◌then◌else◌, ltb, ◌+◌, false, length, ℤ,
}
use victoriametrics_data_mig.Types.{Task}
use victoriametrics_data_mig.Scheduler.Calendar.{Time}
use victoriametrics_data_mig.Scheduler.TimeRange.{TimeRange, show_range}
use victoriametrics_data_mig.Progress.Tracker.{
  Tracker, new_tracker, start, stop, set_current_range, Ticks,
}
use victoriametrics_data_mig.Scheduler.Queue.{
  TaskQueue, MigrationState, StateFile, Heap, add_tasks, is_complete, stats, new_task_queue,
}
use victoriametrics_data_mig.Worker.Pool.{WorkerConn}
use victoriametrics_data_mig.Orchestrator.Selectors.{create_tasks_for_metric, filter_metrics}
use victoriametrics_data_mig.Orchestrator.Execute.{
  Exec, dispatching, receiving, make_tasks, new_refs, Run,
}

-- A compiled pattern is the test of a text.
unfoldable pub compile_exclude_patterns :
    (Text → Result (Text → Bool)) → (Text → Text) → List Text → Result (List (Text → Bool))
compile_exclude_patterns compile quoted [] = ok []
compile_exclude_patterns compile quoted (p ∷ patterns) =
    then_ok
      (wrapped (codes "invalid exclude pattern " ++ (quoted p ++ codes ": "))
        (compile (codes "^" ++ (p ++ codes "$"))))
      (λ re.
        then_ok (compile_exclude_patterns compile quoted patterns) (λ compiled. ok (re ∷ compiled)))

-- The state with the workers that are connected and no task yet.
unfoldable pub begin_migration : List WorkerConn → Heap → Text → StateFile → Exec
begin_migration workers heap state_file disk = record {
  queue = new_task_queue heap state_file disk;
  task_counter = 0;
  workers = workers;
  flying = [];
  results = [];
  counters = record {
    succeeded = 0;
    abandoned = 0;
    resplit = 0;
    task_retries = 0;
    bytes_transferred = 0;
  };
  pc = dispatching;
}

-- The metrics of internal/metrics/metrics.go that the loop moves.
pub record Gauges : Type 0 where
  pub time_ranges_total : ℕ
  pub time_ranges_processed : ℕ
  pub metrics_discovered : ℕ
  pub no_split : ℕ

-- The variables of `Run` that the loop changes.
pub record Migrating : Type 0 where
  pub exec : Exec
  pub tracker : Tracker
  pub total_metrics : ℕ
  pub gauges : Gauges

-- What stands before the loop over `ranges` ranges.
unfoldable pub begin_loop : Time → ℤ → ℕ → Exec → Migrating
begin_loop now interval ranges exec = record {
  exec = exec;
  tracker = new_tracker now interval ranges;
  total_metrics = 0;
  gauges = record {
    time_ranges_total = ranges;
    time_ranges_processed = 0;
    metrics_discovered = 0;
    no_split = 0;
  };
}

-- `o.tracker.SetCurrentRange(rangeIdx, tr.String())`.
unfoldable pub visit : ℕ → Text → Migrating → Migrating
visit i range_str m = record m { tracker = set_current_range i range_str m.tracker }

-- The counts of the metrics that a range has after the filter.
unfoldable pub count_metrics : List Text → Migrating → Migrating
count_metrics metrics m = record m {
  total_metrics = m.total_metrics + length metrics;
  gauges = record (m.gauges) {
    metrics_discovered = length metrics;
    no_split = m.gauges.no_split + length metrics;
  };
}

-- `intmetrics.TimeRangesProcessed.Inc()`.
unfoldable pub processed : Migrating → Migrating
processed m = record m {
  gauges = record (m.gauges) { time_ranges_processed = m.gauges.time_ranges_processed + 1 };
}

-- The execution of the range's tasks has left `exec`, and the tracker, which was started before, is
-- stopped.
unfoldable pub end_range : Exec → Tracker → Migrating → Migrating
end_range exec tracker m = record m { exec = exec; tracker = stop tracker }

-- The error of a context that was cancelled.
abbrev pub cancelled_text : Text
cancelled_text = codes "context canceled"

module _ (max_retries : ℕ) (filter_match : Text) where
  abbrev pub make_task : TimeRange → Text → ℕ → Task
  make_task tr metric n = create_tasks_for_metric max_retries filter_match metric tr n

  -- The tasks of the metrics of a range are made and added, and `executeTasks` is called.
  unfoldable pub begin_range : List Text → TimeRange → Exec → Exec
  begin_range metrics tr s =
      let (n, heap) = make_tasks (make_task tr) metrics s.task_counter s.queue.heap in
      record s {
        queue = add_tasks (new_refs metrics s.task_counter) (record (s.queue) { heap = heap });
        task_counter = n;
        pc = dispatching;
      }

  -- The same for the variables of `Run`.
  unfoldable pub begin_tasks : List Text → TimeRange → Migrating → Migrating
  unfolding begin_range count_metrics
  begin_tasks metrics tr m = record (count_metrics metrics m) {
    exec = begin_range metrics tr m.exec;
  }

-- The error that `Run` returns after the loop, from the abandoned tasks of the report.
unfoldable pub run_error : TaskQueue → Option Text
run_error q =
    if ltb 0 (stats q).abandoned
    then some (
        decimal (stats q).abandoned
        ++ codes " tasks failed permanently, see logs above for details")
    else none
