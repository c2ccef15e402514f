-- ===== src/Orchestrator/Migration/Conserved.antt =====
-- What the tasks weigh together that `Run` of internal/orchestrator/orchestrator.go has brought to
-- success. The weight of a task is any measure of its selector and its times, such as how often it
-- selects a sample.
use victoriametrics_data_mig.Prelude.{
  ℕ, ◌+◌, ◌<◌, ◌≡◌, refl, Bool, false, List, [], ◌∷◌, Option, none, Text, Result, ℤ, arith, length,
  sum_of,
}
use victoriametrics_data_mig.Scheduler.Calendar.{Time}
use victoriametrics_data_mig.Scheduler.TimeRange.{TimeRange, show_range}
use victoriametrics_data_mig.Scheduler.Queue.{Heap, StateFile, is_complete, new_task_queue}
use victoriametrics_data_mig.Scheduler.Queue.Mass.{weight, mass, add_tasks-mass}
use victoriametrics_data_mig.Worker.Pool.{WorkerConn}
use victoriametrics_data_mig.Worker.Pool.Busy.{busy_workers}
use victoriametrics_data_mig.Orchestrator.Selectors.{
  build_optimistic_selector, create_tasks_for_metric, extract_base_selector, filter_metrics,
}
use victoriametrics_data_mig.Orchestrator.Execute.{Exec, new_refs}
use victoriametrics_data_mig.Orchestrator.Execute.Invariant.{IsExec}
use victoriametrics_data_mig.Orchestrator.Execute.Safety.{Run-IsExec}
use victoriametrics_data_mig.Orchestrator.Execute.Numbering.{make_heap}
use victoriametrics_data_mig.Orchestrator.Execute.Conserved.{
  Conserves, Run-mass, make-mass, make-sum,
}
use victoriametrics_data_mig.Orchestrator.Migration.{
  Migrating, begin_loop, begin_migration, begin_range, begin_tasks, count_metrics, end_range,
  make_task, processed, run_error, visit,
}
use victoriametrics_data_mig.Orchestrator.Migration.Begins.{begin_migration-IsExec}
use victoriametrics_data_mig.Orchestrator.Migration.Loop.{Ranges}
use victoriametrics_data_mig.Orchestrator.Migration.Counted.{left_of}
use victoriametrics_data_mig.Orchestrator.Migration.Settled.{
  begin_tasks-IsExec, Ranges-IsSettled, Ranges-complete, complete_empty,
}

-- The weight of a metric over a range.
abbrev pub weight_of_metric : (Text → Time → Time → ℕ) → Text → TimeRange → Text → ℕ
weight_of_metric weigh filter_match tr metric =
    weigh (build_optimistic_selector metric (extract_base_selector filter_match)) tr.start tr.end

-- That of the metrics that are found in the ranges and left by the filter.
abbrev pub weight_of_ranges :
    (Text → Time → Time → ℕ)
    → Text
    → List (Text → Bool)
    → (TimeRange → Result (List Text))
    → List TimeRange
    → ℕ
weight_of_ranges weigh filter_match excludes discover [] = 0
weight_of_ranges weigh filter_match excludes discover (tr ∷ trs) =
    sum_of (weight_of_metric weigh filter_match tr) (left_of excludes (discover tr))
    + weight_of_ranges weigh filter_match excludes discover trs

module _ (weigh : Text → Time → Time → ℕ) (max_retries : ℕ) (filter_match : Text) where
  begin_range-mass :
      (metrics : List Text) (tr : TimeRange) (s : Exec)
      → IsExec s
      → mass weigh (begin_range max_retries filter_match metrics tr s).queue
        ≡ mass weigh s.queue + sum_of (weight_of_metric weigh filter_match tr) metrics
  unfolding begin_range create_tasks_for_metric
  begin_range-mass metrics tr s h =
      let make = make_task max_retries filter_match tr in
      let heap = make_heap make metrics s.task_counter s.queue.heap in
      omega (
        arith,
        add_tasks-mass weigh (new_refs metrics s.task_counter) (record (s.queue) { heap = heap }),
        make-mass weigh make metrics s h.queue h.numbered,
        make-sum weigh make (weight_of_metric weigh filter_match tr) (λ a n. refl) metrics
            s.task_counter s.queue.heap,
      )

  module _ (dry_run : Bool) (excludes : List (Text → Bool))
      (discover : TimeRange → Result (List Text)) (date : Time → Text) where
    -- Every split that is found in a range weighs as much as its task.
    abbrev pub ConservesAll :
        {i : ℕ} {trs : List TimeRange} {m n : Migrating} {r : Option Text}
        → Ranges max_retries filter_match dry_run excludes discover date i trs m r n
        → Type 0
    ConservesAll Ranges.finished = Unit
    ConservesAll (Ranges.cancelled tr) = Unit
    ConservesAll (Ranges.ticked k ticks rs) = ConservesAll rs
    ConservesAll (Ranges.undiscovered tr message failed rs) = ConservesAll rs
    ConservesAll (Ranges.empty tr metrics found none_left rs) = ConservesAll rs
    ConservesAll (Ranges.planned tr metrics found some_left dry rs) = ConservesAll rs
    ConservesAll (Ranges.interrupted tr metrics found some_left wet run waits open_queue ticks) =
        Conserves weigh run
    ConservesAll (Ranges.executed tr metrics found some_left wet run complete ticks rs) =
        Conserves weigh run × ConservesAll rs

    Ranges-mass :
        {i : ℕ} {trs : List TimeRange} {m n : Migrating}
        (rs : Ranges max_retries filter_match dry_run excludes discover date i trs m none n)
        → ConservesAll rs
        → IsExec m.exec
        → mass weigh n.exec.queue
          ≡ mass weigh m.exec.queue + weight_of_ranges weigh filter_match excludes discover trs
    unfolding visit processed count_metrics end_range begin_tasks
    Ranges-mass Ranges.finished c h = omega arith
    Ranges-mass (Ranges.ticked k ticks rs) c h = Ranges-mass rs c h
    Ranges-mass (Ranges.undiscovered tr message failed rs) c h =
        rw failed (omega (arith, Ranges-mass rs c h))
    Ranges-mass (Ranges.empty tr metrics found none_left rs) c h =
        rw (found, none_left) (omega (arith, Ranges-mass rs c h))
    Ranges-mass {i} {m = m} (Ranges.planned tr metrics found some_left dry rs) c h =
        let left = filter_metrics metrics excludes in
        let begun =
          begin_tasks-IsExec max_retries filter_match left tr i (show_range date tr) m h in
        rw found (omega (arith, Ranges-mass rs c begun, begin_range-mass left tr m.exec h))
    Ranges-mass {i} {m = m} (Ranges.executed tr metrics found some_left wet run complete ticks rs)
          (c, d) h =
        let left = filter_metrics metrics excludes in
        let begun =
          begin_tasks-IsExec max_retries filter_match left tr i (show_range date tr) m h in
        rw found (
          omega (
            arith,
            Ranges-mass rs d (Run-IsExec max_retries begun run),
            Run-mass weigh max_retries run c begun,
            begin_range-mass left tr m.exec h,
          ))

  module _ (excludes : List (Text → Bool)) (discover : TimeRange → Result (List Text))
      (date : Time → Text) where
    -- Tasks are weighed by any measure of their selectors and times. Where some worker is connected,
    -- none is busy, and every split that was found weighs as much as the task that it stands for, a
    -- migration, not a dry run, that comes to the end of its ranges and returns no error has succeeded
    -- with tasks that together weigh as much as the selectors of the metrics that were found in the
    -- ranges and not excluded, each over its range. One such measure is how often a sample is selected.
    pub Ranges-conserves :
        (now : Time) (interval : ℤ) (workers : List WorkerConn) (heap : Heap) (state_file : Text)
        (disk : StateFile) (trs : List TimeRange) (n : Migrating)
        → 0 < length workers
        → busy_workers workers ≡ []
        → (rs : Ranges max_retries filter_match false excludes discover date 0 trs
            (begin_loop now interval (length trs) (begin_migration workers heap state_file disk))
            none
            n)
        → ConservesAll false excludes discover date rs
        → run_error n.exec.queue ≡ none
        → sum_of (λ r. weight weigh (n.exec.queue.heap r)) n.exec.queue.done
          ≡ weight_of_ranges weigh filter_match excludes discover trs
    unfolding begin_loop begin_migration new_task_queue mass is_complete
    Ranges-conserves now interval workers heap state_file disk trs n staffed idle rs c fine =
        let begun = begin_migration-IsExec workers heap state_file disk staffed idle in
        let (_, error_iff) =
          Ranges-IsSettled max_retries filter_match excludes discover date now interval workers heap
            state_file disk trs n staffed idle rs in
        let (none_waits, none_runs) =
          complete_empty n.exec.queue
            (Ranges-complete max_retries filter_match excludes discover date rs refl) in
        let kept = Ranges-mass false excludes discover date rs c begun in
        omega (arith, rw (none_waits, none_runs, error_iff.0 fine) at kept)
