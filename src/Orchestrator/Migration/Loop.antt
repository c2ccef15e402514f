-- ===== src/Orchestrator/Migration/Loop.antt =====
-- The loop of `Run` of internal/orchestrator/orchestrator.go over the time ranges. `discover` is what
-- `DiscoverMetrics` answers for a range, and `date` the format of dates.
use victoriametrics_data_mig.Prelude.{
  ℕ, ◌+◌, ◌≡◌, true, false, Bool, List, [], ◌∷◌, ◌++◌, Option, none, some, Text, codes, Result, err,
  ok,
}
use victoriametrics_data_mig.Scheduler.Calendar.{Time}
use victoriametrics_data_mig.Scheduler.TimeRange.{TimeRange, show_range}
use victoriametrics_data_mig.Scheduler.Queue.{is_complete}
use victoriametrics_data_mig.Progress.Tracker.{Tracker, start, Ticks}
use victoriametrics_data_mig.Orchestrator.Selectors.{filter_metrics}
use victoriametrics_data_mig.Orchestrator.Execute.{Exec, receiving, Run}
use victoriametrics_data_mig.Orchestrator.Migration.{
  Migrating, visit, count_metrics, processed, begin_tasks, end_range, cancelled_text,
}

module _ (max_retries : ℕ) (filter_match : Text) (dry_run : Bool) (excludes : List (Text → Bool))
    (discover : TimeRange → Result (List Text)) (date : Time → Text) where
  abbrev pub enter_range : List Text → TimeRange → ℕ → Migrating → Migrating
  enter_range metrics tr i m =
      begin_tasks max_retries filter_match (filter_metrics metrics excludes) tr
        (visit i (show_range date tr) m)

  -- The loop over the ranges from the index `i` on, with the error that it returns. A range whose
  -- metrics cannot be discovered is skipped, as is one without metrics; a dry run only adds the
  -- tasks; for any other range the tasks run until the queue is complete. The context may be
  -- cancelled before a range, or while `executeTasks` waits for a result. The goroutines of the tracker
  -- move while the tasks run, and `ticked` between the ranges.
  pub data Ranges : ℕ → List TimeRange → Migrating → Option Text → Migrating → Type 0 where
    finished : {i : ℕ} {m : Migrating} → Ranges i [] m none m
    cancelled :
        {i : ℕ} {trs : List TimeRange} {m : Migrating} (tr : TimeRange)
        → Ranges i (tr ∷ trs) m (some cancelled_text) m
    ticked :
        {i : ℕ} {trs : List TimeRange} {m n : Migrating} {r : Option Text} (k : Tracker)
        → Ticks m.tracker k
        → Ranges i trs (record m { tracker = k }) r n
        → Ranges i trs m r n
    undiscovered :
        {i : ℕ} {trs : List TimeRange} {m n : Migrating} {r : Option Text} (tr : TimeRange)
        (e : Text)
        → discover tr ≡ err e
        → Ranges (i + 1) trs (visit i (show_range date tr) m) r n
        → Ranges i (tr ∷ trs) m r n
    empty :
        {i : ℕ} {trs : List TimeRange} {m n : Migrating} {r : Option Text} (tr : TimeRange)
        (metrics : List Text)
        → discover tr ≡ ok metrics
        → filter_metrics metrics excludes ≡ []
        → Ranges (i + 1) trs (processed (count_metrics [] (visit i (show_range date tr) m))) r n
        → Ranges i (tr ∷ trs) m r n
    planned :
        {i : ℕ} {trs : List TimeRange} {m n : Migrating} {r : Option Text} (tr : TimeRange)
        (metrics : List Text)
        → discover tr ≡ ok metrics
        → (¬ filter_metrics metrics excludes ≡ [])
        → dry_run ≡ true
        → Ranges (i + 1) trs (processed (enter_range metrics tr i m)) r n
        → Ranges i (tr ∷ trs) m r n
    interrupted :
        {i : ℕ} {trs : List TimeRange} {m : Migrating} {t : Exec} {k : Tracker} (tr : TimeRange)
        (metrics : List Text)
        → discover tr ≡ ok metrics
        → (¬ filter_metrics metrics excludes ≡ [])
        → dry_run ≡ false
        → Run max_retries (enter_range metrics tr i m).exec t
        → t.pc ≡ receiving
        → is_complete t.queue ≡ false
        → Ticks (start (enter_range metrics tr i m).tracker) k
        → Ranges i
            (tr ∷ trs)
            m
            (some (
              codes "executing tasks for range "
              ++ (show_range date tr ++ (codes ": " ++ cancelled_text))))
            (end_range t k (enter_range metrics tr i m))
    executed :
        {i : ℕ} {trs : List TimeRange} {m n : Migrating} {r : Option Text} {t : Exec} {k : Tracker}
        (tr : TimeRange) (metrics : List Text)
        → discover tr ≡ ok metrics
        → (¬ filter_metrics metrics excludes ≡ [])
        → dry_run ≡ false
        → Run max_retries (enter_range metrics tr i m).exec t
        → is_complete t.queue ≡ true
        → Ticks (start (enter_range metrics tr i m).tracker) k
        → Ranges (i + 1) trs (processed (end_range t k (enter_range metrics tr i m))) r n
        → Ranges i (tr ∷ trs) m r n
