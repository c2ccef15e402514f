-- ===== src/Orchestrator/Migration/Quiet.antt =====
-- The goroutines that log the progress, over the loop of `Run` of
-- internal/orchestrator/orchestrator.go.
use mathlib.Core.List.{Nodup}
use victoriametrics_data_mig.Prelude.{
  ℕ, ◌≡◌, refl, true, Bool, Option, Text, Result, ap, ◌∙◌, ℤ, length, List, [],
}
use victoriametrics_data_mig.Scheduler.Calendar.{Time}
use victoriametrics_data_mig.Scheduler.TimeRange.{TimeRange, show_range}
use victoriametrics_data_mig.Progress.Tracker.{
  Tracker, Ticks, new_tracker, start, stop, set_current_range, is_positive,
}
use victoriametrics_data_mig.Progress.Tracker.Quiet.{
  IsQuiet, new_tracker-IsQuiet, start-IsTracker, stop-IsQuiet, set_current_range-IsQuiet,
  Ticks-IsTracker, Ticks-IsQuiet,
}
use victoriametrics_data_mig.Progress.Tracker.Ends.{IsQuiet-ends}
use victoriametrics_data_mig.Progress.Tracker.Fixed.{executed-fixed, Ticks-fixed}
use victoriametrics_data_mig.Orchestrator.Execute.{Exec}
use victoriametrics_data_mig.Orchestrator.Migration.{
  Migrating, begin_loop, begin_tasks, count_metrics, end_range, processed, visit,
}
use victoriametrics_data_mig.Orchestrator.Migration.Loop.{Ranges}

-- A range in which the tracker is started, has its ticks and is stopped.
executed-IsQuiet : (t k : Tracker) → IsQuiet t → Ticks (start t) k → IsQuiet (stop k)
executed-IsQuiet t k quiet ticks =
    (stop-IsQuiet k (Ticks-IsTracker ticks (start-IsTracker t quiet))).0

module _ (max_retries : ℕ) (filter_match : Text) (dry_run : Bool) (excludes : List (Text → Bool))
    (discover : TimeRange → Result (List Text)) (date : Time → Text) where
  quiet :
      {i : ℕ} {trs : List TimeRange} {m n : Migrating} {r : Option Text}
      → Ranges max_retries filter_match dry_run excludes discover date i trs m r n
      → IsQuiet m.tracker
      → IsQuiet n.tracker
  unfolding visit processed count_metrics end_range begin_tasks
  quiet Ranges.finished h = h
  quiet (Ranges.cancelled tr) h = h
  quiet (Ranges.ticked k ticks rs) h = quiet rs (Ticks-IsQuiet ticks h)
  quiet {i} {m = m} (Ranges.undiscovered tr message failed rs) h =
      quiet rs (set_current_range-IsQuiet i (show_range date tr) m.tracker h)
  quiet {i} {m = m} (Ranges.empty tr metrics found none_left rs) h =
      quiet rs (set_current_range-IsQuiet i (show_range date tr) m.tracker h)
  quiet {i} {m = m} (Ranges.planned tr metrics found some_left dry rs) h =
      quiet rs (set_current_range-IsQuiet i (show_range date tr) m.tracker h)
  quiet {i} {m = m} (Ranges.interrupted tr metrics found some_left wet run waits open_queue ticks)
        h =
      executed-IsQuiet _ _ (set_current_range-IsQuiet i (show_range date tr) m.tracker h) ticks
  quiet {i} {m = m} (Ranges.executed tr metrics found some_left wet run complete ticks rs) h =
      quiet rs
        (executed-IsQuiet _ _ (set_current_range-IsQuiet i (show_range date tr) m.tracker h) ticks)

  same_interval :
      {i : ℕ} {trs : List TimeRange} {m n : Migrating} {r : Option Text}
      → Ranges max_retries filter_match dry_run excludes discover date i trs m r n
      → n.tracker.interval ≡ m.tracker.interval
  unfolding visit processed count_metrics end_range begin_tasks set_current_range
  same_interval Ranges.finished = refl
  same_interval (Ranges.cancelled tr) = refl
  same_interval (Ranges.ticked k ticks rs) = same_interval rs ∙ ap (λ f. f.0) (Ticks-fixed ticks)
  same_interval (Ranges.undiscovered tr message failed rs) = same_interval rs
  same_interval (Ranges.empty tr metrics found none_left rs) = same_interval rs
  same_interval (Ranges.planned tr metrics found some_left dry rs) = same_interval rs
  same_interval {i} {m = m}
        (Ranges.interrupted tr metrics found some_left wet run waits open_queue ticks) =
      ap (λ f. f.0) (executed-fixed (set_current_range i (show_range date tr) m.tracker) _ ticks)
  same_interval {i} {m = m} (Ranges.executed tr metrics found some_left wet run complete ticks rs) =
      same_interval rs
      ∙ ap (λ f. f.0) (executed-fixed (set_current_range i (show_range date tr) m.tracker) _ ticks)

  -- Where the interval of the log is positive, and however the loop over the ranges ends, cancelled
  -- ones included, whenever the goroutines that log the progress move, while tasks run or between the
  -- ranges: no channel of the tracker was closed twice, which would panic, and all these goroutines
  -- can come to their end.
  pub Ranges-IsQuiet :
      (now : Time) (interval : ℤ) (exec : Exec) (trs : List TimeRange) (n : Migrating)
      (r : Option Text)
      → is_positive interval ≡ true
      → Ranges max_retries filter_match dry_run excludes discover date 0 trs
          (begin_loop now interval (length trs) exec)
          r
          n
      → Nodup n.tracker.closed × Ticks n.tracker (record (n.tracker) { tickers = [] })
  unfolding begin_loop new_tracker
  Ranges-IsQuiet now interval exec trs n r positive rs =
      let h = quiet rs (new_tracker-IsQuiet now interval (length trs)) in
      (h.0.distinct, IsQuiet-ends n.tracker (ap is_positive (same_interval rs) ∙ positive) h)
