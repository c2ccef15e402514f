-- ===== src/Progress/Log.antt =====
-- `logProgress` of internal/progress/tracker.go: the values that it logs. `elapsed` is the time since
-- the start, in nanoseconds.
use victoriametrics_data_mig.Prelude.{
  ℕ, ◌+◌, ◌*◌, ◌/◌, ◌-◌, ◌%◌, ◌^◌, ◌++◌, Text, codes, decimal, ltb, if◌then◌else◌, Float, ℤ, pos,
  negsuc,
}
use victoriametrics_data_mig.Scheduler.Queue.{TaskQueue, stats, total_bytes}
use victoriametrics_data_mig.Progress.Tracker.{Tracker}
use victoriametrics_data_mig.Progress.Report.{Formats, human_bytes}

pub record Logged : Type 0 where
  pub elapsed : Text
  pub total_tasks : ℕ
  pub succeeded : ℕ
  pub pending : ℕ
  pub running : ℕ
  pub failed : ℕ
  pub abandoned : ℕ
  pub bytes_transferred : Text
  pub time_range : Text
  pub current_range : Text
  pub eta : Text

-- A product of durations is an `int64`.
unfoldable pub to_int64 : ℕ → ℤ
to_int64 n = let m = n % 2 ^ 64 in if ltb m (2 ^ 63) then pos m else negsuc (2 ^ 64 - 1 - m)

-- The average time of a task that succeeded, for each task that waits or runs.
unfoldable pub remaining : ℕ → ℕ → ℕ → ℤ
remaining elapsed succeeded left = to_int64 (elapsed / succeeded * left)

-- `rounded` is `Round(time.Second).String()`.
module _ (F : Float) (formats : Formats F) (rounded : ℤ → Text) where
  unfoldable pub log_progress : ℕ → Tracker → TaskQueue → Logged
  log_progress elapsed t q = record {
    elapsed = rounded (pos elapsed);
    total_tasks = (stats q).total;
    succeeded = (stats q).succeeded;
    pending = (stats q).pending;
    running = (stats q).running;
    failed = (stats q).failed;
    abandoned = (stats q).abandoned;
    bytes_transferred = human_bytes F formats (total_bytes q);
    time_range = decimal (t.current_range + 1) ++ (codes "/" ++ decimal t.total_ranges);
    current_range = t.current_range_str;
    eta =
        if ltb 0 (stats q).succeeded
        then rounded (remaining elapsed (stats q).succeeded ((stats q).pending + (stats q).running))
        else codes "calculating...";
  }
