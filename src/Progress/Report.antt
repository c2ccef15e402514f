-- ===== src/Progress/Report.antt =====
-- The final report of internal/progress/tracker.go and the file that it is written to. The formats of times, durations and float64 are
-- the libraries'.
pub mod Counts
pub mod Tests
use mathlib.Core.Option
use victoriametrics_data_mig.Prelude.{
  ℕ, ◌+◌, ◌*◌, Bool, ◌&&◌, List, [], ◌∷◌, ◌++◌, map, Text, codes, decimal, leb, ltb, if◌then◌else◌,
  length, keep, Float, pos, Option, some, Result, err, ok,
}
use victoriametrics_data_mig.Scheduler.Calendar.{Time}
use victoriametrics_data_mig.Types.{Task}
use victoriametrics_data_mig.Scheduler.Queue.{
  TaskQueue, stats, total_bytes, get_failed_tasks, get_all_tasks,
}
use victoriametrics_data_mig.Scheduler.Queue.Saved.{is_succeeded}
use victoriametrics_data_mig.Progress.Tracker.{Tracker}

pub record FailedTaskDetail : Type 0 where
  pub id : Text
  pub selector : Text
  pub time_range : Text
  pub error : Text
  pub attempts : ℕ

pub record MigrationReport : Type 0 where
  pub start_time : Time
  pub end_time : Time
  pub duration : Text
  pub total_tasks : ℕ
  pub succeeded : ℕ
  pub failed : ℕ
  pub abandoned : ℕ
  pub retried : ℕ
  pub total_bytes : ℕ
  pub total_bytes_human : Text
  pub metrics_migrated : ℕ
  pub time_ranges_total : ℕ
  pub time_ranges_done : ℕ
  pub failed_task_details : List FailedTaskDetail

-- `Format("2006-01-02")`, `endTime.Sub(startTime)` rounded to seconds as text, and `%.2f`.
pub record Formats (F : Float) : Type 0 where
  pub date : Time → Text
  pub elapsed : Time → Time → Text
  pub two_digits : F.Carrier → Text

abbrev pub counts_as_retried : Task → Bool
counts_as_retried t = ltb 1 t.attempts && is_succeeded t.status

module _ (F : Float) (formats : Formats F) where
  abbrev in_unit : ℕ → ℕ → Text → Text
  in_unit b unit name = formats.two_digits (F.div (F.of_int (pos b)) (F.of_int (pos unit))) ++ name

  unfoldable pub human_bytes : ℕ → Text
  human_bytes b =
      if leb (1024 * 1024 * 1024 * 1024) b
      then in_unit b (1024 * 1024 * 1024 * 1024) (codes " TB")
      else if leb (1024 * 1024 * 1024) b
      then in_unit b (1024 * 1024 * 1024) (codes " GB")
      else if leb (1024 * 1024) b
      then in_unit b (1024 * 1024) (codes " MB")
      else if leb 1024 b
      then in_unit b 1024 (codes " KB")
      else decimal b ++ codes " B"

  abbrev pub detail_of : Task → FailedTaskDetail
  detail_of t = record {
    id = t.id;
    selector = t.selector;
    time_range = formats.date t.time_start ++ (codes " — " ++ formats.date t.time_end);
    error = t.error;
    attempts = t.attempts;
  }

  unfoldable pub generate_report : Time → ℕ → Tracker → TaskQueue → MigrationReport
  generate_report now metrics_count t q = record {
    start_time = t.start_time;
    end_time = now;
    duration = formats.elapsed t.start_time now;
    total_tasks = (stats q).total;
    succeeded = (stats q).succeeded;
    failed = 0;
    abandoned = (stats q).abandoned;
    retried = length (keep counts_as_retried (map q.heap (get_all_tasks q)));
    total_bytes = total_bytes q;
    total_bytes_human = human_bytes (total_bytes q);
    metrics_migrated = metrics_count;
    time_ranges_total = t.total_ranges;
    time_ranges_done = t.current_range + 1;
    failed_task_details = map (λ r. detail_of (q.heap r)) (get_failed_tasks q);
  }

-- `marshal` is `json.MarshalIndent`, and `write` the error of `os.WriteFile`.
unfoldable pub write_report :
    (MigrationReport → Result Text)
    → (Text → Text → Option Text)
    → MigrationReport
    → Text
    → Option Text
write_report marshal write report path = elim (marshal report) [
  | err e ↦ some (codes "marshaling report: " ++ e)
  | ok data_text ↦ Option.map (λ e. codes "writing report file: " ++ e) (write path data_text)
]
