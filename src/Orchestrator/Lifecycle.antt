-- ===== src/Orchestrator/Lifecycle.antt =====
-- `Run` of internal/orchestrator/orchestrator.go from its first to its last line: the workers are
-- deployed, the dates parsed, the time ranges split, the exclude patterns compiled, the ranges
-- processed, and the report made; the error of `Cleanup`, which follows, is only logged. Kubernetes, the clock, packages time and
-- regexp, and the discovery of metrics are arguments. The metrics server and the logs are left out; an
-- error of writing the report is only logged.
pub mod Once
pub mod Finished
pub mod Completes
mod Tests
mod OnceTests
use victoriametrics_data_mig.Prelude.{
  ℕ, ◌≡◌, Bool, true, false, not, ◌&&◌, List, [], Option, none, some, Text, codes, length, Result,
  err, ok, wrapped, then_ok, if◌then◌else◌, Float, ℤ, pos, negsuc,
}
use victoriametrics_data_mig.Scheduler.Calendar.{Time}
use victoriametrics_data_mig.Scheduler.TimeRange.{TimeRange, split_time_range}
use victoriametrics_data_mig.Scheduler.Queue.{
  TaskQueue, Heap, MigrationState, StateFile, new_task_queue,
}
use victoriametrics_data_mig.Config.{Config}
use victoriametrics_data_mig.Config.Validate.{TimeText, parse_date}
use victoriametrics_data_mig.Worker.Pool.{WorkerConn}
use victoriametrics_data_mig.Worker.Deploy.{Poll}
use victoriametrics_data_mig.Worker.Connect.{Pod, Network, deploy_workers}
use victoriametrics_data_mig.Worker.Manager.{cleanup}
use victoriametrics_data_mig.Progress.Report.{Formats, MigrationReport, generate_report}
use victoriametrics_data_mig.Orchestrator.Migration.{
  Migrating, compile_exclude_patterns, begin_migration, begin_loop, run_error,
}
use victoriametrics_data_mig.Orchestrator.Migration.Loop.{Ranges}

-- What Kubernetes and the network answer: to the creation of the Deployment, to the rounds of the wait,
-- and to the listing of the pods.
pub record Cluster : Type 0 where
  pub net : Network
  pub created : Option Text
  pub polls : List Poll
  pub pods : Result (List Pod)

-- The libraries' functions: of a pattern the test of a text, and of a duration's text its nanoseconds,
-- 0 where it does not parse.
pub record Libraries (F : Float) : Type 0 where
  pub formats : Formats F
  pub time_text : TimeText
  pub duration : Text → ℤ
  pub compile : Text → Result (Text → Bool)

-- How a run ended: its error, the queue, and the report.
pub record Ended : Type 0 where
  pub error : Option Text
  pub queue : TaskQueue
  pub report : Option MigrationReport

-- A negative `MaxRetries` allows no retry, as 0 does.
abbrev pub retries_of : ℤ → ℕ
retries_of (pos n) = n
retries_of (negsuc n) = 0

module _ {F : Float} (libs : Libraries F) (cfg : Config F) (dry_run : Bool) where
  -- The workers, none in a dry run.
  unfoldable pub deploy : Cluster → Result (List WorkerConn)
  deploy k =
      if dry_run
      then ok []
      else wrapped (codes "deploying workers: ") (deploy_workers cfg k.net k.created k.polls k.pods)

  -- The time ranges, `none` where splitting does not end, and the compiled patterns.
  unfoldable pub prepare : Result (Option (List TimeRange) × List (Text → Bool))
  prepare =
      let p = libs.time_text in
      then_ok (wrapped (codes "parsing start date: ") (parse_date p cfg.migration.start_date))
        (λ start_date.
          then_ok (wrapped (codes "parsing end date: ") (parse_date p cfg.migration.end_date))
            (λ end_date.
              then_ok
                (wrapped (codes "compiling exclude patterns: ")
                  (compile_exclude_patterns libs.compile p.quote cfg.exclude_metrics))
                (λ excludes. ok (
                  split_time_range start_date end_date cfg.migration.time_step
                      cfg.migration.reverse_order,
                  excludes,
                ))))

  module _ (k : Cluster) (discover : TimeRange → Result (List Text)) (now later : Time)
      (heap : Heap) (state_file : Text) (disk : StateFile) where
    -- The variables before the loop.
    unfoldable pub begin_run : List WorkerConn → List TimeRange → Migrating
    begin_run workers ranges =
        begin_loop now (libs.duration cfg.logging.progress_interval) (length ranges)
          (begin_migration workers heap state_file disk)

    abbrev pub Loop :
        List WorkerConn → List TimeRange → List (Text → Bool) → Option Text → Migrating → Type 0
    Loop workers ranges excludes error m =
        Ranges (retries_of cfg.retry.max_retries) cfg.migration.filter_match dry_run excludes
          discover libs.formats.date 0 ranges (begin_run workers ranges) error m

    pub data Runs : Ended → Type 0 where
      undeployed :
          (e : Text)
          → deploy k ≡ err e
          → Runs (record {
            error = some e;
            queue = new_task_queue heap state_file disk;
            report = none;
          })
      unprepared :
          (workers : List WorkerConn) (e : Text)
          → deploy k ≡ ok workers
          → prepare ≡ err e
          → Runs (record {
            error = some e;
            queue = new_task_queue heap state_file disk;
            report = none;
          })
      stopped :
          (workers : List WorkerConn) (ranges : List TimeRange) (excludes : List (Text → Bool))
          (e : Text) (m : Migrating)
          → deploy k ≡ ok workers
          → prepare ≡ ok (some ranges, excludes)
          → Loop workers ranges excludes (some e) m
          → Runs (record { error = some e; queue = m.exec.queue; report = none })
      planned :
          (workers : List WorkerConn) (ranges : List TimeRange) (excludes : List (Text → Bool))
          (m : Migrating)
          → deploy k ≡ ok workers
          → prepare ≡ ok (some ranges, excludes)
          → dry_run ≡ true
          → Loop workers ranges excludes none m
          → Runs (record { error = none; queue = m.exec.queue; report = none })
      finished :
          (workers : List WorkerConn) (ranges : List TimeRange) (excludes : List (Text → Bool))
          (m : Migrating)
          → deploy k ≡ ok workers
          → prepare ≡ ok (some ranges, excludes)
          → dry_run ≡ false
          → Loop workers ranges excludes none m
          → Runs (record {
            error = run_error m.exec.queue;
            queue = m.exec.queue;
            report =
                some (generate_report F libs.formats later m.total_metrics m.tracker m.exec.queue);
          })
