-- ===== src/Orchestrator/Lifecycle/Completes.antt =====
-- `Run` of internal/orchestrator/orchestrator.go comes to its report.
use victoriametrics_data_mig.Prelude.{
  ◌≡◌, refl, false, true, none, [], Bool, List, some, Text, Result, ok, Float,
}
use victoriametrics_data_mig.Scheduler.Calendar.{Time}
use victoriametrics_data_mig.Scheduler.TimeRange.{TimeRange}
use victoriametrics_data_mig.Scheduler.Queue.{Heap, StateFile, Env}
use victoriametrics_data_mig.Types.{Task}
use victoriametrics_data_mig.Splitter.Selector.{SelectorInfo}
use victoriametrics_data_mig.Config.{Config}
use victoriametrics_data_mig.Config.Validate.{load_config}
use victoriametrics_data_mig.Config.Planning.{load_config_tiles}
use victoriametrics_data_mig.Worker.Pool.{WorkerConn}
use victoriametrics_data_mig.Worker.Connect.{deploy_workers}
use victoriametrics_data_mig.Progress.Report.{MigrationReport}
use victoriametrics_data_mig.Orchestrator.Execute.{Exec, Flight, Outcome}
use victoriametrics_data_mig.Orchestrator.Migration.{begin_loop, compile_exclude_patterns}
use victoriametrics_data_mig.Orchestrator.Migration.Begins.{begin_migration-IsExec}
use victoriametrics_data_mig.Orchestrator.Migration.Ends.{AnswersAll, Ranges-ends, dry_run-ends}
use victoriametrics_data_mig.Orchestrator.Lifecycle.{
  Cluster, Libraries, Ended, begin_run, deploy, prepare, retries_of, Runs,
}
use victoriametrics_data_mig.Orchestrator.Lifecycle.Finished.{deploy-idle}

module _ {F : Float} (libs : Libraries F) (cfg : Config F) (k : Cluster)
    (discover : TimeRange → Result (List Text)) (now later : Time) (heap : Heap) (state_file : Text)
    (disk : StateFile) (env : Env) (answer : Exec → Flight → Outcome)
    (plan : Exec → Task → List SelectorInfo) where
  -- The tasks of the run end as `answer` says and are split as `plan` says.
  abbrev pub Answered :
      {e : Ended} → Runs libs cfg false k discover now later heap state_file disk e → Type 0
  Answered (Runs.undeployed m failed) = Unit
  Answered (Runs.unprepared ws m deployed failed) = Unit
  Answered (Runs.stopped ws ranges excludes m n deployed prepared loop) =
      AnswersAll (retries_of cfg.retry.max_retries) cfg.migration.filter_match excludes discover
        libs.formats.date env answer plan loop
  Answered (Runs.planned ws ranges excludes m deployed prepared dry loop) = Unit
  Answered (Runs.finished ws ranges excludes m deployed prepared wet loop) =
      AnswersAll (retries_of cfg.retry.max_retries) cfg.migration.filter_match excludes discover
        libs.formats.date env answer plan loop

  pub Runs-completes :
      (file : Result Text) (unmarshal : Text → Result (Config F)) (workers : List WorkerConn)
      (excludes : List (Text → Bool))
      → load_config F libs.time_text file unmarshal ≡ ok cfg
      → deploy_workers cfg k.net k.created k.polls k.pods ≡ ok workers
      → compile_exclude_patterns libs.compile libs.time_text.quote cfg.exclude_metrics ≡ ok excludes
      → (e : Ended) × (r : MigrationReport) × (run : Runs libs cfg false k discover now later heap
          state_file disk e)
        × Answered run
        × (e.report ≡ some r)
  unfolding deploy prepare begin_run begin_loop
  Runs-completes file unmarshal workers excludes loads deploys compiles =
      let (start_date, end_date, ranges, starts, ends, splits, _, _) =
        load_config_tiles F libs.time_text file unmarshal cfg loads in
      let deployed : deploy libs cfg false k ≡ ok workers = rw deploys refl in
      let (staffed, idle) = deploy-idle libs cfg k workers deployed in
      let prepared : prepare libs cfg false ≡ ok (some ranges, excludes) =
        rw (starts, ends, compiles, splits) refl in
      let (m, loop, answers) =
        Ranges-ends (retries_of cfg.retry.max_retries) cfg.migration.filter_match excludes discover
          libs.formats.date env answer plan 0 ranges
          (begin_run libs cfg false k discover now later heap state_file disk workers ranges)
          (begin_migration-IsExec workers heap state_file disk staffed idle) in
      (_, _, Runs.finished workers ranges excludes m deployed prepared refl loop, answers, refl)

  -- A dry run of such a configuration needs no workers; it ends without an error and without a
  -- report.
  Runs-plans :
      (file : Result Text) (unmarshal : Text → Result (Config F)) (excludes : List (Text → Bool))
      → load_config F libs.time_text file unmarshal ≡ ok cfg
      → compile_exclude_patterns libs.compile libs.time_text.quote cfg.exclude_metrics ≡ ok excludes
      → (e : Ended) × Runs libs cfg true k discover now later heap state_file disk e
        × (e.error ≡ none)
        × (e.report ≡ none)
  unfolding deploy prepare
  Runs-plans file unmarshal excludes loads compiles =
      let (start_date, end_date, ranges, starts, ends, splits, _, _) =
        load_config_tiles F libs.time_text file unmarshal cfg loads in
      let prepared : prepare libs cfg true ≡ ok (some ranges, excludes) =
        rw (starts, ends, compiles, splits) refl in
      let (m, loop) =
        dry_run-ends (retries_of cfg.retry.max_retries) cfg.migration.filter_match excludes discover
          libs.formats.date env answer plan 0 ranges
          (begin_run libs cfg true k discover now later heap state_file disk [] ranges) in
      (_, Runs.planned [] ranges excludes m refl prepared refl loop, refl, refl)
