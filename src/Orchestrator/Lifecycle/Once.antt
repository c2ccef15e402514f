-- ===== src/Orchestrator/Lifecycle/Once.antt =====
-- Every sample is migrated once by a whole run of internal/orchestrator/orchestrator.go.
use victoriametrics_data_mig.Prelude.{
  Bool, some_not_none, sym, ap, ℕ, ◌≡◌, ◌≤◌, ◌<◌, false, List, Option, none, some, Text, codes,
  Result, ok, ok_injective, then_wrapped_iff, sum_of, Float,
}
use victoriametrics_data_mig.Scheduler.Calendar.{Time, instant}
use victoriametrics_data_mig.Scheduler.TimeRange.{TimeRange, split_time_range}
use victoriametrics_data_mig.Scheduler.Queue.{Heap, StateFile}
use victoriametrics_data_mig.Scheduler.Queue.Mass.{weight}
use victoriametrics_data_mig.Splitter.Recursion.Meaning.{Store}
use victoriametrics_data_mig.Config.{Config}
use victoriametrics_data_mig.Config.Validate.{parse_date}
use victoriametrics_data_mig.Progress.Report.{MigrationReport}
use victoriametrics_data_mig.Orchestrator.Migration.Conserved.{ConservesAll}
use victoriametrics_data_mig.Orchestrator.Migration.Once.{
  sampled, IsNamedOnce, Ranges-migrates_once,
}
use victoriametrics_data_mig.Orchestrator.Migration.{compile_exclude_patterns}
use victoriametrics_data_mig.Orchestrator.Lifecycle.{
  Cluster, Libraries, Ended, begin_run, prepare, retries_of, Runs,
}
use victoriametrics_data_mig.Orchestrator.Lifecycle.Finished.{deploy-idle}

module _ {F : Float} (libs : Libraries F) (cfg : Config F) where
  -- What `prepare` returns: the time between the two dates, split.
  prepare_splits :
      (dry_run : Bool) (start end : Time) (trs : Option (List TimeRange))
      (excludes : List (Text → Bool))
      → parse_date libs.time_text cfg.migration.start_date ≡ ok start
      → parse_date libs.time_text cfg.migration.end_date ≡ ok end
      → prepare libs cfg dry_run ≡ ok (trs, excludes)
      → split_time_range start end cfg.migration.time_step cfg.migration.reverse_order ≡ trs
  unfolding prepare
  prepare_splits dry_run start end trs excludes starts ends prepared =
      let split = split_time_range start end cfg.migration.time_step cfg.migration.reverse_order in
      let patterns =
        compile_exclude_patterns libs.compile libs.time_text.quote cfg.exclude_metrics in
      let (found, compiles, last) =
        (then_wrapped_iff (codes "compiling exclude patterns: ") patterns (λ fs. ok (split, fs))
            (trs, excludes)).0
          (rw (starts, ends) at prepared) in
      ap (λ v. v.0) (ok_injective (split, found) (trs, excludes) last)

  module _ (k : Cluster) (discover : TimeRange → Result (List Text)) (now later : Time)
      (heap : Heap) (state_file : Text) (disk : StateFile) (st : Store) (x : st.Series)
      (at : ℕ) where
    -- In a run that comes to its report: the sample's range was discovered, with one metric that
    -- selects its series, and every split that was found selects the sample as often as its task.
    abbrev pub Keeps :
        {e : Ended} → Runs libs cfg false k discover now later heap state_file disk e → Type 0
    Keeps (Runs.undeployed m failed) = Unit
    Keeps (Runs.unprepared ws m deployed failed) = Unit
    Keeps (Runs.stopped ws ranges excludes m n deployed prepared loop) = Unit
    Keeps (Runs.planned ws ranges excludes m deployed prepared dry loop) = Unit
    Keeps (Runs.finished ws ranges excludes m deployed prepared wet loop) =
        IsNamedOnce st x at cfg.migration.filter_match excludes discover ranges
        × ConservesAll (sampled st x at) (retries_of cfg.retry.max_retries)
            cfg.migration.filter_match false excludes discover libs.formats.date loop

    -- Take a sample whose instant lies between the two dates of the configuration: in the range
    -- that holds it, which was discovered, exactly one of the metrics that were found and not
    -- excluded selects its series, and every split that was found selects the sample as often as
    -- its task does. A run, not a dry one, that comes to its report and returns no error has
    -- migrated the sample once: of the tasks that succeeded, exactly one selects the series over a
    -- time that holds the instant.
    pub Runs-migrates_once :
        (start end : Time) (e : Ended) (r : MigrationReport)
        → parse_date libs.time_text cfg.migration.start_date ≡ ok start
        → parse_date libs.time_text cfg.migration.end_date ≡ ok end
        → instant start ≤ at
        → at < instant end
        → (run : Runs libs cfg false k discover now later heap state_file disk e) → Keeps run
        → e.report ≡ some r
        → e.error ≡ none
        → sum_of (λ i. weight (sampled st x at) (e.queue.heap i)) e.queue.done ≡ 1
    unfolding begin_run
    Runs-migrates_once start end e r starts ends from till (Runs.undeployed m failed) keeps reported
          fine =
        absurd (some_not_none r (sym reported))
    Runs-migrates_once start end e r starts ends from till (Runs.unprepared ws m deployed failed)
          keeps reported fine =
        absurd (some_not_none r (sym reported))
    Runs-migrates_once start end e r starts ends from till
          (Runs.stopped ws ranges excludes m n deployed prepared loop) keeps reported fine =
        absurd (some_not_none r (sym reported))
    Runs-migrates_once start end e r starts ends from till
          (Runs.planned ws ranges excludes m deployed prepared dry loop) keeps reported fine =
        absurd (some_not_none r (sym reported))
    Runs-migrates_once start end e r starts ends from till
          (Runs.finished ws ranges excludes m deployed prepared wet loop) (named, conserves)
          reported fine =
        let (staffed, idle) = deploy-idle libs cfg k ws deployed in
        let splits = prepare_splits false start end (some ranges) excludes starts ends prepared in
        Ranges-migrates_once st x at cfg.migration.filter_match excludes discover
          (retries_of cfg.retry.max_retries) libs.formats.date now
          (libs.duration cfg.logging.progress_interval) ws heap state_file disk start end
          cfg.migration.time_step cfg.migration.reverse_order ranges m staffed idle splits from till
          named loop conserves fine
