-- ===== src/Orchestrator/Migration/Ends.antt =====
-- The loop of `Run` of internal/orchestrator/orchestrator.go comes to its end.
use victoriametrics_data_mig.Prelude.{
  nil_cases, ℕ, inl, inr, Bool, List, [], ◌∷◌, Text, Result, Result-cases, ◌+◌, refl, Option, none,
  true, false,
}
use victoriametrics_data_mig.Scheduler.Calendar.{Time}
use victoriametrics_data_mig.Scheduler.TimeRange.{TimeRange, show_range}
use victoriametrics_data_mig.Progress.Tracker.{start, Ticks}
use victoriametrics_data_mig.Scheduler.Queue.{Env}
use victoriametrics_data_mig.Orchestrator.Selectors.{filter_metrics}
use victoriametrics_data_mig.Orchestrator.Execute.{Exec, Flight, Outcome, Run}
use victoriametrics_data_mig.Types.{Task}
use victoriametrics_data_mig.Splitter.Selector.{SelectorInfo}
use victoriametrics_data_mig.Orchestrator.Execute.Answers.{Answers}
use victoriametrics_data_mig.Orchestrator.Execute.Invariant.{IsExec}
use victoriametrics_data_mig.Orchestrator.Execute.Safety.{Run-IsExec}
use victoriametrics_data_mig.Orchestrator.Execute.Termination.{Run-Answers}
use victoriametrics_data_mig.Orchestrator.Migration.{
  Migrating, visit, count_metrics, processed, end_range,
}
use victoriametrics_data_mig.Orchestrator.Migration.Loop.{Ranges, enter_range}
use victoriametrics_data_mig.Orchestrator.Migration.Settled.{begin_tasks-IsExec}

module _ (max_retries : ℕ) (filter_match : Text) (excludes : List (Text → Bool))
    (discover : TimeRange → Result (List Text)) (date : Time → Text) (env : Env)
    (answer : Exec → Flight → Outcome) (plan : Exec → Task → List SelectorInfo) where
  abbrev Loop : Bool → ℕ → List TimeRange → Migrating → Option Text → Migrating → Type 0
  Loop dry_run i trs m r n =
      Ranges max_retries filter_match dry_run excludes discover date i trs m r n

  -- The tasks of all ranges end as `answer` says, and are split as `plan` says.
  abbrev pub AnswersAll :
      {dry_run : Bool} {i : ℕ} {trs : List TimeRange} {m n : Migrating} {r : Option Text}
      → Ranges max_retries filter_match dry_run excludes discover date i trs m r n
      → Type 0
  AnswersAll Ranges.finished = Unit
  AnswersAll (Ranges.cancelled tr) = Unit
  AnswersAll (Ranges.ticked k ticks rs) = AnswersAll rs
  AnswersAll (Ranges.undiscovered tr message failed rs) = AnswersAll rs
  AnswersAll (Ranges.empty tr metrics found none_left rs) = AnswersAll rs
  AnswersAll (Ranges.planned tr metrics found some_left dry rs) = AnswersAll rs
  AnswersAll (Ranges.interrupted tr metrics found some_left wet run waits open_queue ticks) =
      Answers max_retries answer plan run
  AnswersAll (Ranges.executed tr metrics found some_left wet run complete ticks rs) =
      Answers max_retries answer plan run × AnswersAll rs

  -- From a state with the invariant of `executeTasks` the loop, not in a dry run, can come to the end
  -- of any time ranges without an error, whatever the discovery answers for each and whatever becomes
  -- of the tasks.
  pub Ranges-ends :
      (i : ℕ) (trs : List TimeRange) (m : Migrating)
      → IsExec m.exec
      → (n : Migrating) × (rs : Loop false i trs m none n) × AnswersAll rs
  unfolding visit processed count_metrics end_range
  Ranges-ends i [] m h = (m, Ranges.finished, tt)
  Ranges-ends i (tr ∷ trs) m h = elim (Result-cases (discover tr)) [
    | inl (message, failed) ↦
        let (n, rest, a) = Ranges-ends (i + 1) trs (visit i (show_range date tr) m) h in
        (n, Ranges.undiscovered tr message failed rest, a)
    | inr (metrics, found) ↦ elim (nil_cases (filter_metrics metrics excludes)) [
      | inl none_left ↦
          let (n, rest, a) =
            Ranges-ends (i + 1) trs (processed (count_metrics [] (visit i (show_range date tr) m)))
              h in
          (n, Ranges.empty tr metrics found none_left rest, a)
      | inr some_left ↦
          let entered =
            enter_range max_retries filter_match false excludes discover date metrics tr i m in
          let begun =
            begin_tasks-IsExec max_retries filter_match (filter_metrics metrics excludes) tr i
              (show_range date tr) m h in
          let (t, run, b, complete) = Run-Answers max_retries env answer plan begun Run.here in
          let (n, rest, a) =
            Ranges-ends (i + 1) trs (processed (end_range t (start entered.tracker) entered))
              (Run-IsExec max_retries begun run) in
          (n, Ranges.executed tr metrics found some_left refl run complete Ticks.here rest, (b, a))
    ]
  ]

  -- A dry run comes to the end of any ranges, whether there are workers or not.
  pub dry_run-ends :
      (i : ℕ) (trs : List TimeRange) (m : Migrating) → (n : Migrating) × Loop true i trs m none n
  dry_run-ends i [] m = (m, Ranges.finished)
  dry_run-ends i (tr ∷ trs) m = elim (Result-cases (discover tr)) [
    | inl (message, failed) ↦
        let (n, rest) = dry_run-ends (i + 1) trs (visit i (show_range date tr) m) in
        (n, Ranges.undiscovered tr message failed rest)
    | inr (metrics, found) ↦ elim (nil_cases (filter_metrics metrics excludes)) [
      | inl none_left ↦
          let (n, rest) =
            dry_run-ends (i + 1) trs
              (processed (count_metrics [] (visit i (show_range date tr) m))) in
          (n, Ranges.empty tr metrics found none_left rest)
      | inr some_left ↦
          let (n, rest) = dry_run-ends (i + 1) trs (
            processed
              (enter_range max_retries filter_match true excludes discover date metrics tr i m)) in
          (n, Ranges.planned tr metrics found some_left refl rest)
    ]
  ]
