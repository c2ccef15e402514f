-- ===== src/Orchestrator/Migration/Planned.antt =====
-- The tasks that a dry run of internal/orchestrator/orchestrator.go plans.
use victoriametrics_data_mig.Prelude.{ℕ, ◌≡◌, Bool, List, [], ◌∷◌, ◌++◌, map, Text, Result}
use victoriametrics_data_mig.Types.{Task}
use victoriametrics_data_mig.Scheduler.Calendar.{Time}
use victoriametrics_data_mig.Scheduler.TimeRange.{TimeRange}
use victoriametrics_data_mig.Scheduler.Queue.{Ref, TaskQueue}
use victoriametrics_data_mig.Orchestrator.Execute.{Exec}
use victoriametrics_data_mig.Orchestrator.Execute.Numbering.{IsNumbered}
use victoriametrics_data_mig.Orchestrator.Selectors.{
  build_optimistic_selector, extract_base_selector,
}
use victoriametrics_data_mig.Orchestrator.Migration.Counted.{left_of}

-- What a task migrates, and the attempts that it has made.
abbrev pub Plan : Type 0
Plan = Text × Text × Time × Time × ℕ

abbrev pub plan_of : Task → Plan
plan_of t = (t.metric_name, t.selector, t.time_start, t.time_end, t.attempts)

-- A metric over a range.
abbrev pub planned_metric : Text → TimeRange → Text → Plan
planned_metric filter_match tr metric = (
  metric,
  build_optimistic_selector metric (extract_base_selector filter_match),
  tr.start,
  tr.end,
  0,
)

-- The metrics that were found in the ranges and not excluded, in the order of the ranges.
abbrev pub planned_ranges :
    Text → List (Text → Bool) → (TimeRange → Result (List Text)) → List TimeRange → List Plan
planned_ranges filter_match excludes discover [] = []
planned_ranges filter_match excludes discover (tr ∷ trs) =
    map (planned_metric filter_match tr) (left_of excludes (discover tr))
    ++ planned_ranges filter_match excludes discover trs

abbrev pub plans : TaskQueue → List Ref → List Plan
plans q rs = map (λ r. plan_of (q.heap r)) rs

module _ (max_retries : ℕ) (filter_match : Text) where
  -- The tasks have numbers, and all of them are pending.
  abbrev IsPlan : Exec → Type 0
  IsPlan s =
      IsNumbered s.task_counter s.queue.heap s.queue.tasks × (s.queue.pending ≡ s.queue.tasks)
