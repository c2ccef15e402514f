-- ===== src/Orchestrator/Migration/Splits.antt =====
-- The splits that `resplitFailedTask` of internal/orchestrator/orchestrator.go plans for the tasks of
-- metrics are of the kind that keeps every sample.
use victoriametrics_data_mig.Prelude.{
  ℕ, ◌<◌, ◌≡◌, false, List, [], some, Text, contains, length, codes, Result, Float, inl, inr,
}
use victoriametrics_data_mig.Scheduler.Calendar.{Time}
use victoriametrics_data_mig.Scheduler.TimeRange.{TimeRange}
use victoriametrics_data_mig.Splitter.Selector.{strip_braces}
use victoriametrics_data_mig.Splitter.Recursion.{Client, Sorts, Splitter, SplitResult, split_metric}
use victoriametrics_data_mig.Splitter.Recursion.Meaning.{Store, IsServed}
use victoriametrics_data_mig.Orchestrator.Selectors.{
  plan_split, create_tasks_for_metric, extract_base_selector,
}
use victoriametrics_data_mig.Orchestrator.Selectors.Resplit.{plan_split_partition}
use victoriametrics_data_mig.Orchestrator.Execute.Conserved.{IsConserving}
use victoriametrics_data_mig.Orchestrator.Migration.Once.{sampled, partition-IsConserving}

module _ (F : Float) (sorts : Sorts F) (client : Client) (s : Splitter) (st : Store)
    (metric filter_match : Text) (max_retries n : ℕ) (max_series : Text → ℕ) (tr : TimeRange)
    (universe values : List Text) (Reads : Text → List Text → Type 0)
    (served : IsServed client s metric st universe values Reads) where
  -- Where the server answers as the splitter relies on, the split of a task of a metric selects every
  -- sample as often as the task.
  plan_split-IsConserving :
      (fast_count : Text → Time → Result ℕ) (fuel : ℕ)
      → contains (codes "__name__") (strip_braces (extract_base_selector filter_match)) ≡ false
      → Reads (extract_base_selector filter_match) []
      → length universe < fuel
      → (x : st.Series) (at : ℕ)
      → (r : Result SplitResult) × (split_metric F sorts client s metric
            (max_series metric)
            fuel
            (extract_base_selector filter_match)
          ≡ some r)
        × IsConserving
            (sampled st x at)
            (plan_split fast_count (λ m base limit from till. r) max_series filter_match)
            (create_tasks_for_metric max_retries filter_match metric tr n)
  plan_split-IsConserving fast_count fuel clear reads enough x at =
      let (r, returns, partition) =
        plan_split_partition F sorts client s st metric filter_match max_retries n max_series tr
          universe values Reads served fast_count fuel clear reads enough in
      (
        r,
        returns,
        partition-IsConserving st x at
            (plan_split fast_count (λ m base limit from till. r) max_series filter_match)
            (create_tasks_for_metric max_retries filter_match metric tr n)
            (elim partition [ inl none_found ↦ inl none_found | inr same ↦ inr (same x) ]),
      )
