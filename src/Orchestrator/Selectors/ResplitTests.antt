-- ===== src/Orchestrator/Selectors/ResplitTests.antt =====
-- The split of the task of a metric with three series.
use victoriametrics_data_mig.Prelude.{
  thousandths, ℕ, ◌≡◌, ◌⊎◌, refl, inl, [], some, Text, arith, Result, ok, trim_prefix, trim_suffix,
  trim_space, is_space,
}
use victoriametrics_data_mig.Scheduler.Calendar.{Time}
use victoriametrics_data_mig.Splitter.Recursion.{SplitResult, split_metric}
use victoriametrics_data_mig.Splitter.Recursion.Tests.{sorts}
use victoriametrics_data_mig.Splitter.Recursion.Meaning.{ind, times}
use victoriametrics_data_mig.Splitter.Selector.{strip_braces}
use victoriametrics_data_mig.Splitter.Recursion.CoverTests.{
  TestSeries, up, client, splitter, store, universe, values, Reads, served,
}
use victoriametrics_data_mig.Scheduler.TimeRange.{TimeRange}
use victoriametrics_data_mig.Orchestrator.Execute.Tests.{noon}
use victoriametrics_data_mig.Orchestrator.Selectors.{
  create_tasks_for_metric, extract_base_selector, plan_split,
}
use victoriametrics_data_mig.Orchestrator.Selectors.Resplit.{plan_split_partition}

abbrev tr : TimeRange
tr = record { start = noon; end = noon }

abbrev fast_count : Text → Time → Result ℕ
fast_count match_text end = ok 3

plan_split_partition_example :
    (r : Result SplitResult) × (split_metric thousandths sorts client splitter up 1 3
        (extract_base_selector [])
      ≡ some r)
    × (let task = create_tasks_for_metric 3 [] up tr 1 in
        let planned = plan_split fast_count (λ m base limit from till. r) (λ m. 1) [] task in
        (planned ≡ [])
        ⊎ ((x : TestSeries) → times store x planned ≡ ind (store.selects task.selector x)))
unfolding extract_base_selector strip_braces trim_prefix trim_suffix trim_space is_space
plan_split_partition_example =
    plan_split_partition thousandths sorts client splitter store up [] 3 1 (λ m. 1) tr universe
      values Reads served fast_count 3 refl (inl (refl, refl)) (omega arith)
