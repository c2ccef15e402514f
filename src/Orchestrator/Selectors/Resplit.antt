-- ===== src/Orchestrator/Selectors/Resplit.antt =====
-- A failed task of internal/orchestrator/orchestrator.go and the tasks of its split select the same
-- series.
use victoriametrics_data_mig.Prelude.{
  nil_cases, ℕ, ◌<◌, ◌≡◌, ◌⊎◌, refl, inl, inr, false, List, [], some, Text, codes, contains, ap,
  ◌∙◌, length, leb, Bool-cases, Result, Float, err, ok, sym,
}
use victoriametrics_data_mig.Scheduler.Calendar.{Time}
use victoriametrics_data_mig.Scheduler.TimeRange.{TimeRange}
use victoriametrics_data_mig.Splitter.Selector.{strip_braces}
use victoriametrics_data_mig.Splitter.Recursion.{Client, Sorts, Splitter, SplitResult, split_metric}
use victoriametrics_data_mig.Splitter.Recursion.Meaning.{ind, Store, times, IsServed}
use victoriametrics_data_mig.Splitter.Recursion.Cover.{split_metric_partition}
use victoriametrics_data_mig.Orchestrator.Selectors.{
  plan_split, split_if_many, selectors_of, create_tasks_for_metric, extract_base_selector,
}
use victoriametrics_data_mig.Orchestrator.Selectors.Agreement.{
  build_optimistic_selector-build_match,
}

-- Selectors that are planned are those of a split that returned no error.
selectors_of_lem :
    (r : Result SplitResult)
    → (¬ selectors_of r ≡ [])
    → (result : SplitResult) × (r ≡ ok result) × (selectors_of r ≡ result.selectors)
selectors_of_lem (err e) some_left = absurd (some_left refl)
selectors_of_lem (ok result) some_left = elim (Bool-cases (leb (length result.selectors) 1)) [
  | inl few ↦ absurd (some_left (rw few refl))
  | inr many ↦ (result, refl, rw many refl)
]

plan_split_lem :
    (count : Result ℕ) (limit : ℕ) (r : Result SplitResult)
    → (¬ split_if_many count limit r ≡ [])
    → split_if_many count limit r ≡ selectors_of r
plan_split_lem (err e) limit r some_left = refl
plan_split_lem (ok count) limit r some_left = elim (Bool-cases (leb count limit)) [
  | inl few ↦ absurd (some_left (rw few refl))
  | inr many ↦ rw many refl
]

module _ (F : Float) (sorts : Sorts F) (client : Client) (s : Splitter) (st : Store)
    (metric filter_match : Text) (max_retries n : ℕ) (max_series : Text → ℕ) (tr : TimeRange)
    (universe values : List Text) (Reads : Text → List Text → Type 0)
    (served : IsServed client s metric st universe values Reads) where
  -- Where the server answers as the splitter relies on, and the filter without the metric's name does
  -- not contain the text `__name__`, the split of a task of a metric returns with one more unit of
  -- fuel than the server has labels; and whatever the fast count says, either no new task is planned or
  -- every series that the task selects is selected by exactly one of them, and no other by any.
  pub plan_split_partition :
      (fast_count : Text → Time → Result ℕ) (fuel : ℕ)
      → contains (codes "__name__") (strip_braces (extract_base_selector filter_match)) ≡ false
      → Reads (extract_base_selector filter_match) []
      → length universe < fuel
      → (r : Result SplitResult) × (split_metric F sorts client s metric
            (max_series metric)
            fuel
            (extract_base_selector filter_match)
          ≡ some r)
        × (let task = create_tasks_for_metric max_retries filter_match metric tr n in
            let planned =
              plan_split fast_count (λ m base limit from till. r) max_series filter_match task in
            (planned ≡ [])
            ⊎ ((x : st.Series) → times st x planned ≡ ind (st.selects task.selector x)))
  unfolding plan_split create_tasks_for_metric
  plan_split_partition fast_count fuel clear reads enough =
      let base = extract_base_selector filter_match in
      let (r, returns, partition) =
        split_metric_partition F sorts client s metric (max_series metric) st universe values Reads
          served fuel base reads enough in
      let task = create_tasks_for_metric max_retries filter_match metric tr n in
      let same = plan_split_lem (fast_count task.selector task.time_end) (max_series metric) r in
      (
        r,
        returns,
        elim (nil_cases
            (split_if_many (fast_count task.selector task.time_end) (max_series metric) r)) [
              | inl none_left ↦ inl none_left
              | inr some_left ↦ inr (λ x.
                  let kept = same some_left in
                  let (result, fine, chosen) =
                    selectors_of_lem r (λ none_left. some_left (kept ∙ none_left)) in
                  ap (times st x) (kept ∙ chosen)
                  ∙ partition result fine x
                  ∙ ap (λ sel. ind (st.selects sel x))
                      (sym (build_optimistic_selector-build_match metric base clear)))
            ],
      )
