-- ===== src/Orchestrator/Selectors.antt =====
-- The selectors and the tasks that internal/orchestrator/orchestrator.go makes: one task for each
-- metric of a time range, and the split of one that failed.
pub mod Agreement
pub mod Matchers
pub mod Resplit
mod Tests
mod ResplitTests
use victoriametrics_data_mig.Prelude.{
  ℕ, ◌+◌, Bool, true, false, not, ◌||◌, ◌&&◌, List, [], ◌∷◌, ◌++◌, map, none, Text, codes, is_empty,
  starts_with, trim_prefix, trim_suffix, trim_space, join, keep, if◌then◌else◌, ◌==◌, leb, length,
  Result, err, ok,
}
use victoriametrics_data_mig.Scheduler.Calendar.{Time}
use victoriametrics_data_mig.Types.{Task, pending}
use victoriametrics_data_mig.Scheduler.TimeRange.{TimeRange}
use victoriametrics_data_mig.Splitter.Selector.{SelectorInfo, strip_braces}
use victoriametrics_data_mig.Splitter.Recursion.{SplitResult}
use victoriametrics_data_mig.Orchestrator.Execute.{task_id}

-- The loop of `splitMatchers`; `current` holds the matcher so far.
pub split_from : Text → Bool → Bool → Text → List Text
split_from current in_quote escaped [] = if is_empty current then [] else current ∷ []
split_from current in_quote escaped (c ∷ s) = elim escaped [
  | true ↦ split_from (current ++ c ∷ []) in_quote false s
  | false ↦ elim (c == b'\\') [
    | true ↦ split_from (current ++ c ∷ []) in_quote true s
    | false ↦ elim (c == b'"') [
      | true ↦ split_from (current ++ c ∷ []) (not in_quote) false s
      | false ↦ elim ((c == b',') && not in_quote) [
        | true ↦ current ∷ split_from [] in_quote false s
        | false ↦ split_from (current ++ c ∷ []) in_quote false s
      ]
    ]
  ]
]

unfoldable pub split_matchers : Text → List Text
unfolding split_from
split_matchers s = split_from [] false false s

-- The loop that drops blank matchers and those of the metric's name.
abbrev pub other_matchers : List Text → List Text
other_matchers ms =
    keep (λ m. not (is_empty m || starts_with (codes "__name__") m)) (map trim_space ms)

unfoldable pub extract_base_selector : Text → Text
extract_base_selector filter_match =
    if is_empty filter_match
    then []
    else join (codes ",") (
        other_matchers (
          split_matchers
            (trim_suffix (codes "}") (trim_prefix (codes "{") (trim_space filter_match)))))

unfoldable pub build_optimistic_selector : Text → Text → Text
build_optimistic_selector metric base =
    if is_empty (strip_braces base)
    then codes "{__name__=\"" ++ (metric ++ codes "\"}")
    else codes "{__name__=\"" ++ (metric ++ (codes "\"," ++ (strip_braces base ++ codes "}")))

-- The task of a metric; `n` is the counter, raised for it.
unfoldable pub create_tasks_for_metric : ℕ → Text → Text → TimeRange → ℕ → Task
create_tasks_for_metric max_retries filter_match metric tr n = record {
  id = task_id n;
  metric_name = metric;
  selector = build_optimistic_selector metric (extract_base_selector filter_match);
  time_start = tr.start;
  time_end = tr.end;
  est_series_count = 0;
  status = pending;
  attempts = 0;
  max_retries = max_retries;
  worker_id = [];
  error = [];
  started_at = none;
  completed_at = none;
  bytes_transferred = 0;
  split_attempted = false;
}

abbrev matches_any : List (Text → Bool) → Text → Bool
matches_any [] m = false
matches_any (re ∷ res) m = re m || matches_any res m

-- A compiled pattern is the test of a text by the library.
unfoldable pub filter_metrics : List Text → List (Text → Bool) → List Text
filter_metrics metrics excludes = keep (λ m. not (matches_any excludes m)) metrics

abbrev several : List SelectorInfo → List SelectorInfo
several sels = if leb (length sels) 1 then [] else sels

-- An error of the split is logged, and gives no selectors.
abbrev selectors_of : Result SplitResult → List SelectorInfo
selectors_of (err e) = []
selectors_of (ok result) = several result.selectors

-- What follows the fast count: one that failed counts as too many.
abbrev split_if_many : Result ℕ → ℕ → Result SplitResult → List SelectorInfo
split_if_many (err e) max_series result = selectors_of result
split_if_many (ok count) max_series result =
    if leb count max_series then [] else selectors_of result

-- The selectors of `resplitFailedTask`, from the queries of the fast count and of the split.
unfoldable pub plan_split :
    (Text → Time → Result ℕ)
    → (Text → Text → ℕ → Time → Time → Result SplitResult)
    → (Text → ℕ)
    → Text
    → Task
    → List SelectorInfo
plan_split fast_count split_metric max_series filter_match task =
    let limit = max_series task.metric_name in
    split_if_many (fast_count task.selector task.time_end) limit (
      split_metric task.metric_name (extract_base_selector filter_match) limit task.time_start
        task.time_end)
