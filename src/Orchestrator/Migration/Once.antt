-- ===== src/Orchestrator/Migration/Once.antt =====
-- Every sample is migrated once by the loop of `Run` in internal/orchestrator/orchestrator.go.
use victoriametrics_data_mig.Prelude.{
  some_injective, true_not_false, ℕ, ◌+◌, ◌≤◌, ◌<◌, ◌≡◌, refl, ◌⊎◌, inl, inr, Bool, true, false,
  ◌&&◌, List, [], ◌∷◌, none, some, Text, Result, ℤ, arith, length, sum_of, All, ap, sym, ◌∙◌, leb,
  ltb, if◌then◌else◌,
}
use victoriametrics_data_mig.Scheduler.Calendar.{Time, instant}
use victoriametrics_data_mig.Scheduler.TimeRange.{TimeRange, split_time_range}
use victoriametrics_data_mig.Scheduler.TimeRange.Tiling.{holders, split_time_range-partition}
use victoriametrics_data_mig.Types.{Task}
use victoriametrics_data_mig.Splitter.Selector.{SelectorInfo}
use victoriametrics_data_mig.Splitter.Recursion.Meaning.{Store, ind, times}
use victoriametrics_data_mig.Scheduler.Queue.{Heap, StateFile}
use victoriametrics_data_mig.Scheduler.Queue.Mass.{weight}
use victoriametrics_data_mig.Worker.Pool.{WorkerConn}
use victoriametrics_data_mig.Worker.Pool.Busy.{busy_workers}
use victoriametrics_data_mig.Orchestrator.Selectors.{
  build_optimistic_selector, extract_base_selector,
}
use victoriametrics_data_mig.Orchestrator.Execute.Conserved.{IsConserving}
use victoriametrics_data_mig.Orchestrator.Migration.{
  Migrating, begin_loop, begin_migration, run_error,
}
use victoriametrics_data_mig.Orchestrator.Migration.Loop.{Ranges}
use victoriametrics_data_mig.Orchestrator.Migration.Counted.{left_of}
use victoriametrics_data_mig.Orchestrator.Migration.Conserved.{
  ConservesAll, weight_of_ranges, Ranges-conserves,
}

ap2 : (f : ℕ → ℕ → ℕ) {a b c d : ℕ} → a ≡ b → c ≡ d → f a c ≡ f b d
ap2 f e g = cc

-- A sample is a series with an instant.
module _ (st : Store) (x : st.Series) (at : ℕ) where
  abbrev pub holds : Time → Time → Bool
  holds start end = leb (instant start) at && ltb at (instant end)

  -- 1 where a selector with two times selects the sample.
  abbrev pub sampled : Text → Time → Time → ℕ
  sampled selector start end = if holds start end then ind (st.selects selector x) else 0

  times_held :
      (b : Bool) (sels : List SelectorInfo)
      → sum_of (λ (sel : SelectorInfo). if b then ind (st.selects sel.selector x) else 0) sels
        ≡ (if b then times st x sels else 0)
  times_held true [] = refl
  times_held true (sel ∷ sels) = omega (arith, times_held true sels)
  times_held false [] = refl
  times_held false (sel ∷ sels) = omega (arith, times_held false sels)

  -- A split that selects the series as often as its task does keeps the weight.
  pub partition-IsConserving :
      (plan : Task → List SelectorInfo) (task : Task)
      → (plan task ≡ []) ⊎ (times st x (plan task) ≡ ind (st.selects task.selector x))
      → IsConserving sampled plan task
  partition-IsConserving plan task (inl none_found) = inl none_found
  partition-IsConserving plan task (inr same) = inr (
      times_held (holds task.time_start task.time_end) (plan task)
      ∙ ap (λ n. if holds task.time_start task.time_end then n else 0) same)

  module _ (filter_match : Text) (excludes : List (Text → Bool))
      (discover : TimeRange → Result (List Text)) where
    abbrev pub selects_metric : Text → ℕ
    selects_metric metric =
        ind (st.selects (build_optimistic_selector metric (extract_base_selector filter_match)) x)

    -- In a range that holds the instant, one of the metrics that were found and not excluded selects
    -- the series.
    abbrev pub IsNamedOnce : List TimeRange → Type 0
    IsNamedOnce trs =
        All
          (λ tr.
            (holds tr.start tr.end ≡ false)
            ⊎ (sum_of selects_metric (left_of excludes (discover tr)) ≡ 1))
          trs

    metrics_held :
        (b : Bool) (metrics : List Text)
        → sum_of (λ metric. if b then selects_metric metric else 0) metrics
          ≡ (if b then sum_of selects_metric metrics else 0)
    metrics_held true [] = refl
    metrics_held true (m ∷ metrics) = omega (arith, metrics_held true metrics)
    metrics_held false [] = refl
    metrics_held false (m ∷ metrics) = omega (arith, metrics_held false metrics)

    range_holds :
        (b : Bool) (metrics : List Text)
        → (b ≡ false) ⊎ (sum_of selects_metric metrics ≡ 1)
        → sum_of (λ metric. if b then selects_metric metric else 0) metrics ≡ (if b then 1 else 0)
    range_holds true metrics (inl clash) = absurd (true_not_false refl clash)
    range_holds true metrics (inr once) = metrics_held true metrics ∙ once
    range_holds false metrics once = metrics_held false metrics

    ranges_hold :
        (trs : List TimeRange)
        → IsNamedOnce trs
        → weight_of_ranges sampled filter_match excludes discover trs ≡ holders at trs
    ranges_hold [] h = refl
    ranges_hold (tr ∷ trs) (once, h) =
        ap2 (λ n m. n + m)
          (range_holds (holds tr.start tr.end) (left_of excludes (discover tr)) once)
          (ranges_hold trs h)

    -- Let the ranges be those that the time from `start` up to `end` is split into, and take a sample
    -- in that time: its range was discovered, and one of the metrics that were found there and not
    -- excluded selects its series. Where some worker is connected, none is busy, and every split that
    -- was found selects the sample as often as its task does, a migration, not a dry run, that comes
    -- to the end of the ranges and returns no error has migrated the sample once: of the tasks that
    -- succeeded, exactly one selects the series over a time that holds the instant.
    pub Ranges-migrates_once :
        (max_retries : ℕ) (date : Time → Text) (now : Time) (interval : ℤ)
        (workers : List WorkerConn) (heap : Heap) (state_file : Text) (disk : StateFile)
        (start end : Time) (step : Text) (reverse_order : Bool) (ranges : List TimeRange)
        (n : Migrating)
        → 0 < length workers
        → busy_workers workers ≡ []
        → split_time_range start end step reverse_order ≡ some ranges
        → instant start ≤ at
        → at < instant end
        → IsNamedOnce ranges
        → (rs : Ranges max_retries filter_match false excludes discover date 0 ranges
            (begin_loop now interval (length ranges) (begin_migration workers heap state_file disk))
            none
            n)
        → ConservesAll sampled max_retries filter_match false excludes discover date rs
        → run_error n.exec.queue ≡ none
        → sum_of (λ r. weight sampled (n.exec.queue.heap r)) n.exec.queue.done ≡ 1
    Ranges-migrates_once max_retries date now interval workers heap state_file disk start end step
          reverse_order ranges n staffed idle splits from till named rs conserves fine =
        let migrated =
          Ranges-conserves sampled max_retries filter_match excludes discover date now interval
            workers heap state_file disk ranges n staffed idle rs conserves fine in
        let (others, returns, held) =
          split_time_range-partition start end step reverse_order at (omega arith) in
        let same : holders at ranges ≡ holders at others =
          ap (holders at) (some_injective ranges others (sym splits ∙ returns)) in
        let inside : (leb (instant start) at && ltb at (instant end)) ≡ true = ground arith in
        migrated ∙ ranges_hold ranges named ∙ same ∙ rw inside at held
