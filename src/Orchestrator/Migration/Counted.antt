-- ===== src/Orchestrator/Migration/Counted.antt =====
-- What `Run` of internal/orchestrator/orchestrator.go counts of its time ranges.
use victoriametrics_data_mig.Prelude.{
  ℕ, ◌+◌, ◌≡◌, refl, ◌⊎◌, inl, inr, Bool, true, false, List, [], ◌∷◌, none, Text, Result, err, ok,
  ℤ, length, keep, arith, ap, ◌∙◌,
}
use victoriametrics_data_mig.Scheduler.Calendar.{Time}
use victoriametrics_data_mig.Scheduler.TimeRange.{TimeRange, show_range}
use victoriametrics_data_mig.Progress.Tracker.{new_tracker, set_current_range}
use victoriametrics_data_mig.Progress.Tracker.Fixed.{executed-fixed, Ticks-fixed}
use victoriametrics_data_mig.Orchestrator.Execute.{Exec}
use victoriametrics_data_mig.Orchestrator.Selectors.{filter_metrics}
use victoriametrics_data_mig.Orchestrator.Migration.{
  Migrating, begin_loop, begin_tasks, count_metrics, end_range, processed, visit,
}
use victoriametrics_data_mig.Orchestrator.Migration.Loop.{Ranges}

-- The metrics of a range that are left after the filter, none where the discovery fails.
abbrev pub left_of : List (Text → Bool) → Result (List Text) → List Text
left_of excludes (err e) = []
left_of excludes (ok metrics) = filter_metrics metrics excludes

abbrev pub is_found : Result (List Text) → Bool
is_found (err e) = false
is_found (ok metrics) = true

abbrev pub sum_metrics : List (Text → Bool) → (TimeRange → Result (List Text)) → List TimeRange → ℕ
sum_metrics excludes discover [] = 0
sum_metrics excludes discover (tr ∷ trs) =
    length (left_of excludes (discover tr)) + sum_metrics excludes discover trs

abbrev pub found_ranges : (TimeRange → Result (List Text)) → List TimeRange → ℕ
found_ranges discover trs = length (keep (λ tr. is_found (discover tr)) trs)

-- The last range that the loop came to, from the one before.
abbrev last_index : ℕ → ℕ → List TimeRange → ℕ
last_index current i [] = current
last_index current i (tr ∷ trs) = last_index i (i + 1) trs

last_index_lem :
    (current i : ℕ) (trs : List TimeRange)
    → (trs ≡ []) ⊎ (last_index current i trs + 1 ≡ i + length trs)
last_index_lem current i [] = inl refl
last_index_lem current i (tr ∷ []) = inr (omega arith)
last_index_lem current i (tr ∷ u ∷ trs) = elim (last_index_lem i (i + 1) (u ∷ trs)) [
  | inl e ↦ cc
  | inr e ↦ inr (omega (arith, e))
]

module _ (max_retries : ℕ) (filter_match : Text) (dry_run : Bool) (excludes : List (Text → Bool))
    (discover : TimeRange → Result (List Text)) (date : Time → Text) where
  abbrev Accounts : ℕ → List TimeRange → Migrating → Migrating → Type 0
  Accounts i trs m n =
      (n.gauges.time_ranges_processed ≡ m.gauges.time_ranges_processed + found_ranges discover trs)
      × (n.total_metrics ≡ m.total_metrics + sum_metrics excludes discover trs)
      × (n.gauges.no_split ≡ m.gauges.no_split + sum_metrics excludes discover trs)
      × (n.tracker.current_range ≡ last_index m.tracker.current_range i trs)
      × (n.tracker.total_ranges ≡ m.tracker.total_ranges)

  accounts :
      {i : ℕ} {trs : List TimeRange} {m n : Migrating}
      → Ranges max_retries filter_match dry_run excludes discover date i trs m none n
      → Accounts i trs m n
  unfolding visit processed count_metrics end_range begin_tasks set_current_range
  accounts Ranges.finished = ground arith
  accounts {i} {trs} (Ranges.ticked k ticks rs) =
      let (done, total, split, current, ranges) = accounts rs in
      let same = Ticks-fixed ticks in
      (
        done,
        total,
        split,
        current ∙ ap (λ f. last_index f.2 i trs) same,
        ranges ∙ ap (λ f. f.1) same,
      )
  accounts (Ranges.undiscovered tr message failed rs) =
      let (done, total, split, current, ranges) = accounts rs in
      rw failed (done, omega (arith, total), omega (arith, split), current, ranges)
  accounts (Ranges.empty tr metrics found none_left rs) =
      let (done, total, split, current, ranges) = accounts rs in
      rw (found, none_left)
        (omega (arith, done), omega (arith, total), omega (arith, split), current, ranges)
  accounts (Ranges.planned tr metrics found some_left dry rs) =
      let (done, total, split, current, ranges) = accounts rs in
      rw found (omega (arith, done), omega (arith, total), omega (arith, split), current, ranges)
  accounts {i} {m = m}
        (Ranges.executed {trs = trs} {k = k} tr metrics found some_left wet run complete ticks rs) =
      let (done, total, split, current, ranges) = accounts rs in
      let same = executed-fixed (set_current_range i (show_range date tr) m.tracker) k ticks in
      rw found (
        omega (arith, done),
        omega (arith, total),
        omega (arith, split),
        current ∙ ap (λ f. last_index f.2 (i + 1) trs) same,
        ranges ∙ ap (λ f. f.1) same,
      )

  -- A migration, dry run or not, that comes to the end of its ranges without an error has counted
  -- as processed the ranges whose metrics were discovered, and as metrics those that the filter left
  -- in them; each of these counts as a metric that was not split. The tracker stands at the last range, so
  -- that the report counts every range as done, those that were skipped as well.
  pub Ranges-counts :
      (now : Time) (interval : ℤ) (exec : Exec) (trs : List TimeRange) (n : Migrating)
      → Ranges max_retries filter_match dry_run excludes discover date 0 trs
          (begin_loop now interval (length trs) exec)
          none
          n
      → (n.gauges.time_ranges_processed ≡ found_ranges discover trs)
        × (n.total_metrics ≡ sum_metrics excludes discover trs)
        × (n.gauges.no_split ≡ sum_metrics excludes discover trs)
        × (n.tracker.total_ranges ≡ length trs)
        × ((trs ≡ []) ⊎ (n.tracker.current_range + 1 ≡ n.tracker.total_ranges))
  unfolding begin_loop new_tracker
  Ranges-counts now interval exec trs n rs =
      let (done, total, split, current, ranges) = accounts rs in
      (
        omega (arith, done),
        omega (arith, total),
        omega (arith, split),
        ranges,
        elim (last_index_lem 0 0 trs) [
          | inl e ↦ inl e
          | inr e ↦ inr (omega (arith, e, current, ranges))
        ],
      )
