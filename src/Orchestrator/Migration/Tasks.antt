-- ===== src/Orchestrator/Migration/Tasks.antt =====
-- The tasks that `Run` of internal/orchestrator/orchestrator.go makes for a time range.
use victoriametrics_data_mig.Prelude.{
  ℕ, ◌+◌, ◌≡◌, refl, ap, ◌∙◌, List, [], ◌∷◌, ◌++◌, map, Text, arith, All, All-map,
}
use victoriametrics_data_mig.Types.{Task}
use victoriametrics_data_mig.Scheduler.TimeRange.{TimeRange}
use victoriametrics_data_mig.Scheduler.Queue.{Ref, Heap, update, add_tasks}
use victoriametrics_data_mig.Scheduler.Queue.Refs.{update_self}
use victoriametrics_data_mig.Orchestrator.Selectors.{
  create_tasks_for_metric, build_optimistic_selector, extract_base_selector,
}
use victoriametrics_data_mig.Orchestrator.Execute.{Exec, make_tasks, new_refs, task_id}
use victoriametrics_data_mig.Orchestrator.Execute.Numbering.{
  make_heap, make_below, make-IsMade, IsNumbered,
}
use victoriametrics_data_mig.Orchestrator.Execute.Invariant.{IsExec}
use victoriametrics_data_mig.Orchestrator.Migration.{make_task, begin_range}

-- What a field of the new tasks is, where the loop sets it to the item.
make-map {ℓ} :
    {A : Type ℓ} (make : A → ℕ → Task) (field : Task → A)
    → ((a : A) (n : ℕ) → field (make a n) ≡ a)
    → (items : List A) (n : ℕ) (heap : Heap)
    → map (λ r. field (make_heap make items n heap r)) (new_refs items n) ≡ items
unfolding make_tasks new_refs
make-map make field same [] n heap = refl
make-map make field same (a ∷ items) n heap =
    let heap' = update heap (n + 1) (make a (n + 1)) in
    let first =
      ap field (make_below make items (n + 1) heap' (n + 1) (omega arith))
      ∙ ap field (update_self heap (n + 1) (make a (n + 1)))
      ∙ same a (n + 1) in
    cc (first, make-map make field same items (n + 1) heap')

unchanged :
    (make : Text → ℕ → Task) (items : List Text) (n : ℕ) (heap : Heap) (rs : List Ref)
    → IsNumbered n heap rs
    → map (make_heap make items n heap) rs ≡ map heap rs
unchanged make items n heap [] h = refl
unchanged make items n heap (r ∷ rs) ((low, _), h) =
    cc (make_below make items n heap r low, unchanged make items n heap rs h)

-- A task for the metric that it names: all series of it that the filter selects, over the range.
abbrev pub IsTaskOf : Text → TimeRange → Task → Type 0
IsTaskOf filter_match tr t =
    (t.selector ≡ build_optimistic_selector t.metric_name (extract_base_selector filter_match))
    × (t.time_start ≡ tr.start)
    × (t.time_end ≡ tr.end)
    × (t.attempts ≡ 0)

module _ (max_retries : ℕ) (filter_match : Text) (tr : TimeRange) where
  pub made :
      (metric : Text) (n : ℕ)
      → ((make_task max_retries filter_match tr metric n).id ≡ task_id n)
        × IsTaskOf filter_match tr (make_task max_retries filter_match tr metric n)
  unfolding create_tasks_for_metric
  made metric n = (refl, (refl, refl, refl, refl))

  named :
      (metric : Text) (n : ℕ)
      → (make_task max_retries filter_match tr metric n).metric_name ≡ metric
  unfolding create_tasks_for_metric
  named metric n = refl

  -- What the tasks of a range need: that the tasks have numbers.
  pub begin_range_numbered :
      (metrics : List Text) (s : Exec)
      → IsNumbered s.task_counter s.queue.heap s.queue.tasks
      → let q = (begin_range max_retries filter_match metrics tr s).queue in
        (new : List Ref) × (q.tasks ≡ s.queue.tasks ++ new)
        × (q.pending ≡ s.queue.pending ++ new)
        × (map (λ r. (q.heap r).metric_name) new ≡ metrics)
        × All (λ r. IsTaskOf filter_match tr (q.heap r)) new
        × (map q.heap s.queue.tasks ≡ map s.queue.heap s.queue.tasks)
  unfolding begin_range add_tasks
  begin_range_numbered metrics s numbered =
      let make = make_task max_retries filter_match tr in
      (
        new_refs metrics s.task_counter,
        refl,
        refl,
        make-map make (λ t. t.metric_name) named metrics s.task_counter s.queue.heap,
        All-map (λ r (_, _, _, task_of). task_of) (new_refs metrics s.task_counter)
            (make-IsMade make (IsTaskOf filter_match tr) made metrics s.task_counter s.queue.heap),
        unchanged make metrics s.task_counter s.queue.heap s.queue.tasks numbered,
      )

  -- A time range adds one task for each of its metrics, in their order, behind the tasks of the queue
  -- and behind the pending ones; each selects the metric with the filter's other matchers over the
  -- range, and has made no attempt. No task that was there before is changed.
  pub begin_range-IsTaskOf :
      (metrics : List Text) (s : Exec)
      → IsExec s
      → let q = (begin_range max_retries filter_match metrics tr s).queue in
        (new : List Ref) × (q.tasks ≡ s.queue.tasks ++ new)
        × (q.pending ≡ s.queue.pending ++ new)
        × (map (λ r. (q.heap r).metric_name) new ≡ metrics)
        × All (λ r. IsTaskOf filter_match tr (q.heap r)) new
        × (map q.heap s.queue.tasks ≡ map s.queue.heap s.queue.tasks)
  begin_range-IsTaskOf metrics s h = begin_range_numbered metrics s h.numbered
