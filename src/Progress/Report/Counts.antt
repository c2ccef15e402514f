-- ===== src/Progress/Report/Counts.antt =====
-- The counts of the report of internal/progress/tracker.go agree with each other.
use victoriametrics_data_mig.Prelude.{
  ℕ, ◌+◌, ◌≤◌, ◌≡◌, refl, List, [], ◌∷◌, map, arith, Text, length, keep, Float, ◌∙◌, sym,
}
use victoriametrics_data_mig.Types.{Task}
use victoriametrics_data_mig.Scheduler.Calendar.{Time}
use victoriametrics_data_mig.Scheduler.Queue.{
  Heap, TaskQueue, StateFile, new_task_queue, stats, get_all_tasks, get_failed_tasks,
}
use victoriametrics_data_mig.Scheduler.Queue.Reach.{Reach, AddNew, Reach-IsQueue, stats_total}
use victoriametrics_data_mig.Scheduler.Queue.Saved.{count_status, is_succeeded, done_counted}
use victoriametrics_data_mig.Progress.Tracker.{Tracker}
use victoriametrics_data_mig.Progress.Report.{
  Formats, counts_as_retried, detail_of, generate_report,
}

retried_le : (ts : List Task) → length (keep counts_as_retried ts) ≤ count_status is_succeeded ts
retried_le [] = omega arith
retried_le (t ∷ ts) = ground (arith, retried_le ts)

pub length-map {ℓ κ} :
    {A : Type ℓ} {B : Type κ} (f : A → B) (xs : List A) → length (map f xs) ≡ length xs
length-map f [] = refl
length-map f (x ∷ xs) = omega (arith, length-map f xs)

-- In every state that a new queue reaches by calls that only add new tasks, the report has one detail for each abandoned task, counts
-- no more tasks as retried than as succeeded, and no more as succeeded and abandoned together than in
-- total.
pub generate_report_lem :
    (F : Float) (formats : Formats F) (now : Time) (metrics_count : ℕ) (t : Tracker) (heap : Heap)
    (file : Text) (disk : StateFile) {q : TaskQueue} (run : Reach (new_task_queue heap file disk) q)
    → AddNew run
    → (length (generate_report F formats now metrics_count t q).failed_task_details
        ≡ (generate_report F formats now metrics_count t q).abandoned)
      × ((generate_report F formats now metrics_count t q).retried
          ≤ (generate_report F formats now metrics_count t q).succeeded)
      × ((generate_report F formats now metrics_count t q).succeeded
            + (generate_report F formats now metrics_count t q).abandoned
          ≤ (generate_report F formats now metrics_count t q).total_tasks)
unfolding generate_report get_all_tasks get_failed_tasks stats
generate_report_lem F formats now metrics_count t heap file disk {q} run new =
    let (gone, _, _, _, total, given_up) = stats_total heap file disk run new in
    let counted = done_counted q (Reach-IsQueue heap file disk run new) in
    (
      length-map (λ r. detail_of F formats (q.heap r)) q.failed ∙ sym given_up,
      omega (arith, retried_le (map q.heap q.tasks), counted),
      omega arith,
    )
