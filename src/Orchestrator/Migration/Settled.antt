-- ===== src/Orchestrator/Migration/Settled.antt =====
-- What `Run` of internal/orchestrator/orchestrator.go leaves behind.
use victoriametrics_data_mig.Prelude.{
  true_not_false, ℕ, ◌<◌, ◌≡◌, refl, ◌↔◌, Bool, true, false, ◌&&◌, List, [], ◌∷◌, ◌++◌, Option,
  none, some, Text, codes, decimal, Map, arith, length, Perm, All, ltb, Result, if◌then◌else◌, ℤ,
}
use victoriametrics_data_mig.Scheduler.TimeRange.{TimeRange}
use victoriametrics_data_mig.Scheduler.Queue.{
  Ref, Heap, TaskQueue, StateFile, is_complete, is_nil, new_task_queue, stats, count_abandoned,
}
use victoriametrics_data_mig.Scheduler.Queue.Invariant.{
  IsQueue, IsSucceeded, IsAbandoned, IsReplaced,
}
use victoriametrics_data_mig.Scheduler.Queue.Reach.{count_abandoned-IsQueue}
use victoriametrics_data_mig.Worker.Pool.{WorkerConn}
use victoriametrics_data_mig.Worker.Pool.Busy.{busy_workers}
use victoriametrics_data_mig.Orchestrator.Execute.Invariant.{IsExec}
use victoriametrics_data_mig.Orchestrator.Execute.Safety.{Run-IsExec}
use victoriametrics_data_mig.Scheduler.Calendar.{Time}
use victoriametrics_data_mig.Orchestrator.Migration.{
  Migrating, begin_loop, begin_migration, begin_tasks, count_metrics, end_range, processed,
  run_error, visit,
}
use victoriametrics_data_mig.Orchestrator.Migration.Loop.{Ranges}
use victoriametrics_data_mig.Orchestrator.Migration.Begins.{
  begin_migration-IsExec, begin_range-IsExec,
}

pub complete_empty : (q : TaskQueue) → is_complete q ≡ true → (q.pending ≡ []) × (q.running ≡ [])
unfolding is_complete
complete_empty q e = both q.pending q.running e
  where
    both : (p : List Ref) (m : Map Ref) → (is_nil p && is_nil m) ≡ true → (p ≡ []) × (m ≡ [])
    both [] [] e = (refl, refl)
    both [] (x ∷ m) e = cc
    both (x ∷ p) m e = cc

-- A queue whose every task has come to an end: it succeeded, or was given up, or the tasks of its
-- split stand for it.
abbrev pub IsSettled : TaskQueue → Type 0
IsSettled q =
    (replaced : List Ref) × Perm q.tasks (q.done ++ (q.failed ++ replaced))
    × All (λ r. IsSucceeded (q.heap r)) q.done
    × All (λ r. IsAbandoned (q.heap r)) q.failed
    × All (λ r. IsReplaced (q.heap r)) replaced

settled : (q : TaskQueue) → IsQueue q → is_complete q ≡ true → IsSettled q
settled q h e =
    let (none_waits, none_runs) = complete_empty q e in
    (
      h.gone,
      rw (none_waits, none_runs) at h.listed,
      h.sound.succeeds,
      h.sound.gives_up,
      h.sound.replaced,
    )

error_iff : (q : TaskQueue) → IsQueue q → (run_error q ≡ none) ↔ (q.failed ≡ [])
unfolding run_error stats
error_iff q h = none_iff q.failed (count_abandoned q) (count_abandoned-IsQueue q h)
  where
    none_iff :
        (rs : List Ref) (n : ℕ)
        → n ≡ length rs
        → ((if ltb 0 n
              then some (decimal n ++ codes " tasks failed permanently, see logs above for details")
              else none)
            ≡ none)
          ↔ (rs ≡ [])
    none_iff [] n e = ((λ h. refl), λ h. rw e refl)
    none_iff (r ∷ rs) n e = ((λ h. ground arith), λ h. cc)

pub begin_tasks-IsExec :
    (max_retries : ℕ) (filter_match : Text) (metrics : List Text) (tr : TimeRange) (i : ℕ)
    (range_str : Text) (m : Migrating)
    → IsExec m.exec
    → IsExec (begin_tasks max_retries filter_match metrics tr (visit i range_str m)).exec
unfolding begin_tasks visit
begin_tasks-IsExec max_retries filter_match metrics tr i range_str m h =
    begin_range-IsExec max_retries filter_match tr metrics m.exec h

module _ (max_retries : ℕ) (filter_match : Text) (dry_run : Bool) (excludes : List (Text → Bool))
    (discover : TimeRange → Result (List Text)) (date : Time → Text) where
  pub Ranges-IsExec :
      {i : ℕ} {trs : List TimeRange} {m n : Migrating} {r : Option Text}
      → Ranges max_retries filter_match dry_run excludes discover date i trs m r n
      → IsExec m.exec
      → IsExec n.exec
  unfolding visit processed count_metrics end_range
  Ranges-IsExec Ranges.finished h = h
  Ranges-IsExec (Ranges.cancelled tr) h = h
  Ranges-IsExec (Ranges.ticked k ticks rs) h = Ranges-IsExec rs h
  Ranges-IsExec (Ranges.undiscovered tr message failed rs) h = Ranges-IsExec rs h
  Ranges-IsExec (Ranges.empty tr metrics found none_left rs) h = Ranges-IsExec rs h
  Ranges-IsExec {i} {m = m} (Ranges.planned tr metrics found some_left dry rs) h =
      Ranges-IsExec rs (begin_tasks-IsExec max_retries filter_match _ tr i _ m h)
  Ranges-IsExec {i} {m = m}
        (Ranges.interrupted tr metrics found some_left wet run waits open_queue ticks) h =
      Run-IsExec max_retries (begin_tasks-IsExec max_retries filter_match _ tr i _ m h) run
  Ranges-IsExec {i} {m = m} (Ranges.executed tr metrics found some_left wet run complete ticks rs)
        h =
      Ranges-IsExec rs
        (Run-IsExec max_retries (begin_tasks-IsExec max_retries filter_match _ tr i _ m h) run)

module _ (max_retries : ℕ) (filter_match : Text) (excludes : List (Text → Bool))
    (discover : TimeRange → Result (List Text)) (date : Time → Text) where
  pub Ranges-complete :
      {i : ℕ} {trs : List TimeRange} {m n : Migrating}
      → Ranges max_retries filter_match false excludes discover date i trs m none n
      → is_complete m.exec.queue ≡ true
      → is_complete n.exec.queue ≡ true
  unfolding visit processed count_metrics end_range
  Ranges-complete Ranges.finished e = e
  Ranges-complete (Ranges.ticked k ticks rs) e = Ranges-complete rs e
  Ranges-complete (Ranges.undiscovered tr message failed rs) e = Ranges-complete rs e
  Ranges-complete (Ranges.empty tr metrics found none_left rs) e = Ranges-complete rs e
  Ranges-complete (Ranges.planned tr metrics found some_left dry rs) e =
      absurd (true_not_false dry refl)
  Ranges-complete (Ranges.executed tr metrics found some_left wet run complete ticks rs) e =
      Ranges-complete rs complete

  -- Where some worker is connected and none is busy, a migration, not a dry run, that comes to the end
  -- of its ranges without an error has brought every task of its queue to an end: each task succeeded,
  -- or was given up after its last attempt, or was replaced by the tasks of its split. It then returns
  -- no error exactly where no task was given up. Ranges that were skipped have no task.
  pub Ranges-IsSettled :
      (now : Time) (interval : ℤ) (workers : List WorkerConn) (heap : Heap) (state_file : Text)
      (disk : StateFile) (trs : List TimeRange) (n : Migrating)
      → 0 < length workers
      → busy_workers workers ≡ []
      → Ranges max_retries filter_match false excludes discover date 0 trs
          (begin_loop now interval (length trs) (begin_migration workers heap state_file disk))
          none
          n
      → IsSettled n.exec.queue × ((run_error n.exec.queue ≡ none) ↔ (n.exec.queue.failed ≡ []))
  unfolding is_complete begin_loop begin_migration new_task_queue
  Ranges-IsSettled now interval workers heap state_file disk trs n staffed idle rs =
      let begun = begin_migration-IsExec workers heap state_file disk staffed idle in
      let h = Ranges-IsExec max_retries filter_match false excludes discover date rs begun in
      (settled n.exec.queue h.queue (Ranges-complete rs refl), error_iff n.exec.queue h.queue)
