-- ===== src/Orchestrator/Migration/Tests.antt =====
-- A migration of two time ranges, the second of which cannot be discovered.
use mathlib.Core.List.{Nodup}
use victoriametrics_data_mig.Scheduler.Queue
use victoriametrics_data_mig.Prelude.{
  if◌then◌else◌, ◌==◌, ◌≡◌, refl, true, List, [], ◌∷◌, none, Text, text_eq, codes, Result, err, ok,
  arith, decimal, map, All, ◌++◌, false, ◌⊎◌, inl, inr, ◌+◌, ℤ, pos, ℕ, trim_space, trim_prefix,
  trim_suffix, is_space,
}
use victoriametrics_data_mig.Scheduler.TimeRange.{TimeRange, show_range}
use victoriametrics_data_mig.Scheduler.Queue.{
  absent, Ref, stats, count_abandoned, next_task, next_from, is_complete, complete_task, complete,
  persist_state, add_tasks, new_task_queue,
}
use victoriametrics_data_mig.Worker.Pool.{
  acquire_worker, acquire_from, release_worker, release_from,
}
use victoriametrics_data_mig.Orchestrator.Selectors.{
  create_tasks_for_metric, filter_metrics, build_optimistic_selector, extract_base_selector,
}
use victoriametrics_data_mig.Orchestrator.Execute.{
  Exec, Step, Run, dispatching, dispatch, launch, finish, handle, succeed, task_id, make_tasks,
  new_refs,
}
use victoriametrics_data_mig.Orchestrator.Execute.Tests.{
  noon, env, heap, no_split, success, flight, received, initial,
}
use victoriametrics_data_mig.Scheduler.Calendar.{Time, instant}
use victoriametrics_data_mig.Progress.Tracker.{
  Tracker, Tick, Ticks, looping, new_tracker, set_current_range, start,
}
use victoriametrics_data_mig.Orchestrator.Migration.{
  Migrating, begin_loop, begin_range, begin_tasks, count_metrics, end_range, processed, run_error,
  visit,
}
use victoriametrics_data_mig.Orchestrator.Migration.Loop.{Ranges, enter_range}
use victoriametrics_data_mig.Orchestrator.Migration.Counted.{
  found_ranges, sum_metrics, Ranges-counts,
}
use victoriametrics_data_mig.Orchestrator.Migration.Conserved.{ConservesAll}
use victoriametrics_data_mig.Orchestrator.Migration.Once.{sampled, IsNamedOnce}
use victoriametrics_data_mig.Splitter.Recursion.Meaning.{Store}
use victoriametrics_data_mig.Splitter.Selector.{strip_braces}
use victoriametrics_data_mig.Orchestrator.Migration.Quiet.{Ranges-IsQuiet}
use victoriametrics_data_mig.Orchestrator.Migration
use victoriametrics_data_mig.Orchestrator.Migration.Begins.{begin_migration-IsExec}
use victoriametrics_data_mig.Orchestrator.Migration.Tasks.{IsTaskOf, begin_range-IsTaskOf}

abbrev first : TimeRange
first = record {
  start = noon;
  end = record { wall = 63_000_086_400_000_000_000; zone = 86_400_000_000_000 };
}

abbrev pub second : TimeRange
second = record {
  start = first.end;
  end = record { wall = 63_000_172_800_000_000_000; zone = 86_400_000_000_000 };
}

abbrev metrics : List Text
metrics = codes "up" ∷ []

abbrev pub discover : TimeRange → Result (List Text)
discover tr = if tr.start.wall == noon.wall then ok metrics else err (codes "timeout")

abbrev begun : Exec
begun = begin_range 3 [] metrics first (Migration.begin_migration initial.workers heap [] absent)

abbrev landed : Exec
landed = finish flight success [] (dispatch env (dispatch env begun))

abbrev ended : Exec
ended = handle 3 env no_split received (record landed { results = []; pc = dispatching })

run : Run 3 begun ended
unfolding dispatch launch acquire_worker acquire_from next_task next_from Queue.start finish
    release_worker release_from is_complete begin_range Migration.begin_migration new_task_queue
    add_tasks make_tasks new_refs create_tasks_for_metric
run =
    Run.next
      (Run.next (Run.next (Run.next Run.here (Step.turns env refl)) (Step.turns env refl))
        (Step.ends flight success [] [] refl))
      (Step.takes env no_split received [] [] refl refl refl)

some_left : ¬ filter_metrics metrics [] ≡ []
unfolding filter_metrics
some_left e = cc

complete_now : is_complete ended.queue ≡ true
unfolding is_complete handle succeed dispatch launch acquire_worker acquire_from next_task next_from
    Queue.start finish complete_task complete persist_state begin_range Migration.begin_migration
    new_task_queue add_tasks make_tasks new_refs create_tasks_for_metric task_id decimal
complete_now = refl

abbrev blank_date : Time → Text
blank_date t = []

abbrev fresh : Exec
fresh = Migration.begin_migration initial.workers heap [] absent

abbrev interval : ℤ
interval = pos 30_000_000_000

abbrev pub ranges : List TimeRange
ranges = first ∷ second ∷ []

abbrev entered : Migrating
entered = begin_loop noon interval 2 fresh

abbrev after_first : Migrating
after_first = enter_range 3 [] false [] discover blank_date metrics first 0 entered

-- The goroutine of the tracker logs once while the task runs.
abbrev ticked : Tracker
ticked = record (start after_first.tracker) { tickers = looping ∷ [] }

ticks : Ticks (start after_first.tracker) ticked
unfolding begin_loop begin_tasks visit set_current_range new_tracker start
ticks =
    Ticks.next
      (Ticks.next (Ticks.next Ticks.here (Tick.begins [] [] refl refl)) (Tick.selects [] [] refl))
      (Tick.logs [] [] 1 refl)

abbrev pub after_loop : Migrating
after_loop = visit 1 (show_range blank_date second) (processed (end_range ended ticked after_first))

run_first : Run 3 after_first.exec ended
unfolding begin_tasks visit begin_loop filter_metrics count_metrics
run_first = run

pub migrated : Ranges 3 [] false [] discover blank_date 0 ranges entered none after_loop
migrated =
    Ranges.executed first metrics refl some_left refl run_first complete_now ticks
      (Ranges.undiscovered second (codes "timeout") refl Ranges.finished)

Ranges-counts_example :
    (after_loop.gauges.time_ranges_processed ≡ found_ranges discover ranges)
    × (after_loop.total_metrics ≡ sum_metrics [] discover ranges)
    × (after_loop.gauges.no_split ≡ sum_metrics [] discover ranges)
    × (after_loop.tracker.total_ranges ≡ 2)
    × ((ranges ≡ []) ⊎ (after_loop.tracker.current_range + 1 ≡ after_loop.tracker.total_ranges))
Ranges-counts_example =
    Ranges-counts 3 [] false [] discover blank_date noon interval fresh ranges after_loop migrated

Ranges-IsQuiet_example :
    Nodup after_loop.tracker.closed
    × Ticks after_loop.tracker (record (after_loop.tracker) { tickers = [] })
Ranges-IsQuiet_example =
    Ranges-IsQuiet 3 [] false [] discover blank_date noon interval fresh ranges after_loop none refl
      migrated

begin_range-IsTaskOf_example :
    (new : List Ref) × (begun.queue.tasks ≡ fresh.queue.tasks ++ new)
    × (begun.queue.pending ≡ fresh.queue.pending ++ new)
    × (map (λ r. (begun.queue.heap r).metric_name) new ≡ metrics)
    × All (λ r. IsTaskOf [] first (begun.queue.heap r)) new
    × (map begun.queue.heap fresh.queue.tasks ≡ map fresh.queue.heap fresh.queue.tasks)
begin_range-IsTaskOf_example =
    begin_range-IsTaskOf 3 [] first metrics fresh
      (begin_migration-IsExec initial.workers heap [] absent (omega arith) refl)

-- One series, which the selector of the metric selects.
abbrev pub store : Store
store = record {
  Series = ℕ;
  value = λ x label. [];
  selects = λ selector x. text_eq selector (codes "{__name__=\"up\"}");
}

-- The instant at which the first range starts.
abbrev pub at : ℕ
at = 63_000_086_400_000_000_000

pub named : IsNamedOnce store 0 at [] [] discover ranges
unfolding instant build_optimistic_selector extract_base_selector filter_metrics trim_space
    trim_prefix trim_suffix is_space strip_braces
named = (inr refl, (inl refl, tt))

pub keeps : ConservesAll (sampled store 0 at) 3 [] false [] discover blank_date migrated
unfolding migrated run_first run
keeps = (((((tt, tt), tt), tt), λ r e. inl refl), tt)

pub no_error : run_error after_loop.exec.queue ≡ none
unfolding run_error stats count_abandoned handle succeed dispatch launch acquire_worker acquire_from
    next_task next_from Queue.start finish complete_task complete persist_state begin_range
    Migration.begin_migration new_task_queue add_tasks make_tasks new_refs create_tasks_for_metric
    task_id decimal processed end_range visit
no_error = refl

-- A dry run of the same ranges.
abbrev dry_entered : Migrating
dry_entered = enter_range 3 [] true [] discover blank_date metrics first 0 entered

abbrev dry_loop : Migrating
dry_loop = visit 1 (show_range blank_date second) (processed dry_entered)
