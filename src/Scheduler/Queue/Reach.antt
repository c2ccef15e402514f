-- ===== src/Scheduler/Queue/Reach.antt =====
-- The states of the queue that the program can reach, and what holds in all of them.
use mathlib.Core.List.{Mem, Nodup, Nodup-nil, mem-append_right}
use mathlib.Core.List.Perm
use victoriametrics_data_mig.Prelude.{
  ◌↔◌, Perm, append_assoc, Nodup-of_map, Nodup-suffix, mem-suffix, ℕ, ◌+◌, ◌≡◌, ap, List, [], ◌++◌,
  arith, Text, All, All-map, length, length-append, length-perm, length-values, keep_everything,
  values,
}
use victoriametrics_data_mig.Types.{Task}
use victoriametrics_data_mig.Scheduler.Queue.{
  Ref, Heap, update, TaskQueue, Env, new_task_queue, add_tasks, next_task, stats, is_abandoned,
  count_abandoned, complete_task, fail_task, replace_tasks, StateFile,
}
use victoriametrics_data_mig.Scheduler.Queue.Refs.{ids-update_absent, All-update, All-update_map}
use victoriametrics_data_mig.Scheduler.Queue.Invariant.{
  IsWaiting, IsRunning, IsSucceeded, IsAbandoned, IsReplaced, live, IsQueue,
}
use victoriametrics_data_mig.Scheduler.Queue.Moves.{
  not-mem-waiting, not-mem-active, not-mem-done, not-mem-given_up, not-mem-gone,
}
use victoriametrics_data_mig.Scheduler.Queue.Preserved.{
  AreNew, next_task-IsQueue, complete_task-IsQueue, fail_task-IsQueue, add_tasks-IsQueue,
  replace_tasks-IsQueue,
}

-- The states that a queue can reach. The methods may be called in any order and with any arguments;
-- a task object is written only by the queue once it has been added.
pub data Step (q : TaskQueue) : TaskQueue → Type 0 where
  creates : (r : Ref) (t : Task) → ¬ Mem r q.tasks → Step q (record q { heap = update q.heap r t })
  adds : (new : List Ref) → Step q (add_tasks new q)
  takes : (env : Env) → Step q (next_task env q).1
  completes : (env : Env) (id : Text) (bytes : ℕ) → Step q (complete_task env id bytes q)
  fails : (env : Env) (id msg : Text) → Step q (fail_task env id msg q).1
  replaces : (env : Env) (old : Text) (new : List Ref) → Step q (replace_tasks env old new q)

pub data Reach (q : TaskQueue) : TaskQueue → Type 0 where
  here : Reach q q
  next : {p p' : TaskQueue} → Reach q p → Step p p' → Reach q p'

-- The tasks that a call adds wait, and have identifiers that no task of the queue has; the queue does
-- not check that.
abbrev pub AddsNew : {p q : TaskQueue} → Step p q → Type 0
AddsNew {p} (creates r t absent) = Unit
AddsNew {p} (adds new) = AreNew p new
AddsNew {p} (takes env) = Unit
AddsNew {p} (completes env id bytes) = Unit
AddsNew {p} (fails env id msg) = Unit
AddsNew {p} (replaces env old new) = AreNew p new

abbrev pub AddNew : {p q : TaskQueue} → Reach p q → Type 0
AddNew here = Unit
AddNew (next r st) = AddNew r × AddsNew st

pub create-IsQueue :
    (q : TaskQueue) (r : Ref) (t : Task)
    → ¬ Mem r q.tasks
    → IsQueue q
    → IsQueue (record q { heap = update q.heap r t })
create-IsQueue q r t absent h = record {
  gone = h.gone;
  sound = record {
    distinct = rw (ids-update_absent q.heap r t _ not_live) h.sound.distinct;
    keys = h.sound.keys;
    waits =
        All-update IsWaiting q.heap r t q.pending
          (not-mem-waiting q.pending q.running q.done q.failed h.gone not_live) h.sound.waits;
    runs =
        All-update_map IsRunning q.heap r t q.running
          (not-mem-active q.pending q.running q.done q.failed h.gone not_live) h.sound.runs;
    succeeds =
        All-update IsSucceeded q.heap r t q.done
          (not-mem-done q.pending q.running q.done q.failed h.gone not_live) h.sound.succeeds;
    gives_up =
        All-update IsAbandoned q.heap r t q.failed
          (not-mem-given_up q.pending q.running q.done q.failed h.gone not_live) h.sound.gives_up;
    replaced =
        All-update IsReplaced q.heap r t h.gone
          (not-mem-gone q.pending q.running q.done q.failed h.gone not_live) h.sound.replaced;
  };
  listed = h.listed;
}
  where
    not_live : ¬ Mem r (live q.pending q.running q.done q.failed h.gone)
    not_live m = absent (Perm.subset (Perm.symm h.listed) r m)

Step-IsQueue : {p q : TaskQueue} (st : Step p q) → AddsNew st → IsQueue p → IsQueue q
Step-IsQueue {p} (creates r t absent) new h = create-IsQueue p r t absent h
Step-IsQueue {p} (adds tasks) new h = add_tasks-IsQueue tasks p new h
Step-IsQueue {p} (takes env) new h = next_task-IsQueue env p h
Step-IsQueue {p} (completes env id bytes) new h = complete_task-IsQueue env id bytes p h
Step-IsQueue {p} (fails env id msg) new h = fail_task-IsQueue env id msg p h
Step-IsQueue {p} (replaces env old tasks) new h = replace_tasks-IsQueue env old tasks p new h

pub new_task_queue-IsQueue :
    (heap : Heap) (file : Text) (disk : StateFile) → IsQueue (new_task_queue heap file disk)
unfolding new_task_queue
new_task_queue-IsQueue heap file disk = record {
  gone = [];
  sound = record {
    distinct = Nodup-nil;
    keys = tt;
    waits = tt;
    runs = tt;
    succeeds = tt;
    gives_up = tt;
    replaced = tt;
  };
  listed = Perm.refl [];
}

-- In every state that a new queue reaches by calls of its methods in any order, where every call that
-- adds or replaces tasks brings tasks that wait and whose identifiers no task of the queue has, which
-- the queue itself does not check: all tasks ever added have different identifiers and stand in
-- exactly one of the lists of pending, running, succeeded, failed and replaced tasks; each list holds
-- tasks of its status only; a task is pending or running only if it is new or has failed fewer than
-- `max_retries` times, and is abandoned after exactly `max_retries` attempts, the first one
-- included, or after one where that is 0.
pub Reach-IsQueue :
    (heap : Heap) (file : Text) (disk : StateFile) {q : TaskQueue}
    (r : Reach (new_task_queue heap file disk) q)
    → AddNew r
    → IsQueue q
Reach-IsQueue heap file disk here new = new_task_queue-IsQueue heap file disk
Reach-IsQueue heap file disk (next r st) (new, added) =
    Step-IsQueue st added (Reach-IsQueue heap file disk r new)

-- All failed tasks are abandoned.
pub count_abandoned-IsQueue : (q : TaskQueue) → IsQueue q → count_abandoned q ≡ length q.failed
unfolding count_abandoned
count_abandoned-IsQueue q h = ap length (
    keep_everything (λ r. is_abandoned (q.heap r).status) q.failed
      (All-map (λ j g. rw g.0) q.failed h.sound.gives_up))

-- The tasks of the four lists.
abbrev pub listed_tasks : TaskQueue → List Ref
listed_tasks q = q.pending ++ (values q.running ++ (q.done ++ q.failed))

live_listed :
    (q : TaskQueue) (gone : List Ref)
    → live q.pending q.running q.done q.failed gone ≡ listed_tasks q ++ gone
live_listed q gone = simp append_assoc

-- In every state that a new queue reaches by calls that only add new tasks, the total of `Stats` is
-- the sum of its pending, running, succeeded and failed tasks and of the tasks that others replaced:
-- those, each counted once, that were added and stand in none of the lists, all of which were running
-- when they were replaced. All failed tasks are abandoned.
pub stats_total :
    (heap : Heap) (file : Text) (disk : StateFile) {q : TaskQueue}
    (r : Reach (new_task_queue heap file disk) q)
    → AddNew r
    → (gone : List Ref) × Nodup gone
      × ((j : Ref) → Mem j gone ↔ (Mem j q.tasks × ¬ Mem j (listed_tasks q)))
      × All (λ j. IsReplaced (q.heap j)) gone
      × ((stats q).total
          ≡ (stats q).pending
            + (stats q).running
            + (stats q).succeeded
            + (stats q).failed
            + length gone)
      × ((stats q).abandoned ≡ (stats q).failed)
unfolding stats
stats_total heap file disk {q} r new =
    let each : Nodup (live q.pending q.running q.done q.failed h.gone) =
      Nodup-of_map (λ j. (q.heap j).id) (live q.pending q.running q.done q.failed h.gone)
        h.sound.distinct in
    let distinct : Nodup (listed_tasks q ++ h.gone) = rw (live_listed q h.gone) at each in
    let all : Perm q.tasks (listed_tasks q ++ h.gone) = rw (live_listed q h.gone) at h.listed in
    let (once, apart) = Nodup-suffix (listed_tasks q) h.gone distinct in
    (
      h.gone,
      once,
      λ j. (
        (λ m. (
          Perm.subset (Perm.symm all) j (mem-append_right (listed_tasks q) m),
          λ k. apart j k m,
        )),
        λ (m, out). mem-suffix (listed_tasks q) h.gone j (Perm.subset all j m) out,
      ),
      h.sound.replaced,
      omega (
        arith,
        length-perm h.listed,
        length-append q.pending (values q.running ++ (q.done ++ (q.failed ++ h.gone))),
        length-append (values q.running) (q.done ++ (q.failed ++ h.gone)),
        length-append q.done (q.failed ++ h.gone),
        length-append q.failed h.gone,
        length-values q.running,
      ),
      count_abandoned-IsQueue q h,
    )
  where
    h : IsQueue q
    h = Reach-IsQueue heap file disk r new
