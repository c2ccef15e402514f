-- ===== src/Orchestrator/Execute/Invariant.antt =====
-- What holds between the turns of `executeTasks` of internal/orchestrator/orchestrator.go.
use mathlib.Core.List.{mem-cons_self}
use mathlib.Core.List.Perm
use victoriametrics_data_mig.Prelude.{
  ℕ, ◌+◌, ◌<◌, ◌≡◌, ◌⊎◌, inl, inr, true, false, List, [], ◌∷◌, ◌++◌, map, some, Perm, Text, Map, ap,
  ◌∙◌, length, lookup, delete, keys, HasDistinctKeys, keys-delete-perm, lookup_of_mem-keys,
  Bool-cases, ◌==◌, ==_iff,
}
use victoriametrics_data_mig.Types.{Task}
use victoriametrics_data_mig.Scheduler.Queue.{Ref, Heap, update, TaskQueue}
use victoriametrics_data_mig.Scheduler.Queue.Invariant.{IsQueue}
use victoriametrics_data_mig.Worker.Pool.Busy.{busy_workers}
use victoriametrics_data_mig.Orchestrator.Execute.{
  Exec, Flight, Received, Counters, receiving, task_id,
}
use victoriametrics_data_mig.Orchestrator.Execute.Numbering.{IsNumbered}

-- The identifiers of the tasks that a worker runs or whose result waits.
abbrev pub in_flight : List Flight → List Received → List Text
in_flight flying results =
    map (λ (f : Flight). f.task_id) flying ++ map (λ (r : Received). r.task_id) results

abbrev pub carriers : List Flight → List ℕ
carriers flying = map (λ (f : Flight). f.worker) flying

-- The metrics count what the queue holds.
abbrev pub IsCounted : Counters → TaskQueue → Type 0
IsCounted c q = (c.succeeded ≡ length q.done) × (c.abandoned ≡ length q.failed)

-- The queue is sound and its tasks are numbered; the tasks that run or whose result waits are those
-- that the queue has as running, each once; the workers that run them are the busy ones, each once;
-- the metrics count; there is a worker; and while the main goroutine waits for a result, either no
-- task is pending or a result will come.
pub record IsExec (s : Exec) : Type 0 where
  pub queue : IsQueue s.queue
  pub numbered : IsNumbered s.task_counter s.queue.heap s.queue.tasks
  pub flights : Perm (in_flight s.flying s.results) (keys s.queue.running)
  pub busy : Perm (carriers s.flying) (busy_workers s.workers)
  pub counted : IsCounted s.counters s.queue
  pub staffed : 0 < length s.workers
  pub awake : s.pc ≡ receiving → (s.queue.pending ≡ []) ⊎ (0 < length s.flying + length s.results)

-- The same while the result of the task `id` is handled.
pub record IsHandling (id : Text) (s : Exec) : Type 0 where
  pub queue : IsQueue s.queue
  pub numbered : IsNumbered s.task_counter s.queue.heap s.queue.tasks
  pub flights : Perm (id ∷ in_flight s.flying s.results) (keys s.queue.running)
  pub busy : Perm (carriers s.flying) (busy_workers s.workers)
  pub counted : IsCounted s.counters s.queue
  pub staffed : 0 < length s.workers
  pub dispatches : ¬ s.pc ≡ receiving

pub IsNumbered-same :
    (n : ℕ) (heap : Heap) (r : Ref) (t : Task) (rs : List Ref)
    → t.id ≡ (heap r).id
    → IsNumbered n heap rs
    → IsNumbered n (update heap r t) rs
IsNumbered-same n heap r t [] same h = tt
IsNumbered-same n heap r t (j ∷ rs) same ((low, named), h) =
    ((low, kept (Bool-cases (r == j))), IsNumbered-same n heap r t rs same h)
  where
    kept : ((r == j) ≡ true) ⊎ ((r == j) ≡ false) → (update heap r t j).id ≡ task_id j
    kept (inl e) = rw e (same ∙ ap (λ k. (heap k).id) ((==_iff r j).0 e) ∙ named)
    kept (inr e) = rw e named

-- The task of the result is running, and leaves the running tasks.
found_running :
    (id : Text) (ids : List Text) (m : Map Ref)
    → HasDistinctKeys m
    → Perm (id ∷ ids) (keys m)
    → (r : Ref) × (lookup id m ≡ some r) × Perm ids (keys (delete id m))
found_running id ids m distinct p =
    let (r, found) = lookup_of_mem-keys id m (Perm.subset p id mem-cons_self) in
    (r, found, Perm.cons_inv (Perm.trans p (keys-delete-perm id r m distinct found)))

pub settled :
    {id : Text} {s : Exec}
    → IsHandling id s
    → (r : Ref) × (lookup id s.queue.running ≡ some r)
      × Perm (in_flight s.flying s.results) (keys (delete id s.queue.running))
settled {id} {s} h =
    found_running id (in_flight s.flying s.results) s.queue.running h.queue.sound.keys h.flights
