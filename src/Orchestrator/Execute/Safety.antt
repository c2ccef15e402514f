-- ===== src/Orchestrator/Execute/Safety.antt =====
-- Every run of `executeTasks` keeps its invariant.
use mathlib.Core.List.{mem-cons_self, map-append, perm_middle, perm_append_singleton, append_assoc}
use mathlib.Core.List.Perm
use victoriametrics_data_mig.Prelude.{
  ℕ, suc, ◌+◌, ◌<◌, ◌≡◌, refl, inl, inr, List, [], ◌∷◌, ◌++◌, map, Perm, arith, ap, length,
  length-append, length-perm, Option-cases,
}
use victoriametrics_data_mig.Scheduler.Queue.{Ref, Env, next_task, next_from, start}
use victoriametrics_data_mig.Scheduler.Queue.Invariant.{IsSound}
use victoriametrics_data_mig.Scheduler.Queue.Refs.{update_self}
use victoriametrics_data_mig.Scheduler.Queue.Moves.{delete_unused}
use victoriametrics_data_mig.Scheduler.Queue.Preserved.{next_from-IsQueue}
use victoriametrics_data_mig.Worker.Pool.{WorkerConn, acquire_worker, release_worker}
use victoriametrics_data_mig.Worker.Pool.Busy.{
  busy_workers, acquire_from_lem, acquire_from-none, release_from_lem, length-release_from,
}
use victoriametrics_data_mig.Orchestrator.Execute.{
  Exec, Flight, Received, Outcome, dispatching, finish, dispatch, launch, Step, Run,
}
use victoriametrics_data_mig.Orchestrator.Execute.Invariant.{
  IsExec, IsHandling, in_flight, carriers, IsNumbered-same,
}
use victoriametrics_data_mig.Orchestrator.Execute.Handled.{handle-IsExec}

-- A worker that is released leaves the busy ones.
released :
    (w : ℕ) (others : List ℕ) (ws : List WorkerConn)
    → Perm (w ∷ others) (busy_workers ws)
    → Perm others (busy_workers (release_worker w ws))
unfolding release_worker
released w others ws p = elim (release_from_lem 0 w ws) [
  | inl q ↦ Perm.cons_inv (Perm.trans p q)
  | inr absent ↦ absurd (absent (Perm.subset p w mem-cons_self))
]

landed :
    (f : Flight) (outcome : Outcome) (front back : List Flight) (results : List Received)
    → Perm
        (in_flight
          (front ++ back)
          (results ++ record { task_id = f.task_id; outcome = outcome } ∷ []))
        (in_flight (front ++ f ∷ back) results)
landed f outcome front back results =
    let ids = map (λ (g : Flight). g.task_id) (front ++ back) in
    let waiting = map (λ (r : Received). r.task_id) results in
    rw
      (
        map-append (λ (r : Received). r.task_id) results
            (record { task_id = f.task_id; outcome = outcome } ∷ []),
        ← append_assoc,
      )
      (Perm.trans (perm_append_singleton f.task_id (ids ++ waiting)) (
        Perm.append_right waiting
          (Perm.map (λ (g : Flight). g.task_id) (Perm.symm (perm_middle front back)))))

finish-IsExec :
    (f : Flight) (outcome : Outcome) (front back : List Flight) (s : Exec)
    → s.flying ≡ front ++ f ∷ back
    → IsExec s
    → IsExec (finish f outcome (front ++ back) s)
unfolding finish release_worker
finish-IsExec f outcome front back s e h = record {
  queue = h.queue;
  numbered = h.numbered;
  flights = Perm.trans (landed f outcome front back s.results) (rw e at h.flights);
  busy = released f.worker _ s.workers (
      Perm.trans (rw e (Perm.map (λ (g : Flight). g.worker) (Perm.symm (perm_middle front back))))
        h.busy);
  counted = h.counted;
  staffed = rw (length-release_from 0 f.worker s.workers) h.staffed;
  awake = λ waits. inr (
      omega
        (arith, length-append s.results (record { task_id = f.task_id; outcome = outcome } ∷ [])));
}

received :
    (r : Received) (flying : List Flight) (front back : List Received)
    → Perm (r.task_id ∷ in_flight flying (front ++ back)) (in_flight flying (front ++ r ∷ back))
received r flying front back =
    let ids = map (λ (g : Flight). g.task_id) flying in
    Perm.trans (Perm.symm (perm_middle ids (map (λ (q : Received). q.task_id) (front ++ back)))) (
      Perm.append_left ids
        (Perm.map (λ (q : Received). q.task_id) (Perm.symm (perm_middle front back))))

-- A result that the main goroutine has received.
pub takes-IsHandling :
    (r : Received) (front back : List Received) (s : Exec)
    → s.results ≡ front ++ r ∷ back
    → IsExec s
    → IsHandling r.task_id (record s { results = front ++ back; pc = dispatching })
takes-IsHandling r front back s e h = record {
  queue = h.queue;
  numbered = h.numbered;
  flights = Perm.trans (received r s.flying front back) (rw e at h.flights);
  busy = h.busy;
  counted = h.counted;
  staffed = h.staffed;
  dispatches = λ waits. cc;
}

pub length-in_flight :
    (flying : List Flight) (results : List Received)
    → length (in_flight flying results) ≡ length flying + length results
length-in_flight [] [] = refl
length-in_flight [] (r ∷ results) = omega (arith, length-in_flight [] results)
length-in_flight (f ∷ flying) results = omega (arith, length-in_flight flying results)

pub length-carriers : (flying : List Flight) → length (carriers flying) ≡ length flying
length-carriers [] = refl
length-carriers (f ∷ flying) = ap suc (length-carriers flying)

launched :
    (f : Flight) (flying : List Flight) (results : List Received)
    → Perm (in_flight (flying ++ f ∷ []) results) (f.task_id ∷ in_flight flying results)
launched f flying results =
    Perm.append_right (map (λ (r : Received). r.task_id) results)
      (Perm.map (λ (g : Flight). g.task_id) (perm_append_singleton f flying))

one_more :
    (f : Flight) (flying : List Flight) (results : List Received)
    → 0 < length (flying ++ f ∷ []) + length results
one_more f flying results = omega (arith, length-append flying (f ∷ []))

-- The main goroutine has acquired the worker `w`.
launch-IsExec :
    (env : Env) (w : ℕ) (ws : List WorkerConn) (s : Exec) (rs : List Ref)
    → s.queue.pending ≡ rs
    → Perm (busy_workers ws) (w ∷ busy_workers s.workers)
    → length ws ≡ length s.workers
    → IsExec s
    → IsExec (launch w ws s (next_from env rs s.queue))
unfolding launch next_from start release_worker
launch-IsExec env w ws s [] e taken long h = record {
  queue = h.queue;
  numbered = h.numbered;
  flights = h.flights;
  busy = released w _ ws (Perm.trans (Perm.cons w h.busy) (Perm.symm taken));
  counted = h.counted;
  staffed = rw (length-release_from 0 w ws, long) h.staffed;
  awake = λ waits. inl e;
}
launch-IsExec env w ws s (r ∷ rest) e taken long h =
    let whole : IsSound s.queue.heap (r ∷ rest) s.queue.running s.queue.done s.queue.failed
        h.queue.gone =
      rw e at h.queue.sound in
    record {
      queue = next_from-IsQueue env s.queue (r ∷ rest) e h.queue;
      numbered = IsNumbered-same s.task_counter s.queue.heap r _ s.queue.tasks refl h.numbered;
      flights = Perm.trans (launched _ s.flying s.results) (
          rw (update_self s.queue.heap r _, delete_unused r whole)
            (Perm.cons (s.queue.heap r).id h.flights));
      busy =
          Perm.trans (Perm.map (λ (g : Flight). g.worker) (perm_append_singleton _ s.flying))
            (Perm.trans (Perm.cons w h.busy) (Perm.symm taken));
      counted = h.counted;
      staffed = rw long h.staffed;
      awake = λ waits. inr (one_more _ s.flying s.results);
    }

dispatch-IsExec : (env : Env) (s : Exec) → IsExec s → IsExec (dispatch env s)
unfolding dispatch acquire_worker next_task
dispatch-IsExec env s h = elim (Option-cases (acquire_worker s.workers)) [
  | inl none_idle ↦
      rw (none_idle, dispatch)
        (record {
          queue = h.queue;
          numbered = h.numbered;
          flights = h.flights;
          busy = h.busy;
          counted = h.counted;
          staffed = h.staffed;
          awake = λ waits. inr (
              omega (
                arith,
                h.staffed,
                acquire_from-none 0 s.workers none_idle,
                length-perm h.busy,
                length-carriers s.flying,
              ));
        })
  | inr ((w, ws), found) ↦
      let (taken, long) = acquire_from_lem 0 w s.workers ws found in
      rw (found, dispatch) (launch-IsExec env w ws s s.queue.pending refl taken long h)
]

pub Step-IsExec : (max_retries : ℕ) {s t : Exec} → Step max_retries s t → IsExec s → IsExec t
Step-IsExec max_retries {s} (Step.turns env pc) h = dispatch-IsExec env s h
Step-IsExec max_retries {s} (Step.ends f outcome front back e) h =
    finish-IsExec f outcome front back s e h
Step-IsExec max_retries {s} (Step.takes env plan r front back pc more e) h =
    handle-IsExec max_retries env plan (record s { results = front ++ back; pc = dispatching }) r
      (takes-IsHandling r front back s e h)

-- Every state that a run of `executeTasks` reaches from one with the invariant has it, whatever the
-- workers answer, the order of their answers and the splits that are found: the queue is sound, the
-- tasks that workers run or whose results wait are exactly the running ones of the queue, each once,
-- the workers that run a task are exactly the busy ones, none with two tasks, and the metrics of
-- succeeded and abandoned tasks count the queue's lists.
pub Run-IsExec : (max_retries : ℕ) {s t : Exec} → IsExec s → Run max_retries s t → IsExec t
Run-IsExec max_retries h Run.here = h
Run-IsExec max_retries h (Run.next r st) = Step-IsExec max_retries st (Run-IsExec max_retries h r)
