-- ===== src/Orchestrator/Execute/Progress.antt =====
-- `executeTasks` never waits for nothing, and leaves nothing behind.
use victoriametrics_data_mig.Prelude.{
  ℕ, ◌+◌, ◌<◌, ◌≡◌, refl, ◌⊎◌, inl, inr, Bool, true, false, ◌&&◌, List, [], ◌∷◌, Map, arith, keys,
  length, length-perm,
}
use victoriametrics_data_mig.Scheduler.Queue.{Ref, Env, is_complete, is_nil}
use victoriametrics_data_mig.Worker.Pool.Busy.{busy_workers, active_workers-busy}
use victoriametrics_data_mig.Worker.Pool.{active_workers}
use victoriametrics_data_mig.Orchestrator.Execute.{
  Exec, Flight, Received, Outcome, Pc, receiving, dispatching, Step, Run,
}
use victoriametrics_data_mig.Types.{Task}
use victoriametrics_data_mig.Splitter.Selector.{SelectorInfo}
use victoriametrics_data_mig.Orchestrator.Execute.Answers.{AnswersStep}
use victoriametrics_data_mig.Orchestrator.Execute.Invariant.{IsExec}
use victoriametrics_data_mig.Orchestrator.Execute.Safety.{
  Run-IsExec, length-in_flight, length-carriers,
}

running_some :
    (s : Exec)
    → IsExec s
    → s.queue.pending ≡ []
    → is_complete s.queue ≡ false
    → 0 < length s.flying + length s.results
unfolding is_complete
running_some s h none_pending more = omega (
  arith,
  length-perm h.flights,
  length-in_flight s.flying s.results,
  nonempty s.queue.running (rw none_pending at more),
)
  where
    nonempty : (m : Map Ref) → (is_nil {A = Ref} [] && is_nil m) ≡ false → 0 < length (keys m)
    nonempty [] e = cc
    nonempty ((k, v) ∷ m) e = omega arith

waiting_some :
    (s : Exec)
    → IsExec s
    → s.pc ≡ receiving
    → is_complete s.queue ≡ false
    → 0 < length s.flying + length s.results
waiting_some s h pc more = elim (h.awake pc) [
  | inl none_pending ↦ running_some s h none_pending more
  | inr some_left ↦ some_left
]

-- A goroutine can end or a result can be taken, where there is one.
can_go_on :
    (max_retries : ℕ) (env : Env) (answer : Exec → Flight → Outcome)
    (plan : Exec → Task → List SelectorInfo) (s : Exec) (flying : List Flight)
    (results : List Received)
    → s.flying ≡ flying
    → s.results ≡ results
    → s.pc ≡ receiving
    → is_complete s.queue ≡ false
    → 0 < length flying + length results
    → (t : Exec) × (st : Step max_retries s t) × AnswersStep max_retries answer plan st
can_go_on max_retries env answer plan s (f ∷ flying) results e k pc more some_left =
    (_, Step.ends f (answer s f) [] flying e, refl)
can_go_on max_retries env answer plan s [] (r ∷ results) e k pc more some_left =
    (_, Step.takes env (plan s) r [] results pc more k, refl)
can_go_on max_retries env answer plan s [] [] e k pc more some_left = absurd (omega arith)

pc_cases : (pc : Pc) → (pc ≡ dispatching) ⊎ (pc ≡ receiving)
pc_cases dispatching = inl refl
pc_cases receiving = inr refl

-- From a state with the invariant the loop cannot get stuck, whatever the workers and the queries for
-- splits answer: in every state that it reaches and in which the queue is not complete, the main
-- goroutine can turn or take a result, or a worker has a task to end.
pub Run-progress :
    (max_retries : ℕ) (env : Env) (answer : Exec → Flight → Outcome)
    (plan : Exec → Task → List SelectorInfo) {s t : Exec}
    → IsExec s
    → Run max_retries s t
    → is_complete t.queue ≡ false
    → (u : Exec) × (st : Step max_retries t u) × AnswersStep max_retries answer plan st
Run-progress max_retries env answer plan {s} {t} h run more =
    let k = Run-IsExec max_retries h run in
    elim (pc_cases t.pc) [
      | inl turn ↦ (_, Step.turns env turn, tt)
      | inr wait ↦
          can_go_on max_retries env answer plan t t.flying t.results refl refl wait more
            (waiting_some t k wait more)
    ]

-- At every turn the gauge of active workers is the number of tasks in flight.
Run-active :
    (max_retries : ℕ) {s t : Exec}
    → IsExec s
    → Run max_retries s t
    → active_workers t.workers ≡ length t.flying
Run-active max_retries {s} {t} h run = omega (
  arith,
  active_workers-busy t.workers,
  length-perm (Run-IsExec max_retries h run).busy,
  length-carriers t.flying,
)

-- When the queue is complete, no task is in flight, no result waits in the channel, no worker is busy,
-- so that the next time range starts with all workers idle, and the gauge of active workers is set
-- to 0.
pub Run-complete :
    (max_retries : ℕ) {s t : Exec}
    → IsExec s
    → Run max_retries s t
    → is_complete t.queue ≡ true
    → (length t.flying ≡ 0)
      × (length t.results ≡ 0)
      × (length (busy_workers t.workers) ≡ 0)
      × (active_workers t.workers ≡ 0)
unfolding is_complete
Run-complete max_retries {s} {t} h run done =
    let k = Run-IsExec max_retries h run in
    let flights = length-perm k.flights in
    let total = length-in_flight t.flying t.results in
    let none_running = empty (is_nil t.queue.pending) t.queue.running done in
    (
      omega arith,
      omega arith,
      omega (arith, length-perm k.busy, length-carriers t.flying),
      omega (arith, Run-active max_retries h run),
    )
  where
    empty : (b : Bool) (m : Map Ref) → (b && is_nil m) ≡ true → length (keys m) ≡ 0
    empty b [] e = refl
    empty true (x ∷ m) e = cc
    empty false (x ∷ m) e = cc
