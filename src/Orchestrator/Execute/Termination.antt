-- ===== src/Orchestrator/Execute/Termination.antt =====
-- `executeTasks` ends: no state that it reaches starts an endless run.
use mathlib.Core.WellFounded.{Acc}
use victoriametrics_data_mig.Prelude.{
  true, Bool-cases, some, ℕ, zero, suc, ◌+◌, ◌*◌, ◌≤◌, ◌<◌, ◌≡◌, refl, ◌⊎◌, inl, inr, List, [], ◌∷◌,
  ◌++◌, arith, length, length-append, Option-cases, sum_of-append, values, delete,
}
use victoriametrics_data_mig.Types.{Task, running}
use victoriametrics_data_mig.Splitter.Selector.{SelectorInfo}
use victoriametrics_data_mig.Scheduler.Queue.{
  Ref, update, TaskQueue, Env, next_task, next_from, start, is_complete,
}
use victoriametrics_data_mig.Scheduler.Queue.Invariant.{IsSound}
use victoriametrics_data_mig.Scheduler.Queue.Moves.{delete_unused}
use victoriametrics_data_mig.Worker.Pool.{WorkerConn, acquire_worker}
use victoriametrics_data_mig.Orchestrator.Execute.{
  Outcome, Exec, Received, Flight, dispatching, receiving, Step, Run, dispatch, launch, finish,
  handle,
}
use victoriametrics_data_mig.Orchestrator.Execute.Invariant.{IsExec}
use victoriametrics_data_mig.Orchestrator.Execute.Answers.{AnswersStep, Answers}
use victoriametrics_data_mig.Orchestrator.Execute.Progress.{Run-progress}
use victoriametrics_data_mig.Orchestrator.Execute.Safety.{Run-IsExec, Step-IsExec, takes-IsHandling}
use victoriametrics_data_mig.Orchestrator.Execute.Measure.{
  tries, unsplit, over, splits, weight, update_le, over_le,
}
use victoriametrics_data_mig.Orchestrator.Execute.Handles.{handle-Settles}

-- What a step leaves to do: fewer splits, or no more of them and less weight.
abbrev Less : Exec → Exec → Type 0
Less t s =
    (splits t.queue < splits s.queue) ⊎ (splits t.queue ≤ splits s.queue) × (weight t < weight s)

-- The first pending task runs now.
started :
    (f : Task → ℕ) (env : Env) (r : Ref) (rest : List Ref) (q : TaskQueue) (t : Task)
    → delete (q.heap r).id q.running ≡ q.running
    → f t ≤ f (q.heap r)
    → over f (update q.heap r t) (rest ++ r ∷ values (delete (q.heap r).id q.running))
      ≤ over f q.heap ((r ∷ rest) ++ values q.running)
started f env r rest q t unused h =
    let heap = update q.heap r t in
    rw unused (
      omega (
        arith,
        sum_of-append (λ j. f (heap j)) rest (r ∷ values q.running),
        sum_of-append (λ j. f (q.heap j)) rest (values q.running),
        update_le f q.heap r t h r,
        over_le f q.heap heap rest (update_le f q.heap r t h),
        over_le f q.heap heap (values q.running) (update_le f q.heap r t h),
      ))

launch-Less :
    (env : Env) (w : ℕ) (ws : List WorkerConn) (s : Exec) (rs : List Ref)
    → s.pc ≡ dispatching
    → s.queue.pending ≡ rs
    → IsExec s
    → Less (launch w ws s (next_from env rs s.queue)) s
unfolding launch next_from start
launch-Less env w ws s [] pc e h = inr (omega arith, rw pc (omega arith))
launch-Less env w ws s (r ∷ rest) pc e h =
    let whole : IsSound s.queue.heap (r ∷ rest) s.queue.running s.queue.done s.queue.failed
        h.queue.gone =
      rw e at h.queue.sound in
    let t = record (s.queue.heap r) { status = running; started_at = some env.now } in
    inr (
      rw e (started unsplit env r rest s.queue t (delete_unused r whole) (omega arith)),
      rw (e, pc)
          (lighter _ _ (length rest) (length s.flying) _
            (started tries env r rest s.queue t (delete_unused r whole) (omega arith))
            (length-append s.flying
              (record { worker = w; task_id = (update s.queue.heap r t r).id } ∷ []))),
    )
  where
    lighter :
        (m n k l l' : ℕ) → m ≤ n → l' ≡ l + 1 → 4 * m + 2 * k + l' + 1 < 4 * n + 2 * (suc k) + l + 1
    lighter m n k l l' le e = omega arith

dispatch-Less : (env : Env) (s : Exec) → s.pc ≡ dispatching → IsExec s → Less (dispatch env s) s
unfolding dispatch next_task
dispatch-Less env s pc h = elim (Option-cases (acquire_worker s.workers)) [
  | inl none_idle ↦ rw (none_idle, dispatch) (inr (omega arith, rw pc (omega arith)))
  | inr ((w, ws), found) ↦ rw (found, dispatch) (launch-Less env w ws s s.queue.pending pc refl h)
]

ends-Less :
    (f : Flight) (outcome : Outcome) (front back : List Flight) (s : Exec)
    → s.flying ≡ front ++ f ∷ back
    → Less (finish f outcome (front ++ back) s) s
unfolding finish
ends-Less f outcome front back s e =
    inr
      (omega arith, rw e (omega (arith, length-append front back, length-append front (f ∷ back))))

takes-Less :
    (max_retries : ℕ) (env : Env) (plan : Task → List SelectorInfo) (r : Received)
    (front back : List Received) (s : Exec)
    → s.pc ≡ receiving
    → s.results ≡ front ++ r ∷ back
    → IsExec s
    → Less
        (handle max_retries env plan r (record s { results = front ++ back; pc = dispatching }))
        s
takes-Less max_retries env plan r front back s pc e h =
    let s' = record s { results = front ++ back; pc = dispatching } in
    let (drops, flying, now) =
      handle-Settles max_retries env plan s' r (takes-IsHandling r front back s e h) in
    elim drops [
      | inl split ↦ inl split
      | inr (no_more, light) ↦ inr (no_more, rw (flying, now, pc) (omega (arith, light)))
    ]

Step-Less : (max_retries : ℕ) {s t : Exec} → IsExec s → Step max_retries s t → Less t s
Step-Less max_retries {s} h (Step.turns env pc) = dispatch-Less env s pc h
Step-Less max_retries {s} h (Step.ends f outcome front back e) = ends-Less f outcome front back s e
Step-Less max_retries {s} h (Step.takes env plan r front back pc more e) =
    takes-Less max_retries env plan r front back s pc e h

ends_within :
    (max_retries u v : ℕ) (s : Exec)
    → IsExec s
    → splits s.queue < u
    → weight s < v
    → Acc (λ t s. Step max_retries s t) s
ends_within max_retries zero v s h few light = absurd (omega arith)
ends_within max_retries (suc u) zero s h few light = absurd (omega arith)
ends_within max_retries (suc u) (suc v) s h few light = Acc.intro s (λ t st.
    let h' = Step-IsExec max_retries st h in
    elim (Step-Less max_retries h st) [
      | inl split ↦ ends_within max_retries u (weight t + 1) t h' (omega arith) (omega arith)
      | inr (no_more, lighter) ↦ ends_within max_retries (suc u) v t h' (omega arith) (omega arith)
    ])

-- From a state with the invariant of `executeTasks` no run goes on for ever, whatever the workers
-- answer, however their answers arrive, and however many selectors each split finds: a task is split
-- at most once and the tasks of a split never, each failure uses one attempt up, and a turn of the
-- dispatch loop that launches no task waits for a result.
pub execution-terminates :
    (max_retries : ℕ) (s : Exec) → IsExec s → Acc (λ t s. Step max_retries s t) s
execution-terminates max_retries s h =
    ends_within max_retries (splits s.queue + 1) (weight s + 1) s h (omega arith) (omega arith)

module _ (max_retries : ℕ) (env : Env) (answer : Exec → Flight → Outcome)
    (plan : Exec → Task → List SelectorInfo) where
  Run-append :
      {s t u : Exec} (st : Step max_retries s t) (run : Run max_retries t u)
      → AnswersStep max_retries answer plan st
      → Answers max_retries answer plan run
      → (longer : Run max_retries s u) × Answers max_retries answer plan longer
  Run-append st Run.here a b = (Run.next Run.here st, (tt, a))
  Run-append st (Run.next run last) a (b, c) =
      let (longer, d) = Run-append st run a b in (Run.next longer last, (d, c))

  completes :
      (t : Exec)
      → IsExec t
      → Acc (λ t s. Step max_retries s t) t
      → (u : Exec) × (run : Run max_retries t u) × Answers max_retries answer plan run
        × (is_complete u.queue ≡ true)
  completes t h (Acc.intro _ rest) = elim (Bool-cases (is_complete t.queue)) [
    | inl done ↦ (t, Run.here, tt, done)
    | inr more ↦
        let (u, st, a) = Run-progress max_retries env answer plan h Run.here more in
        let (v, run, b, done) = completes u (Step-IsExec max_retries st h) (rest u st) in
        let (longer, c) = Run-append st run a b in (v, longer, c, done)
  ]

  -- Whatever the workers answer and the splits find, there is a run with these answers that ends.
  pub Run-Answers :
      {s t : Exec}
      → IsExec s
      → Run max_retries s t
      → (u : Exec) × (run : Run max_retries t u) × Answers max_retries answer plan run
        × (is_complete u.queue ≡ true)
  Run-Answers {s} {t} h run =
      let k = Run-IsExec max_retries h run in completes t k (execution-terminates max_retries t k)

-- From every state that `executeTasks` reaches, from one with its invariant, it can go on to a state
-- in which the queue is complete.
pub Run-completes :
    (max_retries : ℕ) (env : Env) (outcome : Outcome) {s t : Exec}
    → IsExec s
    → Run max_retries s t
    → (u : Exec) × Run max_retries t u × (is_complete u.queue ≡ true)
Run-completes max_retries env outcome h run =
    let (u, rest, _, done) = Run-Answers max_retries env (λ s f. outcome) (λ s task. []) h run in
    (u, rest, done)
