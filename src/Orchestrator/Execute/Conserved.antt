-- ===== src/Orchestrator/Execute/Conserved.antt =====
-- `executeTasks` of internal/orchestrator/orchestrator.go keeps what its tasks weigh together, where
-- every split keeps the weight of the task that is split.
use mathlib.Core.List.{Mem, mem-append_left, mem-append_right}
use mathlib.Core.List.Perm
use native.Mathlib.Bridge.{le_prop}
use victoriametrics_data_mig.Prelude.{
  some_injective, ℕ, ◌+◌, ◌≤◌, ◌≡◌, refl, ◌⊎◌, inl, inr, not, ◌&&◌, ◌||◌, List, [], ◌∷◌, ◌++◌, some,
  none, Option, arith, Text, lookup, sum_of, Bool-cases, Option-cases, ap, ◌∙◌, All-map, All-mem,
  is_zero,
}
use victoriametrics_data_mig.Scheduler.Calendar.{Time}
use victoriametrics_data_mig.Types.{Task}
use victoriametrics_data_mig.Splitter.Selector.{SelectorInfo}
use victoriametrics_data_mig.Scheduler.Queue.{
  Ref, Heap, update, TaskQueue, Env, fail_task, get_task, next_task, next_from,
}
use victoriametrics_data_mig.Scheduler.Queue.Invariant.{IsQueue}
use victoriametrics_data_mig.Scheduler.Queue.Refs.{update_self, mem-values_of_lookup}
use victoriametrics_data_mig.Scheduler.Queue.Mass.{
  weight, mass, next_from-mass, complete_task-mass, fail_task-mass, replace_tasks-mass, mass-heap,
}
use victoriametrics_data_mig.Worker.Pool.{WorkerConn, acquire_worker}
use victoriametrics_data_mig.Orchestrator.Cardinality.{is_cardinality_related_error}
use victoriametrics_data_mig.Orchestrator.Execute.{
  Exec, TaskResult, Outcome, dispatching, dispatch_error, ran, fail, succeed, resplit, reason_of,
  handle_failure, handle, sub_task, new_refs, make_tasks, launch, dispatch, finish, Step, Run,
}
use victoriametrics_data_mig.Orchestrator.Execute.Numbering.{
  make_heap, make_below, make-IsQueue, IsNumbered,
}
use victoriametrics_data_mig.Orchestrator.Execute.Invariant.{IsExec, IsHandling, settled}
use victoriametrics_data_mig.Orchestrator.Execute.Safety.{takes-IsHandling, Run-IsExec}

pub below_counter :
    (n : ℕ) (heap : Heap) (rs : List Ref) → IsNumbered n heap rs → (r : Ref) → Mem r rs → r ≤ n
below_counter n heap rs h = All-mem (λ r. le_prop) rs (All-map (λ r (low, named). low) rs h)

module _ (weigh : Text → Time → Time → ℕ) where
  -- The weight of the tasks that a loop makes of items.
  pub make-sum {ℓ} :
      {A : Type ℓ} (make : A → ℕ → Task) (w : A → ℕ)
      → ((a : A) (n : ℕ) → weight weigh (make a n) ≡ w a)
      → (items : List A) (n : ℕ) (heap : Heap)
      → sum_of (λ r. weight weigh (make_heap make items n heap r)) (new_refs items n)
        ≡ sum_of w items
  unfolding make_tasks new_refs
  make-sum make w same [] n heap = refl
  make-sum make w same (a ∷ items) n heap =
      let heap' = update heap (n + 1) (make a (n + 1)) in
      omega (
        arith,
        ap (weight weigh) (make_below make items (n + 1) heap' (n + 1) (omega arith)),
        ap (weight weigh) (update_self heap (n + 1) (make a (n + 1))),
        same a (n + 1),
        make-sum make w same items (n + 1) heap',
      )

  -- Tasks that are made leave the others as they are.
  pub make-mass {ℓ} :
      {A : Type ℓ} (make : A → ℕ → Task) (items : List A) (s : Exec)
      → IsQueue s.queue
      → IsNumbered s.task_counter s.queue.heap s.queue.tasks
      → mass weigh (record (s.queue) { heap = make_heap make items s.task_counter s.queue.heap })
        ≡ mass weigh s.queue
  make-mass make items s h numbered =
      mass-heap weigh s.queue (make_heap make items s.task_counter s.queue.heap) h (λ r m.
        make_below make items s.task_counter s.queue.heap r
          (below_counter s.task_counter s.queue.heap s.queue.tasks numbered r m))

  abbrev pub weight_of_split : Task → List SelectorInfo → ℕ
  weight_of_split task sels =
      sum_of (λ (sel : SelectorInfo). weigh sel.selector task.time_start task.time_end) sels

  -- A split of the task, if one is found, weighs as much as the task.
  abbrev pub IsConserving : (Task → List SelectorInfo) → Task → Type 0
  IsConserving plan task = (plan task ≡ []) ⊎ (weight_of_split task (plan task) ≡ weight weigh task)

  -- The same for the task with the identifier, where the queue has one.
  abbrev pub ConservesAt : (Task → List SelectorInfo) → Text → TaskQueue → Type 0
  ConservesAt plan id q = (r : Ref) → get_task id q ≡ some r → IsConserving plan (q.heap r)

  module _ (max_retries : ℕ) (env : Env) (id : Text) (s : Exec) (h : IsHandling id s) where
    fail-mass : (msg : Text) → mass weigh (fail max_retries env id msg s).queue ≡ mass weigh s.queue
    unfolding fail
    fail-mass msg =
        let (r, found, left) = settled h in
        let kept = fail_task-mass weigh env id s.queue r h.queue found msg in
        elim (Bool-cases (fail_task env id msg s.queue).0) [
          | inl again ↦ rw again kept
          | inr given_up ↦ rw given_up kept
        ]

    succeed-mass :
        (bytes : ℕ) → mass weigh (succeed max_retries env id bytes s).queue ≡ mass weigh s.queue
    unfolding succeed
    succeed-mass bytes =
        let (r, found, left) = settled h in
        complete_task-mass weigh env id s.queue r h.queue found bytes

    resplit-mass :
        (reason : Text) (r : Ref) (sels : List SelectorInfo)
        → lookup id s.queue.running ≡ some r
        → (sels ≡ []) ⊎ (weight_of_split (s.queue.heap r) sels ≡ weight weigh (s.queue.heap r))
        → mass weigh (resplit max_retries env id reason (s.queue.heap r) sels s).queue
          ≡ mass weigh s.queue
    unfolding resplit
    resplit-mass reason r [] found kept = fail-mass reason
    resplit-mass reason r (sel ∷ sels) found (inl none_left) = cc
    resplit-mass reason r (sel ∷ sels) found (inr kept) =
        let task = s.queue.heap r in
        let all = sel ∷ sels in
        let make : SelectorInfo → ℕ → Task = λ sel m. sub_task max_retries task sel m in
        let heap = make_heap make all s.task_counter s.queue.heap in
        let q : TaskQueue = record (s.queue) { heap = heap } in
        let whole : IsQueue q =
          make-IsQueue make all s.task_counter s.queue.heap s.queue h.numbered h.queue in
        let there : Mem r s.queue.tasks = Perm.subset (Perm.symm h.queue.listed) r (
          mem-append_right s.queue.pending
            (mem-append_left _ (mem-values_of_lookup id r s.queue.running found))) in
        omega (
          arith,
          replace_tasks-mass weigh env id q r whole found (new_refs all s.task_counter),
          make-mass make all s h.queue h.numbered,
          make-sum make (λ sel. weigh sel.selector task.time_start task.time_end) (λ a n. refl) all
              s.task_counter s.queue.heap,
          ap (weight weigh) (
              make_below make all s.task_counter s.queue.heap r
                (below_counter s.task_counter s.queue.heap s.queue.tasks h.numbered r there)),
          kept,
        )

    -- `GetTask` finds the task that `running` has.
    get_task_running :
        (r j : Ref) → lookup id s.queue.running ≡ some r → get_task id s.queue ≡ some j → r ≡ j
    unfolding get_task
    get_task_running r j found e = some_injective r j (rw found at e)

    handle_failure-mass :
        (plan : Task → List SelectorInfo) (res : TaskResult)
        → ConservesAt plan id s.queue
        → mass weigh (handle_failure max_retries env plan id res s).queue ≡ mass weigh s.queue
    unfolding handle_failure
    handle_failure-mass plan res conserving = elim (Option-cases (get_task id s.queue)) [
      | inl e ↦ rw (e, handle_failure) (fail-mass (reason_of max_retries res))
      | inr (j, e) ↦
          let (r, found, left) = settled h in
          let task = s.queue.heap j in
          let found_j = found ∙ ap (λ k. some k) (get_task_running r j found e) in
          elim (Bool-cases (
            not task.split_attempted
            && (is_cardinality_related_error res.logs
                || is_cardinality_related_error (reason_of max_retries res)))) [
                  | inl splits ↦
                      rw (e, handle_failure)
                        (rw splits (
                          resplit-mass (reason_of max_retries res) j (plan task) found_j
                            (conserving j e)))
                  | inr fails ↦
                      rw (e, handle_failure) (rw fails (fail-mass (reason_of max_retries res)))
                ]
    ]

    handle-mass :
        (plan : Task → List SelectorInfo) (o : Outcome)
        → ConservesAt plan id s.queue
        → mass weigh (handle max_retries env plan (record { task_id = id; outcome = o }) s).queue
          ≡ mass weigh s.queue
    unfolding handle
    handle-mass plan (dispatch_error msg) conserving = fail-mass msg
    handle-mass plan (ran res) conserving = elim (Bool-cases (is_zero res.exit_code)) [
      | inl zero_code ↦ rw zero_code (succeed-mass res.bytes_transferred)
      | inr other ↦ rw other (handle_failure-mass plan res conserving)
    ]

  launch_queue :
      (w : ℕ) (ws : List WorkerConn) (s : Exec) (found : Option Ref × TaskQueue)
      → (launch w ws s found).queue ≡ found.1
  unfolding launch
  launch_queue w ws s (none, q) = refl
  launch_queue w ws s (some r, q) = refl

  dispatch-mass :
      (env : Env) (s : Exec)
      → IsQueue s.queue
      → mass weigh (dispatch env s).queue ≡ mass weigh s.queue
  unfolding dispatch next_task
  dispatch-mass env s h = elim (Option-cases (acquire_worker s.workers)) [
    | inl none_idle ↦ rw (none_idle, dispatch) refl
    | inr ((w, ws), found) ↦
        rw (found, dispatch)
          (ap (mass weigh) (launch_queue w ws s (next_from env s.queue.pending s.queue))
            ∙ next_from-mass weigh env s.queue s.queue.pending refl h)
  ]

  -- A step in which a split of the failed task, if it looks for one, keeps the weight.
  abbrev pub ConservesStep : {max_retries : ℕ} {s t : Exec} → Step max_retries s t → Type 0
  ConservesStep (Step.turns env pc) = Unit
  ConservesStep (Step.ends f outcome front back e) = Unit
  ConservesStep {s} (Step.takes env plan r front back pc more e) =
      ConservesAt plan r.task_id s.queue

  abbrev pub Conserves : {max_retries : ℕ} {s t : Exec} → Run max_retries s t → Type 0
  Conserves Run.here = Unit
  Conserves (Run.next r st) = Conserves r × ConservesStep st

  Step-mass :
      (max_retries : ℕ) {s t : Exec} (st : Step max_retries s t)
      → ConservesStep st
      → IsExec s
      → mass weigh t.queue ≡ mass weigh s.queue
  unfolding finish
  Step-mass max_retries {s} (Step.turns env pc) c h = dispatch-mass env s h.queue
  Step-mass max_retries {s} (Step.ends f outcome front back e) c h = refl
  Step-mass max_retries {s} (Step.takes env plan r front back pc more e) c h =
      handle-mass max_retries env r.task_id (record s { results = front ++ back; pc = dispatching })
        (takes-IsHandling r front back s e h) plan r.outcome c

  pub Run-mass :
      (max_retries : ℕ) {s t : Exec} (run : Run max_retries s t)
      → Conserves run
      → IsExec s
      → mass weigh t.queue ≡ mass weigh s.queue
  Run-mass max_retries Run.here c h = refl
  Run-mass max_retries (Run.next r st) (c, d) h =
      Step-mass max_retries st d (Run-IsExec max_retries h r) ∙ Run-mass max_retries r c h
