-- ===== src/Orchestrator/Execute/Handled.antt =====
-- Handling a result keeps the invariant of `executeTasks`.
use mathlib.Core.List.Perm
use victoriametrics_data_mig.Prelude.{
  ℕ, ◌≡◌, refl, sym, inl, inr, not, ◌||◌, ◌&&◌, List, [], ◌∷◌, arith, Text, ap, ◌∙◌, is_zero,
  length, length-append, Bool-cases, Option-cases,
}
use victoriametrics_data_mig.Types.{Task}
use victoriametrics_data_mig.Splitter.Selector.{SelectorInfo}
use victoriametrics_data_mig.Scheduler.Queue.{TaskQueue, Env, get_task}
use victoriametrics_data_mig.Scheduler.Queue.Preserved.{
  complete_task-IsQueue, fail_task-IsQueue, replace_tasks-IsQueue,
}
use victoriametrics_data_mig.Scheduler.Queue.Effects.{
  complete_task_effect, fail_task_effect, replace_tasks_effect,
}
use victoriametrics_data_mig.Orchestrator.Cardinality.{is_cardinality_related_error}
use victoriametrics_data_mig.Orchestrator.Execute.{
  Exec, TaskResult, Outcome, Received, dispatch_error, ran, fail, succeed, resplit, reason_of,
  handle_failure, handle, make_sub_tasks, sub_task, new_refs,
}
use victoriametrics_data_mig.Orchestrator.Execute.Numbering.{
  make_counter, make-AreNew, make-IsQueue, make-IsNumbered,
}
use victoriametrics_data_mig.Orchestrator.Execute.Invariant.{
  IsExec, IsHandling, IsNumbered-same, settled,
}

module _ (max_retries : ℕ) (env : Env) (id : Text) (s : Exec) (h : IsHandling id s) where
  fail-IsExec : (msg : Text) → IsExec (fail max_retries env id msg s)
  unfolding fail
  fail-IsExec msg =
      let (r, found, left) = settled h in
      elim (fail_task_effect env id s.queue r found msg) [
        | inl (more, again, (heap, tasks, pending, running, done, failed)) ↦ rw again (record {
          queue = fail_task-IsQueue env id msg s.queue h.queue;
          numbered =
              rw (heap, tasks)
                (IsNumbered-same s.task_counter s.queue.heap r _ s.queue.tasks refl h.numbered);
          flights = rw running left;
          busy = h.busy;
          counted = (h.counted.0 ∙ ap length (sym done), h.counted.1 ∙ ap length (sym failed));
          staffed = h.staffed;
          awake = λ waits. absurd (h.dispatches waits);
        })
        | inr (last, given_up, (heap, tasks, pending, running, done, failed)) ↦
            rw given_up (record {
              queue = fail_task-IsQueue env id msg s.queue h.queue;
              numbered =
                  rw (heap, tasks)
                    (IsNumbered-same s.task_counter s.queue.heap r _ s.queue.tasks refl h.numbered);
              flights = rw running left;
              busy = h.busy;
              counted = (
                h.counted.0 ∙ ap length (sym done),
                rw failed (omega (arith, h.counted.1, length-append s.queue.failed (r ∷ []))),
              );
              staffed = h.staffed;
              awake = λ waits. absurd (h.dispatches waits);
            })
      ]

  succeed-IsExec : (bytes : ℕ) → IsExec (succeed max_retries env id bytes s)
  unfolding succeed
  succeed-IsExec bytes =
      let (r, found, left) = settled h in
      let (heap, tasks, pending, running, done, failed) =
        complete_task_effect env id s.queue r found bytes in
      record {
        queue = complete_task-IsQueue env id bytes s.queue h.queue;
        numbered =
            rw (heap, tasks)
              (IsNumbered-same s.task_counter s.queue.heap r _ s.queue.tasks refl h.numbered);
        flights = rw running left;
        busy = h.busy;
        counted = (
          rw done (omega (arith, h.counted.0, length-append s.queue.done (r ∷ []))),
          h.counted.1 ∙ ap length (sym failed),
        );
        staffed = h.staffed;
        awake = λ waits. absurd (h.dispatches waits);
      }

  resplit-IsExec :
      (reason : Text) (task : Task) (sels : List SelectorInfo)
      → IsExec (resplit max_retries env id reason task sels s)
  unfolding resplit
  resplit-IsExec reason task [] = fail-IsExec reason
  resplit-IsExec reason task (sel ∷ sels) =
      let all = sel ∷ sels in
      let heap = (make_sub_tasks max_retries task all s.task_counter s.queue.heap).1 in
      let q : TaskQueue = record (s.queue) { heap = heap } in
      let new = new_refs all s.task_counter in
      let (r, found, left) = settled h in
      let (same_heap, tasks, pending, running, done, failed) = replace_tasks_effect env id new q in
      let distinct =
        Perm.nodup (Perm.map (λ j. (s.queue.heap j).id) (Perm.symm h.queue.listed))
          h.queue.sound.distinct in
      record {
        queue =
            replace_tasks-IsQueue env id new q
              (make-AreNew (λ sel m. sub_task max_retries task sel m)
                (λ sel m. (refl, (inl refl, inl refl))) all s.task_counter s.queue.heap s.queue
                h.numbered distinct)
              (make-IsQueue (λ sel m. sub_task max_retries task sel m) all s.task_counter
                s.queue.heap s.queue h.numbered h.queue);
        numbered =
            rw
              (
                same_heap,
                tasks,
                make_counter (λ sel m. sub_task max_retries task sel m) all s.task_counter
                    s.queue.heap,
              )
              (make-IsNumbered (λ sel m. sub_task max_retries task sel m) (λ t. Unit)
                (λ sel m. (refl, tt)) all s.task_counter s.queue.heap s.queue.tasks h.numbered);
        flights = rw running left;
        busy = h.busy;
        counted = (h.counted.0 ∙ ap length (sym done), h.counted.1 ∙ ap length (sym failed));
        staffed = h.staffed;
        awake = λ waits. absurd (h.dispatches waits);
      }

  handle_failure-IsExec :
      (plan : Task → List SelectorInfo) (res : TaskResult)
      → IsExec (handle_failure max_retries env plan id res s)
  unfolding handle_failure
  handle_failure-IsExec plan res = elim (Option-cases (get_task id s.queue)) [
    | inl e ↦ rw (e, handle_failure) (fail-IsExec (reason_of max_retries res))
    | inr (r, e) ↦
        let task = s.queue.heap r in
        elim (Bool-cases (
          not task.split_attempted
          && (is_cardinality_related_error res.logs
              || is_cardinality_related_error (reason_of max_retries res)))) [
                | inl splits ↦
                    rw (e, handle_failure)
                      (rw splits (resplit-IsExec (reason_of max_retries res) task (plan task)))
                | inr fails ↦
                    rw (e, handle_failure) (rw fails (fail-IsExec (reason_of max_retries res)))
              ]
  ]

module _ (max_retries : ℕ) (env : Env) (plan : Task → List SelectorInfo) (s : Exec) where
  handle_outcome :
      (r : Received) (o : Outcome)
      → r.outcome ≡ o
      → IsHandling r.task_id s
      → IsExec (handle max_retries env plan r s)
  unfolding handle
  handle_outcome r (dispatch_error msg) e h =
      rw (e, handle) (fail-IsExec max_retries env r.task_id s h msg)
  handle_outcome r (ran res) e h = elim (Bool-cases (is_zero res.exit_code)) [
    | inl zero_code ↦
        rw (e, handle)
          (rw zero_code (succeed-IsExec max_retries env r.task_id s h res.bytes_transferred))
    | inr other ↦
        rw (e, handle) (rw other (handle_failure-IsExec max_retries env r.task_id s h plan res))
  ]

  pub handle-IsExec :
      (r : Received) → IsHandling r.task_id s → IsExec (handle max_retries env plan r s)
  handle-IsExec r h = handle_outcome r r.outcome refl h
