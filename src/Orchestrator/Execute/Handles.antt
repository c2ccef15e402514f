-- ===== src/Orchestrator/Execute/Handles.antt =====
-- A result that is handled leaves less to do.
use victoriametrics_data_mig.Prelude.{
  ℕ, ◌+◌, ◌≤◌, ◌<◌, ◌≡◌, refl, inl, inr, true, false, not, ◌&&◌, ◌||◌, List, [], ◌∷◌, some, arith,
  Text, Bool-cases, All, All-map, is_zero, length-append, lookup, delete, ap,
}
use victoriametrics_data_mig.Types.{Task}
use victoriametrics_data_mig.Splitter.Selector.{SelectorInfo}
use victoriametrics_data_mig.Scheduler.Queue.{Ref, Heap, update, Env, get_task}
use victoriametrics_data_mig.Scheduler.Queue.Effects.{
  complete_task_effect, fail_task_effect, replace_tasks_effect, succeeded_task, retrying_task,
  abandoned_task,
}
use victoriametrics_data_mig.Scheduler.Queue.Refs.{update_self}
use victoriametrics_data_mig.Orchestrator.Cardinality.{is_cardinality_related_error}
use victoriametrics_data_mig.Orchestrator.Execute.{
  Exec, TaskResult, Outcome, Received, dispatch_error, ran, fail, succeed, resplit, reason_of,
  handle_failure, handle, make_tasks, sub_task, new_refs,
}
use victoriametrics_data_mig.Orchestrator.Execute.Numbering.{make_heap, make-IsMade}
use victoriametrics_data_mig.Orchestrator.Execute.Invariant.{IsHandling, settled}
use victoriametrics_data_mig.Orchestrator.Execute.Measure.{
  tries, unsplit, over, Drops, update_le, over-delete, over-moves,
}

-- The queue has less to do, and the rest stays.
abbrev pub Settles : Exec → Exec → Type 0
Settles s t = Drops s.queue t.queue × (t.flying ≡ s.flying) × (t.pc ≡ s.pc)

tries_retry :
    (t t' : Task)
    → t'.attempts ≡ t.attempts + 1
    → t'.max_retries ≡ t.max_retries
    → t.attempts + 1 < t.max_retries
    → tries t' + 1 ≤ tries t
tries_retry t t' e k h = ground arith

tries_abandon :
    (t t' : Task)
    → t'.attempts ≡ t.attempts + 1
    → t'.max_retries ≡ t.max_retries
    → t.max_retries ≤ t.attempts + 1
    → tries t' ≤ tries t
tries_abandon t t' e k h = ground arith

tries_some : (t : Task) → 1 ≤ tries t
tries_some t = ground arith

no_split_left :
    (heap : Heap) (rs : List Ref)
    → All (λ r. (heap r).split_attempted ≡ true) rs
    → over unsplit heap rs ≡ 0
no_split_left heap [] h = refl
no_split_left heap (r ∷ rs) (split, h) = rw split (omega (arith, no_split_left heap rs h))

module _ (max_retries : ℕ) where
  make_unsplit :
      (task : Task) (sels : List SelectorInfo) (n : ℕ) (heap : Heap) (j : Ref)
      → unsplit (make_heap (λ sel m. sub_task max_retries task sel m) sels n heap j)
        ≤ unsplit (heap j)
  unfolding make_tasks
  make_unsplit task [] n heap j = omega arith
  make_unsplit task (sel ∷ sels) n heap j =
      let t = sub_task max_retries task sel (n + 1) in
      omega (
        arith,
        make_unsplit task sels (n + 1) (update heap (n + 1) t) j,
        update_le unsplit heap (n + 1) t (omega arith) j,
      )

module _ (max_retries : ℕ) (env : Env) (id : Text) (s : Exec) (h : IsHandling id s) where
  leaves :
      (r : Ref) (t : Task)
      → lookup id s.queue.running ≡ some r
      → unsplit t ≤ unsplit (s.queue.heap r)
      → tries t ≤ tries (s.queue.heap r)
      → Drops s.queue
          (record (s.queue) { heap = update s.queue.heap r t; running = delete id s.queue.running })
  leaves r t found a b =
      let q = s.queue in
      inr (
        omega (
          arith,
          over-delete unsplit q.heap (update q.heap r t) q.pending q.running id r h.queue.sound.keys
              found (update_le unsplit q.heap r t a),
        ),
        omega (
          arith,
          over-delete tries q.heap (update q.heap r t) q.pending q.running id r h.queue.sound.keys
              found (update_le tries q.heap r t b),
          tries_some (q.heap r),
        ),
      )

  fail-Settles : (msg : Text) → Settles s (fail max_retries env id msg s)
  unfolding fail
  fail-Settles msg =
      let (r, found, left) = settled h in
      let q = s.queue in
      elim (fail_task_effect env id q r found msg) [
        | inl (more, again, (heap, tasks, pending, running, done, failed)) ↦
            let t = retrying_task env id q r found msg in
            let less = tries_retry (q.heap r) t refl refl more in
            rw again (
              rw (heap, pending, running)
                  (inr (
                    omega (
                      arith,
                      over-moves unsplit q.heap (update q.heap r t) q.pending (r ∷ []) q.running id
                          r h.queue.sound.keys found (update_le unsplit q.heap r t (omega arith)),
                      update_le unsplit q.heap r t (omega arith) r,
                    ),
                    omega (
                      arith,
                      over-moves tries q.heap (update q.heap r t) q.pending (r ∷ []) q.running id r
                          h.queue.sound.keys found
                          (update_le tries q.heap r t (omega (arith, less))),
                      less,
                      ap tries (update_self q.heap r t),
                      length-append q.pending (r ∷ []),
                    ),
                  )),
              refl,
              refl,
            )
        | inr (last, given_up, (heap, tasks, pending, running, done, failed)) ↦
            let t = abandoned_task env id q r found msg in
            rw given_up (
              rw (heap, pending, running)
                  (leaves r t found (omega arith) (tries_abandon (q.heap r) t refl refl last)),
              refl,
              refl,
            )
      ]

  succeed-Settles : (bytes : ℕ) → Settles s (succeed max_retries env id bytes s)
  unfolding succeed
  succeed-Settles bytes =
      let (r, found, left) = settled h in
      let (heap, tasks, pending, running, done, failed) =
        complete_task_effect env id s.queue r found bytes in
      (
        rw (heap, pending, running)
            (leaves r (succeeded_task env id s.queue r found bytes) found (omega arith)
              (omega arith)),
        refl,
        refl,
      )

  resplit-Settles :
      (r : Ref)
      → lookup id s.queue.running ≡ some r
      → (s.queue.heap r).split_attempted ≡ false
      → (reason : Text) (task : Task) (sels : List SelectorInfo)
      → Settles s (resplit max_retries env id reason task sels s)
  unfolding resplit
  resplit-Settles r found unsplit_yet reason task [] = fail-Settles reason
  resplit-Settles r found unsplit_yet reason task (sel ∷ sels) =
      let all = sel ∷ sels in
      let n = s.task_counter in
      let new = new_refs all n in
      let made = make_heap (λ sel m. sub_task max_retries task sel m) all n s.queue.heap in
      let (heap, tasks, pending, running, done, failed) =
        replace_tasks_effect env id new (record (s.queue) { heap = made }) in
      (
        rw (heap, pending, running)
            (inl (
              omega (
                arith,
                over-moves unsplit s.queue.heap made s.queue.pending new s.queue.running id r
                    h.queue.sound.keys found (make_unsplit max_retries task all n s.queue.heap),
                no_split_left made new (
                    All-map (λ j (_, _, _, split). split) new
                      (make-IsMade (λ sel m. sub_task max_retries task sel m)
                        (λ t. t.split_attempted ≡ true) (λ sel m. (refl, refl)) all n
                        s.queue.heap)),
                one r unsplit_yet,
              ))),
        refl,
        refl,
      )
    where
      one : (r : Ref) → (s.queue.heap r).split_attempted ≡ false → unsplit (s.queue.heap r) ≡ 1
      one r e = rw e refl

  get_running : (r : Ref) → lookup id s.queue.running ≡ some r → get_task id s.queue ≡ some r
  unfolding get_task
  get_running r found = rw found refl

  handle_failure-Settles :
      (plan : Task → List SelectorInfo) (res : TaskResult)
      → Settles s (handle_failure max_retries env plan id res s)
  unfolding handle_failure
  handle_failure-Settles plan res =
      let (r, found, left) = settled h in
      let task = s.queue.heap r in
      let reason = reason_of max_retries res in
      elim (Bool-cases (
        not task.split_attempted
        && (is_cardinality_related_error res.logs || is_cardinality_related_error reason))) [
          | inl may_split ↦
              rw (get_running r found, handle_failure)
                (rw may_split (resplit-Settles r found (ground arith) reason task (plan task)))
          | inr fails ↦ rw (get_running r found, handle_failure) (rw fails (fail-Settles reason))
        ]

module _ (max_retries : ℕ) (env : Env) (plan : Task → List SelectorInfo) (s : Exec) where
  handle_outcome :
      (r : Received) (o : Outcome)
      → r.outcome ≡ o
      → IsHandling r.task_id s
      → Settles s (handle max_retries env plan r s)
  unfolding handle
  handle_outcome r (dispatch_error msg) e h =
      rw (e, handle) (fail-Settles max_retries env r.task_id s h msg)
  handle_outcome r (ran res) e h = elim (Bool-cases (is_zero res.exit_code)) [
    | inl zero_code ↦
        rw (e, handle)
          (rw zero_code (succeed-Settles max_retries env r.task_id s h res.bytes_transferred))
    | inr other ↦
        rw (e, handle) (rw other (handle_failure-Settles max_retries env r.task_id s h plan res))
  ]

  pub handle-Settles :
      (r : Received) → IsHandling r.task_id s → Settles s (handle max_retries env plan r s)
  handle-Settles r h = handle_outcome r r.outcome refl h
