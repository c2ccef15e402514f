-- ===== src/Scheduler/Queue/Effects.antt =====
-- What each method that settles a running task changes.
use victoriametrics_data_mig.Prelude.{
  ℕ, ◌+◌, ◌≤◌, ◌<◌, ◌≡◌, refl, ◌⊎◌, inl, inr, true, false, List, [], ◌∷◌, ◌++◌, some, arith, Text,
  lookup, delete, is_empty, Bool-cases, ltb,
}
use victoriametrics_data_mig.Types.{Task, succeeded, retrying, abandoned}
use victoriametrics_data_mig.Scheduler.Queue.{
  Ref, update, TaskQueue, Env, persist_state, complete, complete_task, retry, abandon, fail_task,
  replace_tasks,
}

-- All but the state file.
abbrev pub SameTasks : TaskQueue → TaskQueue → Type 0
SameTasks p q =
    (p.heap ≡ q.heap)
    × (p.tasks ≡ q.tasks)
    × (p.pending ≡ q.pending)
    × (p.running ≡ q.running)
    × (p.done ≡ q.done)
    × (p.failed ≡ q.failed)

persist_state-SameTasks : (env : Env) (q : TaskQueue) → SameTasks (persist_state env q) q
unfolding persist_state
persist_state-SameTasks env q = elim (Bool-cases (is_empty q.state_file)) [
  | inl off ↦ rw off (refl, refl, refl, refl, refl, refl)
  | inr on ↦ elim (Bool-cases env.can_write) [
    | inl w ↦ rw (on, w) (refl, refl, refl, refl, refl, refl)
    | inr w ↦ rw (on, w) (refl, refl, refl, refl, refl, refl)
  ]
]

module _ (env : Env) (id : Text) (q : TaskQueue) (r : Ref)
    (found : lookup id q.running ≡ some r) where
  abbrev pub succeeded_task : ℕ → Task
  succeeded_task bytes = record (q.heap r) {
    status = succeeded;
    completed_at = some env.now;
    bytes_transferred = bytes;
  }

  abbrev pub retrying_task : Text → Task
  retrying_task msg = record (q.heap r) {
    attempts = (q.heap r).attempts + 1;
    error = msg;
    status = retrying;
  }

  abbrev pub abandoned_task : Text → Task
  abandoned_task msg = record (q.heap r) {
    attempts = (q.heap r).attempts + 1;
    error = msg;
    status = abandoned;
    completed_at = some env.now;
  }

  pub complete_task_effect :
      (bytes : ℕ)
      → SameTasks (complete_task env id bytes q) (record q {
        heap = update q.heap r (succeeded_task bytes);
        running = delete id q.running;
        done = q.done ++ r ∷ [];
      })
  unfolding complete_task complete
  complete_task_effect bytes = rw (found, complete_task) (persist_state-SameTasks env _)

  -- A failure below the last attempt puts the task back behind the pending ones; the last one ends it.
  pub fail_task_effect :
      (msg : Text)
      → ((q.heap r).attempts + 1 < (q.heap r).max_retries)
          × ((fail_task env id msg q).0 ≡ true)
          × SameTasks (fail_task env id msg q).1 (record q {
            heap = update q.heap r (retrying_task msg);
            running = delete id q.running;
            pending = q.pending ++ r ∷ [];
          })
        ⊎ ((q.heap r).max_retries ≤ (q.heap r).attempts + 1)
          × ((fail_task env id msg q).0 ≡ false)
          × SameTasks (fail_task env id msg q).1 (record q {
            heap = update q.heap r (abandoned_task msg);
            running = delete id q.running;
            failed = q.failed ++ r ∷ [];
          })
  unfolding fail_task retry abandon
  fail_task_effect msg = elim (Bool-cases (ltb ((q.heap r).attempts + 1) (q.heap r).max_retries)) [
    | inl more ↦ inl (
      ground arith,
      rw (found, fail_task) (rw more refl),
      rw (found, fail_task) (rw more (persist_state-SameTasks env _)),
    )
    | inr last ↦ inr (
      ground arith,
      rw (found, fail_task) (rw last refl),
      rw (found, fail_task) (rw last (persist_state-SameTasks env _)),
    )
  ]

pub replace_tasks_effect :
    (env : Env) (old : Text) (new : List Ref) (q : TaskQueue)
    → SameTasks (replace_tasks env old new q) (record q {
      running = delete old q.running;
      tasks = q.tasks ++ new;
      pending = q.pending ++ new;
    })
unfolding replace_tasks
replace_tasks_effect env old new q = persist_state-SameTasks env _
