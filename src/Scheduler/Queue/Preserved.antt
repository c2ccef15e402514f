-- ===== src/Scheduler/Queue/Preserved.antt =====
-- Every method of the queue keeps its invariant, so that it holds in every state that the program
-- can reach.
use mathlib.Core.List.{Nodup, perm_middle, perm_append_comm}
use mathlib.Core.List.Perm
use mathlib.Core.Path.{fun_ext}
use victoriametrics_data_mig.Prelude.{
  ℕ, ◌+◌, ◌≤◌, ◌<◌, ◌≡◌, refl, subst, ap, ◌⊎◌, inl, inr, true, false, List, [], ◌∷◌, ◌++◌, Perm,
  append_assoc, some, arith, Text, All, All-append, All-lookup, lookup, delete, values,
  delete_absent, Bool-cases, Option-cases, ◌==◌, ==_iff,
}
use victoriametrics_data_mig.Scheduler.Queue.{
  Ref, Heap, update, TaskQueue, Env, add_tasks, start, next_from, next_task, complete,
  complete_task, retry, abandon, fail_task, replace_tasks,
}
use victoriametrics_data_mig.Scheduler.Queue.Refs.{ids}
use victoriametrics_data_mig.Scheduler.Queue.Invariant.{
  MayRun, IsWaiting, IsRunning, IsSound, IsQueue, persist_state-IsQueue,
}
use victoriametrics_data_mig.Scheduler.Queue.Moves.{
  started, retried, completed, gave_up, was_replaced, perm_into, snoc_into, delete_unused, relist,
}

pub next_from-IsQueue :
    (env : Env) (q : TaskQueue) (rs : List Ref)
    → q.pending ≡ rs
    → IsQueue q
    → IsQueue (next_from env rs q).1
unfolding next_from start
next_from-IsQueue env q [] e h = h
next_from-IsQueue env q (r ∷ rest) e h = record {
  gone = h.gone;
  sound = started r _ whole refl (whole.waits.0.0, refl, refl);
  listed =
      Perm.trans (rw e at h.listed) (rw (delete_unused r whole) (Perm.symm (perm_middle rest _)));
}
  where
    whole : IsSound q.heap (r ∷ rest) q.running q.done q.failed h.gone
    whole = rw e at h.sound

pub next_task-IsQueue : (env : Env) (q : TaskQueue) → IsQueue q → IsQueue (next_task env q).1
unfolding next_task
next_task-IsQueue env q h = next_from-IsQueue env q q.pending refl h

-- What the invariant says of a task that `running` finds.
may_run :
    {q : TaskQueue} (id : Text) (r : Ref)
    → IsQueue q
    → lookup id q.running ≡ some r
    → MayRun (q.heap r)
may_run {q} id r h e =
    (All-lookup (λ e. IsRunning e.0 (q.heap e.1)) id r q.running h.sound.runs e).0

pub complete_task-IsQueue :
    (env : Env) (id : Text) (bytes : ℕ) (q : TaskQueue)
    → IsQueue q
    → IsQueue (complete_task env id bytes q)
unfolding complete_task complete
complete_task-IsQueue env id bytes q h = elim (Option-cases (lookup id q.running)) [
  | inl e ↦ rw (e, complete_task) h
  | inr (r, e) ↦
      rw (e, complete_task)
        (persist_state-IsQueue env _ (record {
          gone = h.gone;
          sound = completed id r _ e h.sound refl (may_run id r h e, refl);
          listed =
              relist id r (q.heap r) e h.sound refl _ _ h.listed (
                perm_into q.pending
                  (perm_into (values (delete id q.running)) (snoc_into q.done _)));
        }))
]

fail_task_cases :
    (env : Env) (id msg : Text) (q : TaskQueue) (r : Ref)
    → lookup id q.running ≡ some r
    → (((q.heap r).attempts + 1 < (q.heap r).max_retries)
        × (fail_task env id msg q ≡ (true, retry env id msg r q)))
      ⊎ (((q.heap r).max_retries ≤ (q.heap r).attempts + 1)
          × (fail_task env id msg q ≡ (false, abandon env id msg r q)))
unfolding fail_task
fail_task_cases env id msg q r e = ground arith

retry-IsQueue :
    (env : Env) (id msg : Text) (q : TaskQueue) (r : Ref)
    → lookup id q.running ≡ some r
    → (q.heap r).attempts + 1 < (q.heap r).max_retries
    → IsQueue q
    → IsQueue (retry env id msg r q)
unfolding retry
retry-IsQueue env id msg q r e small h = persist_state-IsQueue env _ (record {
  gone = h.gone;
  sound = retried id r _ e h.sound refl (inr small, inr refl);
  listed = relist id r (q.heap r) e h.sound refl _ _ h.listed (snoc_into q.pending _);
})

abandon-IsQueue :
    (env : Env) (id msg : Text) (q : TaskQueue) (r : Ref)
    → lookup id q.running ≡ some r
    → (q.heap r).max_retries ≤ (q.heap r).attempts + 1
    → IsQueue q
    → IsQueue (abandon env id msg r q)
unfolding abandon
abandon-IsQueue env id msg q r e last h = persist_state-IsQueue env _ (record {
  gone = h.gone;
  sound = gave_up id r _ e h.sound refl (refl, last_attempt (may_run id r h e));
  listed = relist id r (q.heap r) e h.sound refl _ _ h.listed (
      perm_into q.pending
        (perm_into (values (delete id q.running)) (perm_into q.done (snoc_into q.failed _))));
})
  where
    last_attempt :
        MayRun (q.heap r)
        → ((q.heap r).attempts + 1 ≡ (q.heap r).max_retries)
          ⊎ (((q.heap r).attempts + 1 ≡ 1) × ((q.heap r).max_retries ≡ 0))
    last_attempt may = omega arith

pub fail_task-IsQueue :
    (env : Env) (id msg : Text) (q : TaskQueue) → IsQueue q → IsQueue (fail_task env id msg q).1
fail_task-IsQueue env id msg q h = elim (Option-cases (lookup id q.running)) [
  | inl e ↦ unfold fail_task in rw (e, fail_task) h
  | inr (r, e) ↦ elim (fail_task_cases env id msg q r e) [
    | inl (small, ends) ↦ rw ends (retry-IsQueue env id msg q r e small h)
    | inr (last, ends) ↦ rw ends (abandon-IsQueue env id msg q r e last h)
  ]
]

-- What a caller owes for new tasks: they wait, and their identifiers are new.
abbrev pub AreNew : TaskQueue → List Ref → Type 0
AreNew q new = All (λ r. IsWaiting (q.heap r)) new × Nodup (ids q.heap (new ++ q.tasks))

pub add_tasks-IsQueue :
    (new : List Ref) (q : TaskQueue) → AreNew q new → IsQueue q → IsQueue (add_tasks new q)
unfolding add_tasks
add_tasks-IsQueue new q (wait, fresh) h = record {
  gone = h.gone;
  sound = record {
    distinct = Perm.nodup (Perm.map (λ r. (q.heap r).id) same) fresh;
    keys = h.sound.keys;
    waits = All-append (λ r. IsWaiting (q.heap r)) q.pending new h.sound.waits wait;
    runs = h.sound.runs;
    succeeds = h.sound.succeeds;
    gives_up = h.sound.gives_up;
    replaced = h.sound.replaced;
  };
  listed = Perm.trans (perm_append_comm q.tasks new) same;
}
  where
    rest : List Ref
    rest = values q.running ++ (q.done ++ (q.failed ++ h.gone))

    same : Perm (new ++ q.tasks) ((q.pending ++ new) ++ rest)
    same =
        Perm.trans (Perm.append_left new h.listed)
          (rw (← append_assoc) (Perm.append_right rest (perm_append_comm new q.pending)))

-- The first statement of `ReplaceTasks`.
forget : Text → TaskQueue → TaskQueue
forget old q = record q { running = delete old q.running }

update_same : (heap : Heap) (r : Ref) → update heap r (heap r) ≡ heap
update_same heap r =
    fun_ext
      λ j. elim (Bool-cases (r == j)) [ inl e ↦ rw e (ap heap ((==_iff r j).0 e)) | inr e ↦ rw e ]

forget-IsQueue : (old : Text) (q : TaskQueue) → IsQueue q → IsQueue (forget old q)
unfolding forget
forget-IsQueue old q h = elim (Option-cases (lookup old q.running)) [
  | inl e ↦ rw (delete_absent old q.running e) h
  | inr (r, e) ↦
      let (may, runs, _) =
        All-lookup (λ e. IsRunning e.0 (q.heap e.1)) old r q.running h.sound.runs e in
      record {
        gone = r ∷ h.gone;
        sound =
            subst
              (λ heap. IsSound heap q.pending (delete old q.running) q.done q.failed (r ∷ h.gone))
              (update_same q.heap r) (was_replaced old r (q.heap r) e h.sound refl (may, runs));
        listed = relist old r (q.heap r) e h.sound refl _ _ h.listed (
            perm_into q.pending (
              perm_into (values (delete old q.running))
                (perm_into q.done (perm_middle q.failed h.gone))));
      }
]

pub replace_tasks-IsQueue :
    (env : Env) (old : Text) (new : List Ref) (q : TaskQueue)
    → AreNew q new
    → IsQueue q
    → IsQueue (replace_tasks env old new q)
unfolding replace_tasks forget add_tasks
replace_tasks-IsQueue env old new q fresh h =
    persist_state-IsQueue env _
      (add_tasks-IsQueue new (forget old q) fresh (forget-IsQueue old q h))
