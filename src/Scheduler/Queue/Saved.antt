-- ===== src/Scheduler/Queue/Saved.antt =====
-- The state file of `persistState` tells the same story twice: as counters and as task statuses.
use victoriametrics_data_mig.Prelude.{
  ℕ, ◌+◌, ◌≡◌, refl, ap, ◌∙◌, Bool, true, false, List, [], ◌∷◌, ◌++◌, map, arith, Map, All, All-map,
  values, keep, keep_everything, keep_none, keep-append, keep-perm, length, length-append,
  length-perm, is_empty, append-nil, inl, inr,
}
use victoriametrics_data_mig.Types.{Task, TaskStatus, running, succeeded}
use victoriametrics_data_mig.Scheduler.Queue.{
  Ref, Heap, TaskQueue, Env, persist_state, MigrationState, holds, snapshot, is_abandoned,
}
use victoriametrics_data_mig.Scheduler.Queue.Invariant.{IsWaiting, IsRunning, live, IsQueue}

abbrev pub is_succeeded : TaskStatus → Bool
is_succeeded succeeded = true
is_succeeded _ = false

abbrev pub count_status : (TaskStatus → Bool) → List Task → ℕ
count_status p ts = length (keep (λ t. p t.status) ts)

keep-map :
    (p : TaskStatus → Bool) (heap : Heap) (rs : List Ref)
    → count_status p (map heap rs) ≡ length (keep (λ r. p (heap r).status) rs)
keep-map p heap [] = refl
keep-map p heap (r ∷ rs) = ground (arith, keep-map p heap rs)

waiting_status :
    (t : Task) → IsWaiting t → (is_succeeded t.status ≡ false) × (is_abandoned t.status ≡ false)
waiting_status t (_, inl e) = rw e (refl, refl)
waiting_status t (_, inr e) = rw e (refl, refl)

-- The tasks of a status that only the list `rs` has.
module _ (p : TaskStatus → Bool) (heap : Heap) where
  passes : Ref → Bool
  passes r = p (heap r).status

  active_none :
      (m : Map Ref)
      → p running ≡ false
      → All (λ e. IsRunning e.0 (heap e.1)) m
      → All (λ r. p (heap r).status ≡ false) (values m)
  active_none [] off h = tt
  active_none ((k, r) ∷ m) off ((_, e, _), h) = (rw e off, active_none m off h)

  count_live :
      (waiting : List Ref) (active : Map Ref) (done given_up gone : List Ref)
      → All (λ r. p (heap r).status ≡ false) waiting
      → All (λ r. p (heap r).status ≡ false) (values active)
      → All (λ r. p (heap r).status ≡ false) gone
      → keep passes (live waiting active done given_up gone)
        ≡ keep passes done ++ keep passes given_up
  unfolding passes
  count_live waiting active done given_up gone w a g = simp (
    keep-append,
    keep_none passes waiting w,
    keep_none passes (values active) a,
    keep_none passes gone g,
    append-nil,
  )

module _ (q : TaskQueue) (h : IsQueue q) where
  count_tasks :
      (p : TaskStatus → Bool)
      → All (λ r. p (q.heap r).status ≡ false) q.pending
      → p running ≡ false
      → count_status p (map q.heap q.tasks)
        ≡ length (keep (passes p q.heap) q.done) + length (keep (passes p q.heap) q.failed)
  unfolding passes
  count_tasks p w off =
      keep-map p q.heap q.tasks
      ∙ length-perm (keep-perm (passes p q.heap) h.listed)
      ∙ ap length (
          count_live p q.heap q.pending q.running q.done q.failed h.gone w
            (active_none p q.heap q.running off h.sound.runs)
            (All-map (λ r g. ap p g.1 ∙ off) h.gone h.sound.replaced))
      ∙ length-append (keep (passes p q.heap) q.done) (keep (passes p q.heap) q.failed)

  pub done_counted : count_status is_succeeded (map q.heap q.tasks) ≡ length q.done
  unfolding passes
  done_counted =
      count_tasks is_succeeded
        (All-map (λ r w. (waiting_status (q.heap r) w).0) q.pending h.sound.waits) refl
      ∙ rw
          (
            keep_everything (passes is_succeeded q.heap) q.done
                (All-map (λ r g. ap is_succeeded g.1) q.done h.sound.succeeds),
            keep_none (passes is_succeeded q.heap) q.failed
                (All-map (λ r g. ap is_succeeded g.0) q.failed h.sound.gives_up),
          )
          (omega arith)

  given_up_counted : count_status is_abandoned (map q.heap q.tasks) ≡ length q.failed
  unfolding passes
  given_up_counted =
      count_tasks is_abandoned
        (All-map (λ r w. (waiting_status (q.heap r) w).1) q.pending h.sound.waits) refl
      ∙ rw
          (
            keep_none (passes is_abandoned q.heap) q.done
                (All-map (λ r g. ap is_abandoned g.1) q.done h.sound.succeeds),
            keep_everything (passes is_abandoned q.heap) q.failed
                (All-map (λ r g. ap is_abandoned g.0) q.failed h.sound.gives_up),
          )
          (omega arith)

-- Where a queue with the invariant has a state file and the write succeeds, the state that is
-- written lists the tasks of the queue and counts them right: as completed those whose status is
-- succeeded, and as failed those whose status is abandoned.
pub persist_state_counts :
    (env : Env) (q : TaskQueue)
    → IsQueue q
    → is_empty q.state_file ≡ false
    → env.can_write ≡ true
    → (s : MigrationState) × ((persist_state env q).disk ≡ holds s)
      × (s.tasks ≡ map q.heap q.tasks)
      × (count_status is_succeeded s.tasks ≡ s.completed_tasks)
      × (count_status is_abandoned s.tasks ≡ s.failed_tasks)
unfolding persist_state
persist_state_counts env q h on ok =
    (snapshot env q, rw (on, ok) refl, refl, done_counted q h, given_up_counted q h)
