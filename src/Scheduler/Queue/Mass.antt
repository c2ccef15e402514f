-- ===== src/Scheduler/Queue/Mass.antt =====
-- What the tasks of the queue of internal/scheduler/task.go weigh together, but for those that others
-- have replaced. A task is weighed by its selector and its times, which no method changes.
use mathlib.Core.List.{Mem, mem-cons_self, mem-cons_of_mem, mem-append_left, mem-append_right}
use mathlib.Core.List.Perm
use victoriametrics_data_mig.Prelude.{
  ℕ, ◌+◌, ◌≡◌, refl, inl, inr, List, [], ◌∷◌, ◌++◌, some, arith, Text, Map, lookup, delete, values,
  HasDistinctKeys, values-delete-perm, sum_of, sum_of-perm, sum_of-append, Bool-cases, ◌==◌, ==_iff,
  ap, ◌∙◌,
}
use victoriametrics_data_mig.Scheduler.Calendar.{Time}
use victoriametrics_data_mig.Types.{Task}
use victoriametrics_data_mig.Scheduler.Queue.{
  Ref, Heap, update, TaskQueue, Env, add_tasks, complete_task, fail_task, next_from, start,
  replace_tasks,
}
use victoriametrics_data_mig.Scheduler.Queue.Invariant.{IsQueue, IsSound, live}
use victoriametrics_data_mig.Scheduler.Queue.Moves.{delete_unused}
use victoriametrics_data_mig.Scheduler.Queue.Effects.{
  SameTasks, complete_task_effect, fail_task_effect, replace_tasks_effect, succeeded_task,
  retrying_task, abandoned_task,
}

-- Two measures that agree on the members of a list.
pub sum_of-agree {ℓ} :
    {A : Type ℓ} (f g : A → ℕ) (xs : List A)
    → ((a : A) → Mem a xs → f a ≡ g a)
    → sum_of f xs ≡ sum_of g xs
sum_of-agree f g [] same = refl
sum_of-agree f g (x ∷ xs) same =
    omega (arith, same x mem-cons_self, sum_of-agree f g xs (λ a m. same a (mem-cons_of_mem x m)))

module _ (weigh : Text → Time → Time → ℕ) where
  abbrev pub weight : Task → ℕ
  weight t = weigh t.selector t.time_start t.time_end

  abbrev pub mass_of : Heap → List Ref → Map Ref → List Ref → List Ref → ℕ
  mass_of heap waiting active done given_up =
      let g : Ref → ℕ = λ r. weight (heap r) in
      sum_of g waiting + (sum_of g (values active) + (sum_of g done + sum_of g given_up))

  unfoldable pub mass : TaskQueue → ℕ
  mass q = mass_of q.heap q.pending q.running q.done q.failed

  mass-SameTasks : (p q : TaskQueue) → SameTasks p q → mass p ≡ mass q
  unfolding mass
  mass-SameTasks p q (heap, tasks, pending, running, done, failed) =
      rw (heap, pending, running, done, failed) refl

  steady :
      (heap : Heap) (r : Ref) (t : Task)
      → weight t ≡ weight (heap r)
      → (j : Ref) → weight (update heap r t j) ≡ weight (heap j)
  steady heap r t same j = elim (Bool-cases (r == j)) [
    | inl e ↦ rw e (same ∙ ap (λ k. weight (heap k)) ((==_iff r j).0 e))
    | inr e ↦ rw e refl
  ]

  mass_of-update :
      (heap : Heap) (r : Ref) (t : Task) (waiting : List Ref) (active : Map Ref)
      (done given_up : List Ref)
      → weight t ≡ weight (heap r)
      → mass_of (update heap r t) waiting active done given_up
        ≡ mass_of heap waiting active done given_up
  mass_of-update heap r t waiting active done given_up same =
      let all : (xs : List Ref)
          → sum_of (λ j. weight (update heap r t j)) xs ≡ sum_of (λ j. weight (heap j)) xs =
        λ xs. sum_of-agree _ _ xs (λ j m. steady heap r t same j) in
      omega (arith, all waiting, all (values active), all done, all given_up)

  -- A task that leaves `running`.
  leaves :
      (heap : Heap) (id : Text) (r : Ref) (active : Map Ref)
      → HasDistinctKeys active
      → lookup id active ≡ some r
      → sum_of (λ j. weight (heap j)) (values active)
        ≡ weight (heap r) + sum_of (λ j. weight (heap j)) (values (delete id active))
  leaves heap id r active distinct found =
      sum_of-perm (λ j. weight (heap j)) (values-delete-perm id r active distinct found)

  starts :
      (heap : Heap) (r : Ref) (t : Task) (id : Text) (rest : List Ref) (active : Map Ref)
      (done given_up : List Ref)
      → weight t ≡ weight (heap r)
      → mass_of (update heap r t) rest ((id, r) ∷ active) done given_up
        ≡ mass_of heap (r ∷ rest) active done given_up
  starts heap r t id rest active done given_up same =
      omega (arith, mass_of-update heap r t rest ((id, r) ∷ active) done given_up same)

  pub next_from-mass :
      (env : Env) (q : TaskQueue) (rs : List Ref)
      → q.pending ≡ rs
      → IsQueue q
      → mass (next_from env rs q).1 ≡ mass q
  unfolding next_from start mass
  next_from-mass env q [] e h = refl
  next_from-mass env q (r ∷ rest) e h =
      let whole : IsSound q.heap (r ∷ rest) q.running q.done q.failed h.gone = rw e at h.sound in
      rw (delete_unused r whole, e)
        (starts q.heap r _ (q.heap r).id rest q.running q.done q.failed refl)

  module _ (env : Env) (id : Text) (q : TaskQueue) (r : Ref) (h : IsQueue q)
      (found : lookup id q.running ≡ some r) where
    pub complete_task-mass : (bytes : ℕ) → mass (complete_task env id bytes q) ≡ mass q
    unfolding mass
    complete_task-mass bytes =
        let g : Ref → ℕ = λ j. weight (q.heap j) in
        omega (
          arith,
          mass-SameTasks (complete_task env id bytes q)
              (record q {
                heap = update q.heap r (succeeded_task env id q r found bytes);
                running = delete id q.running;
                done = q.done ++ r ∷ [];
              })
              (complete_task_effect env id q r found bytes),
          mass_of-update q.heap r (succeeded_task env id q r found bytes) q.pending
              (delete id q.running) (q.done ++ r ∷ []) q.failed refl,
          sum_of-append g q.done (r ∷ []),
          leaves q.heap id r q.running h.sound.keys found,
        )

    pub fail_task-mass : (msg : Text) → mass (fail_task env id msg q).1 ≡ mass q
    unfolding mass
    fail_task-mass msg =
        let g : Ref → ℕ = λ j. weight (q.heap j) in
        elim (fail_task_effect env id q r found msg) [
          | inl (more, again, same) ↦ omega (
            arith,
            mass-SameTasks (fail_task env id msg q).1
                (record q {
                  heap = update q.heap r (retrying_task env id q r found msg);
                  running = delete id q.running;
                  pending = q.pending ++ r ∷ [];
                })
                same,
            mass_of-update q.heap r (retrying_task env id q r found msg) (q.pending ++ r ∷ [])
                (delete id q.running) q.done q.failed refl,
            sum_of-append g q.pending (r ∷ []),
            leaves q.heap id r q.running h.sound.keys found,
          )
          | inr (last, given_up, same) ↦ omega (
            arith,
            mass-SameTasks (fail_task env id msg q).1
                (record q {
                  heap = update q.heap r (abandoned_task env id q r found msg);
                  running = delete id q.running;
                  failed = q.failed ++ r ∷ [];
                })
                same,
            mass_of-update q.heap r (abandoned_task env id q r found msg) q.pending
                (delete id q.running) q.done (q.failed ++ r ∷ []) refl,
            sum_of-append g q.failed (r ∷ []),
            leaves q.heap id r q.running h.sound.keys found,
          )
        ]

    -- The task that is replaced gives its weight up to the new ones.
    pub replace_tasks-mass :
        (new : List Ref)
        → mass (replace_tasks env id new q) + weight (q.heap r)
          ≡ mass q + sum_of (λ j. weight (q.heap j)) new
    unfolding mass
    replace_tasks-mass new = omega (
      arith,
      mass-SameTasks (replace_tasks env id new q)
          (record q {
            running = delete id q.running;
            tasks = q.tasks ++ new;
            pending = q.pending ++ new;
          })
          (replace_tasks_effect env id new q),
      sum_of-append (λ j. weight (q.heap j)) q.pending new,
      leaves q.heap id r q.running h.sound.keys found,
    )

  pub add_tasks-mass :
      (new : List Ref) (q : TaskQueue)
      → mass (add_tasks new q) ≡ mass q + sum_of (λ j. weight (q.heap j)) new
  unfolding mass add_tasks
  add_tasks-mass new q = omega (arith, sum_of-append (λ j. weight (q.heap j)) q.pending new)

  -- A heap that agrees on all tasks of the queue.
  pub mass-heap :
      (q : TaskQueue) (heap : Heap)
      → IsQueue q
      → ((r : Ref) → Mem r q.tasks → heap r ≡ q.heap r)
      → mass (record q { heap = heap }) ≡ mass q
  unfolding mass
  mass-heap q heap h same =
      let listed : (r : Ref)
          → Mem r (live q.pending q.running q.done q.failed h.gone)
          → heap r ≡ q.heap r =
        λ r m. same r (Perm.subset (Perm.symm h.listed) r m) in
      let g : Ref → ℕ = λ j. weight (heap j) in
      let f : Ref → ℕ = λ j. weight (q.heap j) in
      let active = values q.running in
      omega (
        arith,
        sum_of-agree g f q.pending (λ r m. ap weight (listed r (mem-append_left _ m))),
        sum_of-agree g f active
            (λ r m. ap weight (listed r (mem-append_right q.pending (mem-append_left _ m)))),
        sum_of-agree g f q.done (λ r m. ap weight (
            listed r (mem-append_right q.pending (mem-append_right active (mem-append_left _ m))))),
        sum_of-agree g f q.failed (λ r m. ap weight (
            listed r (
              mem-append_right q.pending
                (mem-append_right active (mem-append_right q.done (mem-append_left _ m)))))),
      )
