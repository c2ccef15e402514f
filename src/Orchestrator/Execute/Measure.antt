-- ===== src/Orchestrator/Execute/Measure.antt =====
-- What is left to do in a state of `executeTasks`: the tasks that may still be split, and the attempts
-- that are left.
use victoriametrics_data_mig.Prelude.{
  ℕ, ◌+◌, ◌-◌, ◌*◌, ◌≤◌, ◌<◌, ◌≡◌, ◌⊎◌, inl, inr, List, [], ◌∷◌, ◌++◌, some, arith, Text, Map,
  lookup, delete, values, HasDistinctKeys, values-delete-perm, ltb, ◌==◌, ==_iff, ap, Bool-cases,
  if◌then◌else◌, length, sum_of, sum_of-perm, sum_of-append,
}
use victoriametrics_data_mig.Types.{Task}
use victoriametrics_data_mig.Scheduler.Queue.{Ref, Heap, update, TaskQueue}
use victoriametrics_data_mig.Orchestrator.Execute.{Exec, Pc, dispatching, receiving}

-- The runs that a task that may run has left, one at least.
abbrev pub tries : Task → ℕ
tries t = if ltb (t.attempts + 1) t.max_retries then t.max_retries - t.attempts else 1

abbrev pub unsplit : Task → ℕ
unsplit t = if t.split_attempted then 0 else 1

abbrev pub over : (Task → ℕ) → Heap → List Ref → ℕ
over f heap rs = sum_of (λ r. f (heap r)) rs

abbrev pub active : TaskQueue → List Ref
active q = q.pending ++ values q.running

abbrev pub splits : TaskQueue → ℕ
splits q = over unsplit q.heap (active q)

abbrev pub runs : TaskQueue → ℕ
runs q = over tries q.heap (active q)

abbrev pub pc_weight : Pc → ℕ
pc_weight dispatching = 1
pc_weight receiving = 0

abbrev pub weight : Exec → ℕ
weight s = 4 * runs s.queue + 2 * length s.queue.pending + length s.flying + pc_weight s.pc

pub over_le :
    (f : Task → ℕ) (heap heap' : Heap) (rs : List Ref)
    → ((j : Ref) → f (heap' j) ≤ f (heap j))
    → over f heap' rs ≤ over f heap rs
over_le f heap heap' [] h = omega arith
over_le f heap heap' (r ∷ rs) h = omega (arith, h r, over_le f heap heap' rs h)

pub update_le :
    (f : Task → ℕ) (heap : Heap) (r : Ref) (t : Task)
    → f t ≤ f (heap r)
    → (j : Ref) → f (update heap r t j) ≤ f (heap j)
update_le f heap r t h j = elim (Bool-cases (r == j)) [
  | inl e ↦ rw e (omega (arith, h, ap (λ k. f (heap k)) ((==_iff r j).0 e)))
  | inr e ↦ rw e (omega arith)
]

-- A running task leaves the active ones, and no other gains.
pub over-delete :
    (f : Task → ℕ) (heap heap' : Heap) (waiting : List Ref) (m : Map Ref) (id : Text) (r : Ref)
    → HasDistinctKeys m
    → lookup id m ≡ some r
    → ((j : Ref) → f (heap' j) ≤ f (heap j))
    → over f heap' (waiting ++ values (delete id m)) + f (heap r)
      ≤ over f heap (waiting ++ values m)
over-delete f heap heap' waiting m id r distinct found h = omega (
  arith,
  over_le f heap heap' waiting h,
  over_le f heap heap' (values (delete id m)) h,
  sum_of-append (λ j. f (heap' j)) waiting (values (delete id m)),
  sum_of-append (λ j. f (heap j)) waiting (values m),
  sum_of-perm (λ j. f (heap j)) (values-delete-perm id r m distinct found),
)

-- The same, with tasks that are put behind the pending ones.
pub over-moves :
    (f : Task → ℕ) (heap heap' : Heap) (waiting new : List Ref) (m : Map Ref) (id : Text) (r : Ref)
    → HasDistinctKeys m
    → lookup id m ≡ some r
    → ((j : Ref) → f (heap' j) ≤ f (heap j))
    → over f heap' ((waiting ++ new) ++ values (delete id m)) + f (heap r)
      ≤ over f heap (waiting ++ values m) + over f heap' new
over-moves f heap heap' waiting new m id r distinct found h = omega (
  arith,
  over-delete f heap heap' waiting m id r distinct found h,
  sum_of-append (λ j. f (heap' j)) (waiting ++ new) (values (delete id m)),
  sum_of-append (λ j. f (heap' j)) waiting new,
  sum_of-append (λ j. f (heap' j)) waiting (values (delete id m)),
)

-- As much as one result takes off: a split that may be made, or two units of weight.
abbrev pub Drops : TaskQueue → TaskQueue → Type 0
Drops p q =
    (splits q < splits p)
    ⊎ (splits q ≤ splits p)
      × (4 * runs q + 2 * length q.pending + 2 ≤ 4 * runs p + 2 * length p.pending)
