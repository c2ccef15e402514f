-- ===== src/Orchestrator/Execute/Numbering.antt =====
-- New tasks get new numbers, so that no identifier is given twice.
use mathlib.Core.List.{Mem, Nodup, Nodup-nil, Nodup-cons, Nodup-append, not-mem-nil}
use mathlib.Core.List.{mem-cons}
use native.Mathlib.Bridge.{le_prop}
use mathlib.Core.Logic.Or
use mathlib.Core.HLevel.{⊥_prop}
use victoriametrics_data_mig.Prelude.{
  ℕ, ◌+◌, ◌≤◌, ◌<◌, ◌≡◌, refl, sym, subst, ap, ◌∙◌, List, [], ◌∷◌, ◌++◌, map, arith, All, All-map,
  All-append, Nodup-of_map, Nodup-map, length, decimal_injective,
}
use victoriametrics_data_mig.Types.{Task}
use victoriametrics_data_mig.Scheduler.Queue.{Ref, Heap, update, TaskQueue}
use victoriametrics_data_mig.Scheduler.Queue.Refs.{ids, update_self, update_ne}
use victoriametrics_data_mig.Scheduler.Queue.Invariant.{IsWaiting, IsQueue}
use victoriametrics_data_mig.Scheduler.Queue.Preserved.{AreNew}
use victoriametrics_data_mig.Scheduler.Queue.Reach.{create-IsQueue}
use victoriametrics_data_mig.Orchestrator.Execute.{task_id, make_tasks, new_refs}

pub task_id_injective : (m n : ℕ) → task_id m ≡ task_id n → m ≡ n
unfolding task_id
task_id_injective m n e = decimal_injective m n (ground arith)

-- Every task has the number of its address, and a number already given.
abbrev pub IsNumbered : ℕ → Heap → List Ref → Type 0
IsNumbered n heap = All (λ r. (r ≤ n) × ((heap r).id ≡ task_id r))

new_refs_above {ℓ} : {A : Type ℓ} (sels : List A) (n r : ℕ) → Mem r (new_refs sels n) → n < r
unfolding new_refs
new_refs_above [] n r m = absurd (not-mem-nil m)
new_refs_above (sel ∷ sels) n r m =
    Or.elim le_prop (mem-cons.0 m) (λ e. omega arith)
      (λ later. omega (arith, new_refs_above sels (n + 1) r later))

not_old : (n r : ℕ) (heap : Heap) (rs : List Ref) → IsNumbered n heap rs → n < r → ¬ Mem r rs
not_old n r heap [] h lt m = not-mem-nil m
not_old n r heap (s ∷ rs) ((low, _), h) lt m =
    Or.elim ⊥_prop (mem-cons.0 m) (λ e. omega arith) (not_old n r heap rs h lt)

new_refs-Nodup {ℓ} : {A : Type ℓ} (sels : List A) (n : ℕ) → Nodup (new_refs sels n)
unfolding new_refs
new_refs-Nodup [] n = Nodup-nil
new_refs-Nodup (sel ∷ sels) n =
    Nodup-cons.1
      ((λ m. omega (arith, new_refs_above sels (n + 1) (n + 1) m)), new_refs-Nodup sels (n + 1))

pub IsNumbered-update :
    (n m : ℕ) (heap : Heap) (t : Task) (rs : List Ref)
    → n < m
    → IsNumbered n heap rs
    → IsNumbered m (update heap m t) rs
IsNumbered-update n m heap t [] lt h = tt
IsNumbered-update n m heap t (r ∷ rs) lt ((low, named), h) = (
  (omega arith, rw (update_ne heap m t r (λ e. omega arith)) named),
  IsNumbered-update n m heap t rs lt h,
)

ids_numbered :
    (n : ℕ) (heap : Heap) (rs : List Ref) → IsNumbered n heap rs → ids heap rs ≡ map task_id rs
ids_numbered n heap [] h = refl
ids_numbered n heap (r ∷ rs) ((_, named), h) = cc (named, ids_numbered n heap rs h)

module _ {ℓ} {A : Type ℓ} (make : A → ℕ → Task) where
  abbrev pub make_heap : List A → ℕ → Heap → Heap
  make_heap sels n heap = (make_tasks make sels n heap).1

  pub make_counter :
      (sels : List A) (n : ℕ) (heap : Heap) → (make_tasks make sels n heap).0 ≡ n + length sels
  unfolding make_tasks
  make_counter [] n heap = omega arith
  make_counter (sel ∷ sels) n heap =
      omega (arith, make_counter sels (n + 1) (update heap (n + 1) (make sel (n + 1))))

  pub make_below :
      (sels : List A) (n : ℕ) (heap : Heap) (r : Ref) → r ≤ n → make_heap sels n heap r ≡ heap r
  unfolding make_tasks
  make_below [] n heap r h = refl
  make_below (sel ∷ sels) n heap r h =
      make_below sels (n + 1) _ r (omega arith) ∙ update_ne heap (n + 1) _ r (λ e. omega arith)

  pub make-IsQueue :
      (sels : List A) (n : ℕ) (heap : Heap) (q : TaskQueue)
      → IsNumbered n heap q.tasks
      → IsQueue (record q { heap = heap })
      → IsQueue (record q { heap = make_heap sels n heap })
  unfolding make_tasks
  make-IsQueue [] n heap q numbered h = h
  make-IsQueue (sel ∷ sels) n heap q numbered h =
      let t = make sel (n + 1) in
      make-IsQueue sels (n + 1) (update heap (n + 1) t) q
        (IsNumbered-update n (n + 1) heap t q.tasks (omega arith) numbered)
        (create-IsQueue (record q { heap = heap }) (n + 1) t
          (not_old n (n + 1) heap q.tasks numbered (omega arith)) h)

module _ {ℓ} {A : Type ℓ} (make : A → ℕ → Task) (P : Task → Type 0)
    (named : (a : A) (n : ℕ) → ((make a n).id ≡ task_id n) × P (make a n)) where
  -- What a new task looks like.
  abbrev pub IsMade : ℕ → ℕ → Heap → Ref → Type 0
  IsMade n m heap r = (n < r) × (r ≤ m) × ((heap r).id ≡ task_id r) × P (heap r)

  pub make-IsMade :
      (sels : List A) (n : ℕ) (heap : Heap)
      → All (IsMade n (n + length sels) (make_heap make sels n heap)) (new_refs sels n)
  unfolding make_tasks new_refs
  make-IsMade [] n heap = tt
  make-IsMade (sel ∷ sels) n heap =
      let t = make sel (n + 1) in
      let heap' = update heap (n + 1) t in
      let same : make_heap make sels (n + 1) heap' (n + 1) ≡ t =
        make_below make sels (n + 1) heap' (n + 1) (omega arith) ∙ update_self heap (n + 1) t in
      (
        (
          omega arith,
          omega arith,
          ap (λ (u : Task). u.id) same ∙ (named sel (n + 1)).0,
          subst P (sym same) (named sel (n + 1)).1,
        ),
        All-map (λ r (low, high, same_id, p). (omega arith, omega arith, same_id, p))
            (new_refs sels (n + 1)) (make-IsMade sels (n + 1) heap'),
      )

  -- The old tasks and the new ones are numbered up to the new counter.
  pub make-IsNumbered :
      (sels : List A) (n : ℕ) (heap : Heap) (rs : List Ref)
      → IsNumbered n heap rs
      → IsNumbered (n + length sels) (make_heap make sels n heap) (rs ++ new_refs sels n)
  make-IsNumbered sels n heap rs h =
      All-append _ rs (new_refs sels n)
        (All-map
          (λ r (low, same_id).
            (omega arith, ap (λ (u : Task). u.id) (make_below make sels n heap r low) ∙ same_id))
          rs h)
        (All-map (λ r (low, high, same_id, _). (high, same_id)) (new_refs sels n)
          (make-IsMade sels n heap))

module _ {ℓ} {A : Type ℓ} (make : A → ℕ → Task)
    (named : (a : A) (n : ℕ) → ((make a n).id ≡ task_id n) × IsWaiting (make a n)) where
  -- The new tasks are new to the queue.
  pub make-AreNew :
      (sels : List A) (n : ℕ) (heap : Heap) (q : TaskQueue)
      → IsNumbered n heap q.tasks
      → Nodup (ids heap q.tasks)
      → AreNew (record q { heap = make_heap make sels n heap }) (new_refs sels n)
  make-AreNew sels n heap q numbered distinct = (
    All-map (λ r (_, _, _, waits). waits) (new_refs sels n)
        (make-IsMade make IsWaiting named sels n heap),
    rw
        (ids_numbered (n + length sels) (make_heap make sels n heap) (new_refs sels n ++ q.tasks)
          numbered_all)
        (Nodup-map task_id task_id_injective (new_refs sels n ++ q.tasks) (
          Nodup-append.1 (
            new_refs-Nodup sels n,
            Nodup-of_map (λ r. (heap r).id) q.tasks distinct,
            λ a new old. not_old n a heap q.tasks numbered (new_refs_above sels n a new) old,
          ))),
  )
    where
      numbered_all :
          IsNumbered (n + length sels) (make_heap make sels n heap) (new_refs sels n ++ q.tasks)
      numbered_all =
          All-append _ (new_refs sels n) q.tasks
            (All-map (λ r (low, high, same_id, _). (high, same_id)) (new_refs sels n)
              (make-IsMade make IsWaiting named sels n heap))
            (All-map
              (λ r (low, same_id). (
                omega arith,
                ap (λ (u : Task). u.id) (make_below make sels n heap r low) ∙ same_id,
              ))
              q.tasks numbered)
