-- ===== src/Scheduler/Queue/Invariant.antt =====
-- The life of a task in the queue of internal/scheduler/task.go.
use mathlib.Core.List.{Mem, Nodup, mem-map_of_mem}
use mathlib.Core.List.Perm
use victoriametrics_data_mig.Prelude.{
  ◌<◌, ◌≡◌, ◌⊎◌, inl, inr, List, ◌∷◌, ◌++◌, Perm, none, Text, Map, All, All-lookup, lookup, values,
  HasDistinctKeys, is_empty, Bool-cases, Option-cases,
}
use victoriametrics_data_mig.Types.{Task, running, pending, succeeded, retrying, abandoned}
use victoriametrics_data_mig.Scheduler.Queue.{Ref, Heap, update, TaskQueue, Env, persist_state}
use victoriametrics_data_mig.Scheduler.Queue.Refs.{
  ids, ids-update, head-not-mem, mem-values_of_lookup,
}

-- A task that may be dispatched: new, or failed fewer times than it may.
abbrev pub MayRun : Task → Type 0
MayRun t = (t.attempts ≡ 0) ⊎ (t.attempts < t.max_retries)

abbrev pub IsWaiting : Task → Type 0
IsWaiting t = MayRun t × ((t.status ≡ pending) ⊎ (t.status ≡ retrying))

abbrev pub IsRunning : Text → Task → Type 0
IsRunning id t = MayRun t × (t.status ≡ running) × (t.id ≡ id)

abbrev pub IsSucceeded : Task → Type 0
IsSucceeded t = MayRun t × (t.status ≡ succeeded)

-- Given up after exactly `max_retries` attempts, or after one where that is 0.
abbrev pub IsAbandoned : Task → Type 0
IsAbandoned t =
    (t.status ≡ abandoned) × ((t.attempts ≡ t.max_retries) ⊎ (t.attempts ≡ 1) × (t.max_retries ≡ 0))

-- A task that was split into others keeps the status it had.
abbrev pub IsReplaced : Task → Type 0
IsReplaced t = MayRun t × (t.status ≡ running)

-- All tasks of a queue; `gone` are those that others have replaced.
abbrev pub live : List Ref → Map Ref → List Ref → List Ref → List Ref → List Ref
live waiting active done given_up gone = waiting ++ (values active ++ (done ++ (given_up ++ gone)))

-- The lists hold tasks of different identifiers, each in the state that its list stands for, and
-- `running` finds a task under its own identifier.
pub record IsSound (heap : Heap) (waiting : List Ref) (active : Map Ref)
    (done given_up gone : List Ref) : Type 0 where
  pub distinct : Nodup (ids heap (live waiting active done given_up gone))
  pub keys : HasDistinctKeys active
  pub waits : All (λ r. IsWaiting (heap r)) waiting
  pub runs : All (λ e. IsRunning e.0 (heap e.1)) active
  pub succeeds : All (λ r. IsSucceeded (heap r)) done
  pub replaced : All (λ r. IsReplaced (heap r)) gone
  pub gives_up : All (λ r. IsAbandoned (heap r)) given_up

pub record IsQueue (q : TaskQueue) : Type 0 where
  pub gone : List Ref
  pub sound : IsSound q.heap q.pending q.running q.done q.failed gone
  pub listed : Perm q.tasks (live q.pending q.running q.done q.failed gone)

pub persist_state-IsQueue : (env : Env) (q : TaskQueue) → IsQueue q → IsQueue (persist_state env q)
unfolding persist_state
persist_state-IsQueue env q h = elim (Bool-cases (is_empty q.state_file)) [
  | inl off ↦ rw off h
  | inr on ↦ elim (Bool-cases env.can_write) [
    | inl w ↦ rw (on, w) (record { gone = h.gone; sound = h.sound; listed = h.listed })
    | inr w ↦ rw (on, w) (record { gone = h.gone; sound = h.sound; listed = h.listed })
  ]
]

-- A task moves between the lists, and is written to without a change of its identifier.
module _ {heap : Heap} {waiting : List Ref} {active : Map Ref} {done given_up gone : List Ref}
    (sound : IsSound heap waiting active done given_up gone) (r : Ref) (others : List Ref)
    (all : Perm (live waiting active done given_up gone) (r ∷ others)) where
  pub distinct_moved :
      (t : Task) (after : List Ref)
      → t.id ≡ (heap r).id
      → Perm after (r ∷ others)
      → Nodup (ids (update heap r t) after)
  distinct_moved t after same_id p =
      rw (ids-update heap r t after same_id)
        (Perm.nodup (Perm.map (λ j. (heap j).id) (Perm.trans all (Perm.symm p))) sound.distinct)

  pub not_among_others : ¬ Mem r others
  not_among_others =
      head-not-mem heap r others (Perm.nodup (Perm.map (λ j. (heap j).id) all) sound.distinct)

-- An identifier that another task has is not a key of `running`.
pub lookup_fresh :
    (heap : Heap) (id : Text) (active : Map Ref)
    → All (λ e. IsRunning e.0 (heap e.1)) active
    → ¬ Mem id (ids heap (values active))
    → lookup id active ≡ none
lookup_fresh heap id active runs absent = elim (Option-cases (lookup id active)) [
  | inl e ↦ e
  | inr (r, e) ↦
      let (_, _, named) = All-lookup (λ e. IsRunning e.0 (heap e.1)) id r active runs e in
      absurd (
        absent
          (rw named at (mem-map_of_mem (λ j. (heap j).id) (mem-values_of_lookup id r active e))))
]
